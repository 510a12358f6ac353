-- ===== src/Text/Trim/Joined.antt =====
-- When `trim` leaves a text alone that is put together from others.
use comp_net.Prelude.{
  ◌≤◌, ◌≡◌, refl, sym, ap, ◌∙◌, inl, inr, false, [], ◌∷◌, ◌++◌, arith, Bool-cases, length, is_empty,
}
use comp_net.Text.{Text, is_space}
use comp_net.Text.Trim.{
  trim, drop_spaces, drop_spaces_end, strip, trim-strip, drop_spaces-strip, drop_spaces_end_twice,
}

length-drop_spaces-le : (s : Text) → length (drop_spaces s) ≤ length s
unfolding drop_spaces
length-drop_spaces-le [] = omega arith
length-drop_spaces-le (c ∷ s) = ground (arith, length-drop_spaces-le s)

-- No white space in front, and something there.
starts_text : (s r : Text) → drop_spaces s ≡ s → is_empty s ≡ false → drop_spaces (s ++ r) ≡ s ++ r
unfolding drop_spaces
starts_text [] r h e = ground arith
starts_text (c ∷ s) r h e = elim (Bool-cases (is_space c)) [
  | inl blank ↦
      let gone : drop_spaces s ≡ c ∷ s = rw blank at h in
      absurd (omega (arith, ap length gone, length-drop_spaces-le s))
  | inr dark ↦ rw dark refl
]

-- No white space at the end, and something there.
pub record IsClosed (s : Text) : Type 0 where
  pub ends : drop_spaces_end s ≡ s
  pub there : is_empty s ≡ false

there-append : (s r : Text) → is_empty r ≡ false → is_empty (s ++ r) ≡ false
there-append [] r h = h
there-append (c ∷ s) r h = refl

pub append-IsClosed : (s r : Text) → IsClosed r → IsClosed (s ++ r)
unfolding drop_spaces_end
append-IsClosed [] r h = h
append-IsClosed (c ∷ s) r h =
    let more = append-IsClosed s r h in
    record { ends = rw (more.ends, more.there) (ground arith); there = refl }

drop_spaces-trimmed : (s : Text) → trim s ≡ s → drop_spaces s ≡ s
drop_spaces-trimmed s h =
    let kept : strip s ≡ s = sym (trim-strip s) ∙ h in
    sym (ap drop_spaces kept) ∙ drop_spaces-strip s ∙ kept

pub trimmed-IsClosed : (s : Text) → trim s ≡ s → is_empty s ≡ false → IsClosed s
unfolding strip
trimmed-IsClosed s h e =
    let kept : strip s ≡ s = sym (trim-strip s) ∙ h in
    record {
      ends = sym (ap drop_spaces_end kept) ∙ drop_spaces_end_twice (drop_spaces s) ∙ kept;
      there = e;
    }

-- A trimmed text, and behind it whatever has no white space at its end.
pub trim-append :
    (s r : Text) → trim s ≡ s → is_empty s ≡ false → IsClosed r → trim (s ++ r) ≡ s ++ r
unfolding strip
trim-append s r h e closed =
    trim-strip (s ++ r)
    ∙ ap drop_spaces_end (starts_text s r (drop_spaces-trimmed s h) e)
    ∙ (append-IsClosed s r closed).ends

-- Two trimmed texts with a space between them.
pub trim-words :
    (s t : Text)
    → trim s ≡ s
    → is_empty s ≡ false
    → trim t ≡ t
    → is_empty t ≡ false
    → trim (s ++ b' ' ∷ t) ≡ s ++ b' ' ∷ t
trim-words s t hs es ht et =
    trim-append s (b' ' ∷ t) hs es (append-IsClosed (b' ' ∷ []) t (trimmed-IsClosed t ht et))
