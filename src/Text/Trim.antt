-- ===== src/Text/Trim.antt =====
-- `trim` of LAB6/server.cpp and LAB6/client.cpp: two loops over indices, and `substr`.
pub mod Joined
use comp_net.Prelude.{
  ℕ, zero, suc, ◌+◌, ◌-◌, ◌≤◌, ◌<◌, ◌≡◌, refl, sym, ap, ◌∙◌, inl, inr, ◌&&◌, [], ◌∷◌, ◌++◌,
  append_assoc, arith, ltb, if◌then◌else◌, Bool-cases, length, get_or, take, drop, is_empty,
  length-append, length-drop, length-take, take-suc, get_or-drop, get_or-append_length,
  drop-append_length, take_all,
}
use comp_net.Text.{Text, is_space}

-- `while (start < s.size() && isspace(s[start])) ++start;`, with `rounds` = `s.size() - start`.
start_loop : Text → ℕ → ℕ → ℕ
start_loop s zero start = start
start_loop s (suc rounds) start =
    if is_space (get_or s start 0) then start_loop s rounds (start + 1) else start

-- `while (end > start && isspace(s[end - 1])) --end;`
end_loop : Text → ℕ → ℕ → ℕ
end_loop s start zero = zero
end_loop s start (suc e) =
    if ltb start (suc e) && is_space (get_or s e 0) then end_loop s start e else suc e

unfoldable pub trim : Text → Text
unfolding start_loop end_loop is_space
trim s =
    let start = start_loop s (length s) 0 in
    let end = end_loop s start (length s) in take (end - start) (drop start s)

-- The reference: drop the spaces in front, then those behind.
unfoldable pub drop_spaces : Text → Text
drop_spaces [] = []
drop_spaces (c ∷ s) = if is_space c then drop_spaces s else c ∷ s

unfoldable pub drop_spaces_end : Text → Text
drop_spaces_end [] = []
drop_spaces_end (c ∷ s) =
    let rest = drop_spaces_end s in if is_space c && is_empty rest then [] else c ∷ rest

pub strip : Text → Text
unfolding drop_spaces drop_spaces_end
strip s = drop_spaces_end (drop_spaces s)

start_loop_lem :
    (t pre s : Text) (n : ℕ)
    → t ≡ pre ++ s
    → n ≡ length pre
    → (drop (start_loop t (length s) n) t ≡ drop_spaces s) × (start_loop t (length s) n ≤ length t)
unfolding start_loop drop_spaces
start_loop_lem t pre [] n e len =
    (rw (e, len) (drop-append_length pre []), rw (e, len) (omega (arith, length-append pre [])))
start_loop_lem t pre (c ∷ s) n e len =
    let at : get_or t n 0 ≡ c = rw (e, len) (get_or-append_length pre c s 0) in
    let more =
      start_loop_lem t (pre ++ c ∷ []) s (n + 1) (e ∙ sym (append_assoc pre (c ∷ []) s))
        (omega (arith, length-append pre (c ∷ []))) in
    let stop : drop n t ≡ c ∷ s = rw (e, len) (drop-append_length pre (c ∷ s)) in
    let fits : n ≤ length t = rw (e, len) (omega (arith, length-append pre (c ∷ s))) in
    ground (arith, at, more, stop, fits)

drop_spaces_end-append :
    (s : Text) (c : ℕ)
    → drop_spaces_end (s ++ c ∷ []) ≡ (if is_space c then drop_spaces_end s else s ++ c ∷ [])
unfolding drop_spaces_end
drop_spaces_end-append [] c = ground arith
drop_spaces_end-append (x ∷ []) c = ground arith
drop_spaces_end-append (x ∷ y ∷ s) c = ground (arith, drop_spaces_end-append (y ∷ s) c)

pub length-drop_spaces_end-le : (s : Text) → length (drop_spaces_end s) ≤ length s
unfolding drop_spaces_end
length-drop_spaces_end-le [] = omega arith
length-drop_spaces_end-le (c ∷ s) = ground (arith, length-drop_spaces_end-le s)

end_loop_stop : (s : Text) (start : ℕ) → end_loop s start start ≡ start
unfolding end_loop
end_loop_stop s zero = refl
end_loop_stop s (suc e) = ground arith

-- `end` after the second loop, from `end = start + k`.
end_loop_lem :
    (s : Text) (start k : ℕ)
    → start + k ≤ length s
    → end_loop s start (start + k) ≡ start + length (drop_spaces_end (take k (drop start s)))
unfolding end_loop
end_loop_lem s start zero h =
    let e : start + 0 ≡ start = omega arith in
    unfold drop_spaces_end in rw e (end_loop_stop s start)
end_loop_lem s start (suc k) h =
    let rest = drop start s in
    let e : start + suc k ≡ suc (start + k) = omega arith in
    let last : get_or rest k 0 ≡ get_or s (start + k) 0 = get_or-drop start k s 0 in
    let room : k < length rest = omega (arith, length-drop start s) in
    let split : drop_spaces_end (take (suc k) rest) ≡ (
        if is_space (get_or s (start + k) 0)
        then drop_spaces_end (take k rest)
        else take k rest ++ get_or s (start + k) 0 ∷ []) =
      rw (take-suc k rest 0 room, last) (drop_spaces_end-append (take k rest) _) in
    let len = length-append (take k rest) (get_or s (start + k) 0 ∷ []) in
    let ih = end_loop_lem s start k (omega arith) in
    rw (e, split) (ground (arith, ih, len, length-take k rest))

length-drop_end_take : (s : Text) → take (length (drop_spaces_end s)) s ≡ drop_spaces_end s
unfolding drop_spaces_end
length-drop_end_take [] = refl
length-drop_end_take (c ∷ s) = elim (Bool-cases (is_space c && is_empty (drop_spaces_end s))) [
  | inl e ↦ rw e
  | inr e ↦ rw e (ap (◌∷◌ c) (length-drop_end_take s))
]

-- `trim` removes the white space at both ends and nothing else.
pub trim-strip : (s : Text) → trim s ≡ strip s
unfolding trim strip
trim-strip s =
    let start = start_loop s (length s) 0 in
    let (front, fits) = start_loop_lem s [] s 0 refl refl in
    let size : start + (length s - start) ≡ length s = omega arith in
    let all : take (length s - start) (drop start s) ≡ drop_spaces s =
      take_all _ _ (omega (arith, length-drop start s)) ∙ front in
    let last : end_loop s start (length s) ≡ start + length (drop_spaces_end (drop_spaces s)) =
      rw size at (rw all at (end_loop_lem s start (length s - start) (omega arith))) in
    let kept : end_loop s start (length s) - start ≡ length (drop_spaces_end (drop_spaces s)) =
      omega arith in
    rw (kept, front) (length-drop_end_take (drop_spaces s))

drop_spaces_twice : (s : Text) → drop_spaces (drop_spaces s) ≡ drop_spaces s
unfolding drop_spaces
drop_spaces_twice [] = refl
drop_spaces_twice (c ∷ s) = ground (arith, drop_spaces_twice s)

pub drop_spaces_end_twice : (s : Text) → drop_spaces_end (drop_spaces_end s) ≡ drop_spaces_end s
unfolding drop_spaces_end
drop_spaces_end_twice [] = refl
drop_spaces_end_twice (c ∷ s) = ground (arith, drop_spaces_end_twice s)

-- The end is cut after the front: the front stays without white space.
pub drop_spaces-strip : (s : Text) → drop_spaces (strip s) ≡ strip s
unfolding strip drop_spaces drop_spaces_end
drop_spaces-strip [] = refl
drop_spaces-strip (c ∷ s) = ground (arith, drop_spaces-strip s)

strip_twice : (s : Text) → strip (strip s) ≡ strip s
unfolding strip
strip_twice s = ap drop_spaces_end (drop_spaces-strip s) ∙ drop_spaces_end_twice (drop_spaces s)

-- A text that was trimmed has nothing left to trim.
pub trim-trim : (s : Text) → trim (trim s) ≡ trim s
trim-trim s = trim-strip (trim s) ∙ ap strip (trim-strip s) ∙ strip_twice s ∙ sym (trim-strip s)
