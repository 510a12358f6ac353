-- ===== src/Text/Regex/Greedy.antt =====
-- What a search of `std::regex` finds first.
use comp_net.Prelude.{
  ℕ, zero, suc, ◌-◌, ◌≤◌, ◌<◌, ◌≡◌, refl, sym, Bool, true, false, none, some, List, [], ◌∷◌, ◌++◌,
  append-nil, append_assoc, arith, ltb, if◌then◌else◌, lt→ltb, ==_iff, length, All, length-append,
  take-append_length,
}
use comp_net.Text.{Text}
use comp_net.Text.Regex.{
  Regex, Continue, or_else, match_lit, match_one, repeat, match_regex, match_here, taken, plus,
}

-- From `s` the expression gets to `rest` at the first attempt, and finds these groups.
abbrev pub Takes : Regex → Text → List Text → Text → Type 0
Takes r s found rest =
    (groups : List Text) (k : Continue) (x : List Text × Text)
    → k rest (found ++ groups) ≡ some x
    → match_regex r s groups k ≡ some x

pub Takes-seq :
    (r q : Regex) (s t u : Text) (found more : List Text)
    → Takes r s found t
    → Takes q t more u
    → Takes (Regex.seq r q) s (more ++ found) u
unfolding match_regex
Takes-seq r q s t u found more hr hq groups k x h =
    hr groups _ x (hq (found ++ groups) k x (rw (sym (append_assoc more found groups)) h))

pub Takes-lit : (w s : Text) → Takes (Regex.lit w) (w ++ s) [] s
unfolding match_regex match_lit
Takes-lit [] s groups k x h = h
Takes-lit (c ∷ w) s groups k x h = let e = (==_iff c c).1 refl in rw e (Takes-lit w s groups k x h)

pub Takes-one : (p : ℕ → Bool) (c : ℕ) (s : Text) → p c ≡ true → Takes (Regex.one p) (c ∷ s) [] s
unfolding match_regex match_one
Takes-one p c s e groups k x h = rw e h

taken-append : (w s : Text) → taken (w ++ s) s ≡ w
taken-append w s =
    let n : length (w ++ s) - length s ≡ length w = omega (arith, length-append w s) in
    rw n (take-append_length w s)

pub Takes-group :
    (r : Regex) (w s : Text) → Takes r (w ++ s) [] s → Takes (Regex.group r) (w ++ s) (w ∷ []) s
unfolding match_regex
Takes-group r w s hr groups k x h = hr groups _ x (rw (taken-append w s) h)

pub Takes-alt_left :
    (r q : Regex) (s t : Text) (found : List Text)
    → Takes r s found t
    → Takes (Regex.alt r q) s found t
unfolding match_regex or_else
Takes-alt_left r q s t found hr groups k x h = rw (hr groups k x h)

-- The expression does not match here.
abbrev pub Fails : Regex → Text → Type 0
Fails r s = (groups : List Text) (k : Continue) → match_regex r s groups k ≡ none

pub Takes-alt_right :
    (r q : Regex) (s t : Text) (found : List Text)
    → Fails r s
    → Takes q s found t
    → Takes (Regex.alt r q) s found t
unfolding match_regex or_else
Takes-alt_right r q s t found hf hq groups k x h = rw (hf groups k) (hq groups k x h)

-- The rounds of a star, on any fuel that is enough.
abbrev pub Rounds : Regex → Text → Text → Type 0
Rounds r s rest =
    (fuel : ℕ) (groups : List Text) (k : Continue) (x : List Text × Text)
    → length s ≤ fuel
    → k rest groups ≡ some x
    → repeat (match_regex r) fuel s groups k ≡ some x

pub Rounds-stop : (r : Regex) (s : Text) → Fails r s → Rounds r s s
unfolding repeat or_else
Rounds-stop r s hf zero groups k x p h = h
Rounds-stop r s hf (suc fuel) groups k x p h = rw (hf groups _) h

pub Rounds-step :
    (r : Regex) (s t rest : Text)
    → length t < length s
    → Takes r s [] t
    → Rounds r t rest
    → Rounds r s rest
unfolding repeat or_else
Rounds-step r s t rest l hr ht zero groups k x p h = absurd (omega arith)
Rounds-step r s t rest l hr ht (suc fuel) groups k x p h =
    let e = ht fuel groups k x (omega arith) h in
    let b = lt→ltb (length t) (length s) l in
    rw (
      hr groups
        (λ t1 groups1.
          let more = repeat (match_regex r) fuel t1 groups1 k in
          if ltb (length t1) (length s) then more else none)
        x (rw b e))

pub Takes-star : (r : Regex) (s rest : Text) → Rounds r s rest → Takes (Regex.star r) s [] rest
unfolding match_regex
Takes-star r s rest hr groups k x h = hr (length s) groups k x (omega arith) h

-- A repeated class of characters takes all of them, when the next one is not of the class.
module _ (p : ℕ → Bool) where
  abbrev pub Stops : Text → Type 0
  Stops [] = Unit
  Stops (c ∷ s) = p c ≡ false

  Stops→Fails : (s : Text) → Stops s → Fails (Regex.one p) s
  unfolding match_regex match_one
  Stops→Fails [] h groups k = refl
  Stops→Fails (c ∷ s) h groups k = rw h

  Rounds-one : (w s : Text) → All (λ c. p c ≡ true) w → Stops s → Rounds (Regex.one p) (w ++ s) s
  Rounds-one [] s hw hs = Rounds-stop (Regex.one p) s (Stops→Fails s hs)
  Rounds-one (c ∷ w) s hw hs =
      Rounds-step (Regex.one p) (c ∷ w ++ s) (w ++ s) s (omega arith) (Takes-one p c (w ++ s) hw.0)
        (Rounds-one w s hw.1 hs)

  pub Takes-star_one :
      (w s : Text)
      → All (λ c. p c ≡ true) w
      → Stops s
      → Takes (Regex.star (Regex.one p)) (w ++ s) [] s
  Takes-star_one w s hw hs = Takes-star (Regex.one p) (w ++ s) s (Rounds-one w s hw hs)

  pub Takes-plus :
      (c : ℕ) (w s : Text)
      → p c ≡ true
      → All (λ d. p d ≡ true) w
      → Stops s
      → Takes (plus (Regex.one p)) (c ∷ w ++ s) [] s
  Takes-plus c w s hc hw hs =
      Takes-seq (Regex.one p) (Regex.star (Regex.one p)) (c ∷ w ++ s) (w ++ s) s [] []
        (Takes-one p c (w ++ s) hc) (Takes-star_one w s hw hs)

-- The whole expression at the front of a text.
pub match_here-Takes :
    (r : Regex) (s rest : Text) (found : List Text)
    → Takes r s found rest
    → match_here r s ≡ some (found, rest)
unfolding match_here
match_here-Takes r s rest found h =
    h [] (λ t groups. some (groups, t)) (found, rest) (rw (append-nil found))
