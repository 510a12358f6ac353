-- ===== src/Text/Regex.antt =====
-- `std::regex`, of which LAB6/server.cpp uses the ECMAScript grammar: a search that tries the
-- alternatives in order, repeats as often as it can, and goes back when what follows fails.
pub mod Greedy
use comp_net.Prelude.{
  ℕ, zero, suc, ◌-◌, Bool, not, ◌&&◌, Option, none, some, List, [], ◌∷◌, ◌++◌, ltb, leb, ◌==◌,
  if◌then◌else◌, length, take, ◌||◌,
}
use comp_net.Text.{Text, is_space}
use comp_net.Text.Number.{is_digit}

-- `one` is a character of a class, `group` a part whose text is kept.
pub data Regex : Type 0 where
  one : (ℕ → Bool) → Regex
  lit : Text → Regex
  seq : Regex → Regex → Regex
  alt : Regex → Regex → Regex
  star : Regex → Regex
  group : Regex → Regex

-- `\s`, `\d`, `.` and `[^"]`.
abbrev pub space : Regex
space = one is_space

abbrev pub digit : Regex
digit = one is_digit

abbrev pub any : Regex
any = one (λ c. not (c == 10 || c == 13))

abbrev pub not_quote : Regex
not_quote = one (λ c. not (c == 34))

-- `r+`
abbrev pub plus : Regex → Regex
plus r = seq r (star r)

-- The texts of the groups, the last first, and what is left of the input.
abbrev pub Match : Type 0
Match = Option (List Text × Text)

-- What is to be done with the rest of the input and the groups so far.
abbrev pub Continue : Type 0
Continue = Text → List Text → Match

unfoldable pub or_else : Match → Match → Match
or_else none m = m
or_else (some x) m = some x

unfoldable pub match_lit : Text → Text → List Text → Continue → Match
match_lit [] s groups k = k s groups
match_lit (w ∷ ws) [] groups k = none
match_lit (w ∷ ws) (c ∷ s) groups k =
    let rest = match_lit ws s groups k in if w == c then rest else none

-- One more round if it takes something, or else none. As every round takes a character, the length
-- of the input bounds the rounds.
unfoldable pub repeat :
    (Text → List Text → Continue → Match) → ℕ → Text → List Text → Continue → Match
repeat round zero s groups k = k s groups
repeat round (suc fuel) s groups k =
    or_else
      (round s groups (λ rest groups1.
        let more = repeat round fuel rest groups1 k in
        if ltb (length rest) (length s) then more else none))
      (k s groups)

unfoldable pub match_one : (ℕ → Bool) → Text → List Text → Continue → Match
match_one p [] groups k = none
match_one p (c ∷ s) groups k = if p c then k s groups else none

-- The part of `s` in front of `rest`.
abbrev pub taken : Text → Text → Text
taken s rest = take (length s - length rest) s

unfoldable pub match_regex : Regex → Text → List Text → Continue → Match
unfolding match_lit match_one repeat or_else
match_regex (Regex.one p) s groups k = match_one p s groups k
match_regex (Regex.lit w) s groups k = match_lit w s groups k
match_regex (Regex.seq r q) s groups k =
    match_regex r s groups (λ rest groups1. match_regex q rest groups1 k)
match_regex (Regex.alt r q) s groups k =
    or_else (match_regex r s groups k) (match_regex q s groups k)
match_regex (Regex.star r) s groups k = repeat (match_regex r) (length s) s groups k
match_regex (Regex.group r) s groups k =
    match_regex r s groups (λ rest groups1. k rest (taken s rest ∷ groups1))

-- A match at the front of `s`.
unfoldable pub match_here : Regex → Text → Match
unfolding match_regex
match_here r s = match_regex r s [] (λ rest groups. some (groups, rest))

-- `std::sregex_iterator`: the groups of the matches from left to right, each searched where the
-- last one ended. For an expression that matches no empty text every round takes a character.
unfoldable pub regex_matches : Regex → ℕ → Text → List (List Text)
unfolding match_here
regex_matches r zero s = []
regex_matches r (suc fuel) [] = []
regex_matches r (suc fuel) (c ∷ s) = elim (match_here r (c ∷ s)) [
  | none ↦ regex_matches r fuel s
  | some (groups, rest) ↦ groups ∷ regex_matches r fuel rest
]
