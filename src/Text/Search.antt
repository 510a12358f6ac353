-- ===== src/Text/Search.antt =====
-- The searches in texts of LAB6/server.cpp and LAB6/client.cpp: `find` and `rfind(prefix, 0)`.
use comp_net.Prelude.{
  ℕ, suc, ◌+◌, ◌≡◌, refl, Bool, Option, none, some, [], ◌∷◌, ◌++◌, arith, ◌==◌, if◌then◌else◌,
  length, take, drop,
}
use comp_net.Text.{Text, text_eq}

-- `find` of a character.
unfoldable pub find_char : ℕ → Text → Option ℕ
find_char c [] = none
find_char c (x ∷ s) =
    if x == c then some 0 else (elim (find_char c s) [ none ↦ none | some i ↦ some (suc i) ])

-- `text.rfind(prefix, 0) == 0`
unfoldable pub starts_with : Text → Text → Bool
starts_with prefix text = text_eq (take (length prefix) text) prefix

-- The first place of a character that the text in front does not have, and what is behind it.
pub find_char-append :
    (c : ℕ) (front text : Text)
    → find_char c front ≡ none
    → find_char c (front ++ c ∷ text) ≡ some (length front)
unfolding find_char
find_char-append c [] text h = ground arith
find_char-append c (x ∷ front) text h = ground (arith, find_char-append c front text)

pub drop_behind : (c : ℕ) (front text : Text) → drop (length front + 1) (front ++ c ∷ text) ≡ text
drop_behind c [] text = refl
drop_behind c (x ∷ front) text =
    let step : length (x ∷ front) + 1 ≡ suc (length front + 1) = omega arith in
    rw step (drop_behind c front text)
