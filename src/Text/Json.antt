-- ===== src/Text/Json.antt =====
-- `jsonEscape` and `jsonUnescape` of LAB6/server.cpp.
use comp_net.Prelude.{ℕ, ◌≡◌, refl, false, [], ◌∷◌, ◌++◌, arith, ◌==◌, if◌then◌else◌}
use comp_net.Text.{Text}

-- The cases of the `switch`: backslash, quote, line feed, carriage return, tab.
unfoldable pub json_escape_char : ℕ → Text
json_escape_char c =
    if c == 92
    then 92 ∷ 92 ∷ []
    else if c == 34
    then 92 ∷ 34 ∷ []
    else if c == 10
    then 92 ∷ b'n' ∷ []
    else if c == 13
    then 92 ∷ b'r' ∷ []
    else if c == 9
    then 92 ∷ b't' ∷ []
    else c ∷ []

unfoldable pub json_escape : Text → Text
unfolding json_escape_char
json_escape [] = []
json_escape (c ∷ value) = json_escape_char c ++ json_escape value

-- The inner `switch`, on the character after a backslash.
json_unescape_char : ℕ → ℕ
json_unescape_char next =
    if next == b'n' then 10 else if next == b'r' then 13 else if next == b't' then 9 else next

-- A backslash that ends the text stands for itself.
unfoldable pub json_unescape : Text → Text
unfolding json_unescape_char
json_unescape [] = []
json_unescape (c ∷ []) = c ∷ []
json_unescape (c ∷ next ∷ rest) =
    let pair = json_unescape_char next ∷ json_unescape rest in
    let single = c ∷ json_unescape (next ∷ rest) in if c == 92 then pair else single

json_unescape_plain :
    (c : ℕ) (s : Text) → (c == 92) ≡ false → json_unescape (c ∷ s) ≡ c ∷ json_unescape s
unfolding json_unescape
json_unescape_plain c [] h = refl
json_unescape_plain c (x ∷ s) h = rw h

-- Escaping loses nothing: what `jsonUnescape` reads back is the text that was escaped.
pub json_unescape-json_escape : (s : Text) → json_unescape (json_escape s) ≡ s
unfolding json_escape json_unescape
json_unescape-json_escape [] = refl
json_unescape-json_escape (c ∷ s) =
    ground (arith, json_unescape-json_escape s, json_unescape_plain c (json_escape s))
