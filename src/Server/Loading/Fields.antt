-- ===== src/Server/Loading/Fields.antt =====
-- The expression that `loadHistoryFromFile` searches for, on the text that `saveHistoryLocked`
-- writes: it takes every field as it was written.
use comp_net.Prelude.{
  ℕ, ◌≡◌, refl, sym, inl, inr, Bool, true, false, not, ◌||◌, List, [], ◌∷◌, ◌++◌, append-nil,
  append_assoc, arith, ◌==◌, Bool-cases, All,
}
use comp_net.Text.{Text, codes, is_space}
use comp_net.Text.Json.{json_escape, json_escape_char}
use comp_net.Text.Number.{print_nat, is_digit}
use comp_net.Text.Number.Printed.{print_nat-Digits}
use comp_net.Text.Regex.{
  Regex, plus, digit, any, not_quote, match_regex, match_lit, match_one, or_else,
}
use comp_net.Text.Regex.Greedy.{
  Takes, Fails, Rounds, Stops, Takes-seq, Takes-lit, Takes-one, Takes-group, Takes-alt_left,
  Takes-alt_right, Rounds-stop, Rounds-step, Takes-star, Takes-star_one, Takes-plus,
}
use comp_net.Server.History.{bool_text}
use comp_net.Server.Loading.{field, number, string, escape, unit, boolean}

-- The text of a field as it is written, and the text behind it.
abbrev pub written : Text → Text → Text
written name s = codes "\n    " ++ (name ++ (codes " " ++ s))

spaces_before : All (λ c. is_space c ≡ true) (codes "\n    ")
unfolding codes is_space
spaces_before = (refl, (refl, (refl, (refl, (refl, tt)))))

space_behind : All (λ c. is_space c ≡ true) (codes " ")
unfolding codes is_space
space_behind = (refl, tt)

pub Takes-field :
    (value : Regex) (name s t : Text) (found : List Text)
    → Stops is_space (name ++ (codes " " ++ s))
    → Stops is_space s
    → Takes value s found t
    → Takes (field name value) (written name s) found t
Takes-field value name s t found hn hs hv =
    let blank = Regex.star (Regex.one is_space) in
    let after = Regex.seq blank value in
    let inner : Takes after (codes " " ++ s) found t = rw (sym (append-nil found)) (
      Takes-seq blank value (codes " " ++ s) s t [] found
        (Takes-star_one is_space (codes " ") s space_behind hs) hv) in
    let named : Takes (Regex.seq (Regex.lit name) after) (name ++ (codes " " ++ s)) found t =
      rw (sym (append-nil found)) (
        Takes-seq (Regex.lit name) after _ (codes " " ++ s) t [] found
          (Takes-lit name (codes " " ++ s)) inner) in
    rw (sym (append-nil found)) (
      Takes-seq blank (Regex.seq (Regex.lit name) after) (written name s) (name ++ (codes " " ++ s))
        t [] found (Takes-star_one is_space (codes "\n    ") _ spaces_before hn) named)

pub Takes-number :
    (n : ℕ) (s : Text) → Stops is_digit s → Takes number (print_nat n ++ s) (print_nat n ∷ []) s
Takes-number n s h =
    let (c, w, e, hc, hw) = print_nat-Digits n in
    let taken = Takes-plus is_digit c w s hc hw h in
    Takes-group (plus digit) (print_nat n) s (rw e taken)

quote-Fails : (s : Text) → Fails unit (34 ∷ s)
unfolding match_regex match_lit match_one or_else
quote-Fails s groups k = refl

escape-Takes : (c : ℕ) (s : Text) → not (c == 10 || c == 13) ≡ true → Takes unit (92 ∷ c ∷ s) [] s
escape-Takes c s h = Takes-alt_left escape not_quote (92 ∷ c ∷ s) s [] (
    Takes-seq (Regex.lit (92 ∷ [])) any (92 ∷ c ∷ s) (c ∷ s) s [] [] (Takes-lit (92 ∷ []) (c ∷ s))
      (Takes-one _ c s h))

escape-Fails : (c : ℕ) (s : Text) → (92 == c) ≡ false → Fails escape (c ∷ s)
unfolding match_regex match_lit
escape-Fails c s h groups k = rw h refl

plain-Takes : (c : ℕ) (s : Text) → (92 == c) ≡ false → (c == 34) ≡ false → Takes unit (c ∷ s) [] s
plain-Takes c s b q =
    Takes-alt_right escape not_quote (c ∷ s) s [] (escape-Fails c s b) (Takes-one _ c s (rw q refl))

Rounds-escape :
    (c : ℕ) (s rest : Text)
    → not (c == 10 || c == 13) ≡ true
    → Rounds unit s rest
    → Rounds unit (92 ∷ c ∷ s) rest
Rounds-escape c s rest h = Rounds-step unit (92 ∷ c ∷ s) s rest (omega arith) (escape-Takes c s h)

Rounds-escaped :
    (c : ℕ) (s rest : Text) → Rounds unit s rest → Rounds unit (json_escape_char c ++ s) rest
unfolding json_escape_char
Rounds-escaped c s rest h = elim (Bool-cases (c == 92)) [
  | inl e ↦ rw e (Rounds-escape 92 s rest refl h)
  | inr e92 ↦ elim (Bool-cases (c == 34)) [
    | inl e ↦ rw (e92, e) (Rounds-escape 34 s rest refl h)
    | inr e34 ↦ elim (Bool-cases (c == 10)) [
      | inl e ↦ rw (e92, e34, e) (Rounds-escape b'n' s rest refl h)
      | inr e10 ↦ elim (Bool-cases (c == 13)) [
        | inl e ↦ rw (e92, e34, e10, e) (Rounds-escape b'r' s rest refl h)
        | inr e13 ↦ elim (Bool-cases (c == 9)) [
          | inl e ↦ rw (e92, e34, e10, e13, e) (Rounds-escape b't' s rest refl h)
          | inr e9 ↦
              (let not_slash : (92 == c) ≡ false = ground arith in
                rw (e92, e34, e10, e13, e9)
                  (Rounds-step unit (c ∷ s) s rest (omega arith) (plain-Takes c s not_slash e34) h))
        ]
      ]
    ]
  ]
]

Rounds-string : (t s : Text) → Rounds unit (json_escape t ++ 34 ∷ s) (34 ∷ s)
unfolding json_escape
Rounds-string [] s = Rounds-stop unit (34 ∷ s) (quote-Fails s)
Rounds-string (c ∷ t) s =
    rw (append_assoc (json_escape_char c) (json_escape t) (34 ∷ s))
      (Rounds-escaped c (json_escape t ++ 34 ∷ s) (34 ∷ s) (Rounds-string t s))

pub Takes-string : (t s : Text) → Takes string (34 ∷ json_escape t ++ 34 ∷ s) (json_escape t ∷ []) s
Takes-string t s =
    let quote = Regex.lit (34 ∷ []) in
    let body =
      Takes-group (Regex.star unit) (json_escape t) (34 ∷ s)
        (Takes-star unit (json_escape t ++ 34 ∷ s) (34 ∷ s) (Rounds-string t s)) in
    Takes-seq quote (Regex.seq (Regex.group (Regex.star unit)) quote) _ (json_escape t ++ 34 ∷ s) s
      [] (json_escape t ∷ []) (Takes-lit (34 ∷ []) (json_escape t ++ 34 ∷ s))
      (Takes-seq (Regex.group (Regex.star unit)) quote _ (34 ∷ s) s (json_escape t ∷ []) [] body
        (Takes-lit (34 ∷ []) s))

false-Fails : (s : Text) → Fails (Regex.lit (codes "true")) (codes "false" ++ s)
unfolding match_regex match_lit codes
false-Fails s groups k = refl

pub Takes-boolean : (b : Bool) (s : Text) → Takes boolean (bool_text b ++ s) (bool_text b ∷ []) s
unfolding bool_text
Takes-boolean true s =
    Takes-group (Regex.alt (Regex.lit (codes "true")) (Regex.lit (codes "false"))) (codes "true") s
      (Takes-alt_left (Regex.lit (codes "true")) (Regex.lit (codes "false")) _ s []
        (Takes-lit (codes "true") s))
Takes-boolean false s =
    Takes-group (Regex.alt (Regex.lit (codes "true")) (Regex.lit (codes "false"))) (codes "false") s
      (Takes-alt_right (Regex.lit (codes "true")) (Regex.lit (codes "false")) _ s [] (false-Fails s)
        (Takes-lit (codes "false") s))
