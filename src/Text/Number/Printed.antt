-- ===== src/Text/Number/Printed.antt =====
-- A number that is printed, and read again.
use comp_net.Prelude.{
  ℕ, zero, suc, ◌+◌, ◌-◌, ◌*◌, ◌/◌, ◌%◌, ◌^◌, ◌≤◌, ◌<◌, ◌≡◌, refl, sym, ap, ◌∙◌, inl, inr, true,
  false, some, [], ◌∷◌, arith, ltb, leb, ltb→lt, Bool-cases, length, All,
}
use comp_net.Text.{Text, is_space}
use comp_net.Text.Trim.{drop_spaces}
use comp_net.Text.Number.{print_digits, print_nat, read_digits, read_number, is_digit, stoul, stoll}

abbrev pub IsDigit : ℕ → Type 0
IsDigit c = is_digit c ≡ true

IsDigit-code : (d : ℕ) → d < 10 → IsDigit (48 + d)
unfolding is_digit
IsDigit-code d h = ground arith

read_digits-digit :
    (a d : ℕ) (s : Text) → d < 10 → read_digits a ((48 + d) ∷ s) ≡ read_digits (a * 10 + d) s
unfolding read_digits
read_digits-digit a d s h = let e : 48 + d - 48 ≡ d = omega arith in rw (IsDigit-code d h, e) refl

read_digits-print_digits :
    (fuel n : ℕ) (acc : Text)
    → n < fuel
    → read_digits 0 (print_digits fuel n acc) ≡ read_digits n acc
unfolding print_digits
read_digits-print_digits zero n acc h = absurd (omega arith)
read_digits-print_digits (suc fuel) n acc h = elim (Bool-cases (ltb n 10)) [
  | inl e ↦
      (let at_zero : 0 * 10 + n ≡ n = omega arith in
        let step = read_digits-digit 0 n acc (ltb→lt n 10 e) in
        rw e (step ∙ ap (λ a. read_digits a acc) at_zero))
  | inr e ↦
      (let q : ((n / 10) * 10 + n % 10 ≡ n) × (n % 10 < 10) × (n / 10 < fuel) = ground arith in
        let more = read_digits-print_digits fuel (n / 10) ((48 + n % 10) ∷ acc) q.2 in
        let step = read_digits-digit (n / 10) (n % 10) acc q.1 in
        rw e (more ∙ step ∙ ap (λ a. read_digits a acc) q.0))
]

print_digits-IsDigit :
    (fuel n : ℕ) (acc : Text) → All IsDigit acc → All IsDigit (print_digits fuel n acc)
unfolding print_digits
print_digits-IsDigit zero n acc h = h
print_digits-IsDigit (suc fuel) n acc h = elim (Bool-cases (ltb n 10)) [
  | inl e ↦ rw e (IsDigit-code n (ltb→lt n 10 e), h)
  | inr e ↦ rw e (
      print_digits-IsDigit fuel (n / 10) ((48 + n % 10) ∷ acc)
        (IsDigit-code (n % 10) (omega arith), h))
]

length-print_digits :
    (fuel n : ℕ) (acc : Text) → length acc < length (print_digits (suc fuel) n acc)
unfolding print_digits
length-print_digits zero n acc = ground arith
length-print_digits (suc fuel) n acc =
    ground (arith, length-print_digits fuel (n / 10) ((48 + n % 10) ∷ acc))

-- The printed number, as a first digit and the others.
abbrev pub Digits : Text → Type 0
Digits s = (c : ℕ) × (w : Text) × (s ≡ c ∷ w) × IsDigit c × All IsDigit w

Digits-cons : (s : Text) → 0 < length s → All IsDigit s → Digits s
Digits-cons [] h a = absurd (omega arith)
Digits-cons (c ∷ w) h a = (c, w, refl, a.0, a.1)

pub print_nat-Digits : (n : ℕ) → Digits (print_nat n)
unfolding print_nat
print_nat-Digits n =
    Digits-cons (print_digits (suc n) n []) (length-print_digits n n [])
      (print_digits-IsDigit (suc n) n [] tt)

read_digits-print_nat : (n : ℕ) → read_digits 0 (print_nat n) ≡ n
unfolding print_nat read_digits
read_digits-print_nat n = read_digits-print_digits (suc n) n [] (omega arith)

digit-not_space : (c : ℕ) → IsDigit c → is_space c ≡ false
unfolding is_digit is_space
digit-not_space c h = ground arith

read_digits-cons :
    (c : ℕ) (w : Text) → IsDigit c → read_digits (0 * 10 + (c - 48)) w ≡ read_digits 0 (c ∷ w)
unfolding read_digits
read_digits-cons c w h = rw h refl

read_number-Digits :
    (bound n : ℕ) (s : Text)
    → Digits s
    → read_digits 0 s ≡ n
    → n ≤ bound
    → read_number bound (drop_spaces s) ≡ some n
unfolding read_number drop_spaces
read_number-Digits bound n s (c, w, e, hc, hw) hr hb =
    let start : drop_spaces (c ∷ w) ≡ c ∷ w = rw (digit-not_space c hc) refl in
    let value : read_digits (0 * 10 + (c - 48)) w ≡ n =
      read_digits-cons c w hc ∙ ap (read_digits 0) (sym e) ∙ hr in
    let within : leb n bound ≡ true = ground arith in rw (e, start, hc, value, within) refl

pub stoul-print_nat : (n : ℕ) → n < 2 ^ 64 → stoul (print_nat n) ≡ some n
unfolding stoul
stoul-print_nat n h =
    read_number-Digits (2 ^ 64 - 1) n (print_nat n) (print_nat-Digits n) (read_digits-print_nat n)
      (omega arith)

pub stoll-print_nat : (n : ℕ) → n < 2 ^ 63 → stoll (print_nat n) ≡ some n
unfolding stoll
stoll-print_nat n h =
    read_number-Digits (2 ^ 63 - 1) n (print_nat n) (print_nat-Digits n) (read_digits-print_nat n)
      (omega arith)
