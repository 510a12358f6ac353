-- ===== src/Text/Number.antt =====
-- Numbers in texts: what `<<` writes for an unsigned number, and `std::stoi`.
pub mod Printed
use comp_net.Prelude.{
  ℕ, zero, suc, ◌+◌, ◌-◌, ◌*◌, ◌/◌, ◌%◌, ◌^◌, Bool, ◌&&◌, Option, none, some, [], ◌∷◌, ltb, leb,
  ◌==◌, if◌then◌else◌, min,
}
use comp_net.Text.{Text}
use comp_net.Text.Trim.{drop_spaces}

-- `negsuc n` is -(n + 1).
pub data ℤ : Type 0 where
  pos : ℕ → ℤ
  negsuc : ℕ → ℤ

-- The digits of `n` in front of `acc`.
unfoldable pub print_digits : ℕ → ℕ → Text → Text
print_digits zero n acc = acc
print_digits (suc fuel) n acc =
    let rest = print_digits fuel (n / 10) ((48 + n % 10) ∷ acc) in
    if ltb n 10 then (48 + n) ∷ acc else rest

unfoldable pub print_nat : ℕ → Text
unfolding print_digits
print_nat n = print_digits (suc n) n []

unfoldable pub is_digit : ℕ → Bool
is_digit c = leb 48 c && leb c 57

-- The value of the digits at the front, from `acc` on.
unfoldable pub read_digits : ℕ → Text → ℕ
read_digits acc [] = acc
read_digits acc (c ∷ s) =
    let more = read_digits (acc * 10 + (c - 48)) s in if is_digit c then more else acc

-- At least one digit, and a value within the bound.
unfoldable pub read_number : ℕ → Text → Option ℕ
unfolding read_digits is_digit
read_number bound [] = none
read_number bound (c ∷ s) =
    if is_digit c
    then (let n = read_digits 0 (c ∷ s) in if leb n bound then some n else none)
    else none

negate : ℕ → ℤ
negate zero = pos 0
negate (suc n) = negsuc n

abbrev map_option : (ℕ → ℤ) → Option ℕ → Option ℤ
map_option f none = none
map_option f (some n) = some (f n)

-- `std::stoi`: white space, a sign, digits, and anything behind them. `none` is an exception: no
-- digits, or a value that an `int` does not hold.
stoi_signed : Text → Option ℤ
unfolding read_number negate
stoi_signed [] = none
stoi_signed (c ∷ s) =
    if c == b'-'
    then map_option negate (read_number (2 ^ 31) s)
    else if c == b'+'
    then map_option pos (read_number (2 ^ 31 - 1) s)
    else map_option pos (read_number (2 ^ 31 - 1) (c ∷ s))

unfoldable pub stoi : Text → Option ℤ
unfolding stoi_signed drop_spaces
stoi s = stoi_signed (drop_spaces s)

-- `std::stoul` and `std::stoll` on a text without a sign; `none` is the exception.
unfoldable pub stoul : Text → Option ℕ
unfolding read_number drop_spaces
stoul s = read_number (2 ^ 64 - 1) (drop_spaces s)

unfoldable pub stoll : Text → Option ℕ
unfolding read_number drop_spaces
stoll s = read_number (2 ^ 63 - 1) (drop_spaces s)

-- An `int` from the low bits of a number.
unfoldable pub to_int : ℕ → ℤ
to_int n = let w = n % 2 ^ 32 in if ltb w (2 ^ 31) then pos w else negsuc (2 ^ 32 - 1 - w)

-- `std::atoi`, which the C library defines by `strtol`: white space, a sign, digits; no digits are
-- 0, a value out of range becomes the nearest `long`, and an `int` keeps the low bits of that.
unfoldable pub atoi_signed : Text → ℤ
unfolding to_int read_digits
atoi_signed [] = to_int 0
atoi_signed (c ∷ s) =
    if c == b'-'
    then to_int (2 ^ 64 - min (2 ^ 63) (read_digits 0 s))
    else if c == b'+'
    then to_int (min (2 ^ 63 - 1) (read_digits 0 s))
    else to_int (min (2 ^ 63 - 1) (read_digits 0 (c ∷ s)))

unfoldable pub atoi : Text → ℤ
unfolding atoi_signed drop_spaces
atoi s = atoi_signed (drop_spaces s)
