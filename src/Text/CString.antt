-- ===== src/Text/CString.antt =====
-- `setCString` of LAB6/server.cpp and LAB6/client.cpp, and `char` arrays read as texts.
use comp_net.Prelude.{
  ℕ, zero, suc, ◌-◌, ◌≤◌, ◌<◌, ◌≡◌, refl, ap, ◌∙◌, false, [], ◌∷◌, arith, ◌==◌, if◌then◌else◌,
  length, set, take, drop, replicate, length-set, length-replicate,
}
use comp_net.Text.{Text}
use comp_net.Text.Trim.{trim}

-- The text in a `char` array: the bytes before the first NUL. Its length is `strlen`.
unfoldable pub c_str : Text → Text
c_str [] = []
c_str (c ∷ s) = if c == 0 then [] else c ∷ c_str s

-- `std::strncpy(dst, src.c_str(), n)`: `n` bytes, padded with NUL after the end of the source.
unfoldable pub strncpy : Text → Text → ℕ → Text
strncpy dst src zero = dst
strncpy [] src (suc n) = []
strncpy (d ∷ dst) [] (suc n) = 0 ∷ strncpy dst [] n
strncpy (d ∷ dst) (c ∷ src) (suc n) = c ∷ strncpy dst (if c == 0 then [] else src) n

unfoldable pub set_c_string : Text → ℕ → Text → Text
unfolding strncpy
set_c_string dst dst_size src =
    if dst_size == 0 then dst else set (strncpy dst src (dst_size - 1)) (dst_size - 1) 0

-- A zeroed array of the given size, with the text copied into it, as the sources build each field.
unfoldable pub buffer : ℕ → Text → Text
unfolding set_c_string
buffer size src = set_c_string (replicate size 0) size src

length-strncpy : (dst src : Text) (n : ℕ) → length (strncpy dst src n) ≡ length dst
unfolding strncpy
length-strncpy dst src zero = refl
length-strncpy [] src (suc n) = refl
length-strncpy (d ∷ dst) [] (suc n) = ap suc (length-strncpy dst [] n)
length-strncpy (d ∷ dst) (c ∷ src) (suc n) = ap suc (length-strncpy dst _ n)

-- The array keeps its size.
pub length-set_c_string :
    (dst : Text) (dst_size : ℕ) (src : Text) → length (set_c_string dst dst_size src) ≡ length dst
unfolding set_c_string
length-set_c_string dst dst_size src = ground (
  arith,
  length-set (strncpy dst src (dst_size - 1)) (dst_size - 1) 0,
  length-strncpy dst src (dst_size - 1),
)

c_str-strncpy :
    (dst src : Text) (n : ℕ)
    → n < length dst
    → c_str (set (strncpy dst src n) n 0) ≡ take n (c_str src)
unfolding strncpy c_str
c_str-strncpy [] src n h = absurd (omega arith)
c_str-strncpy (d ∷ dst) src zero h = refl
c_str-strncpy (d ∷ dst) [] (suc n) h = refl
c_str-strncpy (d ∷ dst) (c ∷ src) (suc n) h = ground (arith, c_str-strncpy dst src n)

-- What is read back from the array is the text up to its first NUL, cut to fit.
pub c_str-set_c_string :
    (dst : Text) (dst_size : ℕ) (src : Text)
    → 0 < dst_size
    → dst_size ≤ length dst
    → c_str (set_c_string dst dst_size src) ≡ take (dst_size - 1) (c_str src)
unfolding set_c_string
c_str-set_c_string dst dst_size src p h = ground (arith, c_str-strncpy dst src (dst_size - 1))

pub c_str-buffer :
    (size : ℕ) (src : Text) → 0 < size → c_str (buffer size src) ≡ take (size - 1) (c_str src)
unfolding buffer
c_str-buffer size src p =
    c_str-set_c_string (replicate size 0) size src p
      (omega (arith, length-replicate {A = ℕ} size 0))

pub length-buffer : (size : ℕ) (src : Text) → length (buffer size src) ≡ size
unfolding buffer
length-buffer size src = length-set_c_string (replicate size 0) size src ∙ length-replicate size 0

-- A text read from an array has no NUL, so it is its own reading.
pub c_str-c_str : (s : Text) → c_str (c_str s) ≡ c_str s
unfolding c_str
c_str-c_str [] = refl
c_str-c_str (c ∷ s) = ground (arith, c_str-c_str s)

pub c_str-take : (n : ℕ) (s : Text) → c_str (take n (c_str s)) ≡ take n (c_str s)
unfolding c_str
c_str-take zero s = refl
c_str-take (suc n) [] = refl
c_str-take (suc n) (c ∷ s) = ground (arith, c_str-take n s)

pub length-c_str-le : (s : Text) → length (c_str s) ≤ length s
unfolding c_str
length-c_str-le [] = omega arith
length-c_str-le (c ∷ s) = ground (arith, length-c_str-le s)

-- A text with no NUL in it reads as itself, and so does each part of it.
abbrev pub IsCString : Text → Type 0
IsCString s = c_str s ≡ s

pub IsCString-tail : (c : ℕ) (s : Text) → IsCString (c ∷ s) → ((c == 0) ≡ false) × IsCString s
unfolding c_str
IsCString-tail c s h = ground arith

pub IsCString-cons : (c : ℕ) (s : Text) → (c == 0) ≡ false → IsCString s → IsCString (c ∷ s)
unfolding c_str
IsCString-cons c s h e = rw h (ap (◌∷◌ c) e)

pub take-IsCString : (n : ℕ) (s : Text) → IsCString s → IsCString (take n s)
take-IsCString zero s h = unfold c_str in refl
take-IsCString (suc n) [] h = h
take-IsCString (suc n) (c ∷ s) h =
    let (plain, rest) = IsCString-tail c s h in
    IsCString-cons c (take n s) plain (take-IsCString n s rest)

pub drop-IsCString : (n : ℕ) (s : Text) → IsCString s → IsCString (drop n s)
drop-IsCString zero s h = h
drop-IsCString (suc n) [] h = h
drop-IsCString (suc n) (c ∷ s) h = drop-IsCString n s (IsCString-tail c s h).1

pub trim-IsCString : (s : Text) → IsCString s → IsCString (trim s)
unfolding trim
trim-IsCString s h = take-IsCString _ _ (drop-IsCString _ s h)
