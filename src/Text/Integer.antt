-- ===== src/Text/Integer.antt =====
-- `parseInt(s)`. The numbers that the source computes with are integers or `NaN`; integers are
-- exact here, so texts that denote more than 2^53 are read more precisely than by the source.
use nest_quickfix.Prelude.{
  ℕ, zero, suc, ◌+◌, ◌-◌, ◌*◌, ◌≤◌, ◌≡◌, refl, Bool, true, false, ◌&&◌, ◌||◌, ◌↔◌, Option, none,
  some, [], ◌∷◌, length, All, ltb, leb, nat_eq, arith, Eq, if◌then◌else◌,
}
use nest_quickfix.Text.Defs.{Text}
use nest_quickfix.Text.Decimal.{
  Digit, to_decimal, digits_value, to_decimal-Digit, length-to_decimal, digits_value-to_decimal,
}

-- `neg n` is -(n + 1).
pub data Number : Type 0 where
  nat neg : ℕ → Number
  nan : Number

-- `SameValueZero`, by which `Map` compares numbers: `NaN` is equal to itself.
abbrev pub number_eq : Number → Number → Bool
number_eq (nat a) (nat b) = nat_eq a b
number_eq (neg a) (neg b) = nat_eq a b
number_eq nan nan = true
number_eq _ _ = false

pub number_eq_iff : (a b : Number) → (number_eq a b ≡ true) ↔ (a ≡ b)
number_eq_iff (nat a) (nat b) = ground arith
number_eq_iff (neg a) (neg b) = ground arith
number_eq_iff nan nan = ground arith
number_eq_iff (nat a) (neg b) = ground arith
number_eq_iff (nat a) nan = ground arith
number_eq_iff (neg a) (nat b) = ground arith
number_eq_iff (neg a) nan = ground arith
number_eq_iff nan (nat b) = ground arith
number_eq_iff nan (neg b) = ground arith

instance abbrev pub number_Eq : Eq Number
number_Eq = record { equal = number_eq; equal_iff = number_eq_iff }

-- `String(n)`
unfoldable pub number_text : Number → Text
unfolding to_decimal
number_text (nat n) = to_decimal n
number_text (neg n) = 45 ∷ to_decimal (n + 1)
number_text nan = 78 ∷ 97 ∷ 78 ∷ []

-- The language's white space and line terminators.
unfoldable pub is_space : ℕ → Bool
is_space c =
    leb 9 c && leb c 13
    || nat_eq c 32
    || nat_eq c 160
    || nat_eq c 0x1680
    || leb 0x2000 c && leb c 0x200a
    || nat_eq c 0x2028
    || nat_eq c 0x2029
    || nat_eq c 0x202f
    || nat_eq c 0x205f
    || nat_eq c 0x3000
    || nat_eq c 0xfeff

skip_space : Text → Text
skip_space [] = []
skip_space (c ∷ s) = let rest = skip_space s in if is_space c then rest else c ∷ s

-- The value of a digit of base 36 at most; 36 stands for no digit.
digit_value : ℕ → ℕ
digit_value c =
    if leb 48 c && leb c 57
    then c - 48
    else if leb 65 c && leb c 90
    then c - 55
    else if leb 97 c && leb c 122
    then c - 87
    else 36

-- The digits in front, read in `base`; `none` if there is none.
read_digits : ℕ → Bool → ℕ → Text → Option ℕ
read_digits base seen acc [] = if seen then some acc else none
read_digits base seen acc (c ∷ s) =
    let rest = read_digits base true (acc * base + digit_value c) s in
    if ltb (digit_value c) base then rest else if seen then some acc else none

-- A prefix `0x` changes the base.
read_unsigned : Text → Option ℕ
read_unsigned (c ∷ d ∷ s) =
    if nat_eq c 48 && (nat_eq d 120 || nat_eq d 88)
    then read_digits 16 false 0 s
    else read_digits 10 false 0 (c ∷ d ∷ s)
read_unsigned s = read_digits 10 false 0 s

positive : Option ℕ → Number
positive none = nan
positive (some n) = nat n

negative : Option ℕ → Number
negative none = nan
negative (some zero) = nat 0
negative (some (suc n)) = neg n

read_signed : Text → Number
read_signed [] = nan
read_signed (c ∷ s) =
    if nat_eq c 45
    then negative (read_unsigned s)
    else if nat_eq c 43
    then positive (read_unsigned s)
    else positive (read_unsigned (c ∷ s))

unfoldable pub parse_int : Text → Number
unfolding is_space skip_space digit_value read_digits read_unsigned positive negative read_signed
parse_int s = read_signed (skip_space s)

read_digits-Digit :
    (s : Text) (acc : ℕ) → All Digit s → read_digits 10 true acc s ≡ some (digits_value acc s)
unfolding read_digits digits_value digit_value
read_digits-Digit [] acc h = refl
read_digits-Digit (c ∷ s) acc (d, h) = ground (arith, read_digits-Digit s (acc * 10 + (c - 48)) h)

read_digits_first :
    (c : ℕ) (s : Text)
    → Digit c
    → All Digit s
    → read_digits 10 false 0 (c ∷ s) ≡ some (digits_value 0 (c ∷ s))
unfolding read_digits digits_value digit_value
read_digits_first c s d h = ground (arith, read_digits-Digit s (0 * 10 + (c - 48)) h)

read_unsigned-Digit :
    (c : ℕ) (s : Text)
    → Digit c
    → All Digit s
    → read_unsigned (c ∷ s) ≡ some (digits_value 0 (c ∷ s))
unfolding read_unsigned
read_unsigned-Digit c [] d h = read_digits_first c [] d h
read_unsigned-Digit c (e ∷ s) d h = ground (arith, read_digits_first c (e ∷ s) d h)

-- On plain digits `parseInt` is their value.
pub parse_int-Digit : (s : Text) → 1 ≤ length s → All Digit s → parse_int s ≡ nat (digits_value 0 s)
unfolding parse_int
parse_int-Digit [] l h = elim l [ ]
parse_int-Digit (c ∷ s) l (d, h) = ground (arith, read_unsigned-Digit c s d h)

-- `parseInt(String(n))` is `n`.
pub parse_int-to_decimal : (n : ℕ) → parse_int (to_decimal n) ≡ nat n
parse_int-to_decimal n = rw (
  parse_int-Digit (to_decimal n) (length-to_decimal n) (to_decimal-Digit n),
  digits_value-to_decimal,
)

parse_int_tests :
    (parse_int (49 ∷ 48 ∷ 65 ∷ []) ≡ nat 10)
    × (parse_int (32 ∷ 45 ∷ 55 ∷ []) ≡ neg 6)
    × (parse_int (48 ∷ 120 ∷ 49 ∷ 70 ∷ []) ≡ nat 31)
    × (parse_int (65 ∷ []) ≡ nan)
unfolding parse_int
parse_int_tests = (refl, refl, refl, refl)
