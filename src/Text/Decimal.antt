-- ===== src/Text/Decimal.antt =====
-- `String(n)` and `padStart` on natural numbers, and the reading back of digits.
use nest_quickfix.Prelude.{
  ℕ, zero, suc, ◌+◌, ◌-◌, ◌*◌, ◌/◌, ◌%◌, ◌≤◌, ◌<◌, ◌≡◌, refl, inl, inr, [], ◌∷◌, ◌++◌, Bool-cases,
  length, length-append, All, All-append, ltb, arith, if◌then◌else◌,
}
use nest_quickfix.Text.Defs.{Text}

abbrev pub Digit : ℕ → Type 0
Digit c = (48 ≤ c) × (c ≤ 57)

-- The digits of `n`, with fuel above `n`.
digits_of : ℕ → ℕ → Text
digits_of zero n = []
digits_of (suc fuel) n =
    let high = digits_of fuel (n / 10) in
    if ltb n 10 then (48 + n) ∷ [] else high ++ (48 + n % 10) ∷ []

-- `n.toString()`
unfoldable pub to_decimal : ℕ → Text
unfolding digits_of
to_decimal n = digits_of (suc n) n

unfoldable pub zeros : ℕ → Text
zeros zero = []
zeros (suc n) = 48 ∷ zeros n

-- `s.padStart(width, '0')`
unfoldable pub pad_start : ℕ → Text → Text
unfolding zeros
pad_start width s = zeros (width - length s) ++ s

-- The value of a run of digits, after `acc`.
unfoldable pub digits_value : ℕ → Text → ℕ
digits_value acc [] = acc
digits_value acc (c ∷ s) = digits_value (acc * 10 + (c - 48)) s

digits_of-Digit : (fuel n : ℕ) → All Digit (digits_of fuel n)
unfolding digits_of
digits_of-Digit zero n = tt
digits_of-Digit (suc fuel) n = elim (Bool-cases (ltb n 10)) [
  | inl small ↦ rw small (ground arith)
  | inr big ↦ rw big (All-append Digit _ _ (digits_of-Digit fuel (n / 10)) (omega arith))
]

pub to_decimal-Digit : (n : ℕ) → All Digit (to_decimal n)
unfolding to_decimal
to_decimal-Digit n = digits_of-Digit (suc n) n

digits_value-append :
    (s : Text) (acc c : ℕ) → digits_value acc (s ++ c ∷ []) ≡ digits_value acc s * 10 + (c - 48)
unfolding digits_value
digits_value-append [] acc c = refl
digits_value-append (d ∷ s) acc c = digits_value-append s (acc * 10 + (d - 48)) c

digits_value-digits_of : (fuel n : ℕ) → n < fuel → digits_value 0 (digits_of fuel n) ≡ n
unfolding digits_of
digits_value-digits_of zero n h = elim h [ ]
digits_value-digits_of (suc fuel) n h = elim (Bool-cases (ltb n 10)) [
  | inl small ↦ rw small (unfold digits_value in omega arith)
  | inr big ↦
      rw (big, digits_value-append)
        (omega (arith, digits_value-digits_of fuel (n / 10) (ground arith)))
]

-- Reading back what was printed.
pub digits_value-to_decimal : (n : ℕ) → digits_value 0 (to_decimal n) ≡ n
unfolding to_decimal
digits_value-to_decimal n = digits_value-digits_of (suc n) n (omega arith)

length-digits_of : (fuel n : ℕ) → n < fuel → 1 ≤ length (digits_of fuel n)
unfolding digits_of
length-digits_of zero n h = elim h [ ]
length-digits_of (suc fuel) n h = elim (Bool-cases (ltb n 10)) [
  | inl small ↦ rw small (omega arith)
  | inr big ↦ rw (big, length-append) (omega arith)
]

pub length-to_decimal : (n : ℕ) → 1 ≤ length (to_decimal n)
unfolding to_decimal
length-to_decimal n = length-digits_of (suc n) n (omega arith)

pub length-zeros : (n : ℕ) → length (zeros n) ≡ n
unfolding zeros
length-zeros zero = refl
length-zeros (suc n) = omega (arith, length-zeros n)

pub zeros-Digit : (n : ℕ) → All Digit (zeros n)
unfolding zeros
zeros-Digit zero = tt
zeros-Digit (suc n) = (omega arith, zeros-Digit n)

pub pad_start-Digit : (width : ℕ) (s : Text) → All Digit s → All Digit (pad_start width s)
unfolding pad_start
pad_start-Digit width s h =
    All-append Digit (zeros (width - length s)) s (zeros-Digit (width - length s)) h

pub length-pad_start :
    (width : ℕ) (s : Text) → length s ≤ width → length (pad_start width s) ≡ width
unfolding pad_start
length-pad_start width s h = rw length-append (omega (arith, length-zeros (width - length s)))

pub length-le-pad_start : (width : ℕ) (s : Text) → length s ≤ length (pad_start width s)
unfolding pad_start
length-le-pad_start width s = rw length-append (omega arith)

-- `10 ^ k`, as `omega` reads it.
abbrev ten_to : ℕ → ℕ
ten_to zero = 1
ten_to (suc k) = 10 * ten_to k

length-digits_of-le : (k fuel n : ℕ) → n < ten_to (suc k) → length (digits_of fuel n) ≤ suc k
unfolding digits_of
length-digits_of-le k zero n h = omega arith
length-digits_of-le zero (suc fuel) n h = ground arith
length-digits_of-le (suc k) (suc fuel) n h = elim (Bool-cases (ltb n 10)) [
  | inl small ↦ rw small (omega arith)
  | inr big ↦
      rw (big, length-append) (omega (arith, length-digits_of-le k fuel (n / 10) (omega arith)))
]

pub length-to_decimal-le : (n : ℕ) → n < 1000 → length (to_decimal n) ≤ 3
unfolding to_decimal
length-to_decimal-le n h = length-digits_of-le 2 (suc n) n h

digits_value-zeros : (n : ℕ) (s : Text) → digits_value 0 (zeros n ++ s) ≡ digits_value 0 s
unfolding digits_value zeros
digits_value-zeros zero s = refl
digits_value-zeros (suc n) s = digits_value-zeros n s

pub digits_value-pad_start :
    (width : ℕ) (s : Text) → digits_value 0 (pad_start width s) ≡ digits_value 0 s
unfolding pad_start
digits_value-pad_start width s = digits_value-zeros (width - length s) s

to_decimal_test : to_decimal 1074 ≡ 49 ∷ 48 ∷ 55 ∷ 52 ∷ []
unfolding to_decimal
to_decimal_test = refl
