-- ===== src/Decimal/Digits.antt =====
-- Numerals: `to_digits` prints a number that `digits_value` reads back.
use direct_trade_protocol.Prelude.{
  ℕ, zero, suc, ◌+◌, ◌-◌, ◌*◌, ◌/◌, ◌%◌, ◌^◌, ◌≤◌, ◌<◌, ◌≡◌, refl, ap, true, [], ◌∷◌, ◌++◌, arith,
  ltb, length, all, length-append, all-append, inl, inr, Bool-cases, lt→ltb, and-true, Text,
}
use direct_trade_protocol.Decimal.{is_digit, is_number, digits_value, digits_of, to_digits}
use native.Mathlib.Nat.{pow-suc, mul-le-mul_right}

pub digits_value-append :
    (acc : ℕ) (s t : Text) → digits_value acc (s ++ t) ≡ digits_value (digits_value acc s) t
unfolding digits_value
digits_value-append acc [] t = refl
digits_value-append acc (c ∷ s) t = digits_value-append (acc * 10 + (c - b'0')) s t

-- The value of a printed numeral.
digits_value-digits_of : (fuel n : ℕ) → n < fuel → digits_value 0 (digits_of fuel n) ≡ n
unfolding digits_value digits_of
digits_value-digits_of zero n h = elim h [ ]
digits_value-digits_of (suc fuel) n h = elim (Bool-cases (ltb n 10)) [
  | inl small ↦ rw small (omega arith)
  | inr large ↦
      rw
        (
          large,
          digits_value-append 0 (digits_of fuel (n / 10)) ((b'0' + n % 10) ∷ []),
          digits_value-digits_of fuel (n / 10) (ground arith),
        )
        (omega arith)
]

pub digits_value-to_digits : (n : ℕ) → digits_value 0 (to_digits n) ≡ n
unfolding to_digits
digits_value-to_digits n = digits_value-digits_of (suc n) n (omega arith)

digits_of-IsDigits : (fuel n : ℕ) → all is_digit (digits_of fuel n) ≡ true
unfolding digits_of
digits_of-IsDigits zero n = refl
digits_of-IsDigits (suc fuel) n = elim (Bool-cases (ltb n 10)) [
  | inl small ↦ rw small (ground arith)
  | inr large ↦
      rw
        (
          large,
          all-append is_digit (digits_of fuel (n / 10)) ((b'0' + n % 10) ∷ []),
          digits_of-IsDigits fuel (n / 10),
        )
        (ground arith)
]

pub to_digits-IsDigits : (n : ℕ) → all is_digit (to_digits n) ≡ true
unfolding to_digits
to_digits-IsDigits n = digits_of-IsDigits (suc n) n

pow-step : (n k : ℕ) → n < 10 ^ suc (suc k) → n / 10 < 10 ^ suc k
pow-step n k h = omega (arith, pow-suc 10 (suc k))

length-digits_of : (fuel n k : ℕ) → n < 10 ^ suc k → length (digits_of fuel n) ≤ suc k
unfolding digits_of
length-digits_of zero n k h = omega arith
length-digits_of (suc fuel) n zero h = rw (lt→ltb n 10 h) (omega arith)
length-digits_of (suc fuel) n (suc k) h = elim (Bool-cases (ltb n 10)) [
  | inl small ↦ rw small (omega arith)
  | inr large ↦
      rw (large, length-append (digits_of fuel (n / 10)) ((b'0' + n % 10) ∷ []))
        (omega (arith, length-digits_of fuel (n / 10) k (pow-step n k h)))
]

-- A number below 10 ^ (k + 1) has at most k + 1 digits.
pub length-to_digits : (n k : ℕ) → n < 10 ^ suc k → length (to_digits n) ≤ suc k
unfolding to_digits
length-to_digits n k h = length-digits_of (suc n) n k h

digits_of-pos : (fuel n : ℕ) → 0 < fuel → 0 < length (digits_of fuel n)
unfolding digits_of
digits_of-pos zero n h = h
digits_of-pos (suc fuel) n h =
    ground (arith, length-append (digits_of fuel (n / 10)) ((b'0' + n % 10) ∷ []))

is_number_of_digits : (s : Text) → 0 < length s → all is_digit s ≡ true → is_number s ≡ true
is_number_of_digits [] h e = absurd (omega arith)
is_number_of_digits (c ∷ s) h e = e

-- A printed numeral is one: not empty, and all digits.
pub to_digits-IsNumber : (n : ℕ) → is_number (to_digits n) ≡ true
unfolding to_digits
to_digits-IsNumber n =
    is_number_of_digits (digits_of (suc n) n) (digits_of-pos (suc n) n (omega arith))
      (digits_of-IsDigits (suc n) n)

-- Reading digits, the accumulator stands left of them.
pub digits_value-shift :
    (acc : ℕ) (s : Text) → digits_value acc s ≡ acc * 10 ^ length s + digits_value 0 s
unfolding digits_value
digits_value-shift acc [] = omega arith
digits_value-shift acc (c ∷ s) = omega (
  arith,
  digits_value-shift (acc * 10 + (c - b'0')) s,
  digits_value-shift (0 * 10 + (c - b'0')) s,
  ap (λ (t : ℕ). acc * t) (pow-suc 10 (length s)),
)

-- The digits bound the value.
pub digits_value-lt : (s : Text) → all is_digit s ≡ true → digits_value 0 s < 10 ^ length s
unfolding digits_value
digits_value-lt [] h = omega arith
digits_value-lt (c ∷ s) h =
    let (is, rest) = and-true (is_digit c) (all is_digit s) h in
    let bound : c - b'0' ≤ 9 = ground arith in
    omega (
      arith,
      digits_value-lt s rest,
      digits_value-shift (0 * 10 + (c - b'0')) s,
      mul-le-mul_right (10 ^ length s) bound,
      pow-suc 10 (length s),
    )
