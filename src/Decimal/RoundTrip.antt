-- ===== src/Decimal/RoundTrip.antt =====
-- Printing an amount and reading it again.
use direct_trade_protocol.Prelude.{
  ℕ, zero, suc, ◌+◌, ◌*◌, ◌/◌, ◌%◌, ◌^◌, ◌≤◌, ◌<◌, ◌≡◌, refl, ap, ◌∙◌, Bool, true, false, not, ◌&&◌,
  [], ◌∷◌, ◌++◌, arith, ltb, leb, length, all, length-append, Text, ok, >>=-eq-ok, refuse-eq-ok,
  refuse, le→ltb, le→leb,
}
use direct_trade_protocol.Prelude.Int.{ℤ, signed, abs, is_negative, signed-abs}
use direct_trade_protocol.Decimal.{
  max_integer_digits, is_digit, is_number, digits_value, pad_start, pad_end, strip_zeros,
  fraction_suffix, starts_with_minus, strip_minus, decimal_shape, sign_prefix, check_scale,
  parse_decimal, format_decimal, to_digits, magnitude_exceeded,
}
use native.Mathlib.Nat.{mod-lt, one-le-pow}
use direct_trade_protocol.Decimal.Digits.{
  digits_value-to_digits, length-to_digits, to_digits-IsDigits, to_digits-IsNumber,
}
use direct_trade_protocol.Decimal.Padding.{
  length-strip_zeros, strip_zeros-IsDigits, pad_end-strip_zeros, length-pad_start,
  digits_value-pad_start, pad_start-IsDigits, split_dot-suffix, fraction_text-suffix_part,
  suffix_part-shape,
}

-- The text that a successful print returns, with its two parts named.
abbrev printed : Bool → Text → Text → Text
printed negative whole fraction = sign_prefix negative ++ whole ++ fraction_suffix fraction

length-fraction_suffix : (f : Text) → length (fraction_suffix f) ≤ length f + 1
length-fraction_suffix [] = omega arith
length-fraction_suffix (c ∷ f) = omega arith

length-printed : (n : Bool) (w f : Text) → length (printed n w f) ≤ length w + length f + 2
length-printed true w f =
    omega (arith, length-append w (fraction_suffix f), length-fraction_suffix f)
length-printed false w f =
    omega (arith, length-append w (fraction_suffix f), length-fraction_suffix f)

strip-printed :
    (n : Bool) (w f : Text)
    → is_number w ≡ true
    → (starts_with_minus (printed n w f) ≡ n)
      × (strip_minus (printed n w f) ≡ w ++ fraction_suffix f)
strip-printed n [] f h = cc
strip-printed true (c ∷ w) f h = (refl, refl)
strip-printed false (c ∷ w) f h = (ground arith, ground arith)

pub all-of-is_number : (w : Text) → is_number w ≡ true → all is_digit w ≡ true
all-of-is_number [] h = refl
all-of-is_number (c ∷ w) h = h

-- Reading a text of a sign, a whole part and a fraction without surplus digits.
parse-printed :
    (n allow : Bool) (w f : Text) (scale : ℕ)
    → scale ≤ 12
    → is_number w ≡ true
    → all is_digit f ≡ true
    → length w ≤ max_integer_digits
    → length f ≤ scale
    → (n && not allow) ≡ false
    → parse_decimal (printed n w f) scale allow
      ≡ ok (signed n (digits_value 0 w * 10 ^ scale + digits_value 0 (pad_end scale f)))
unfolding parse_decimal decimal_shape
parse-printed n allow w f scale small number digits whole_fits fits allowed =
    let (minus, strip) = strip-printed n w f number in
    let cut = split_dot-suffix w f (all-of-is_number w number) in
    let scale_ok : ltb 12 scale ≡ false = le→ltb 12 scale small in
    let short : leb (length (printed n w f)) (max_integer_digits + scale + 2) ≡ true =
      le→leb _ _ (omega (arith, length-printed n w f)) in
    let whole_ok : ltb max_integer_digits (length w) ≡ false = le→ltb _ _ whole_fits in
    let fraction_ok : ltb scale (length f) ≡ false = le→ltb _ _ fits in
    rw (
      minus,
      strip,
      cut,
      fraction_text-suffix_part f,
      suffix_part-shape f digits,
      number,
      short,
      allowed,
      whole_ok,
      fraction_ok,
      check_scale,
      scale_ok,
    )

-- The fraction of a printed amount: at most `scale` digits, which read as the remainder.
fraction_digits : ℕ → ℕ → Text
fraction_digits r scale = strip_zeros (pad_start scale (to_digits r))

fraction_digits-zero : fraction_digits 0 0 ≡ []
unfolding fraction_digits strip_zeros to_digits
fraction_digits-zero = refl

record FractionReads (r scale : ℕ) : Type 0 where
  digits : all is_digit (fraction_digits r scale) ≡ true
  fits : length (fraction_digits r scale) ≤ scale
  value : digits_value 0 (pad_end scale (fraction_digits r scale)) ≡ r

fraction_reads : (r scale : ℕ) → r < 10 ^ scale → FractionReads r scale
unfolding fraction_digits strip_zeros to_digits digits_value
fraction_reads zero zero h = record { digits = refl; fits = omega arith; value = refl }
fraction_reads (suc r) zero h = absurd (omega arith)
fraction_reads r (suc k) h =
    let p = pad_start (suc k) (to_digits r) in
    let width = length-pad_start (suc k) (to_digits r) (length-to_digits r k h) in
    let padded : pad_end (suc k) (strip_zeros p) ≡ p = rw width at (pad_end-strip_zeros p) in
    record {
      digits =
          strip_zeros-IsDigits p (pad_start-IsDigits (suc k) (to_digits r) (to_digits-IsDigits r));
      fits = omega (arith, width, length-strip_zeros p);
      value =
          ap (digits_value 0) padded
          ∙ digits_value-pad_start (suc k) (to_digits r)
          ∙ digits_value-to_digits r;
    }

pub check_scale-eq-ok : (scale : ℕ) {u : Unit {0}} → check_scale scale ≡ ok u → scale ≤ 12
unfolding check_scale
check_scale-eq-ok scale h = ground arith

-- What a successful print has established.
record IsPrinted (v : ℤ) (scale : ℕ) (t : Text) : Type 0 where
  scale_fits : scale ≤ 12
  whole_fits : length (to_digits (abs v / 10 ^ scale)) ≤ max_integer_digits
  text :
      printed
        (is_negative v)
        (to_digits (abs v / 10 ^ scale))
        (fraction_digits (abs v % 10 ^ scale) scale)
      ≡ t

format-IsPrinted :
    (v : ℤ) (scale : ℕ) (t : Text) → format_decimal v scale ≡ ok t → IsPrinted v scale t
unfolding format_decimal fraction_digits
format-IsPrinted v scale t h =
    let (_, scale_ok, h1) = >>=-eq-ok (check_scale scale) _ h in
    let long = ltb max_integer_digits (length (to_digits (abs v / 10 ^ scale))) in
    let (_, whole_ok, h2) = >>=-eq-ok (refuse long magnitude_exceeded) _ h1 in
    let fits : long ≡ false = refuse-eq-ok long magnitude_exceeded whole_ok in
    record {
      scale_fits = check_scale-eq-ok scale scale_ok;
      whole_fits = ground arith;
      text = cc h2;
    }

pow-10-pos : (k : ℕ) → 0 < 10 ^ k
pow-10-pos k = one-le-pow k 10 (omega arith)

div-mod_lem : (m d : ℕ) → m / d * d + m % d ≡ m
div-mod_lem m d = omega arith

-- An amount that `formatDecimal` prints is read back by `parseDecimal` at the same scale as the
-- same amount, if negative amounts are allowed or the amount is not negative.
pub parse_decimal-format_decimal :
    (v : ℤ) (scale : ℕ) (allow : Bool) (t : Text)
    → format_decimal v scale ≡ ok t
    → (is_negative v && not allow) ≡ false
    → parse_decimal t scale allow ≡ ok v
parse_decimal-format_decimal v scale allow t h allowed =
    let p = format-IsPrinted v scale t h in
    let fr = fraction_reads (abs v % 10 ^ scale) scale (mod-lt (abs v) (pow-10-pos scale)) in
    let w = to_digits (abs v / 10 ^ scale) in
    let read =
      parse-printed (is_negative v) allow w (fraction_digits (abs v % 10 ^ scale) scale) scale
        p.scale_fits (to_digits-IsNumber (abs v / 10 ^ scale)) fr.digits p.whole_fits fr.fits
        allowed in
    let value : digits_value 0 w * 10 ^ scale
          + digits_value 0 (pad_end scale (fraction_digits (abs v % 10 ^ scale) scale))
        ≡ abs v =
      rw (digits_value-to_digits (abs v / 10 ^ scale), fr.value)
        (div-mod_lem (abs v) (10 ^ scale)) in
    rw (← p.text, read, value, signed-abs v)
