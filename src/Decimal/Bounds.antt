-- ===== src/Decimal/Bounds.antt =====
-- How large a parsed amount can be, and that it can be printed again.
use native.Mathlib.Nat.{pow-le-pow_right, mul-le-mul_right, one-le-pow, div-lt_iff_lt-mul}
use direct_trade_protocol.Prelude.{
  ℕ, suc, ◌+◌, ◌-◌, ◌*◌, ◌/◌, ◌%◌, ◌^◌, ◌≤◌, ◌<◌, ◌≡◌, refl, sym, ap, ◌∙◌, Bool, true, false, not,
  ◌&&◌, ◌||◌, ◌++◌, arith, ltb, leb, length, all, length-append, Text, ok, >>=-eq-ok, refuse-eq-ok,
  demand-eq-ok, demand, refuse, some, none, Option, le→ltb, and-true, replicate, length-replicate,
  all-append, all-replicate,
}
use direct_trade_protocol.Prelude.Int.{ℤ, signed, abs, is_negative, abs-signed}
use direct_trade_protocol.Decimal.{
  max_integer_digits, is_digit, is_number, digits_value, pad_start, pad_end, strip_zeros,
  fraction_suffix, fraction_shape, split_dot, fraction_text, starts_with_minus, strip_minus,
  decimal_shape, sign_prefix, check_scale, parse_decimal, format_decimal, to_digits,
  not_bounded_string, negative_not_permitted, precision_exceeded,
}
use direct_trade_protocol.Decimal.Digits.{digits_value-lt, length-to_digits}
use direct_trade_protocol.Decimal.RoundTrip.{
  all-of-is_number, check_scale-eq-ok, parse_decimal-format_decimal,
}

-- What a successful read has established of the parts of the text.
pub record IsParsed (s : Text) (scale : ℕ) (allow : Bool) (v : ℤ) : Type 0 where
  whole : Text
  fraction : Text
  scale_fits : scale ≤ 12
  whole_digits : all is_digit whole ≡ true
  fraction_digits : all is_digit fraction ≡ true
  whole_fits : length whole ≤ max_integer_digits
  fraction_fits : length fraction ≤ scale
  sign : (starts_with_minus s && not allow) ≡ false
  value :
      signed
        (starts_with_minus s)
        (digits_value 0 whole * 10 ^ scale + digits_value 0 (pad_end scale fraction))
      ≡ v

fraction_shape-IsDigits :
    (f : Option Text) → fraction_shape f ≡ true → all is_digit (fraction_text f) ≡ true
fraction_shape-IsDigits none h = refl
fraction_shape-IsDigits (some f) h = all-of-is_number f h

parse-IsParsed :
    (s : Text) (scale : ℕ) (allow : Bool) (v : ℤ)
    → parse_decimal s scale allow ≡ ok v
    → IsParsed s scale allow v
unfolding parse_decimal decimal_shape
parse-IsParsed s scale allow v h =
    let parts = split_dot (strip_minus s) in
    let shape = is_number parts.0 && fraction_shape parts.1 in
    let short = leb (length s) (max_integer_digits + scale + 2) in
    let long =
      ltb max_integer_digits (length parts.0) || ltb scale (length (fraction_text parts.1)) in
    let (_, scale_ok, h1) = >>=-eq-ok (check_scale scale) _ h in
    let (_, shape_ok, h2) = >>=-eq-ok (demand (short && shape) not_bounded_string) _ h1 in
    let (_, sign_ok, h3) =
      >>=-eq-ok (refuse (starts_with_minus s && not allow) negative_not_permitted) _ h2 in
    let (_, fits_ok, h4) = >>=-eq-ok (refuse long precision_exceeded) _ h3 in
    let fits : long ≡ false = refuse-eq-ok long precision_exceeded fits_ok in
    let shaped = and-true short shape (demand-eq-ok (short && shape) not_bounded_string shape_ok) in
    let digits = and-true (is_number parts.0) (fraction_shape parts.1) shaped.1 in
    record {
      whole = parts.0;
      fraction = fraction_text parts.1;
      scale_fits = check_scale-eq-ok scale scale_ok;
      whole_digits = all-of-is_number parts.0 digits.0;
      fraction_digits = fraction_shape-IsDigits parts.1 digits.1;
      whole_fits = ground arith;
      fraction_fits = ground arith;
      sign = refuse-eq-ok (starts_with_minus s && not allow) negative_not_permitted sign_ok;
      value = cc h4;
    }

padded-lt :
    (scale : ℕ) (f : Text)
    → all is_digit f ≡ true
    → length f ≤ scale
    → digits_value 0 (pad_end scale f) < 10 ^ scale
padded-lt scale f h fits =
    let zeros = replicate {A = ℕ} (scale - length f) b'0' in
    let digits : all is_digit (pad_end scale f) ≡ true =
      rw (all-append is_digit f zeros, h) (all-replicate is_digit (scale - length f) b'0' refl) in
    let width : length (pad_end scale f) ≡ scale =
      omega (arith, length-append f zeros, length-replicate {A = ℕ} (scale - length f) b'0') in
    rw width at (digits_value-lt (pad_end scale f) digits)

whole-le : (w : Text) → all is_digit w ≡ true → length w ≤ 18 → suc (digits_value 0 w) ≤ 10 ^ 18
whole-le w h fits =
    let top : 10 ^ length w ≤ 10 ^ 18 = pow-le-pow_right (omega arith) fits in
    omega (arith, digits_value-lt w h)

scaled-lt : (w f d n : ℕ) → suc w ≤ n → f < d → w * d + f < n * d
scaled-lt w f d n h k = omega (arith, mul-le-mul_right d h)

keeps_sign :
    (minus allow : Bool) (n : ℕ) (v : ℤ)
    → (minus && not allow) ≡ false
    → signed minus n ≡ v
    → (is_negative v && not allow) ≡ false
keeps_sign true true n v h e = ground arith
keeps_sign true false n v h e = cc
keeps_sign false allow n v h e = rw (← e)

-- A parsed amount is below 10 ^ 18 whole units, its scale is at most 12, and it is not negative
-- unless the caller allows that.
pub parse_decimal-bounds :
    (s : Text) (scale : ℕ) (allow : Bool) (v : ℤ)
    → parse_decimal s scale allow ≡ ok v
    → (scale ≤ 12) × (abs v < 10 ^ 18 * 10 ^ scale) × ((is_negative v && not allow) ≡ false)
parse_decimal-bounds s scale allow v h =
    let p = parse-IsParsed s scale allow v h in
    let w = digits_value 0 p.whole in
    let f = digits_value 0 (pad_end scale p.fraction) in
    let below : w * 10 ^ scale + f < 10 ^ 18 * 10 ^ scale =
      scaled-lt w f (10 ^ scale) (10 ^ 18) (whole-le p.whole p.whole_digits p.whole_fits)
        (padded-lt scale p.fraction p.fraction_digits p.fraction_fits) in
    let size : abs v ≡ w * 10 ^ scale + f =
      ap abs (sym p.value) ∙ abs-signed (starts_with_minus s) (w * 10 ^ scale + f) in
    (
      p.scale_fits,
      rw size below,
      keeps_sign (starts_with_minus s) allow (w * 10 ^ scale + f) v p.sign p.value,
    )

whole-lt : (n d : ℕ) → 0 < d → n < 10 ^ 18 * d → n / d < 10 ^ 18
whole-lt n d h k = (div-lt_iff_lt-mul h).1 k

-- `formatDecimal` returns on every amount below 10 ^ 18 whole units, at a supported scale.
pub format_decimal-total :
    (v : ℤ) (scale : ℕ)
    → scale ≤ 12
    → abs v < 10 ^ 18 * 10 ^ scale
    → (t : Text) × (format_decimal v scale ≡ ok t)
unfolding format_decimal check_scale
format_decimal-total v scale small h =
    let w = to_digits (abs v / 10 ^ scale) in
    let scale_ok : ltb 12 scale ≡ false = le→ltb 12 scale small in
    let whole_small = whole-lt (abs v) (10 ^ scale) (one-le-pow scale 10 (omega arith)) h in
    let fits : ltb max_integer_digits (length w) ≡ false =
      le→ltb _ _ (length-to_digits (abs v / 10 ^ scale) 17 whole_small) in
    (
      sign_prefix (is_negative v)
          ++ w
          ++ fraction_suffix (strip_zeros (pad_start scale (to_digits (abs v % 10 ^ scale)))),
      rw (scale_ok, fits),
    )

-- Whatever text `parseDecimal` accepts, the amount read can be printed, and the printed text reads
-- as the same amount under the same scale and sign rule.
pub parse_decimal-canonical :
    (s : Text) (scale : ℕ) (allow : Bool) (v : ℤ)
    → parse_decimal s scale allow ≡ ok v
    → (t : Text) × (format_decimal v scale ≡ ok t) × (parse_decimal t scale allow ≡ ok v)
parse_decimal-canonical s scale allow v h =
    let (small, below, sign) = parse_decimal-bounds s scale allow v h in
    let (t, prints) = format_decimal-total v scale small below in
    (t, prints, parse_decimal-format_decimal v scale allow t prints sign)
