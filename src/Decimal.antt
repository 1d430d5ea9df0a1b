-- ===== src/Decimal.antt =====
-- sdk/src/profiles/decimal.ts: bounded, exact fixed-point arithmetic over decimal strings.
pub mod Digits
pub mod Padding
pub mod RoundTrip
pub mod Bounds
pub mod Rounding
mod Tests
use direct_trade_protocol.Prelude.{
  ℕ, zero, suc, ◌+◌, ◌-◌, ◌*◌, ◌/◌, ◌%◌, ◌^◌, ◌≡◌, Bool, true, false, not, ◌&&◌, ◌||◌, Option, none,
  some, List, [], ◌∷◌, ◌++◌, ltb, leb, ◌==◌, if◌then◌else◌, length, all, replicate, Result, ok, err,
  ◌>>=◌, ◌>>◌, demand, refuse, Text,
}
use direct_trade_protocol.Prelude.Int.{ℤ, pos, negsuc, signed, abs, is_negative, ◌*ℤ◌}

-- `DecimalError`, one constructor for each message.
pub data DecimalError : Type 0 where
  unsupported_scale not_bounded_string negative_not_permitted precision_exceeded : DecimalError
  magnitude_exceeded : DecimalError

abbrev pub max_integer_digits : ℕ
max_integer_digits = 18

unfoldable pub check_scale : ℕ → Result DecimalError (Unit {0})
check_scale scale = refuse (ltb 12 scale) unsupported_scale

-- The character classes of the pattern `/^-?\d+(?:\.\d+)?$/`.
abbrev pub is_digit : ℕ → Bool
is_digit c = leb b'0' c && leb c b'9'

abbrev pub starts_with_minus : Text → Bool
starts_with_minus [] = false
starts_with_minus (c ∷ s) = c == b'-'

-- `negative ? value.slice(1) : value`
abbrev pub strip_minus : Text → Text
strip_minus [] = []
strip_minus (c ∷ s) = if c == b'-' then s else c ∷ s

-- The part before the first full stop, and the part after it if there is one.
unfoldable pub split_dot : Text → Text × Option Text
split_dot [] = ([], none)
split_dot (c ∷ s) =
    let rest = split_dot s in if c == b'.' then ([], some s) else (c ∷ rest.0, rest.1)

abbrev pub is_number : Text → Bool
is_number [] = false
is_number (c ∷ s) = all is_digit (c ∷ s)

abbrev pub fraction_shape : Option Text → Bool
fraction_shape none = true
fraction_shape (some f) = is_number f

-- The pattern, on a text already cut at its first full stop.
unfoldable pub decimal_shape : Text → Bool
decimal_shape s =
    let parts = split_dot (strip_minus s) in is_number parts.0 && fraction_shape parts.1

-- `fraction = ''` when `split` gives one part.
abbrev pub fraction_text : Option Text → Text
fraction_text none = []
fraction_text (some f) = f

-- `BigInt(digits)`; the empty text is 0, which is the source's `|| '0'`.
unfoldable pub digits_value : ℕ → Text → ℕ
digits_value acc [] = acc
digits_value acc (c ∷ s) = digits_value (acc * 10 + (c - b'0')) s

-- `text.padEnd(width, '0')` and `text.padStart(width, '0')`
abbrev pub pad_end : ℕ → Text → Text
pad_end width s = s ++ replicate (width - length s) b'0'

abbrev pub pad_start : ℕ → Text → Text
pad_start width s = replicate (width - length s) b'0' ++ s

unfoldable pub parse_decimal : Text → ℕ → Bool → Result DecimalError ℤ
unfolding check_scale
parse_decimal value scale allow_negative = do
  check_scale scale
  demand (leb (length value) (max_integer_digits + scale + 2) && decimal_shape value)
      not_bounded_string
  let negative = starts_with_minus value
  refuse (negative && not allow_negative) negative_not_permitted
  let parts = split_dot (strip_minus value)
  let fraction = fraction_text parts.1
  refuse (ltb max_integer_digits (length parts.0) || ltb scale (length fraction)) precision_exceeded
  ok (
      signed negative
        (digits_value 0 parts.0 * 10 ^ scale + digits_value 0 (pad_end scale fraction)))

-- `n.toString()`, on fuel that `to_digits` makes sufficient.
unfoldable pub digits_of : ℕ → ℕ → Text
digits_of zero n = []
digits_of (suc fuel) n =
    let front = digits_of fuel (n / 10) in
    if ltb n 10 then (b'0' + n) ∷ [] else front ++ (b'0' + n % 10) ∷ []

unfoldable pub to_digits : ℕ → Text
unfolding digits_of
to_digits n = digits_of (suc n) n

-- `text.replace(/0+$/, '')`
abbrev pub put_unless_zero : ℕ → Text → Text
put_unless_zero c [] = if c == b'0' then [] else c ∷ []
put_unless_zero c (d ∷ t) = c ∷ d ∷ t

unfoldable pub strip_zeros : Text → Text
strip_zeros [] = []
strip_zeros (c ∷ s) = put_unless_zero c (strip_zeros s)

-- `fraction ? '.' + fraction : ''`
abbrev pub fraction_suffix : Text → Text
fraction_suffix [] = []
fraction_suffix (c ∷ s) = b'.' ∷ c ∷ s

abbrev pub sign_prefix : Bool → Text
sign_prefix true = b'-' ∷ []
sign_prefix false = []

unfoldable pub format_decimal : ℤ → ℕ → Result DecimalError Text
unfolding check_scale to_digits strip_zeros
format_decimal value scale = do
  check_scale scale
  let magnitude = abs value
  let divisor = 10 ^ scale
  let whole = to_digits (magnitude / divisor)
  refuse (ltb max_integer_digits (length whole)) magnitude_exceeded
  let fraction = strip_zeros (pad_start scale (to_digits (magnitude % divisor)))
  ok (sign_prefix (is_negative value) ++ whole ++ fraction_suffix fraction)

-- The part of `multiplyRounded` after the scale checks; `shift <= 0` multiplies.
abbrev pub round_half_away : ℕ → ℕ → ℕ
round_half_away magnitude divisor = (magnitude + divisor / 2) / divisor

unfoldable pub multiply_rounded : ℤ → ℕ → ℤ → ℕ → ℕ → Result DecimalError ℤ
unfolding check_scale
multiply_rounded a a_scale b b_scale result_scale = do
  check_scale a_scale
  check_scale b_scale
  check_scale result_scale
  let product = a *ℤ b
  if leb (a_scale + b_scale) result_scale
      then ok (product *ℤ pos (10 ^ (result_scale - (a_scale + b_scale))))
      else ok (
          signed (is_negative product)
            (round_half_away (abs product) (10 ^ (a_scale + b_scale - result_scale))))
