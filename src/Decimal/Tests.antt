-- ===== src/Decimal/Tests.antt =====
-- Runs of the decimal functions, and the theorems at inputs that meet their hypotheses.
use direct_trade_protocol.Prelude.{
  ◌*◌, ◌^◌, ◌≤◌, ◌<◌, ◌≡◌, refl, true, false, not, ◌&&◌, ok, err, Text, codes,
}
use direct_trade_protocol.Prelude.Int.{pos, negsuc, abs, is_negative, ◌*ℤ◌}
use direct_trade_protocol.Decimal.{
  parse_decimal, format_decimal, multiply_rounded, split_dot, decimal_shape, digits_value,
  precision_exceeded, negative_not_permitted, not_bounded_string,
}
use direct_trade_protocol.Decimal.RoundTrip.{parse_decimal-format_decimal}
use direct_trade_protocol.Decimal.Bounds.{
  parse_decimal-bounds, format_decimal-total, parse_decimal-canonical,
}

decimal : Unit {0}
unfolding parse_decimal format_decimal multiply_rounded split_dot decimal_shape digits_value ◌*ℤ◌
decimal = tt

parse_tests :
    (parse_decimal (codes "12.5") 3 false ≡ ok (pos 12500))
    × (parse_decimal (codes "-0.250") 3 true ≡ ok (negsuc 249))
    × (parse_decimal (codes "-1") 3 false ≡ err negative_not_permitted)
    × (parse_decimal (codes "1.2345") 3 false ≡ err precision_exceeded)
    × (parse_decimal (codes "1.") 3 false ≡ err not_bounded_string)
unfolding decimal
parse_tests = (refl, refl, refl, refl, refl)

format_tests :
    (format_decimal (pos 12500) 3 ≡ ok (codes "12.5"))
    × (format_decimal (negsuc 249) 3 ≡ ok (codes "-0.25"))
    × (format_decimal (pos 7) 0 ≡ ok (codes "7"))
unfolding decimal
format_tests = (refl, refl, refl)

parse_decimal-format_decimal_example : parse_decimal (codes "-0.25") 3 true ≡ ok (negsuc 249)
parse_decimal-format_decimal_example =
    parse_decimal-format_decimal (negsuc 249) 3 true (codes "-0.25") format_tests.1 refl

parse_decimal-bounds_example :
    (3 ≤ 12)
    × (abs (negsuc 249) < 10 ^ 18 * 10 ^ 3)
    × ((is_negative (negsuc 249) && not true) ≡ false)
parse_decimal-bounds_example =
    parse_decimal-bounds (codes "-0.250") 3 true (negsuc 249) parse_tests.1

parse_decimal-canonical_example :
    (t : Text) × (format_decimal (negsuc 249) 3 ≡ ok t) × (parse_decimal t 3 true ≡ ok (negsuc 249))
parse_decimal-canonical_example =
    parse_decimal-canonical (codes "-0.250") 3 true (negsuc 249) parse_tests.1

in_range : (3 ≤ 12) × (abs (negsuc 249) < 10 ^ 18 * 10 ^ 3)
in_range =
    let b = parse_decimal-bounds (codes "-0.250") 3 true (negsuc 249) parse_tests.1 in (b.0, b.1)

format_decimal-total_example : (t : Text) × (format_decimal (negsuc 249) 3 ≡ ok t)
format_decimal-total_example = format_decimal-total (negsuc 249) 3 in_range.0 in_range.1
