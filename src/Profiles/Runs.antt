-- ===== src/Profiles/Runs.antt =====
-- What the runs of the profiles at fixed inputs compute with, as one name for their unfolding lines.
use direct_trade_protocol.Prelude.{◌===◌, includes}
use direct_trade_protocol.Prelude.Int.{◌-ℤ◌}
use direct_trade_protocol.Decimal.{parse_decimal, split_dot, decimal_shape, digits_value, to_digits}
use direct_trade_protocol.Canonical.{canonicalize, before}
use direct_trade_protocol.Inventory.{template}
use direct_trade_protocol.Authority.Charter.{uuid}
use direct_trade_protocol.Store.Transitions.{get, is_text, same_value}
use direct_trade_protocol.Profiles.Issues.{fail_if, ◌&◌, canonical, canonical_pair, at, dot}
use direct_trade_protocol.Profiles.Shapes.{
  has_own, exact, exact_object, array, text, matches, uuid_or_null, one_of, integer_within, split,
  is_scheme, scheme_ok, is_language,
}
use direct_trade_protocol.Profiles.Dates.{is_local_date, is_instant}
use direct_trade_protocol.Profiles.CheckDigit.{check_digit_ok, is_gtin, is_gln, is_duns, is_sscc}
use direct_trade_protocol.Profiles.Units.{parse_amount, check_positive, check_unit}
use direct_trade_protocol.Profiles.Identifiers.{
  key_of, keys, lacks_some, identifier, check_identifiers,
}
use direct_trade_protocol.Profiles.Stringify.{stringify_pair}
use direct_trade_protocol.Profiles.Act.{
  is_class_name, is_protocol_class, validate_ref_list, fail_unless_instant,
}

unfoldable pub profile_runs : Unit {0}
unfolding ◌===◌ includes ◌-ℤ◌ parse_decimal split_dot decimal_shape digits_value to_digits
    canonicalize before template uuid get is_text same_value fail_if ◌&◌ canonical canonical_pair at
    dot has_own exact exact_object array text matches uuid_or_null one_of integer_within split
    is_scheme scheme_ok is_language is_local_date is_instant check_digit_ok is_gtin is_gln is_duns
    is_sscc parse_amount check_positive check_unit key_of keys lacks_some identifier
    check_identifiers stringify_pair is_class_name is_protocol_class validate_ref_list
    fail_unless_instant
profile_runs = tt
