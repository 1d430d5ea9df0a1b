-- ===== src/Profiles/Units.antt =====
-- checkUnit of sdk/src/profiles/order.ts, which the forecast profile repeats, and the decimal amounts
-- of the profiles.
pub mod Amounts
use direct_trade_protocol.Prelude.{
  ℕ, Bool, true, false, not, ◌&&◌, ◌||◌, Option, none, some, [], ◌∷◌, Text, codes, String, Result,
  ok, err, if◌then◌else◌,
}
use direct_trade_protocol.Prelude.Int.{ℤ, pos, ltb_ℤ}
use direct_trade_protocol.Decimal.{DecimalError, parse_decimal, not_bounded_string}
use direct_trade_protocol.Canonical.{Json, str, Members}
use direct_trade_protocol.Store.Transitions.{get, is_text, is_null}
use direct_trade_protocol.Profiles.Issues.{Checked, pass, fail, fail_if}
use direct_trade_protocol.Profiles.Shapes.{exact_object, text, matches, is_ucum}

-- `parseDecimal(v, scale)` at a scale of at most 12, where a value that is no text is refused first
unfoldable pub parse_amount : Json → ℕ → Result DecimalError ℤ
parse_amount (str s) scale = parse_decimal s scale false
parse_amount v scale = err not_bounded_string

-- `try { if (parseDecimal(v, 3) <= 0n) fail(...) } catch { fail(...) }`
unfoldable pub check_positive : Json → Text → String → String → Checked
unfolding parse_amount
check_positive v path not_positive not_decimal = elim (parse_amount v 3) [
  | ok n ↦ fail_if (not (ltb_ℤ (pos 0) n)) path not_positive
  | err e ↦ fail path not_decimal
]

-- `v !== null` of three members of a ucum unit, and the code
abbrev ucum_ok : Members → Bool
ucum_ok u =
    matches is_ucum (get u (codes "code"))
    && is_null (get u (codes "packaging_id"))
    && is_null (get u (codes "version"))
    && is_null (get u (codes "base_units_per_pack"))

abbrev packaging_ok : Members → Bool
packaging_ok u =
    is_text (get u (codes "system")) (codes "packaging")
    && is_null (get u (codes "code"))
    && text (get u (codes "packaging_id")) 80
    && text (get u (codes "version")) 40

abbrev unit_members : Json → Option Members
unit_members v = exact_object v (
    codes "system"
    ∷ codes "code"
    ∷ codes "packaging_id"
    ∷ codes "version"
    ∷ codes "base_units_per_pack"
    ∷ [])

unfoldable pub check_unit : Json → Text → Checked
unfolding check_positive
check_unit v path = elim (unit_members v) [
  | none ↦ fail path "exact unit fields required"
  | some u ↦
      if is_text (get u (codes "system")) (codes "ucum")
      then fail_if (not (ucum_ok u)) path "ucum unit carries a code and no packaging"
      else if packaging_ok u
      then check_positive (get u (codes "base_units_per_pack")) path
          "positive pack conversion required" "three-place pack conversion required"
      else fail path "packaging unit needs packaging_id and version"
]
