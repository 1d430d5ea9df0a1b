-- ===== src/Forecast/Validate.antt =====
-- validateForecast of sdk/src/profiles/forecast.ts.
use direct_trade_protocol.Prelude.{
  Bool, false, not, ◌&&◌, Option, none, some, [], ◌∷◌, map, codes, ok, err, if◌then◌else◌,
}
use direct_trade_protocol.Prelude.Int.{is_negative}
use direct_trade_protocol.Canonical.{Json, str, Members, before}
use direct_trade_protocol.Store.Transitions.{get, is_null}
use direct_trade_protocol.Profiles.Issues.{Checked, fail, fail_if, ◌&◌}
use direct_trade_protocol.Profiles.Shapes.{
  exact_object, text, uuid_or_null, bad_unless_null, one_of, integer_within,
}
use direct_trade_protocol.Profiles.Dates.{is_local_date}
use direct_trade_protocol.Profiles.Units.{parse_amount, check_unit}
use direct_trade_protocol.Profiles.Act.{fail_unless_instant}

-- The subject that passes the first test.
unfoldable pub subject_members : Json → Option Members
subject_members v = elim (exact_object v (codes "product_id" ∷ codes "description" ∷ [])) [
  | none ↦ none
  | some s ↦
      if uuid_or_null (get s (codes "product_id"))
        && not
            (bad_unless_null (get s (codes "description")) (text (get s (codes "description")) 500))
      then some s
      else none
]

unfoldable pub check_subject : Json → Checked
unfolding subject_members
check_subject v = elim (subject_members v) [
  | none ↦ fail (codes "$.subject") "product root and description, each or null, required"
  | some s ↦
      fail_if (is_null (get s (codes "product_id")) && is_null (get s (codes "description")))
        (codes "$.subject") "a product root or a description is required"
]

unfoldable pub horizon_members : Json → Option Members
horizon_members v = elim (exact_object v (codes "start" ∷ codes "end" ∷ [])) [
  | none ↦ none
  | some h ↦
      if is_local_date (get h (codes "start")) && is_local_date (get h (codes "end"))
      then some h
      else none
]

-- `v < w` of two dates
abbrev pub earlier_date : Json → Json → Bool
earlier_date (str s) (str t) = before s t
earlier_date v w = false

unfoldable pub check_horizon : Json → Checked
unfolding horizon_members
check_horizon v = elim (horizon_members v) [
  | none ↦ fail (codes "$.horizon") "start and end dates required"
  | some h ↦
      fail_if (not (earlier_date (get h (codes "start")) (get h (codes "end")))) (codes "$.horizon")
        "horizon must end after it starts"
]

-- `try { if (parseDecimal(v, 3) < 0n) fail(...) } catch { fail(...) }`
unfoldable pub check_amount : Json → Checked
check_amount v = elim (parse_amount v 3) [
  | ok n ↦ fail_if (is_negative n) (codes "$.quantity.amount") "nonnegative quantity required"
  | err e ↦ fail (codes "$.quantity.amount") "three-place decimal required"
]

unfoldable pub check_forecast_quantity : Json → Checked
unfolding check_amount
check_forecast_quantity v = elim (exact_object v (codes "amount" ∷ codes "unit" ∷ [])) [
  | none ↦ fail (codes "$.quantity") "amount and unit required"
  | some q ↦
      check_amount (get q (codes "amount"))
      & check_unit (get q (codes "unit")) (codes "$.quantity.unit")
]

unfoldable pub forecast_members : Json → Option Members
forecast_members v = exact_object v (
    map codes (
      "subject" ∷ "party_id" ∷ "direction" ∷ "horizon" ∷ "as_of" ∷ "method" ∷ "quantity"
      ∷ "confidence" ∷ "scenario" ∷ "status" ∷ []))

unfoldable pub validate_forecast : Json → Checked
unfolding forecast_members check_subject check_horizon check_forecast_quantity
validate_forecast body = elim (forecast_members body) [
  | none ↦ fail (codes "$") "exact forecast fields required"
  | some b ↦
      check_subject (get b (codes "subject"))
      & fail_if (not (uuid_or_null (get b (codes "party_id")))) (codes "$.party_id")
          "party root or null required"
      & fail_if (not (one_of (codes "demand" ∷ codes "supply" ∷ []) (get b (codes "direction"))))
          (codes "$.direction") "demand or supply required"
      & check_horizon (get b (codes "horizon"))
      & fail_unless_instant (get b (codes "as_of")) (codes "$.as_of")
      & fail_if (not (text (get b (codes "method")) 120)) (codes "$.method")
          "the method that produced the figure is required"
      & check_forecast_quantity (get b (codes "quantity"))
      & fail_if
          (bad_unless_null (get b (codes "confidence"))
            (integer_within 0 100 (get b (codes "confidence"))))
          (codes "$.confidence") "0-100 or null required"
      & fail_if (bad_unless_null (get b (codes "scenario")) (text (get b (codes "scenario")) 120))
          (codes "$.scenario") "bounded scenario or null required"
      & fail_if
          (not (
            one_of (map codes ("draft" ∷ "published" ∷ "withdrawn" ∷ [])) (get b (codes "status"))))
          (codes "$.status") "draft, published or withdrawn required"
]
