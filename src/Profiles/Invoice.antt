-- ===== src/Profiles/Invoice.antt =====
-- validateInvoice of sdk/src/profiles/invoice.ts. An issue keeps its code, its path and its severity.
pub mod Report
pub mod Lines
pub mod Totals
mod Tests
use direct_trade_protocol.Prelude.{
  ℕ, suc, Bool, true, false, not, ◌&&◌, ◌||◌, Option, none, some, List, [], ◌∷◌, ◌++◌, map, any,
  leb, ltb, length, all, if◌then◌else◌, is_some, Text, codes, ◌===◌, Result, ok, err, take,
}
use direct_trade_protocol.Prelude.Int.{ℤ, pos, ◌+ℤ◌, ◌-ℤ◌, ltb_ℤ, is_zero}
use direct_trade_protocol.Decimal.{DecimalError, format_decimal, multiply_rounded}
use direct_trade_protocol.Canonical.{
  Json, null, undefined, str, arr, obj, Items, nil, item, Members, end,
}
use direct_trade_protocol.Store.Transitions.{get, is_text, is_null, same_value}
use direct_trade_protocol.Profiles.Issues.{at, dot}
use direct_trade_protocol.Profiles.Shapes.{one_of, array}
use direct_trade_protocol.Profiles.Units.{parse_amount}

pub data IssueCode : Type 0 where
  invalid_shape invalid_decimal unsupported_currency unsupported_unit : IssueCode
  arithmetic_mismatch invalid_payment_state invalid_date : IssueCode
  reference_missing reference_unknown reference_inaccessible reference_mismatch : IssueCode

-- An issue of severity `error`, with its path.
abbrev pub Fault : Type 0
Fault = IssueCode × Text

abbrev pub fault_if : Bool → IssueCode → Text → List Fault
fault_if true code path = (code, path) ∷ []
fault_if false code path = []

abbrev pub units : List Text
units = map codes ("lb" ∷ "kg" ∷ "oz" ∷ "ton" ∷ "case" ∷ "pallet" ∷ "unit" ∷ [])

abbrev pub currencies : List Text
currencies = map codes ("USD" ∷ "USDC" ∷ [])

-- `isObject(v)`
abbrev pub object_members : Json → Option Members
object_members (obj ms) = some ms
object_members v = none

-- A parsed amount, or the fault of one that does not parse.
abbrev pub parsed : Result DecimalError ℤ → Text → Option ℤ × List Fault
parsed (ok n) path = (some n, [])
parsed (err e) path = (none, (invalid_decimal, path) ∷ [])

-- `amount(raw, path)`
unfoldable pub amount : Json → Json → Text → Option ℤ × List Fault
amount currency raw path = elim (object_members raw) [
  | none ↦ (none, (invalid_shape, path) ∷ [])
  | some m ↦
      let read = parsed (parse_amount (get m (codes "amount")) 6) (dot path "amount") in
      (
        read.0,
        fault_if (not (same_value (get m (codes "currency")) currency)) unsupported_currency
              (dot path "currency")
            ++ read.1,
      )
]

abbrev pub same_amount : ℤ → ℤ → Bool
same_amount a b = is_zero (a -ℤ b)

abbrev pub differs : Option ℤ → ℤ → Bool
differs none expected = false
differs (some actual) expected = not (same_amount actual expected)

-- `equal(actual, expected, path)`; the magnitude is checked too
unfoldable pub equal : Option ℤ → ℤ → Text → List Fault
equal actual expected path = elim (format_decimal expected 6) [
  | err e ↦ (invalid_decimal, path) ∷ []
  | ok normalized ↦ fault_if (differs actual expected) arithmetic_mismatch path
]

-- `multiplyRounded(quantity, 3, price, 6, 6)`, whose scales are supported
abbrev pub line_total : ℤ → ℤ → Result DecimalError ℤ
line_total quantity price = multiply_rounded quantity 3 price 6 6

-- The value of a line whose parts were read, and the fault of one that is not the rounded product.
-- At the scales 3, 6 and 6 the product has no error, so the last case of it does not arise.
unfoldable pub line_result : Option ℤ → Option ℤ → Option ℤ → Text → Option ℤ × List Fault
unfolding equal
line_result (some quantity) (some price) (some value) path = elim (line_total quantity price) [
  | ok expected ↦ (some value, equal (some value) expected path)
  | err e ↦ (none, (invalid_decimal, path) ∷ [])
]
line_result quantity price value path = (none, [])

-- The members of a line and of its quantity.
abbrev pub line_parts : Json → Option (Members × Members)
line_parts v = elim (object_members v) [
  | none ↦ none
  | some l ↦ elim (object_members (get l (codes "quantity"))) [ none ↦ none | some q ↦ some (l, q) ]
]

-- One turn over the lines: the value that is added to the sum, if any.
unfoldable pub read_line : Json → Json → Text → Option ℤ × List Fault
unfolding amount line_result
read_line currency v path = elim (line_parts v) [
  | none ↦ (none, (invalid_shape, path) ∷ [])
  | some (l, q) ↦
      let quantity =
        parsed (parse_amount (get q (codes "amount")) 3) (dot path "quantity.amount") in
      let price = amount currency (get l (codes "unit_price")) (dot path "unit_price") in
      let value = amount currency (get l (codes "amount")) (dot path "amount") in
      let result = line_result quantity.0 price.0 value.0 (dot path "amount") in
      (
        result.0,
        fault_if (not (one_of units (get q (codes "unit")))) unsupported_unit
              (dot path "quantity.unit")
            ++ quantity.1
            ++ price.1
            ++ value.1
            ++ result.1,
      )
]

abbrev pub added : ℤ → Option ℤ → ℤ
added sum none = sum
added sum (some value) = sum +ℤ value

-- A sum, whether all was read, and the faults.
pub record Sum : Type 0 where
  pub sum : ℤ
  pub valid : Bool
  pub faults : List Fault

unfoldable pub sum_lines : Json → ℕ → Items → ℤ → Bool → Sum
unfolding read_line
sum_lines currency i nil sum valid = record { sum = sum; valid = valid; faults = [] }
sum_lines currency i (item v vs) sum valid =
    let line = read_line currency v (at (codes "line_items") i) in
    let rest = sum_lines currency (suc i) vs (added sum line.0) (valid && is_some line.0) in
    record { sum = rest.sum; valid = rest.valid; faults = line.1 ++ rest.faults }

unfoldable pub read_lines : Json → Json → Sum
unfolding sum_lines
read_lines currency v = elim (array 1 1000 v) [
  | none ↦ record { sum = pos 0; valid = false; faults = (invalid_shape, codes "line_items") ∷ [] }
  | some lines ↦ sum_lines currency 0 lines (pos 0) true
]

abbrev pub deduction_amount : Json → Json
deduction_amount v = elim (object_members v) [ none ↦ undefined | some d ↦ get d (codes "amount") ]

unfoldable pub sum_deductions : Json → ℕ → Items → ℤ → Bool → Sum
unfolding amount
sum_deductions currency i nil sum valid = record { sum = sum; valid = valid; faults = [] }
sum_deductions currency i (item v vs) sum valid =
    let value = amount currency (deduction_amount v) (dot (at (codes "deductions") i) "amount") in
    let rest = sum_deductions currency (suc i) vs (added sum value.0) (valid && is_some value.0) in
    record { sum = rest.sum; valid = rest.valid; faults = value.1 ++ rest.faults }

unfoldable pub read_deductions : Json → Json → Sum
unfolding sum_deductions
read_deductions currency v = elim (array 0 1000 v) [
  | none ↦ record { sum = pos 0; valid = false; faults = (invalid_shape, codes "deductions") ∷ [] }
  | some ds ↦ sum_deductions currency 0 ds (pos 0) true
]

-- The total against the subtotal less the deductions.
unfoldable pub check_total : Option ℤ → Option ℤ → Sum → List Fault
unfolding equal
check_total none total deductions = []
check_total (some subtotal) total deductions =
    if deductions.valid
    then fault_if (ltb_ℤ subtotal deductions.sum) arithmetic_mismatch (codes "deductions")
      ++ equal total (subtotal -ℤ deductions.sum) (codes "total.amount")
    else []

unfoldable pub check_payment : Json → Option ℤ → Option ℤ → List Fault
check_payment status (some paid) (some total) =
    fault_if (ltb_ℤ total paid) invalid_payment_state (codes "paid_amount")
    ++ fault_if (is_text status (codes "paid") && not (same_amount paid total))
        invalid_payment_state (codes "status")
    ++ fault_if
        (is_text status (codes "partially_paid") && not (ltb_ℤ (pos 0) paid && ltb_ℤ paid total))
        invalid_payment_state (codes "status")
check_payment status paid total = []

-- `isObject(body.total) ? body.total.currency : undefined`
abbrev pub currency_of : Members → Json
currency_of b = elim (object_members (get b (codes "total"))) [
  | none ↦ undefined
  | some t ↦ get t (codes "currency")
]

-- The faults of the amounts, in the order in which they are added.
unfoldable pub check_amounts : Members → List Fault
unfolding amount read_lines read_deductions check_total check_payment equal
check_amounts b =
    let currency = currency_of b in
    let subtotal = amount currency (get b (codes "subtotal")) (codes "subtotal") in
    let total = amount currency (get b (codes "total")) (codes "total") in
    let paid = amount currency (get b (codes "paid_amount")) (codes "paid_amount") in
    let lines = read_lines currency (get b (codes "line_items")) in
    let deductions = read_deductions currency (get b (codes "deductions")) in
    fault_if (not (one_of currencies currency)) unsupported_currency (codes "total.currency")
    ++ subtotal.1
    ++ total.1
    ++ paid.1
    ++ lines.faults
    ++ (if lines.valid then equal subtotal.0 lines.sum (codes "subtotal.amount") else [])
    ++ deductions.faults
    ++ check_total subtotal.0 total.0 deductions
    ++ check_payment (get b (codes "status")) paid.0 total.0
