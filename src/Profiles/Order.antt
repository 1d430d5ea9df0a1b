-- ===== src/Profiles/Order.antt =====
-- sdk/src/profiles/order.ts: validateOrder. Its continuity is in Order/Amendments.
pub mod Amendments
pub mod Accepted
mod Tests
use direct_trade_protocol.Prelude.{
  ℕ, suc, Bool, true, false, not, ◌&&◌, ◌||◌, Option, none, some, List, [], ◌∷◌, map, Text, codes,
  ◌===◌, String, Result, ok, err, ◌>>=◌, if◌then◌else◌, any,
}
use direct_trade_protocol.Canonical.{Json, bool, str, Items, nil, item, Members, before}
use direct_trade_protocol.Store.Transitions.{get, is_null, same_value}
use direct_trade_protocol.Profiles.Issues.{Checked, pass, fail, fail_if, ◌&◌, at, dot}
use direct_trade_protocol.Profiles.Shapes.{
  exact_object, array, text, matches, uuid_or_null, bad_unless_null, one_of, integer_within,
  is_currency, is_incoterm,
}
use direct_trade_protocol.Profiles.Dates.{is_local_date}
use direct_trade_protocol.Profiles.Units.{parse_amount, check_positive, check_unit}
use direct_trade_protocol.Profiles.Identifiers.{check_identifiers}
use direct_trade_protocol.Profiles.Act.{same_test, fail_unless_instant}

abbrev pub max_order_lines : ℕ
max_order_lines = 256

abbrev pub order_statuses : List Text
order_statuses = map codes (
    "placed" ∷ "acknowledged" ∷ "rejected" ∷ "partially_fulfilled" ∷ "fulfilled" ∷ "cancelled"
    ∷ "closed" ∷ [])

abbrev is_bool : Json → Bool
is_bool (bool b) = true
is_bool v = false

abbrev is_true : Json → Bool
is_true (bool b) = b
is_true v = false

-- The members of a role that passes the first test of `checkRole`.
unfoldable pub role_members : Json → Option Members
role_members v = elim (exact_object v (codes "self" ∷ codes "party_id" ∷ codes "revision" ∷ [])) [
  | none ↦ none
  | some r ↦
      if is_bool (get r (codes "self"))
        && uuid_or_null (get r (codes "party_id"))
        && uuid_or_null (get r (codes "revision"))
      then some r
      else none
]

-- What `checkRole` adds to the issues.
unfoldable pub check_role : Json → Text → Checked
unfolding role_members
check_role v path = elim (role_members v) [
  | none ↦ fail path "self flag, party root or null, revision or null required"
  | some r ↦
      fail_if
        (is_true (get r (codes "self"))
          && (not (is_null (get r (codes "party_id"))) || not (is_null (get r (codes "revision")))))
        path "the company itself has no party record"
      & fail_if (not (is_true (get r (codes "self"))) && is_null (get r (codes "party_id"))) path
          "a counterparty names its party record"
]

-- What `checkRole` returns.
unfoldable pub role_self : Json → Bool
unfolding role_members
role_self v = elim (role_members v) [ none ↦ false | some r ↦ is_true (get r (codes "self")) ]

unfoldable pub check_external : Json → Checked
check_external v = elim (array 0 16 v) [
  | none ↦ fail (codes "$.external") "at most 16 external identifiers"
  | some ids ↦
      check_identifiers "namespaced scheme required" (λ id path. pass) [] (codes "$.external") 0 ids
]

unfoldable pub product_members : Json → Option Members
product_members v =
    elim (exact_object v (codes "product_id" ∷ codes "revision" ∷ codes "description" ∷ [])) [
      | none ↦ none
      | some p ↦
          if uuid_or_null (get p (codes "product_id"))
            && uuid_or_null (get p (codes "revision"))
            && not (
                bad_unless_null (get p (codes "description"))
                  (text (get p (codes "description")) 500))
          then some p
          else none
    ]

unfoldable pub check_line_product : Json → Text → Checked
unfolding product_members
check_line_product v path = elim (product_members v) [
  | none ↦
      fail (dot path "product") "product root, revision and description, each or null, required"
  | some p ↦
      fail_if (is_null (get p (codes "product_id")) && is_null (get p (codes "description")))
        (dot path "product") "a product root or a description is required"
      & fail_if (is_null (get p (codes "product_id")) && not (is_null (get p (codes "revision"))))
          (dot path "product.revision") "a revision needs its product root"
]

unfoldable pub check_quantity : Json → Text → Checked
check_quantity v path = elim (exact_object v (codes "amount" ∷ codes "unit" ∷ [])) [
  | none ↦ fail (dot path "quantity") "amount and unit required"
  | some q ↦
      check_positive (get q (codes "amount")) (dot path "quantity.amount")
        "positive quantity required" "three-place decimal required"
      & check_unit (get q (codes "unit")) (dot path "quantity.unit")
]

-- `try { parseDecimal(v, 6); } catch { fail(...) }`
unfoldable pub check_price_amount : Json → Text → Checked
check_price_amount v path = elim (parse_amount v 6) [
  | ok n ↦ pass
  | err e ↦ fail path "six-place decimal required"
]

unfoldable pub check_price : Json → Json → Text → Checked
unfolding check_price_amount
check_price currency v path =
    if is_null v then pass else elim (exact_object v (codes "amount" ∷ codes "currency" ∷ [])) [
      | none ↦ fail (dot path "price") "amount and currency required"
      | some p ↦
          check_price_amount (get p (codes "amount")) (dot path "price.amount")
          & fail_if (not (same_value (get p (codes "currency")) currency))
              (dot path "price.currency") "line currency must be the order currency"
    ]

-- `v > w` of two dates
abbrev pub later_date : Json → Json → Bool
later_date (str s) (str t) = before t s
later_date v w = false

unfoldable pub window : Json → Option Members
window v = elim (exact_object v (codes "start" ∷ codes "end" ∷ [])) [
  | none ↦ none
  | some w ↦
      if is_local_date (get w (codes "start")) && is_local_date (get w (codes "end"))
      then some w
      else none
]

unfoldable pub check_requested : Json → Text → Checked
unfolding window
check_requested v path = if is_null v then pass else elim (window v) [
  | none ↦ fail (dot path "requested") "start and end dates required"
  | some w ↦
      fail_if (later_date (get w (codes "start")) (get w (codes "end"))) (dot path "requested")
        "window ends before it starts"
]

unfoldable pub links_ok : Json → Bool
links_ok v = elim (exact_object v (codes "contract_id" ∷ [])) [
  | none ↦ false
  | some l ↦ uuid_or_null (get l (codes "contract_id"))
]

unfoldable pub line_members : Json → Option Members
line_members v =
    exact_object v
      (map codes ("line_id" ∷ "product" ∷ "quantity" ∷ "price" ∷ "requested" ∷ "links" ∷ []))

-- One turn over the lines after its exact fields; `seen` holds the line ids of the turns before.
unfoldable pub check_line : Json → List Json → Members → Text → Checked
unfolding check_line_product check_quantity check_price check_requested links_ok
check_line currency seen l path =
    fail_if (not (text (get l (codes "line_id")) 80)) (dot path "line_id")
      "bounded line id required"
    & fail_if (any (same_value (get l (codes "line_id"))) seen) path "duplicate line id"
    & check_line_product (get l (codes "product")) path
    & check_quantity (get l (codes "quantity")) path
    & check_price currency (get l (codes "price")) path
    & check_requested (get l (codes "requested")) path
    & fail_if (not (links_ok (get l (codes "links")))) (dot path "links")
        "contract root or null required"

unfoldable pub check_lines : Json → List Json → ℕ → Items → Checked
unfolding line_members check_line
check_lines currency seen i nil = pass
check_lines currency seen i (item v vs) = elim (line_members v) [
  | none ↦
      fail (at (codes "$.lines") i) "exact line fields required"
      & check_lines currency seen (suc i) vs
  | some l ↦
      check_line currency seen l (at (codes "$.lines") i)
      & check_lines currency (get l (codes "line_id") ∷ seen) (suc i) vs
]

unfoldable pub check_line_list : Json → Json → Checked
unfolding check_lines
check_line_list currency v = elim (array 1 max_order_lines v) [
  | none ↦ fail (codes "$.lines") "1-256 lines required"
  | some lines ↦ check_lines currency [] 0 lines
]

unfoldable pub check_terms : Json → Checked
check_terms v = elim (exact_object v (codes "payment_net_days" ∷ codes "incoterm" ∷ [])) [
  | none ↦ fail (codes "$.terms") "payment_net_days and incoterm required"
  | some t ↦
      fail_if
        (bad_unless_null (get t (codes "payment_net_days"))
          (integer_within 0 365 (get t (codes "payment_net_days"))))
        (codes "$.terms.payment_net_days") "0-365 or null required"
      & fail_if
          (bad_unless_null (get t (codes "incoterm"))
            (matches is_incoterm (get t (codes "incoterm"))))
          (codes "$.terms.incoterm") "three-letter incoterm or null required"
]

unfoldable pub order_members : Json → Option Members
order_members v = exact_object v (
    map codes (
      "buyer" ∷ "seller" ∷ "placed_at" ∷ "currency" ∷ "external" ∷ "lines" ∷ "status" ∷ "terms"
      ∷ "replaces" ∷ []))

-- The rules for a body with exactly the members of an order.
unfoldable pub check_order : Members → Checked
unfolding check_role role_self check_external check_line_list check_terms
check_order b =
    check_role (get b (codes "buyer")) (codes "$.buyer")
    & check_role (get b (codes "seller")) (codes "$.seller")
    & fail_if (same_test (role_self (get b (codes "buyer"))) (role_self (get b (codes "seller"))))
        (codes "$") "exactly one of buyer and seller is the company itself"
    & fail_unless_instant (get b (codes "placed_at")) (codes "$.placed_at")
    & fail_if (not (matches is_currency (get b (codes "currency")))) (codes "$.currency")
        "currency code required"
    & check_external (get b (codes "external"))
    & check_line_list (get b (codes "currency")) (get b (codes "lines"))
    & fail_if (not (one_of order_statuses (get b (codes "status")))) (codes "$.status")
        "unknown status"
    & check_terms (get b (codes "terms"))
    & fail_if (not (uuid_or_null (get b (codes "replaces")))) (codes "$.replaces")
        "replaced order root or null required"

unfoldable pub validate_order : Json → Checked
unfolding order_members check_order
validate_order body = elim (order_members body) [
  | none ↦ fail (codes "$") "exact order fields required"
  | some b ↦ check_order b
]
