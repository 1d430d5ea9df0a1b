-- ===== src/Profiles/Order/Amendments.antt =====
-- checkOrderGenesis and checkOrderContinuity of sdk/src/profiles/order.ts, on bodies that have passed
-- validateOrder: the members that they read.
pub mod Kept
use direct_trade_protocol.Prelude.{
  ℕ, suc, Bool, true, false, not, ◌++◌, List, [], ◌∷◌, Text, codes, String, ◌===◌, ok, ◌>>=◌,
  includes, if◌then◌else◌,
}
use direct_trade_protocol.Canonical.{Json}
use direct_trade_protocol.Profiles.Issues.{
  Checked, pass, fail, fail_if, ◌&◌, canonical, at, dot, issue,
}
use direct_trade_protocol.Profiles.Identifiers.{Identifier, keys, key_of}

pub data OrderStatus : Type 0 where
  placed acknowledged rejected partially_fulfilled fulfilled cancelled closed : OrderStatus

abbrev pub status_name : OrderStatus → Text
status_name placed = codes "placed"
status_name acknowledged = codes "acknowledged"
status_name rejected = codes "rejected"
status_name partially_fulfilled = codes "partially_fulfilled"
status_name fulfilled = codes "fulfilled"
status_name cancelled = codes "cancelled"
status_name closed = codes "closed"

pub record OrderBody : Type 0 where
  pub buyer : Json
  pub seller : Json
  pub placed_at : Json
  pub currency : Json
  pub external : List Identifier
  pub lines : Json
  pub status : OrderStatus
  pub terms : Json
  pub replaces : Json

-- `ORDER_TRANSITIONS[previous].includes(next)`
unfoldable pub order_transition : OrderStatus → OrderStatus → Bool
order_transition placed placed = true
order_transition placed acknowledged = true
order_transition placed rejected = true
order_transition placed cancelled = true
order_transition acknowledged acknowledged = true
order_transition acknowledged partially_fulfilled = true
order_transition acknowledged fulfilled = true
order_transition acknowledged cancelled = true
order_transition partially_fulfilled partially_fulfilled = true
order_transition partially_fulfilled fulfilled = true
order_transition partially_fulfilled cancelled = true
order_transition fulfilled closed = true
order_transition _ _ = false

abbrev pub is_placed : OrderStatus → Bool
is_placed placed = true
is_placed _ = false

unfoldable pub check_order_genesis : OrderBody → Checked
check_order_genesis body =
    fail_if (not (is_placed body.status)) (codes "$.status") "an order is born placed"

-- `if (!same(v, w)) issues.push(...)`
unfoldable pub check_same : Json → Json → Text → String → Checked
check_same v w path message = do
  a ← canonical v
  b ← canonical w
  fail_if (not (a === b)) path message

unfoldable pub check_frozen : OrderBody → OrderBody → Checked
unfolding check_same
check_frozen previous next =
    if is_placed previous.status
    then pass
    else (check_same previous.lines next.lines (codes "$.lines")
          "lines are frozen once acknowledged; a change is a new order that replaces this one"
        & check_same previous.terms next.terms (codes "$.terms")
            "terms are frozen once acknowledged")

-- `previous.external.forEach(...)`
unfoldable pub check_kept : List Text → ℕ → List Identifier → Checked
check_kept kept i [] = pass
check_kept kept i (e ∷ es) =
    (do
      k ← key_of e
      fail_if (not (includes kept k)) (at (codes "$.external") i)
          "an external identifier is never removed")
    & check_kept kept (suc i) es

unfoldable pub check_order_continuity : OrderBody → OrderBody → Checked
unfolding check_same check_frozen check_kept
check_order_continuity previous next =
    check_same previous.buyer next.buyer (codes "$.buyer") "buyer is immutable"
    & check_same previous.seller next.seller (codes "$.seller") "seller is immutable"
    & check_same previous.placed_at next.placed_at (codes "$.placed_at") "placed_at is immutable"
    & check_same previous.currency next.currency (codes "$.currency") "currency is immutable"
    & check_same previous.replaces next.replaces (codes "$.replaces") "replaces is immutable"
    & (if order_transition previous.status next.status
        then pass
        else ok (
            issue (codes "$.status") (
              codes "no transition from "
              ++ status_name previous.status
              ++ codes " to "
              ++ status_name next.status)
            ∷ []))
    & check_frozen previous next
    & (do kept ← keys next.external; check_kept kept 0 previous.external)
