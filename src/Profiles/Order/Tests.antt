-- ===== src/Profiles/Order/Tests.antt =====
-- An order of one line, as it is placed, amended, and written with a time that is none.
use direct_trade_protocol.Prelude.{
  ◌≡◌, refl, List, [], ◌∷◌, Text, codes, ok, err, some, true, false,
}
use direct_trade_protocol.Prelude.Int.{pos}
use direct_trade_protocol.Canonical.{
  Json, null, bool, num, str, arr, obj, nil, item, Members, end, member,
}
use direct_trade_protocol.Profiles.Issues.{pass, issue, invalid_time, ProfileError}
use direct_trade_protocol.Store.Transitions.{get}
use direct_trade_protocol.Profiles.Identifiers.{Identifier}
use direct_trade_protocol.Profiles.Order.Amendments.{
  OrderStatus, placed, acknowledged, fulfilled, OrderBody, order_transition, check_order_continuity,
}
use direct_trade_protocol.Profiles.Order.Amendments.Kept.{Kept, unamended, amended, Amended-Kept}
use direct_trade_protocol.Profiles.Runs.{profile_runs}
use direct_trade_protocol.Profiles.Dates.{is_instant}
use direct_trade_protocol.Profiles.Order.{validate_order, order_members}
use direct_trade_protocol.Profiles.Order.Accepted.{
  Accepted, validate_order-Accepted, validate_order-throws,
}

abbrev line : Json
line = obj (
    member (codes "line_id") (str (codes "1")) (
      member (codes "product")
        (obj (
          member (codes "product_id") null (
            member (codes "revision") null
              (member (codes "description") (str (codes "apples")) end))))
        (member (codes "quantity")
          (obj (
            member (codes "amount") (str (codes "2.5")) (
              member (codes "unit")
                (obj (
                  member (codes "system") (str (codes "ucum")) (
                    member (codes "code") (str (codes "kg")) (
                      member (codes "packaging_id") null (
                        member (codes "version") null
                          (member (codes "base_units_per_pack") null end))))))
                end)))
          (member (codes "price")
            (obj (
              member (codes "amount") (str (codes "1.25"))
                (member (codes "currency") (str (codes "USD")) end)))
            (member (codes "requested") null
              (member (codes "links") (obj (member (codes "contract_id") null end)) end))))))

abbrev role : Json → Json → Json
role self party = obj (
    member (codes "self") self
      (member (codes "party_id") party (member (codes "revision") null end)))

abbrev members_at : Text → Members
members_at time = member (codes "buyer") (role (bool true) null) (
    member (codes "seller") (role (bool false) (str (codes "01234567-89ab-cdef-0123-456789abcdef")))
      (member (codes "placed_at") (str time) (
        member (codes "currency") (str (codes "USD")) (
          member (codes "external")
            (arr (
              item
                (obj (
                  member (codes "scheme") (str (codes "erp.po"))
                    (member (codes "value") (str (codes "77")) end)))
                nil))
            (member (codes "lines") (arr (item line nil)) (
              member (codes "status") (str (codes "placed")) (
                member (codes "terms")
                  (obj (
                    member (codes "payment_net_days") (num (pos 30))
                      (member (codes "incoterm") (str (codes "FOB")) end)))
                  (member (codes "replaces") null end))))))))

abbrev order_at : Text → Json
order_at time = obj (members_at time)

order_passes : validate_order (order_at (codes "2026-02-28T09:30:00.000Z")) ≡ pass
unfolding validate_order profile_runs
order_passes = refl

order_at_midnight :
    validate_order (order_at (codes "2026-02-28T24:00:00.000Z"))
    ≡ ok (issue (codes "$.placed_at") (codes "UTC millisecond instant required") ∷ [])
unfolding validate_order profile_runs
order_at_midnight = refl

validate_order-Accepted_example : Accepted (order_at (codes "2026-02-28T09:30:00.000Z"))
validate_order-Accepted_example =
    validate_order-Accepted (order_at (codes "2026-02-28T09:30:00.000Z")) order_passes

late_members :
    order_members (order_at (codes "2026-02-28T25:00:00.000Z"))
    ≡ some (members_at (codes "2026-02-28T25:00:00.000Z"))
unfolding order_members profile_runs
late_members = refl

late_time :
    is_instant (get (members_at (codes "2026-02-28T25:00:00.000Z")) (codes "placed_at"))
    ≡ err invalid_time
unfolding profile_runs
late_time = refl

validate_order-throws_example :
    (thrown : ProfileError) × (validate_order (order_at (codes "2026-02-28T25:00:00.000Z"))
      ≡ err thrown)
validate_order-throws_example =
    validate_order-throws (order_at (codes "2026-02-28T25:00:00.000Z"))
      (members_at (codes "2026-02-28T25:00:00.000Z")) invalid_time late_members late_time

abbrev order_in : OrderStatus → List Identifier → Json → OrderBody
order_in status external lines = record {
  buyer = str (codes "us");
  seller = str (codes "them");
  placed_at = str (codes "2026-02-28T09:30:00.000Z");
  currency = str (codes "USD");
  external = external;
  lines = lines;
  status = status;
  terms = null;
  replaces = null;
}

abbrev numbered : Identifier
numbered = (codes "erp.po", codes "77")

abbrev invoiced : Identifier
invoiced = (codes "erp.inv", codes "12")

abbrev acknowledged_order : OrderBody
acknowledged_order = order_in acknowledged (numbered ∷ []) (str (codes "apples"))

abbrev fulfilled_order : OrderBody
fulfilled_order = order_in fulfilled (invoiced ∷ numbered ∷ []) (str (codes "apples"))

fulfilling : check_order_continuity acknowledged_order fulfilled_order ≡ pass
unfolding check_order_continuity order_transition profile_runs
fulfilling = refl

going_back :
    check_order_continuity fulfilled_order (order_in placed [] (str (codes "pears")))
    ≡ ok (
        issue (codes "$.status") (codes "no transition from fulfilled to placed")
        ∷ issue (codes "$.lines") (
            codes
              "lines are frozen once acknowledged; a change is a new order that replaces this one")
        ∷ issue (codes "$.external[0]") (codes "an external identifier is never removed")
        ∷ issue (codes "$.external[1]") (codes "an external identifier is never removed")
        ∷ [])
unfolding check_order_continuity order_transition profile_runs
going_back = refl

Amended-Kept_example : Kept acknowledged_order fulfilled_order
Amended-Kept_example =
    Amended-Kept {a = acknowledged_order} {b = fulfilled_order}
      (amended {b = acknowledged_order} unamended fulfilling)
