-- ===== src/Inventory/Tests.antt =====
-- A pool that receives, reserves and fulfills, and the theorems at its events. The platform's digest
-- is a toy: the text itself.
use direct_trade_protocol.Prelude.{
  ℕ, ◌≡◌, refl, true, false, none, some, [], ◌≤◌, Text, codes, ◌===◌, includes, suc,
}
use direct_trade_protocol.Prelude.Int.{pos, ◌+ℤ◌, ◌-ℤ◌, ◌*ℤ◌}
use direct_trade_protocol.Prelude.Assoc.{lookup, insert, remove, values}
use direct_trade_protocol.Canonical.{end, canonicalize, max_safe}
use direct_trade_protocol.Decimal.{
  parse_decimal, format_decimal, split_dot, decimal_shape, digits_value,
}
use direct_trade_protocol.Inventory.{
  InventoryState, Measure, receive, reserve, EventKind, movement, InventoryEvent, InventoryResult,
  accepted, refused, revision_conflict, insufficient_stock, Platform, event_json, hash,
  inventory_key, real_timestamp, create_inventory_state,
}
use direct_trade_protocol.Inventory.Reducer.{
  event_identified, same_scope, decide, first_time, apply_inventory_event,
}
use direct_trade_protocol.Inventory.Stock.{IsMoved}
use direct_trade_protocol.Inventory.First.{
  apply_inventory_event-IsMoved, apply_inventory_event-revision,
}
use direct_trade_protocol.Inventory.Replay.{apply_inventory_event-duplicate}
use direct_trade_protocol.Inventory.Sound.{IsSound, created, stored, Reach-IsSound}

inventory : Unit {0}
unfolding apply_inventory_event decide event_identified same_scope event_json hash inventory_key
    real_timestamp canonicalize first_time parse_decimal format_decimal split_dot decimal_shape
    digits_value ◌===◌ lookup insert remove values includes create_inventory_state ◌+ℤ◌ ◌-ℤ◌ ◌*ℤ◌
inventory = tt

abbrev toy : Platform
toy = record { sha256_hex = λ t. t; iso_instant = λ t. some t }

abbrev pool : InventoryState
pool = record {
  company_id = codes "c1";
  pool_id = codes "p1";
  product_id = codes "x";
  base_unit = codes "lb";
  revision = 0;
  on_hand = codes "0";
  reservations = [];
  packaging = [];
  observations = [];
}

abbrev measure : Text → Measure
measure q = record { quantity = q; unit = codes "lb"; packaging_pin = none }

abbrev event : Text → ℕ → EventKind → InventoryEvent
event id expected kind = record {
  company_id = codes "c1";
  pool_id = codes "p1";
  source_id = codes "s";
  observation_id = id;
  expected_revision = pos expected;
  occurred_at = codes "2026-01-02T03:04:05Z";
  kind = kind;
  undeclared = end;
}

abbrev delivery : InventoryEvent
delivery = event (codes "o1") 0 (movement (measure (codes "10.5")) (receive none))

abbrev state_of : InventoryResult → InventoryState
state_of (accepted d s) = s
state_of (refused i s) = s

stocked : InventoryState
stocked = state_of (apply_inventory_event toy pool delivery)

delivered : apply_inventory_event toy pool delivery ≡ accepted false stocked
unfolding inventory stocked
delivered = refl

on_hand_after : stocked.on_hand ≡ codes "10.5"
unfolding inventory stocked
on_hand_after = refl

abbrev order : InventoryEvent
order = event (codes "o2") 1 (movement (measure (codes "4")) (reserve (codes "r1")))

reserved : InventoryState
reserved = state_of (apply_inventory_event toy stocked order)

ordered : apply_inventory_event toy stocked order ≡ accepted false reserved
unfolding inventory reserved stocked
ordered = refl

too_much :
    apply_inventory_event toy reserved
      (event (codes "o3") 2 (movement (measure (codes "7")) (reserve (codes "r2"))))
    ≡ refused insufficient_stock reserved
unfolding inventory reserved stocked
too_much = refl

stale :
    apply_inventory_event toy reserved
      (event (codes "o4") 1 (movement (measure (codes "1")) (receive none)))
    ≡ refused revision_conflict reserved
unfolding inventory reserved stocked
stale = refl

pool_created : create_inventory_state (codes "c1") (codes "p1") (codes "x") (codes "lb") ≡ some pool
unfolding inventory
pool_created = refl

apply_inventory_event-IsMoved_example :
    IsMoved toy stocked (measure (codes "4")) (reserve (codes "r1")) reserved
apply_inventory_event-IsMoved_example =
    apply_inventory_event-IsMoved toy stocked order (measure (codes "4")) (reserve (codes "r1"))
      reserved ordered refl

apply_inventory_event-revision_example :
    (1 ≡ stocked.revision)
    × (reserved.revision ≡ suc stocked.revision)
    × (reserved.revision ≤ max_safe)
apply_inventory_event-revision_example =
    apply_inventory_event-revision toy stocked order reserved ordered

apply_inventory_event-duplicate_example :
    apply_inventory_event toy reserved order ≡ accepted true reserved
apply_inventory_event-duplicate_example =
    apply_inventory_event-duplicate toy stocked order reserved ordered

Reach-IsSound_example : IsSound reserved
Reach-IsSound_example = Reach-IsSound toy (
    stored order false
      (stored delivery false
        (created (codes "c1") (codes "p1") (codes "x") (codes "lb") pool_created) delivered)
      ordered)
