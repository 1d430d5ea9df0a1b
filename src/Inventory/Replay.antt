-- ===== src/Inventory/Replay.antt =====
-- A repeated event is recognised.
use direct_trade_protocol.Prelude.{
  ◌≤◌, ◌≡◌, ap, ◌∙◌, true, false, Option, none, some, arith, ok, Text, ===_refl, ===_iff,
}
use direct_trade_protocol.Prelude.Assoc.{lookup, lookup-insert}
use direct_trade_protocol.Canonical.{max_safe}
use direct_trade_protocol.Inventory.{InventoryState, InventoryEvent, accepted, Platform}
use direct_trade_protocol.Inventory.Reducer.{
  event_identified, same_scope, observed, decide, apply_inventory_event,
}
use direct_trade_protocol.Inventory.Frame.{act-SameFrame}
use direct_trade_protocol.Inventory.First.{recorded, apply-IsFirst, apply_inventory_event-revision}

module _ (platform : Platform) (s : InventoryState) (e : InventoryEvent) where
  observed-again :
      (s' : InventoryState) (key event_hash : Text) (o : Option Text)
      → o ≡ some event_hash
      → observed platform s' e key event_hash o ≡ ok (true, s')
  unfolding observed
  observed-again s' key event_hash none h = cc
  observed-again s' key event_hash (some old) h = rw ((===_iff old event_hash).1 (cc h))

  event_identified-later :
      (s' : InventoryState)
      → event_identified s e ≡ true
      → s'.revision ≤ max_safe
      → event_identified s' e ≡ true
  unfolding event_identified
  event_identified-later s' h below = ground arith

  same_scope-later :
      (s' : InventoryState)
      → s'.company_id ≡ s.company_id
      → s'.pool_id ≡ s.pool_id
      → same_scope s e ≡ true
      → same_scope s' e ≡ true
  unfolding same_scope
  same_scope-later s' company pool h = rw (company, pool) h

  -- Sending an accepted event again is answered as a duplicate, and changes nothing.
  pub apply_inventory_event-duplicate :
      (s' : InventoryState)
      → apply_inventory_event platform s e ≡ accepted false s'
      → apply_inventory_event platform s' e ≡ accepted true s'
  unfolding apply_inventory_event decide
  apply_inventory_event-duplicate s' h =
      let f = apply-IsFirst platform s e s' h in
      let frame =
        act-SameFrame platform s (recorded platform s e f.key f.event_hash) e.kind s' f.acted in
      let (_, _, below) = apply_inventory_event-revision platform s e s' h in
      let found : lookup f.key s'.observations ≡ some f.event_hash =
        ap (lookup f.key) frame.observations
        ∙ lookup-insert f.key f.key f.event_hash s.observations
        ∙ ground (arith, ===_refl f.key) in
      rw (
        event_identified-later s' f.identified below,
        same_scope-later s' frame.company frame.pool f.scope,
        f.timely,
        f.declared,
        f.hashes,
        f.keys,
        observed-again s' f.key f.event_hash (lookup f.key s'.observations) found,
      )
