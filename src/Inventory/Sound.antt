-- ===== src/Inventory/Sound.antt =====
-- The invariant of a stock pool.
use direct_trade_protocol.Prelude.{codes}
use direct_trade_protocol.Decimal.{split_dot, decimal_shape, digits_value}
use direct_trade_protocol.Inventory.{create_inventory_state}
use direct_trade_protocol.Prelude.Assoc.{values}
use direct_trade_protocol.Inventory.Sums.{Sums}
use direct_trade_protocol.Prelude.{
  ℕ, ◌≡◌, refl, Bool, true, false, Option, none, some, [], ◌∷◌, arith, ltb, ◌==◌, ok, demand,
  >>=-elim, Text, ◌===◌,
}
use direct_trade_protocol.Prelude.Int.{pos, pos_part}
use direct_trade_protocol.Prelude.Assoc.{lookup}
use direct_trade_protocol.Canonical.{max_safe}
use direct_trade_protocol.Inventory.{
  InventoryState, EventKind, packaging, movement, InventoryEvent, invalid, wrong_scope,
  observation_conflict, revision_conflict, accepted, no_members, Platform, caught, event_json, hash,
  inventory_key, real_timestamp,
}
use direct_trade_protocol.Inventory.Reducer.{
  event_identified, same_scope, act, first_time, observed, decide, apply_inventory_event,
}
use direct_trade_protocol.Decimal.{parse_decimal}
use direct_trade_protocol.Inventory.Frame.{register-packaging}
use direct_trade_protocol.Inventory.Stock.{Holds, move-IsMoved}
use direct_trade_protocol.Inventory.First.{recorded, apply-IsFirst, answer-accepted}

-- The state says numbers, and the stock on hand covers the reservations.
abbrev pub IsSound : InventoryState → Type 0
IsSound t = (h : ℕ) × (r : ℕ) × Holds t h r

module _ (platform : Platform) (s : InventoryState) (e : InventoryEvent) where
  act-IsSound :
      (next : InventoryState) (k : EventKind) (s' : InventoryState)
      → next.on_hand ≡ s.on_hand
      → next.reservations ≡ s.reservations
      → IsSound s
      → act platform s next k ≡ ok s'
      → IsSound s'
  unfolding act
  act-IsSound next (packaging pack) s' on kept (n, r, holds) h =
      let (_, on', kept') = register-packaging platform s next pack s' h in
      (
        n,
        r,
        record {
          stock = rw (on', on) holds.stock;
          sums = rw (kept', kept) holds.sums;
          covered = holds.covered;
        },
      )
  act-IsSound next (movement m v) s' on kept sound h =
      let moved = move-IsMoved platform s next m v s' kept h in
      (moved.on_hand_after, moved.reserved_after, moved.after)

  observed-duplicate :
      (key event_hash : Text) (o : Option Text) (s' : InventoryState)
      → observed platform s e key event_hash o ≡ ok (true, s')
      → s' ≡ s
  unfolding observed first_time
  observed-duplicate key event_hash none s' h =
      >>=-elim (demand (ltb s.revision max_safe) invalid) _ h λ _ _ h1.
        >>=-elim (demand (pos_part e.expected_revision == s.revision) revision_conflict) _ h1
          λ _ _ h2.
            >>=-elim (act platform s (recorded platform s e key event_hash) e.kind) _ h2
              λ _ _ h3. absurd (cc h3)
  observed-duplicate key event_hash (some old) s' h =
      >>=-elim (demand (old === event_hash) observation_conflict) _ h λ _ _ h1. cc h1

  decide-duplicate : (s' : InventoryState) → decide platform s e ≡ ok (true, s') → s' ≡ s
  unfolding decide
  decide-duplicate s' h = >>=-elim (demand (event_identified s e) invalid) _ h λ _ _ h1.
      >>=-elim (demand (same_scope s e) wrong_scope) _ h1 λ _ _ h2.
        >>=-elim (demand (real_timestamp platform e.occurred_at) invalid) _ h2 λ _ _ h3.
          >>=-elim (demand (no_members e.undeclared) invalid) _ h3 λ _ _ h4.
            >>=-elim (caught (hash platform (event_json e))) _ h4 λ event_hash _ h5.
              >>=-elim
                (caught
                  (inventory_key platform (e.company_id ∷ e.source_id ∷ e.observation_id ∷ [])))
                _ h5 λ key _ h6. observed-duplicate key event_hash (lookup key s.observations) s' h6

  -- Every accepted event, a duplicate too, keeps a sound pool sound: the texts of the state are
  -- amounts, and the stock on hand covers the reservations.
  pub apply_inventory_event-IsSound :
      (d : Bool) (s' : InventoryState)
      → IsSound s
      → apply_inventory_event platform s e ≡ accepted d s'
      → IsSound s'
  unfolding apply_inventory_event
  apply_inventory_event-IsSound true s' sound h =
      unfold apply_inventory_event in
      rw (decide-duplicate s' (answer-accepted platform s e (decide platform s e) true s' h)) sound
  apply_inventory_event-IsSound false s' sound h =
      let f = apply-IsFirst platform s e s' h in
      act-IsSound (recorded platform s e f.key f.event_hash) e.kind s' refl refl sound f.acted

-- The states that the callers of the reducer can store: a new pool, and what an accepted event
-- returns.
pub data Reach (platform : Platform) : InventoryState → Type 0 where
  created :
      {s : InventoryState} (company pool product base : Text)
      → create_inventory_state company pool product base ≡ some s
      → Reach platform s
  stored :
      {s s' : InventoryState} (e : InventoryEvent) (d : Bool)
      → Reach platform s
      → apply_inventory_event platform s e ≡ accepted d s'
      → Reach platform s'

zero_read : parse_decimal (codes "0") 3 false ≡ ok (pos 0)
unfolding parse_decimal split_dot decimal_shape digits_value
zero_read = refl

created-empty :
    (company pool product base : Text) (s : InventoryState)
    → create_inventory_state company pool product base ≡ some s
    → (s.on_hand ≡ codes "0") × (s.reservations ≡ [])
unfolding create_inventory_state
created-empty company pool product base s h = ground arith

created-IsSound :
    (company pool product base : Text) (s : InventoryState)
    → create_inventory_state company pool product base ≡ some s
    → IsSound s
unfolding values
created-IsSound company pool product base s h =
    let (on, none_reserved) = created-empty company pool product base s h in
    (
      0,
      0,
      record {
        stock = rw on zero_read;
        sums = rw none_reserved (Sums.zero refl);
        covered = omega arith;
      },
    )

-- In every pool that can be stored, whatever events were sent, the texts are amounts and the stock
-- on hand covers the reservations.
pub Reach-IsSound : (platform : Platform) {s : InventoryState} → Reach platform s → IsSound s
Reach-IsSound platform (created {s} company pool product base h) =
    created-IsSound company pool product base s h
Reach-IsSound platform (stored {s} {s'} e d r h) =
    apply_inventory_event-IsSound platform s e d s' (Reach-IsSound platform r) h
