-- ===== src/Inventory/Reducer.antt =====
-- `applyInventoryEvent` of sdk/src/profiles/inventory.ts.
use direct_trade_protocol.Prelude.{
  suc, ◌/◌, ◌%◌, Bool, true, false, not, ◌&&◌, Option, none, some, List, [], ◌∷◌, ltb, leb, ◌==◌,
  if◌then◌else◌, is_some, Result, ok, err, ◌>>=◌, ◌>>◌, demand, refuse, Text, ◌===◌, includes,
}
use direct_trade_protocol.Prelude.Int.{
  ℤ, pos, negsuc, pos_part, signed, abs, is_negative, is_zero, ltb_ℤ, ◌+ℤ◌, ◌-ℤ◌, ◌*ℤ◌,
}
use direct_trade_protocol.Prelude.Assoc.{Assoc, lookup, insert, remove, values}
use direct_trade_protocol.Canonical.{max_safe}
use direct_trade_protocol.Decimal.{DecimalError, parse_decimal, format_decimal}
use direct_trade_protocol.Inventory.{
  PackagingRevision, PackagingPin, InventoryState, Measure, Movement, receive, adjust, reserve,
  release, fulfill, EventKind, packaging, movement, InventoryEvent, InventoryIssue, invalid,
  wrong_scope, observation_conflict, revision_conflict, packaging_conflict, unknown_packaging,
  unit_mismatch, insufficient_stock, insufficient_reservation, InventoryResult, accepted, refused,
  units, identity, no_members, Platform, caught, is_digest, event_json, hash, inventory_key,
  packaging_digest, real_timestamp,
}

-- A member that is there, or the issue.
abbrev pub present {ℓ} : {A : Type ℓ} → Option A → InventoryIssue → Result InventoryIssue A
present none e = err e
present (some a) e = ok a

abbrev pub reason_ok : Movement → Bool
reason_ok (receive none) = true
reason_ok (receive (some r)) = identity r
reason_ok (adjust none) = false
reason_ok (adjust (some r)) = identity r
reason_ok _ = true

abbrev pub is_adjust : Movement → Bool
is_adjust (adjust r) = true
is_adjust _ = false

-- `for (const value of Object.values(reservations)) reserved += parseDecimal(value, 3)`
unfoldable pub sum_values : ℤ → List Text → Result DecimalError ℤ
sum_values acc [] = ok acc
sum_values acc (t ∷ ts) = do v ← parse_decimal t 3 false; sum_values (acc +ℤ v) ts

-- The amount that a reservation holds; 0 where there is none.
unfoldable pub held : Option Text → Result DecimalError ℤ
held none = ok (pos 0)
held (some t) = parse_decimal t 3 false

-- A reservation is deleted when nothing of it remains.
unfoldable pub keep_remainder : Text → ℤ → Assoc Text → Result DecimalError (Assoc Text)
keep_remainder key remainder held_by =
    if is_zero remainder
    then ok (remove key held_by)
    else (do t ← format_decimal remainder 3; ok (insert key t held_by))

abbrev pub is_safe : ℤ → Bool
is_safe (pos n) = leb n max_safe
is_safe (negsuc n) = false

-- The tests of the reducer's conditions.
unfoldable pub pin_well_formed : PackagingPin → Bool
pin_well_formed pin =
    no_members pin.undeclared
    && identity pin.packaging_id
    && identity pin.version
    && is_digest pin.digest

unfoldable pub converts : PackagingRevision → (unit base_unit : Text) → Bool
converts pack unit base = pack.pack_unit === unit && pack.base_unit === base

unfoldable pub pack_well_formed : PackagingRevision → Bool
pack_well_formed pack =
    no_members pack.undeclared && identity pack.packaging_id && identity pack.version

unfoldable pub pack_in_scope : PackagingRevision → InventoryState → Bool
pack_in_scope pack s =
    pack.company_id === s.company_id
    && pack.product_id === s.product_id
    && pack.base_unit === s.base_unit

unfoldable pub pack_unit_ok : PackagingRevision → Bool
pack_unit_ok pack = includes units pack.pack_unit && not (pack.pack_unit === pack.base_unit)

unfoldable pub event_identified : InventoryState → InventoryEvent → Bool
event_identified s e =
    identity e.company_id
    && identity e.pool_id
    && identity e.source_id
    && identity e.observation_id
    && is_safe e.expected_revision
    && leb s.revision max_safe

unfoldable pub same_scope : InventoryState → InventoryEvent → Bool
same_scope s e = e.company_id === s.company_id && e.pool_id === s.pool_id

-- The result that the caller gets: a refusal hands back the state as it was.
abbrev pub answer : InventoryState → Result InventoryIssue (Bool × InventoryState) → InventoryResult
answer s (ok (duplicate, next)) = accepted duplicate next
answer s (err issue) = refused issue s

module _ (platform : Platform) where
  -- The quantity in base units, through a pinned packaging revision.
  unfoldable pub through_pack :
      InventoryState → Text → Option PackagingPin → ℤ → Result InventoryIssue ℤ
  through_pack s unit none quantity = err unknown_packaging
  through_pack s unit (some pin) quantity = do
    demand (pin_well_formed pin) unknown_packaging
    key ← caught (inventory_key platform (pin.packaging_id ∷ pin.version ∷ []))
    pack ← present (lookup key s.packaging) unknown_packaging
    digest ← caught (packaging_digest platform pack)
    demand (pin.digest === digest) packaging_conflict
    demand (converts pack unit s.base_unit) unit_mismatch
    factor ← caught (parse_decimal pack.base_units_per_pack 3 false)
    let product = quantity *ℤ factor
    demand (abs product % 1000 == 0) invalid
    ok (signed (is_negative product) (abs product / 1000))

  unfoldable pub base_quantity : InventoryState → Measure → ℤ → Result InventoryIssue ℤ
  unfolding through_pack
  base_quantity s m quantity =
      if m.unit === s.base_unit
      then (do refuse (is_some m.packaging_pin) unit_mismatch; ok quantity)
      else through_pack s m.unit m.packaging_pin quantity

  -- `release` and `fulfill`: the reservation shrinks by `quantity`.
  unfoldable pub shrink :
      InventoryState → InventoryState → Text → ℤ → Result InventoryIssue (Assoc Text)
  unfolding keep_remainder held
  shrink s next id quantity = do
    demand (identity id) invalid
    key ← caught (inventory_key platform (id ∷ []))
    current ← caught (held (lookup key s.reservations))
    refuse (ltb_ℤ current quantity) insufficient_reservation
    caught (keep_remainder key (current -ℤ quantity) next.reservations)

  -- The last part of the reducer: what the movement does to the stock on hand and the reservations.
  unfoldable pub settle :
      InventoryState
      → InventoryState
      → Movement
      → (quantity on_hand reserved : ℤ) → Result InventoryIssue InventoryState
  unfolding shrink held
  settle s next (receive r) quantity on_hand reserved = do
    refuse (ltb_ℤ (on_hand +ℤ quantity) reserved) insufficient_stock
    t ← caught (format_decimal (on_hand +ℤ quantity) 3)
    ok (record next { on_hand = t })
  settle s next (adjust r) quantity on_hand reserved = do
    refuse (ltb_ℤ (on_hand +ℤ quantity) reserved) insufficient_stock
    t ← caught (format_decimal (on_hand +ℤ quantity) 3)
    ok (record next { on_hand = t })
  settle s next (reserve id) quantity on_hand reserved = do
    demand (identity id) invalid
    key ← caught (inventory_key platform (id ∷ []))
    current ← caught (held (lookup key s.reservations))
    refuse (ltb_ℤ (on_hand -ℤ reserved) quantity) insufficient_stock
    more ← caught (format_decimal (current +ℤ quantity) 3)
    t ← caught (format_decimal on_hand 3)
    ok (record next { on_hand = t; reservations = insert key more next.reservations })
  settle s next (release id) quantity on_hand reserved = do
    rest ← shrink s next id quantity
    t ← caught (format_decimal on_hand 3)
    ok (record next { on_hand = t; reservations = rest })
  settle s next (fulfill id) quantity on_hand reserved = do
    rest ← shrink s next id quantity
    t ← caught (format_decimal (on_hand -ℤ quantity) 3)
    ok (record next { on_hand = t; reservations = rest })

  unfoldable pub move :
      InventoryState → InventoryState → Measure → Movement → Result InventoryIssue InventoryState
  unfolding base_quantity settle sum_values
  move s next m v = do
    demand (reason_ok v) invalid
    stated ← caught (parse_decimal m.quantity 3 (is_adjust v))
    refuse (is_zero stated) invalid
    demand (includes units m.unit) unit_mismatch
    quantity ← base_quantity s m stated
    bounded ← caught (format_decimal quantity 3)
    on_hand ← caught (parse_decimal s.on_hand 3 false)
    reserved ← caught (sum_values (pos 0) (values s.reservations))
    refuse (ltb_ℤ on_hand reserved) invalid
    settle s next v quantity on_hand reserved

  unfoldable pub same_revision :
      Option PackagingRevision → PackagingRevision → Result InventoryIssue (Unit {0})
  same_revision none pack = ok tt
  same_revision (some old) pack = do
    before ← caught (packaging_digest platform old)
    now ← caught (packaging_digest platform pack)
    demand (before === now) packaging_conflict

  unfoldable pub register :
      InventoryState → InventoryState → PackagingRevision → Result InventoryIssue InventoryState
  unfolding same_revision
  register s next pack = do
    demand (pack_well_formed pack) invalid
    demand (pack_in_scope pack s) wrong_scope
    demand (pack_unit_ok pack) unit_mismatch
    factor ← caught (parse_decimal pack.base_units_per_pack 3 false)
    demand (ltb 0 (pos_part factor)) invalid
    key ← caught (inventory_key platform (pack.packaging_id ∷ pack.version ∷ []))
    same_revision (lookup key next.packaging) pack
    ok (record next { packaging = insert key pack next.packaging })

  unfoldable pub act :
      InventoryState → InventoryState → EventKind → Result InventoryIssue InventoryState
  unfolding register move
  act s next (packaging pack) = register s next pack
  act s next (movement m v) = move s next m v

  -- An event that no observation names yet.
  unfoldable pub first_time :
      InventoryState
      → InventoryEvent
      → (key event_hash : Text) → Result InventoryIssue (Bool × InventoryState)
  unfolding act
  first_time s e key event_hash = do
    demand (ltb s.revision max_safe) invalid
    demand (pos_part e.expected_revision == s.revision) revision_conflict
    let next = record s {
      revision = suc s.revision;
      observations = insert key event_hash s.observations;
    }
    changed ← act s next e.kind
    ok (false, changed)

  unfoldable pub observed :
      InventoryState
      → InventoryEvent
      → (key event_hash : Text) → Option Text
      → Result InventoryIssue (Bool × InventoryState)
  unfolding first_time
  observed s e key event_hash none = first_time s e key event_hash
  observed s e key event_hash (some old) = do
    demand (old === event_hash) observation_conflict
    ok (true, s)

  -- The body of the `try` block.
  unfoldable pub decide :
      InventoryState → InventoryEvent → Result InventoryIssue (Bool × InventoryState)
  unfolding observed
  decide s e = do
    demand (event_identified s e) invalid
    demand (same_scope s e) wrong_scope
    demand (real_timestamp platform e.occurred_at) invalid
    demand (no_members e.undeclared) invalid
    event_hash ← caught (hash platform (event_json e))
    key ← caught (inventory_key platform (e.company_id ∷ e.source_id ∷ e.observation_id ∷ []))
    observed s e key event_hash (lookup key s.observations)

  unfoldable pub apply_inventory_event : InventoryState → InventoryEvent → InventoryResult
  apply_inventory_event s e = answer s (decide s e)
