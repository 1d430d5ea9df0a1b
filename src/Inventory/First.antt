-- ===== src/Inventory/First.antt =====
-- What an event that `applyInventoryEvent` accepts for the first time has passed, and the effect of a
-- movement.
use direct_trade_protocol.Prelude.{
  suc, ◌≤◌, ◌≡◌, refl, ap, ◌∙◌, Bool, true, false, Option, none, some, [], ◌∷◌, ltb, ◌==◌, ==_iff,
  ltb→lt, Result, ok, err, demand, >>=-elim, demand-eq-ok, ok-injective, Text, ◌===◌,
}
use direct_trade_protocol.Prelude.Int.{pos_part}
use direct_trade_protocol.Prelude.Assoc.{lookup, insert}
use direct_trade_protocol.Canonical.{max_safe}
use direct_trade_protocol.Inventory.{
  InventoryState, Measure, Movement, movement, InventoryEvent, InventoryIssue, invalid, wrong_scope,
  observation_conflict, revision_conflict, accepted, no_members, Platform, caught, event_json, hash,
  inventory_key, real_timestamp,
}
use direct_trade_protocol.Inventory.Reducer.{
  event_identified, same_scope, act, first_time, observed, decide, answer, apply_inventory_event,
}
use direct_trade_protocol.Inventory.Frame.{act-SameFrame}
use direct_trade_protocol.Inventory.Stock.{caught-eq-ok, IsMoved, move-IsMoved}

module _ (platform : Platform) (s : InventoryState) (e : InventoryEvent) where
  -- The state that the branches start from: the next revision, with the observation recorded.
  abbrev pub recorded : Text → Text → InventoryState
  recorded key event_hash = record s {
    revision = suc s.revision;
    observations = insert key event_hash s.observations;
  }

  -- What an event that is accepted for the first time has passed.
  pub record IsFirst (s' : InventoryState) : Type 0 where
    pub key : Text
    pub event_hash : Text
    pub identified : event_identified s e ≡ true
    pub scope : same_scope s e ≡ true
    pub timely : real_timestamp platform e.occurred_at ≡ true
    pub declared : no_members e.undeclared ≡ true
    pub hashes : hash platform (event_json e) ≡ ok event_hash
    pub keys : inventory_key platform (e.company_id ∷ e.source_id ∷ e.observation_id ∷ []) ≡ ok key
    pub fresh : lookup key s.observations ≡ none
    pub room : ltb s.revision max_safe ≡ true
    pub current : (pos_part e.expected_revision == s.revision) ≡ true
    pub acted : act platform s (recorded key event_hash) e.kind ≡ ok s'

  first_time-parts :
      (key event_hash : Text) (s' : InventoryState)
      → first_time platform s e key event_hash ≡ ok (false, s')
      → (ltb s.revision max_safe ≡ true)
        × ((pos_part e.expected_revision == s.revision) ≡ true)
        × (act platform s (recorded key event_hash) e.kind ≡ ok s')
  unfolding first_time
  first_time-parts key event_hash s' h =
      >>=-elim (demand (ltb s.revision max_safe) invalid) _ h λ _ room h1.
        >>=-elim (demand (pos_part e.expected_revision == s.revision) revision_conflict) _ h1
          λ _ current h2.
            >>=-elim (act platform s (recorded key event_hash) e.kind) _ h2 λ changed acted h3. (
              demand-eq-ok (ltb s.revision max_safe) invalid room,
              demand-eq-ok (pos_part e.expected_revision == s.revision) revision_conflict current,
              acted ∙ ap ok (ap (λ (r : Bool × InventoryState). r.1) (ok-injective h3)),
            )

  observed-fresh :
      (key event_hash : Text) (o : Option Text) (s' : InventoryState)
      → observed platform s e key event_hash o ≡ ok (false, s')
      → (o ≡ none) × (first_time platform s e key event_hash ≡ ok (false, s'))
  unfolding observed
  observed-fresh key event_hash none s' h = (refl, h)
  observed-fresh key event_hash (some old) s' h =
      >>=-elim (demand (old === event_hash) observation_conflict) _ h λ _ _ h1. absurd (cc h1)

  decide-IsFirst : (s' : InventoryState) → decide platform s e ≡ ok (false, s') → IsFirst s'
  unfolding decide
  decide-IsFirst s' h = >>=-elim (demand (event_identified s e) invalid) _ h λ _ identified h1.
      >>=-elim (demand (same_scope s e) wrong_scope) _ h1 λ _ scope h2.
        >>=-elim (demand (real_timestamp platform e.occurred_at) invalid) _ h2 λ _ timely h3.
          >>=-elim (demand (no_members e.undeclared) invalid) _ h3 λ _ declared h4.
            >>=-elim (caught (hash platform (event_json e))) _ h4 λ event_hash hashes h5.
              >>=-elim
                (caught
                  (inventory_key platform (e.company_id ∷ e.source_id ∷ e.observation_id ∷ [])))
                _ h5
                λ key keys h6.
                  let (fresh, first) =
                    observed-fresh key event_hash (lookup key s.observations) s' h6 in
                  let (room, current, acted) = first_time-parts key event_hash s' first in
                  record {
                    key = key;
                    event_hash = event_hash;
                    identified = demand-eq-ok (event_identified s e) invalid identified;
                    scope = demand-eq-ok (same_scope s e) wrong_scope scope;
                    timely = demand-eq-ok (real_timestamp platform e.occurred_at) invalid timely;
                    declared = demand-eq-ok (no_members e.undeclared) invalid declared;
                    hashes = caught-eq-ok (hash platform (event_json e)) hashes;
                    keys =
                        caught-eq-ok
                          (inventory_key platform
                            (e.company_id ∷ e.source_id ∷ e.observation_id ∷ []))
                          keys;
                    fresh = fresh;
                    room = room;
                    current = current;
                    acted = acted;
                  }

  pub answer-accepted :
      (r : Result InventoryIssue (Bool × InventoryState)) (d : Bool) (s' : InventoryState)
      → answer s r ≡ accepted d s'
      → r ≡ ok (d, s')
  answer-accepted (ok (d', t)) d s' h = cc
  answer-accepted (err i) d s' h = cc

  pub apply-IsFirst :
      (s' : InventoryState) → apply_inventory_event platform s e ≡ accepted false s' → IsFirst s'
  unfolding apply_inventory_event
  apply-IsFirst s' h = decide-IsFirst s' (answer-accepted (decide platform s e) false s' h)

  -- A movement that is accepted for the first time changes the numbers that the state says by
  -- exactly its effect, and the stock covers the reservations before and after.
  pub apply_inventory_event-IsMoved :
      (m : Measure) (v : Movement) (s' : InventoryState)
      → apply_inventory_event platform s e ≡ accepted false s'
      → e.kind ≡ movement m v
      → IsMoved platform s m v s'
  unfolding act
  apply_inventory_event-IsMoved m v s' h kind =
      let f = apply-IsFirst s' h in
      move-IsMoved platform s (recorded f.key f.event_hash) m v s' refl (rw kind at f.acted)

  -- An event that is accepted for the first time names the revision that the state has, and the new
  -- state has the next one.
  pub apply_inventory_event-revision :
      (s' : InventoryState)
      → apply_inventory_event platform s e ≡ accepted false s'
      → (pos_part e.expected_revision ≡ s.revision)
        × (s'.revision ≡ suc s.revision)
        × (s'.revision ≤ max_safe)
  apply_inventory_event-revision s' h =
      let f = apply-IsFirst s' h in
      let frame = act-SameFrame platform s (recorded f.key f.event_hash) e.kind s' f.acted in
      let below = ltb→lt s.revision max_safe f.room in
      ((==_iff _ _).0 f.current, frame.revision, rw frame.revision below)
