-- ===== src/Inventory/Frame.antt =====
-- What the actions of the reducer leave as it was.
use direct_trade_protocol.Prelude.{
  ◌≡◌, refl, false, [], ◌∷◌, arith, ltb, ok, demand, refuse, >>=-elim, ok-injective, includes,
}
use direct_trade_protocol.Prelude.Int.{ℤ, pos, pos_part, is_zero, ltb_ℤ}
use direct_trade_protocol.Prelude.Assoc.{lookup, values}
use direct_trade_protocol.Decimal.{parse_decimal, format_decimal}
use direct_trade_protocol.Inventory.{
  InventoryState, Measure, Movement, receive, adjust, reserve, release, fulfill, PackagingRevision,
  EventKind, packaging, movement, invalid, wrong_scope, unit_mismatch, units, Platform, caught,
  inventory_key,
}
use direct_trade_protocol.Inventory.Reducer.{
  reason_ok, is_adjust, sum_values, base_quantity, settle, move, pack_well_formed, pack_in_scope,
  pack_unit_ok, same_revision, register, act,
}

-- `t` has the pool, the revision and the observations of `s`.
pub record SameFrame (s t : InventoryState) : Type 0 where
  pub company : t.company_id ≡ s.company_id
  pub pool : t.pool_id ≡ s.pool_id
  pub revision : t.revision ≡ s.revision
  pub observations : t.observations ≡ s.observations

module _ (platform : Platform) (s next : InventoryState) where
  settle-SameFrame :
      (v : Movement) (q h r : ℤ) (s' : InventoryState)
      → settle platform s next v q h r ≡ ok s'
      → SameFrame next s'
  unfolding settle
  settle-SameFrame (receive x) q h r s' e = ground arith
  settle-SameFrame (adjust x) q h r s' e = ground arith
  settle-SameFrame (reserve id) q h r s' e = ground arith
  settle-SameFrame (release id) q h r s' e = ground arith
  settle-SameFrame (fulfill id) q h r s' e = ground arith

  move-SameFrame :
      (m : Measure) (v : Movement) (s' : InventoryState)
      → move platform s next m v ≡ ok s'
      → SameFrame next s'
  unfolding move
  move-SameFrame m v s' h = >>=-elim (demand (reason_ok v) invalid) _ h λ _ _ h1.
      >>=-elim (caught (parse_decimal m.quantity 3 (is_adjust v))) _ h1 λ stated read h2.
        >>=-elim (refuse (is_zero stated) invalid) _ h2 λ _ nonzero h3.
          >>=-elim (demand (includes units m.unit) unit_mismatch) _ h3 λ _ _ h4.
            >>=-elim (base_quantity platform s m stated) _ h4 λ q converted h5.
              >>=-elim (caught (format_decimal q 3)) _ h5 λ _ _ h6.
                >>=-elim (caught (parse_decimal s.on_hand 3 false)) _ h6 λ on_hand have h7.
                  >>=-elim (caught (sum_values (pos 0) (values s.reservations))) _ h7
                    λ reserved total h8.
                      >>=-elim (refuse (ltb_ℤ on_hand reserved) invalid) _ h8
                        λ _ sound h9. settle-SameFrame v q on_hand reserved s' h9

  -- Registering a packaging revision changes the packaging alone.
  pub register-packaging :
      (pack : PackagingRevision) (s' : InventoryState)
      → register platform s next pack ≡ ok s'
      → SameFrame next s' × (s'.on_hand ≡ next.on_hand) × (s'.reservations ≡ next.reservations)
  unfolding register
  register-packaging pack s' h = >>=-elim (demand (pack_well_formed pack) invalid) _ h λ _ _ h1.
      >>=-elim (demand (pack_in_scope pack s) wrong_scope) _ h1 λ _ _ h2.
        >>=-elim (demand (pack_unit_ok pack) unit_mismatch) _ h2 λ _ _ h3.
          >>=-elim (caught (parse_decimal pack.base_units_per_pack 3 false)) _ h3 λ factor _ h4.
            >>=-elim (demand (ltb 0 (pos_part factor)) invalid) _ h4 λ _ _ h5.
              >>=-elim (caught (inventory_key platform (pack.packaging_id ∷ pack.version ∷ []))) _
                h5
                λ key _ h6.
                  >>=-elim (same_revision platform (lookup key next.packaging) pack) _ h6 λ _ _ h7.
                    rw (← ok-injective h7) (
                      record { company = refl; pool = refl; revision = refl; observations = refl },
                      refl,
                      refl,
                    )

  pub act-SameFrame :
      (k : EventKind) (s' : InventoryState) → act platform s next k ≡ ok s' → SameFrame next s'
  unfolding act
  act-SameFrame (packaging pack) s' h = (register-packaging pack s' h).0
  act-SameFrame (movement m v) s' h = move-SameFrame m v s' h
