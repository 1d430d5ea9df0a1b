-- ===== src/Inventory/Stock.antt =====
-- What an accepted movement does to the stock, read as numbers.
use direct_trade_protocol.Prelude.{
  ℕ, ◌+◌, ◌-◌, ◌*◌, ◌/◌, ◌%◌, ◌≤◌, ◌≡◌, refl, sym, ap, ◌∙◌, false, Option, none, some, [], ◌∷◌,
  arith, ◌==◌, is_some, Result, ok, err, ◌>>=◌, ◌>>◌, demand, refuse, >>=-eq-ok, >>=-elim,
  refuse-eq-ok, ok-injective, Text, ◌===◌, includes, inl, inr, Bool-cases,
}
use direct_trade_protocol.Prelude.Int.{
  ℤ, pos, negsuc, abs, is_zero, ltb_ℤ, ◌+ℤ◌, ◌-ℤ◌, ◌*ℤ◌, +ℤ_pos, -ℤ_pos, *ℤ_pos,
}
use direct_trade_protocol.Prelude.Assoc.{Assoc, lookup, values}
use direct_trade_protocol.Decimal.{parse_decimal, format_decimal}
use direct_trade_protocol.Decimal.RoundTrip.{parse_decimal-format_decimal}
use direct_trade_protocol.Inventory.{
  PackagingPin, InventoryState, Measure, Movement, receive, adjust, reserve, release, fulfill,
  invalid, packaging_conflict, unknown_packaging, unit_mismatch, insufficient_stock,
  insufficient_reservation, units, identity, Platform, caught, inventory_key, packaging_digest,
}
use direct_trade_protocol.Inventory.Reducer.{
  present, pin_well_formed, converts, reason_ok, is_adjust, sum_values, held, keep_remainder,
  through_pack, base_quantity, shrink, settle, move,
}
use direct_trade_protocol.Inventory.Sums.{
  parse-pos, held-pos, Sums, sum_values-Sums, Sums-insert, Sums-remove,
}

-- The state's texts say `on_hand` and `reserved`, and the stock covers the reservations.
pub record Holds (s : InventoryState) (on_hand reserved : ℕ) : Type 0 where
  pub stock : parse_decimal s.on_hand 3 false ≡ ok (pos on_hand)
  pub sums : Sums (values s.reservations) reserved
  pub covered : reserved ≤ on_hand

-- The intended effect of each movement on the two numbers.
abbrev pub Effect : Movement → ℤ → (h r h' r' : ℕ) → Type 0
Effect (receive x) q h r h' r' = (pos h' ≡ pos h +ℤ q) × (r' ≡ r)
Effect (adjust x) q h r h' r' = (pos h' ≡ pos h +ℤ q) × (r' ≡ r)
Effect (reserve id) q h r h' r' = (h' ≡ h) × (pos r' ≡ pos r +ℤ q)
Effect (release id) q h r h' r' = (h' ≡ h) × (pos r ≡ pos r' +ℤ q)
Effect (fulfill id) q h r h' r' = (pos h ≡ pos h' +ℤ q) × (pos r ≡ pos r' +ℤ q)

pub caught-eq-ok {ι} :
    {E : Type ι} {A : Type 0} (m : Result E A) {a : A} → caught m ≡ ok a → m ≡ ok a
caught-eq-ok (ok a) h = cc
caught-eq-ok (err e) h = cc

-- A printed amount that is not negative is read back.
pub reads_back :
    (n : ℕ) (t : Text) → format_decimal (pos n) 3 ≡ ok t → parse_decimal t 3 false ≡ ok (pos n)
reads_back n t h = parse_decimal-format_decimal (pos n) 3 false t h refl

-- What passes the test `v < r`, negated.
at_least : (v : ℤ) (r : ℕ) → ltb_ℤ v (pos r) ≡ false → (m : ℕ) × (v ≡ pos m) × (r ≤ m)
at_least (pos n) r h = (n, refl, ground arith)
at_least (negsuc n) r h = absurd (ground arith)

enough : (a b : ℕ) → ltb_ℤ (pos a) (pos b) ≡ false → b ≤ a
enough a b h = ground arith

-- Writing back what remains of a reservation of `c` after `k` of it is taken.
keep_remainder-Sums :
    (key : Text) (m rest : Assoc Text) (c n k : ℕ)
    → Sums (values m) n
    → held (lookup key m) ≡ ok (pos c)
    → k ≤ c
    → keep_remainder key (pos (c - k)) m ≡ ok rest
    → (r : ℕ) × Sums (values rest) r × (n ≡ r + k)
unfolding keep_remainder
keep_remainder-Sums key m rest c n k sums has fits e = elim (Bool-cases (is_zero (pos (c - k)))) [
  | inl gone ↦
      let (r, sums', balance) = Sums-remove key m c n sums has in
      rw (← ok-injective (rw gone at e)) (r, sums', ground arith)
  | inr left ↦
      let (t, printed, e1) = >>=-eq-ok (format_decimal (pos (c - k)) 3) _ (rw left at e) in
      let (r, sums', balance) =
        Sums-insert key t m c (c - k) n sums has (reads_back (c - k) t printed) in
      rw (← ok-injective e1) (r, sums', omega arith)
]

module _ (platform : Platform) where
  through_pack-pos :
      (s : InventoryState) (unit : Text) (pin : Option PackagingPin) (n : ℕ) (q : ℤ)
      → through_pack platform s unit pin (pos n) ≡ ok q
      → (k : ℕ) × (q ≡ pos k)
  unfolding through_pack
  through_pack-pos s unit none n q h = cc
  through_pack-pos s unit (some pin) n q h =
      >>=-elim (demand (pin_well_formed pin) unknown_packaging) _ h λ _ _ h1.
        >>=-elim (caught (inventory_key platform (pin.packaging_id ∷ pin.version ∷ []))) _ h1
          λ key _ h2.
            >>=-elim (present (lookup key s.packaging) unknown_packaging) _ h2 λ pack _ h3.
              >>=-elim (caught (packaging_digest platform pack)) _ h3 λ digest _ h4.
                >>=-elim (demand (pin.digest === digest) packaging_conflict) _ h4 λ _ _ h5.
                  >>=-elim (demand (converts pack unit s.base_unit) unit_mismatch) _ h5 λ _ _ h6.
                    >>=-elim (caught (parse_decimal pack.base_units_per_pack 3 false)) _ h6
                      λ factor f h7.
                        let (k, e) =
                          parse-pos pack.base_units_per_pack factor
                            (caught-eq-ok (parse_decimal pack.base_units_per_pack 3 false) f) in
                        >>=-elim (demand (abs (pos n *ℤ factor) % 1000 == 0) invalid) _ h7 λ _ _ h8.
                          (abs (pos (n * k)) / 1000, sym (ok-injective (rw (e, *ℤ_pos n k) at h8)))

  -- A quantity stated without a sign is one in base units too.
  base_quantity-pos :
      (s : InventoryState) (m : Measure) (n : ℕ) (q : ℤ)
      → base_quantity platform s m (pos n) ≡ ok q
      → (k : ℕ) × (q ≡ pos k)
  unfolding base_quantity
  base_quantity-pos s m n q h = elim (Bool-cases (m.unit === s.base_unit)) [
    | inl base ↦
        let (_, _, h1) =
          >>=-eq-ok (refuse (is_some m.packaging_pin) unit_mismatch) _ (rw base at h) in
        (n, sym (ok-injective h1))
    | inr packed ↦ through_pack-pos s m.unit m.packaging_pin n q (rw packed at h)
  ]

  module _ (s next : InventoryState) (kept : next.reservations ≡ s.reservations) (h r : ℕ)
      (sums : Sums (values s.reservations) r) (covered : r ≤ h) where
    -- The end of `receive` and `adjust`.
    increase :
        (q : ℤ) (s' : InventoryState)
        → (do
          refuse (ltb_ℤ (pos h +ℤ q) (pos r)) insufficient_stock
          t ← caught (format_decimal (pos h +ℤ q) 3)
          ok (record next { on_hand = t }))
          ≡ ok s'
        → (h' : ℕ) × Holds s' h' r × (pos h' ≡ pos h +ℤ q)
    increase q s' e =
        >>=-elim (refuse (ltb_ℤ (pos h +ℤ q) (pos r)) insufficient_stock) _ e λ _ room e1.
          >>=-elim (caught (format_decimal (pos h +ℤ q) 3)) _ e1 λ t printed e2.
            let (m, sum, fits) =
              at_least (pos h +ℤ q) r
                (refuse-eq-ok (ltb_ℤ (pos h +ℤ q) (pos r)) insufficient_stock room) in
            let read =
              reads_back m t (rw sum at (caught-eq-ok (format_decimal (pos h +ℤ q) 3) printed)) in
            rw (← ok-injective e2)
              (m, record { stock = read; sums = rw kept sums; covered = fits }, sym sum)

    -- `release` and `fulfill` up to the new reservations.
    shrink-Sums :
        (id : Text) (k : ℕ) (rest : Assoc Text)
        → shrink platform s next id (pos k) ≡ ok rest
        → (r' : ℕ) × Sums (values rest) r' × (r ≡ r' + k)
    unfolding shrink
    shrink-Sums id k rest e = >>=-elim (demand (identity id) invalid) _ e λ _ _ e1.
        >>=-elim (caught (inventory_key platform (id ∷ []))) _ e1 λ key _ e2.
          >>=-elim (caught (held (lookup key s.reservations))) _ e2 λ v have e3.
            let has = caught-eq-ok (held (lookup key s.reservations)) have in
            let (c, c_eq) = held-pos (lookup key s.reservations) v has in
            >>=-elim (refuse (ltb_ℤ v (pos k)) insufficient_reservation) _ e3 λ _ room e4.
              let fits =
                enough c k
                  (rw c_eq at (refuse-eq-ok (ltb_ℤ v (pos k)) insufficient_reservation room)) in
              let left : keep_remainder key (pos (c - k)) s.reservations ≡ ok rest =
                rw (c_eq, -ℤ_pos c k fits, kept) at
                  (caught-eq-ok (keep_remainder key (v -ℤ pos k) next.reservations) e4) in
              keep_remainder-Sums key s.reservations rest c r k sums (has ∙ ap ok c_eq) fits left

    reserve-Holds :
        (id : Text) (k : ℕ) (s' : InventoryState)
        → settle platform s next (reserve id) (pos k) (pos h) (pos r) ≡ ok s'
        → (h' : ℕ) × (r' : ℕ) × Holds s' h' r' × Effect (reserve id) (pos k) h r h' r'
    unfolding settle
    reserve-Holds id k s' e = >>=-elim (demand (identity id) invalid) _ e λ _ _ e1.
        >>=-elim (caught (inventory_key platform (id ∷ []))) _ e1 λ key _ e2.
          >>=-elim (caught (held (lookup key s.reservations))) _ e2 λ v have e3.
            let has = caught-eq-ok (held (lookup key s.reservations)) have in
            let (c, c_eq) = held-pos (lookup key s.reservations) v has in
            >>=-elim (refuse (ltb_ℤ (pos h -ℤ pos r) (pos k)) insufficient_stock) _ e3 λ _ room e4.
              let fits = enough (h - r) k (
                rw (-ℤ_pos h r covered) at
                  (refuse-eq-ok (ltb_ℤ (pos h -ℤ pos r) (pos k)) insufficient_stock room)) in
              >>=-elim (caught (format_decimal (v +ℤ pos k) 3)) _ e4 λ more grown e5.
                >>=-elim (caught (format_decimal (pos h) 3)) _ e5 λ t printed e6.
                  let grown' : format_decimal (pos (c + k)) 3 ≡ ok more =
                    rw (c_eq, +ℤ_pos c k) at (caught-eq-ok (format_decimal (v +ℤ pos k) 3) grown) in
                  let (r', sums', balance) =
                    Sums-insert key more s.reservations c (c + k) r sums (has ∙ ap ok c_eq)
                      (reads_back (c + k) more grown') in
                  let read = reads_back h t (caught-eq-ok (format_decimal (pos h) 3) printed) in
                  let total : r' ≡ r + k = omega arith in
                  rw (← ok-injective e6, kept)
                    (
                      h,
                      r',
                      record { stock = read; sums = sums'; covered = omega arith },
                      (refl, ap pos total ∙ sym (+ℤ_pos r k)),
                    )

    settle-Holds :
        (v : Movement) (q : ℤ) (s' : InventoryState)
        → (is_adjust v ≡ false → (k : ℕ) × (q ≡ pos k))
        → settle platform s next v q (pos h) (pos r) ≡ ok s'
        → (h' : ℕ) × (r' : ℕ) × Holds s' h' r' × Effect v q h r h' r'
    unfolding settle
    settle-Holds (receive x) q s' nonneg e =
        let (h', holds, sum) = increase q s' e in (h', r, holds, (sum, refl))
    settle-Holds (adjust x) q s' nonneg e =
        let (h', holds, sum) = increase q s' e in (h', r, holds, (sum, refl))
    settle-Holds (reserve id) q s' nonneg e =
        let (k, q_eq) = nonneg refl in rw q_eq (reserve-Holds id k s' (rw q_eq at e))
    settle-Holds (release id) q s' nonneg e =
        let (k, q_eq) = nonneg refl in
        >>=-elim (shrink platform s next id q) _ e λ rest shrunk e1.
          >>=-elim (caught (format_decimal (pos h) 3)) _ e1 λ t printed e2.
            let (r', sums', balance) = shrink-Sums id k rest (rw q_eq at shrunk) in
            let read = reads_back h t (caught-eq-ok (format_decimal (pos h) 3) printed) in
            rw (← ok-injective e2, q_eq)
              (
                h,
                r',
                record { stock = read; sums = sums'; covered = omega arith },
                (refl, ap pos balance ∙ sym (+ℤ_pos r' k)),
              )
    settle-Holds (fulfill id) q s' nonneg e =
        let (k, q_eq) = nonneg refl in
        >>=-elim (shrink platform s next id q) _ e λ rest shrunk e1.
          >>=-elim (caught (format_decimal (pos h -ℤ q) 3)) _ e1 λ t printed e2.
            let (r', sums', balance) = shrink-Sums id k rest (rw q_eq at shrunk) in
            let fits : k ≤ h = omega arith in
            let print : format_decimal (pos (h - k)) 3 ≡ ok t =
              rw (q_eq, -ℤ_pos h k fits) at
                (caught-eq-ok (format_decimal (pos h -ℤ q) 3) printed) in
            let whole : h ≡ h - k + k = omega arith in
            rw (← ok-injective e2, q_eq)
              (
                h - k,
                r',
                record { stock = reads_back (h - k) t print; sums = sums'; covered = omega arith },
                (ap pos whole ∙ sym (+ℤ_pos (h - k) k), ap pos balance ∙ sym (+ℤ_pos r' k)),
              )

  -- What `move` establishes: the stated quantity, the quantity in base units, the numbers before and
  -- after, and that they differ by the movement's effect.
  pub record IsMoved (s : InventoryState) (m : Measure) (v : Movement) (s' : InventoryState)
      : Type 0 where
    pub stated : ℤ
    pub quantity : ℤ
    pub on_hand : ℕ
    pub reserved : ℕ
    pub on_hand_after : ℕ
    pub reserved_after : ℕ
    pub reads : parse_decimal m.quantity 3 (is_adjust v) ≡ ok stated
    pub nonzero : is_zero stated ≡ false
    pub converted : base_quantity platform s m stated ≡ ok quantity
    pub before : Holds s on_hand reserved
    pub after : Holds s' on_hand_after reserved_after
    pub effect : Effect v quantity on_hand reserved on_hand_after reserved_after

  unsigned_quantity :
      (s : InventoryState) (m : Measure) (v : Movement) (stated q : ℤ)
      → parse_decimal m.quantity 3 (is_adjust v) ≡ ok stated
      → base_quantity platform s m stated ≡ ok q
      → is_adjust v ≡ false
      → (k : ℕ) × (q ≡ pos k)
  unsigned_quantity s m v stated q read converted plain =
      let (n, e) = parse-pos m.quantity stated (rw plain at read) in
      base_quantity-pos s m n q (rw e at converted)

  pub move-IsMoved :
      (s next : InventoryState) (m : Measure) (v : Movement) (s' : InventoryState)
      → next.reservations ≡ s.reservations
      → move platform s next m v ≡ ok s'
      → IsMoved s m v s'
  unfolding move
  move-IsMoved s next m v s' kept h = >>=-elim (demand (reason_ok v) invalid) _ h λ _ _ h1.
      >>=-elim (caught (parse_decimal m.quantity 3 (is_adjust v))) _ h1 λ stated read h2.
        >>=-elim (refuse (is_zero stated) invalid) _ h2 λ _ nonzero h3.
          >>=-elim (demand (includes units m.unit) unit_mismatch) _ h3 λ _ _ h4.
            >>=-elim (base_quantity platform s m stated) _ h4 λ q converted h5.
              >>=-elim (caught (format_decimal q 3)) _ h5 λ _ _ h6.
                >>=-elim (caught (parse_decimal s.on_hand 3 false)) _ h6 λ on_hand have h7.
                  >>=-elim (caught (sum_values (pos 0) (values s.reservations))) _ h7
                    λ reserved total h8.
                      >>=-elim (refuse (ltb_ℤ on_hand reserved) invalid) _ h8 λ _ sound h9.
                        let stated_read =
                          caught-eq-ok (parse_decimal m.quantity 3 (is_adjust v)) read in
                        let stock = caught-eq-ok (parse_decimal s.on_hand 3 false) have in
                        let (on, on_eq) = parse-pos s.on_hand on_hand stock in
                        let (r, r_eq, sums) =
                          sum_values-Sums 0 (values s.reservations) reserved
                            (caught-eq-ok (sum_values (pos 0) (values s.reservations)) total) in
                        let r_is : reserved ≡ pos r = r_eq ∙ ap pos (omega arith) in
                        let covered = enough on r (
                          rw (on_eq, r_is) at
                            (refuse-eq-ok (ltb_ℤ on_hand reserved) invalid sound)) in
                        let (on', r', after, effect) =
                          settle-Holds s next kept on r sums covered v q s'
                            (unsigned_quantity s m v stated q stated_read converted)
                            (rw (on_eq, r_is) at h9) in
                        record {
                          stated = stated;
                          quantity = q;
                          on_hand = on;
                          reserved = r;
                          on_hand_after = on';
                          reserved_after = r';
                          reads = stated_read;
                          nonzero = refuse-eq-ok (is_zero stated) invalid nonzero;
                          converted = converted;
                          before = record {
                            stock = stock ∙ ap ok on_eq;
                            sums = sums;
                            covered = covered;
                          };
                          after = after;
                          effect = effect;
                        }
