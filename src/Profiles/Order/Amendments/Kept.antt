-- ===== src/Profiles/Order/Amendments/Kept.antt =====
-- What every chain of accepted amendments of an order keeps.
use mathlib.Core.List.{Memᴰ}
use mathlib.Core.List.Memᴰ.{head, tail}
use direct_trade_protocol.Prelude.{
  ℕ, suc, ◌≡◌, refl, sym, ap, ◌∙◌, true, false, List, [], ◌∷◌, Text, String, ===_iff, ok,
  ok-injective, arith, ◌≤◌, includes, >>=-elim, inl, inr, ◌⊎◌,
}
use direct_trade_protocol.Canonical.{Json}
use direct_trade_protocol.Profiles.Issues.{pass, fail_unless-pass, &_elim, canonical}
use direct_trade_protocol.Profiles.Identifiers.{Identifier, key_of, keys}
use direct_trade_protocol.Profiles.Identifiers.Kept.{HasKey, keys-HasKey}
use direct_trade_protocol.Profiles.Order.Amendments.{
  OrderStatus, placed, acknowledged, rejected, partially_fulfilled, fulfilled, cancelled, closed,
  OrderBody, order_transition, is_placed, check_same, check_frozen, check_kept,
  check_order_continuity,
}

pub check_same-pass :
    (v w : Json) (path : Text) (m : String)
    → check_same v w path m ≡ pass
    → canonical v ≡ canonical w
unfolding check_same
check_same-pass v w path m h = >>=-elim (canonical v) _ h λ a read h1.
    >>=-elim (canonical w) _ h1
      λ b written h2. read ∙ ap ok ((===_iff a b).0 (fail_unless-pass _ _ _ h2)) ∙ sym written

check_kept-includes :
    (kept : List Text) (i : ℕ) (ids : List Identifier) (id : Identifier) (key : Text)
    → check_kept kept i ids ≡ pass
    → Memᴰ id ids
    → key_of id ≡ ok key
    → includes kept key ≡ true
unfolding check_kept
check_kept-includes kept i [] id key h m made = elim m [ ]
check_kept-includes kept i (e ∷ es) id key h m made = &_elim _ _ h λ first rest. elim m [
  | head same ↦ >>=-elim (key_of e) _ first λ k read h1.
      let one = ok-injective (sym read ∙ ap key_of (sym same) ∙ made) in
      ap (includes kept) (sym one) ∙ fail_unless-pass _ _ _ h1
  | tail n ↦ check_kept-includes kept (suc i) es id key rest n made
]

-- How far an order has come: acknowledged or later, ended or not.
abbrev pub stage : OrderStatus → ℕ
stage placed = 0
stage acknowledged = 1
stage partially_fulfilled = 2
stage fulfilled = 3
stage closed = 4
stage rejected = 4
stage cancelled = 4

-- Orders that accepted amendments lead to, one after the other.
pub data Amended : OrderBody → OrderBody → Type 0 where
  unamended : {a : OrderBody} → Amended a a
  amended : {a b c : OrderBody} → Amended a b → check_order_continuity b c ≡ pass → Amended a c

-- What an order keeps of an earlier version.
pub record Kept (old new : OrderBody) : Type 0 where
  pub buyer : canonical old.buyer ≡ canonical new.buyer
  pub seller : canonical old.seller ≡ canonical new.seller
  pub placed_at : canonical old.placed_at ≡ canonical new.placed_at
  pub currency : canonical old.currency ≡ canonical new.currency
  pub replaces : canonical old.replaces ≡ canonical new.replaces
  pub stage : stage old.status ≤ stage new.status
  pub frozen :
      (old.status ≡ placed)
      ⊎ ((canonical old.lines ≡ canonical new.lines) × (canonical old.terms ≡ canonical new.terms))

transition_forward : (s t : OrderStatus) → order_transition s t ≡ true → stage s ≤ stage t
unfolding order_transition
transition_forward s t h = ground arith

is_placed-cases : (s : OrderStatus) → (s ≡ placed) ⊎ (is_placed s ≡ false)
is_placed-cases placed = inl refl
is_placed-cases acknowledged = inr refl
is_placed-cases rejected = inr refl
is_placed-cases partially_fulfilled = inr refl
is_placed-cases fulfilled = inr refl
is_placed-cases cancelled = inr refl
is_placed-cases closed = inr refl

check_frozen-Frozen :
    (old new : OrderBody)
    → check_frozen old new ≡ pass
    → (old.status ≡ placed)
      ⊎ ((canonical old.lines ≡ canonical new.lines) × (canonical old.terms ≡ canonical new.terms))
unfolding check_frozen
check_frozen-Frozen old new h = elim (is_placed-cases old.status) [
  | inl early ↦ inl early
  | inr late ↦
      let checked = rw late at h in
      &_elim _ _ checked
        λ lines terms. inr (check_same-pass _ _ _ _ lines, check_same-pass _ _ _ _ terms)
]

continuity-Kept : (old new : OrderBody) → check_order_continuity old new ≡ pass → Kept old new
unfolding check_order_continuity
continuity-Kept old new h = &_elim _ _ h λ buyer h1. &_elim _ _ h1 λ seller h2.
    &_elim _ _ h2 λ placed_at h3. &_elim _ _ h3 λ currency h4. &_elim _ _ h4 λ replaces h5.
      &_elim _ _ h5 λ status h6. &_elim _ _ h6 λ frozen _. record {
        buyer = check_same-pass _ _ _ _ buyer;
        seller = check_same-pass _ _ _ _ seller;
        placed_at = check_same-pass _ _ _ _ placed_at;
        currency = check_same-pass _ _ _ _ currency;
        replaces = check_same-pass _ _ _ _ replaces;
        stage = transition_forward old.status new.status (ground (arith, status));
        frozen = check_frozen-Frozen old new frozen;
      }

stage-placed : (s : OrderStatus) → stage s ≤ 0 → s ≡ placed
stage-placed s h = ground arith

over_both : (a b c : OrderBody) → Kept a b → Kept b c → Kept a c
over_both a b c first last = record {
  buyer = first.buyer ∙ last.buyer;
  seller = first.seller ∙ last.seller;
  placed_at = first.placed_at ∙ last.placed_at;
  currency = first.currency ∙ last.currency;
  replaces = first.replaces ∙ last.replaces;
  stage = omega (arith, first.stage, last.stage);
  frozen = elim first.frozen [
    | inl early ↦ inl early
    | inr same ↦ elim last.frozen [
      | inl still ↦ let none_yet = rw still at first.stage in inl (stage-placed a.status none_yet)
      | inr later ↦ inr (same.0 ∙ later.0, same.1 ∙ later.1)
    ]
  ];
}

-- Along every chain of amendments in which the continuity check finds no issue, the canonical
-- texts of the buyer, the seller, the placing time, the currency and the replaced order stay as
-- they were, the order never comes to an earlier stage, and unless it started as placed the
-- canonical texts of its lines and terms stay too.
pub Amended-Kept : {a b : OrderBody} → Amended a b → Kept a b
Amended-Kept (unamended {a}) = record {
  buyer = refl;
  seller = refl;
  placed_at = refl;
  currency = refl;
  replaces = refl;
  stage = omega arith;
  frozen = inr (refl, refl);
}
Amended-Kept (amended {a} {b} {c} chain h) =
    over_both a b c (Amended-Kept chain) (continuity-Kept b c h)

continuity-HasKey :
    (old new : OrderBody) (key : Text)
    → check_order_continuity old new ≡ pass
    → HasKey key old.external
    → HasKey key new.external
unfolding check_order_continuity
continuity-HasKey old new key h (id, place, made) = &_elim _ _ h λ _ h1. &_elim _ _ h1 λ _ h2.
    &_elim _ _ h2 λ _ h3. &_elim _ _ h3 λ _ h4. &_elim _ _ h4 λ _ h5. &_elim _ _ h5 λ _ h6.
      &_elim _ _ h6 λ _ h7. >>=-elim (keys new.external) _ h7 λ kept read h8.
        keys-HasKey new.external kept key read
          (check_kept-includes kept 0 old.external id key h8 place made)

-- Along every chain of amendments in which the continuity check finds no issue, an external
-- identifier that an order has had is there in every later version, by its canonical text.
pub Amended-HasKey :
    {a b : OrderBody} (key : Text) → Amended a b → HasKey key a.external → HasKey key b.external
Amended-HasKey key (unamended {a}) has = has
Amended-HasKey key (amended {a} {b} {c} chain h) has =
    continuity-HasKey b c key h (Amended-HasKey key chain has)
