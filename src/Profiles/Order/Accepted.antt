-- ===== src/Profiles/Order/Accepted.antt =====
-- What validateOrder accepts.
use direct_trade_protocol.Prelude.{
  ℕ, suc, ◌≡◌, refl, sym, ap, ◌∙◌, >>=-elim, true, false, some, List, [], ◌∷◌, Text, codes, ok, err,
  any, Option-cases, Bool-cases, inl, inr, ◌⊎◌,
}
use direct_trade_protocol.Canonical.{Json, Items, nil, item, Members}
use direct_trade_protocol.Store.Transitions.{get, is_null, same_value}
use direct_trade_protocol.Profiles.Issues.{
  ProfileError, pass, &_elim, &_throws, &_throws_first, fail_if-pass, fail_unless-pass,
}
use direct_trade_protocol.Profiles.Shapes.{exact_object, array, text, one_of, matches, is_currency}
use direct_trade_protocol.Profiles.Dates.{is_instant}
use direct_trade_protocol.Profiles.Units.Amounts.{
  IsPositive, check_positive-IsPositive, IsPrice, price_of,
}
use direct_trade_protocol.Profiles.Identifiers.Distinct.{AreDistinct, check_identifiers-AreDistinct}
use direct_trade_protocol.Profiles.Act.{same_test, fail_unless_instant}
use direct_trade_protocol.Profiles.Order.{
  order_statuses, role_self, check_external, check_quantity, check_price_amount, check_price,
  check_line, line_members, check_lines, check_line_list, order_members, check_order,
  validate_order,
}

-- The quantity is positive.
pub record IsQuantity (v : Json) : Type 0 where
  pub members : Members
  pub exact : exact_object v (codes "amount" ∷ codes "unit" ∷ []) ≡ some members
  pub positive : IsPositive (get members (codes "amount"))

-- The price is a decimal amount in the currency of the order.
pub record IsPriceIn (currency v : Json) : Type 0 where
  pub members : Members
  pub exact : exact_object v (codes "amount" ∷ codes "currency" ∷ []) ≡ some members
  pub amount : IsPrice (get members (codes "amount"))
  pub same : same_value (get members (codes "currency")) currency ≡ true

-- A line with a good id, a positive quantity, and no price or one in the currency.
pub record IsLine (currency : Json) (l : Members) : Type 0 where
  pub id : text (get l (codes "line_id")) 80 ≡ true
  pub quantity : IsQuantity (get l (codes "quantity"))
  pub price : (is_null (get l (codes "price")) ≡ true) ⊎ IsPriceIn currency (get l (codes "price"))

-- The items are lines, whose ids are new and distinct.
pub data AreLines (currency : Json) : List Json → Items → Type 0 where
  none_left : {seen : List Json} → AreLines currency seen nil
  one_more :
      {seen : List Json} {v : Json} {vs : Items} (l : Members)
      → line_members v ≡ some l
      → any (same_value (get l (codes "line_id"))) seen ≡ false
      → IsLine currency l
      → AreLines currency (get l (codes "line_id") ∷ seen) vs
      → AreLines currency seen (item v vs)

check_quantity-IsQuantity : (v : Json) (path : Text) → check_quantity v path ≡ pass → IsQuantity v
unfolding check_quantity
check_quantity-IsQuantity v path h =
    elim (Option-cases (exact_object v (codes "amount" ∷ codes "unit" ∷ []))) [
      | inl missing ↦ let refused = rw (missing, check_quantity) at h in absurd (cc refused)
      | inr (q, present) ↦
          let shown = rw (present, check_quantity) at h in
          &_elim _ _ shown λ amount _. record {
            members = q;
            exact = present;
            positive = check_positive-IsPositive _ _ _ _ amount;
          }
    ]

check_price-IsPriceIn :
    (currency v : Json) (path : Text)
    → check_price currency v path ≡ pass
    → (is_null v ≡ true) ⊎ IsPriceIn currency v
unfolding check_price check_price_amount
check_price-IsPriceIn currency v path h = elim (Bool-cases (is_null v)) [
  | inl absent ↦ inl absent
  | inr there ↦
      let checked = rw there at h in
      elim (Option-cases (exact_object v (codes "amount" ∷ codes "currency" ∷ []))) [
        | inl missing ↦ let refused = rw missing at checked in absurd (cc refused)
        | inr (p, present) ↦
            let shown = rw present at checked in
            &_elim _ _ shown λ amount same. inr record {
              members = p;
              exact = present;
              amount = price_of _ _ "six-place decimal required" amount;
              same = fail_unless-pass _ _ _ same;
            }
      ]
]

check_line-IsLine :
    (currency : Json) (seen : List Json) (l : Members) (path : Text)
    → check_line currency seen l path ≡ pass
    → IsLine currency l × (any (same_value (get l (codes "line_id"))) seen ≡ false)
unfolding check_line
check_line-IsLine currency seen l path h = &_elim _ _ h λ id h1. &_elim _ _ h1 λ new h2.
    &_elim _ _ h2 λ _ h3. &_elim _ _ h3 λ quantity h4. &_elim _ _ h4 λ price _. (
      record {
        id = fail_unless-pass _ _ _ id;
        quantity = check_quantity-IsQuantity _ path quantity;
        price = check_price-IsPriceIn currency _ path price;
      },
      fail_if-pass _ _ _ new,
    )

check_lines-AreLines :
    (currency : Json) (seen : List Json) (i : ℕ) (vs : Items)
    → check_lines currency seen i vs ≡ pass
    → AreLines currency seen vs
unfolding check_lines
check_lines-AreLines currency seen i nil h = none_left
check_lines-AreLines currency seen i (item v vs) h = elim (Option-cases (line_members v)) [
  | inl missing ↦
      let refused = rw (missing, check_lines) at h in
      &_elim _ _ refused λ wrong _. absurd (cc wrong)
  | inr (l, present) ↦
      let shown = rw (present, check_lines) at h in
      &_elim _ _ shown λ first rest.
        let (good, new) = check_line-IsLine currency seen l _ first in
        one_more l present new good
          (check_lines-AreLines currency (get l (codes "line_id") ∷ seen) (suc i) vs rest)
]

-- A body whose parties, placing time, currency, external identifiers, lines and status are as the
-- type of an order says.
pub record Accepted (body : Json) : Type 0 where
  pub members : Members
  pub exact : order_members body ≡ some members
  pub one_self :
      same_test (role_self (get members (codes "buyer"))) (role_self (get members (codes "seller")))
      ≡ false
  pub placed_at : is_instant (get members (codes "placed_at")) ≡ ok true
  pub currency : matches is_currency (get members (codes "currency")) ≡ true
  pub external : Items
  pub external_array : array 0 16 (get members (codes "external")) ≡ some external
  pub external_distinct : AreDistinct [] external
  pub lines : Items
  pub lines_array : array 1 256 (get members (codes "lines")) ≡ some lines
  pub lines_good : AreLines (get members (codes "currency")) [] lines
  pub status : one_of order_statuses (get members (codes "status")) ≡ true

check_external-AreDistinct :
    (v : Json)
    → check_external v ≡ pass
    → (ids : Items) × (array 0 16 v ≡ some ids) × AreDistinct [] ids
unfolding check_external
check_external-AreDistinct v h = elim (Option-cases (array 0 16 v)) [
  | inl missing ↦ let refused = rw (missing, check_external) at h in absurd (cc refused)
  | inr (ids, present) ↦
      let shown = rw (present, check_external) at h in
      (ids, present, check_identifiers-AreDistinct _ _ [] _ 0 ids shown)
]

check_line_list-AreLines :
    (currency v : Json)
    → check_line_list currency v ≡ pass
    → (vs : Items) × (array 1 256 v ≡ some vs) × AreLines currency [] vs
unfolding check_line_list
check_line_list-AreLines currency v h = elim (Option-cases (array 1 256 v)) [
  | inl missing ↦ let refused = rw (missing, check_line_list) at h in absurd (cc refused)
  | inr (vs, present) ↦
      let shown = rw (present, check_line_list) at h in
      (vs, present, check_lines-AreLines currency [] 0 vs shown)
]

fail_unless_instant-pass :
    (v : Json) (path : Text) → fail_unless_instant v path ≡ pass → is_instant v ≡ ok true
unfolding fail_unless_instant
fail_unless_instant-pass v path h =
    >>=-elim (is_instant v) _ h λ good read h1. read ∙ ap ok (fail_unless-pass good _ _ h1)

validate_order-members :
    (body : Json) (b : Members) → order_members body ≡ some b → validate_order body ≡ check_order b
unfolding validate_order
validate_order-members body b present = rw (present, validate_order) refl

-- A body in which validateOrder finds no issue has exactly the members of an order; exactly one of
-- its buyer and its seller is the company itself; its placing time is an instant; its external
-- identifiers are well formed, with distinct canonical texts; and its 1 to 256 lines have distinct
-- ids, positive quantities, and prices that are decimals in the currency of the order.
pub validate_order-Accepted : (body : Json) → validate_order body ≡ pass → Accepted body
unfolding check_order validate_order
validate_order-Accepted body h = elim (Option-cases (order_members body)) [
  | inl missing ↦ let refused = rw (missing, validate_order) at h in absurd (cc refused)
  | inr (b, present) ↦
      let h0 = sym (validate_order-members body b present) ∙ h in
      &_elim _ _ h0 λ _ h1. &_elim _ _ h1 λ _ h2. &_elim _ _ h2 λ one_self h3.
        &_elim _ _ h3 λ placed_at h4. &_elim _ _ h4 λ currency h5. &_elim _ _ h5 λ external h6.
          &_elim _ _ h6 λ lines h7. &_elim _ _ h7 λ status _.
            let (ids, ids_array, distinct_ids) = check_external-AreDistinct _ external in
            let (vs, vs_array, good_lines) = check_line_list-AreLines _ _ lines in
            record {
              members = b;
              exact = present;
              one_self = fail_if-pass _ _ _ one_self;
              placed_at = fail_unless_instant-pass _ _ placed_at;
              currency = fail_unless-pass _ _ _ currency;
              external = ids;
              external_array = ids_array;
              external_distinct = distinct_ids;
              lines = vs;
              lines_array = vs_array;
              lines_good = good_lines;
              status = fail_unless-pass _ _ _ status;
            }
]

-- A body with the members of an order, whose placing time is a text that isInstant throws on, makes
-- validateOrder throw, whatever its other members are.
pub validate_order-throws :
    (body : Json) (b : Members) (e : ProfileError)
    → order_members body ≡ some b
    → is_instant (get b (codes "placed_at")) ≡ err e
    → (thrown : ProfileError) × (validate_order body ≡ err thrown)
unfolding check_order fail_unless_instant
validate_order-throws body b e present h =
    let here : fail_unless_instant (get b (codes "placed_at")) (codes "$.placed_at") ≡ err e =
      rw h refl in
    let now = &_throws_first _ _ e here in
    let (e2, after_parties) = &_throws _ _ e now in
    let (e1, after_seller) = &_throws _ _ e2 after_parties in
    let (e0, after_buyer) = &_throws _ _ e1 after_seller in
    (e0, validate_order-members body b present ∙ after_buyer)
