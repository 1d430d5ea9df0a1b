-- ===== src/Profiles/Invoice/Lines.antt =====
-- What a line of an invoice without a fault says, and the sum of such lines.
use direct_trade_protocol.Prelude.{
  ℕ, suc, ◌≡◌, refl, ◌∙◌, Bool, true, false, not, ◌&&◌, some, List, [], ◌∷◌, ◌++◌, Text, codes,
  Result, ok, err, Option-cases, ◌⊎◌, inl, inr, arith,
}
use direct_trade_protocol.Prelude.Int.{ℤ, ◌+ℤ◌}
use direct_trade_protocol.Decimal.{DecimalError, format_decimal}
use direct_trade_protocol.Canonical.{Json, Items, nil, item, Members}
use direct_trade_protocol.Store.Transitions.{get, same_value}
use direct_trade_protocol.Profiles.Issues.{at, dot}
use direct_trade_protocol.Profiles.Shapes.{one_of}
use direct_trade_protocol.Profiles.Units.{parse_amount}
use direct_trade_protocol.Profiles.Invoice.{
  Fault, fault_if, object_members, parsed, amount, same_amount, equal, line_total, line_result,
  line_parts, read_line, sum_lines, units, unsupported_unit, IssueCode, arithmetic_mismatch,
  invalid_decimal, differs,
}

-- A list of faults is empty when its parts are.
pub no_faults : (xs ys : List Fault) → xs ++ ys ≡ [] → (xs ≡ []) × (ys ≡ [])
no_faults [] ys h = (refl, h)
no_faults (x ∷ xs) ys h = absurd (cc h)

pub fault_if-none :
    (b : Bool) (code : IssueCode) (path : Text) → fault_if b code path ≡ [] → b ≡ false
fault_if-none false code path h = refl
fault_if-none true code path h = absurd (cc h)

pub Result-cases :
    {E A : Type 0} (r : Result E A) → ((a : A) × (r ≡ ok a)) ⊎ ((e : E) × (r ≡ err e))
Result-cases (ok a) = inl (a, refl)
Result-cases (err e) = inr (e, refl)

-- The value is an amount of money in the currency.
pub record IsMoney (currency v : Json) (n : ℤ) : Type 0 where
  pub members : Members
  pub object : object_members v ≡ some members
  pub same : same_value (get members (codes "currency")) currency ≡ true
  pub amount : parse_amount (get members (codes "amount")) 6 ≡ ok n

pub was_true : (b : Bool) → not b ≡ false → b ≡ true
was_true b h = ground arith

pub parsed-ok :
    (r : Result DecimalError ℤ) (path : Text)
    → (parsed r path).1 ≡ []
    → (n : ℤ) × (r ≡ ok n) × ((parsed r path).0 ≡ some n)
parsed-ok (ok n) path h = (n, refl, refl)
parsed-ok (err e) path h = absurd (cc h)

pub amount-IsMoney :
    (currency v : Json) (path : Text)
    → (amount currency v path).1 ≡ []
    → (n : ℤ) × ((amount currency v path).0 ≡ some n) × IsMoney currency v n
unfolding amount
amount-IsMoney currency v path h = elim (Option-cases (object_members v)) [
  | inl missing ↦ let fault = rw (missing, amount) at h in absurd (cc fault)
  | inr (m, present) ↦
      let shown = rw (present, amount) at h in
      let (right, read) = no_faults _ _ shown in
      let (n, parses, value) = parsed-ok (parse_amount (get m (codes "amount")) 6) _ read in
      (
        n,
        rw (present, amount) value,
        record {
          members = m;
          object = present;
          same = was_true _ (fault_if-none _ _ _ right);
          amount = parses;
        },
      )
]

pub equal_of :
    (r : Result DecimalError Text) (actual expected : ℤ) (path : Text)
    → elim r as (λ _. List Fault) [
      | err e ↦ (invalid_decimal, path) ∷ []
      | ok normalized ↦ fault_if (differs (some actual) expected) arithmetic_mismatch path
    ]
      ≡ []
    → same_amount actual expected ≡ true
equal_of (ok t) actual expected path h = was_true _ (fault_if-none _ _ _ h)
equal_of (err e) actual expected path h = absurd (cc h)

pub equal-same :
    (actual expected : ℤ) (path : Text)
    → equal (some actual) expected path ≡ []
    → same_amount actual expected ≡ true
unfolding equal
equal-same actual expected path h = equal_of (format_decimal expected 6) actual expected path h

-- The line has a quantity and a price, and its amount is their product, rounded.
pub record IsLine (currency v : Json) (value : ℤ) : Type 0 where
  pub line : Members
  pub quantity_members : Members
  pub parts : line_parts v ≡ some (line, quantity_members)
  pub quantity : ℤ
  pub quantity_read : parse_amount (get quantity_members (codes "amount")) 3 ≡ ok quantity
  pub price : ℤ
  pub price_read : IsMoney currency (get line (codes "unit_price")) price
  pub amount_read : IsMoney currency (get line (codes "amount")) value
  pub product : ℤ
  pub multiplied : line_total quantity price ≡ ok product
  pub exact : same_amount value product ≡ true

-- The lines' values, added to `sum`, make `total`.
pub data AreLines (currency : Json) : ℤ → Items → ℤ → Type 0 where
  no_line : {sum : ℤ} → AreLines currency sum nil sum
  one_line :
      {sum total : ℤ} {v : Json} {vs : Items} (value : ℤ)
      → IsLine currency v value
      → AreLines currency (sum +ℤ value) vs total
      → AreLines currency sum (item v vs) total

pub line_result-some :
    (quantity price value : ℤ) (path : Text)
    → (line_result (some quantity) (some price) (some value) path).1 ≡ []
    → (product : ℤ) × (line_total quantity price ≡ ok product)
      × (same_amount value product ≡ true)
      × ((line_result (some quantity) (some price) (some value) path).0 ≡ some value)
unfolding line_result
line_result-some quantity price value path h = elim (Result-cases (line_total quantity price)) [
  | inr (e, thrown) ↦ let fault = rw (thrown, line_result) at h in absurd (cc fault)
  | inl (product, made) ↦
      let shown = rw (made, line_result) at h in
      (product, made, equal-same value product path shown, rw (made, line_result) refl)
]

pub read_line-IsLine :
    (currency v : Json) (path : Text)
    → (read_line currency v path).1 ≡ []
    → (value : ℤ) × ((read_line currency v path).0 ≡ some value) × IsLine currency v value
unfolding read_line
read_line-IsLine currency v path h = elim (Option-cases (line_parts v)) [
  | inl missing ↦ let fault = rw (missing, read_line) at h in absurd (cc fault)
  | inr ((l, q), present) ↦
      let h0 = rw (present, read_line) at h in
      let (h1, h_result) =
        no_faults _
          (line_result
            (parsed (parse_amount (get q (codes "amount")) 3) (dot path "quantity.amount")).0
            (amount currency (get l (codes "unit_price")) (dot path "unit_price")).0
            (amount currency (get l (codes "amount")) (dot path "amount")).0 (dot path "amount")).1
          h0 in
      let (h2, h_value) =
        no_faults _ (amount currency (get l (codes "amount")) (dot path "amount")).1 h1 in
      let (h3, h_price) =
        no_faults _ (amount currency (get l (codes "unit_price")) (dot path "unit_price")).1 h2 in
      let (_, h_quantity) =
        no_faults
          (fault_if (not (one_of units (get q (codes "unit")))) unsupported_unit
            (dot path "quantity.unit"))
          (parsed (parse_amount (get q (codes "amount")) 3) (dot path "quantity.amount")).1 h3 in
      let (quantity, quantity_read, quantity_is) =
        parsed-ok (parse_amount (get q (codes "amount")) 3) (dot path "quantity.amount")
          h_quantity in
      let (price, price_is, price_read) =
        amount-IsMoney currency (get l (codes "unit_price")) (dot path "unit_price") h_price in
      let (value, value_is, amount_read) =
        amount-IsMoney currency (get l (codes "amount")) (dot path "amount") h_value in
      let at_result = rw (quantity_is, price_is, value_is) at h_result in
      let (product, multiplied, exact, result) =
        line_result-some quantity price value (dot path "amount") at_result in
      (
        value,
        rw (present, read_line, quantity_is, price_is, value_is) result,
        record {
          line = l;
          quantity_members = q;
          parts = present;
          quantity = quantity;
          quantity_read = quantity_read;
          price = price;
          price_read = price_read;
          amount_read = amount_read;
          product = product;
          multiplied = multiplied;
          exact = exact;
        },
      )
]

pub and_true : (b : Bool) → (b && true) ≡ b
and_true b = ground arith

pub sum_lines-AreLines :
    (currency : Json) (i : ℕ) (vs : Items) (sum : ℤ) (valid : Bool)
    → (sum_lines currency i vs sum valid).faults ≡ []
    → AreLines currency sum vs (sum_lines currency i vs sum valid).sum
      × ((sum_lines currency i vs sum valid).valid ≡ valid)
unfolding sum_lines
sum_lines-AreLines currency i nil sum valid h = (no_line, refl)
sum_lines-AreLines currency i (item v vs) sum valid h =
    let (h_line, h_rest) = no_faults _ _ h in
    let (value, is, good) = read_line-IsLine currency v (at (codes "line_items") i) h_line in
    let rest = rw is at h_rest in
    let (lines, still) =
      sum_lines-AreLines currency (suc i) vs (sum +ℤ value) (valid && true) rest in
    rw is (one_line value good lines, still ∙ and_true valid)
