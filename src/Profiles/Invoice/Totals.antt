-- ===== src/Profiles/Invoice/Totals.antt =====
-- What a valid report says of the amounts of an invoice.
use direct_trade_protocol.Prelude.{
  ℕ, suc, ◌≡◌, refl, ◌∙◌, Bool, true, false, not, ◌&&◌, Option, some, List, [], ◌∷◌, ◌++◌, map, any,
  Text, codes, Option-cases, inl, inr, arith, if◌then◌else◌,
}
use direct_trade_protocol.Prelude.Int.{ℤ, pos, ◌+ℤ◌, ◌-ℤ◌, ltb_ℤ}
use direct_trade_protocol.Canonical.{Json, obj, Items, nil, item, Members}
use direct_trade_protocol.Store.Transitions.{get}
use direct_trade_protocol.Profiles.Issues.{at, dot}
use direct_trade_protocol.Profiles.Shapes.{array}
use direct_trade_protocol.Profiles.Invoice.{
  Fault, amount, same_amount, equal, read_lines, check_total, check_payment, currency_of,
  check_amounts, deduction_amount, sum_deductions, read_deductions, invalid_payment_state,
  arithmetic_mismatch,
}
use direct_trade_protocol.Profiles.Invoice.Report.{
  InvoiceIssue, Observation, as_error, is_error, check_dates, references, check_references,
  invoice_issues, validate_invoice,
}
use direct_trade_protocol.Profiles.Invoice.Lines.{
  no_faults, fault_if-none, IsMoney, amount-IsMoney, equal-same, AreLines, and_true,
  sum_lines-AreLines,
}

-- Without an error, the issues made from faults are none.
no_errors : (fs : List Fault) → any is_error (map as_error fs) ≡ false → fs ≡ []
no_errors [] h = refl
no_errors (f ∷ fs) h = absurd (cc h)

any-append :
    (p : InvoiceIssue → Bool) (xs ys : List InvoiceIssue)
    → any p (xs ++ ys) ≡ false
    → (any p xs ≡ false) × (any p ys ≡ false)
any-append p [] ys h = (refl, h)
any-append p (x ∷ xs) ys h = ground (arith, h, any-append p xs ys)

was_false : (b : Bool) → not b ≡ true → b ≡ false
was_false b h = ground arith

-- The deductions' amounts, added to `sum`, make `total`.
pub data AreDeductions (currency : Json) : ℤ → Items → ℤ → Type 0 where
  no_deduction : {sum : ℤ} → AreDeductions currency sum nil sum
  one_deduction :
      {sum total : ℤ} {v : Json} {vs : Items} (value : ℤ)
      → IsMoney currency (deduction_amount v) value
      → AreDeductions currency (sum +ℤ value) vs total
      → AreDeductions currency sum (item v vs) total

sum_deductions-AreDeductions :
    (currency : Json) (i : ℕ) (vs : Items) (sum : ℤ) (valid : Bool)
    → (sum_deductions currency i vs sum valid).faults ≡ []
    → AreDeductions currency sum vs (sum_deductions currency i vs sum valid).sum
      × ((sum_deductions currency i vs sum valid).valid ≡ valid)
unfolding sum_deductions
sum_deductions-AreDeductions currency i nil sum valid h = (no_deduction, refl)
sum_deductions-AreDeductions currency i (item v vs) sum valid h =
    let (h_value, h_rest) = no_faults _ _ h in
    let (value, is, good) =
      amount-IsMoney currency (deduction_amount v) (dot (at (codes "deductions") i) "amount")
        h_value in
    let rest = rw is at h_rest in
    let (later, still) =
      sum_deductions-AreDeductions currency (suc i) vs (sum +ℤ value) (valid && true) rest in
    rw is (one_deduction value good later, still ∙ and_true valid)

-- The lines of an invoice and their sum, from 0; and the same of its deductions.
pub record IsSum (Adds : ℤ → Items → ℤ → Type 0) (least : ℕ) (v : Json) (total : ℤ) : Type 0 where
  pub items : Items
  pub array : array least 1000 v ≡ some items
  pub adds : Adds (pos 0) items total

read_lines-IsSum :
    (currency v : Json)
    → (read_lines currency v).faults ≡ []
    → IsSum (AreLines currency) 1 v (read_lines currency v).sum
      × ((read_lines currency v).valid ≡ true)
unfolding read_lines
read_lines-IsSum currency v h = elim (Option-cases (array 1 1000 v)) [
  | inl missing ↦ let fault = rw (missing, read_lines) at h in absurd (cc fault)
  | inr (vs, present) ↦
      let shown = rw (present, read_lines) at h in
      let (lines, valid) = sum_lines-AreLines currency 0 vs (pos 0) true shown in
      rw (present, read_lines) (record { items = vs; array = present; adds = lines }, valid)
]

read_deductions-IsSum :
    (currency v : Json)
    → (read_deductions currency v).faults ≡ []
    → IsSum (AreDeductions currency) 0 v (read_deductions currency v).sum
      × ((read_deductions currency v).valid ≡ true)
unfolding read_deductions
read_deductions-IsSum currency v h = elim (Option-cases (array 0 1000 v)) [
  | inl missing ↦ let fault = rw (missing, read_deductions) at h in absurd (cc fault)
  | inr (vs, present) ↦
      let shown = rw (present, read_deductions) at h in
      let (values, valid) = sum_deductions-AreDeductions currency 0 vs (pos 0) true shown in
      rw (present, read_deductions) (record { items = vs; array = present; adds = values }, valid)
]

-- The amounts of an invoice fit together.
pub record IsConsistent (b : Members) : Type 0 where
  pub subtotal : ℤ
  pub total : ℤ
  pub paid : ℤ
  pub lines : ℤ
  pub deductions : ℤ
  pub subtotal_read : IsMoney (currency_of b) (get b (codes "subtotal")) subtotal
  pub total_read : IsMoney (currency_of b) (get b (codes "total")) total
  pub paid_read : IsMoney (currency_of b) (get b (codes "paid_amount")) paid
  pub lines_read : IsSum (AreLines (currency_of b)) 1 (get b (codes "line_items")) lines
  pub deductions_read :
      IsSum (AreDeductions (currency_of b)) 0 (get b (codes "deductions")) deductions
  pub subtotal_is : same_amount subtotal lines ≡ true
  pub covered : ltb_ℤ subtotal deductions ≡ false
  pub total_is : same_amount total (subtotal -ℤ deductions) ≡ true
  pub paid_within : ltb_ℤ total paid ≡ false

check_amounts-IsConsistent : (b : Members) → check_amounts b ≡ [] → IsConsistent b
unfolding check_amounts check_total check_payment
check_amounts-IsConsistent b h =
    let currency = currency_of b in
    let read_subtotal = amount currency (get b (codes "subtotal")) (codes "subtotal") in
    let read_total = amount currency (get b (codes "total")) (codes "total") in
    let read_paid = amount currency (get b (codes "paid_amount")) (codes "paid_amount") in
    let rows = read_lines currency (get b (codes "line_items")) in
    let takes = read_deductions currency (get b (codes "deductions")) in
    let (h1, h_payment) =
      no_faults _ (check_payment (get b (codes "status")) read_paid.0 read_total.0) h in
    let (h2, h_total) = no_faults _ (check_total read_subtotal.0 read_total.0 takes) h1 in
    let (h3, h_takes) = no_faults _ takes.faults h2 in
    let (h4, h_lines) =
      no_faults _
        (if rows.valid then equal read_subtotal.0 rows.sum (codes "subtotal.amount") else []) h3 in
    let (h5, h_rows) = no_faults _ rows.faults h4 in
    let (h6, h_paid) = no_faults _ read_paid.1 h5 in
    let (h7, h_all) = no_faults _ read_total.1 h6 in
    let (_, h_subtotal) = no_faults _ read_subtotal.1 h7 in
    let (subtotal, subtotal_is, subtotal_read) =
      amount-IsMoney currency (get b (codes "subtotal")) (codes "subtotal") h_subtotal in
    let (total, total_is, total_read) =
      amount-IsMoney currency (get b (codes "total")) (codes "total") h_all in
    let (paid, paid_is, paid_read) =
      amount-IsMoney currency (get b (codes "paid_amount")) (codes "paid_amount") h_paid in
    let (lines_read, lines_valid) = read_lines-IsSum currency (get b (codes "line_items")) h_rows in
    let (takes_read, takes_valid) =
      read_deductions-IsSum currency (get b (codes "deductions")) h_takes in
    let at_lines = rw (lines_valid, subtotal_is) at h_lines in
    let at_total = rw (subtotal_is, total_is, takes_valid) at h_total in
    let (at_covered, at_equal) =
      no_faults _ (equal (some total) (subtotal -ℤ takes.sum) (codes "total.amount")) at_total in
    let at_payment = rw (paid_is, total_is) at h_payment in
    let (h8, _) = no_faults _ _ at_payment in
    let (at_paid, _) = no_faults _ _ h8 in
    record {
      subtotal = subtotal;
      total = total;
      paid = paid;
      lines = rows.sum;
      deductions = takes.sum;
      subtotal_read = subtotal_read;
      total_read = total_read;
      paid_read = paid_read;
      lines_read = lines_read;
      deductions_read = takes_read;
      subtotal_is = equal-same subtotal rows.sum (codes "subtotal.amount") at_lines;
      covered =
          fault_if-none (ltb_ℤ subtotal takes.sum) arithmetic_mismatch (codes "deductions")
            at_covered;
      total_is = equal-same total (subtotal -ℤ takes.sum) (codes "total.amount") at_equal;
      paid_within =
          fault_if-none (ltb_ℤ total paid) invalid_payment_state (codes "paid_amount") at_paid;
    }

-- A body with a valid report has a subtotal, a total and a paid amount in its currency; each of its
-- lines has the rounded product of its quantity and its price as its amount; the subtotal is the
-- sum of the lines, the total is the subtotal less the deductions, which do not exceed it, and
-- no more than the total is paid.
pub validate_invoice-IsConsistent :
    (resolve : Text → Text → Option Observation) (b : Members)
    → (validate_invoice resolve (obj b)).valid ≡ true
    → IsConsistent b
unfolding validate_invoice invoice_issues
validate_invoice-IsConsistent resolve b h =
    let amounts = map as_error (check_amounts b) in
    let dates = map as_error (check_dates b) in
    let (found, wrong) = references b in
    let none_wrong = was_false _ h in
    let (h1, _) =
      any-append is_error (amounts ++ dates ++ map as_error wrong)
        (check_references resolve b found) none_wrong in
    let (h2, _) = any-append is_error (amounts ++ dates) (map as_error wrong) h1 in
    let (h3, _) = any-append is_error amounts dates h2 in
    check_amounts-IsConsistent b (no_errors (check_amounts b) h3)
