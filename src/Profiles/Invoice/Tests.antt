-- ===== src/Profiles/Invoice/Tests.antt =====
-- An invoice of one line with a deduction, partly paid, and one whose total is off.
use direct_trade_protocol.Prelude.{◌≡◌, refl, true, Option, none, [], ◌∷◌, Text, codes}
use direct_trade_protocol.Prelude.Int.{◌+ℤ◌, ◌-ℤ◌, ◌*ℤ◌}
use direct_trade_protocol.Decimal.{format_decimal, multiply_rounded}
use direct_trade_protocol.Canonical.{Json, str, arr, obj, nil, item, Members, end, member}
use direct_trade_protocol.Profiles.Runs.{profile_runs}
use direct_trade_protocol.Profiles.Party.{distinct_items}
use direct_trade_protocol.Profiles.Invoice.{arithmetic_mismatch, check_amounts}
use direct_trade_protocol.Profiles.Invoice.Report.{Observation, validate_invoice}
use direct_trade_protocol.Profiles.Invoice.Totals.{IsConsistent, validate_invoice-IsConsistent}

invoices : Unit {0}
unfolding validate_invoice profile_runs distinct_items format_decimal multiply_rounded ◌+ℤ◌ ◌-ℤ◌
    ◌*ℤ◌
invoices = tt

abbrev money : Text → Json
money amount =
    obj (member (codes "amount") (str amount) (member (codes "currency") (str (codes "USD")) end))

abbrev line : Json
line = obj (
    member (codes "quantity")
      (obj (
        member (codes "amount") (str (codes "2.5")) (member (codes "unit") (str (codes "kg")) end)))
      (member (codes "unit_price") (money (codes "1.333333"))
        (member (codes "amount") (money (codes "3.333333")) end)))

abbrev invoice : Text → Members
invoice total = member (codes "subtotal") (money (codes "3.333333")) (
    member (codes "total") (money total) (
      member (codes "paid_amount") (money (codes "1")) (
        member (codes "status") (str (codes "partially_paid")) (
          member (codes "line_items") (arr (item line nil)) (
            member (codes "deductions")
              (arr (item (obj (member (codes "amount") (money (codes "0.333333")) end)) nil))
              (member (codes "issued_at") (str (codes "2026-02-28T09:30:00Z")) (
                member (codes "due_at") (str (codes "2026-03-28T09:30:00.5Z")) (
                  member (codes "contract_id") (str (codes "01234567-89ab-cdef-0123-456789abcdef"))
                    (member (codes "settlement_event_ids") (arr nil) end)))))))))

abbrev unresolved_all : Text → Text → Option Observation
unresolved_all id type = none

amounts_tests :
    (check_amounts (invoice (codes "3")) ≡ [])
    × (check_amounts (invoice (codes "3.333333"))
        ≡ (arithmetic_mismatch, codes "total.amount") ∷ [])
unfolding invoices
amounts_tests = (refl, refl)

invoice_valid : (validate_invoice unresolved_all (obj (invoice (codes "3")))).valid ≡ true
unfolding invoices
invoice_valid = refl

validate_invoice-IsConsistent_example : IsConsistent (invoice (codes "3"))
validate_invoice-IsConsistent_example =
    validate_invoice-IsConsistent unresolved_all (invoice (codes "3")) invoice_valid
