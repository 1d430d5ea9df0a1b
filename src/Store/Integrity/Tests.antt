-- ===== src/Store/Integrity/Tests.antt =====
-- A fulfillment that the buyer attests, an invoice that the seller assigns, and the theorems at them.
use mathlib.Core.List.{Memᴰ}
use direct_trade_protocol.Prelude.{
  [], ◌∷◌, ◌≡◌, refl, false, none, some, Text, codes, ◌===◌, ok, err,
}
use direct_trade_protocol.Prelude.Int.{◌-ℤ◌}
use direct_trade_protocol.Canonical.{Json, null, str, obj, Members, end, member, canonicalize}
use direct_trade_protocol.Store.Transitions.{get, or_null, is_text, same_value}
use direct_trade_protocol.Store.Integrity.{
  Envelope, is_nullish, paid_amount, assigned_to, buyer_attestation, check_integrity, not_seller,
  reassigned, attestation_changed, wrong_buyer_attestation,
}
use direct_trade_protocol.Store.Integrity.Versions.{
  now, Versions-attestation, Versions-assignment, check_integrity-paid,
}
use direct_trade_protocol.Store.Integrity.Versions
use direct_trade_protocol.Store.Integrity.Origin.{
  History, first, next, IsAttesting, History-attested,
}

integrity : Unit {0}
unfolding check_integrity canonicalize same_value is_text ◌===◌ ◌-ℤ◌
integrity = tt

abbrev attestation : Text → Text → Json
attestation company id =
    obj (member (codes "company_id") (str company) (member (codes "record_id") (str id) end))

abbrev delivery : Text → Json → Members
delivery state buyer = member (codes "seller_company_id") (str (codes "S")) (
    member (codes "buyer_company_id") (str (codes "B")) (
      member (codes "seller_attestation") (attestation (codes "S") (codes "r0"))
        (member (codes "buyer_attestation") buyer (member (codes "status") (str state) end))))

abbrev shipped : Members
shipped = delivery (codes "seller_attested") null

abbrev received : Members
received = delivery (codes "buyer_attested") (attestation (codes "B") (codes "r1"))

abbrev closed : Members
closed = delivery (codes "settled") (attestation (codes "B") (codes "r1"))

abbrev version : Text → Text → Text → Members → Envelope
version type id issuer body = record {
  type = type;
  record_id = id;
  issuer_company_id = issuer;
  body = body;
}

abbrev fulfillment : Text → Text → Members → Envelope
fulfillment = version (codes "trade.fulfillment")

abbrev invoice : Text → Members → Envelope
invoice = version (codes "finance.invoice") (codes "i1")

fulfillment_accepted :
    (check_integrity (fulfillment (codes "r0") (codes "S") shipped) none ≡ ok tt)
    × (check_integrity (fulfillment (codes "r1") (codes "B") received) (some shipped) ≡ ok tt)
    × (check_integrity (fulfillment (codes "r2") (codes "S") closed) (some received) ≡ ok tt)
unfolding integrity
fulfillment_accepted = (refl, refl, refl)

fulfillment_refused :
    (check_integrity (fulfillment (codes "r1") (codes "S") received) (some shipped)
      ≡ err wrong_buyer_attestation)
    × (check_integrity (fulfillment (codes "r9") (codes "B") received) (some shipped)
        ≡ err wrong_buyer_attestation)
    × (check_integrity (fulfillment (codes "r2") (codes "S") shipped) (some received)
        ≡ err attestation_changed)
unfolding integrity
fulfillment_refused = (refl, refl, refl)

abbrev bill : Json → Json → Members
bill assigned paid =
    member (codes "seller_company_id") (str (codes "S"))
      (member (codes "assigned_to_company_id") assigned (member (codes "paid_amount") paid end))

abbrev issued : Members
issued = bill null (str (codes "0"))

abbrev assigned : Members
assigned = bill (str (codes "F")) (str (codes "0"))

invoice_accepted :
    (check_integrity (invoice (codes "S") assigned) (some issued) ≡ ok tt)
    × (check_integrity (invoice (codes "B") assigned) (some assigned) ≡ ok tt)
unfolding integrity
invoice_accepted = (refl, refl)

invoice_refused :
    (check_integrity
        (invoice (codes "B") (bill (str (codes "F")) (str (codes "9"))))
        (some assigned)
      ≡ err not_seller)
    × (check_integrity (invoice (codes "S") issued) (some assigned) ≡ err reassigned)
unfolding integrity
invoice_refused = (refl, refl)

Versions-attestation_example :
    (is_nullish (get closed buyer_attestation) ≡ false)
    × (canonicalize (or_null (get received buyer_attestation))
        ≡ canonicalize (or_null (get closed buyer_attestation)))
unfolding integrity
Versions-attestation_example =
    Versions-attestation {b = received}
      (Versions.next (fulfillment (codes "r2") (codes "S") closed) now refl fulfillment_accepted.2)
      refl

Versions-assignment_example :
    or_null (get assigned assigned_to) ≡ or_null (get assigned assigned_to)
unfolding integrity
Versions-assignment_example =
    Versions-assignment {b = assigned}
      (Versions.next (invoice (codes "B") assigned) now refl invoice_accepted.1) refl

check_integrity-paid_example :
    (t : Text) × (canonicalize (or_null (get assigned paid_amount)) ≡ ok t)
    × (canonicalize (or_null (get assigned paid_amount)) ≡ ok t)
unfolding integrity
check_integrity-paid_example =
    check_integrity-paid (invoice (codes "B") assigned) assigned invoice_accepted.1 refl refl

delivered : History (
    fulfillment (codes "r2") (codes "S") closed
    ∷ fulfillment (codes "r1") (codes "B") received
    ∷ fulfillment (codes "r0") (codes "S") shipped
    ∷ [])
delivered =
    next (fulfillment (codes "r2") (codes "S") closed)
      (next (fulfillment (codes "r1") (codes "B") received)
        (first (fulfillment (codes "r0") (codes "S") shipped) refl fulfillment_accepted.0) refl
        fulfillment_accepted.1)
      refl fulfillment_accepted.2

closed_attested : is_nullish (get closed buyer_attestation) ≡ false
unfolding integrity
closed_attested = refl

History-attested_example :
    (origin : Envelope) × Memᴰ origin (
      fulfillment (codes "r2") (codes "S") closed
      ∷ fulfillment (codes "r1") (codes "B") received
      ∷ fulfillment (codes "r0") (codes "S") shipped
      ∷ [])
    × IsAttesting origin
    × (canonicalize (or_null (get origin.body buyer_attestation))
        ≡ canonicalize (or_null (get closed buyer_attestation)))
History-attested_example =
    History-attested (fulfillment (codes "r2") (codes "S") closed)
      (fulfillment (codes "r1") (codes "B") received
        ∷ fulfillment (codes "r0") (codes "S") shipped
        ∷ [])
      delivered closed_attested
