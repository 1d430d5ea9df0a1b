-- ===== src/Store/Integrity/Versions.antt =====
-- What accepted versions of a fulfillment and of an invoice keep.
use direct_trade_protocol.Prelude.{
  ◌≡◌, refl, sym, ◌∙◌, true, false, not, ◌&&◌, Option, some, [], ◌∷◌, arith, Text, codes, ◌===◌,
  ===_iff, Result, ok, demand, refuse, >>=-elim, demand-eq-ok, refuse-eq-ok, if◌then◌else◌,
  Bool-cases, inl, inr,
}
use direct_trade_protocol.Canonical.{Json, null, Members, CanonicalError, canonicalize}
use direct_trade_protocol.Store.Transitions.{get, or_null, is_text, is_null, same_value}
use direct_trade_protocol.Store.Transitions.Roles.{same_value-eq}
use direct_trade_protocol.Store.Integrity.{
  Envelope, not_seller, reassigned, attestation_changed, text, equal, is_nullish, paid_amount,
  settlement_event_ids, assigned_to, seller_company, buyer_attestation, check_payment,
  check_accounting, assigned_before, check_assignment, check_invoice, check_kept, check_next,
  check_fulfillment, check_integrity,
}
use direct_trade_protocol.Store.Integrity.Null.{canonicalize-null}

abbrev pub Canon : Json → Result CanonicalError Text
Canon v = canonicalize (or_null v)

text-eq-ok : (v : Json) (t : Text) → text v ≡ ok t → Canon v ≡ ok t
unfolding text
text-eq-ok v t h = ground arith

-- Two values with equal canonical texts.
pub equal-eq-ok :
    (v w : Json) → equal v w ≡ ok true → (t : Text) × (Canon v ≡ ok t) × (Canon w ≡ ok t)
unfolding equal
equal-eq-ok v w h = >>=-elim (text v) _ h λ a read h1. >>=-elim (text w) _ h1 λ b written h2.
    let agree : (a === b) ≡ true = cc h2 in
    (a, text-eq-ok v a read, rw ((===_iff a b).0 agree) (text-eq-ok w b written))

-- The part of the checks for each type.
pub fulfillment-part :
    (env : Envelope) (prev : Members)
    → check_integrity env (some prev) ≡ ok tt
    → env.type ≡ codes "trade.fulfillment"
    → check_next env prev ≡ ok tt
unfolding check_integrity check_fulfillment ◌===◌
fulfillment-part env prev h type = rw type at h

invoice-part :
    (env : Envelope) (prev : Option Members)
    → check_integrity env prev ≡ ok tt
    → env.type ≡ codes "finance.invoice"
    → check_invoice env prev ≡ ok tt
unfolding check_integrity ◌===◌
invoice-part env prev h type =
    >>=-elim (if env.type === codes "finance.invoice" then check_invoice env prev else ok tt) _ h
      λ _ first _. rw type at first

check_kept-SameText :
    (before buyer : Json)
    → check_kept before buyer ≡ ok tt
    → is_nullish before ≡ false
    → (t : Text) × (Canon before ≡ ok t) × (Canon buyer ≡ ok t)
unfolding check_kept
check_kept-SameText before buyer h present =
    >>=-elim (equal before buyer) _ (rw present at h) λ same compared h1.
      let agree : same ≡ true = demand-eq-ok same attestation_changed h1 in
      equal-eq-ok before buyer (rw agree at compared)

pub check_next-SameText :
    (env : Envelope) (prev : Members)
    → check_next env prev ≡ ok tt
    → is_nullish (get prev buyer_attestation) ≡ false
    → (t : Text) × (Canon (get prev buyer_attestation) ≡ ok t)
      × (Canon (get env.body buyer_attestation) ≡ ok t)
unfolding check_next
check_next-SameText env prev h present =
    >>=-elim (check_kept (get prev buyer_attestation) (get env.body buyer_attestation)) _ h
      λ _ kept _.
        check_kept-SameText (get prev buyer_attestation) (get env.body buyer_attestation) kept
          present

nullish-or_null : (v : Json) → is_nullish v ≡ true → or_null v ≡ null
nullish-or_null v h = ground arith

or_null-nullish : (v : Json) → is_nullish (or_null v) ≡ is_nullish v
or_null-nullish v = ground arith

-- A value with the text of one that is there is there too.
pub stays :
    (v w : Json) (t : Text)
    → is_nullish v ≡ false
    → Canon v ≡ ok t
    → Canon w ≡ ok t
    → is_nullish w ≡ false
unfolding canonicalize
stays v w t present read written = elim (Bool-cases (is_nullish w)) [
  | inr there ↦ there
  | inl gone ↦
      let as_null = rw (nullish-or_null w gone) at written in
      let absent = canonicalize-null (or_null v) (read ∙ sym as_null) in
      let both = sym present ∙ sym (or_null-nullish v) ∙ absent in absurd (cc both)
]

-- The versions of one record of a type, each accepted on top of the one before.
pub data Versions (type : Text) : Members → Members → Type 0 where
  now : {b : Members} → Versions type b b
  next :
      {b prev : Members} (env : Envelope)
      → Versions type b prev
      → env.type ≡ type
      → check_integrity env (some prev) ≡ ok tt
      → Versions type b env.body

attested :
    {b b' : Members}
    → Versions (codes "trade.fulfillment") b b'
    → is_nullish (get b buyer_attestation) ≡ false
    → (is_nullish (get b' buyer_attestation) ≡ false)
      × (Canon (get b buyer_attestation) ≡ Canon (get b' buyer_attestation))
attested now present = (present, refl)
attested (next {b} {prev} env versions type h) present =
    let (still, same) = attested versions present in
    let (t, read, written) =
      check_next-SameText env prev (fulfillment-part env prev h type) still in
    (
      stays (get prev buyer_attestation) (get env.body buyer_attestation) t still read written,
      same ∙ read ∙ sym written,
    )

-- Once a version of a fulfillment holds a buyer's attestation, every later version holds one with
-- the same canonical text.
pub Versions-attestation :
    {b b' : Members}
    → Versions (codes "trade.fulfillment") b b'
    → is_nullish (get b buyer_attestation) ≡ false
    → (is_nullish (get b' buyer_attestation) ≡ false)
      × (canonicalize (or_null (get b buyer_attestation))
          ≡ canonicalize (or_null (get b' buyer_attestation)))
Versions-attestation = attested

keeps_assignment :
    (env : Envelope) (prev : Members)
    → check_invoice env (some prev) ≡ ok tt
    → is_null (or_null (get prev assigned_to)) ≡ false
    → or_null (get env.body assigned_to) ≡ or_null (get prev assigned_to)
unfolding check_invoice check_assignment assigned_before
keeps_assignment env prev h assigned =
    let kept = same_value (or_null (get env.body assigned_to)) (or_null (get prev assigned_to)) in
    let undone = not (is_null (or_null (get prev assigned_to))) && not kept in
    >>=-elim (check_accounting env (some prev)) _ h λ _ _ h1.
      >>=-elim (refuse undone reassigned) _ h1 λ _ passed _.
        let fine : undone ≡ false = refuse-eq-ok undone reassigned passed in
        same_value-eq (or_null (get env.body assigned_to)) (or_null (get prev assigned_to))
          (ground arith)

-- Once a version of an invoice is assigned to a company, every later version is assigned to the
-- same one.
pub Versions-assignment :
    {b b' : Members}
    → Versions (codes "finance.invoice") b b'
    → is_null (or_null (get b assigned_to)) ≡ false
    → or_null (get b' assigned_to) ≡ or_null (get b assigned_to)
Versions-assignment now assigned = refl
Versions-assignment (next {b} {prev} env versions type h) assigned =
    let before = Versions-assignment versions assigned in
    keeps_assignment env prev (invoice-part env (some prev) h type) (rw before assigned) ∙ before

check_payment-SameText :
    (prev body : Members)
    → check_payment prev body (paid_amount ∷ settlement_event_ids ∷ []) ≡ ok tt
    → (t : Text) × (Canon (get prev paid_amount) ≡ ok t) × (Canon (get body paid_amount) ≡ ok t)
unfolding check_payment
check_payment-SameText prev body h =
    >>=-elim (equal (get prev paid_amount) (get body paid_amount)) _ h λ same compared h1.
      >>=-elim (demand same not_seller) _ h1 λ _ passed _.
        let agree : same ≡ true = demand-eq-ok same not_seller passed in
        equal-eq-ok (get prev paid_amount) (get body paid_amount) (rw agree at compared)

-- A new version of an invoice by a company that is not the seller of the version before is accepted
-- only with the same canonical text of the amount paid.
pub check_integrity-paid :
    (env : Envelope) (prev : Members)
    → check_integrity env (some prev) ≡ ok tt
    → env.type ≡ codes "finance.invoice"
    → is_text (get prev seller_company) env.issuer_company_id ≡ false
    → (t : Text) × (canonicalize (or_null (get prev paid_amount)) ≡ ok t)
      × (canonicalize (or_null (get env.body paid_amount)) ≡ ok t)
unfolding check_invoice check_accounting
check_integrity-paid env prev h type other =
    >>=-elim (check_accounting env (some prev)) _ (invoice-part env (some prev) h type)
      λ _ paid _. check_payment-SameText prev env.body (rw other at paid)
