-- ===== src/Store/Integrity.antt =====
-- supabase/functions/dtp-store/integrity.ts: what a record's own history asks of a new version of an
-- invoice or of a fulfillment. An error keeps which `reject` it is, without its message.
pub mod Null
pub mod Versions
pub mod Origin
mod Tests
use direct_trade_protocol.Prelude.{
  Bool, true, false, not, ◌&&◌, ◌||◌, Option, none, some, List, [], ◌∷◌, Text, codes, ◌===◌, Result,
  ok, err, ◌>>=◌, ◌>>◌, demand, refuse, if◌then◌else◌,
}
use direct_trade_protocol.Prelude.Int.{is_zero}
use direct_trade_protocol.Canonical.{
  Json, null, undefined, bool, num, str, obj, Members, CanonicalError, canonicalize,
}
use direct_trade_protocol.Store.Transitions.{get, or_null, is_text, is_null, same_value}

-- What the checks read of an envelope.
pub record Envelope : Type 0 where
  pub type : Text
  pub record_id : Text
  pub issuer_company_id : Text
  pub body : Members

-- `no_object` is the TypeError of a member read from null or undefined.
pub data IntegrityError : Type 0 where
  not_seller reassigned not_assigner wrong_seller_attestation early_buyer : IntegrityError
  attestation_changed wrong_buyer_attestation missing_attestation wrong_deductions : IntegrityError
  no_object : IntegrityError
  not_canonical : CanonicalError → IntegrityError

-- `canonicalize(v ?? null)`
unfoldable pub text : Json → Result IntegrityError Text
text v = elim (canonicalize (or_null v)) [ ok t ↦ ok t | err e ↦ err (not_canonical e) ]

unfoldable pub equal : Json → Json → Result IntegrityError Bool
unfolding text
equal v w = do a ← text v; b ← text w; ok (a === b)

-- `v == null`
abbrev pub is_nullish : Json → Bool
is_nullish null = true
is_nullish undefined = true
is_nullish _ = false

-- `!v`
abbrev pub is_falsy : Json → Bool
is_falsy null = true
is_falsy undefined = true
is_falsy (bool b) = not b
is_falsy (num n) = is_zero n
is_falsy (str []) = true
is_falsy _ = false

-- `v[name]`
unfoldable pub field_of : Json → Text → Result IntegrityError Json
unfolding get
field_of null name = err no_object
field_of undefined name = err no_object
field_of (obj ms) name = ok (get ms name)
field_of v name = ok undefined

abbrev pub paid_amount : Text
paid_amount = codes "paid_amount"

abbrev pub settlement_event_ids : Text
settlement_event_ids = codes "settlement_event_ids"

abbrev pub assigned_to : Text
assigned_to = codes "assigned_to_company_id"

abbrev pub seller_company : Text
seller_company = codes "seller_company_id"

abbrev pub buyer_company : Text
buyer_company = codes "buyer_company_id"

abbrev pub seller_attestation : Text
seller_attestation = codes "seller_attestation"

abbrev pub buyer_attestation : Text
buyer_attestation = codes "buyer_attestation"

abbrev pub status : Text
status = codes "status"

abbrev pub deductions : Text
deductions = codes "deductions"

-- The loop over the payment fields.
unfoldable pub check_payment : Members → Members → List Text → Result IntegrityError (Unit {0})
unfolding equal
check_payment prev body [] = ok tt
check_payment prev body (field ∷ fields) = do
  same ← equal (get prev field) (get body field)
  demand same not_seller
  check_payment prev body fields

unfoldable pub check_accounting : Envelope → Option Members → Result IntegrityError (Unit {0})
unfolding check_payment
check_accounting env none = ok tt
check_accounting env (some prev) =
    if is_text (get prev seller_company) env.issuer_company_id
    then ok tt
    else check_payment prev env.body (paid_amount ∷ settlement_event_ids ∷ [])

-- `prev?.assigned_to_company_id ?? null`
unfoldable pub assigned_before : Option Members → Json
assigned_before none = null
assigned_before (some prev) = or_null (get prev assigned_to)

unfoldable pub check_assignment : Envelope → Option Members → Result IntegrityError (Unit {0})
unfolding assigned_before
check_assignment env prev = do
  let assigned = or_null (get env.body assigned_to)
  let kept = same_value assigned (assigned_before prev)
  refuse (not (is_null (assigned_before prev)) && not kept) reassigned
  refuse (not kept && not (is_text (get env.body seller_company) env.issuer_company_id))
      not_assigner

unfoldable pub check_invoice : Envelope → Option Members → Result IntegrityError (Unit {0})
unfolding check_accounting check_assignment
check_invoice env prev = do check_accounting env prev; check_assignment env prev

unfoldable pub check_first : Envelope → Result IntegrityError (Unit {0})
unfolding field_of
check_first env = do
  company ← field_of (get env.body seller_attestation) (codes "company_id")
  record_id ← field_of (get env.body seller_attestation) (codes "record_id")
  demand (same_value company (get env.body seller_company) && is_text record_id env.record_id)
      wrong_seller_attestation
  demand (is_null (get env.body buyer_attestation)) early_buyer

unfoldable pub check_kept : Json → Json → Result IntegrityError (Unit {0})
unfolding equal
check_kept before buyer =
    if is_nullish before
    then ok tt
    else (do same ← equal before buyer; demand same attestation_changed)

-- The buyer's attestation is new in this version.
unfoldable pub check_added : Envelope → Json → Result IntegrityError (Unit {0})
unfolding field_of
check_added env buyer = do
  demand
      (is_text (get env.body buyer_company) env.issuer_company_id
        && is_text (get env.body status) (codes "buyer_attested"))
      wrong_buyer_attestation
  company ← field_of buyer (codes "company_id")
  record_id ← field_of buyer (codes "record_id")
  demand (same_value company (get env.body buyer_company) && is_text record_id env.record_id)
      wrong_buyer_attestation

-- A status is a string, as the schema asks.
unfoldable pub may_deduct : Envelope → Members → Bool
may_deduct env prev =
    is_text (get prev status) (codes "seller_attested")
    && is_text (get env.body buyer_company) env.issuer_company_id
    && (is_text (get env.body status) (codes "buyer_attested")
        || is_text (get env.body status) (codes "disputed"))

unfoldable pub check_deductions : Envelope → Members → Result IntegrityError (Unit {0})
unfolding equal may_deduct
check_deductions env prev = do
  same ← equal (get prev deductions) (get env.body deductions)
  demand (same || may_deduct env prev) wrong_deductions

unfoldable pub check_next : Envelope → Members → Result IntegrityError (Unit {0})
unfolding check_kept check_added check_deductions
check_next env prev = do
  check_kept (get prev buyer_attestation) (get env.body buyer_attestation)
  if is_nullish (get prev buyer_attestation) && not (is_null (get env.body buyer_attestation))
      then check_added env (get env.body buyer_attestation)
      else ok tt
  refuse
      (is_text (get env.body status) (codes "buyer_attested")
        && is_falsy (get env.body buyer_attestation))
      missing_attestation
  check_deductions env prev

unfoldable pub check_fulfillment : Envelope → Option Members → Result IntegrityError (Unit {0})
unfolding check_first check_next
check_fulfillment env none = check_first env
check_fulfillment env (some prev) = check_next env prev

unfoldable pub check_integrity : Envelope → Option Members → Result IntegrityError (Unit {0})
unfolding check_invoice check_fulfillment
check_integrity env prev = do
  if env.type === codes "finance.invoice" then check_invoice env prev else ok tt
  if env.type === codes "trade.fulfillment" then check_fulfillment env prev else ok tt
