-- ===== src/Store/Integrity/Origin.antt =====
-- Where the buyer's attestation of a fulfillment comes from.
use mathlib.Core.List.{Memᴰ}
use mathlib.Core.List.Memᴰ.{head, tail}
use direct_trade_protocol.Prelude.{
  ◌≡◌, refl, sym, ap, ◌∙◌, true, false, not, ◌&&◌, none, some, List, [], ◌∷◌, arith, Text, codes,
  ◌===◌, ===_iff, ok, >>=-elim, demand-elim, demand-eq-ok, if◌then◌else◌, Bool-cases, inl, inr,
  and-true,
}
use direct_trade_protocol.Canonical.{Json, str, obj, Members, canonicalize}
use direct_trade_protocol.Store.Transitions.{get, or_null, is_text, is_null, same_value}
use direct_trade_protocol.Store.Transitions.Roles.{same_value-eq}
use direct_trade_protocol.Store.Integrity.{
  Envelope, wrong_seller_attestation, early_buyer, wrong_buyer_attestation, is_nullish, field_of,
  seller_company, seller_attestation, buyer_company, buyer_attestation, status, check_first,
  check_kept, check_added, check_next, check_fulfillment, check_integrity,
}
use direct_trade_protocol.Store.Integrity.Versions.{fulfillment-part, check_next-SameText}

-- The accepted versions of a fulfillment, the latest first, from its genesis on.
pub data History : List Envelope → Type 0 where
  first :
      (env : Envelope)
      → env.type ≡ codes "trade.fulfillment"
      → check_integrity env none ≡ ok tt
      → History (env ∷ [])
  next :
      {prev : Envelope} {before : List Envelope} (env : Envelope)
      → History (prev ∷ before)
      → env.type ≡ codes "trade.fulfillment"
      → check_integrity env (some prev.body) ≡ ok tt
      → History (env ∷ prev ∷ before)

-- The company that the version names as the buyer issued it, in the status buyer_attested, with an
-- attestation of that company that names this very version.
pub record IsAttesting (env : Envelope) : Type 0 where
  pub attestation : Members
  pub by_buyer : get env.body buyer_company ≡ str env.issuer_company_id
  pub in_status : get env.body status ≡ str (codes "buyer_attested")
  pub held : get env.body buyer_attestation ≡ obj attestation
  pub company : get attestation (codes "company_id") ≡ str env.issuer_company_id
  pub names_itself : get attestation (codes "record_id") ≡ str env.record_id

is_text-str : (v : Json) (t : Text) → is_text v t ≡ true → v ≡ str t
unfolding is_text
is_text-str (str s) t h = ap str ((===_iff s t).0 h)
is_text-str _ t h = absurd (cc h)

-- A value with two fields, the second of which is a text, is an object.
fields-obj :
    (v : Json) (company id : Json) (t : Text)
    → field_of v (codes "company_id") ≡ ok company
    → field_of v (codes "record_id") ≡ ok id
    → id ≡ str t
    → (ms : Members) × (v ≡ obj ms)
      × (get ms (codes "company_id") ≡ company)
      × (get ms (codes "record_id") ≡ id)
unfolding field_of
fields-obj (obj ms) company id t h k is = (ms, refl, cc h, cc k)
fields-obj _ company id t h k is = absurd (cc (h, k, is))

check_added-IsAttesting :
    (env : Envelope) → check_added env (get env.body buyer_attestation) ≡ ok tt → IsAttesting env
unfolding check_added
check_added-IsAttesting env h =
    let buyer = get env.body buyer_attestation in
    let by_buyer = is_text (get env.body buyer_company) env.issuer_company_id in
    let in_status = is_text (get env.body status) (codes "buyer_attested") in
    demand-elim (by_buyer && in_status) wrong_buyer_attestation _ h λ who h1.
      >>=-elim (field_of buyer (codes "company_id")) _ h1 λ company company_read h2.
        >>=-elim (field_of buyer (codes "record_id")) _ h2 λ id id_read h3.
          let (issued, attested) = and-true by_buyer in_status who in
          let (same, named) =
            and-true (same_value company (get env.body buyer_company)) (is_text id env.record_id) (
              demand-eq-ok
                (same_value company (get env.body buyer_company) && is_text id env.record_id)
                wrong_buyer_attestation h3) in
          let itself = is_text-str id env.record_id named in
          let issuer = is_text-str (get env.body buyer_company) env.issuer_company_id issued in
          let (ms, held, company_is, id_is) =
            fields-obj buyer company id env.record_id company_read id_read itself in
          record {
            attestation = ms;
            by_buyer = issuer;
            in_status = is_text-str (get env.body status) (codes "buyer_attested") attested;
            held = held;
            company = company_is ∙ same_value-eq company (get env.body buyer_company) same ∙ issuer;
            names_itself = id_is ∙ itself;
          }

check_next-IsAttesting :
    (env : Envelope) (prev : Members)
    → check_next env prev ≡ ok tt
    → is_nullish (get prev buyer_attestation) ≡ true
    → is_nullish (get env.body buyer_attestation) ≡ false
    → IsAttesting env
unfolding check_next
check_next-IsAttesting env prev h absent brought =
    let buyer = get env.body buyer_attestation in
    let fresh = is_nullish (get prev buyer_attestation) && not (is_null buyer) in
    let is_fresh : fresh ≡ true = ground (arith, absent, brought) in
    >>=-elim (check_kept (get prev buyer_attestation) buyer) _ h λ _ _ h1.
      >>=-elim (if fresh then check_added env buyer else ok tt) _ h1
        λ _ added _. check_added-IsAttesting env (rw is_fresh at added)

first-none :
    (env : Envelope)
    → env.type ≡ codes "trade.fulfillment"
    → check_integrity env none ≡ ok tt
    → is_nullish (get env.body buyer_attestation) ≡ true
unfolding check_integrity check_fulfillment check_first ◌===◌
first-none env type h =
    let genesis : check_first env ≡ ok tt = rw type at h in
    let seller = get env.body seller_attestation in
    >>=-elim (field_of seller (codes "company_id")) _ genesis λ company _ h1.
      >>=-elim (field_of seller (codes "record_id")) _ h1 λ id _ h2.
        demand-elim (same_value company (get env.body seller_company) && is_text id env.record_id)
          wrong_seller_attestation _ h2
          λ _ h3.
            let gone = demand-eq-ok (is_null (get env.body buyer_attestation)) early_buyer h3 in
            ground (arith, gone)

-- Whenever a version of a fulfillment holds a buyer's attestation, one of the versions since the
-- genesis, or this one, was issued by the company that it names as the buyer, in the status
-- buyer_attested, with an attestation of that company that names that very version; and the
-- attestation held now has the same canonical text.
pub History-attested :
    (env : Envelope) (before : List Envelope)
    → History (env ∷ before)
    → is_nullish (get env.body buyer_attestation) ≡ false
    → (origin : Envelope) × Memᴰ origin (env ∷ before)
      × IsAttesting origin
      × (canonicalize (or_null (get origin.body buyer_attestation))
          ≡ canonicalize (or_null (get env.body buyer_attestation)))
History-attested env _ (first _ type h) present =
    let none_yet = first-none env type h in absurd (cc (none_yet, present))
History-attested env _ (next {prev} {before} _ history type h) present =
    let checked = fulfillment-part env prev.body h type in
    elim (Bool-cases (is_nullish (get prev.body buyer_attestation))) [
      | inl absent ↦
          (env, head refl, check_next-IsAttesting env prev.body checked absent present, refl)
      | inr there ↦
          let (t, read, written) = check_next-SameText env prev.body checked there in
          let (origin, place, attesting, same) = History-attested prev before history there in
          (origin, tail place, attesting, same ∙ read ∙ sym written)
    ]
