-- ===== src/Profiles/Object.antt =====
-- sdk/src/profiles/object.ts: validateObject, checkObjectGenesis, checkObjectContinuity and
-- checkObjectOwner.
pub mod Found
use direct_trade_protocol.Prelude.{
  ℕ, Bool, true, false, not, ◌&&◌, Option, none, some, List, [], ◌∷◌, ◌++◌, map, Text, codes, ◌===◌,
  includes, Result, ok, err, ◌>>=◌, if◌then◌else◌,
}
use direct_trade_protocol.Canonical.{Json, null, str, obj, Members, end, member}
use direct_trade_protocol.Store.Transitions.{get, is_text, is_null}
use direct_trade_protocol.Profiles.Issues.{
  Issue, ProfileError, Checked, pass, fail, fail_if, ◌&◌, canonical, at, dot,
}
use direct_trade_protocol.Profiles.Shapes.{exact_object, array, text, bad_unless_null, one_of}
use direct_trade_protocol.Profiles.CheckDigit.{is_sscc, is_gtin, is_gln}
use direct_trade_protocol.Profiles.Identifiers.{
  Identifier, scheme_of, value_of, check_identifiers, keys, lacks_some,
}
use direct_trade_protocol.Profiles.Act.{
  ObjectRef, is_class_name, is_protocol_class, validate_ref_list, check_owners,
}

abbrev pub max_object_identifiers : ℕ
max_object_identifiers = 16

abbrev pub max_object_evidence : ℕ
max_object_evidence = 16

abbrev pub retire_reasons : List Text
retire_reasons = map codes ("scrapped" ∷ "lost" ∷ "consumed" ∷ "ended" ∷ "other" ∷ [])

abbrev pub starts_with : Text → Text → Bool
starts_with s [] = true
starts_with [] (p ∷ ps) = false
starts_with (c ∷ s) (p ∷ ps) = (c ∷ []) === (p ∷ []) && starts_with s ps

abbrev in_protocol : Json → Bool
in_protocol (str s) = starts_with s (codes "dtp/")
in_protocol v = false

unfoldable pub check_class : Json → Checked
check_class v =
    if is_class_name v
    then fail_if (in_protocol v && not (is_protocol_class v)) (codes "$.class")
        "not a protocol class; see spec/profiles/classes.json"
    else fail (codes "$.class") "<namespace>/<name> class required"

-- The end of a turn over the identifiers: the GS1 schemes.
unfoldable pub check_gs1 : Members → Text → Checked
check_gs1 id path =
    fail_if (is_text (scheme_of id) (codes "gs1.sscc") && not (is_sscc (value_of id)))
      (dot path "value") "SSCC check digit or length invalid"
    & fail_if (is_text (scheme_of id) (codes "gs1.gtin") && not (is_gtin (value_of id)))
        (dot path "value") "GTIN check digit or length invalid"
    & fail_if (is_text (scheme_of id) (codes "gs1.gln") && not (is_gln (value_of id)))
        (dot path "value") "GLN check digit or length invalid"

unfoldable pub check_object_identifiers : Json → Checked
unfolding check_gs1
check_object_identifiers v = elim (array 0 max_object_identifiers v) [
  | none ↦ fail (codes "$.identifiers") "at most 16 identifiers"
  | some ids ↦
      check_identifiers "namespaced identifier scheme required" check_gs1 [] (codes "$.identifiers")
        0 ids
]

unfoldable pub check_note : Json → Json → Checked
check_note reason note =
    if bad_unless_null note (text note 500)
    then fail (codes "$.retired.note") "bounded note or null required"
    else fail_if (is_text reason (codes "other") && is_null note) (codes "$.retired.note")
        "reason other needs a note"

unfoldable pub check_retired : Json → Checked
unfolding check_note
check_retired v = elim (exact_object v (codes "reason" ∷ codes "note" ∷ [])) [
  | none ↦ fail (codes "$.retired") "a retired object states its reason"
  | some r ↦
      fail_if (not (one_of retire_reasons (get r (codes "reason")))) (codes "$.retired.reason")
        "scrapped, lost, consumed, ended or other required"
      & check_note (get r (codes "reason")) (get r (codes "note"))
]

unfoldable pub check_object_status : Json → Json → Checked
unfolding check_retired
check_object_status status retired =
    if is_text status (codes "active")
    then fail_if (not (is_null retired)) (codes "$.retired")
        "an active object carries no retirement"
    else if is_text status (codes "retired")
    then check_retired retired
    else fail (codes "$.status") "active or retired required"

unfoldable pub object_members : Json → Option Members
object_members v =
    exact_object v
      (map codes ("class" ∷ "label" ∷ "identifiers" ∷ "status" ∷ "retired" ∷ "evidence" ∷ []))

unfoldable pub validate_object : Json → Checked
unfolding object_members check_class check_object_identifiers check_object_status
validate_object body = elim (object_members body) [
  | none ↦ fail (codes "$") "exact object fields required"
  | some b ↦
      check_class (get b (codes "class"))
      & fail_if (bad_unless_null (get b (codes "label")) (text (get b (codes "label")) 200))
          (codes "$.label") "bounded label or null required"
      & check_object_identifiers (get b (codes "identifiers"))
      & check_object_status (get b (codes "status")) (get b (codes "retired"))
      & validate_ref_list (get b (codes "evidence")) (codes "$.evidence") max_object_evidence
]

pub data ObjectStatus : Type 0 where
  active retired : ObjectStatus

-- The members that the checks of a revision read.
pub record ObjectBody : Type 0 where
  pub class_name : Text
  pub label : Option Text
  pub identifiers : List Identifier
  pub status : ObjectStatus
  pub evidence : List ObjectRef

abbrev pub is_retired : ObjectStatus → Bool
is_retired retired = true
is_retired active = false

unfoldable pub check_object_genesis : ObjectBody → Checked
check_object_genesis body =
    fail_if (is_retired body.status) (codes "$.status")
      "an object enters the ledger active; retire it by a revision"

abbrev pub text_or_null : Option Text → Json
text_or_null none = null
text_or_null (some s) = str s

abbrev pub ref_json : ObjectRef → Json
ref_json r = obj (
    member (codes "minted_by") (text_or_null r.minted_by) (
      member (codes "root") (str r.root)
        (member (codes "record_id") (text_or_null r.record_id) end)))

-- `refs.map(r => canonicalize(r))`
unfoldable pub ref_keys : List ObjectRef → Result ProfileError (List Text)
ref_keys [] = ok []
ref_keys (r ∷ rs) = do k ← canonical (ref_json r); ks ← ref_keys rs; ok (k ∷ ks)

-- `refs.some(r => !before.has(canonicalize(r)))`, which stops at the first one
unfoldable pub cites_new : List Text → List ObjectRef → Result ProfileError Bool
cites_new before [] = ok false
cites_new before (r ∷ rs) = do
  k ← canonical (ref_json r)
  elim (includes before k) [ true ↦ cites_new before rs | false ↦ ok true ]

abbrev pub same_label : Option Text → Option Text → Bool
same_label none none = true
same_label (some a) (some b) = a === b
same_label _ _ = false

unfoldable pub check_found : ObjectBody → ObjectBody → Checked
unfolding ref_keys cites_new
check_found previous next =
    if is_retired next.status
    then fail (codes "$.status") "a retired object changes only by being found active again"
    else (fail_if (not (same_label next.label previous.label)) (codes "$.label")
          "finding an object does not rename it"
        & (do
          before ← ref_keys previous.evidence
          new ← cites_new before next.evidence
          fail_if (not new) (codes "$.evidence")
              "finding a retired object cites new evidence of it"))

unfoldable pub check_object_continuity : ObjectBody → ObjectBody → Checked
unfolding check_found
check_object_continuity previous next =
    fail_if (not (previous.class_name === next.class_name)) (codes "$.class")
      "class is immutable; a different class is a different object"
    & (do
      kept ← keys next.identifiers
      lost ← lacks_some kept previous.identifiers
      fail_if lost (codes "$.identifiers") "identifiers may be added, never removed")
    & (if is_retired previous.status then check_found previous next else pass)

unfoldable pub check_object_owner : ObjectBody → Text → List Issue
check_object_owner body organization_id =
    check_owners body.evidence (codes "$.evidence") 0 organization_id
