-- ===== src/Profiles/Act.antt =====
-- sdk/src/profiles/act.ts: object references, the act header, and protocol object classes.
use direct_trade_protocol.Prelude.{
  ℕ, suc, Bool, true, false, not, ◌&&◌, ◌||◌, Option, none, some, List, [], ◌∷◌, ◌++◌, ◌==◌, map,
  Text, codes, ◌===◌, includes, all, length, leb, Result, ok, ◌>>=◌, if◌then◌else◌,
}
use direct_trade_protocol.Decimal.{is_digit, to_digits}
use direct_trade_protocol.Canonical.{Json, Items, nil, item, Members, max_safe}
use direct_trade_protocol.Authority.Charter.{uuid}
use direct_trade_protocol.Store.Transitions.{get, is_null}
use direct_trade_protocol.Profiles.Issues.{
  Issue, issue, ProfileError, Checked, pass, fail, fail_if, ◌&◌, canonical, at, dot,
}
use direct_trade_protocol.Profiles.Shapes.{
  exact_object, array, text, matches, bad_unless_null, one_of, integer_within, split, starts_lower,
  is_lower_or_digit,
}
use direct_trade_protocol.Profiles.Dates.{is_instant}

-- `minted_by` is none for null, and so is `record_id`.
pub record ObjectRef : Type 0 where
  pub minted_by : Option Text
  pub root : Text
  pub record_id : Option Text

-- An evidence item's reference; a document holds none.
pub record Act : Type 0 where
  pub references : List ObjectRef
  pub evidence : List (Option ObjectRef)

abbrev pub act_verbs : List Text
act_verbs = map codes ("move" ∷ "transform" ∷ "transfer" ∷ "assign" ∷ "observe" ∷ "value" ∷ [])

abbrev pub act_bases : List Text
act_bases = map codes ("asserted" ∷ "measured" ∷ "inferred" ∷ [])

abbrev pub max_act_links : ℕ
max_act_links = 16

abbrev pub object_classes : List Text
object_classes = map codes (
    "dtp/account" ∷ "dtp/document" ∷ "dtp/equipment" ∷ "dtp/handling-unit" ∷ "dtp/instrument"
    ∷ "dtp/location" ∷ "dtp/position" ∷ "dtp/vehicle" ∷ [])

-- `/^(dtp|<uuid>)\/[a-z][a-z0-9._-]{0,79}$/`
abbrev is_class_unit : ℕ → Bool
is_class_unit c = is_lower_or_digit c || c == b'.' || c == b'_' || c == b'-'

abbrev class_pieces : Text → List Text → Bool
class_pieces namespace (name ∷ []) =
    (namespace === codes "dtp" || uuid namespace)
    && starts_lower name
    && leb (length name) 80
    && all is_class_unit name
class_pieces namespace _ = false

unfoldable pub class_name : Text → Bool
unfolding split uuid
class_name s = let pieces = split b'/' s in class_pieces pieces.0 pieces.1

unfoldable pub is_class_name : Json → Bool
unfolding matches class_name
is_class_name v = matches class_name v

unfoldable pub is_protocol_class : Json → Bool
unfolding one_of
is_protocol_class v = one_of object_classes v

-- `/^[a-z0-9][a-z0-9!#$&^_.+-]{0,62}\/[a-z0-9][a-z0-9!#$&^_.+-]{0,62}$/`
abbrev media_marks : Text
media_marks = codes "!#$&^_.+-"

abbrev is_mark : Text → ℕ → Bool
is_mark [] c = false
is_mark (m ∷ ms) c = c == m || is_mark ms c

abbrev media_name : Text → Bool
media_name [] = false
media_name (c ∷ s) =
    is_lower_or_digit c
    && leb (length s) 62
    && all (λ d. is_lower_or_digit d || is_mark media_marks d) s

abbrev media_pieces : Text → List Text → Bool
media_pieces type_name (subtype ∷ []) = media_name type_name && media_name subtype
media_pieces type_name _ = false

unfoldable pub media_type : Text → Bool
unfolding split
media_type s = let pieces = split b'/' s in media_pieces pieces.0 pieces.1

-- `/^[0-9a-f]{64}$/`
unfoldable pub digest_shape : Text → Bool
digest_shape s = length s == 64 && all (λ c. is_digit c || leb b'a' c && leb c b'f') s

unfoldable pub ref_members : Json → Option Members
ref_members v = exact_object v (codes "minted_by" ∷ codes "root" ∷ codes "record_id" ∷ [])

unfoldable pub validate_object_ref : Json → Text → Checked
unfolding ref_members
validate_object_ref ref path = elim (ref_members ref) [
  | none ↦ fail path "minted_by, root and record_id required"
  | some r ↦
      fail_if
        (bad_unless_null (get r (codes "minted_by")) (matches uuid (get r (codes "minted_by"))))
        (dot path "minted_by") "organization id or null required"
      & fail_if (not (matches uuid (get r (codes "root")))) (dot path "root") "object root required"
      & fail_if
          (bad_unless_null (get r (codes "record_id")) (matches uuid (get r (codes "record_id"))))
          (dot path "record_id") "exact revision id or null required"
]

unfoldable pub check_ref_owner : ObjectRef → Text → Text → List Issue
check_ref_owner ref path organization_id = elim ref.minted_by [
  | none ↦ []
  | some id ↦
      if id === organization_id
      then issue (dot path "minted_by")
          (codes "a reference to the writer's own object leaves minted_by null")
        ∷ []
      else []
]

-- `own.length === 0`
abbrev pub is_clean : List Issue → Bool
is_clean [] = true
is_clean (i ∷ is) = false

-- The turns of the loop of `validateRefList`; `seen` holds the keys of the turns before.
unfoldable pub check_refs : List Text → Text → ℕ → Items → Checked
unfolding validate_object_ref
check_refs seen path i nil = pass
check_refs seen path i (item ref refs) = do
  own ← validate_object_ref ref (at path i)
  ok own & elim (is_clean own) [
    | false ↦ check_refs seen path (suc i) refs
    | true ↦ do
      key ← canonical ref
      fail_if (includes seen key) (at path i) "duplicate reference"
          & check_refs (key ∷ seen) path (suc i) refs
  ]

unfoldable pub validate_ref_list : Json → Text → ℕ → Checked
unfolding check_refs
validate_ref_list list path max = elim (array 0 max list) [
  | none ↦ ok (issue path (codes "at most " ++ to_digits max ++ codes " references") ∷ [])
  | some refs ↦ check_refs [] path 0 refs
]

unfoldable pub check_document : Json → Text → Checked
unfolding media_type digest_shape
check_document v path =
    elim (exact_object v (codes "digest" ∷ codes "media_type" ∷ codes "description" ∷ [])) [
      | none ↦ fail path "digest, media_type and description required"
      | some d ↦
          fail_if (not (matches digest_shape (get d (codes "digest")))) (dot path "digest")
            "lower-case hex SHA-256 required"
          & fail_if (not (matches media_type (get d (codes "media_type")))) (dot path "media_type")
              "lower-case type/subtype required"
          & fail_if
              (bad_unless_null (get d (codes "description"))
                (text (get d (codes "description")) 200))
              (dot path "description") "bounded description or null required"
    ]

abbrev pub same_test : Bool → Bool → Bool
same_test true b = b
same_test false b = not b

-- A turn over the evidence up to its test for duplicates: the issues, and whether the turn gets
-- there or returns early.
unfoldable pub check_item : Json → Text → Result ProfileError (List Issue × Bool)
unfolding validate_object_ref check_document
check_item e path = elim (exact_object e (codes "ref" ∷ codes "document" ∷ [])) [
  | none ↦ ok (issue path (codes "ref and document required") ∷ [], false)
  | some m ↦
      let ref = get m (codes "ref") in
      let document = get m (codes "document") in
      if same_test (is_null ref) (is_null document)
      then ok (issue path (codes "exactly one of ref and document") ∷ [], false)
      else if is_null ref
      then (do own ← check_document document (dot path "document"); ok (own, true))
      else (do own ← validate_object_ref ref (dot path "ref"); ok (own, is_clean own))
]

unfoldable pub check_evidence : List Text → Text → ℕ → Items → Checked
unfolding check_item
check_evidence seen path i nil = pass
check_evidence seen path i (item e es) = do
  turn ← check_item e (at path i)
  ok turn.0 & elim turn.1 [
    | false ↦ check_evidence seen path (suc i) es
    | true ↦ do
      key ← canonical e
      fail_if (includes seen key) (at path i) "duplicate evidence"
          & check_evidence (key ∷ seen) path (suc i) es
  ]

unfoldable pub observation_ok : Json → Bool
observation_ok v = elim (exact_object v (codes "source_id" ∷ codes "sequence" ∷ [])) [
  | none ↦ false
  | some o ↦
      text (get o (codes "source_id")) 200 && integer_within 1 max_safe (get o (codes "sequence"))
]

-- `fail_if` on a test that may throw
unfoldable pub fail_unless_instant : Json → Text → Checked
fail_unless_instant v path = do
  good ← is_instant v
  fail_if (not good) path "UTC millisecond instant required"

unfoldable pub act_members : Json → Option Members
act_members v =
    exact_object v (
      map codes ("verb" ∷ "occurred_at" ∷ "observation" ∷ "basis" ∷ "references" ∷ "evidence" ∷ []))

unfoldable pub check_evidence_list : Json → Text → Checked
unfolding check_evidence
check_evidence_list v path = elim (array 0 max_act_links v) [
  | none ↦ fail path "at most 16 evidence items"
  | some es ↦ check_evidence [] path 0 es
]

unfoldable pub validate_act : Json → Text → Checked
unfolding act_members observation_ok fail_unless_instant validate_ref_list check_evidence_list
validate_act act path = elim (act_members act) [
  | none ↦ fail path "exact act fields required"
  | some a ↦
      fail_if (not (one_of act_verbs (get a (codes "verb")))) (dot path "verb")
        "an event verb required"
      & fail_unless_instant (get a (codes "occurred_at")) (dot path "occurred_at")
      & fail_if (not (observation_ok (get a (codes "observation")))) (dot path "observation")
          "source id and positive sequence required"
      & fail_if (not (one_of act_bases (get a (codes "basis")))) (dot path "basis")
          "asserted, measured or inferred required"
      & validate_ref_list (get a (codes "references")) (dot path "references") max_act_links
      & check_evidence_list (get a (codes "evidence")) (dot path "evidence")
]

-- `references.flatMap((r, i) => checkRefOwner(r, at(i), organizationId))`
unfoldable pub check_owners : List ObjectRef → Text → ℕ → Text → List Issue
unfolding check_ref_owner
check_owners [] path i organization_id = []
check_owners (r ∷ rs) path i organization_id =
    check_ref_owner r (at path i) organization_id ++ check_owners rs path (suc i) organization_id

unfoldable pub check_evidence_owners : List (Option ObjectRef) → Text → ℕ → Text → List Issue
unfolding check_ref_owner
check_evidence_owners [] path i organization_id = []
check_evidence_owners (none ∷ es) path i organization_id =
    check_evidence_owners es path (suc i) organization_id
check_evidence_owners (some r ∷ es) path i organization_id =
    check_ref_owner r (dot (at path i) "ref") organization_id
    ++ check_evidence_owners es path (suc i) organization_id

unfoldable pub check_act_owner : Act → Text → Text → List Issue
unfolding check_owners check_evidence_owners
check_act_owner act organization_id path =
    check_owners act.references (dot path "references") 0 organization_id
    ++ check_evidence_owners act.evidence (dot path "evidence") 0 organization_id
