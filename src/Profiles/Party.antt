-- ===== src/Profiles/Party.antt =====
-- sdk/src/profiles/party.ts: validateParty. Its continuity is in Party/Versions.
pub mod Versions
use direct_trade_protocol.Prelude.{
  ℕ, suc, Bool, true, false, not, ◌&&◌, ◌||◌, Option, none, some, List, [], ◌∷◌, map, Text, codes,
  Result, ok, err, ◌>>=◌, if◌then◌else◌, any, distinct,
}
use direct_trade_protocol.Canonical.{Json, str, arr, Items, nil, item, Members}
use direct_trade_protocol.Authority.Charter.{uuid}
use direct_trade_protocol.Store.Transitions.{get, is_text, is_null, same_value}
use direct_trade_protocol.Profiles.Issues.{Checked, pass, fail, fail_if, ◌&◌, at, dot}
use direct_trade_protocol.Profiles.Shapes.{
  exact_object, array, text, matches, bad_unless_null, one_of, is_language, is_country,
}
use direct_trade_protocol.Profiles.CheckDigit.{is_gln, is_duns}
use direct_trade_protocol.Profiles.Identifiers.{scheme_of, value_of, check_identifiers}

abbrev pub party_kinds : List Text
party_kinds = map codes ("organization" ∷ "person" ∷ "unit" ∷ [])

abbrev pub party_roles : List Text
party_roles = map codes (
    "customer" ∷ "supplier" ∷ "carrier" ∷ "financer" ∷ "service_provider" ∷ "manufacturer"
    ∷ "broker" ∷ "other" ∷ [])

-- The loop over the names, which the product profile repeats.
unfoldable pub check_names : ℕ → Items → Checked
check_names i nil = pass
check_names i (item v vs) =
    elim (exact_object v (codes "name" ∷ codes "language" ∷ [])) [
      | none ↦ fail (at (codes "$.names") i) "name and language required"
      | some n ↦
          fail_if (not (text (get n (codes "name")) 200)) (dot (at (codes "$.names") i) "name")
            "bounded nonempty name required"
          & fail_if
              (bad_unless_null (get n (codes "language"))
                (matches is_language (get n (codes "language"))))
              (dot (at (codes "$.names") i) "language") "language tag or null required"
    ]
    & check_names (suc i) vs

unfoldable pub check_name_list : Json → Checked
unfolding check_names
check_name_list v = elim (array 1 8 v) [
  | none ↦ fail (codes "$.names") "1-8 names required"
  | some names ↦ check_names 0 names
]

-- The end of a turn over the identifiers: the schemes that the profile reads.
unfoldable pub check_known : Members → Text → Checked
check_known id path =
    fail_if (is_text (scheme_of id) (codes "gs1.gln") && not (is_gln (value_of id)))
      (dot path "value") "GLN check digit or length invalid"
    & fail_if (is_text (scheme_of id) (codes "duns") && not (is_duns (value_of id)))
        (dot path "value") "nine-digit DUNS required"

unfoldable pub check_party_identifiers : Json → Checked
unfolding check_known
check_party_identifiers v = elim (array 0 32 v) [
  | none ↦ fail (codes "$.identifiers") "at most 32 identifiers"
  | some ids ↦
      check_identifiers "namespaced identifier scheme required" check_known []
        (codes "$.identifiers") 0 ids
]

-- `UUID.test(String(v))`; of the values of a body only a text prints as a UUID, or an array that
-- holds just that.
unfoldable mutual
  unfolding uuid

  pub prints_uuid : Json → Bool
  prints_uuid (str s) = uuid s
  prints_uuid (arr vs) = prints_uuid_items vs
  prints_uuid v = false

  pub prints_uuid_items : Items → Bool
  prints_uuid_items nil = false
  prints_uuid_items (item v nil) = prints_uuid v
  prints_uuid_items (item v (item w vs)) = false

unfoldable pub identity_ok : Json → Bool
unfolding prints_uuid
identity_ok v = elim (exact_object v (codes "organization_id" ∷ [])) [
  | none ↦ false
  | some p ↦ prints_uuid (get p (codes "organization_id"))
]

abbrev pub all_items : (Json → Bool) → Items → Bool
all_items p nil = true
all_items p (item v vs) = p v && all_items p vs

abbrev pub any_item : (Json → Bool) → Items → Bool
any_item p nil = false
any_item p (item v vs) = p v || any_item p vs

unfoldable pub distinct_items : Items → Bool
distinct_items nil = true
distinct_items (item v vs) = not (any_item (same_value v) vs) && distinct_items vs

unfoldable pub roles_ok : Json → Bool
unfolding distinct_items
roles_ok v = elim (array 0 8 v) [
  | none ↦ false
  | some roles ↦ distinct_items roles && all_items (one_of party_roles) roles
]

unfoldable pub address_lines_ok : Json → Bool
address_lines_ok v = elim (array 0 4 v) [
  | none ↦ false
  | some lines ↦ all_items (λ l. text l 200) lines
]

unfoldable pub check_address : Json → Text → Checked
unfolding address_lines_ok
check_address v path =
    elim (exact_object v
      (map codes ("lines" ∷ "locality" ∷ "region" ∷ "postal_code" ∷ "country" ∷ []))) [
        | none ↦ fail path "exact address fields required"
        | some a ↦
            fail_if (not (address_lines_ok (get a (codes "lines")))) (dot path "lines")
              "up to four bounded lines required"
            & fail_if (not (text (get a (codes "locality")) 120)) (dot path "locality")
                "locality required"
            & fail_if (bad_unless_null (get a (codes "region")) (text (get a (codes "region")) 120))
                (dot path "region") "bounded region or null required"
            & fail_if
                (bad_unless_null (get a (codes "postal_code"))
                  (text (get a (codes "postal_code")) 32))
                (dot path "postal_code") "bounded postal code or null required"
            & fail_if (not (matches is_country (get a (codes "country")))) (dot path "country")
                "ISO 3166-1 alpha-2 country required"
      ]

unfoldable pub location_members : Json → Option Members
location_members v = exact_object v (map codes ("location_id" ∷ "name" ∷ "address" ∷ "gln" ∷ []))

unfoldable pub check_location : List Json → Members → Text → Checked
unfolding check_address
check_location seen l path =
    fail_if (not (text (get l (codes "location_id")) 120)) (dot path "location_id")
      "bounded location id required"
    & fail_if (any (same_value (get l (codes "location_id"))) seen) path "duplicate location id"
    & fail_if (bad_unless_null (get l (codes "name")) (text (get l (codes "name")) 200))
        (dot path "name") "bounded name or null required"
    & check_address (get l (codes "address")) (dot path "address")
    & fail_if (bad_unless_null (get l (codes "gln")) (is_gln (get l (codes "gln"))))
        (dot path "gln") "GLN or null required"

-- `seen` holds the location ids of the turns before.
unfoldable pub check_locations : List Json → ℕ → Items → Checked
unfolding location_members check_location
check_locations seen i nil = pass
check_locations seen i (item v vs) = elim (location_members v) [
  | none ↦
      fail (at (codes "$.locations") i) "exact location fields required"
      & check_locations seen (suc i) vs
  | some l ↦
      check_location seen l (at (codes "$.locations") i)
      & check_locations (get l (codes "location_id") ∷ seen) (suc i) vs
]

unfoldable pub check_location_list : Json → Checked
unfolding check_locations
check_location_list v = elim (array 0 32 v) [
  | none ↦ fail (codes "$.locations") "at most 32 locations"
  | some ls ↦ check_locations [] 0 ls
]

unfoldable pub party_members : Json → Option Members
party_members v = exact_object v (
    map codes (
      "kind" ∷ "names" ∷ "identifiers" ∷ "protocol_identity" ∷ "roles" ∷ "locations" ∷ "parent"
      ∷ "status" ∷ []))

unfoldable pub validate_party : Json → Checked
unfolding party_members check_name_list check_party_identifiers identity_ok roles_ok
    check_location_list
validate_party body = elim (party_members body) [
  | none ↦ fail (codes "$") "exact party fields required"
  | some b ↦
      let parent = get b (codes "parent") in
      let is_unit = is_text (get b (codes "kind")) (codes "unit") in
      fail_if (not (one_of party_kinds (get b (codes "kind")))) (codes "$.kind")
        "organization, person or unit required"
      & check_name_list (get b (codes "names"))
      & check_party_identifiers (get b (codes "identifiers"))
      & fail_if
          (bad_unless_null (get b (codes "protocol_identity"))
            (identity_ok (get b (codes "protocol_identity"))))
          (codes "$.protocol_identity") "organization id or null required"
      & fail_if (not (roles_ok (get b (codes "roles")))) (codes "$.roles")
          "distinct roles from the closed set required"
      & check_location_list (get b (codes "locations"))
      & fail_if (bad_unless_null parent (matches uuid parent)) (codes "$.parent")
          "parent party root or null required"
      & fail_if (is_unit && is_null parent) (codes "$.parent") "a unit names its parent party"
      & fail_if (not is_unit && not (is_null parent)) (codes "$.parent") "only a unit has a parent"
      & fail_if (not (one_of (codes "active" ∷ codes "inactive" ∷ []) (get b (codes "status"))))
          (codes "$.status") "active or inactive required"
]
