-- ===== src/Profiles/Product.antt =====
-- sdk/src/profiles/product.ts: validateProduct. Its continuity is in Product/Versions.
pub mod Versions
use direct_trade_protocol.Prelude.{
  ℕ, suc, Bool, false, not, ◌&&◌, Option, none, some, List, [], ◌∷◌, map, Text, codes, String,
  if◌then◌else◌, includes, ltb,
}
use direct_trade_protocol.Canonical.{Json, Items, nil, item, Members}
use direct_trade_protocol.Authority.Charter.{uuid}
use direct_trade_protocol.Store.Transitions.{get, is_text}
use direct_trade_protocol.Profiles.Issues.{Checked, pass, fail, fail_if, ◌&◌, at, dot}
use direct_trade_protocol.Profiles.Shapes.{
  exact_object, array, text, matches, bad_unless_null, one_of, scheme_ok, integer_within, is_ucum,
}
use direct_trade_protocol.Profiles.CheckDigit.{is_gtin}
use direct_trade_protocol.Profiles.Identifiers.{identifier, scheme_of, value_of}
use direct_trade_protocol.Profiles.Units.{check_positive}
use direct_trade_protocol.Profiles.Stringify.{stringify_pair}
use direct_trade_protocol.Profiles.Party.{check_name_list}

abbrev pub max_shelf_life_days : ℕ
max_shelf_life_days = 36500

-- A turn of the loop over description, brand and category.
unfoldable pub check_optional : Members → String → ℕ → Checked
check_optional b key max =
    fail_if (bad_unless_null (get b (codes key)) (text (get b (codes key)) max))
      (dot (codes "$") key) "bounded nonempty text or null required"

abbrev pub is_sku : Members → Bool
is_sku id = is_text (scheme_of id) (codes "sku")

-- One turn over the identifiers; `skus` counts those of the scheme sku before it.
unfoldable pub check_identifier : List Text → ℕ → Members → Text → Checked
check_identifier seen skus id path =
    fail_if (not (scheme_ok (scheme_of id))) (dot path "scheme")
      "namespaced identifier scheme required"
    & fail_if (not (text (value_of id) 128)) (dot path "value") "bounded nonempty value required"
    & fail_if (includes seen (stringify_pair (scheme_of id) (value_of id))) path
        "duplicate identifier"
    & fail_if (is_text (scheme_of id) (codes "gs1.gtin") && not (is_gtin (value_of id)))
        (dot path "value") "GTIN check digit or length invalid"
    & fail_if (is_sku id && ltb 0 skus) path "at most one sku: the company's own"

unfoldable pub check_product_ids : List Text → ℕ → ℕ → Items → Checked
unfolding check_identifier
check_product_ids seen skus i nil = pass
check_product_ids seen skus i (item v vs) = elim (identifier v) [
  | none ↦
      fail (at (codes "$.identifiers") i) "scheme and value required"
      & check_product_ids seen skus (suc i) vs
  | some id ↦
      check_identifier seen skus id (at (codes "$.identifiers") i)
      & check_product_ids (stringify_pair (scheme_of id) (value_of id) ∷ seen)
          (if is_sku id then suc skus else skus) (suc i) vs
]

unfoldable pub check_product_identifiers : Json → Checked
unfolding check_product_ids
check_product_identifiers v = elim (array 0 32 v) [
  | none ↦ fail (codes "$.identifiers") "at most 32 identifiers"
  | some ids ↦ check_product_ids [] 0 0 ids
]

unfoldable pub base_unit_ok : Json → Bool
base_unit_ok v = elim (exact_object v (codes "system" ∷ codes "code" ∷ [])) [
  | none ↦ false
  | some u ↦
      is_text (get u (codes "system")) (codes "ucum") && matches is_ucum (get u (codes "code"))
]

unfoldable pub packaging_members : Json → Option Members
packaging_members v =
    exact_object v
      (map codes ("packaging_id" ∷ "version" ∷ "name" ∷ "base_units_per_pack" ∷ "gtin" ∷ []))

unfoldable pub packaging_key : Members → Text
packaging_key p = stringify_pair (get p (codes "packaging_id")) (get p (codes "version"))

unfoldable pub check_packaging : List Text → Members → Text → Checked
unfolding packaging_key
check_packaging seen p path =
    fail_if
      (not (
        text (get p (codes "packaging_id")) 80
        && text (get p (codes "version")) 40
        && text (get p (codes "name")) 120))
      path "bounded packaging id, version and name required"
    & fail_if (includes seen (packaging_key p)) path "duplicate packaging version"
    & check_positive (get p (codes "base_units_per_pack")) (dot path "base_units_per_pack")
        "positive pack conversion required" "three-place decimal required"
    & fail_if (bad_unless_null (get p (codes "gtin")) (is_gtin (get p (codes "gtin"))))
        (dot path "gtin") "GTIN or null required"

-- `seen` holds the keys of the turns before.
unfoldable pub check_packagings : List Text → ℕ → Items → Checked
unfolding packaging_members check_packaging
check_packagings seen i nil = pass
check_packagings seen i (item v vs) = elim (packaging_members v) [
  | none ↦
      fail (at (codes "$.packaging") i) "exact packaging fields required"
      & check_packagings seen (suc i) vs
  | some p ↦
      check_packaging seen p (at (codes "$.packaging") i)
      & check_packagings (packaging_key p ∷ seen) (suc i) vs
]

unfoldable pub check_packaging_list : Json → Checked
unfolding check_packagings
check_packaging_list v = elim (array 0 32 v) [
  | none ↦ fail (codes "$.packaging") "at most 32 packaging revisions"
  | some ps ↦ check_packagings [] 0 ps
]

unfoldable pub product_members : Json → Option Members
product_members v = exact_object v (
    map codes (
      "names" ∷ "description" ∷ "brand" ∷ "category" ∷ "identifiers" ∷ "base_unit" ∷ "packaging"
      ∷ "tracking" ∷ "shelf_life_days" ∷ "replaces" ∷ "status" ∷ []))

unfoldable pub validate_product : Json → Checked
unfolding product_members check_optional check_product_identifiers base_unit_ok check_packaging_list
validate_product body = elim (product_members body) [
  | none ↦ fail (codes "$") "exact product fields required"
  | some b ↦
      check_name_list (get b (codes "names"))
      & check_optional b "description" 4000
      & check_optional b "brand" 200
      & check_optional b "category" 200
      & check_product_identifiers (get b (codes "identifiers"))
      & fail_if (not (base_unit_ok (get b (codes "base_unit")))) (codes "$.base_unit")
          "UCUM base unit required"
      & check_packaging_list (get b (codes "packaging"))
      & fail_if
          (not (one_of (map codes ("none" ∷ "lot" ∷ "serial" ∷ [])) (get b (codes "tracking"))))
          (codes "$.tracking") "none, lot or serial required"
      & fail_if
          (bad_unless_null (get b (codes "shelf_life_days"))
            (integer_within 1 max_shelf_life_days (get b (codes "shelf_life_days"))))
          (codes "$.shelf_life_days") "positive day count or null required"
      & fail_if
          (bad_unless_null (get b (codes "replaces")) (matches uuid (get b (codes "replaces"))))
          (codes "$.replaces") "replaced product root or null required"
      & fail_if (not (one_of (codes "active" ∷ codes "discontinued" ∷ []) (get b (codes "status"))))
          (codes "$.status") "active or discontinued required"
]
