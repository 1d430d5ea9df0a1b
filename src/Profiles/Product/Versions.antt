-- ===== src/Profiles/Product/Versions.antt =====
-- checkProductContinuity of sdk/src/profiles/product.ts, on bodies that have passed validateProduct:
-- the members that it reads.
pub mod Kept
use direct_trade_protocol.Prelude.{
  ℕ, suc, Bool, true, false, not, ◌&&◌, Option, none, some, List, [], ◌∷◌, Text, codes, ◌===◌, ok,
  ◌>>=◌, if◌then◌else◌, Result,
}
use direct_trade_protocol.Canonical.{Json, null, str, arr, nil, item, obj, end, member}
use direct_trade_protocol.Profiles.Issues.{
  ProfileError, Checked, pass, fail, fail_if, ◌&◌, canonical, at,
}

pub data Tracking : Type 0 where
  untracked lot serial : Tracking

-- `version` of a packaging is the published version of a `packaging_id`.
pub record Packaging : Type 0 where
  pub packaging_id : Text
  pub version : Text
  pub name : Text
  pub base_units_per_pack : Text
  pub gtin : Option Text

pub record ProductBody : Type 0 where
  pub unit_code : Text
  pub tracking : Tracking
  pub replaces : Option Text
  pub packaging : List Packaging

abbrev pub unit_json : Text → Json
unit_json code =
    obj (member (codes "system") (str (codes "ucum")) (member (codes "code") (str code) end))

abbrev pub same_tracking : Tracking → Tracking → Bool
same_tracking untracked untracked = true
same_tracking lot lot = true
same_tracking serial serial = true
same_tracking _ _ = false

abbrev pub same_root : Option Text → Option Text → Bool
same_root none none = true
same_root (some a) (some b) = a === b
same_root _ _ = false

-- The keys `JSON.stringify([p.packaging_id, p.version])` are the same: two pairs of texts print
-- alike only when they are equal.
unfoldable pub same_key : Packaging → Packaging → Bool
same_key p q = p.packaging_id === q.packaging_id && p.version === q.version

-- `later.get(key(p))` of the map made from the list, where a later entry replaces an earlier one
unfoldable pub published : List Packaging → Packaging → Option Packaging
unfolding same_key
published [] p = none
published (q ∷ qs) p = elim (published qs p) [
  | some found ↦ some found
  | none ↦ if same_key q p then some q else none
]

abbrev pub gtin_json : Option Text → Json
gtin_json none = null
gtin_json (some s) = str s

-- `canonicalize([p.name, p.base_units_per_pack, p.gtin])`
unfoldable pub contents : Packaging → Result ProfileError Text
contents p =
    canonical
      (arr (item (str p.name) (item (str p.base_units_per_pack) (item (gtin_json p.gtin) nil))))

unfoldable pub check_published : Option Packaging → Packaging → Text → Checked
unfolding contents
check_published none p path = fail path "a published packaging version cannot be removed"
check_published (some same) p path = do
  a ← contents same
  b ← contents p
  fail_if (not (a === b)) path "a published packaging version is immutable; publish a new version"

unfoldable pub check_packagings : List Packaging → ℕ → List Packaging → Checked
unfolding published check_published
check_packagings later i [] = pass
check_packagings later i (p ∷ ps) =
    check_published (published later p) p (at (codes "$.packaging") i)
    & check_packagings later (suc i) ps

unfoldable pub check_product_continuity : ProductBody → ProductBody → Checked
unfolding check_packagings
check_product_continuity previous next =
    (do
      a ← canonical (unit_json previous.unit_code)
      b ← canonical (unit_json next.unit_code)
      fail_if (not (a === b)) (codes "$.base_unit")
          "base unit is immutable; a change is a new product")
    & fail_if (not (same_tracking previous.tracking next.tracking)) (codes "$.tracking")
        "tracking is immutable; a change is a new product"
    & fail_if (not (same_root previous.replaces next.replaces)) (codes "$.replaces")
        "the replaced product is immutable"
    & check_packagings next.packaging 0 previous.packaging
