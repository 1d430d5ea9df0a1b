-- ===== src/Profiles/Product/Versions/Kept.antt =====
-- What every chain of accepted versions of a product keeps.
use mathlib.Core.List.{Memᴰ}
use mathlib.Core.List.Memᴰ.{head, tail}
use direct_trade_protocol.Prelude.{
  ℕ, suc, ◌≡◌, refl, sym, ap, ◌∙◌, true, Option, none, some, List, [], ◌∷◌, Text, ===_iff, ok,
  >>=-elim, Bool-cases, Option-cases, inl, inr, and-true, arith,
}
use direct_trade_protocol.Profiles.Issues.{pass, &_elim, fail_unless-pass, canonical}
use direct_trade_protocol.Profiles.Product.Versions.{
  Tracking, Packaging, ProductBody, unit_json, same_tracking, same_root, same_key, published,
  contents, check_published, check_packagings, check_product_continuity,
}

-- The list has a packaging of that id and version whose contents have that canonical text.
pub record HasVersion (pack edition text : Text) (ps : List Packaging) : Type 0 where
  pub packaging : Packaging
  pub listed : Memᴰ packaging ps
  pub id : packaging.packaging_id ≡ pack
  pub version : packaging.version ≡ edition
  pub contents : contents packaging ≡ ok text

-- What the map holds under a key is an entry of the list with that key.
published-listed :
    (qs : List Packaging) (p found : Packaging)
    → published qs p ≡ some found
    → Memᴰ found qs × (same_key found p ≡ true)
unfolding published
published-listed [] p found h = absurd (cc h)
published-listed (q ∷ qs) p found h = elim (Option-cases (published qs p)) [
  | inr (other, later) ↦
      let shown = rw (later, published) at h in
      let same : other ≡ found = cc shown in
      let (place, key) = published-listed qs p found (later ∙ ap some same) in (tail place, key)
  | inl missing ↦
      let shown = rw (missing, published) at h in
      elim (Bool-cases (same_key q p)) [
        | inl key ↦
            let hit = rw key at shown in
            let same : q ≡ found = cc hit in
            (head (sym same), ap (λ x. same_key x p) (sym same) ∙ key)
        | inr other ↦ let miss = rw other at shown in absurd (cc miss)
      ]
]

check_published-same :
    (found : Option Packaging) (p : Packaging) (path : Text)
    → check_published found p path ≡ pass
    → (q : Packaging) × (found ≡ some q) × (contents q ≡ contents p)
unfolding check_published
check_published-same none p path h = absurd (cc h)
check_published-same (some q) p path h = >>=-elim (contents q) _ h λ a read h1.
    >>=-elim (contents p) _ h1 λ b written h2.
      (q, refl, read ∙ ap ok ((===_iff a b).0 (fail_unless-pass _ _ _ h2)) ∙ sym written)

check_packagings-HasVersion :
    (later : List Packaging) (i : ℕ) (ps : List Packaging) (pack edition text : Text)
    → check_packagings later i ps ≡ pass
    → HasVersion pack edition text ps
    → HasVersion pack edition text later
unfolding check_packagings same_key
check_packagings-HasVersion later i [] id version text h has = elim has.listed [ ]
check_packagings-HasVersion later i (p ∷ ps) id version text h has = &_elim _ _ h λ first rest.
    elim has.listed [
      | head here ↦
          let (q, found, same) = check_published-same _ p _ first in
          let (place, key) = published-listed later p q found in
          let (ids, versions) = and-true _ _ key in
          record {
            packaging = q;
            listed = place;
            id =
                (===_iff q.packaging_id p.packaging_id).0 ids
                ∙ ap (λ x. x.packaging_id) (sym here)
                ∙ has.id;
            version =
                (===_iff q.version p.version).0 versions
                ∙ ap (λ x. x.version) (sym here)
                ∙ has.version;
            contents = same ∙ ap (λ x. contents x) (sym here) ∙ has.contents;
          }
      | tail there ↦ check_packagings-HasVersion later (suc i) ps id version text rest record {
        packaging = has.packaging;
        listed = there;
        id = has.id;
        version = has.version;
        contents = has.contents;
      }
    ]

-- What a product keeps of an earlier version.
pub record Kept (old new : ProductBody) : Type 0 where
  pub base_unit : canonical (unit_json old.unit_code) ≡ canonical (unit_json new.unit_code)
  pub tracking : old.tracking ≡ new.tracking
  pub replaces : old.replaces ≡ new.replaces

same_tracking-eq : (s t : Tracking) → same_tracking s t ≡ true → s ≡ t
same_tracking-eq s t h = ground arith

same_root-eq : (p q : Option Text) → same_root p q ≡ true → p ≡ q
same_root-eq none none h = refl
same_root-eq (some a) (some b) h = ap some ((===_iff a b).0 h)
same_root-eq none (some b) h = absurd (cc h)
same_root-eq (some a) none h = absurd (cc h)

-- What one supersession keeps, and what it finds for the published packaging.
continuity-parts :
    (old new : ProductBody)
    → check_product_continuity old new ≡ pass
    → Kept old new × (check_packagings new.packaging 0 old.packaging ≡ pass)
unfolding check_product_continuity
continuity-parts old new h = &_elim _ _ h λ units h1. &_elim _ _ h1 λ tracking h2.
    &_elim _ _ h2 λ replaces packaging.
      >>=-elim (canonical (unit_json old.unit_code)) _ units λ a read h3.
        >>=-elim (canonical (unit_json new.unit_code)) _ h3 λ b written h4. (
          record {
            base_unit = read ∙ ap ok ((===_iff a b).0 (fail_unless-pass _ _ _ h4)) ∙ sym written;
            tracking = same_tracking-eq old.tracking new.tracking (fail_unless-pass _ _ _ tracking);
            replaces = same_root-eq old.replaces new.replaces (fail_unless-pass _ _ _ replaces);
          },
          packaging,
        )

-- Products that accepted versions lead to, one after the other.
pub data Versions : ProductBody → ProductBody → Type 0 where
  unchanged : {a : ProductBody} → Versions a a
  superseded :
      {a b c : ProductBody} → Versions a b → check_product_continuity b c ≡ pass → Versions a c

-- Along every chain of versions in which the continuity check finds no issue, the canonical text
-- of the base unit, the tracking and the replaced product stay as they were.
pub Versions-Kept : {a b : ProductBody} → Versions a b → Kept a b
Versions-Kept (unchanged {a}) = record { base_unit = refl; tracking = refl; replaces = refl }
Versions-Kept (superseded {a} {b} {c} chain h) =
    let first = Versions-Kept chain in
    let (last, _) = continuity-parts b c h in
    record {
      base_unit = first.base_unit ∙ last.base_unit;
      tracking = first.tracking ∙ last.tracking;
      replaces = first.replaces ∙ last.replaces;
    }

-- Along every chain of versions in which the continuity check finds no issue, a packaging
-- version that a product has published is there in every later version of the product, under the
-- same id and version, and the canonical text of its name, its conversion and its GTIN is the
-- same.
pub Versions-HasVersion :
    {a b : ProductBody} (pack edition text : Text)
    → Versions a b
    → HasVersion pack edition text a.packaging
    → HasVersion pack edition text b.packaging
Versions-HasVersion pack edition text (unchanged {a}) has = has
Versions-HasVersion pack edition text (superseded {a} {b} {c} chain h) has =
    let (_, packaging) = continuity-parts b c h in
    check_packagings-HasVersion c.packaging 0 b.packaging pack edition text packaging
      (Versions-HasVersion pack edition text chain has)
