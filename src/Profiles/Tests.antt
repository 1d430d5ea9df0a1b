-- ===== src/Profiles/Tests.antt =====
-- Runs of the check digits, and of the versions of a product and the revisions of an object.
use mathlib.Core.List.Memᴰ.{head}
use direct_trade_protocol.Prelude.{
  ◌≡◌, refl, List, [], ◌∷◌, ◌++◌, All, Text, codes, ok, none, true, false, arith,
}
use direct_trade_protocol.Profiles.Issues.{pass, issue}
use direct_trade_protocol.Profiles.Runs.{profile_runs}
use direct_trade_protocol.Profiles.CheckDigit.{gtin}
use direct_trade_protocol.Profiles.CheckDigit.Errors.{gtin-single}
use direct_trade_protocol.Profiles.Identifiers.{Identifier}
use direct_trade_protocol.Profiles.Object.{active, ObjectBody, check_object_continuity}
use direct_trade_protocol.Profiles.Object.Found.{HasSame, unrevised, revised, Revised-HasSame}
use direct_trade_protocol.Profiles.Product.Versions.{
  lot, Packaging, ProductBody, contents, check_product_continuity,
}
use direct_trade_protocol.Profiles.Product.Versions.Kept.{
  HasVersion, unchanged, superseded, Versions-HasVersion,
}

gtin_passes : gtin (codes "400638133393" ++ b'1' ∷ []) ≡ true
unfolding gtin profile_runs
gtin_passes = refl

gtin-single_example : gtin (codes "400638133393" ++ b'7' ∷ []) ≡ false
gtin-single_example =
    gtin-single (codes "400638133393") b'1' b'7' [] gtin_passes (λ e. omega (arith, e))

abbrev box : Text → Packaging
box edition = record {
  packaging_id = codes "box";
  version = edition;
  name = codes "Box of ten";
  base_units_per_pack = codes "10";
  gtin = none;
}

abbrev apples : List Packaging → ProductBody
apples packaging = record {
  unit_code = codes "kg";
  tracking = lot;
  replaces = none;
  packaging = packaging;
}

abbrev one_box : ProductBody
one_box = apples (box (codes "1") ∷ [])

abbrev two_boxes : ProductBody
two_boxes = apples (box (codes "2") ∷ box (codes "1") ∷ [])

publishing :
    (check_product_continuity one_box two_boxes ≡ pass)
    × (check_product_continuity two_boxes one_box
        ≡ ok (
            issue (codes "$.packaging[0]") (codes "a published packaging version cannot be removed")
            ∷ []))
unfolding check_product_continuity profile_runs
publishing = (refl, refl)

abbrev box_text : Text
box_text = codes "[\"Box of ten\",\"10\",null]"

box_contents : contents (box (codes "1")) ≡ ok box_text
unfolding contents profile_runs
box_contents = refl

Versions-HasVersion_example : HasVersion (codes "box") (codes "1") box_text two_boxes.packaging
Versions-HasVersion_example =
    Versions-HasVersion {a = one_box} {b = two_boxes} (codes "box") (codes "1") box_text
      (superseded {b = one_box} unchanged publishing.0)
      record {
        packaging = box (codes "1");
        listed = head refl;
        id = refl;
        version = refl;
        contents = box_contents;
      }

abbrev truck : List Identifier → ObjectBody
truck identifiers = record {
  class_name = codes "dtp/vehicle";
  label = none;
  identifiers = identifiers;
  status = active;
  evidence = [];
}

abbrev plate : Identifier
plate = (codes "plate", codes "AB 12")

abbrev one_plate : ObjectBody
one_plate = truck (plate ∷ [])

abbrev two_plates : ObjectBody
two_plates = truck ((codes "plate", codes "CD 34") ∷ plate ∷ [])

plating :
    (check_object_continuity one_plate two_plates ≡ pass)
    × (check_object_continuity two_plates one_plate
        ≡ ok (issue (codes "$.identifiers") (codes "identifiers may be added, never removed") ∷ []))
unfolding check_object_continuity profile_runs
plating = (refl, refl)

Revised-HasSame_example :
    (one_plate.class_name ≡ two_plates.class_name)
    × All (HasSame two_plates.identifiers) one_plate.identifiers
Revised-HasSame_example =
    Revised-HasSame {a = one_plate} {b = two_plates} (revised {b = one_plate} unrevised plating.0)
