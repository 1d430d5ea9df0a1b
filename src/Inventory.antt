-- ===== src/Inventory.antt =====
-- sdk/src/profiles/inventory.ts: the reducer of the stock pool profile dtp.inventory/1.
-- The digest (sdk/src/sha256.ts) and JavaScript's Date are parameters. Values have their declared
-- types; members that no type declares are kept beside a value, as `undeclared`.
pub mod Reducer
pub mod Sums
pub mod Stock
pub mod Frame
pub mod First
pub mod Replay
pub mod Sound
mod Tests
use direct_trade_protocol.Prelude.{
  ℕ, zero, suc, ◌+◌, ◌-◌, ◌*◌, ◌/◌, ◌%◌, ◌≡◌, Bool, true, false, not, ◌&&◌, ◌||◌, Option, none,
  some, List, [], ◌∷◌, ◌++◌, ltb, leb, ◌==◌, if◌then◌else◌, is_some, length, take, all, Result, ok,
  err, ◌>>=◌, ◌>>◌, demand, refuse, Text, codes, ◌===◌, includes,
}
use direct_trade_protocol.Prelude.Int.{
  ℤ, pos, negsuc, signed, abs, is_negative, is_zero, ltb_ℤ, ◌+ℤ◌, ◌-ℤ◌, ◌*ℤ◌,
}
use direct_trade_protocol.Prelude.Assoc.{Assoc, lookup, has, insert, remove, values}
use direct_trade_protocol.Canonical.{
  Json, num, str, arr, obj, Items, nil, item, Members, end, member, CanonicalError, max_safe,
  canonicalize,
}
use direct_trade_protocol.Decimal.{DecimalError, is_digit, parse_decimal, format_decimal}

pub record PackagingRevision : Type 0 where
  pub company_id : Text
  pub product_id : Text
  pub packaging_id : Text
  pub version : Text
  pub base_unit : Text
  pub pack_unit : Text
  pub base_units_per_pack : Text
  pub undeclared : Members

pub record PackagingPin : Type 0 where
  pub packaging_id : Text
  pub version : Text
  pub digest : Text
  pub undeclared : Members

-- The constant member `profile` is left out.
pub record InventoryState : Type 0 where
  pub company_id : Text
  pub pool_id : Text
  pub product_id : Text
  pub base_unit : Text
  pub revision : ℕ
  pub on_hand : Text
  pub reservations : Assoc Text
  pub packaging : Assoc PackagingRevision
  pub observations : Assoc Text

pub record Measure : Type 0 where
  pub quantity : Text
  pub unit : Text
  pub packaging_pin : Option PackagingPin

pub data Movement : Type 0 where
  receive adjust : (reason : Option Text) → Movement
  reserve release fulfill : (reservation_id : Text) → Movement

pub data EventKind : Type 0 where
  packaging : PackagingRevision → EventKind
  movement : Measure → Movement → EventKind

pub record InventoryEvent : Type 0 where
  pub company_id : Text
  pub pool_id : Text
  pub source_id : Text
  pub observation_id : Text
  pub expected_revision : ℤ
  pub occurred_at : Text
  pub kind : EventKind
  pub undeclared : Members

pub data InventoryIssue : Type 0 where
  invalid wrong_scope observation_conflict revision_conflict packaging_conflict : InventoryIssue
  unknown_packaging unit_mismatch insufficient_stock insufficient_reservation : InventoryIssue

-- `InventoryResult`, without the texts of the messages.
pub data InventoryResult : Type 0 where
  accepted : (duplicate : Bool) → InventoryState → InventoryResult
  refused : InventoryIssue → InventoryState → InventoryResult

abbrev pub units : List Text
units =
    codes "lb"
    ∷ codes "kg"
    ∷ codes "oz"
    ∷ codes "ton"
    ∷ codes "case"
    ∷ codes "pallet"
    ∷ codes "unit"
    ∷ []

abbrev pub identity : Text → Bool
identity s = ltb 0 (length s) && leb (length s) 200

abbrev pub no_members : Members → Bool
no_members end = true
no_members (member k v ms) = false

-- What the reducer calls that is not part of this development: the digest of a text, and
-- `new Date(text).toISOString()`, `none` where `Date.parse` is not finite.
pub record Platform : Type 0 where
  pub sha256_hex : Text → Text
  pub iso_instant : Text → Option Text

-- A throw inside the reducer is caught and reported as `invalid`.
abbrev pub caught {ι} : {E : Type ι} {A : Type 0} → Result E A → Result InventoryIssue A
caught (ok a) = ok a
caught (err e) = err invalid

-- The pattern `/^\d{4}-\d{2}-\d{2}T\d{2}:\d{2}:\d{2}(?:\.\d{1,6})?Z$/`, by a template of its first
-- 19 units in which `d` stands for a digit.
unfoldable pub template : Text → Text → Option Text
template [] s = some s
template (t ∷ ts) [] = none
template (t ∷ ts) (c ∷ s) =
    let rest = template ts s in if (if t == b'd' then is_digit c else c == t) then rest else none

-- Digits, then the letter Z at the end.
digits_then_z : Text → Bool
digits_then_z [] = false
digits_then_z (c ∷ []) = c == b'Z'
digits_then_z (c ∷ d ∷ s) = is_digit c && digits_then_z (d ∷ s)

timestamp_tail : Text → Bool
timestamp_tail [] = false
timestamp_tail (c ∷ s) =
    if c == b'.'
    then ltb 1 (length s) && leb (length s) 7 && digits_then_z s
    else c == b'Z' && leb (length s) 0

unfoldable pub timestamp_shape : Text → Bool
unfolding template timestamp_tail digits_then_z
timestamp_shape s = elim (template (codes "dddd-dd-ddTdd:dd:dd") s) [
  | none ↦ false
  | some rest ↦ timestamp_tail rest
]

-- `/^[0-9a-f]{64}$/`
is_hex : ℕ → Bool
is_hex c = is_digit c || (leb b'a' c && leb c b'f')

unfoldable pub is_digest : Text → Bool
unfolding is_hex
is_digest s = length s == 64 && all is_hex s

append_members : Members → Members → Members
append_members end ms = ms
append_members (member k v ns) ms = member k v (append_members ns ms)

-- The values that are hashed, as JSON.
packaging_json : PackagingRevision → Json
unfolding append_members
packaging_json p = obj (
    member (codes "company_id") (str p.company_id) (
      member (codes "product_id") (str p.product_id) (
        member (codes "packaging_id") (str p.packaging_id) (
          member (codes "version") (str p.version) (
            member (codes "base_unit") (str p.base_unit) (
              member (codes "pack_unit") (str p.pack_unit) (
                member (codes "base_units_per_pack") (str p.base_units_per_pack) p.undeclared)))))))

pin_member : Option PackagingPin → Members → Members
pin_member none ms = ms
pin_member (some p) ms =
    member (codes "packaging_pin")
      (obj (
        member (codes "packaging_id") (str p.packaging_id) (
          member (codes "version") (str p.version)
            (member (codes "digest") (str p.digest) p.undeclared))))
      ms

measure_members : Measure → Members → Members
unfolding pin_member
measure_members m ms =
    member (codes "quantity") (str m.quantity)
      (member (codes "unit") (str m.unit) (pin_member m.packaging_pin ms))

reason_member : Option Text → Members
reason_member none = end
reason_member (some r) = member (codes "reason") (str r) end

movement_kind : Movement → Text
movement_kind (receive r) = codes "receive"
movement_kind (adjust r) = codes "adjust"
movement_kind (reserve id) = codes "reserve"
movement_kind (release id) = codes "release"
movement_kind (fulfill id) = codes "fulfill"

movement_members : Movement → Members
unfolding reason_member
movement_members (receive r) = reason_member r
movement_members (adjust r) = reason_member r
movement_members (reserve id) = member (codes "reservation_id") (str id) end
movement_members (release id) = member (codes "reservation_id") (str id) end
movement_members (fulfill id) = member (codes "reservation_id") (str id) end

kind_members : EventKind → Members
unfolding packaging_json measure_members movement_kind movement_members
kind_members (packaging p) =
    member (codes "kind") (str (codes "packaging"))
      (member (codes "packaging") (packaging_json p) end)
kind_members (movement m v) =
    member (codes "kind") (str (movement_kind v)) (measure_members m (movement_members v))

unfoldable pub event_json : InventoryEvent → Json
unfolding kind_members append_members
event_json e = obj (
    member (codes "company_id") (str e.company_id) (
      member (codes "pool_id") (str e.pool_id) (
        member (codes "source_id") (str e.source_id) (
          member (codes "observation_id") (str e.observation_id) (
            member (codes "expected_revision") (num e.expected_revision) (
              member (codes "occurred_at") (str e.occurred_at)
                (append_members (kind_members e.kind) e.undeclared)))))))

abbrev text_items : List Text → Items
text_items [] = nil
text_items (t ∷ ts) = item (str t) (text_items ts)

unfoldable pub create_inventory_state : Text → Text → Text → Text → Option InventoryState
create_inventory_state company pool product base =
    if not (identity company && identity pool && identity product) || not (includes units base)
    then none
    else some record {
      company_id = company;
      pool_id = pool;
      product_id = product;
      base_unit = base;
      revision = 0;
      on_hand = codes "0";
      reservations = [];
      packaging = [];
      observations = [];
    }

module _ (platform : Platform) where
  open platform use {sha256_hex, iso_instant}

  unfoldable pub hash : Json → Result CanonicalError Text
  hash v = do t ← canonicalize v; ok (sha256_hex t)

  unfoldable pub inventory_key : List Text → Result CanonicalError Text
  unfolding hash
  inventory_key parts = hash (arr (text_items parts))

  unfoldable pub packaging_digest : PackagingRevision → Result CanonicalError Text
  unfolding hash packaging_json
  packaging_digest p = hash (
      obj (
        member (codes "profile") (str (codes "dtp.packaging/1"))
          (member (codes "packaging") (packaging_json p) end)))

  -- The timestamp is well formed and is the instant that it names, to the second.
  unfoldable pub real_timestamp : Text → Bool
  unfolding timestamp_shape template timestamp_tail digits_then_z
  real_timestamp t =
      timestamp_shape t
      && elim (iso_instant t) [ none ↦ false | some iso ↦ take 19 iso === take 19 t ]
