-- ===== src/Canonical.antt =====
-- sdk/src/canonical.ts: canonical JSON text (RFC 8785 restricted to integer numbers). A value is what
-- JavaScript hands to `canonicalize`; an object is the list of its members in their own order.
pub mod Order
mod Tests
use Prim.Native.Nat.{compare, Ordering}
use direct_trade_protocol.Prelude.{
  ℕ, zero, suc, ◌+◌, ◌-◌, ◌/◌, ◌%◌, ◌^◌, Bool, true, false, not, ◌&&◌, ◌||◌, List, [], ◌∷◌, ◌++◌,
  ltb, leb, ◌==◌, if◌then◌else◌, any, Result, ok, err, ◌>>=◌, ◌>>◌, refuse, Text, codes,
}
use direct_trade_protocol.Prelude.Int.{ℤ, abs, is_negative}
use direct_trade_protocol.Decimal.{to_digits, sign_prefix}

-- `num` is an integer; `fractional` stands for every number that is no integer (NaN and the
-- infinities too), `unsupported` for a bigint, a function or a symbol.
mutual
  pub data Json : Type 0 where
    null undefined fractional unsupported : Json
    bool : Bool → Json
    num : ℤ → Json
    str : Text → Json
    arr : Items → Json
    obj : Members → Json

  pub data Items : Type 0 where
    nil : Items
    item : Json → Items → Items

  pub data Members : Type 0 where
    end : Members
    member : Text → Json → Members → Members

-- `FloatNotAllowedError`, and the four messages of `CanonicalizationError`.
pub data CanonicalError : Type 0 where
  float_not_allowed lone_surrogate unsafe_name unsupported_type : CanonicalError

abbrev pub max_safe : ℕ
max_safe = 9007199254740991

-- `Number.isInteger` holds of a `num`, so its size is left to check.
unfoldable pub check_number : ℤ → Result CanonicalError (Unit {0})
check_number n = refuse (ltb max_safe (abs n)) float_not_allowed

abbrev pub is_high : ℕ → Bool
is_high c = leb 0xd800 c && leb c 0xdbff

abbrev pub is_low : ℕ → Bool
is_low c = leb 0xdc00 c && leb c 0xdfff

-- `LONE_SURROGATE`: a high surrogate not followed by a low one, or a low one not preceded by a
-- high one. The flag says whether the unit before was high.
unfoldable pub has_lone_surrogate : Bool → Text → Bool
has_lone_surrogate after_high [] = after_high
has_lone_surrogate true (c ∷ s) = not (is_low c) || has_lone_surrogate false s
has_lone_surrogate false (c ∷ s) = is_low c || has_lone_surrogate (is_high c) s

unfoldable pub check_string : Text → Result CanonicalError (Unit {0})
unfolding has_lone_surrogate
check_string s = refuse (has_lone_surrogate false s) lone_surrogate

abbrev pub needs_escape : ℕ → Bool
needs_escape c = c == 0x22 || c == 0x5c || ltb c 0x20

unfoldable pub check_name : Text → Result CanonicalError (Unit {0})
check_name name = refuse (any needs_escape name) unsafe_name

-- `JSON.stringify` of a well-formed string.
abbrev pub hex_digit : ℕ → ℕ
hex_digit n = if ltb n 10 then b'0' + n else b'a' + (n - 10)

unfoldable pub escape : ℕ → Text
escape c =
    if c == 0x22
    then codes "\\\""
    else if c == 0x5c
    then codes "\\\\"
    else if c == 8
    then codes "\\b"
    else if c == 9
    then codes "\\t"
    else if c == 10
    then codes "\\n"
    else if c == 12
    then codes "\\f"
    else if c == 13
    then codes "\\r"
    else if ltb c 0x20
    then codes "\\u00" ++ hex_digit (c / 16) ∷ hex_digit (c % 16) ∷ []
    else c ∷ []

pub escape_all : Text → Text
escape_all [] = []
escape_all (c ∷ s) = escape c ++ escape_all s

unfoldable pub quote : Text → Text
unfolding escape escape_all
quote s = 0x22 ∷ escape_all s ++ 0x22 ∷ []

-- `compareKeys(a, b) < 0`: by UTF-16 code units.
unfoldable pub before : Text → Text → Bool
before s [] = false
before [] (b ∷ t) = true
before (a ∷ s) (b ∷ t) = elim (compare a b) [
  | Ordering.lt ↦ true
  | Ordering.eq ↦ before s t
  | Ordering.gt ↦ false
]

-- A member of an object with what its serialisation returns or throws.
abbrev pub Part : Type 0
Part = Text × Result CanonicalError Text

-- The member's place among the members sorted by name.
unfoldable pub place : Part → List Part → List Part
unfolding before
place p [] = p ∷ []
place p (q ∷ ps) = let rest = q ∷ place p ps in if before q.0 p.0 then rest else p ∷ q ∷ ps

-- One turn of the loop over the sorted keys.
part_text : Part → Result CanonicalError Text
unfolding check_string check_name quote
part_text (k, r) = do check_string k; check_name k; t ← r; ok (quote k ++ b':' ∷ t)

-- `parts.join(',')`, throwing what the first part to throw throws.
unfoldable pub join : List Part → Result CanonicalError Text
unfolding part_text
join [] = ok []
join (p ∷ []) = part_text p
join (p ∷ q ∷ ps) = do t ← part_text p; rest ← join (q ∷ ps); ok (t ++ b',' ∷ rest)

abbrev pub bool_text : Bool → Text
bool_text true = codes "true"
bool_text false = codes "false"

abbrev pub int_text : ℤ → Text
int_text n = sign_prefix (is_negative n) ++ to_digits (abs n)

abbrev pub list_text : Items → Text → Text
list_text nil rest = []
list_text (item v vs) rest = b',' ∷ rest

unfoldable mutual
  unfolding check_number check_string quote place join to_digits

  pub serialize : Json → Result CanonicalError Text
  serialize null = ok (codes "null")
  serialize undefined = ok (codes "null")
  serialize fractional = err float_not_allowed
  serialize unsupported = err unsupported_type
  serialize (bool b) = ok (bool_text b)
  serialize (num n) = do check_number n; ok (int_text n)
  serialize (str s) = do check_string s; ok (quote s)
  serialize (arr vs) = do t ← serialize_items vs; ok (b'[' ∷ t ++ b']' ∷ [])
  serialize (obj ms) = do t ← join (sorted_parts ms); ok (b'{' ∷ t ++ b'}' ∷ [])

  pub serialize_items : Items → Result CanonicalError Text
  serialize_items nil = ok []
  serialize_items (item v vs) = do
    t ← serialize v
    rest ← serialize_items vs
    ok (t ++ list_text vs rest)

  -- The members whose value is not undefined, serialised, in the order of their names.
  pub sorted_parts : Members → List Part
  sorted_parts end = []
  sorted_parts (member k undefined ms) = sorted_parts ms
  sorted_parts (member k v ms) = place (k, serialize v) (sorted_parts ms)

unfoldable pub canonicalize : Json → Result CanonicalError Text
unfolding serialize serialize_items sorted_parts
canonicalize v = serialize v
