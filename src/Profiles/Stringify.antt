-- ===== src/Profiles/Stringify.antt =====
-- JSON.stringify, as sdk/src/profiles/product.ts uses it to make a key of two values.
use direct_trade_protocol.Prelude.{
  ℕ, ◌/◌, ◌%◌, Bool, true, false, ◌&&◌, ◌||◌, [], ◌∷◌, ◌++◌, if◌then◌else◌, Text, codes,
}
use direct_trade_protocol.Decimal.{to_digits}
use direct_trade_protocol.Canonical.{
  Json, null, undefined, fractional, unsupported, bool, num, str, arr, obj, Items, nil, item,
  Members, end, member, escape, hex_digit, is_high, is_low, bool_text, int_text, list_text,
}

-- A lone surrogate is escaped.
abbrev escape_code : ℕ → Text
escape_code c =
    codes "\\u"
    ++ hex_digit (c / 4096)
      ∷ hex_digit (c / 256 % 16)
      ∷ hex_digit (c / 16 % 16)
      ∷ hex_digit (c % 16)
      ∷ []

abbrev low_next : Text → Bool
low_next [] = false
low_next (c ∷ s) = is_low c

-- The flag says whether the unit before was a high surrogate with this low one.
unfoldable pub stringify_units : Bool → Text → Text
unfolding escape
stringify_units after_high [] = []
stringify_units true (c ∷ s) = c ∷ stringify_units false s
stringify_units false (c ∷ s) =
    let pair = is_high c && low_next s in
    (if pair then c ∷ [] else if is_high c || is_low c then escape_code c else escape c)
    ++ stringify_units pair s

unfoldable pub stringify_text : Text → Text
unfolding stringify_units
stringify_text s = 0x22 ∷ stringify_units false s ++ 0x22 ∷ []

-- The text between the members of an object, once some have been written.
abbrev comma : Bool → Text
comma true = b',' ∷ []
comma false = []

-- A body holds no fractional number and no unsupported value; they would print as null here.
unfoldable mutual
  unfolding stringify_text to_digits

  pub stringify : Json → Text
  stringify null = codes "null"
  stringify undefined = codes "null"
  stringify fractional = codes "null"
  stringify unsupported = codes "null"
  stringify (bool b) = bool_text b
  stringify (num n) = int_text n
  stringify (str s) = stringify_text s
  stringify (arr vs) = b'[' ∷ stringify_items vs ++ b']' ∷ []
  stringify (obj ms) = b'{' ∷ stringify_members false ms ++ b'}' ∷ []

  pub stringify_items : Items → Text
  stringify_items nil = []
  stringify_items (item v vs) = stringify v ++ list_text vs (stringify_items vs)

  pub stringify_members : Bool → Members → Text
  stringify_members later end = []
  stringify_members later (member k undefined ms) = stringify_members later ms
  stringify_members later (member k v ms) =
      comma later ++ stringify_text k ++ b':' ∷ stringify v ++ stringify_members true ms

-- `JSON.stringify([v, w])`
unfoldable pub stringify_pair : Json → Json → Text
unfolding stringify stringify_items
stringify_pair v w = stringify (arr (item v (item w nil)))
