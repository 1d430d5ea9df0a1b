-- ===== src/Profiles/Shapes.antt =====
-- The tests on one unknown value that the files of sdk/src/profiles repeat: isObject, exact, text,
-- uuidOrNull, and the patterns. Bodies hold no fractional number.
use direct_trade_protocol.Prelude.{
  ℕ, suc, Bool, false, not, ◌&&◌, ◌||◌, Option, none, some, List, [], ◌∷◌, ltb, leb, ◌==◌,
  if◌then◌else◌, Text, ◌===◌, includes, all, any, length,
}
use direct_trade_protocol.Prelude.Int.{pos, abs, ltb_ℤ}
use direct_trade_protocol.Decimal.{is_digit}
use direct_trade_protocol.Canonical.{
  Json, str, num, arr, obj, Items, nil, item, Members, end, member, max_safe,
}
use direct_trade_protocol.Store.Transitions.{is_null}
use direct_trade_protocol.Authority.Charter.{uuid}

abbrev pub count_members : Members → ℕ
count_members end = 0
count_members (member k v ms) = suc (count_members ms)

unfoldable pub has_own : Members → Text → Bool
has_own end k = false
has_own (member j v ms) k = j === k || has_own ms k

-- `exact(v, keys)`
unfoldable pub exact : Members → List Text → Bool
unfolding has_own
exact ms keys = count_members ms == length keys && all (has_own ms) keys

-- The members of `v`, when `isObject(v) && exact(v, keys)`.
unfoldable pub exact_object : Json → List Text → Option Members
unfolding exact
exact_object (obj ms) keys = if exact ms keys then some ms else none
exact_object v keys = none

abbrev pub count_items : Items → ℕ
count_items nil = 0
count_items (item v vs) = suc (count_items vs)

-- The items of `v`, when it is an array of `least` to `most` of them.
unfoldable pub array : ℕ → ℕ → Json → Option Items
array least most (arr vs) =
    if leb least (count_items vs) && leb (count_items vs) most then some vs else none
array least most v = none

-- White space and line ends, as String.prototype.trim takes them.
abbrev pub is_space : ℕ → Bool
is_space c =
    leb 9 c && leb c 13
    || c == 0x20
    || c == 0xa0
    || c == 0x1680
    || leb 0x2000 c && leb c 0x200a
    || c == 0x2028
    || c == 0x2029
    || c == 0x202f
    || c == 0x205f
    || c == 0x3000
    || c == 0xfeff

unfoldable pub trim_start : Text → Text
trim_start [] = []
trim_start (c ∷ s) = let rest = trim_start s in if is_space c then rest else c ∷ s

abbrev pub put_unless_space : ℕ → Text → Text
put_unless_space c [] = if is_space c then [] else c ∷ []
put_unless_space c (d ∷ t) = c ∷ d ∷ t

unfoldable pub trim_end : Text → Text
trim_end [] = []
trim_end (c ∷ s) = put_unless_space c (trim_end s)

abbrev pub is_control : ℕ → Bool
is_control c = leb c 0x1f || c == 0x7f

-- `text(v, max)`
unfoldable pub text : Json → ℕ → Bool
unfolding trim_start trim_end
text (str s) max =
    ltb 0 (length s)
    && leb (length s) max
    && trim_end (trim_start s) === s
    && not (any is_control s)
text v max = false

-- `typeof v === 'string' && pattern.test(v)`
unfoldable pub matches : (Text → Bool) → Json → Bool
matches pattern (str s) = pattern s
matches pattern v = false

unfoldable pub uuid_or_null : Json → Bool
unfolding matches uuid
uuid_or_null v = is_null v || matches uuid v

-- `v !== null && !test`
abbrev pub bad_unless_null : Json → Bool → Bool
bad_unless_null v test = not (is_null v) && not test

-- `list.includes(v)`
unfoldable pub one_of : List Text → Json → Bool
one_of l (str s) = includes l s
one_of l v = false

-- `Number.isSafeInteger(v) && v >= least && v <= most`
unfoldable pub integer_within : ℕ → ℕ → Json → Bool
integer_within least most (num n) =
    leb (abs n) max_safe && not (ltb_ℤ n (pos least)) && not (ltb_ℤ (pos most) n)
integer_within least most v = false

abbrev pub is_lower : ℕ → Bool
is_lower c = leb b'a' c && leb c b'z'

abbrev pub is_upper : ℕ → Bool
is_upper c = leb b'A' c && leb c b'Z'

abbrev pub is_lower_or_digit : ℕ → Bool
is_lower_or_digit c = is_lower c || is_digit c

-- The pieces of a text between the units `c`, `s.split(c)`.
unfoldable pub split : ℕ → Text → Text × List Text
split c [] = ([], [])
split c (d ∷ s) =
    let rest = split c s in if d == c then ([], rest.0 ∷ rest.1) else (d ∷ rest.0, rest.1)

abbrev pub is_word : (ℕ → Bool) → ℕ → ℕ → Text → Bool
is_word p least most s = leb least (length s) && leb (length s) most && all p s

-- `/^[a-z][a-z0-9]*(?:\.[a-z0-9]+)*$/`
abbrev pub starts_lower : Text → Bool
starts_lower [] = false
starts_lower (c ∷ s) = is_lower c

abbrev pub some_lower_or_digit : Text → Bool
some_lower_or_digit s = ltb 0 (length s) && all is_lower_or_digit s

unfoldable pub is_scheme : Text → Bool
unfolding split
is_scheme s =
    let pieces = split b'.' s in
    starts_lower pieces.0 && some_lower_or_digit pieces.0 && all some_lower_or_digit pieces.1

-- `typeof v === 'string' && v.length <= 64 && SCHEME.test(v)`
unfoldable pub scheme_ok : Json → Bool
unfolding is_scheme
scheme_ok (str s) = leb (length s) 64 && is_scheme s
scheme_ok v = false

-- `/^[a-z]{2,3}(?:-[A-Za-z0-9]{2,8})*$/`
abbrev pub is_alphanumeric : ℕ → Bool
is_alphanumeric c = is_upper c || is_lower_or_digit c

unfoldable pub is_language : Text → Bool
unfolding split
is_language s =
    let pieces = split b'-' s in
    is_word is_lower 2 3 pieces.0 && all (is_word is_alphanumeric 2 8) pieces.1

-- `/^[A-Z]{3,8}$/`
abbrev pub is_currency : Text → Bool
is_currency s = is_word is_upper 3 8 s

-- `/^[A-Z]{3}$/`
abbrev pub is_incoterm : Text → Bool
is_incoterm s = is_word is_upper 3 3 s

-- `/^[A-Z]{2}$/`
abbrev pub is_country : Text → Bool
is_country s = is_word is_upper 2 2 s

-- `/^[!-~]{1,32}$/`
abbrev pub is_ucum : Text → Bool
is_ucum s = is_word (λ c. leb 0x21 c && leb c 0x7e) 1 32 s
