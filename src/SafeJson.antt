-- ===== src/SafeJson.antt =====
-- The scanner of sdk/src/safe-json.ts, which reads a JSON text before it is parsed.
-- Its two inner loops, over a string and over a number, are the modes of one pass over the units.
pub mod Offsets
mod Tests
use direct_trade_protocol.Prelude.{
  ℕ, suc, ◌≡◌, Bool, true, false, not, ◌&&◌, ◌||◌, Option, none, some, List, [], ◌∷◌, ◌++◌, leb,
  ◌==◌, if◌then◌else◌, Text, includes, Result, ok, err,
}

pub data UnsafeJsonCode : Type 0 where
  unsafe_member_name duplicate_member_name non_integer_number : UnsafeJsonCode

-- The code of an error and its offset.
abbrev pub UnsafeJsonError : Type 0
UnsafeJsonError = UnsafeJsonCode × ℕ

-- Where the pass is: outside strings and numbers; in a string, which may be a name, perhaps after a
-- reverse solidus, with the offset of its quotation mark and the units read; or in a number that
-- must be an integer, with its offset.
pub data Mode : Type 0 where
  outside : Mode
  in_string : (is_name escaped : Bool) (start : ℕ) (read : Text) → Mode
  in_number : (start : ℕ) → Mode

-- The names of the objects that are open, none for an array, the innermost first; and whether a
-- string is a name.
pub record Scan : Type 0 where
  pub mode : Mode
  pub names : List (Option (List Text))
  pub expect_name : Bool

abbrev pub in_object : List (Option (List Text)) → Bool
in_object (some seen ∷ opens) = true
in_object opens = false

abbrev pub innermost_has : List (Option (List Text)) → Text → Bool
innermost_has (some seen ∷ opens) name = includes seen name
innermost_has opens name = false

abbrev pub add_name : Text → List (Option (List Text)) → List (Option (List Text))
add_name name (some seen ∷ opens) = some (name ∷ seen) ∷ opens
add_name name opens = opens

abbrev pub closed : List (Option (List Text)) → List (Option (List Text))
closed [] = []
closed (o ∷ opens) = opens

abbrev pub is_digit : ℕ → Bool
is_digit c = leb 48 c && leb c 57

-- The end of a string.
unfoldable pub end_string :
    Bool → ℕ → Text → List (Option (List Text)) → Result UnsafeJsonError Scan
end_string is_name start name opens =
    if is_name && innermost_has opens name
    then err (duplicate_member_name, start)
    else ok record {
      mode = outside;
      names = if is_name then add_name name opens else opens;
      expect_name = false;
    }

-- A unit outside strings and numbers.
unfoldable pub scan_outside : Bool → Scan → ℕ → ℕ → Scan
scan_outside integers s i c =
    let opens = s.names in
    let expect = s.expect_name in
    if c == 34
    then record { mode = in_string expect false i []; names = opens; expect_name = expect }
    else if c == 123
    then record { mode = outside; names = some [] ∷ opens; expect_name = true }
    else if c == 91
    then record { mode = outside; names = none ∷ opens; expect_name = false }
    else if c == 125 || c == 93
    then record { mode = outside; names = closed opens; expect_name = false }
    else if c == 44
    then record { mode = outside; names = opens; expect_name = in_object opens }
    else if c == 58
    then record { mode = outside; names = opens; expect_name = false }
    else if integers && (c == 45 || is_digit c)
    then record { mode = in_number i; names = opens; expect_name = expect }
    else record { mode = outside; names = opens; expect_name = expect }

-- A unit of a string.
unfoldable pub scan_string : Bool → Bool → ℕ → Text → Scan → ℕ → ℕ → Result UnsafeJsonError Scan
unfolding end_string
scan_string is_name true start read s i c = ok record {
  mode = in_string is_name false start (read ++ (c ∷ []));
  names = s.names;
  expect_name = s.expect_name;
}
scan_string is_name false start read s i c =
    if c == 92
    then (if is_name
        then err (unsafe_member_name, i)
        else ok record {
          mode = in_string is_name true start (read ++ (c ∷ []));
          names = s.names;
          expect_name = s.expect_name;
        })
    else if c == 34
    then end_string is_name start read s.names
    else ok record {
      mode = in_string is_name false start (read ++ (c ∷ []));
      names = s.names;
      expect_name = s.expect_name;
    }

-- A unit after the first of a number; one that does not belong to it is read again, outside.
unfoldable pub scan_number : Bool → ℕ → Scan → ℕ → ℕ → Result UnsafeJsonError Scan
unfolding scan_outside
scan_number integers start s i c =
    if c == 46 || c == 101 || c == 69
    then err (non_integer_number, start)
    else if c == 43 || c == 45 || is_digit c
    then ok s
    else ok (scan_outside integers s i c)

-- The unit `c` at the offset `i`.
unfoldable pub scan_unit : Bool → Scan → ℕ → ℕ → Result UnsafeJsonError Scan
unfolding scan_outside scan_string scan_number
scan_unit integers s i c = elim s.mode [
  | outside ↦ ok (scan_outside integers s i c)
  | in_string is_name escaped start read ↦ scan_string is_name escaped start read s i c
  | in_number start ↦ scan_number integers start s i c
]

-- At the end of the text, a name that is not closed is looked up too.
unfoldable pub scan_end : Scan → Result UnsafeJsonError Scan
unfolding end_string
scan_end s = elim s.mode [
  | outside ↦ ok s
  | in_string is_name escaped start read ↦ end_string is_name start read s.names
  | in_number start ↦ ok s
]

unfoldable pub scan : Bool → Scan → ℕ → Text → Result UnsafeJsonError Scan
unfolding scan_unit scan_end
scan integers s i [] = scan_end s
scan integers s i (c ∷ text) = elim (scan_unit integers s i c) [
  | ok t ↦ scan integers t (suc i) text
  | err e ↦ err e
]

-- `options.integerNumbers` comes first.
unfoldable pub assert_safe_json_text : Bool → Text → Result UnsafeJsonError Scan
unfolding scan
assert_safe_json_text integers text =
    scan integers record { mode = outside; names = []; expect_name = false } 0 text
