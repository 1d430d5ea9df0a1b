-- ===== src/Base58.antt =====
-- sdk/src/base58.ts. Bytes are numbers below 256, and a text is its UTF-16 code units: a unit of a
-- surrogate pair is no digit either. The loops that take digits off a number run on fuel: a byte is
-- less than two digits to the base 58, and a digit is less than a byte.
mod Tests
use direct_trade_protocol.Prelude.{
  ℕ, zero, suc, ◌+◌, ◌*◌, ◌/◌, ◌%◌, Option, none, some, List, [], ◌∷◌, ◌++◌, map, length, ◌==◌,
  if◌then◌else◌, Text, codes, Result, ok, err,
}
use direct_trade_protocol.Profiles.Dates.{nth}

abbrev pub alphabet : Text
alphabet = codes "123456789ABCDEFGHJKLMNPQRSTUVWXYZabcdefghijkmnopqrstuvwxyz"

-- `INDEX[ch]`, where `i` is the index of the first unit of `units`.
unfoldable pub index_of : ℕ → Text → ℕ → Option ℕ
index_of i [] c = none
index_of i (d ∷ units) c = let rest = index_of (suc i) units c in if c == d then some i else rest

-- The number with the digits `ds` after those of `n`.
unfoldable pub value_of : ℕ → ℕ → List ℕ → ℕ
value_of base n [] = n
value_of base n (d ∷ ds) = value_of base (n * base + d) ds

-- The digits of a number before those that are out; none of zero.
unfoldable pub digits_to : ℕ → ℕ → ℕ → List ℕ → List ℕ
digits_to zero base n out = out
digits_to (suc fuel) base n out =
    let rest = digits_to fuel base (n / base) (n % base ∷ out) in if n == 0 then out else rest

-- One `mark` for each `lead` that a list starts with.
unfoldable pub leading : ℕ → ℕ → List ℕ → List ℕ
leading lead mark [] = []
leading lead mark (c ∷ cs) =
    let rest = leading lead mark cs in if c == lead then mark ∷ rest else []

unfoldable pub base58_encode : List ℕ → Text
unfolding value_of digits_to leading
base58_encode bytes =
    leading 0 49 bytes
    ++ map (λ d. nth d alphabet) (digits_to (2 * length bytes) 58 (value_of 256 0 bytes) [])

-- The values of the units, or the first that is not of the alphabet.
unfoldable pub read_digits : Text → Result ℕ (List ℕ)
unfolding index_of
read_digits [] = ok []
read_digits (c ∷ s) =
    let rest = read_digits s in
    elim (index_of 0 alphabet c) [
      | none ↦ err c
      | some d ↦ elim rest [ ok ds ↦ ok (d ∷ ds) | err e ↦ err e ]
    ]

unfoldable pub base58_decode : Text → Result ℕ (List ℕ)
unfolding read_digits value_of digits_to leading
base58_decode s = elim (read_digits s) [
  | err c ↦ err c
  | ok ds ↦ ok (leading 49 0 s ++ digits_to (length s) 256 (value_of 58 0 ds) [])
]
