-- ===== src/Profiles/CheckDigit.antt =====
-- The GS1 check digit: isGtin of sdk/src/profiles/product.ts, isGln and isDuns of
-- sdk/src/profiles/party.ts, isSscc of sdk/src/profiles/object.ts.
pub mod Errors
use direct_trade_protocol.Prelude.{
  ℕ, ◌+◌, ◌-◌, ◌*◌, ◌%◌, Bool, false, true, not, ◌&&◌, ◌||◌, List, [], ◌∷◌, ◌++◌, ◌==◌,
  if◌then◌else◌, Text, all, length,
}
use direct_trade_protocol.Decimal.{is_digit}
use direct_trade_protocol.Canonical.{Json, str}
use direct_trade_protocol.Profiles.Shapes.{matches}

-- The digits from the right, `digits.reverse()`, on an accumulator.
unfoldable pub reversed : Text → List ℕ → List ℕ
reversed [] acc = acc
reversed (c ∷ s) acc = reversed s ((c - b'0') ∷ acc)

-- The sum of the digits, whose weights are 3, 1, 3, ...; the flag is `i % 2 === 0`.
unfoldable pub weigh : Bool → List ℕ → ℕ
weigh even [] = 0
weigh even (d ∷ ds) = d * (if even then 3 else 1) + weigh (not even) ds

-- `(10 - sum % 10) % 10 === check`, where the check digit is the last one.
unfoldable pub check_digit_ok : List ℕ → Bool
unfolding weigh
check_digit_ok [] = false
check_digit_ok (check ∷ ds) = (10 - weigh true ds % 10) % 10 == check

unfoldable pub gtin : Text → Bool
unfolding check_digit_ok reversed
gtin s =
    (length s == 8 || length s == 12 || length s == 13 || length s == 14)
    && all is_digit s
    && check_digit_ok (reversed s [])

unfoldable pub is_gtin : Json → Bool
unfolding matches gtin
is_gtin v = matches gtin v

-- A GLN is a GTIN of 13 digits.
unfoldable pub is_gln : Json → Bool
unfolding is_gtin
is_gln (str s) = length s == 13 && is_gtin (str s)
is_gln v = false

unfoldable pub is_duns : Json → Bool
unfolding matches
is_duns v = matches (λ s. length s == 9 && all is_digit s) v

unfoldable pub sscc : Text → Bool
unfolding check_digit_ok reversed
sscc s = length s == 18 && all is_digit s && check_digit_ok (reversed s [])

unfoldable pub is_sscc : Json → Bool
unfolding matches sscc
is_sscc v = matches sscc v
