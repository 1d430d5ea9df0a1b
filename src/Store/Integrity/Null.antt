-- ===== src/Store/Integrity/Null.antt =====
-- Only null and undefined are written as the text null.
use direct_trade_protocol.Prelude.{
  ℕ, ◌≡◌, refl, ap, true, false, [], ◌∷◌, ◌++◌, Text, codes, Result, ok, >>=-elim, ok-injective,
  ◌≢◌, ◌==◌, ==_iff,
}
use direct_trade_protocol.Prelude.Int.{pos, negsuc, abs}
use direct_trade_protocol.Decimal.{to_digits}
use direct_trade_protocol.Decimal.Digits.{to_digits-IsDigits}
use direct_trade_protocol.Canonical.{
  CanonicalError, escape_all, Json, null, undefined, fractional, unsupported, bool, num, str, arr,
  obj, check_number, check_string, quote, join, sorted_parts, serialize_items, canonicalize,
}
use direct_trade_protocol.Store.Integrity.{is_nullish}

no_number : (n : ℕ) → to_digits n ≡ codes "null" → ⊥
no_number n h = let digits = rw h at (to_digits-IsDigits n) in cc digits

abbrev first_code : Result CanonicalError Text → ℕ
first_code (ok (c ∷ t)) = c
first_code _ = 0

other_start :
    (c : ℕ) (t : Text)
    → (c == b'n') ≡ false
    → ◌≢◌ {A = Result CanonicalError Text} (ok (c ∷ t)) (ok (codes "null"))
other_start c t differs h =
    let start : c ≡ b'n' = ap first_code h in
    let agrees = (==_iff c b'n').1 start in absurd (cc (differs, agrees))

pub canonicalize-null : (v : Json) → canonicalize v ≡ ok (codes "null") → is_nullish v ≡ true
unfolding canonicalize quote
canonicalize-null null h = refl
canonicalize-null undefined h = refl
canonicalize-null fractional h = absurd (cc h)
canonicalize-null unsupported h = absurd (cc h)
canonicalize-null (bool true) h = absurd (other_start b't' (codes "rue") refl h)
canonicalize-null (bool false) h = absurd (other_start b'f' (codes "alse") refl h)
canonicalize-null (num (pos n)) h =
    >>=-elim (check_number (pos n)) _ h λ _ _ h1. absurd (no_number (abs (pos n)) (ok-injective h1))
canonicalize-null (num (negsuc n)) h =
    >>=-elim (check_number (negsuc n)) _ h
      λ _ _ h1. absurd (other_start b'-' (to_digits (abs (negsuc n))) refl h1)
canonicalize-null (str s) h =
    >>=-elim (check_string s) _ h
      λ _ _ h1. absurd (other_start 0x22 (escape_all s ++ 0x22 ∷ []) refl h1)
canonicalize-null (arr vs) h =
    >>=-elim (serialize_items vs) _ h λ t _ h1. absurd (other_start b'[' (t ++ b']' ∷ []) refl h1)
canonicalize-null (obj ms) h =
    >>=-elim (join (sorted_parts ms)) _ h
      λ t _ h1. absurd (other_start b'{' (t ++ b'}' ∷ []) refl h1)
