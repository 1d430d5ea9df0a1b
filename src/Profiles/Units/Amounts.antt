-- ===== src/Profiles/Units/Amounts.antt =====
-- What the checks of amounts accept.
use direct_trade_protocol.Prelude.{◌≡◌, refl, true, not, Text, String, Result, ok, err}
use direct_trade_protocol.Prelude.Int.{ℤ, pos, ltb_ℤ}
use direct_trade_protocol.Decimal.{DecimalError}
use direct_trade_protocol.Canonical.{Json}
use direct_trade_protocol.Profiles.Issues.{pass, fail, fail_if, fail_unless-pass, Checked}
use direct_trade_protocol.Profiles.Units.{parse_amount, check_positive}

-- The value is a decimal text of at most three places, and the amount is above 0.
abbrev pub IsPositive : Json → Type 0
IsPositive v = (n : ℤ) × (parse_amount v 3 ≡ ok n) × (ltb_ℤ (pos 0) n ≡ true)

positive_of :
    (r : Result DecimalError ℤ) (path : Text) (low bad : String)
    → elim r as (λ _. Checked) [
      | ok n ↦ fail_if (not (ltb_ℤ (pos 0) n)) path low
      | err e ↦ fail path bad
    ]
      ≡ pass
    → (n : ℤ) × (r ≡ ok n) × (ltb_ℤ (pos 0) n ≡ true)
positive_of (ok n) path low bad h = (n, refl, fail_unless-pass _ _ _ h)
positive_of (err e) path low bad h = absurd (cc h)

pub check_positive-IsPositive :
    (v : Json) (path : Text) (low bad : String)
    → check_positive v path low bad ≡ pass
    → IsPositive v
unfolding check_positive
check_positive-IsPositive v path low bad h = positive_of (parse_amount v 3) path low bad h

-- The value is a decimal text of at most six places.
abbrev pub IsPrice : Json → Type 0
IsPrice v = (n : ℤ) × (parse_amount v 6 ≡ ok n)

pub price_of :
    (r : Result DecimalError ℤ) (path : Text) (bad : String)
    → elim r as (λ _. Checked) [ ok n ↦ pass | err e ↦ fail path bad ] ≡ pass
    → (n : ℤ) × (r ≡ ok n)
price_of (ok n) path bad h = (n, refl)
price_of (err e) path bad h = absurd (cc h)
