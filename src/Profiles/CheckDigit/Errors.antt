-- ===== src/Profiles/CheckDigit/Errors.antt =====
-- What a GS1 check digit finds.
use direct_trade_protocol.Prelude.{
  ℕ, ◌+◌, ◌-◌, ◌*◌, ◌%◌, ◌<◌, ◌≡◌, ◌≢◌, refl, Bool, true, false, not, List, [], ◌∷◌, ◌++◌, ◌==◌,
  ==_iff, if◌then◌else◌, arith, sym, ap, ◌∙◌, all, all-append, ◌&&◌, Text,
}
use mathlib.Core.List.{append_assoc}
use direct_trade_protocol.Decimal.{is_digit}
use direct_trade_protocol.Profiles.CheckDigit.{weigh, check_digit_ok, reversed, gtin, sscc}

-- Two digits that differ weigh differently, with either weight, whatever the other digits add.
weights_differ :
    (even : Bool) (a b rest : ℕ)
    → a < 10
    → b < 10
    → a ≢ b
    → (a * (if even then 3 else 1) + rest) % 10 ≢ (b * (if even then 3 else 1) + rest) % 10
weights_differ true a b rest ha hb differ = omega arith
weights_differ false a b rest ha hb differ = omega arith

-- The digits after a changed one.
weigh_front :
    (even : Bool) (front : List ℕ) (a b : ℕ) (back : List ℕ)
    → a < 10
    → b < 10
    → a ≢ b
    → weigh even (front ++ a ∷ back) % 10 ≢ weigh even (front ++ b ∷ back) % 10
unfolding weigh
weigh_front even [] a b back ha hb differ =
    weights_differ even a b (weigh (not even) back) ha hb differ
weigh_front even (d ∷ front) a b back ha hb differ = λ same.
    let further = weigh_front (not even) front a b back ha hb differ in
    further (omega (arith, same))

-- The same last digit asks for the same sum, up to tens.
check_unique :
    (sum other check : ℕ)
    → ((10 - sum % 10) % 10 == check) ≡ true
    → ((10 - other % 10) % 10 == check) ≡ true
    → sum % 10 ≡ other % 10
check_unique sum other check h k =
    let first = (==_iff ((10 - sum % 10) % 10) check).0 h in
    let second = (==_iff ((10 - other % 10) % 10) check).0 k in omega (arith, first, second)

-- Where a check digit is right, changing one digit to another one, be it the check digit itself,
-- makes it wrong.
check_digit_ok-single :
    (front : List ℕ) (a b : ℕ) (back : List ℕ)
    → a < 10
    → b < 10
    → a ≢ b
    → check_digit_ok (front ++ a ∷ back) ≡ true
    → check_digit_ok (front ++ b ∷ back) ≢ true
unfolding check_digit_ok
check_digit_ok-single [] a b back ha hb differ right = λ wrong.
    let first = (==_iff ((10 - weigh true back % 10) % 10) a).0 right in
    let second = (==_iff ((10 - weigh true back % 10) % 10) b).0 wrong in
    differ (sym first ∙ second)
check_digit_ok-single (c ∷ front) a b back ha hb differ right = λ wrong.
    weigh_front true front a b back ha hb differ
      (check_unique (weigh true (front ++ a ∷ back)) (weigh true (front ++ b ∷ back)) c right wrong)

reversed_append : (s t : Text) (acc : List ℕ) → reversed (s ++ t) acc ≡ reversed t (reversed s acc)
unfolding reversed
reversed_append [] t acc = refl
reversed_append (c ∷ s) t acc = reversed_append s t ((c - b'0') ∷ acc)

reversed_acc : (s : Text) (acc : List ℕ) → reversed s acc ≡ reversed s [] ++ acc
unfolding reversed
reversed_acc [] acc = refl
reversed_acc (c ∷ s) acc =
    reversed_acc s ((c - b'0') ∷ acc)
    ∙ sym (append_assoc (reversed s []) ((c - b'0') ∷ []) acc)
    ∙ ap (λ l. l ++ acc) (sym (reversed_acc s ((c - b'0') ∷ [])))

-- A digit's place among the digits from the right.
reversed_at :
    (front : Text) (c : ℕ) (back : Text)
    → reversed (front ++ c ∷ back) [] ≡ reversed back [] ++ (c - b'0') ∷ reversed front []
unfolding reversed
reversed_at front c back =
    reversed_append front (c ∷ back) [] ∙ reversed_acc back ((c - b'0') ∷ reversed front [])

-- The unit in the middle of a text of digits is a digit.
digit_at :
    (front : Text) (c : ℕ) (back : Text)
    → all is_digit (front ++ c ∷ back) ≡ true
    → is_digit c ≡ true
digit_at front c back h =
    let apart = all-append is_digit front (c ∷ back) in ground (arith, apart, h)

-- What a text of digits with a right check digit has, and one in which one unit differs too.
single_digit :
    (front : Text) (a b : ℕ) (back : Text)
    → a ≢ b
    → all is_digit (front ++ a ∷ back) ≡ true
    → check_digit_ok (reversed (front ++ a ∷ back) []) ≡ true
    → all is_digit (front ++ b ∷ back) ≡ true
    → check_digit_ok (reversed (front ++ b ∷ back) []) ≢ true
single_digit front a b back differ digits right others wrong =
    let da = digit_at front a back digits in
    let db = digit_at front b back others in
    check_digit_ok-single (reversed back []) (a - b'0') (b - b'0') (reversed front [])
      (ground arith) (ground arith) (ground arith)
      (ap check_digit_ok (sym (reversed_at front a back)) ∙ right)
      (ap check_digit_ok (sym (reversed_at front b back)) ∙ wrong)

last_two : (a b c : Bool) → (a && b && c) ≡ true → (b ≡ true) × (c ≡ true)
last_two a b c h = ground arith

not_true : (b : Bool) → b ≢ true → b ≡ false
not_true true h = absurd (h refl)
not_true false h = refl

-- In a text that is a GTIN, replacing any one unit by another one gives a text that is no GTIN.
pub gtin-single :
    (front : Text) (a b : ℕ) (back : Text)
    → gtin (front ++ a ∷ back) ≡ true
    → a ≢ b
    → gtin (front ++ b ∷ back) ≡ false
unfolding gtin
gtin-single front a b back h differ = not_true (gtin (front ++ b ∷ back)) λ k.
    let (digits, right) = last_two _ _ _ h in
    let (others, wrong) = last_two _ _ _ k in
    single_digit front a b back differ digits right others wrong

-- In a text that is an SSCC, replacing any one unit by another one gives a text that is no SSCC.
pub sscc-single :
    (front : Text) (a b : ℕ) (back : Text)
    → sscc (front ++ a ∷ back) ≡ true
    → a ≢ b
    → sscc (front ++ b ∷ back) ≡ false
unfolding sscc
sscc-single front a b back h differ = not_true (sscc (front ++ b ∷ back)) λ k.
    let (digits, right) = last_two _ _ _ h in
    let (others, wrong) = last_two _ _ _ k in
    single_digit front a b back differ digits right others wrong
