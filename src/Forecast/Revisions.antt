-- ===== src/Forecast/Revisions.antt =====
-- What every chain of accepted revisions of a forecast keeps.
use direct_trade_protocol.Prelude.{
  ℕ, ◌≤◌, ◌≡◌, refl, sym, ap, ◌∙◌, Bool, true, false, List, [], ◌∷◌, ◌++◌, arith, ltb,
  if◌then◌else◌, Text, ◌===◌, ===_iff, ok, >>=-elim, ok-injective, Bool-cases, inl, inr,
}
use direct_trade_protocol.Canonical.{Json, canonicalize, before}
use direct_trade_protocol.Canonical.Order.{before_squeeze}
use direct_trade_protocol.Forecast.{
  ForecastBody, ForecastIssue, subject_changed, party_changed, direction_changed, horizon_changed,
  older, no_status_transition, status_index, issue_if, check_same, check_forecast_continuity,
}

append-nil : (xs ys : List ForecastIssue) → xs ++ ys ≡ [] → (xs ≡ []) × (ys ≡ [])
append-nil [] ys h = (refl, h)
append-nil (x ∷ xs) ys h = absurd (cc h)

issue_if-nil : (b : Bool) (issue : ForecastIssue) → issue_if b issue ≡ [] → b ≡ false
issue_if-nil true issue h = absurd (cc h)
issue_if-nil false issue h = refl

le-of-ltb : (m n : ℕ) → ltb m n ≡ false → n ≤ m
le-of-ltb m n h = ground arith

same_text-nil :
    (issue : ForecastIssue) (a b : Text) → (if a === b then [] else issue ∷ []) ≡ [] → a ≡ b
same_text-nil issue a b h = elim (Bool-cases (a === b)) [
  | inl same ↦ (===_iff a b).0 same
  | inr other ↦ let impossible = rw other at h in absurd (cc impossible)
]

check_same-nil :
    (issue : ForecastIssue) (v w : Json) (l : List ForecastIssue)
    → check_same issue v w ≡ ok l
    → l ≡ []
    → canonicalize v ≡ canonicalize w
unfolding check_same
check_same-nil issue v w l h none_found = >>=-elim (canonicalize v) _ h λ a read h1.
    >>=-elim (canonicalize w) _ h1 λ b written h2.
      read ∙ ap ok (same_text-nil issue a b (ok-injective h2 ∙ none_found)) ∙ sym written

-- What a revision keeps of the version before.
pub record Kept (old new : ForecastBody) : Type 0 where
  pub subject : canonicalize old.subject ≡ canonicalize new.subject
  pub party : canonicalize old.party_id ≡ canonicalize new.party_id
  pub direction : canonicalize old.direction ≡ canonicalize new.direction
  pub horizon : canonicalize old.horizon ≡ canonicalize new.horizon
  pub as_of : before new.as_of old.as_of ≡ false
  pub status : status_index old.status ≤ status_index new.status

continuity-Kept :
    (old new : ForecastBody) → check_forecast_continuity old new ≡ ok [] → Kept old new
unfolding check_forecast_continuity
continuity-Kept old new h =
    >>=-elim (check_same subject_changed old.subject new.subject) _ h λ a subject h1.
      >>=-elim (check_same party_changed old.party_id new.party_id) _ h1 λ b party h2.
        >>=-elim (check_same direction_changed old.direction new.direction) _ h2 λ c direction h3.
          >>=-elim (check_same horizon_changed old.horizon new.horizon) _ h3 λ d horizon h4.
            let late = before new.as_of old.as_of in
            let back = ltb (status_index new.status) (status_index old.status) in
            let all_empty = ok-injective h4 in
            let (l4, no_back) =
              append-nil (a ++ b ++ c ++ d ++ issue_if late older)
                (issue_if back no_status_transition) all_empty in
            let (l3, no_late) = append-nil (a ++ b ++ c ++ d) (issue_if late older) l4 in
            let (l2, d_nil) = append-nil (a ++ b ++ c) d l3 in
            let (l1, c_nil) = append-nil (a ++ b) c l2 in
            let (a_nil, b_nil) = append-nil a b l1 in
            record {
              subject = check_same-nil subject_changed old.subject new.subject a subject a_nil;
              party = check_same-nil party_changed old.party_id new.party_id b party b_nil;
              direction =
                  check_same-nil direction_changed old.direction new.direction c direction c_nil;
              horizon = check_same-nil horizon_changed old.horizon new.horizon d horizon d_nil;
              as_of = issue_if-nil late older no_late;
              status =
                  le-of-ltb (status_index new.status) (status_index old.status)
                    (issue_if-nil back no_status_transition no_back);
            }

before_never : (s : Text) → before s s ≡ false
unfolding before
before_never [] = refl
before_never (c ∷ s) = ground (arith, before_never s)

not-before_trans : (s t u : Text) → before s t ≡ false → before t u ≡ false → before s u ≡ false
not-before_trans s t u h k = elim (Bool-cases (before s u)) [
  | inr fine ↦ fine
  | inl less ↦ let middle = before_squeeze s t u h less in absurd (cc (middle, k))
]

-- Forecasts that accepted revisions lead to, one after the other.
pub data Revised : ForecastBody → ForecastBody → Type 0 where
  unrevised : {a : ForecastBody} → Revised a a
  revised :
      {a b c : ForecastBody} → Revised a b → check_forecast_continuity b c ≡ ok [] → Revised a c

-- Along every chain of revisions in which the continuity check finds no issue, the canonical texts of
-- the subject, the party, the direction and the horizon stay as they were, the text of as_of
-- never sorts before the first one's, and the status never goes back.
pub Revised-Kept : {a b : ForecastBody} → Revised a b → Kept a b
Revised-Kept (unrevised {a}) = record {
  subject = refl;
  party = refl;
  direction = refl;
  horizon = refl;
  as_of = before_never a.as_of;
  status = omega arith;
}
Revised-Kept (revised {a} {b} {c} chain h) =
    let first = Revised-Kept chain in
    let last = continuity-Kept b c h in
    record {
      subject = first.subject ∙ last.subject;
      party = first.party ∙ last.party;
      direction = first.direction ∙ last.direction;
      horizon = first.horizon ∙ last.horizon;
      as_of = not-before_trans c.as_of b.as_of a.as_of last.as_of first.as_of;
      status = omega (arith, first.status, last.status);
    }
