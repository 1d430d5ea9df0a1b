-- ===== src/Forecast.antt =====
-- checkForecastContinuity of sdk/src/profiles/forecast.ts: what a revision of a forecast keeps. Bodies
-- have passed validateForecast; an issue keeps its path.
pub mod Revisions
pub mod Validate
mod Tests
use direct_trade_protocol.Prelude.{
  ℕ, Bool, true, false, List, [], ◌∷◌, ◌++◌, ltb, if◌then◌else◌, Text, ◌===◌, Result, ok, err,
  ◌>>=◌,
}
use direct_trade_protocol.Canonical.{Json, CanonicalError, canonicalize, before}

pub data ForecastStatus : Type 0 where
  draft published withdrawn : ForecastStatus

-- The members that the continuity check reads.
pub record ForecastBody : Type 0 where
  pub subject : Json
  pub party_id : Json
  pub direction : Json
  pub horizon : Json
  pub as_of : Text
  pub status : ForecastStatus

pub data ForecastIssue : Type 0 where
  subject_changed party_changed direction_changed horizon_changed : ForecastIssue
  older no_status_transition : ForecastIssue

-- `FORECAST_STATUSES.indexOf(status)`
abbrev pub status_index : ForecastStatus → ℕ
status_index draft = 0
status_index published = 1
status_index withdrawn = 2

abbrev pub issue_if : Bool → ForecastIssue → List ForecastIssue
issue_if true issue = issue ∷ []
issue_if false issue = []

-- One turn of the loop over the immutable members.
unfoldable pub check_same : ForecastIssue → Json → Json → Result CanonicalError (List ForecastIssue)
check_same issue v w = do
  a ← canonicalize v
  b ← canonicalize w
  ok (if a === b then [] else issue ∷ [])

unfoldable pub check_forecast_continuity :
    ForecastBody → ForecastBody → Result CanonicalError (List ForecastIssue)
unfolding check_same
check_forecast_continuity previous next = do
  subject ← check_same subject_changed previous.subject next.subject
  party ← check_same party_changed previous.party_id next.party_id
  direction ← check_same direction_changed previous.direction next.direction
  horizon ← check_same horizon_changed previous.horizon next.horizon
  let as_of = issue_if (before next.as_of previous.as_of) older
  let status =
      issue_if (ltb (status_index next.status) (status_index previous.status)) no_status_transition
  ok (subject ++ party ++ direction ++ horizon ++ as_of ++ status)
