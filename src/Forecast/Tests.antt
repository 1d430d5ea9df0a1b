-- ===== src/Forecast/Tests.antt =====
-- A forecast that is published a day later.
use direct_trade_protocol.Prelude.{◌≡◌, refl, [], ◌∷◌, codes, ◌===◌, ok, Text}
use direct_trade_protocol.Canonical.{null, str, canonicalize, before}
use direct_trade_protocol.Forecast.{
  ForecastStatus, draft, published, ForecastBody, older, no_status_transition,
  check_forecast_continuity,
}
use direct_trade_protocol.Forecast.Revisions.{Kept, unrevised, revised, Revised-Kept}

abbrev forecast : Text → ForecastStatus → ForecastBody
forecast at s = record {
  subject = str (codes "apples");
  party_id = null;
  direction = str (codes "demand");
  horizon = str (codes "2026");
  as_of = at;
  status = s;
}

continuity_tests :
    (check_forecast_continuity (forecast (codes "d1") draft) (forecast (codes "d2") published)
      ≡ ok [])
    × (check_forecast_continuity (forecast (codes "d2") published) (forecast (codes "d1") draft)
        ≡ ok (older ∷ no_status_transition ∷ []))
unfolding check_forecast_continuity canonicalize before ◌===◌
continuity_tests = (refl, refl)

Revised-Kept_example : Kept (forecast (codes "d1") draft) (forecast (codes "d2") published)
Revised-Kept_example =
    Revised-Kept {a = forecast (codes "d1") draft} {b = forecast (codes "d2") published}
      (revised {b = forecast (codes "d1") draft} unrevised continuity_tests.0)
