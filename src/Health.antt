-- ===== src/Health.antt =====
-- The health endpoints of the four services (health.py of state-svc and telemetry-svc, and the same
-- code in api.py of command-svc and app.py of viz-svc), with the gauge `twin_service_ready`.
pub mod Reports
use twin_services.Base.{ℕ, Text, codes, Bool, List, [], ◌∷◌, all, if◌then◌else◌}
use twin_services.Base.Eq.{Dict}

-- The answer to /healthz/ready.
pub record Report : Type 0 where
  pub status_code : ℕ
  pub status : Text
  pub checks : Dict Text Bool

-- `all(checks.values())`
abbrev pub passes : Dict Text Bool → Bool
passes checks = all (λ (p : Text × Bool). p.1) checks

-- What is set on the gauge.
abbrev pub gauge_value : Bool → ℕ
gauge_value ok = if ok then 1 else 0

-- `ready`: the gauge behind it, and the report.
unfoldable pub ready : Dict Text Bool → ℕ × Report
ready checks =
    let ok = passes checks in
    (
      gauge_value ok,
      record {
        status_code = if ok then 200 else 503;
        status = if ok then codes "ready" else codes "degraded";
        checks = checks;
      },
    )

-- `metrics` refreshes the gauge; the page is the client library's.
unfoldable pub metrics : Dict Text Bool → ℕ
metrics checks = gauge_value (passes checks)
