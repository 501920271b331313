-- ===== src/Health/Reports.antt =====
-- What the readiness of a service says.
use twin_services.Base.{
  ◌≡◌, ◌↔◌, refl, sym, ◌∙◌, Text, Bool, true, false, List, [], ◌∷◌, All, Bool-cases, inl, inr,
  arith,
}
use twin_services.Base.Eq.{Dict}
use twin_services.Contracts.Telemetry.{TelemetryJson}
use twin_services.Ingest
use twin_services.Ingest.Account.{connected_after, healthy_after, run-mqtt_connected, run-influx_ok}
use twin_services.Ingest.{Ingestor}
use twin_services.Health.{passes, ready, metrics}

passes-All : (d : Dict Text Bool) → (passes d ≡ true) ↔ All (λ (p : Text × Bool). p.1 ≡ true) d
passes-All [] = (λ h. tt, λ h. refl)
passes-All ((k, true) ∷ d) = (λ h. (refl, (passes-All d).0 h), λ h. (passes-All d).1 h.1)
passes-All ((k, false) ∷ d) = (λ h. cc, λ h. cc h.0)

-- The status is 200 exactly when every check passes, and so is the gauge 1; otherwise they are 503
-- and 0. A scrape of the metrics sets the gauge to the same value.
pub ready_exactly :
    (d : Dict Text Bool)
    → (((ready d).1.status_code ≡ 200) ↔ All (λ (p : Text × Bool). p.1 ≡ true) d)
      × (((ready d).0 ≡ 1) ↔ ((ready d).1.status_code ≡ 200))
      × (metrics d ≡ (ready d).0)
unfolding ready metrics
ready_exactly d = elim (Bool-cases (passes d)) [
  | inl pass ↦ rw pass ((λ h. (passes-All d).0 pass, λ h. refl), (λ h. refl, λ h. refl), refl)
  | inr fail ↦ rw fail (
    (λ h. absurd (omega arith), λ h. cc (sym fail ∙ (passes-All d).1 h)),
    (λ h. absurd (omega arith), λ h. absurd (omega arith)),
    refl,
  )
]

-- After any run, telemetry-svc answers 200 to /healthz/ready exactly when the last connection event
-- opened the connection and the last ping or write of a point succeeded.
pub ready-run :
    {F : Type 0} {is_finite : F → Bool} (json : TelemetryJson F is_finite)
    (es : List (Ingest.Event json.Payload)) (s : Ingestor F)
    → ((ready (Ingest.readiness (Ingest.run json es s))).1.status_code ≡ 200) ↔ (
        (connected_after json s.mqtt_connected es ≡ true)
        × (healthy_after json s.influx_ok es ≡ true))
unfolding Ingest.readiness
ready-run json es s =
    let checks = Ingest.readiness (Ingest.run json es s) in
    let exactly = (ready_exactly checks).0 in
    (
      λ h.
          let a = exactly.0 h in
          (sym (run-mqtt_connected json es s) ∙ a.0, sym (run-influx_ok json es s) ∙ a.1.0),
      λ (c, i). exactly.1 (run-mqtt_connected json es s ∙ c, (run-influx_ok json es s ∙ i, tt)),
    )
