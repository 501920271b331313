-- ===== src/Tests/Operations.antt =====
-- The theorems on health endpoints, viz-svc and the chaos script, at concrete inputs.
use twin_services.Base.{none, ◌≡◌, ◌↔◌, refl, Text, codes, Bool, true, false, some, List, [], ◌∷◌}
use mathlib.Core.Path.{subst}
use twin_services.Base.Eq.{Dict, lookup, insert, remove, contains, nat_is_eq}
use twin_services.Base.Int.{ℤ, pos, ◌+ℤ◌, ◌-ℤ◌}
use twin_services.Base.Result.{ok, ok-injective}
use twin_services.Contracts.Topics.{telemetry_topic}
use twin_services.Contracts.Vocabulary.{velocity}
use twin_services.Ingest
use twin_services.Ingest.{start, connected, pinged, message, refused}
use twin_services.Ingest.Account.{connected_after, healthy_after}
use twin_services.Health.{ready}
use twin_services.Health.Reports.{ready-run}
use twin_services.Viz
use twin_services.Viz.{Viewer, Frame, opened, ended, rpc_failed, disconnected, finalised}
use twin_services.Viz.Clients.{IsCounted, AreProper, run-IsCounted}
use twin_services.Chaos.{responds, http_error, unreachable, Trial, run_cycle}
use twin_services.Chaos.Answers.{Some}
use twin_services.Chaos.Cycle.{AreGraceful, AreReady, run_cycle_exactly}
use twin_services.Base.{◌==◌, if◌then◌else◌}
use twin_services.Tests.{whole, telemetry_json, elbow, ur5, sample}

abbrev checks : Dict Text Bool
checks = (codes "mqtt", true) ∷ (codes "influxdb", false) ∷ []

abbrev morning : List (Ingest.Event telemetry_json.Payload)
morning =
    connected
    ∷ pinged true
    ∷ message (telemetry_topic ur5 elbow velocity) (some (telemetry_json.write (sample (pos 3) 9)))
        refused
    ∷ []

ready-run_example :
    ((ready (Ingest.readiness (Ingest.run telemetry_json morning start))).1.status_code ≡ 200) ↔ (
      (connected_after telemetry_json false morning ≡ true)
      × (healthy_after telemetry_json false morning ≡ true))
ready-run_example = ready-run telemetry_json morning start

abbrev no_viewer : Viewer ℤ
no_viewer = record { clients = pos 0; frames = 0; suspended = 0; sockets = []; closed = [] }

-- One browser was turned away; another one left, and its stream was finalised.
abbrev left_viewer : Viewer ℤ
left_viewer = record {
  clients = pos 0;
  frames = 0;
  suspended = 0;
  sockets = [];
  closed = (4, [], some 1011) ∷ (7, [], none) ∷ [];
}

abbrev visit : List (Viz.Event ℤ)
visit = opened 4 ∷ ended 4 rpc_failed ∷ opened 7 ∷ ended 7 disconnected ∷ finalised ∷ []

run-visit : Viz.run whole visit no_viewer ≡ ok left_viewer
unfolding Viz.run Viz.step insert remove ◌+ℤ◌ ◌-ℤ◌ lookup
run-visit = refl

visit-AreProper : AreProper whole visit no_viewer
unfolding Viz.step Viz.end_stream contains lookup insert remove
visit-AreProper = (
  refl,
  λ v e.
      subst
        (AreProper whole (ended 4 rpc_failed ∷ opened 7 ∷ ended 7 disconnected ∷ finalised ∷ []))
        (ok-injective e)
        (
          refl,
          λ w f.
              subst (AreProper whole (opened 7 ∷ ended 7 disconnected ∷ finalised ∷ []))
                (ok-injective f)
                (
                  refl,
                  λ x g.
                      subst (AreProper whole (ended 7 disconnected ∷ finalised ∷ []))
                        (ok-injective g) (refl, λ y h. (tt, λ z k. tt)),
                ),
        ),
)

run-IsCounted_example : IsCounted whole left_viewer
run-IsCounted_example =
    run-IsCounted whole visit no_viewer left_viewer visit-AreProper refl run-visit

-- At the second poll the victim is gone, and the viewer is degraded until the end.
abbrev trial : Trial
trial = record {
  gone = responds 200 ∷ unreachable ∷ [];
  probes = record {
    live = λ port. responds 200;
    ready = λ port. if port == 8004 then http_error 503 else responds 200;
  };
  recovered = (λ port. responds 200) ∷ [];
}

run_cycle_exactly_example : ((run_cycle (codes "state-svc") trial).0 ≡ true) ↔ (
    Some (λ a. a ≡ unreachable) trial.gone
    × AreGraceful (codes "state-svc") trial.probes
    × Some AreReady trial.recovered)
run_cycle_exactly_example = run_cycle_exactly (codes "state-svc") trial
