-- ===== src/Bridge/Pipeline/Service.antt =====
-- Stretches in which the broker serves the bridge.
use twin_services.Base.{◌≡◌, refl, ap, ◌∙◌, Text, Bool, true, List, [], ◌∷◌, ◌++◌, All, All-append}
use twin_services.Base.Result.{ok, >>=-eq-ok, ok-injective}
use twin_services.Contracts.Telemetry.{TelemetryJson}
use twin_services.Bridge.Pipeline.{Pipeline, Event, arrives, connects, publishes, step, run}

module _ {F : Type 0} {is_finite : F → Bool} (json : TelemetryJson F is_finite) (asset : Text)
    (accepts : Text → Bool) where
  open json use {Payload}

  -- The broker takes what it is given, and nothing new arrives.
  abbrev pub IsServing : Event F → Type 0
  IsServing (arrives m) = ⊥
  IsServing (connects success) = success ≡ true
  IsServing (publishes success) = success ≡ true
  IsServing _ = Unit

  -- A stretch of service leads from `s` to `t`.
  pub record Reaches (s t : Pipeline F Payload) : Type 0 where
    pub events : List (Event F)
    pub serving : All IsServing events
    pub leads : run json asset accepts events s ≡ ok t

  run-append :
      (es fs : List (Event F)) (s t : Pipeline F Payload)
      → run json asset accepts es s ≡ ok t
      → run json asset accepts (es ++ fs) s ≡ run json asset accepts fs t
  unfolding run
  run-append [] fs s t h = ap (run json asset accepts fs) (ok-injective h)
  run-append (e ∷ es) fs s t h =
      let (u, first, rest) =
        >>=-eq-ok (step json asset accepts e s) (run json asset accepts es) h in
      rw first (run-append es fs u t rest)

  pub Reaches-itself : (s : Pipeline F Payload) → Reaches s s
  Reaches-itself s = record { events = []; serving = tt; leads = unfold run in refl }

  pub Reaches-then : (s t u : Pipeline F Payload) → Reaches s t → Reaches t u → Reaches s u
  Reaches-then s t u p q = record {
    events = p.events ++ q.events;
    serving = All-append IsServing p.events q.events p.serving q.serving;
    leads = run-append p.events q.events s t p.leads ∙ q.leads;
  }

  pub Reaches-step :
      (e : Event F) (s t : Pipeline F Payload)
      → IsServing e
      → step json asset accepts e s ≡ ok t
      → Reaches s t
  Reaches-step e s t serving h = record {
    events = e ∷ [];
    serving = (serving, tt);
    leads = unfold run in rw h refl;
  }
