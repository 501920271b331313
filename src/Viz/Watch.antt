-- ===== src/Viz/Watch.antt =====
-- The connectivity watch of services/viz-svc/src/viz_svc/stream.py, `run` and `readiness` of
-- `StateStream`, and the readiness endpoints of viz-svc and command-svc that stand on such probes.
use twin_services.Base.{
  ℕ, ◌≡◌, ◌≢◌, ◌↔◌, refl, sym, ap, ◌∙◌, Text, codes, Bool, true, false, not, Option, none, some,
  List, [], ◌∷◌, arith, Bool-cases, inl, inr, if◌then◌else◌,
}
use twin_services.Base.Eq.{Dict}
use twin_services.Health.{Report, passes, gauge_value}

-- `grpc.ChannelConnectivity`
pub data Connectivity : Type 0 where
  idle connecting ready transient_failure shutdown : Connectivity

-- `connectivity == grpc.ChannelConnectivity.READY`
abbrev pub is_ready : Connectivity → Bool
is_ready ready = true
is_ready _ = false

pub record StateStream : Type 0 where
  -- the channel, which changes behind the service's back
  pub channel : Connectivity
  -- the connectivity whose change the watch awaits; none before its first round
  pub awaited : Option Connectivity
  -- `_ready`
  pub ready : Bool

-- The channel changes, or the watch goes one round.
pub data Event : Type 0 where
  changes : Connectivity → Event
  rounds : Event

-- `StateStream(config)`
unfoldable pub start : Connectivity → StateStream
start c = record { channel = c; awaited = none; ready = false }

-- `connectivity` is the same as the one awaited.
abbrev same : Connectivity → Connectivity → Bool
same idle idle = true
same connecting connecting = true
same ready ready = true
same transient_failure transient_failure = true
same shutdown shutdown = true
same _ _ = false

-- `wait_for_state_change` returns once the channel is in another state.
abbrev pub is_due : StateStream → Bool
is_due s = elim s.awaited [ none ↦ true | some c ↦ not (same c s.channel) ]

-- One round of the loop of `run`, from a wake-up to the next wait.
abbrev look : StateStream → StateStream
look s = record s { awaited = some s.channel; ready = is_ready s.channel }

unfoldable pub step : Event → StateStream → StateStream
step (changes c) s = record s { channel = c }
step rounds s = if is_due s then look s else s

unfoldable pub run : List Event → StateStream → StateStream
unfolding step
run [] s = s
run (e ∷ es) s = run es (step e s)

unfoldable pub readiness : StateStream → Dict Text Bool
readiness s = (codes "state_grpc", s.ready) ∷ []

-- `ready` of app.py: the gauge behind it, and the report.
unfoldable pub ready_report : StateStream → ℕ × Report
unfolding readiness
ready_report s =
    let checks = readiness s in
    let ok = passes checks in
    (
      gauge_value ok,
      record {
        status_code = if ok then 200 else 503;
        status = if ok then codes "ready" else codes "degraded";
        checks = checks;
      },
    )

-- `metrics` of app.py refreshes the gauge.
unfoldable pub metrics : StateStream → ℕ
unfolding readiness
metrics s = gauge_value (passes (readiness s))

-- What is reported is what was seen last.
abbrev pub IsHonest : StateStream → Type 0
IsHonest s = elim s.awaited [ none ↦ s.ready ≡ false | some c ↦ s.ready ≡ is_ready c ]

look_if-IsHonest :
    (due : Bool) (s : StateStream) → IsHonest s → IsHonest (if due then look s else s)
look_if-IsHonest true s h = refl
look_if-IsHonest false s h = h

run-IsHonest : (es : List Event) (s : StateStream) → IsHonest s → IsHonest (run es s)
unfolding run step
run-IsHonest [] s h = h
run-IsHonest (changes c ∷ es) s h = run-IsHonest es (record s { channel = c }) h
run-IsHonest (rounds ∷ es) s h = run-IsHonest es _ (look_if-IsHonest (is_due s) s h)

same_sound : (a b : Connectivity) → same a b ≡ true → a ≡ b
same_sound idle b h = ground arith
same_sound connecting b h = ground arith
same_sound ready b h = ground arith
same_sound transient_failure b h = ground arith
same_sound shutdown b h = ground arith

same_itself : (a : Connectivity) → same a a ≡ true
same_itself idle = refl
same_itself connecting = refl
same_itself ready = refl
same_itself transient_failure = refl
same_itself shutdown = refl

-- Nothing is due for the watch when it awaits what the channel is in.
at_rest :
    (awaited : Option Connectivity) (channel : Connectivity) (r : Bool)
    → IsHonest (record { channel = channel; awaited = awaited; ready = r })
    → is_due (record { channel = channel; awaited = awaited; ready = r }) ≡ false
    → r ≡ is_ready channel
at_rest none channel r h d = cc
at_rest (some c) channel r h d = elim (Bool-cases (same c channel)) [
  | inl e ↦ h ∙ ap is_ready (same_sound c channel e)
  | inr e ↦ ground arith
]

is_ready_sound : (c : Connectivity) → is_ready c ≡ true → c ≡ ready
is_ready_sound c h = ground arith

round_keeps : (due : Bool) (s : StateStream) → (if due then look s else s).channel ≡ s.channel
round_keeps true s = refl
round_keeps false s = refl

round_sees :
    (due : Bool) (s : StateStream)
    → is_due s ≡ due
    → IsHonest s
    → (if due then look s else s).ready ≡ is_ready s.channel
round_sees true s e h = refl
round_sees false s e h = at_rest s.awaited s.channel s.ready h e

status-ready :
    (s : StateStream)
    → s.ready ≡ is_ready s.channel
    → (((ready_report s).1.status_code ≡ 200) ↔ (s.channel ≡ ready))
      × (((ready_report s).0 ≡ 1) ↔ (s.channel ≡ ready))
      × (metrics s ≡ (ready_report s).0)
unfolding ready_report metrics
status-ready s e = elim (Bool-cases (is_ready s.channel)) [
  | inl r ↦
      let is : s.channel ≡ ready = is_ready_sound s.channel r in
      rw (e, r) ((λ h. is, λ h. refl), (λ h. is, λ h. refl), refl)
  | inr r ↦
      let is_not : s.channel ≢ ready = λ h. cc (sym r ∙ ap is_ready h) in
      rw (e, r)
        (
          (λ h. absurd (omega arith), λ h. absurd (is_not h)),
          (λ h. absurd (omega arith), λ h. absurd (is_not h)),
          refl,
        )
]

-- However the channel of viz-svc changes and however often the watch goes round, right after a
-- round /healthz/ready answers 200, and sets the gauge to 1, exactly when the channel to state-svc
-- is READY; a scrape sets the gauge to the same value.
pub ready-rounds :
    (c : Connectivity) (es : List Event) (s : StateStream)
    → s ≡ step rounds (run es (start c))
    → (s.channel ≡ (run es (start c)).channel)
      × (((ready_report s).1.status_code ≡ 200) ↔ (s.channel ≡ ready))
      × (((ready_report s).0 ≡ 1) ↔ (s.channel ≡ ready))
      × (metrics s ≡ (ready_report s).0)
unfolding step
ready-rounds c es s h =
    let t = run es (start c) in
    let kept = round_keeps (is_due t) t in
    let seen = round_sees (is_due t) t refl (run-IsHonest es (start c) (unfold start in refl)) in
    let same_channel = ap (λ (u : StateStream). u.channel) h ∙ kept in
    let (status, gauge, scrape) =
      status-ready s
        (ap (λ (u : StateStream). u.ready) h ∙ seen ∙ ap is_ready (sym same_channel)) in
    (same_channel, status, gauge, scrape)
