-- ===== src/State/Consumer/Uptime.antt =====
-- When the service keeps running: no event of a run raises.
use mathlib.Core.Path.{subst}
use mathlib.Core.List.{append-nil}
use twin_services.Base.{
  arith, suc, ◌<◌, ◌≡◌, refl, sym, ap, ◌∙◌, true, false, Bool-cases, Option, none, some, List, [],
  ◌∷◌, length, All, All-split, inl, inr,
}
use twin_services.Base.Result.{ok, Total}
use twin_services.Floats.{Floats}
use twin_services.Contracts.Telemetry.{TelemetryJson}
use twin_services.Base.Eq.{Dict, lookup}
use twin_services.Contracts.Vocabulary.{ur5_joint_names}
use twin_services.State.Window.Start.{IsFresh, init-IsFresh}
use twin_services.State.Window.{
  RollingWindow, Channel, channel_is_eq, init, JointSnapshot, snapshot,
}
use twin_services.State.Window.History.{Observation}
use twin_services.State.Window.Snapshot.{snapshot_exactly-Describes}
use twin_services.State.Window.Finite.{
  HasMeans, snapshot_total, IsServable, observe-joints, observe-IsServable, Describes-cosines,
}
use twin_services.State.Hub.Mailbox.{AreMailboxes}
use twin_services.State.Hub.Refinement.{
  subscribe-mailboxes, unsubscribe-mailboxes, receive-mailboxes,
}
use twin_services.State.Kinematics.Pivot.{IsExact}
use twin_services.State.Kinematics.Forward.{AllCosines, TwistsHaveCosines}
use twin_services.State.Build.{TwinState, Vendor, build_state, uint64_size}
use twin_services.State.Build.Laws.{positions, build_state_total}
use twin_services.Config.{StateConfig}
use twin_services.State.Consumer.{
  start, Consumer, Verdict, bad_topic, bad_joint, bad_payload, accepted, judge, apply_verdict,
  Event, connected, disconnected, tick, message, client_joins, client_leaves, client_reads,
  broadcast, step, run,
}
use twin_services.State.Consumer.Account.{
  admitted, admitted_of, admitted_of-cons, broadcast_clean, broadcast_incomplete,
}
use twin_services.State.Consumer.Broadcast.{broadcast-Broadcasts}

-- Exact arithmetic in which every finite number has a cosine and a sine.
pub record IsTame (fl : Floats) : Type 1 where
  pub exact : IsExact fl
  pub means : HasMeans fl
  pub twists : TwistsHaveCosines fl
  pub cosines : (x : fl.F) → fl.is_finite x ≡ true → Total (fl.cos x) × Total (fl.sin x)

module _ (fl : Floats) (vendor : Vendor fl.F) where
  open fl use {F, is_finite}

  -- A consumer of six joints that can serve: its window has finite readings only and a stamp that
  -- fits in 64 bits, and its clients have mailboxes.
  pub record IsReady (c : Consumer F) : Type 0 where
    pub servable : IsServable fl uint64_size c.window
    pub six : length c.window.joints ≡ 6
    pub mailboxes : AreMailboxes c.hub.subscribers

  abbrev pub IsAdmissible : Observation F → Type 0
  IsAdmissible o = (is_finite o.sample.value ≡ true) × (o.sample.stamp_ns < uint64_size)

  finite_nothing :
      (latest : Dict Channel F)
      → latest ≡ []
      → (c : Channel) (v : F) → lookup c latest ≡ some v
      → is_finite v ≡ true
  unfolding lookup
  finite_nothing [] e c v h = cc
  finite_nothing (p ∷ d) e c v h = cc

  -- A consumer can serve as the service starts with it.
  pub start-IsReady :
      (config : StateConfig F) (w : RollingWindow F)
      → IsFresh ur5_joint_names w
      → IsReady (start config w)
  unfolding start
  start-IsReady config w f = record {
    servable = record {
      well_formed = f.well_formed;
      finite = finite_nothing w.latest f.no_readings;
      fits = omega (arith, f.stamp);
    };
    six = ap length f.joints;
    mailboxes = tt;
  }

  module _ (tame : IsTame fl) where
    AllCosines-positions :
        (ss : List (JointSnapshot F))
        → All
            (λ (s : JointSnapshot F). Total (fl.cos s.position_rad) × Total (fl.sin s.position_rad))
            ss
        → AllCosines fl (positions ss)
    AllCosines-positions [] a = tt
    AllCosines-positions (s ∷ ss) a = (a.0, AllCosines-positions ss a.1)

    -- A consumer that can serve makes a state of its snapshot.
    pub build_state_ready :
        (c : Consumer F)
        → IsReady c
        → (ss : List (JointSnapshot F)) → snapshot fl c.window ≡ ok (some ss)
        → (state : TwinState F) × (build_state fl vendor c.config.asset_name c.window
              c.config.rms_window_s
            ≡ ok (some state))
    build_state_ready c r ss e =
        let described = (snapshot_exactly-Describes fl c.window ss).0 e in
        let cosines = AllCosines-positions ss (
          Describes-cosines fl tame.cosines uint64_size c.window c.window.joints ss r.servable
            described) in
        build_state_total fl vendor tame.exact tame.twists c.config.asset_name c.window
          c.config.rms_window_s ss e r.six r.servable.fits cosines

    broadcast-IsReady :
        (c : Consumer F)
        → IsReady c
        → (c' : Consumer F) × (broadcast fl vendor c ≡ ok c') × IsReady c'
    broadcast-IsReady c r = elim (Bool-cases c.dirty) [
      | inr n ↦ (c, quiet n, r)
      | inl d ↦
          let (o, e) = snapshot_total fl tame.means c.window r.servable.well_formed in
          by_snapshot d o e
    ]
      where
        quiet : c.dirty ≡ false → broadcast fl vendor c ≡ ok c
        quiet n = broadcast_clean fl vendor c n

        by_snapshot :
            c.dirty ≡ true
            → (o : Option (List (JointSnapshot F))) → snapshot fl c.window ≡ ok o
            → (c' : Consumer F) × (broadcast fl vendor c ≡ ok c') × IsReady c'
        by_snapshot d none e = (
          record c { dirty = false },
          broadcast_incomplete fl vendor c d e,
          record { servable = r.servable; six = r.six; mailboxes = r.mailboxes },
        )
        by_snapshot d (some ss) e =
            let (state, b) = build_state_ready c r ss e in
            let (c', did) = broadcast-Broadcasts fl vendor c state d b r.mailboxes in
            (
              c',
              did.returns,
              record {
                servable = subst (IsServable fl uint64_size) (sym did.same_window) r.servable;
                six = ap (λ w. length w.joints) did.same_window ∙ r.six;
                mailboxes = did.mailboxes;
              },
            )

    module _ (json : TelemetryJson F is_finite) where
      verdict-IsReady :
          (v : Verdict F) (c : Consumer F)
          → All IsAdmissible (admitted v)
          → IsReady c
          → IsReady (apply_verdict v (record c { messages = suc c.messages }))
      unfolding apply_verdict
      verdict-IsReady bad_topic c a r = record {
        servable = r.servable;
        six = r.six;
        mailboxes = r.mailboxes;
      }
      verdict-IsReady bad_joint c a r = record {
        servable = r.servable;
        six = r.six;
        mailboxes = r.mailboxes;
      }
      verdict-IsReady bad_payload c a r = record {
        servable = r.servable;
        six = r.six;
        mailboxes = r.mailboxes;
      }
      verdict-IsReady (accepted j f m) c a r = record {
        servable = observe-IsServable fl uint64_size j f m c.window a.0.0 a.0.1 r.servable;
        six = ap length (observe-joints fl j f m c.window) ∙ r.six;
        mailboxes = r.mailboxes;
      }

      step-IsReady :
          (e : Event json.Payload) (c : Consumer F)
          → All IsAdmissible (admitted_of json (e ∷ []))
          → IsReady c
          → (c' : Consumer F) × (step fl vendor json e c ≡ ok c') × IsReady c'
      unfolding step
      step-IsReady connected c a r =
          (_, refl, record { servable = r.servable; six = r.six; mailboxes = r.mailboxes })
      step-IsReady disconnected c a r =
          (_, refl, record { servable = r.servable; six = r.six; mailboxes = r.mailboxes })
      step-IsReady tick c a r = broadcast-IsReady c r
      step-IsReady (message m) c a r =
          (_, refl, verdict-IsReady (judge json m) c (rw append-nil at a) r)
      step-IsReady (client_joins i) c a r = (
        _,
        refl,
        record {
          servable = r.servable;
          six = r.six;
          mailboxes = subscribe-mailboxes i c.hub r.mailboxes;
        },
      )
      step-IsReady (client_leaves i) c a r = (
        _,
        refl,
        record {
          servable = r.servable;
          six = r.six;
          mailboxes = unsubscribe-mailboxes i c.hub r.mailboxes;
        },
      )
      step-IsReady (client_reads i) c a r = (
        _,
        refl,
        record {
          servable = r.servable;
          six = r.six;
          mailboxes = receive-mailboxes i c.hub r.mailboxes;
        },
      )

      -- In arithmetic that is exact and where finite numbers have cosines and sines, the service
      -- never stops: from a consumer that can serve, any run of messages, rounds of the
      -- broadcaster, losses of the connection and clients that join, read and leave returns a
      -- consumer that can serve, if each message that is admitted has a finite value and a stamp
      -- below 2^64. Messages that are rejected may be anything.
      pub run-IsReady :
          (es : List (Event json.Payload)) (c : Consumer F)
          → All IsAdmissible (admitted_of json es)
          → IsReady c
          → (c' : Consumer F) × (run fl vendor json es c ≡ ok c') × IsReady c'
      unfolding run
      run-IsReady [] c a r = (c, refl, r)
      run-IsReady (e ∷ es) c a r =
          let (first, rest) =
            All-split IsAdmissible (admitted_of json (e ∷ [])) _
              (rw (admitted_of-cons json e es) at a) in
          let (d, s, rd) = step-IsReady e c first r in
          let (c', t, r') = run-IsReady es d rest rd in (c', rw (s, t), r')

      -- In arithmetic that is exact and where finite numbers have cosines and sines, from the
      -- start of the service with a new window of the six joints, any run returns if every
      -- admitted message has a finite value and a stamp below 2^64.
      pub run-start :
          (config : StateConfig F) (w : RollingWindow F) (es : List (Event json.Payload))
          → init fl config.rms_window_s ur5_joint_names ≡ ok w
          → All IsAdmissible (admitted_of json es)
          → Total (run fl vendor json es (start config w))
      run-start config w es made a =
          let fresh = init-IsFresh fl config.rms_window_s ur5_joint_names w made in
          let (c, r, rest) = run-IsReady es (start config w) a (start-IsReady config w fresh) in
          (c, r)
