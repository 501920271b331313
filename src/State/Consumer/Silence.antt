-- ===== src/State/Consumer/Silence.antt =====
-- What one message with a stamp that protobuf cannot hold does to the service.
use mathlib.Core.Path.{subst}
use twin_services.Base.{
  suc, ◌≤◌, ◌≡◌, refl, sym, ap, ◌∙◌, Text, true, false, Option, none, some, Option-cases,
  Bool-cases, List, [], ◌∷◌, arith, inl, inr, if◌then◌else◌,
}
use twin_services.Base.Eq.{lookup, contains, text_is_eq}
use twin_services.Base.Result.{◌>>=◌, ok, ok-injective, >>=-eq-ok}
use twin_services.Floats.{Floats}
use twin_services.Contracts.Vocabulary.{JointField}
use twin_services.Contracts.Telemetry.{JointTelemetry, TelemetryJson}
use twin_services.State.Window.{RollingWindow, observe}
use twin_services.State.Window.Finite.{observe_absent, observe_present, remember-stamp_ns}
use twin_services.State.Build.{TwinState, Vendor, uint64_size, build_state}
use twin_services.State.Build.Laws.{build_state-Reflects}
use twin_services.State.Consumer.Account.{broadcast_clean}
use twin_services.State.Consumer.{
  Consumer, Message, Verdict, bad_topic, bad_joint, bad_payload, accepted, judge, apply_verdict,
  Event, connected, disconnected, tick, message, client_joins, client_leaves, client_reads,
  announce, broadcast, observe_message, step, run,
}

module _ (fl : Floats) where
  open fl use {F}

  -- The stamp of the window never goes back.
  observe-stamp_ns :
      (j : Text) (f : JointField) (m : JointTelemetry F) (w : RollingWindow F)
      → w.stamp_ns ≤ (observe j f m w).stamp_ns
  observe-stamp_ns j f m w = elim (Option-cases (lookup j w.velocities)) [
    | inl absent ↦ rw (observe_absent fl j f m w absent) (omega arith)
    | inr (h, there) ↦
        rw (observe_present fl j f m w h there, remember-stamp_ns fl f j h m) (omega arith)
  ]

  -- It takes the stamp of a message for a joint that is tracked.
  observe-takes_stamp :
      (j : Text) (f : JointField) (m : JointTelemetry F) (w : RollingWindow F)
      → contains j w.velocities ≡ true
      → m.stamp_ns ≤ (observe j f m w).stamp_ns
  unfolding contains
  observe-takes_stamp j f m w c = elim (Option-cases (lookup j w.velocities)) [
    | inl absent ↦ ground arith
    | inr (h, there) ↦
        rw (observe_present fl j f m w h there, remember-stamp_ns fl f j h m) (omega arith)
  ]

module _ (fl : Floats) (vendor : Vendor fl.F) where
  open fl use {F}

  -- The service has published nothing since `c`, and its window's stamp is out of range.
  pub record IsSilent (c c' : Consumer F) : Type 0 where
    pub none_published : c'.published ≡ c.published
    pub out_of_range : uint64_size ≤ c'.window.stamp_ns

  IsSilent-then : (c d e : Consumer F) → IsSilent c d → IsSilent d e → IsSilent c e
  IsSilent-then c d e p q = record {
    none_published = q.none_published ∙ p.none_published;
    out_of_range = q.out_of_range;
  }

  no_state :
      (c : Consumer F) (st : TwinState F)
      → uint64_size ≤ c.window.stamp_ns
      → build_state fl vendor c.config.asset_name c.window c.config.rms_window_s ≡ ok (some st)
      → ⊥
  no_state c st large h =
      let r =
        build_state-Reflects fl vendor c.config.asset_name c.window c.config.rms_window_s st h in
      cc (sym r.in_range ∙ vendor.uint64_too_large c.window.stamp_ns large)

  announce-IsSilent :
      (o : Option (TwinState F)) (c c' : Consumer F)
      → uint64_size ≤ c.window.stamp_ns
      → build_state fl vendor c.config.asset_name c.window c.config.rms_window_s ≡ ok o
      → announce fl vendor o (record c { dirty = false }) ≡ ok c'
      → IsSilent c c'
  unfolding announce
  announce-IsSilent none c c' large found h =
      subst (IsSilent c) (ok-injective h) (record { none_published = refl; out_of_range = large })
  announce-IsSilent (some st) c c' large found h = absurd (no_state c st large found)

  broadcast_due :
      (c : Consumer F)
      → c.dirty ≡ true
      → broadcast fl vendor c ≡ (
          build_state fl vendor c.config.asset_name c.window c.config.rms_window_s >>= λ o.
          announce fl vendor o (record c { dirty = false }))
  unfolding broadcast
  broadcast_due c e =
      ap
        (λ b.
          if b
          then (build_state fl vendor c.config.asset_name c.window c.config.rms_window_s >>= λ o.
              announce fl vendor o (record c { dirty = false }))
          else ok c)
        e

  broadcast-IsSilent :
      (c c' : Consumer F)
      → uint64_size ≤ c.window.stamp_ns
      → broadcast fl vendor c ≡ ok c'
      → IsSilent c c'
  broadcast-IsSilent c c' large h = elim (Bool-cases c.dirty) [
    | inl due ↦
        let (o, found, rest) =
          >>=-eq-ok (build_state fl vendor c.config.asset_name c.window c.config.rms_window_s) _
            (sym (broadcast_due c due) ∙ h) in
        announce-IsSilent o c c' large found rest
    | inr clean ↦
        subst (IsSilent c) (ok-injective (sym (broadcast_clean fl vendor c clean) ∙ h))
          (record { none_published = refl; out_of_range = large })
  ]

  verdict-stamp_ns :
      (v : Verdict F) (c : Consumer F) → c.window.stamp_ns ≤ (apply_verdict v c).window.stamp_ns
  unfolding apply_verdict
  verdict-stamp_ns bad_topic c = omega arith
  verdict-stamp_ns bad_joint c = omega arith
  verdict-stamp_ns bad_payload c = omega arith
  verdict-stamp_ns (accepted j f m) c = observe-stamp_ns fl j f m c.window

  accepted-stamp_ns :
      (j : Text) (f : JointField) (sample : JointTelemetry F) (c : Consumer F)
      → contains j c.window.velocities ≡ true
      → uint64_size ≤ sample.stamp_ns
      → uint64_size ≤ (apply_verdict (accepted j f sample) c).window.stamp_ns
  unfolding apply_verdict
  accepted-stamp_ns j f sample c tracked large =
      omega (arith, large, observe-takes_stamp fl j f sample c.window tracked)

  verdict-published : (v : Verdict F) (c : Consumer F) → (apply_verdict v c).published ≡ c.published
  unfolding apply_verdict
  verdict-published bad_topic c = refl
  verdict-published bad_joint c = refl
  verdict-published bad_payload c = refl
  verdict-published (accepted j f m) c = refl

  module _ (json : TelemetryJson F fl.is_finite) where
    step-IsSilent :
        (e : Event json.Payload) (c c' : Consumer F)
        → uint64_size ≤ c.window.stamp_ns
        → step fl vendor json e c ≡ ok c'
        → IsSilent c c'
    unfolding step observe_message
    step-IsSilent connected c c' large h =
        subst (IsSilent c) (ok-injective h) (record { none_published = refl; out_of_range = large })
    step-IsSilent disconnected c c' large h =
        subst (IsSilent c) (ok-injective h) (record { none_published = refl; out_of_range = large })
    step-IsSilent tick c c' large h = broadcast-IsSilent c c' large h
    step-IsSilent (message m) c c' large h = subst (IsSilent c) (ok-injective h) (record {
      none_published = verdict-published (judge json m) _;
      out_of_range =
          omega (
            arith,
            large,
            verdict-stamp_ns (judge json m) (record c { messages = suc c.messages }),
          );
    })
    step-IsSilent (client_joins i) c c' large h =
        subst (IsSilent c) (ok-injective h) (record { none_published = refl; out_of_range = large })
    step-IsSilent (client_leaves i) c c' large h =
        subst (IsSilent c) (ok-injective h) (record { none_published = refl; out_of_range = large })
    step-IsSilent (client_reads i) c c' large h =
        subst (IsSilent c) (ok-injective h) (record { none_published = refl; out_of_range = large })

    run-IsSilent :
        (es : List (Event json.Payload)) (c c' : Consumer F)
        → uint64_size ≤ c.window.stamp_ns
        → run fl vendor json es c ≡ ok c'
        → IsSilent c c'
    unfolding run
    run-IsSilent [] c c' large h =
        subst (IsSilent c) (ok-injective h) (record { none_published = refl; out_of_range = large })
    run-IsSilent (e ∷ es) c c' large h =
        let (d, first, rest) = >>=-eq-ok (step fl vendor json e c) (run fl vendor json es) h in
        let one = step-IsSilent e c d large first in
        IsSilent-then c d c' one (run-IsSilent es d c' one.out_of_range rest)

    -- One accepted message for a tracked joint with a stamp from 2^64 on silences state-svc for good:
    -- whatever messages, rounds of the broadcaster and clients follow, the service either ends with
    -- an exception or has published no state since, and its window's stamp stays out of range.
    pub large_stamp-IsSilent :
        (m : Message json.Payload) (j : Text) (f : JointField) (sample : JointTelemetry F)
        (es : List (Event json.Payload)) (c c' : Consumer F)
        → judge json m ≡ accepted j f sample
        → contains j c.window.velocities ≡ true
        → uint64_size ≤ sample.stamp_ns
        → run fl vendor json (message m ∷ es) c ≡ ok c'
        → IsSilent c c'
    unfolding run step observe_message
    large_stamp-IsSilent m j f sample es c c' is tracked large h =
        let seen = record c { messages = suc c.messages } in
        let d = apply_verdict (judge json m) seen in
        let taken : uint64_size ≤ d.window.stamp_ns =
          subst (λ v. uint64_size ≤ (apply_verdict v seen).window.stamp_ns) (sym is)
            (accepted-stamp_ns j f sample seen tracked large) in
        IsSilent-then c d c'
          (record { none_published = verdict-published (judge json m) seen; out_of_range = taken })
          (run-IsSilent es d c' taken h)
