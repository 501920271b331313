-- ===== src/State/Window/Latest.antt =====
-- The latest readings of the window after a log of messages.
use twin_services.Base.{
  ℕ, Text, ◌≡◌, refl, ap, ◌∙◌, true, false, ◌&&◌, Bool-cases, Option, none, some, Option-cases,
  List, [], ◌∷◌, arith, text_eq, text_eq_iff, if◌then◌else◌, inl, inr,
}
use twin_services.Base.Eq.{lookup, contains, lookup-insert, contains-insert, text_is_eq}
use twin_services.Floats.{Floats}
use twin_services.Contracts.Vocabulary.{JointField, position, velocity, effort, field_eq}
use twin_services.Contracts.Telemetry.{JointTelemetry}
use twin_services.State.Window.{channel_is_eq, RollingWindow, remember, observe, readings, channel}
use twin_services.State.Window.Finite.{
  observe-joints, observe_absent, observe_present, remember-latest,
}
use twin_services.State.Window.History.{Observation, observe_all}

module _ {F : Type 0} where
  -- The value of the last message for the field of the joint, or else `old`.
  abbrev pub newest : Text → JointField → Option F → List (Observation F) → Option F
  newest j f old [] = old
  newest j f old (o ∷ os) =
      newest j f (if text_eq o.joint j && field_eq o.field f then some o.sample.value else old) os

  abbrev pub gather : Option F → Option F → Option F → Option (F × F × F)
  gather (some p) (some v) (some e) = some (p, v, e)
  gather _ _ _ = none

module _ (fl : Floats) where
  open fl use {F}

  -- A joint that is tracked stays so.
  remember-contains :
      (joint j : Text) (f : JointField) (h : List (ℕ × F)) (m : JointTelemetry F)
      (w : RollingWindow F)
      → contains j w.velocities ≡ true
      → contains j (remember f joint h m w).velocities ≡ true
  unfolding remember
  remember-contains joint j velocity h m w c = contains-insert joint j _ w.velocities c
  remember-contains joint j position h m w c = c
  remember-contains joint j effort h m w c = c

  observe-contains :
      (o : Observation F) (j : Text) (w : RollingWindow F)
      → contains j w.velocities ≡ true
      → contains j (observe o.joint o.field o.sample w).velocities ≡ true
  observe-contains o j w c = elim (Option-cases (lookup o.joint w.velocities)) [
    | inl absent ↦ rw (observe_absent fl o.joint o.field o.sample w absent) c
    | inr (h, there) ↦
        rw (observe_present fl o.joint o.field o.sample w h there)
          (remember-contains o.joint j o.field h o.sample _ c)
  ]

  other_joint :
      (joint j : Text) (w : RollingWindow F)
      → lookup joint w.velocities ≡ none
      → contains j w.velocities ≡ true
      → text_eq joint j ≡ false
  unfolding contains
  other_joint joint j w absent c = elim (Bool-cases (text_eq joint j)) [
    | inr e ↦ e
    | inl e ↦ ground (arith, text_eq_iff joint j)
  ]

  latest-observe :
      (o : Observation F) (j : Text) (f : JointField) (w : RollingWindow F)
      → contains j w.velocities ≡ true
      → lookup (channel fl j f) (observe o.joint o.field o.sample w).latest ≡ (
          if text_eq o.joint j && field_eq o.field f
          then some o.sample.value
          else lookup (channel fl j f) w.latest)
  latest-observe o j f w c = elim (Option-cases (lookup o.joint w.velocities)) [
    | inl absent ↦
        rw (observe_absent fl o.joint o.field o.sample w absent, other_joint o.joint j w absent c)
          refl
    | inr (h, there) ↦
        ap (λ (u : RollingWindow F). lookup (channel fl j f) u.latest)
          (observe_present fl o.joint o.field o.sample w h there)
        ∙ ap (lookup (channel fl j f)) (remember-latest fl o.field o.joint h o.sample _)
        ∙ lookup-insert (channel fl o.joint o.field) (channel fl j f) o.sample.value w.latest
  ]

  -- The reading of a tracked joint is the last message's.
  pub latest-observe_all :
      (j : Text) (f : JointField) (os : List (Observation F)) (w : RollingWindow F)
      → contains j w.velocities ≡ true
      → lookup (channel fl j f) (observe_all os w).latest
        ≡ newest j f (lookup (channel fl j f) w.latest) os
  unfolding observe_all
  latest-observe_all j f [] w c = refl
  latest-observe_all j f (o ∷ os) w c =
      latest-observe_all j f os (observe o.joint o.field o.sample w) (observe-contains o j w c)
      ∙ ap (λ x. newest j f x os) (latest-observe o j f w c)

  pub readings-gather :
      (w : RollingWindow F) (j : Text)
      → readings fl w j
        ≡ gather
            (lookup (channel fl j position) w.latest)
            (lookup (channel fl j velocity) w.latest)
            (lookup (channel fl j effort) w.latest)
  unfolding readings
  readings-gather w j = ground arith

  pub joints-observe_all :
      (os : List (Observation F)) (w : RollingWindow F) → (observe_all os w).joints ≡ w.joints
  unfolding observe_all
  joints-observe_all [] w = refl
  joints-observe_all (o ∷ os) w =
      joints-observe_all os (observe o.joint o.field o.sample w)
      ∙ observe-joints fl o.joint o.field o.sample w
