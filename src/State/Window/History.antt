-- ===== src/State/Window/History.antt =====
-- The velocity history of a joint over a whole run of messages.
use twin_services.Base.{
  ℕ, Text, ◌≤◌, ◌≡◌, refl, Bool, true, false, none, some, List, [], ◌∷◌, ◌++◌, max, arith, text_eq,
  text_eq_iff, if◌then◌else◌, Bool-cases, Option-cases, inl, inr, ◌∙◌, ap,
}
use mathlib.Core.List.{append-nil, append_assoc}
use twin_services.Base.Eq.{lookup, insert, lookup-insert, lookup-insert_self, text_is_eq}
use twin_services.Contracts.Vocabulary.{JointField, position, velocity, effort}
use twin_services.Contracts.Telemetry.{JointTelemetry}
use twin_services.State.Window.{History, RollingWindow, channel_is_eq, remember, observe}
use twin_services.State.Window.Pruning.{
  Ascending, recent, Ascending-concat, Ascending-mono, prune-recent,
}

pub record Observation (F : Type 0) : Type 0 where
  pub joint : Text
  pub field : JointField
  pub sample : JointTelemetry F

abbrev if_velocity : JointField → Bool → Bool
if_velocity velocity b = b
if_velocity _ b = false

own_joint :
    (j joint : Text) (f : JointField)
    → if_velocity f (text_eq joint j) ≡ true
    → (f ≡ velocity) × (joint ≡ j)
own_joint j joint velocity e = (refl, (text_eq_iff joint j).0 e)
own_joint j joint position e = cc
own_joint j joint effort e = cc

module _ {F : Type 0} where
  unfoldable pub observe_all : List (Observation F) → RollingWindow F → RollingWindow F
  observe_all [] w = w
  observe_all (o ∷ os) w = observe_all os (observe o.joint o.field o.sample w)

  -- The velocity samples of one joint among the messages.
  abbrev pub velocities_of : Text → List (Observation F) → History F
  velocities_of j [] = []
  velocities_of j (o ∷ os) =
      if if_velocity o.field (text_eq o.joint j)
      then (o.sample.stamp_ns, o.sample.value) ∷ velocities_of j os
      else velocities_of j os

  -- No message is older than the one before it, nor than `lo`.
  abbrev pub InOrder : ℕ → List (Observation F) → Type 0
  InOrder lo [] = Unit
  InOrder lo (o ∷ os) = (lo ≤ o.sample.stamp_ns) × InOrder o.sample.stamp_ns os

  -- What the window knows of joint `j` after the velocity samples `past`.
  record Tracks (j : Text) (past : History F) (now : ℕ) (w : RollingWindow F) : Type 0 where
    kept : lookup j w.velocities ≡ some (recent w.window_ns past)
    ordered : Ascending 0 now past
    clock : w.stamp_ns ≤ now

  -- The samples of `j` so far, and those of one more message.
  abbrev grown : Text → History F → Observation F → History F
  grown j past o =
      if if_velocity o.field (text_eq o.joint j)
      then past ++ (o.sample.stamp_ns, o.sample.value) ∷ []
      else past

  later-Tracks :
      (j : Text) (past : History F) (now now' : ℕ) (w : RollingWindow F)
      → now ≤ now'
      → Tracks j past now w
      → Tracks j past now' w
  later-Tracks j past now now' w le t = record {
    kept = t.kept;
    ordered = Ascending-mono 0 0 now now' past (omega arith) le t.ordered;
    clock = omega arith;
  }

  -- The window before `remember`.
  abbrev noted : Text → JointField → JointTelemetry F → RollingWindow F → RollingWindow F
  noted joint field sample w = record w {
    latest = insert (record { joint = joint; field = field }) sample.value w.latest;
    stamp_ns = max w.stamp_ns sample.stamp_ns;
  }

  -- A velocity sample of the joint itself.
  remember_own :
      (past : History F) (now : ℕ) (w : RollingWindow F) (joint : Text) (m : JointTelemetry F)
      → now ≤ m.stamp_ns
      → Tracks joint past now w
      → Tracks joint
          (past ++ (m.stamp_ns, m.value) ∷ [])
          m.stamp_ns
          (remember velocity joint (recent w.window_ns past) m (noted joint velocity m w))
  unfolding remember
  remember_own past now w joint m le t = record {
    kept =
        lookup-insert_self joint _ w.velocities
        ∙ ap some
            (rw clock_now (prune-recent w.window_ns now past m.stamp_ns m.value t.ordered le));
    ordered = Ascending-concat 0 now past m.stamp_ns m.value t.ordered le;
    clock = omega (arith, t.clock);
  }
    where
      clock_now : max w.stamp_ns m.stamp_ns ≡ m.stamp_ns
      clock_now = omega (arith, t.clock)

  -- Any other message leaves the history of the joint alone.
  remember_other :
      (past h : History F) (now : ℕ) (w : RollingWindow F) (j joint : Text) (f : JointField)
      (m : JointTelemetry F)
      → now ≤ m.stamp_ns
      → if_velocity f (text_eq joint j) ≡ false
      → Tracks j past now w
      → Tracks j past m.stamp_ns (remember f joint h m (noted joint f m w))
  unfolding remember
  remember_other past h now w j joint velocity m le ne t = record {
    kept = lookup-insert joint j _ w.velocities ∙ rw ne t.kept;
    ordered = Ascending-mono 0 0 now m.stamp_ns past (omega arith) le t.ordered;
    clock = omega (arith, t.clock);
  }
  remember_other past h now w j joint position m le ne t = record {
    kept = t.kept;
    ordered = Ascending-mono 0 0 now m.stamp_ns past (omega arith) le t.ordered;
    clock = omega (arith, t.clock);
  }
  remember_other past h now w j joint effort m le ne t = record {
    kept = t.kept;
    ordered = Ascending-mono 0 0 now m.stamp_ns past (omega arith) le t.ordered;
    clock = omega (arith, t.clock);
  }

  remember-Tracks :
      (past h : History F) (now : ℕ) (w : RollingWindow F) (j joint : Text) (f : JointField)
      (m : JointTelemetry F)
      → now ≤ m.stamp_ns
      → lookup joint w.velocities ≡ some h
      → Tracks j past now w
      → Tracks j
          (grown j past (record { joint = joint; field = f; sample = m }))
          m.stamp_ns
          (remember f joint h m (noted joint f m w))
  remember-Tracks past h now w j joint f m le there t =
      elim (Bool-cases (if_velocity f (text_eq joint j))) [
        | inl e ↦
            let (ef, ej) = own_joint j joint f e in
            let eh : h ≡ recent w.window_ns past = cc (ej, t.kept) in
            rw (e, ef, ej, eh) (remember_own past now w j m le t)
        | inr e ↦ rw e (remember_other past h now w j joint f m le e t)
      ]

  -- A message for a joint that the window does not have is for no joint that it has.
  no_match :
      (j : Text) (o : Observation F) (h : History F) (w : RollingWindow F)
      → lookup o.joint w.velocities ≡ none
      → lookup j w.velocities ≡ some h
      → if_velocity o.field (text_eq o.joint j) ≡ false
  no_match j o h w absent there = elim (Bool-cases (if_velocity o.field (text_eq o.joint j))) [
    | inl e ↦ cc (ap (λ x. lookup x w.velocities) (own_joint j o.joint o.field e).1)
    | inr e ↦ e
  ]

  observe-Tracks :
      (j : Text) (past : History F) (now : ℕ) (w : RollingWindow F) (o : Observation F)
      → now ≤ o.sample.stamp_ns
      → Tracks j past now w
      → Tracks j (grown j past o) o.sample.stamp_ns (observe o.joint o.field o.sample w)
  unfolding observe
  observe-Tracks j past now w o le t = elim (Option-cases (lookup o.joint w.velocities)) [
    | inl absent ↦
        rw (absent, observe)
          (rw (no_match j o (recent w.window_ns past) w absent t.kept)
            (later-Tracks j past now o.sample.stamp_ns w le t))
    | inr (h, there) ↦
        rw (there, observe) (remember-Tracks past h now w j o.joint o.field o.sample le there t)
  ]

  grown-append :
      (j : Text) (past : History F) (o : Observation F) (rest : History F)
      → grown j past o ++ rest
        ≡ past
          ++ (if if_velocity o.field (text_eq o.joint j)
              then (o.sample.stamp_ns, o.sample.value) ∷ rest
              else rest)
  grown-append j past o rest =
      ground (arith, append_assoc past ((o.sample.stamp_ns, o.sample.value) ∷ []) rest)

  observe_all-Tracks :
      (j : Text) (past : History F) (now : ℕ) (w : RollingWindow F) (os : List (Observation F))
      → InOrder now os
      → Tracks j past now w
      → lookup j (observe_all os w).velocities
        ≡ some (recent (observe_all os w).window_ns (past ++ velocities_of j os))
  unfolding observe_all
  observe_all-Tracks j past now w [] i t = rw append-nil t.kept
  observe_all-Tracks j past now w (o ∷ os) i t =
      observe_all-Tracks j (grown j past o) o.sample.stamp_ns _ os i.1
        (observe-Tracks j past now w o i.0 t)
      ∙ ap (λ x. some (recent (observe_all (o ∷ os) w).window_ns x))
          (grown-append j past o (velocities_of j os))

  window_ns-observe :
      (joint : Text) (f : JointField) (m : JointTelemetry F) (w : RollingWindow F)
      → (observe joint f m w).window_ns ≡ w.window_ns
  unfolding observe
  window_ns-observe joint f m w = ground arith

  window_ns-observe_all :
      (os : List (Observation F)) (w : RollingWindow F) → (observe_all os w).window_ns ≡ w.window_ns
  unfolding observe_all
  window_ns-observe_all [] w = refl
  window_ns-observe_all (o ∷ os) w =
      window_ns-observe_all os (observe o.joint o.field o.sample w)
      ∙ window_ns-observe o.joint o.field o.sample w

  -- From a window with an empty history for joint `j` and stamp 0, after any messages in order of
  -- their stamps the history of `j` holds exactly those velocity samples of `j` that lie within the
  -- window's length of the last of them, in order of arrival.
  pub history-observe_all :
      (j : Text) (w : RollingWindow F) (os : List (Observation F))
      → lookup j w.velocities ≡ some []
      → w.stamp_ns ≡ 0
      → InOrder 0 os
      → lookup j (observe_all os w).velocities ≡ some (recent w.window_ns (velocities_of j os))
  history-observe_all j w os empty start i =
      observe_all-Tracks j [] 0 w os i
        (record { kept = empty; ordered = omega arith; clock = omega arith })
      ∙ rw (window_ns-observe_all os w)
