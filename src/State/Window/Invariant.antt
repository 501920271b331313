-- ===== src/State/Window/Invariant.antt =====
-- What holds of a window from its start on, and one message at a time.
use twin_services.Base.{
  ℕ, Text, ◌≤◌, ◌≡◌, true, some, List, [], ◌∷◌, All, All-append, max, arith, text_eq, Bool-cases,
  Option-cases, inl, inr,
}
use mathlib.Core.Path.{subst}
use twin_services.Base.Eq.{
  lookup, insert, contains, lookup-insert, contains-insert, contains_of-lookup, text_is_eq,
}
use twin_services.Base.Int.{ℤ}
use twin_services.Contracts.Vocabulary.{JointField, position, velocity, effort}
use twin_services.Contracts.Telemetry.{JointTelemetry}
use twin_services.State.Window.{
  Channel, channel_is_eq, channel_eq_iff, History, RollingWindow, prune, remember, observe,
}

-- No sample is newer than `stamp`.
abbrev pub Before : {F : Type 0} → ℕ → History F → Type 0
Before stamp = All (λ e. e.0 ≤ stamp)

pub record IsWellFormed {F : Type 0} (w : RollingWindow F) : Type 0 where
  -- every joint of the window has a history
  pub tracked : All (λ j. contains j w.velocities ≡ true) w.joints
  -- no sample is newer than the window's stamp
  pub bounded : (j : Text) (h : History F) → lookup j w.velocities ≡ some h → Before w.stamp_ns h
  -- only joints of the window have readings
  pub known :
      (c : Channel) (v : F) → lookup c w.latest ≡ some v → contains c.joint w.velocities ≡ true

module _ {F : Type 0} where
  prune-Before : (n : ℕ) (c : ℤ) (h : History F) → Before n h → Before n (prune c h)
  unfolding prune
  prune-Before n c [] b = tt
  prune-Before n c (e ∷ h) b = ground (arith, prune-Before n c h b.1)

  Before-mono : (m n : ℕ) (h : History F) → m ≤ n → Before m h → Before n h
  Before-mono m n [] le b = tt
  Before-mono m n (e ∷ h) le b = (omega (arith, b.0), Before-mono m n h le b.1)

  All-contains-insert :
      (k : Text) (v : History F) (d : List (Text × History F)) (js : List Text)
      → All (λ j. contains j d ≡ true) js
      → All (λ j. contains j (insert k v d) ≡ true) js
  All-contains-insert k v d [] a = tt
  All-contains-insert k v d (j ∷ js) a =
      (contains-insert k j v d a.0, All-contains-insert k v d js a.1)

  -- The reading of a joint that has a history keeps the readings to such joints.
  known-insert :
      (vs : List (Text × History F)) (latest : List (Channel × F)) (joint : Text) (f : JointField)
      (x : F)
      → contains joint vs ≡ true
      → ((c : Channel) (v : F) → lookup c latest ≡ some v → contains c.joint vs ≡ true)
      → (c : Channel) (v : F)
      → lookup c (insert (record { joint = joint; field = f }) x latest) ≡ some v
      → contains c.joint vs ≡ true
  known-insert vs latest joint f x there known c v e =
      let key : Channel = record { joint = joint; field = f } in
      ground (arith, lookup-insert key c x latest, channel_eq_iff key c, known c v)

  bounded-insert :
      (vs : List (Text × History F)) (joint : Text) (n : ℕ) (h : History F)
      → Before n h
      → ((j : Text) (g : History F) → lookup j vs ≡ some g → Before n g)
      → (j : Text) (g : History F) → lookup j (insert joint h vs) ≡ some g
      → Before n g
  bounded-insert vs joint n h new old j g e = elim (Bool-cases (text_eq joint j)) [
    | inl same ↦
        let h_is : h ≡ g = ground (arith, lookup-insert joint j h vs) in subst (Before n) h_is new
    | inr other ↦ old j g (ground (arith, lookup-insert joint j h vs))
  ]

  remember-IsWellFormed :
      (joint : Text) (f : JointField) (h : History F) (m : JointTelemetry F) (w : RollingWindow F)
      → lookup joint w.velocities ≡ some h
      → IsWellFormed w
      → IsWellFormed (
          remember f joint h m (record w {
            latest = insert (record { joint = joint; field = f }) m.value w.latest;
            stamp_ns = max w.stamp_ns m.stamp_ns;
          }))
  unfolding remember
  remember-IsWellFormed joint velocity h m w there v = record {
    tracked = All-contains-insert joint _ w.velocities w.joints v.tracked;
    bounded =
        bounded-insert w.velocities joint _ _
          (prune-Before _ _ _ (
            All-append (λ e. e.0 ≤ max w.stamp_ns m.stamp_ns) h _
              (older h (v.bounded joint h there)) (omega arith, tt)))
          λ j g e. older g (v.bounded j g e);
    known = λ c x e.
        contains-insert joint c.joint _ w.velocities
          (known-insert w.velocities w.latest joint velocity m.value has v.known c x e);
  }
    where
      older : (g : History F) → Before w.stamp_ns g → Before (max w.stamp_ns m.stamp_ns) g
      older g = Before-mono w.stamp_ns (max w.stamp_ns m.stamp_ns) g (omega arith)

      has : contains joint w.velocities ≡ true
      has = contains_of-lookup joint h w.velocities there
  remember-IsWellFormed joint position h m w there v = record {
    tracked = v.tracked;
    bounded = λ j g e.
        Before-mono w.stamp_ns (max w.stamp_ns m.stamp_ns) g (omega arith) (v.bounded j g e);
    known =
        known-insert w.velocities w.latest joint position m.value
          (contains_of-lookup joint h w.velocities there) v.known;
  }
  remember-IsWellFormed joint effort h m w there v = record {
    tracked = v.tracked;
    bounded = λ j g e.
        Before-mono w.stamp_ns (max w.stamp_ns m.stamp_ns) g (omega arith) (v.bounded j g e);
    known =
        known-insert w.velocities w.latest joint effort m.value
          (contains_of-lookup joint h w.velocities there) v.known;
  }

  pub observe-IsWellFormed :
      (joint : Text) (f : JointField) (m : JointTelemetry F) (w : RollingWindow F)
      → IsWellFormed w
      → IsWellFormed (observe joint f m w)
  unfolding observe
  observe-IsWellFormed joint f m w v = elim (Option-cases (lookup joint w.velocities)) [
    | inl absent ↦ rw (absent, observe) v
    | inr (h, there) ↦ rw (there, observe) (remember-IsWellFormed joint f h m w there v)
  ]
