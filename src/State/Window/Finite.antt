-- ===== src/State/Window/Finite.antt =====
-- Windows that have only finite readings and stamps that fit in 64 bits: their snapshots and the
-- positions in them.
use twin_services.Base.{
  ℕ, suc, Text, ◌<◌, ◌≡◌, refl, sym, ap, ◌∙◌, true, none, some, List, [], ◌∷◌, map, max, length,
  All, arith, Option-cases, inl, inr,
}
use twin_services.Base.Eq.{lookup, insert, contains, lookup-insert, lookup_of-contains, text_is_eq}
use twin_services.Base.Int.{pos}
use twin_services.Base.Result.{ok, Total}
use twin_services.Floats.{Floats}
use twin_services.Contracts.Vocabulary.{JointField, position, velocity, effort}
use twin_services.Contracts.Telemetry.{JointTelemetry}
use twin_services.State.Window.{
  Channel, channel_is_eq, History, RollingWindow, JointSnapshot, observe, remember, rms,
  velocity_rms, readings, channel, snapshot, snapshot_from,
}
use twin_services.State.Window.Invariant.{IsWellFormed, observe-IsWellFormed}
use twin_services.State.Window.Snapshot.{Describes, step_missing, step_adds}

-- The mean of squares has a root: squares, sums and quotients by a count keep a sign.
pub record HasMeans (fl : Floats) : Type 1 where
  pub NonNegative : fl.F → Type 0
  pub square : (x : fl.F) → NonNegative (fl.mul x x)
  pub sum_of : (xs : List fl.F) → All NonNegative xs → NonNegative (fl.sum xs)
  pub mean_of :
      (x : fl.F) (n : ℕ)
      → NonNegative x
      → (q : fl.F) × (fl.div x (fl.of_ℕ (suc n)) ≡ ok q) × NonNegative q
  pub root_of : (x : fl.F) → NonNegative x → Total (fl.sqrt x)

module _ (fl : Floats) where
  open fl use {F, mul, sum, div, sqrt, of_ℕ, is_finite}

  module _ (means : HasMeans fl) where
    squares-NonNegative :
        (h : History F) → All means.NonNegative (map (λ (s : ℕ × F). mul s.1 s.1) h)
    squares-NonNegative [] = tt
    squares-NonNegative (e ∷ h) = (means.square e.1, squares-NonNegative h)

    -- The mean square of any history has a root.
    pub rms_total : (h : History F) → Total (rms fl h)
    unfolding rms
    rms_total [] = (fl.literal (pos 0) 1, refl)
    rms_total (e ∷ h) =
        let squares = map (λ (s : ℕ × F). mul s.1 s.1) (e ∷ h) in
        let (q, eq, nn) =
          means.mean_of (sum squares) (length h)
            (means.sum_of squares (squares-NonNegative (e ∷ h))) in
        let (r, er) = means.root_of q nn in (r, rw (eq, er))

    pub velocity_rms_total :
        (w : RollingWindow F) (j : Text)
        → contains j w.velocities ≡ true
        → Total (velocity_rms fl w j)
    unfolding velocity_rms
    velocity_rms_total w j c =
        let (h, e) = lookup_of-contains j w.velocities c in
        let (r, er) = rms_total h in (r, rw (e, er))

    snapshot_from_total :
        (w : RollingWindow F) (js : List Text) (done : List (JointSnapshot F))
        → All (λ j. contains j w.velocities ≡ true) js
        → Total (snapshot_from fl w js done)
    snapshot_from_total w [] done c = unfold snapshot_from in (some done, refl)
    snapshot_from_total w (j ∷ js) done c = elim (Option-cases (readings fl w j)) [
      | inl e ↦ (none, step_missing fl w j js done e)
      | inr (t, e) ↦
          let (q, r) = velocity_rms_total w j c.0 in
          let (o, eo) = snapshot_from_total w js _ c.1 in (o, step_adds fl w j js done t q e r ∙ eo)
    ]

    -- A well-formed window has a snapshot, complete or not: `snapshot` does not raise.
    pub snapshot_total : (w : RollingWindow F) → IsWellFormed w → Total (snapshot fl w)
    unfolding snapshot
    snapshot_total w v = snapshot_from_total w w.joints [] v.tracked

  -- A well-formed window with finite readings only and a stamp below `limit`.
  pub record IsServable (limit : ℕ) (w : RollingWindow F) : Type 0 where
    pub well_formed : IsWellFormed w
    pub finite : (c : Channel) (v : F) → lookup c w.latest ≡ some v → is_finite v ≡ true
    pub fits : w.stamp_ns < limit

  finite-insert :
      (key : Channel) (x : F) (latest : List (Channel × F))
      → is_finite x ≡ true
      → ((c : Channel) (v : F) → lookup c latest ≡ some v → is_finite v ≡ true)
      → (c : Channel) (v : F) → lookup c (insert key x latest) ≡ some v
      → is_finite v ≡ true
  finite-insert key x latest fx old c v e = ground (arith, lookup-insert key c x latest, old c v)

  -- What `remember` leaves alone.
  pub remember-latest :
      (f : JointField) (j : Text) (h : History F) (m : JointTelemetry F) (w : RollingWindow F)
      → (remember f j h m w).latest ≡ w.latest
  unfolding remember
  remember-latest velocity j h m w = refl
  remember-latest position j h m w = refl
  remember-latest effort j h m w = refl

  pub remember-stamp_ns :
      (f : JointField) (j : Text) (h : History F) (m : JointTelemetry F) (w : RollingWindow F)
      → (remember f j h m w).stamp_ns ≡ w.stamp_ns
  unfolding remember
  remember-stamp_ns velocity j h m w = refl
  remember-stamp_ns position j h m w = refl
  remember-stamp_ns effort j h m w = refl

  remember-joints :
      (f : JointField) (j : Text) (h : History F) (m : JointTelemetry F) (w : RollingWindow F)
      → (remember f j h m w).joints ≡ w.joints
  unfolding remember
  remember-joints velocity j h m w = refl
  remember-joints position j h m w = refl
  remember-joints effort j h m w = refl

  -- A message changes no joint of the window.
  pub observe-joints :
      (j : Text) (f : JointField) (m : JointTelemetry F) (w : RollingWindow F)
      → (observe j f m w).joints ≡ w.joints
  unfolding observe
  observe-joints j f m w = elim (Option-cases (lookup j w.velocities)) [
    | inl e ↦ rw (e, observe)
    | inr (h, e) ↦ rw (e, observe) (remember-joints f j h m _)
  ]

  pub observe_absent :
      (j : Text) (f : JointField) (m : JointTelemetry F) (w : RollingWindow F)
      → lookup j w.velocities ≡ none
      → observe j f m w ≡ w
  unfolding observe
  observe_absent j f m w e = rw (e, observe)

  pub observe_present :
      (j : Text) (f : JointField) (m : JointTelemetry F) (w : RollingWindow F) (h : History F)
      → lookup j w.velocities ≡ some h
      → observe j f m w
        ≡ remember f j h m (record w {
          latest = insert (channel fl j f) m.value w.latest;
          stamp_ns = max w.stamp_ns m.stamp_ns;
        })
  unfolding observe
  observe_present j f m w h e = rw (e, observe)

  position_of :
      (w : RollingWindow F) (j : Text) (p v e : F)
      → readings fl w j ≡ some (p, v, e)
      → lookup (channel fl j position) w.latest ≡ some p
  unfolding readings
  position_of w j p v e h = ground arith

  pub observe-IsServable :
      (limit : ℕ) (j : Text) (f : JointField) (m : JointTelemetry F) (w : RollingWindow F)
      → is_finite m.value ≡ true
      → m.stamp_ns < limit
      → IsServable limit w
      → IsServable limit (observe j f m w)
  observe-IsServable limit j f m w fm lm s = record {
    well_formed = observe-IsWellFormed j f m w s.well_formed;
    finite = finite_after;
    fits = fits_after;
  }
    where
      finite_after :
          (c : Channel) (v : F) → lookup c (observe j f m w).latest ≡ some v → is_finite v ≡ true
      finite_after c v e = elim (Option-cases (lookup j w.velocities)) [
        | inl absent ↦ s.finite c v (
            sym (ap (λ (u : RollingWindow F). lookup c u.latest) (observe_absent j f m w absent))
            ∙ e)
        | inr (h, there) ↦ finite-insert (channel fl j f) m.value w.latest fm s.finite c v (
            sym (
              ap (λ (u : RollingWindow F). lookup c u.latest) (observe_present j f m w h there)
              ∙ ap (lookup c) (remember-latest f j h m _))
            ∙ e)
      ]

      fits_after : (observe j f m w).stamp_ns < limit
      fits_after = elim (Option-cases (lookup j w.velocities)) [
        | inl absent ↦ rw (observe_absent j f m w absent) s.fits
        | inr (h, there) ↦
            rw (observe_present j f m w h there, remember-stamp_ns f j h m) (omega (arith, s.fits))
      ]

  module _ (cosines : (x : F) → is_finite x ≡ true → Total (fl.cos x) × Total (fl.sin x)) where
    -- The positions of a servable window have cosines and sines.
    pub Describes-cosines :
        (limit : ℕ) (w : RollingWindow F) (js : List Text) (ss : List (JointSnapshot F))
        → IsServable limit w
        → Describes fl w js ss
        → All
            (λ (s : JointSnapshot F). Total (fl.cos s.position_rad) × Total (fl.sin s.position_rad))
            ss
    Describes-cosines limit w [] [] s d = tt
    Describes-cosines limit w [] (x ∷ ss) s d = absurd d
    Describes-cosines limit w (j ∷ js) [] s d = absurd d
    Describes-cosines limit w (j ∷ js) (x ∷ ss) s (n, r, v, d) = (
      cosines x.position_rad (
          s.finite (channel fl j position) x.position_rad
            (position_of w j x.position_rad x.velocity_rad_s x.effort_nm r)),
      Describes-cosines limit w js ss s d,
    )
