-- ===== src/State/Window/Snapshot.antt =====
-- What `snapshot` returns.
use twin_services.Base.{
  Text, ◌≡◌, ◌↔◌, ◌⊎◌, refl, sym, ◌∙◌, ap, Option-cases, none, some, List, [], ◌∷◌, ◌++◌, map, All,
  arith, inl, inr,
}
use mathlib.Core.Path.{subst}
use mathlib.Core.List.{append-nil, append_assoc}
use twin_services.Base.Result.{Exc, ok, raise, Result-cases}
use twin_services.Floats.{Floats}
use twin_services.State.Window.{
  RollingWindow, JointSnapshot, velocity_rms, readings, snapshot_joint, snapshot_from, snapshot,
}

module _ (fl : Floats) where
  open fl use {F}

  -- The snapshots are those of the joints, in their order: each carries the joint's name, its latest
  -- position, velocity and effort, and the root mean square of its history.
  abbrev pub Describes : RollingWindow F → List Text → List (JointSnapshot F) → Type 0
  Describes w [] [] = Unit {0}
  Describes w (j ∷ js) (s ∷ ss) =
      (s.name ≡ j)
      × (readings fl w j ≡ some (s.position_rad, s.velocity_rad_s, s.effort_nm))
      × (velocity_rms fl w j ≡ ok s.velocity_rms)
      × Describes w js ss
  Describes w _ _ = ⊥

  -- Some joint still lacks a reading.
  abbrev pub Incomplete : RollingWindow F → List Text → Type 0
  Incomplete w [] = ⊥
  Incomplete w (j ∷ js) = (readings fl w j ≡ none) ⊎ Incomplete w js

  abbrev snap : Text → F × F × F → F → JointSnapshot F
  snap j (p, v, e) r = record {
    name = j;
    position_rad = p;
    velocity_rad_s = v;
    effort_nm = e;
    velocity_rms = r;
  }

  module _ (w : RollingWindow F) (j : Text) (js : List Text) (done : List (JointSnapshot F)) where
    -- One round of the loop, by what the joint's readings and its mean square are.
    pub step_missing : readings fl w j ≡ none → snapshot_from fl w (j ∷ js) done ≡ ok none
    unfolding snapshot_from
    step_missing e = rw e

    step_raises :
        (t : F × F × F) (x : Exc)
        → readings fl w j ≡ some t
        → velocity_rms fl w j ≡ raise x
        → snapshot_from fl w (j ∷ js) done ≡ raise x
    unfolding snapshot_from snapshot_joint
    step_raises t x e r = rw (e, r)

    pub step_adds :
        (t : F × F × F) (q : F)
        → readings fl w j ≡ some t
        → velocity_rms fl w j ≡ ok q
        → snapshot_from fl w (j ∷ js) done ≡ snapshot_from fl w js (done ++ snap j t q ∷ [])
    unfolding snapshot_from snapshot_joint
    step_adds t q e r = rw (e, r)

  snapshot_from_sound :
      (w : RollingWindow F) (js : List Text) (done out : List (JointSnapshot F))
      → snapshot_from fl w js done ≡ ok (some out)
      → (ss : List (JointSnapshot F)) × (out ≡ done ++ ss) × Describes w js ss
  snapshot_from_sound w [] done out h =
      ([], unfold snapshot_from in ground (arith, append-nil done), tt)
  snapshot_from_sound w (j ∷ js) done out h = elim (Option-cases (readings fl w j)) [
    | inl e ↦ cc (step_missing w j js done e)
    | inr (t, e) ↦ elim (Result-cases (velocity_rms fl w j)) [
      | inl (q, r) ↦
          let (ss, is, d) =
            snapshot_from_sound w js (done ++ snap j t q ∷ []) out
              (sym (step_adds w j js done t q e r) ∙ h) in
          (snap j t q ∷ ss, is ∙ append_assoc done (snap j t q ∷ []) ss, (refl, e, r, d))
      | inr (x, r) ↦ cc (step_raises w j js done t x e r)
    ]
  ]

  snapshot_from_complete :
      (w : RollingWindow F) (js : List Text) (done ss : List (JointSnapshot F))
      → Describes w js ss
      → snapshot_from fl w js done ≡ ok (some (done ++ ss))
  snapshot_from_complete w [] done [] d = unfold snapshot_from in rw append-nil
  snapshot_from_complete w [] done (s ∷ ss) d = absurd d
  snapshot_from_complete w (j ∷ js) done [] d = absurd d
  snapshot_from_complete w (j ∷ js) done (s ∷ ss) (n, e, r, d) =
      let t : F × F × F = (s.position_rad, s.velocity_rad_s, s.effort_nm) in
      let same : snap j t s.velocity_rms ≡ s = ground arith in
      step_adds w j js done t s.velocity_rms e r
      ∙ snapshot_from_complete w js (done ++ snap j t s.velocity_rms ∷ []) ss d
      ∙ ap (λ x. ok (some x)) (append_assoc done (snap j t s.velocity_rms ∷ []) ss)
      ∙ ap (λ x. ok (some (done ++ x ∷ ss))) same

  snapshot_from-none :
      (w : RollingWindow F) (js : List Text) (done : List (JointSnapshot F))
      → snapshot_from fl w js done ≡ ok none
      → Incomplete w js
  snapshot_from-none w [] done h = unfold snapshot_from in cc
  snapshot_from-none w (j ∷ js) done h = elim (Option-cases (readings fl w j)) [
    | inl e ↦ inl e
    | inr (t, e) ↦ elim (Result-cases (velocity_rms fl w j)) [
      | inl (q, r) ↦ inr (snapshot_from-none w js _ (sym (step_adds w j js done t q e r) ∙ h))
      | inr (x, r) ↦ cc (step_raises w j js done t x e r)
    ]
  ]

  Incomplete-snapshot_from :
      (w : RollingWindow F) (js : List Text) (done : List (JointSnapshot F))
      → All (λ j. (q : F) × (velocity_rms fl w j ≡ ok q)) js
      → Incomplete w js
      → snapshot_from fl w js done ≡ ok none
  Incomplete-snapshot_from w [] done total i = absurd i
  Incomplete-snapshot_from w (j ∷ js) done total (inl e) = step_missing w j js done e
  Incomplete-snapshot_from w (j ∷ js) done total (inr i) = elim (Option-cases (readings fl w j)) [
    | inl e ↦ step_missing w j js done e
    | inr (t, e) ↦
        let (q, r) = total.0 in
        step_adds w j js done t q e r ∙ Incomplete-snapshot_from w js _ total.1 i
  ]

  -- `snapshot` returns a list exactly when that list has, for every joint of the window and in the
  -- window's order, the joint's name, its latest three readings and the root mean square of its
  -- velocity history.
  pub snapshot_exactly-Describes :
      (w : RollingWindow F) (ss : List (JointSnapshot F))
      → (snapshot fl w ≡ ok (some ss)) ↔ Describes w w.joints ss
  unfolding snapshot
  snapshot_exactly-Describes w ss = (
    λ h.
        let (ss', is, d) = snapshot_from_sound w w.joints [] ss h in
        subst (Describes w w.joints) (sym is) d,
    snapshot_from_complete w w.joints [] ss,
  )

  -- Where no mean square raises, `snapshot` is `None` exactly when some joint of the window lacks a
  -- position, a velocity or an effort.
  pub snapshot-none_iff_Incomplete :
      (w : RollingWindow F)
      → All (λ j. (q : F) × (velocity_rms fl w j ≡ ok q)) w.joints
      → (snapshot fl w ≡ ok none) ↔ Incomplete w w.joints
  unfolding snapshot
  snapshot-none_iff_Incomplete w total =
      (snapshot_from-none w w.joints [], Incomplete-snapshot_from w w.joints [] total)

  -- The names of a snapshot are the joints of the window, in order.
  pub Describes-names :
      (w : RollingWindow F) (js : List Text) (ss : List (JointSnapshot F))
      → Describes w js ss
      → map (λ s. s.name) ss ≡ js
  Describes-names w [] [] d = refl
  Describes-names w [] (s ∷ ss) d = absurd d
  Describes-names w (j ∷ js) [] d = absurd d
  Describes-names w (j ∷ js) (s ∷ ss) (n, e, r, d) = cc (Describes-names w js ss d)
