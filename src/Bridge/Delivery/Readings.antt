-- ===== src/Bridge/Delivery/Readings.antt =====
-- The readings of a window as the joints of a snapshot, compared with the columns of a joint state.
use twin_services.Base.{
  Text, ◌≡◌, sym, ap, ◌∙◌, true, Bool-cases, some, List, [], ◌∷◌, All, arith, text_eq, text_eq_iff,
  inl, inr,
}
use mathlib.Core.Path.{subst}
use twin_services.Base.Eq.{Dict, lookup, contains, contains_of-lookup, text_is_eq}
use twin_services.Base.Result.{ok}
use twin_services.Floats.{Floats}
use twin_services.Contracts.Vocabulary.{ur5_joint_names}
use twin_services.Contracts.Telemetry.{TelemetryJson}
use twin_services.State.Window.{RollingWindow, JointSnapshot, readings, velocity_rms}
use twin_services.State.Window.Start.{IsFresh}
use twin_services.State.Window.Snapshot.{Describes, Incomplete}
use twin_services.State.Window.Finite.{velocity_rms_total}
use twin_services.State.Consumer.{elem}
use twin_services.State.Consumer.Uptime.{IsTame}
use twin_services.Bridge.Telemetry.{IsUsable}
use twin_services.Bridge.Delivery.{names_of, Shows, IsTracked}

elem-All : (P : Text → Type 0) (j : Text) (js : List Text) → elem j js ≡ true → All P js → P j
unfolding elem
elem-All P j [] h a = cc
elem-All P j (k ∷ js) h a = elim (Bool-cases (text_eq j k)) [
  | inl e ↦ subst P (sym ((text_eq_iff j k).0 e)) a.0
  | inr e ↦ elem-All P j js (ground arith) a.1
]

module _ (fl : Floats) where
  open fl use {F, is_finite}

  -- The joints of a state by name.
  abbrev pub table : List (JointSnapshot F) → Dict Text (F × F × F)
  table [] = []
  table (s ∷ ss) = (s.name, (s.position_rad, s.velocity_rad_s, s.effort_nm)) ∷ table ss

  lookup-table :
      (w : RollingWindow F) (js : List Text) (ss : List (JointSnapshot F)) (j : Text)
      → Describes fl w js ss
      → elem j js ≡ true
      → lookup j (table ss) ≡ readings fl w j
  unfolding elem lookup
  lookup-table w [] ss j d h = cc
  lookup-table w (k ∷ js) [] j d h = absurd d
  lookup-table w (k ∷ js) (s ∷ ss) j (n, r, v, d) h = elim (Bool-cases (text_eq k j)) [
    | inl e ↦
        let same : k ≡ j = (text_eq_iff k j).0 e in rw (n, e) (sym r ∙ ap (readings fl w) same)
    | inr e ↦
        rw (n, e) (lookup-table w js ss j d (ground (arith, text_eq_iff j k, text_eq_iff k j)))
  ]

  -- A window that shows a reading for every joint is not incomplete.
  pub Incomplete-absurd :
      (w : RollingWindow F) (js : List Text)
      → All (λ j. (t : F × F × F) × (readings fl w j ≡ some t)) js
      → Incomplete fl w js
      → ⊥
  Incomplete-absurd w [] a i = i
  Incomplete-absurd w (j ∷ js) a (inl e) = cc a.0.1
  Incomplete-absurd w (j ∷ js) a (inr i) = Incomplete-absurd w js a.1 i

  Shows-elem :
      (w : RollingWindow F) (cs : List (Text × F × F × F)) (j : Text)
      → All (Shows fl w) cs
      → elem j (names_of cs) ≡ true
      → (t : F × F × F) × (readings fl w j ≡ some t)
  unfolding elem
  Shows-elem w [] j a h = cc
  Shows-elem w ((n, p, v, e) ∷ cs) j a h = elim (Bool-cases (text_eq j n)) [
    | inl same ↦ ((p, v, e), ap (readings fl w) ((text_eq_iff j n).0 same) ∙ a.0)
    | inr other ↦ Shows-elem w cs j a.1 (ground arith)
  ]

  -- The columns name every joint of the robot.
  abbrev pub IsWhole : List (Text × F × F × F) → Type 0
  IsWhole cs = All (λ j. elem j (names_of cs) ≡ true) ur5_joint_names

  pub All-read :
      (w : RollingWindow F) (cs : List (Text × F × F × F)) (js : List Text)
      → All (Shows fl w) cs
      → All (λ j. elem j (names_of cs) ≡ true) js
      → All (λ j. (t : F × F × F) × (readings fl w j ≡ some t)) js
  All-read w cs [] a h = tt
  All-read w cs (j ∷ js) a h = (Shows-elem w cs j a h.0, All-read w cs js a h.1)

  pub All-means :
      IsTame fl
      → (w : RollingWindow F) (js : List Text) → All (λ j. contains j w.velocities ≡ true) js
      → All (λ j. (q : F) × (velocity_rms fl w j ≡ ok q)) js
  All-means tame w [] c = tt
  All-means tame w (j ∷ js) c = (velocity_rms_total fl tame.means w j c.0, All-means tame w js c.1)

  -- The values that the state has for the column's joint are the column's.
  abbrev pub Displays : List (JointSnapshot F) → Text × F × F × F → Type 0
  Displays ss (n, p, v, e) = lookup n (table ss) ≡ some (p, v, e)

  module _ (json : TelemetryJson F is_finite) (asset : Text) where
    pub All-displayed :
        (w : RollingWindow F) (ss : List (JointSnapshot F)) (cs : List (Text × F × F × F))
        → Describes fl w ur5_joint_names ss
        → All (IsUsable json asset) cs
        → All (Shows fl w) cs
        → All (Displays ss) cs
    All-displayed w ss [] d u a = tt
    All-displayed w ss ((n, p, v, e) ∷ cs) d u a =
        (lookup-table w ur5_joint_names ss n d u.0.0 ∙ a.0, All-displayed w ss cs d u.1 a.1)

    pub IsTracked-by_fresh :
        (w : RollingWindow F) (cs : List (Text × F × F × F))
        → IsFresh ur5_joint_names w
        → All (IsUsable json asset) cs
        → All (IsTracked fl w) cs
    IsTracked-by_fresh w [] f u = tt
    IsTracked-by_fresh w ((n, p, v, e) ∷ cs) f u = (
      contains_of-lookup n [] w.velocities
          (elem-All (λ j. lookup j w.velocities ≡ some []) n ur5_joint_names u.0.0 f.empty),
      IsTracked-by_fresh w cs f u.1,
    )
