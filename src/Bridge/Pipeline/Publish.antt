-- ===== src/Bridge/Pipeline/Publish.antt =====
-- What one publication does, and joint states whose topics the client takes.
use twin_services.Base.{
  ℕ, zero, suc, ◌≡◌, ◌⊎◌, refl, pick, Text, Bool, true, Bool-cases, Option-cases, some, List, [],
  ◌∷◌, All, inl, inr, arith,
}
use mathlib.Core.Path.{subst}
use twin_services.Base.Result.{ok, ok-injective, Total}
use twin_services.Bridge.{publish_joint_states, field_lengths_match}
use twin_services.Bridge.Telemetry.{publish-columns}
use twin_services.Contracts.Telemetry.{TelemetryJson}
use twin_services.Bridge.{JointStateMessage, Outgoing}
use twin_services.Bridge.Pipeline.{Pipeline, send, publish_next}
use twin_services.Bridge.Pipeline.Ledger.{publications}

-- What is taken out of a list, and what is left, has what all had.
pub pick-All :
    {A : Type 0} (P : A → Type 0) (i : ℕ) (xs : List A) (x : A) (rest : List A)
    → pick i xs ≡ some (x, rest)
    → All P xs
    → P x × All P rest
unfolding pick
pick-All P i [] x rest h a = cc
pick-All P zero (y ∷ ys) x rest h a = let same : y ∷ ys ≡ x ∷ rest = cc in subst (All P) same a
pick-All P (suc i) (y ∷ ys) x rest h a = elim (Option-cases (pick i ys)) [
  | inl e ↦ ground arith
  | inr ((z, zs), e) ↦
      let same : z ∷ y ∷ zs ≡ x ∷ rest = ground arith in
      let (pz, pzs) = pick-All P i ys z zs e a.1 in subst (All P) same (pz, (a.0, pzs))
]

module _ {F Payload : Type 0} (accepts : Text → Bool) where
  -- A publication that returns: there was none, or its topic was taken.
  pub publish_next-eq-ok :
      (success : Bool) (work : List (Outgoing Payload)) (s t : Pipeline F Payload)
      → publish_next accepts success work s ≡ ok t
      → ((work ≡ []) × (s ≡ t))
        ⊎ ((o : Outgoing Payload) × (rest : List (Outgoing Payload)) × (work ≡ o ∷ rest)
            × (send success o rest s ≡ t))
  unfolding publish_next
  publish_next-eq-ok success [] s t h = inl (refl, ok-injective h)
  publish_next-eq-ok success (o ∷ rest) s t h = elim (Bool-cases (accepts o.topic)) [
    | inl taken ↦ inr (o, rest, refl, ok-injective (rw taken at h))
    | inr refused ↦ cc (rw refused at h)
  ]

module _ {F : Type 0} {is_finite : F → Bool} (json : TelemetryJson F is_finite) (asset : Text) where
  -- A joint state whose lists differ in length is skipped, so that no index is out of range.
  pub publish_joint_states_total :
      (m : JointStateMessage F) → Total (publish_joint_states json asset m)
  unfolding publish_joint_states
  publish_joint_states_total m = elim (Bool-cases (field_lengths_match m)) [
    | inl e ↦ (_, publish-columns json asset m e)
    | inr e ↦ ([], rw e refl)
  ]

module _ {F : Type 0} {is_finite : F → Bool} (json : TelemetryJson F is_finite) (asset : Text)
    (accepts : Text → Bool) where
  open json use {Payload}

  -- The client takes the topics.
  abbrev pub AreTaken : List (Outgoing Payload) → Type 0
  AreTaken work = All (λ (o : Outgoing Payload). accepts o.topic ≡ true) work

  -- The client takes the topics of the joint state.
  abbrev pub IsNamed : JointStateMessage F → Type 0
  IsNamed m = AreTaken (publications json asset m)

  -- The client takes all that the bridge has still to publish.
  pub record IsClear (s : Pipeline F Payload) : Type 0 where
    pub pending : All IsNamed s.pending
    pub queue : All IsNamed s.queue
    pub in_flight : AreTaken s.in_flight
