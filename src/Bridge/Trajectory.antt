-- ===== src/Bridge/Trajectory.antt =====
-- The trajectories that the bridge makes of commands.
use twin_services.Base.{
  ◌≤◌, ◌≡◌, refl, Text, true, false, Option, none, some, List, [], ◌∷◌, map, All, ◌⊎◌, text_eq,
  arith,
}
use twin_services.Base.Eq.{Dict, lookup, text_is_eq}
use twin_services.Base.Int.{ℤ, pos}
use twin_services.Base.Result.{Result, ok, key_error, or_raise, map_result}
use twin_services.Floats.{Floats}
use twin_services.Contracts.Vocabulary.{CommandKind, home, move_joints, ur5_joint_names}
use twin_services.Contracts.Command.{CommandJson, FinitePositions, JointCommand, has_positions}
use twin_services.Contracts.Command.Laws.{PositionsFit, InRange, validate_command-write}
use twin_services.Bridge.{JointTrajectory, forward_command, targets, publish_command}

module _ {A B : Type 0} where
  map_result-agree :
      (f g : A → Result B) (xs : List A)
      → All (λ x. f x ≡ g x) xs
      → map_result f xs ≡ map_result g xs
  map_result-agree f g [] a = refl
  map_result-agree f g (x ∷ xs) a = rw (a.0, map_result-agree f g xs a.1)

module _ {F : Type 0} where
  -- No key stands twice, as in any `dict`.
  abbrev pub Distinct : Dict Text F → Type 0
  Distinct [] = Unit
  Distinct ((k, v) ∷ d) = All (λ (p : Text × F). text_eq k p.0 ≡ false) d × Distinct d

  keys : Dict Text F → List Text
  keys d = map (λ (p : Text × F). p.0) d

  values : Dict Text F → List F
  values d = map (λ (p : Text × F). p.1) d

  -- `d[n]`
  abbrev at : Dict Text F → Text → Result F
  at d n = or_raise (lookup n d) key_error

  agree_behind :
      (k : Text) (v : F) (d e : Dict Text F)
      → All (λ (p : Text × F). text_eq k p.0 ≡ false) e
      → All (λ n. at ((k, v) ∷ d) n ≡ at d n) (keys e)
  unfolding lookup keys
  agree_behind k v d [] a = tt
  agree_behind k v d ((j, x) ∷ e) a = (rw a.0, agree_behind k v d e a.1)

  values-at-keys : (d : Dict Text F) → Distinct d → map_result (at d) (keys d) ≡ ok (values d)
  unfolding keys values lookup
  values-at-keys [] u = refl
  values-at-keys ((k, v) ∷ d) u = rw (
    (text_is_eq.beq_iff k k).1 refl,
    map_result-agree (at ((k, v) ∷ d)) (at d) (keys d) (agree_behind k v d d u.0),
    values-at-keys d u.1,
  )

  -- The joints that a command moves and where to: a `home` command takes every joint of the robot
  -- to `zero`, a `move_joints` command takes the joints that it names to its positions.
  abbrev pub goal : F → CommandKind → Option (Dict Text F) → List (Text × F)
  goal zero home positions = map (λ n. (n, zero)) ur5_joint_names
  goal zero move_joints none = []
  goal zero move_joints (some d) = d

  abbrev pub DistinctKeys : Option (Dict Text F) → Type 0
  DistinctKeys none = Unit
  DistinctKeys (some d) = Distinct d

module _ (fl : Floats) where
  open fl use {F, literal, mul, rem, truncate}

  targets-goal :
      (c : JointCommand F) (k : CommandKind) (o : Option (Dict Text F))
      → (k ≡ move_joints) × (has_positions o ≡ true) ⊎ ((k ≡ home) × (has_positions o ≡ false))
      → DistinctKeys o
      → targets fl k o
        ≡ ok (
          map (λ p. p.0) (goal (literal (pos 0) 1) k o),
          map (λ p. p.1) (goal (literal (pos 0) 1) k o),
        )
  unfolding targets keys values
  targets-goal c home o fit u = refl
  targets-goal c move_joints none fit u = ground arith
  targets-goal c move_joints (some d) fit u = rw (values-at-keys d u)

  -- A command that fits the contract, and whose duration splits into whole seconds and a fraction,
  -- is published without an assertion or a KeyError: the trajectory names the joints of the
  -- command's goal in order, and its one point holds their positions and the two parts of the
  -- duration.
  pub publish_command-goal :
      (c : JointCommand F) (sec nanosec : ℤ) (fraction : F)
      → PositionsFit c
      → DistinctKeys c.positions
      → truncate c.duration_s ≡ ok sec
      → rem c.duration_s (literal (pos 10) 1) ≡ ok fraction
      → truncate (mul fraction (literal (pos 1000000000) 0)) ≡ ok nanosec
      → publish_command fl c
        ≡ ok (record {
          joint_names = map (λ p. p.0) (goal (literal (pos 0) 1) c.kind c.positions);
          positions = map (λ p. p.1) (goal (literal (pos 0) 1) c.kind c.positions);
          sec = sec;
          nanosec = nanosec;
        })
  unfolding publish_command
  publish_command-goal c sec nanosec fraction fit u es er en =
      rw (targets-goal c c.kind c.positions fit u, es, er, en)

  -- The trajectory of a command, with the parts of its duration.
  abbrev pub trajectory : JointCommand F → ℤ → ℤ → JointTrajectory F
  trajectory c sec nanosec = record {
    joint_names = map (λ p. p.0) (goal (literal (pos 0) 1) c.kind c.positions);
    positions = map (λ p. p.1) (goal (literal (pos 0) 1) c.kind c.positions);
    sec = sec;
    nanosec = nanosec;
  }

  -- What command-svc publishes of a command is what the bridge makes its trajectory of: for a
  -- command that satisfies the contract, with finite numbers, no repeated joint and a duration that
  -- splits into whole seconds and a fraction, the message of its JSON is handed to the controller
  -- as the trajectory to the command's goal.
  pub forward_command-write :
      (json : CommandJson fl) (c : JointCommand F) (sec nanosec : ℤ) (fraction : F)
      → 1 ≤ c.schema_version
      → InRange fl c.duration_s
      → PositionsFit c
      → FinitePositions fl c.positions
      → fl.is_finite c.duration_s ≡ true
      → DistinctKeys c.positions
      → truncate c.duration_s ≡ ok sec
      → rem c.duration_s (literal (pos 10) 1) ≡ ok fraction
      → truncate (mul fraction (literal (pos 1000000000) 0)) ≡ ok nanosec
      → forward_command fl json (some (json.write c)) ≡ ok (some (trajectory c sec nanosec))
  unfolding forward_command
  forward_command-write json c sec nanosec fraction v d fit fp fd u es er en = rw (
    validate_command-write json c v d fit fp fd,
    publish_command-goal c sec nanosec fraction fit u es er en,
  )
