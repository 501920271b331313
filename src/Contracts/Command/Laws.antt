-- ===== src/Contracts/Command/Laws.antt =====
-- What `JointCommand` accepts, and that it reads back what it wrote.
use twin_services.Base.{
  ◌≡◌, ◌≤◌, ◌↔◌, ◌⊎◌, inr, refl, true, false, Text, Option, none, some, arith, codes, text_eq_iff,
}
use twin_services.Base.Int.{pos}
use twin_services.Base.Result.{Exc, ok, raise, validation_error}
use twin_services.Floats.{Floats}
use twin_services.Contracts.Vocabulary.{
  CommandKind, home, move_joints, kind_value, schema_version as current_version,
}
use twin_services.Contracts.Command.{
  JointCommand, CommandFields, kind_of, has_positions, check_command, command_fields_of,
  FinitePositions, CommandJson, validate_command,
}

kind_of-kind_value : (k : CommandKind) → kind_of (some (kind_value k)) ≡ ok k
unfolding kind_of
kind_of-kind_value home = refl
kind_of-kind_value move_joints = refl

kind_of_sound : (o : Option Text) (k : CommandKind) → kind_of o ≡ ok k → o ≡ some (kind_value k)
unfolding kind_of
kind_of_sound none k h = cc
kind_of_sound (some t) k h =
    ground (arith, text_eq_iff t (codes "home"), text_eq_iff t (codes "move_joints"))

-- Positions are there exactly when the kind asks for them.
abbrev pub PositionsFit : {F : Type 0} → JointCommand F → Type 0
PositionsFit c =
    ((c.kind ≡ move_joints) × (has_positions c.positions ≡ true))
    ⊎ ((c.kind ≡ home) × (has_positions c.positions ≡ false))

module _ (fl : Floats) where
  open fl use {F, literal, lt, le}

  -- The bounds of `duration_s`.
  abbrev pub InRange : F → Type 0
  InRange d = (lt (literal (pos 0) 0) d ≡ true) × (le d (literal (pos 30) 0) ≡ true)

  -- What the model promises of an object that passes.
  pub record Accepts (t : CommandFields F) (c : JointCommand F) : Type 0 where
    pub version :
        ((t.schema_version ≡ none) × (c.schema_version ≡ current_version))
        ⊎ ((t.schema_version ≡ some (pos c.schema_version)) × (1 ≤ c.schema_version))
    pub kind : t.kind ≡ some (kind_value c.kind)
    pub positions : t.positions ≡ c.positions
    pub duration :
        ((t.duration_s ≡ none) × (c.duration_s ≡ literal (pos 2) 0))
        ⊎ ((t.duration_s ≡ some c.duration_s) × InRange c.duration_s)
    pub fit : PositionsFit c

  check-Accepts :
      (t : CommandFields F) (c : JointCommand F) → check_command fl t ≡ ok c → Accepts t c
  unfolding check_command
  check-Accepts t c h = ground (arith, kind_of_sound t.kind c.kind)

  Accepts-check :
      (t : CommandFields F) (c : JointCommand F) → Accepts t c → check_command fl t ≡ ok c
  unfolding check_command
  Accepts-check t c h = ground (arith, kind_of-kind_value c.kind)

  -- A JSON object passes as the command `c` exactly when its version is absent or at least 1, its
  -- kind is the name of `c`'s, its duration is absent, which stands for 2, or within (0, 30], and
  -- positions are given (and not empty) for `move_joints` and absent or empty for `home`.
  pub check_command_exactly-Accepts :
      (t : CommandFields F) (c : JointCommand F) → (check_command fl t ≡ ok c) ↔ Accepts t c
  check_command_exactly-Accepts t c = (check-Accepts t c, Accepts-check t c)

  -- Whatever fails the model is a ValidationError.
  pub check_command_raises :
      (t : CommandFields F) (x : Exc) → check_command fl t ≡ raise x → x ≡ validation_error
  unfolding check_command kind_of
  check_command_raises t x h = ground arith

module _ {fl : Floats} (json : CommandJson fl) where
  -- A command that passed the model, with finite numbers, reads back as itself.
  pub validate_command-write :
      (c : JointCommand fl.F)
      → 1 ≤ c.schema_version
      → InRange fl c.duration_s
      → PositionsFit c
      → FinitePositions fl c.positions
      → fl.is_finite c.duration_s ≡ true
      → validate_command json (json.write c) ≡ ok c
  unfolding validate_command
  validate_command-write c v d fit fp fd = rw (json.read-write c fp fd) (
      Accepts-check fl (command_fields_of c) c (record {
        version = inr (refl, v);
        kind = refl;
        positions = refl;
        duration = inr (refl, d);
        fit = fit;
      }))
