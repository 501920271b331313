-- ===== src/Contracts/Command.antt =====
-- `JointCommand` and `CommandReceipt` of contracts/src/contracts/models.py. As for telemetry, the
-- JSON codec is pydantic's and the model's own checks are written out.
pub mod Laws
use twin_services.Base.{
  ℕ, Text, codes, ◌≡◌, Bool, true, false, not, ◌&&◌, Option, none, some, [], ◌∷◌, text_eq, All,
  if◌then◌else◌,
}
use twin_services.Base.Eq.{Dict}
use twin_services.Base.Int.{ℤ, pos}
use twin_services.Base.Result.{Result, ok, raise, validation_error, or_raise, ◌>>=◌}
use twin_services.Floats.{Floats}
use twin_services.Contracts.Vocabulary.{CommandKind, home, move_joints, kind_value}
use twin_services.Contracts.Telemetry.{version_or_default}

pub record JointCommand (F : Type 0) : Type 0 where
  pub schema_version : ℕ
  pub kind : CommandKind
  pub positions : Option (Dict Text F)
  pub duration_s : F

-- The fields that the reader found.
pub record CommandFields (F : Type 0) : Type 0 where
  pub schema_version : Option ℤ
  pub kind : Option Text
  pub positions : Option (Dict Text F)
  pub duration_s : Option F

pub record CommandReceipt : Type 0 where
  pub schema_version : ℕ
  pub command_id : Text
  pub kind : CommandKind
  pub topic : Text

-- `kind: CommandKind`
unfoldable pub kind_of : Option Text → Result CommandKind
unfolding text_eq
kind_of none = raise validation_error
kind_of (some t) =
    if text_eq t (codes "home")
    then ok home
    else if text_eq t (codes "move_joints")
    then ok move_joints
    else raise validation_error

module _ {F : Type 0} where
  -- The truth value of `self.positions`: `None` and `{}` are false.
  abbrev pub has_positions : Option (Dict Text F) → Bool
  has_positions none = false
  has_positions (some []) = false
  has_positions (some (p ∷ ps)) = true

  -- `_positions_match_kind`
  unfoldable pub positions_match_kind : JointCommand F → Result (JointCommand F)
  positions_match_kind c = elim c.kind [
    | move_joints ↦ if not (has_positions c.positions) then raise validation_error else ok c
    | home ↦ if has_positions c.positions then raise validation_error else ok c
  ]

module _ (fl : Floats) where
  open fl use {F, literal, lt, le}

  -- `duration_s: float = Field(default=2.0, gt=0, le=30)`; a default is not checked.
  unfoldable pub duration_of : Option F → Result F
  duration_of none = ok (literal (pos 2) 0)
  duration_of (some d) =
      if lt (literal (pos 0) 0) d && le d (literal (pos 30) 0) then ok d else raise validation_error

  unfoldable pub check_command : CommandFields F → Result (JointCommand F)
  unfolding duration_of positions_match_kind
  check_command t = version_or_default t.schema_version >>= λ version. kind_of t.kind >>= λ kind.
      duration_of t.duration_s >>= λ duration. positions_match_kind (record {
        schema_version = version;
        kind = kind;
        positions = t.positions;
        duration_s = duration;
      })

abbrev pub command_fields_of : {F : Type 0} → JointCommand F → CommandFields F
command_fields_of c = record {
  schema_version = some (pos c.schema_version);
  kind = some (kind_value c.kind);
  positions = c.positions;
  duration_s = some c.duration_s;
}

abbrev pub FinitePositions : (fl : Floats) → Option (Dict Text fl.F) → Type 0
FinitePositions fl none = Unit
FinitePositions fl (some d) = All (λ p. fl.is_finite p.1 ≡ true) d

-- pydantic's JSON reader and writer for the model.
pub record CommandJson (fl : Floats) : Type 1 where
  pub Payload : Type 0
  pub read : Payload → Option (CommandFields fl.F)
  pub write : JointCommand fl.F → Payload
  pub read-write :
      (c : JointCommand fl.F)
      → FinitePositions fl c.positions
      → fl.is_finite c.duration_s ≡ true
      → read (write c) ≡ some (command_fields_of c)

module _ {fl : Floats} (json : CommandJson fl) where
  -- `JointCommand.model_validate_json(payload)`, and FastAPI's reading of a request body
  unfoldable pub validate_command : json.Payload → Result (JointCommand fl.F)
  validate_command p = or_raise (json.read p) validation_error >>= check_command fl
