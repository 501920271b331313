-- ===== src/Contracts/Telemetry.antt =====
-- `JointTelemetry` of contracts/src/contracts/models.py. The JSON codec is pydantic's: its reader
-- yields the fields of the object in their declared types (absent ones are `none`, unknown ones
-- are dropped), and the constraints of the model are checked here.
pub mod Laws
use twin_services.Base.{ℕ, ◌≡◌, Bool, true, Option, none, some, leb, if◌then◌else◌}
use twin_services.Base.Int.{ℤ, pos, negsuc}
use twin_services.Base.Result.{Result, ok, raise, validation_error, or_raise, ◌>>=◌}
use twin_services.Contracts.Vocabulary.{schema_version as current_version}

pub record JointTelemetry (F : Type 0) : Type 0 where
  pub schema_version : ℕ
  pub value : F
  pub stamp_ns : ℕ

-- The fields that the reader found.
pub record TelemetryFields (F : Type 0) : Type 0 where
  pub schema_version : Option ℤ
  pub value : Option F
  pub stamp_ns : Option ℤ

-- `ge=low` on an integer field.
abbrev pub at_least : ℕ → ℤ → Result ℕ
at_least low (pos n) = if leb low n then ok n else raise validation_error
at_least low (negsuc n) = raise validation_error

-- `schema_version: int = Field(default=SCHEMA_VERSION, ge=1)`
abbrev pub version_or_default : Option ℤ → Result ℕ
version_or_default none = ok current_version
version_or_default (some v) = at_least 1 v

module _ {F : Type 0} where
  -- The model's own checks.
  unfoldable pub check_telemetry : TelemetryFields F → Result (JointTelemetry F)
  check_telemetry t = version_or_default t.schema_version >>= λ version.
      or_raise t.value validation_error >>= λ value.
      or_raise t.stamp_ns validation_error >>= λ stamp. at_least 0 stamp >>= λ ns.
      ok (record { schema_version = version; value = value; stamp_ns = ns })

  abbrev pub fields_of : JointTelemetry F → TelemetryFields F
  fields_of m = record {
    schema_version = some (pos m.schema_version);
    value = some m.value;
    stamp_ns = some (pos m.stamp_ns);
  }

-- pydantic's JSON reader and writer for the model. A float that is not finite is written as
-- `null`, so only finite values are sure to come back.
pub record TelemetryJson (F : Type 0) (is_finite : F → Bool) : Type 1 where
  pub Payload : Type 0
  pub read : Payload → Option (TelemetryFields F)
  pub write : JointTelemetry F → Payload
  pub read-write :
      (m : JointTelemetry F) → is_finite m.value ≡ true → read (write m) ≡ some (fields_of m)

module _ {F : Type 0} {is_finite : F → Bool} (json : TelemetryJson F is_finite) where
  -- `JointTelemetry.model_validate_json(payload)`
  unfoldable pub validate_telemetry : json.Payload → Result (JointTelemetry F)
  validate_telemetry p = or_raise (json.read p) validation_error >>= check_telemetry
