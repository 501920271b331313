-- ===== src/Contracts/Telemetry/Laws.antt =====
-- What `JointTelemetry` accepts, and that it reads back what it wrote.
use twin_services.Base.{◌≡◌, ◌≤◌, ◌↔◌, ◌⊎◌, inr, refl, Bool, true, none, some, arith}
use twin_services.Base.Int.{pos}
use twin_services.Base.Result.{Exc, ok, raise, validation_error}
use twin_services.Contracts.Vocabulary.{schema_version as current_version}
use twin_services.Contracts.Telemetry.{
  JointTelemetry, TelemetryFields, check_telemetry, fields_of, TelemetryJson, validate_telemetry,
}

-- What the model promises of an object that passes.
abbrev pub Accepts : {F : Type 0} → TelemetryFields F → JointTelemetry F → Type 0
Accepts t m =
    (t.value ≡ some m.value)
    × (t.stamp_ns ≡ some (pos m.stamp_ns))
    × (((t.schema_version ≡ none) × (m.schema_version ≡ current_version))
        ⊎ ((t.schema_version ≡ some (pos m.schema_version)) × (1 ≤ m.schema_version)))

module _ {F : Type 0} where
  -- Fields pass as the sample `m` exactly when they hold a value and a stamp of zero or more, those
  -- of `m`, and no version, which stands for 1, or the version of `m`, which is at least 1.
  pub check_exactly-Accepts :
      (t : TelemetryFields F) (m : JointTelemetry F) → (check_telemetry t ≡ ok m) ↔ Accepts t m
  unfolding check_telemetry
  check_exactly-Accepts t m = (λ h. ground arith, λ h. ground arith)

  -- Whatever fails the model is a ValidationError.
  pub check_raises :
      (t : TelemetryFields F) (x : Exc) → check_telemetry t ≡ raise x → x ≡ validation_error
  unfolding check_telemetry
  check_raises t x h = ground arith

module _ {F : Type 0} {is_finite : F → Bool} (json : TelemetryJson F is_finite) where
  -- A sample with a version of at least 1 and a finite value reads back as itself.
  pub validate-write :
      (m : JointTelemetry F)
      → 1 ≤ m.schema_version
      → is_finite m.value ≡ true
      → validate_telemetry json (json.write m) ≡ ok m
  unfolding validate_telemetry
  validate-write m h fin =
      rw (json.read-write m fin)
        ((check_exactly-Accepts (fields_of m) m).1 (refl, refl, inr (refl, h)))
