-- ===== src/Tests/Deployment.antt =====
-- The theorems on configurations, at concrete inputs.
use twin_services.Base.{◌≡◌, refl, Text, codes, [], ◌∷◌, arith}
use twin_services.Base.Eq.{nat_is_eq, text_is_eq}
use twin_services.Base.Int.{ℤ, pos, negsuc}
use twin_services.Base.Result.{Result, ok, raise, value_error, Total}
use twin_services.Config.{Readers, StateConfig, state_from_env}
use twin_services.Config.Laws.{state_environment, state_from_env-environment}
use twin_services.State.Main.{main, main-environment}
use twin_services.State.Consumer.{Consumer, run}
use twin_services.Tests.Services.{busy, busy-IsAdmissible}
use twin_services.Tests.{whole, whole-IsTame, vendor, telemetry_json, ur5}

-- A text of one character stands for a natural number, and one of two for a negative one.
abbrev read_float : Text → Result ℤ
read_float (n ∷ []) = ok (pos n)
read_float (m ∷ n ∷ []) = ok (negsuc n)
read_float _ = raise value_error

abbrev print_float : ℤ → Text
print_float (pos n) = n ∷ []
print_float (negsuc n) = 0 ∷ n ∷ []

read_float-print_float : (x : ℤ) → read_float (print_float x) ≡ ok x
read_float-print_float (pos n) = refl
read_float-print_float (negsuc n) = refl

abbrev int_readers : Readers ℤ
int_readers = record {
  wide_int = λ t. raise value_error;
  float = read_float;
  repr = print_float;
  float-repr = read_float-print_float;
}

abbrev state_config : StateConfig ℤ
state_config = record {
  mqtt_host = codes "broker";
  mqtt_port = pos 1883;
  asset_name = ur5;
  http_port = pos 8002;
  grpc_port = pos 50051;
  rms_window_s = pos 2;
  state_rate_hz = pos 50;
}

state_from_env-environment_example :
    state_from_env int_readers
      (state_environment int_readers (codes "broker") 1883 ur5 8002 50051 (pos 2) (pos 50))
    ≡ ok state_config
state_from_env-environment_example =
    state_from_env-environment int_readers (codes "broker") ur5 1883 8002 50051 (pos 2) (pos 50)
      (omega arith) (omega arith) (omega arith)

main-environment_example :
    (c : Consumer ℤ) × (main whole int_readers
        (state_environment int_readers (codes "broker") 1883 ur5 8002 50051 (pos 2) (pos 50))
      ≡ ok (c, pos 10))
    × (c.config.asset_name ≡ ur5)
    × (c.hub.asset ≡ ur5)
    × (c.window.window_ns ≡ pos 2000000000)
    × Total (run whole vendor telemetry_json busy c)
main-environment_example =
    main-environment whole int_readers vendor whole-IsTame telemetry_json (codes "broker") ur5 1883
      8002 50051 (pos 2) (pos 50) (pos 10) (pos 2000000000) busy (omega arith) (omega arith)
      (omega arith) refl refl busy-IsAdmissible
