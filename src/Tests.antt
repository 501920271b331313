-- ===== src/Tests.antt =====
-- Concrete inputs: integers in place of floats, records in place of JSON, and a robot at rest.
mod Contracts
mod State
mod Services
mod Bridges
mod Operations
mod Pipeline
mod Deployment
mod Endpoints
use twin_services.Base.{
  ℕ, zero, suc, ◌+◌, ◌*◌, ◌≤◌, ◌<◌, ◌≡◌, refl, Text, codes, Bool, true, false, not, ltb, leb,
  Option, none, some, List, [], ◌∷◌, text_eq, All, arith, if◌then◌else◌,
}
use twin_services.Base.Int.{ℤ, pos, negsuc, ◌+ℤ◌, ◌-ℤ◌, ◌≤ℤ◌, ltb_ℤ, int_laws}
use twin_services.Base.Result.{Result, ok, raise, value_error, zero_division, Total}
use twin_services.Base.Eq.{insert, text_is_eq}
use twin_services.Floats.{Floats}
use twin_services.Contracts.Vocabulary.{
  JointField, position, velocity, effort, move_joints, ur5_joint_names,
}
use twin_services.Contracts.Telemetry.{JointTelemetry, TelemetryFields, TelemetryJson, fields_of}
use twin_services.Contracts.Command.{JointCommand, CommandFields, CommandJson, command_fields_of}
use twin_services.Contracts.Topics.Matching.{IsSegment}
use twin_services.State.Window.{RollingWindow, Channel, JointSnapshot, init, empty_histories}
use twin_services.State.Window.Start.{IsFresh, init-IsFresh}
use twin_services.State.Window.Finite.{HasMeans}
use twin_services.State.Kinematics.{Matrix, twice_root}
use twin_services.State.Kinematics.Pivot.{IsExact}
use twin_services.State.Build.{Vendor, uint64_size}
use twin_services.Config.{StateConfig}
use twin_services.Bridge.{JointStateMessage}
use twin_services.State.Consumer.Uptime.{IsTame}

abbrev product : ℤ → ℤ → ℤ
product (pos a) (pos b) = pos (a * b)
product (negsuc a) (negsuc b) = pos (suc a * suc b)
product (pos a) (negsuc b) = pos 0 -ℤ pos (a * suc b)
product (negsuc a) (pos b) = pos 0 -ℤ pos (suc a * b)

abbrev quotient : ℤ → ℤ → Result ℤ
quotient a (pos b) = if leb b 0 then raise zero_division else ok a
quotient a (negsuc b) = ok a

abbrev root : ℤ → Result ℤ
root (pos n) = ok (pos n)
root (negsuc n) = raise value_error

abbrev total_of : List ℤ → ℤ
total_of [] = pos 0
total_of (x ∷ xs) = x +ℤ total_of xs

-- Numbers from a million on stand for the infinite.
abbrev finite : ℤ → Bool
finite x = ltb_ℤ x (pos 1000000)

abbrev wave : ℤ → Result ℤ
wave x = if finite x then ok x else raise value_error

-- Integers that stand for floats; a literal is its digits.
abbrev whole : Floats
whole = record {
  F = ℤ;
  literal = λ m k. m;
  add = ◌+ℤ◌;
  sub = ◌-ℤ◌;
  mul = product;
  neg = λ x. pos 0 -ℤ x;
  div = quotient;
  rem = quotient;
  sum = total_of;
  lt = ltb_ℤ;
  le = λ a b. not (ltb_ℤ b a);
  sqrt = root;
  cos = wave;
  sin = wave;
  half_pi = pos 157;
  truncate = ok;
  of_ℕ = pos;
  is_finite = finite;
}

twice_root-large :
    (x : ℤ) → pos 10 ≤ℤ x → (s : ℤ) × (twice_root whole x ≡ ok s) × ((a : ℤ) → Total (quotient a s))
twice_root-large (negsuc n) h = absurd (omega arith)
twice_root-large (pos n) h = (pos (n * 20), refl, λ a. (a, ground arith))

whole-IsExact : IsExact whole
whole-IsExact = record {
  units = λ x. x;
  one_units = 10;
  units_of_zero = refl;
  units_of_one = refl;
  units-add = λ a b. refl;
  units-sub = λ a b. refl;
  lt_units = λ a b. refl;
  root = twice_root-large;
}

abbrev NonNegative : ℤ → Type 0
NonNegative x = pos 0 ≤ℤ x

square-NonNegative : (x : ℤ) → NonNegative (product x x)
square-NonNegative (pos n) = omega arith
square-NonNegative (negsuc n) = omega arith

total_of-NonNegative : (xs : List ℤ) → All NonNegative xs → NonNegative (total_of xs)
total_of-NonNegative [] a = omega arith
total_of-NonNegative (x ∷ xs) a = omega (int_laws, a.0, total_of-NonNegative xs a.1)

root-NonNegative : (x : ℤ) → NonNegative x → Total (root x)
root-NonNegative (pos n) h = (pos n, refl)
root-NonNegative (negsuc n) h = absurd (omega arith)

whole-HasMeans : HasMeans whole
whole-HasMeans = record {
  NonNegative = NonNegative;
  square = square-NonNegative;
  sum_of = total_of-NonNegative;
  mean_of = λ x n h. (x, ground arith, h);
  root_of = root-NonNegative;
}

whole-IsTame : IsTame whole
unfolding ◌-ℤ◌
whole-IsTame = record {
  exact = whole-IsExact;
  means = whole-HasMeans;
  twists = (((_, refl), (_, refl)), ((_, refl), (_, refl)), ((_, refl), (_, refl)));
  cosines = λ x h. ((x, rw h), (x, rw h));
}

-- A payload is the object that the reader finds in it.
abbrev telemetry_json : TelemetryJson ℤ finite
telemetry_json = record {
  Payload = Option (TelemetryFields ℤ);
  read = λ p. p;
  write = λ m. some (fields_of m);
  read-write = λ m h. refl;
}

abbrev command_json : CommandJson whole
command_json = record {
  Payload = Option (CommandFields ℤ);
  read = λ p. p;
  write = λ c. some (command_fields_of c);
  read-write = λ c f d. refl;
}

uint64 : ℕ → Result ℕ
uint64 n = if ltb n uint64_size then ok n else raise value_error

uint64-fits : (n : ℕ) → n < uint64_size → uint64 n ≡ ok n
unfolding uint64
uint64-fits n h = ground arith

uint64-too_large : (n : ℕ) → uint64_size ≤ n → uint64 n ≡ raise value_error
unfolding uint64
uint64-too_large n h = ground arith

abbrev vendor : Vendor ℤ
vendor = record {
  matmul = λ a b. a;
  uint64 = uint64;
  uint64_fits = uint64-fits;
  uint64_too_large = uint64-too_large;
}

-- A reading of every joint and field.
abbrev all_readings : ℤ → List Text → List (Channel × ℤ)
all_readings x [] = []
all_readings x (j ∷ js) =
    (record { joint = j; field = position }, x)
    ∷ (record { joint = j; field = velocity }, x)
    ∷ (record { joint = j; field = effort }, x)
    ∷ all_readings x js

abbrev no_histories : List Text → List (Text × List (ℕ × ℤ))
no_histories [] = []
no_histories (j ∷ js) = (j, []) ∷ no_histories js

-- A new window, and one that has a reading `x` everywhere.
abbrev fresh_window : RollingWindow ℤ
fresh_window = record {
  window_ns = pos 0;
  joints = ur5_joint_names;
  latest = [];
  velocities = no_histories ur5_joint_names;
  stamp_ns = 0;
}

init_fresh : init whole (pos 0) ur5_joint_names ≡ ok fresh_window
unfolding init empty_histories insert text_eq
init_fresh = refl

fresh_window-IsFresh : IsFresh ur5_joint_names fresh_window
fresh_window-IsFresh = init-IsFresh whole (pos 0) ur5_joint_names fresh_window init_fresh

abbrev full_window : ℤ → ℕ → RollingWindow ℤ
full_window x stamp = record {
  window_ns = pos 100;
  joints = ur5_joint_names;
  latest = all_readings x ur5_joint_names;
  velocities = no_histories ur5_joint_names;
  stamp_ns = stamp;
}

abbrev elbow : Text
elbow = codes "elbow_joint"

abbrev ur5 : Text
ur5 = codes "ur5"

abbrev sample : ℤ → ℕ → JointTelemetry ℤ
sample x stamp = record { schema_version = 1; value = x; stamp_ns = stamp }

IsSegment-ur5 : IsSegment ur5
IsSegment-ur5 = record { no_slash = ground arith; some_text = λ p. cc }

IsSegment-elbow : IsSegment elbow
IsSegment-elbow = record { no_slash = ground arith; some_text = λ p. cc }

-- The elbow to 7, in 2.
abbrev move_elbow : JointCommand ℤ
move_elbow = record {
  schema_version = 1;
  kind = move_joints;
  positions = some ((elbow, pos 7) ∷ []);
  duration_s = pos 2;
}

-- The snapshot of a window where every reading is `x` and no velocity is remembered.
abbrev rest_of : ℤ → List Text → List (JointSnapshot ℤ)
rest_of x [] = []
rest_of x (j ∷ js) =
    record { name = j; position_rad = x; velocity_rad_s = x; effort_nm = x; velocity_rms = pos 0 }
    ∷ rest_of x js

abbrev configured : ℤ → StateConfig ℤ
configured window_s = record {
  mqtt_host = codes "localhost";
  mqtt_port = pos 1883;
  asset_name = ur5;
  http_port = pos 8002;
  grpc_port = pos 50051;
  rms_window_s = window_s;
  state_rate_hz = pos 50;
}

abbrev config : StateConfig ℤ
config = configured (pos 0)

-- The elbow alone.
abbrev one_joint : JointStateMessage ℤ
one_joint = record {
  stamp_ns = 9;
  names = elbow ∷ [];
  positions = pos 1 ∷ [];
  velocities = pos 2 ∷ [];
  efforts = pos 3 ∷ [];
}
