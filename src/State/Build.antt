-- ===== src/State/Build.antt =====
-- `build_state` of services/state-svc/src/state_svc/grpc_server.py, and the message `TwinState` of
-- contracts/proto/state.proto that it fills.
pub mod Laws
use twin_services.Base.{ℕ, ◌≤◌, ◌<◌, ◌≡◌, Text, Option, none, some, List, map}
use twin_services.Base.Result.{Result, ok, raise, value_error, ◌>>=◌}
use twin_services.Floats.{Floats}
use twin_services.Contracts.Vocabulary.{schema_version as current_version}
use twin_services.State.Window.{RollingWindow, JointSnapshot, snapshot}
use twin_services.State.Kinematics.{Matrix, Pose, forward}

-- The fields of a joint are those of its snapshot.
pub record TwinState (F : Type 0) : Type 0 where
  pub schema_version : ℕ
  pub asset : Text
  pub stamp_ns : ℕ
  pub rms_window_s : F
  pub end_effector : Pose F
  pub joints : List (JointSnapshot F)

-- The number of values of a `uint64`.
abbrev pub uint64_size : ℕ
uint64_size = 18446744073709551616

-- What is not in the services: the generated setter of a `uint64` field, which raises ValueError
-- out of range, and numpy's product of matrices.
pub record Vendor (F : Type 0) : Type 0 where
  pub matmul : Matrix F → Matrix F → Matrix F
  pub uint64 : ℕ → Result ℕ
  pub uint64_fits : (n : ℕ) → n < uint64_size → uint64 n ≡ ok n
  pub uint64_too_large : (n : ℕ) → uint64_size ≤ n → uint64 n ≡ raise value_error

module _ (fl : Floats) (vendor : Vendor fl.F) where
  open fl use {F}
  open vendor use {matmul, uint64}

  assemble : Text → RollingWindow F → F → List (JointSnapshot F) → Result (TwinState F)
  assemble asset w rms_window_s snapshots =
      forward fl matmul (map (λ (s : JointSnapshot F). s.position_rad) snapshots) >>= λ pose.
      uint64 w.stamp_ns >>= λ stamp. ok (record {
        schema_version = current_version;
        asset = asset;
        stamp_ns = stamp;
        rms_window_s = rms_window_s;
        end_effector = pose;
        joints = snapshots;
      })

  unfoldable pub assemble_if :
      Text → RollingWindow F → F → Option (List (JointSnapshot F)) → Result (Option (TwinState F))
  unfolding assemble
  assemble_if asset w rms_window_s none = ok none
  assemble_if asset w rms_window_s (some snapshots) =
      assemble asset w rms_window_s snapshots >>= λ state. ok (some state)

  unfoldable pub build_state : Text → RollingWindow F → F → Result (Option (TwinState F))
  unfolding assemble_if
  build_state asset w rms_window_s = snapshot fl w >>= assemble_if asset w rms_window_s
