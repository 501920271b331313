-- ===== src/Tests/Endpoints.antt =====
-- The theorems on the sessions of viz-svc, the overlapping calls and the readiness of command-svc,
-- and the commands of the bridge, at concrete inputs.
use twin_services.Base.{
  ◌≡◌, ◌≢◌, ◌⊎◌, inl, refl, codes, true, false, none, some, List, [], ◌∷◌, All, arith,
}
use twin_services.Base.Eq.{nat_is_eq, text_is_eq}
use twin_services.Base.Int.{ℤ, pos}
use twin_services.Base.Result.{ok, Total}
use twin_services.Contracts.Command.{validate_command}
use twin_services.Contracts.Command.Laws.{validate_command-write}
use twin_services.Bridge.Trajectory.{forward_command-write}
use twin_services.State.Hub.{Hub}
use twin_services.State.Build.{TwinState}
use twin_services.Viz.{Viewer, Frame}
use twin_services.Commands.{acknowledged, Publisher, unavailable, post_command}
use twin_services.Commands.Readiness.{ready-post_command}
use twin_services.Commands.Readiness
use twin_services.Commands.Concurrent.{Session, begins, settles, delivers}
use twin_services.Commands.Concurrent
use twin_services.Commands.Concurrent.Account.{Accounts, run-Accounts_calls}
use twin_services.Commands.Concurrent.Stale.{IsDeaf, overtaken, stale_failure_lasts}
use twin_services.Base.{◌++◌}
use twin_services.Bridge.Commander.{
  Commander, connects, message, breaks, Forwards, received, IsHandled, run-Forwards, run-IsHandled,
}
use twin_services.Bridge.Commander
use twin_services.Bridge.{forward_command}
use twin_services.Tests.{whole, command_json, move_elbow, ur5}

abbrev twin_state : TwinState ℤ
twin_state = record {
  schema_version = 1;
  asset = ur5;
  stamp_ns = 9;
  rms_window_s = pos 2;
  end_effector = record {
    x = pos 1;
    y = pos 2;
    z = pos 3;
    qx = pos 4;
    qy = pos 5;
    qz = pos 6;
    qw = pos 7;
  };
  joints = [];
}

abbrev twin_frame : Frame ℤ
twin_frame = record {
  stamp_ms = pos 9;
  position = pos 1 ∷ pos 2 ∷ pos 3 ∷ [];
  quaternion = pos 4 ∷ pos 5 ∷ pos 6 ∷ pos 7 ∷ [];
  joints = [];
}

abbrev twin_hub : Hub (TwinState ℤ)
twin_hub = record { asset = ur5; latest = some twin_state; subscribers = [] }

abbrev two_states : List (TwinState ℤ × ℤ)
two_states = (twin_state, pos 7) ∷ (twin_state, pos 7) ∷ []

abbrev no_browser : Viewer ℤ
no_browser = record { clients = pos 0; frames = 0; suspended = 0; sockets = []; closed = [] }

abbrev disconnected_publisher : Publisher command_json.Payload
disconnected_publisher = record {
  asset_name = ur5;
  open_connection = none;
  client = none;
  published_home = 0;
  published_move = 0;
  sent = [];
}

abbrev order : command_json.Payload
order = command_json.write move_elbow

order-valid : validate_command command_json order ≡ ok move_elbow
order-valid =
    validate_command-write command_json move_elbow (omega arith) (refl, refl) (inl (refl, refl))
      (refl, tt) refl

ready-post_command_example :
    ((((Readiness.ready disconnected_publisher).1.status_code ≡ 503)
        × (post_command command_json acknowledged (codes "id") order disconnected_publisher
            ≡ (disconnected_publisher, unavailable)))
      ⊎ (((Readiness.ready disconnected_publisher).1.status_code ≡ 200)
          × ((post_command command_json acknowledged (codes "id") order disconnected_publisher).1
              ≢ unavailable)))
    × (Readiness.metrics disconnected_publisher ≡ (Readiness.ready disconnected_publisher).0)
ready-post_command_example =
    ready-post_command command_json disconnected_publisher acknowledged (codes "id") order
      move_elbow order-valid

-- A command that comes too early, one that comes in time, and one behind a loss.
abbrev orders : List (Commander.Event command_json.Payload)
orders =
    message (some order)
    ∷ connects true
    ∷ message (some order)
    ∷ message none
    ∷ breaks
    ∷ message (some order)
    ∷ []

orders-IsHandled :
    All (IsHandled whole command_json ur5) (received whole command_json ur5 false orders)
unfolding forward_command
orders-IsHandled = (
  (
    _,
    forward_command-write whole command_json move_elbow (pos 2) (pos 2000000000) (pos 2)
        (omega arith) (refl, refl) (inl (refl, refl)) (refl, tt) refl (tt, tt) refl refl refl,
  ),
  ((none, refl), tt),
)

orders_run : Total (Commander.run whole command_json ur5 orders Commander.start)
unfolding Commander.start
orders_run = run-IsHandled whole command_json ur5 orders Commander.start orders-IsHandled

run-Forwards_example :
    Forwards whole command_json ur5
      (received whole command_json ur5 false orders)
      orders_run.0.goals
run-Forwards_example = run-Forwards whole command_json ur5 orders orders_run.0 orders_run.1

-- Numbers whose sines are 0.
-- command-svc with the connection 1 and no calls that wait.
abbrev connected_session : Session ℤ command_json.Payload
connected_session = record {
  publisher = record disconnected_publisher { open_connection = some 1; client = some 1 };
  waiting = [];
  answers = [];
}

-- Two calls overlap, and the second ends first.
abbrev overlapping : List (Concurrent.Event ℤ)
overlapping =
    begins move_elbow
    ∷ begins move_elbow
    ∷ delivers 1
    ∷ settles 1 true
    ∷ Concurrent.breaks
    ∷ settles 0 false
    ∷ begins move_elbow
    ∷ []

run-Accounts_calls_example :
    Accounts command_json 3 connected_session
      (Concurrent.run command_json overlapping connected_session)
run-Accounts_calls_example = run-Accounts_calls command_json overlapping connected_session

stale_failure_lasts_example : IsDeaf command_json 2 [] (
    Concurrent.run command_json
      (overtaken command_json move_elbow 2 ++ begins move_elbow ∷ settles 0 true ∷ [])
      connected_session)
stale_failure_lasts_example =
    stale_failure_lasts command_json move_elbow 1 2 connected_session
      (begins move_elbow ∷ settles 0 true ∷ []) refl refl refl tt
