-- ===== src/Tests/Pipeline.antt =====
-- The theorems on a joint state's way from ROS to the published state, at concrete inputs.
use mathlib.Core.List.{Perm}
use twin_services.Base.{
  ℕ, ◌+◌, ◌≤◌, ◌≡◌, refl, codes, text_eq, true, false, some, List, [], ◌∷◌, ◌++◌, length, All,
  arith,
}
use twin_services.Base.Eq.{lookup, contains, text_is_eq}
use twin_services.Base.Int.{ℤ, pos}
use twin_services.Base.Result.{ok, raise, value_error}
use twin_services.Contracts.Vocabulary.{position, velocity, ur5_joint_names}
use twin_services.Contracts.Topics.Matching.{IsSegment}
use twin_services.State.Window.{snapshot}
use twin_services.State.Window.History.{Observation, observe_all}
use twin_services.State.Window.Batch.{snapshot_of_log, snapshot-observe_all}
use twin_services.State.Build.{TwinState}
use twin_services.State.Hub.Mailbox.{board}
use twin_services.State.Consumer.{start, Consumer, tick, elem, run}
use twin_services.Bridge.{
  JointState, JointStateMessage, Outgoing, field_lengths_match, publish_joint_states,
}
use twin_services.Bridge.Telemetry.{IsUsable}
use twin_services.Bridge.Delivery.{Shows, as_events, columns_of, published-Shows}
use twin_services.Bridge.Delivery.Readings.{Displays}
use twin_services.Bridge.Delivery.Display.{joint_state-Displays}
use twin_services.Bridge.Pipeline.{
  Pipeline, Event, arrives, puts, connects, takes, publishes, maxsize,
}
use twin_services.Bridge.Pipeline
use twin_services.Bridge.Pipeline.Ledger.{validated, all_publications}
use twin_services.Bridge.Pipeline.Uptime.{run_total}
use twin_services.Bridge.Pipeline.Publish.{IsNamed, IsClear}
use twin_services.Bridge.{validate_state, publish_from, get_elem?, index, outgoing}
use twin_services.Contracts.Topics.{telemetry_topic}
use twin_services.Base.{Bool, Text, not, all, ◌||◌, ◌==◌}
use twin_services.Bridge.Pipeline.Backlog.{run-pending}
use twin_services.Bridge.Pipeline.Service.{Reaches}
use twin_services.Bridge.Pipeline.Drain.{drain}
use twin_services.Tests.{
  whole, whole-IsTame, vendor, telemetry_json, init_fresh, fresh_window, fresh_window-IsFresh,
  elbow, ur5, sample, IsSegment-ur5, IsSegment-elbow, config, one_joint,
}

-- Two velocities and a position of the elbow.
abbrev log : List (Observation ℤ)
log =
    record { joint = elbow; field = velocity; sample = sample (pos 3) 5 }
    ∷ record { joint = elbow; field = position; sample = sample (pos 8) 6 }
    ∷ record { joint = elbow; field = velocity; sample = sample (pos 4) 200 }
    ∷ []

snapshot-observe_all_example :
    snapshot whole (observe_all log fresh_window)
    ≡ snapshot_of_log whole (pos 0) log ur5_joint_names
snapshot-observe_all_example =
    snapshot-observe_all whole ur5_joint_names fresh_window log fresh_window-IsFresh
      (omega arith, (omega arith, (omega arith, tt)))

published-Shows_example :
    (out : List (Outgoing telemetry_json.Payload)) × (publish_joint_states telemetry_json ur5
        one_joint
      ≡ ok out)
    × ((c' : Consumer ℤ) × (run whole vendor telemetry_json
            (as_events whole vendor telemetry_json ur5 out)
            (start config fresh_window)
          ≡ ok c')
        × All (Shows whole c'.window) (columns_of whole vendor telemetry_json ur5 one_joint))
unfolding field_lengths_match elem text_eq contains lookup start
published-Shows_example =
    published-Shows whole vendor telemetry_json ur5 one_joint (start config fresh_window) refl
      IsSegment-ur5 ((refl, IsSegment-elbow, refl, refl, refl), tt) (refl, tt) (refl, tt)

-- The six joints, in another order than the robot's.
abbrev six_joints : JointStateMessage ℤ
six_joints = record {
  stamp_ns = 9;
  names =
      codes "elbow_joint"
      ∷ codes "shoulder_lift_joint"
      ∷ codes "shoulder_pan_joint"
      ∷ codes "wrist_1_joint"
      ∷ codes "wrist_2_joint"
      ∷ codes "wrist_3_joint"
      ∷ [];
  positions = pos 1 ∷ pos 2 ∷ pos 3 ∷ pos 4 ∷ pos 5 ∷ pos 6 ∷ [];
  velocities = pos 7 ∷ pos 8 ∷ pos 9 ∷ pos 10 ∷ pos 11 ∷ pos 12 ∷ [];
  efforts = pos 13 ∷ pos 14 ∷ pos 15 ∷ pos 16 ∷ pos 17 ∷ pos 18 ∷ [];
}

IsSegment-lift : IsSegment (codes "shoulder_lift_joint")
IsSegment-lift = record { no_slash = ground arith; some_text = λ p. cc }

IsSegment-pan : IsSegment (codes "shoulder_pan_joint")
IsSegment-pan = record { no_slash = ground arith; some_text = λ p. cc }

IsSegment-wrist_1 : IsSegment (codes "wrist_1_joint")
IsSegment-wrist_1 = record { no_slash = ground arith; some_text = λ p. cc }

IsSegment-wrist_2 : IsSegment (codes "wrist_2_joint")
IsSegment-wrist_2 = record { no_slash = ground arith; some_text = λ p. cc }

IsSegment-wrist_3 : IsSegment (codes "wrist_3_joint")
IsSegment-wrist_3 = record { no_slash = ground arith; some_text = λ p. cc }

six-IsUsable :
    All (IsUsable telemetry_json ur5) (columns_of whole vendor telemetry_json ur5 six_joints)
unfolding elem text_eq
six-IsUsable = (
  (refl, IsSegment-elbow, refl, refl, refl),
  (
    (refl, IsSegment-lift, refl, refl, refl),
    (
      (refl, IsSegment-pan, refl, refl, refl),
      (
        (refl, IsSegment-wrist_1, refl, refl, refl),
        (
          (refl, IsSegment-wrist_2, refl, refl, refl),
          ((refl, IsSegment-wrist_3, refl, refl, refl), tt),
        ),
      ),
    ),
  ),
)

joint_state-Displays_example :
    (out : List (Outgoing telemetry_json.Payload)) × (c' : Consumer ℤ) × (st : TwinState ℤ)
    × (publish_joint_states telemetry_json ur5 six_joints ≡ ok out)
    × (run whole vendor telemetry_json
          (as_events whole vendor telemetry_json ur5 out ++ tick ∷ [])
          (start config fresh_window)
        ≡ ok c')
    × ((board c'.hub).latest ≡ some st)
    × All (Displays whole st.joints) (columns_of whole vendor telemetry_json ur5 six_joints)
unfolding field_lengths_match elem text_eq
joint_state-Displays_example =
    joint_state-Displays whole telemetry_json ur5 vendor whole-IsTame config fresh_window six_joints
      init_fresh refl IsSegment-ur5 (omega arith) six-IsUsable
      (refl, (refl, (refl, (refl, (refl, (refl, tt))))))
      (refl, (refl, (refl, (refl, (refl, (refl, tt))))))

-- What ROS says of the elbow at one second and `n` nanoseconds.
abbrev ros_state : ℕ → JointState ℤ
ros_state n = record {
  sec = pos 1;
  nanosec = n;
  name = elbow ∷ [];
  position = pos 1 ∷ [];
  velocity = pos 2 ∷ [];
  effort = pos 3 ∷ [];
}

-- Two joint states, of which the first is cut short by a loss of the broker.
abbrev bad_day : List (Event ℤ)
bad_day =
    arrives (ros_state 1)
    ∷ arrives (ros_state 2)
    ∷ puts 1
    ∷ connects true
    ∷ takes
    ∷ publishes true
    ∷ publishes false
    ∷ puts 0
    ∷ connects false
    ∷ connects true
    ∷ takes
    ∷ publishes true
    ∷ []

-- A client that refuses topics with a wildcard.
abbrev no_wildcard : Text → Bool
no_wildcard topic = all (λ c. not (c == 43 || c == 35)) topic

abbrev Named : JointStateMessage ℤ → Type 0
Named m = IsNamed telemetry_json ur5 no_wildcard m

bad_day-Named : All Named (validated telemetry_json ur5 bad_day)
unfolding validate_state publish_joint_states publish_from field_lengths_match index get_elem?
    outgoing telemetry_topic
bad_day-Named = ((refl, (refl, (refl, tt))), ((refl, (refl, (refl, tt))), tt))

start-IsClear : IsClear telemetry_json ur5 no_wildcard Pipeline.start
unfolding Pipeline.start
start-IsClear = record { pending = tt; queue = tt; in_flight = tt }

abbrev Ends : List (Event ℤ) → Type 0
Ends es =
    (s' : Pipeline ℤ telemetry_json.Payload) × (Pipeline.run telemetry_json ur5 no_wildcard es
        Pipeline.start
      ≡ ok s')
    × IsClear telemetry_json ur5 no_wildcard s'

run_total_example :
    (s' : Pipeline ℤ telemetry_json.Payload) × (Pipeline.run telemetry_json ur5 no_wildcard bad_day
        Pipeline.start
      ≡ ok s')
    × IsClear telemetry_json ur5 no_wildcard s'
run_total_example =
    run_total telemetry_json ur5 no_wildcard bad_day Pipeline.start bad_day-Named start-IsClear

-- The broker is away.
abbrev lonely_day : List (Event ℤ)
lonely_day = arrives (ros_state 1) ∷ puts 0 ∷ connects false ∷ arrives (ros_state 2) ∷ takes ∷ []

lonely_day-Named : All Named (validated telemetry_json ur5 lonely_day)
unfolding validate_state publish_joint_states publish_from field_lengths_match index get_elem?
    outgoing telemetry_topic
lonely_day-Named = ((refl, (refl, (refl, tt))), ((refl, (refl, (refl, tt))), tt))

lonely_day_end : Ends lonely_day
lonely_day_end =
    run_total telemetry_json ur5 no_wildcard lonely_day Pipeline.start lonely_day-Named
      start-IsClear

run-pending_example :
    Perm
      (lonely_day_end.0.queue ++ lonely_day_end.0.pending)
      (validated telemetry_json ur5 lonely_day)
    × (length (validated telemetry_json ur5 lonely_day) ≤ length lonely_day_end.0.pending + maxsize)
run-pending_example =
    run-pending telemetry_json ur5 no_wildcard lonely_day lonely_day_end.0
      (tt, (tt, (tt, (tt, (tt, tt))))) lonely_day_end.1

drain_example :
    (t : Pipeline ℤ telemetry_json.Payload) × Reaches telemetry_json ur5 no_wildcard
      lonely_day_end.0 t
    × (t.pending ≡ [])
    × (t.queue ≡ [])
    × (t.in_flight ≡ [])
    × (t.sent
        ≡ ((lonely_day_end.0.sent ++ lonely_day_end.0.in_flight)
            ++ all_publications telemetry_json ur5 lonely_day_end.0.queue)
          ++ all_publications telemetry_json ur5 lonely_day_end.0.pending)
drain_example = drain telemetry_json ur5 no_wildcard lonely_day_end.0 lonely_day_end.2

-- A joint whose name has a wildcard.
abbrev wild_day : List (Event ℤ)
wild_day =
    arrives (record (ros_state 1) { name = codes "arm+elbow" ∷ [] })
    ∷ puts 0
    ∷ connects true
    ∷ takes
    ∷ publishes true
    ∷ []

wild_day_raises :
    Pipeline.run telemetry_json ur5 no_wildcard wild_day Pipeline.start ≡ raise value_error
unfolding Pipeline.run Pipeline.step Pipeline.start Pipeline.on_msg Pipeline.put_waiting
    Pipeline.connect Pipeline.take Pipeline.publish_one validate_state publish_joint_states
    publish_from field_lengths_match outgoing telemetry_topic index get_elem?
wild_day_raises = refl
