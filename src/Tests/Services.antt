-- ===== src/Tests/Services.antt =====
-- The theorems on state-svc's consumer, telemetry-svc and command-svc, at concrete inputs.
use twin_services.Base.{
  ap, ℕ, ◌≡◌, refl, text_eq, Bool, true, false, none, some, List, [], ◌∷◌, All, arith,
}
use twin_services.Base.Eq.{lookup, contains, text_is_eq}
use twin_services.Base.Int.{ℤ, pos}
use twin_services.Base.Result.{Exc, Total, ok, raise}
use twin_services.Contracts.Vocabulary.{velocity, effort, ur5_joint_names}
use twin_services.Contracts.Topics.{telemetry_topic, command_topic}
use twin_services.Contracts.Topics.Language.{parse-telemetry_topic, parse-command_topic}
use twin_services.Bridge.{outgoing}
use twin_services.Bridge.Telemetry.{as_message, judge-outgoing}
use twin_services.State.Window.{
  RollingWindow, Channel, channel_is_eq, snapshot, readings, velocity_rms, rms,
}
use twin_services.State.Window.Snapshot.{snapshot_exactly-Describes}
use twin_services.State.Build.{TwinState, build_state, uint64_size}
use twin_services.State.Build.Laws.{Reflects, build_state-Reflects, build_state_total}
use twin_services.State.Consumer.{
  Consumer, Message, Event, connected, disconnected, tick, message, client_joins, client_leaves,
  client_reads, bad_topic, bad_payload, accepted, judge, elem, broadcast, run,
}
use twin_services.State.Consumer.Account.{Adds, admitted_of, messages_of, run-Adds}
use twin_services.State.Consumer.Silence.{IsSilent, large_stamp-IsSilent}
use twin_services.State.Consumer.{Verdict, apply_verdict, step, observe_message}
use twin_services.State.Consumer.Broadcast.{broadcast_raises}
use twin_services.State.Consumer.Uptime.{IsReady, IsAdmissible, run-IsReady}
use twin_services.Tests.{
  configured, whole, whole-IsTame, vendor, telemetry_json, finite, fresh_window,
  fresh_window-IsFresh, full_window, rest_of, elbow, ur5, sample, IsSegment-ur5, IsSegment-elbow,
}

abbrev idle : RollingWindow ℤ → Bool → Consumer ℤ
idle w dirty = record {
  config = configured (pos 5);
  window = w;
  hub = record { asset = ur5; latest = none; subscribers = [] };
  mqtt_connected = false;
  dirty = dirty;
  messages = 0;
  rejected_topic = 0;
  rejected_joint = 0;
  rejected_payload = 0;
  published = 0;
}

abbrev m_sample : Message telemetry_json.Payload
m_sample = as_message telemetry_json ur5 (outgoing telemetry_json ur5 elbow velocity (pos 3) 9)

abbrev m_command : Message telemetry_json.Payload
m_command = record { topic = command_topic ur5; payload = none }

abbrev m_none : Message telemetry_json.Payload
m_none = record { topic = telemetry_topic ur5 elbow effort; payload = none }

-- A velocity of the elbow, a topic that is none, and a payload that is neither bytes nor str.
abbrev pub busy : List (Event telemetry_json.Payload)
busy =
    connected
    ∷ client_joins 4
    ∷ message m_sample
    ∷ message m_command
    ∷ message m_none
    ∷ tick
    ∷ client_reads 4
    ∷ disconnected
    ∷ client_leaves 4
    ∷ []

no_reading : (c : Channel) (v : ℤ) → lookup c fresh_window.latest ≡ some v → finite v ≡ true
unfolding lookup
no_reading c v e = cc

abbrev new_consumer : Consumer ℤ
new_consumer = idle fresh_window false

new_consumer-IsReady : IsReady whole vendor new_consumer
new_consumer-IsReady = record {
  servable = record {
    well_formed = fresh_window-IsFresh.well_formed;
    finite = no_reading;
    fits = omega arith;
  };
  six = refl;
  mailboxes = tt;
}

judge_sample : judge telemetry_json m_sample ≡ accepted elbow velocity (sample (pos 3) 9)
unfolding elem text_eq
judge_sample =
    judge-outgoing telemetry_json ur5 elbow velocity (pos 3) 9 IsSegment-ur5 IsSegment-elbow refl
      refl

judge_command : judge telemetry_json m_command ≡ bad_topic
unfolding judge
judge_command = rw (parse-command_topic ur5)

judge_none : judge telemetry_json m_none ≡ bad_payload
unfolding judge elem text_eq
judge_none = rw (parse-telemetry_topic ur5 elbow effort IsSegment-ur5 IsSegment-elbow)

pub busy-IsAdmissible : All (IsAdmissible whole vendor) (admitted_of telemetry_json busy)
busy-IsAdmissible = rw (judge_sample, judge_command, judge_none) ((refl, omega arith), tt)

busy_runs :
    (c' : Consumer ℤ) × (run whole vendor telemetry_json busy new_consumer ≡ ok c')
    × IsReady whole vendor c'
busy_runs =
    run-IsReady whole vendor whole-IsTame telemetry_json busy new_consumer busy-IsAdmissible
      new_consumer-IsReady

run-IsReady_example :
    (c' : Consumer ℤ) × (run whole vendor telemetry_json busy new_consumer ≡ ok c')
    × IsReady whole vendor c'
run-IsReady_example =
    run-IsReady whole vendor whole-IsTame telemetry_json busy new_consumer busy-IsAdmissible
      new_consumer-IsReady

run-Adds_example :
    Adds whole vendor telemetry_json
      (admitted_of telemetry_json busy)
      (messages_of telemetry_json busy)
      new_consumer
      busy_runs.0
run-Adds_example = run-Adds whole vendor telemetry_json busy new_consumer busy_runs.0 busy_runs.1

full_window-snapshot :
    (x : ℤ) (stamp : ℕ)
    → snapshot whole (full_window x stamp) ≡ ok (some (rest_of x ur5_joint_names))
unfolding readings velocity_rms rms lookup text_eq
full_window-snapshot x stamp =
    (snapshot_exactly-Describes whole (full_window x stamp) (rest_of x ur5_joint_names)).1 (
      refl,
      refl,
      refl,
      (
        refl,
        refl,
        refl,
        (refl, refl, refl, (refl, refl, refl, (refl, refl, refl, (refl, refl, refl, tt)))),
      ),
    )

full_window-state :
    (st : TwinState ℤ) × (build_state whole vendor ur5 (full_window (pos 5) 3) (pos 5)
      ≡ ok (some st))
full_window-state =
    build_state_total whole vendor whole-IsTame.exact whole-IsTame.twists ur5
      (full_window (pos 5) 3) (pos 5) (rest_of (pos 5) ur5_joint_names)
      (full_window-snapshot (pos 5) 3) refl (omega arith)
      (five, (five, (five, (five, (five, (five, tt))))))
  where
    five : Total (whole.cos (pos 5)) × Total (whole.sin (pos 5))
    five = whole-IsTame.cosines (pos 5) refl

build_state-Reflects_example :
    Reflects whole vendor ur5 (full_window (pos 5) 3) (pos 5) full_window-state.0
build_state-Reflects_example =
    build_state-Reflects whole vendor ur5 (full_window (pos 5) 3) (pos 5) full_window-state.0
      full_window-state.1

abbrev infinite : ℤ
infinite = pos 1000000

broadcast_raises_example :
    (y : Exc) × (broadcast whole vendor (idle (full_window infinite 3) true) ≡ raise y)
broadcast_raises_example =
    broadcast_raises whole vendor (idle (full_window infinite 3) true)
      (rest_of infinite ur5_joint_names) [] infinite
      (infinite ∷ infinite ∷ infinite ∷ infinite ∷ infinite ∷ []) refl
      (full_window-snapshot infinite 3) refl refl refl

-- A sample whose stamp needs 65 bits.
abbrev m_late : Message telemetry_json.Payload
m_late =
    as_message telemetry_json ur5 (outgoing telemetry_json ur5 elbow velocity (pos 3) uint64_size)

judge_late : judge telemetry_json m_late ≡ accepted elbow velocity (sample (pos 3) uint64_size)
unfolding elem text_eq
judge_late =
    judge-outgoing telemetry_json ur5 elbow velocity (pos 3) uint64_size IsSegment-ur5
      IsSegment-elbow refl refl

abbrev judged : Verdict ℤ → Consumer ℤ
judged v = record (apply_verdict v (record new_consumer { messages = 1 })) { mqtt_connected = true }

abbrev late_consumer : Consumer ℤ
late_consumer = judged (accepted elbow velocity (sample (pos 3) uint64_size))

late_runs :
    run whole vendor telemetry_json (message m_late ∷ connected ∷ []) new_consumer
    ≡ ok late_consumer
unfolding run step observe_message
late_runs = ap (λ v. ok (judged v)) judge_late

large_stamp-IsSilent_example : IsSilent whole vendor new_consumer late_consumer
unfolding lookup contains text_eq
large_stamp-IsSilent_example =
    large_stamp-IsSilent whole vendor telemetry_json m_late elbow velocity
      (sample (pos 3) uint64_size) (connected ∷ []) new_consumer late_consumer judge_late refl
      (omega arith) late_runs
