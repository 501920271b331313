-- ===== src/Tests/Bridges.antt =====
-- The theorems on the bridge, telemetry-svc and command-svc, at concrete inputs.
use twin_services.Base.{
  ◌⊎◌, ◌++◌, ◌≡◌, ℕ, ◌≤◌, ◌↔◌, length, refl, inl, Text, true, false, none, some, List, [], ◌∷◌,
  codes, arith,
}
use twin_services.Base.Int.{ℤ, pos}
use twin_services.Base.Result.{ok}
use twin_services.Contracts.Vocabulary.{velocity}
use twin_services.Contracts.Topics.{telemetry_topic}
use twin_services.Contracts.Command.{validate_command}
use twin_services.Contracts.Command.Laws.{validate_command-write}
use twin_services.Ingest.{
  Ingestor, start, converted, convert, point_of, connected, pinged, returned, taken_unanswered,
  refused, disconnected, message,
}
use twin_services.Ingest
use twin_services.Ingest.Account.{Ingests, points_of, acknowledged_of, messages_of, run-Ingests}
use twin_services.Ingest.Points.{Source, convert_exactly, convert-write}
use twin_services.Commands.{
  acknowledged, unanswered, Publisher, post_command, stop, then_step, handles,
}
use twin_services.Commands.Delivery.{taken_by, Honest, post_command-Honest}
use twin_services.Commands.Connection.{failure_lasts}
use twin_services.Bridge.{forward_command}
use twin_services.Bridge.Node.{advances, times_out, wakes}
use twin_services.Bridge.Node
use twin_services.Bridge.Node.Start.{Answers, run-Answers}
use twin_services.Bridge.Trajectory.{trajectory, forward_command-write}
use twin_services.Tests.{
  whole, telemetry_json, command_json, elbow, ur5, sample, move_elbow, IsSegment-ur5,
  IsSegment-elbow,
}

-- A connection, samples that the database takes with and without an answer, one that it does not
-- take, and a payload of no use.
abbrev day : List (Ingest.Event telemetry_json.Payload)
day =
    connected
    ∷ pinged true
    ∷ message (telemetry_topic ur5 elbow velocity) (some (telemetry_json.write (sample (pos 3) 9)))
        returned
    ∷ message (telemetry_topic ur5 elbow velocity) (some (telemetry_json.write (sample (pos 5) 9)))
        taken_unanswered
    ∷ message (telemetry_topic ur5 elbow velocity) (some (telemetry_json.write (sample (pos 4) 10)))
        refused
    ∷ message ur5 none returned
    ∷ disconnected
    ∷ []

run-Ingests_example :
    Ingests telemetry_json
      (points_of telemetry_json day)
      (acknowledged_of telemetry_json day)
      (messages_of telemetry_json day)
      start
      (Ingest.run telemetry_json day start)
run-Ingests_example = run-Ingests telemetry_json day start

convert_exactly_example :
    (convert telemetry_json
        (telemetry_topic ur5 elbow velocity)
        (some (telemetry_json.write (sample (pos 3) 9)))
      ≡ converted (point_of ur5 elbow velocity (sample (pos 3) 9)))
    ↔ Source telemetry_json
        (telemetry_topic ur5 elbow velocity)
        (some (telemetry_json.write (sample (pos 3) 9)))
        (point_of ur5 elbow velocity (sample (pos 3) 9))
convert_exactly_example =
    convert_exactly telemetry_json (telemetry_topic ur5 elbow velocity)
      (some (telemetry_json.write (sample (pos 3) 9)))
      (point_of ur5 elbow velocity (sample (pos 3) 9))

convert-write_example :
    convert telemetry_json
      (telemetry_topic ur5 elbow velocity)
      (some (telemetry_json.write (sample (pos 3) 9)))
    ≡ converted (point_of ur5 elbow velocity (sample (pos 3) 9))
convert-write_example =
    convert-write telemetry_json ur5 elbow velocity (sample (pos 3) 9) IsSegment-ur5 IsSegment-elbow
      (omega arith) refl

-- A publisher with connection 1.
abbrev open_publisher : Publisher command_json.Payload
open_publisher = record {
  asset_name = ur5;
  open_connection = some 1;
  client = some 1;
  published_home = 0;
  published_move = 0;
  sent = [];
}

abbrev body : command_json.Payload
body = command_json.write move_elbow

post_command-Honest_example :
    Honest command_json acknowledged
      (codes "id")
      body
      open_publisher
      (post_command command_json acknowledged (codes "id") body open_publisher)
post_command-Honest_example =
    post_command-Honest command_json acknowledged (codes "id") body open_publisher

body-valid : validate_command command_json body ≡ ok move_elbow
body-valid =
    validate_command-write command_json move_elbow (omega arith) (refl, refl) (inl (refl, refl))
      (refl, tt) refl

-- A publication fails, and the next request comes in.
abbrev failed : Publisher command_json.Payload
failed = (post_command command_json unanswered (codes "a") body open_publisher).0

abbrev retried : Publisher command_json.Payload
retried = (post_command command_json acknowledged (codes "b") body failed).0

failure_lasts_example :
    (retried.client ≡ none)
    × ((retried.sent ≡ open_publisher.sent)
        ⊎ (retried.sent
            ≡ open_publisher.sent ++ taken_by command_json unanswered move_elbow open_publisher))
failure_lasts_example =
    failure_lasts command_json open_publisher unanswered (codes "a") body {t = retried} {n = 1}
      {c = move_elbow} (λ same. cc) refl body-valid
      (then_step (handles {reply = acknowledged} {id = codes "b"} {body = body}) stop) tt

abbrev one_column : List (Text × ℤ × ℤ × ℤ)
one_column = (elbow, pos 1, pos 2, pos 3) ∷ []

forward_command-write_example :
    forward_command whole command_json (some (command_json.write move_elbow))
    ≡ ok (some (trajectory whole move_elbow (pos 2) (pos 2000000000)))
forward_command-write_example =
    forward_command-write whole command_json move_elbow (pos 2) (pos 2000000000) (pos 2)
      (omega arith) (refl, refl) (inl (refl, refl)) (refl, tt) refl (tt, tt) refl refl refl

abbrev made : ℕ
made = 7

-- The node is in the box, but not announced, when the time is over; then ROS is shut down.
abbrev slow_start : List Node.Event
slow_start =
    advances true
    ∷ advances true
    ∷ advances true
    ∷ times_out
    ∷ advances true
    ∷ wakes
    ∷ advances false
    ∷ advances true
    ∷ advances true
    ∷ []

run-Answers_example :
    Answers made slow_start Node.start
    × ((Node.run made slow_start Node.start).shut_down
        ≤ (Node.run made slow_start Node.start).destroyed)
    × ((Node.run made slow_start Node.start).destroyed
        ≤ length (Node.run made slow_start Node.start).node_box)
    × (length (Node.run made slow_start Node.start).node_box ≤ 1)
run-Answers_example = run-Answers made slow_start
