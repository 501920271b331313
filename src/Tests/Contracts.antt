-- ===== src/Tests/Contracts.antt =====
-- The theorems on the contracts, at concrete inputs.
use twin_services.Base.{◌≡◌, ◌↔◌}
use twin_services.Base.Result.{ok}
use twin_services.Contracts.Vocabulary.{position}
use twin_services.Contracts.Topics.{telemetry_topic, parse_telemetry_topic}
use twin_services.Contracts.Topics.Language.{IsTelemetryTopic, parse_exactly_topics}
use twin_services.Contracts.Command.{check_command, command_fields_of}
use twin_services.Contracts.Command.Laws.{Accepts as CommandAccepts, check_command_exactly-Accepts}
use twin_services.Tests.{whole, elbow, ur5, move_elbow}

parse_exactly_topics_example :
    (parse_telemetry_topic (telemetry_topic ur5 elbow position) ≡ ok (ur5, elbow, position))
    ↔ IsTelemetryTopic ur5 elbow position (telemetry_topic ur5 elbow position)
parse_exactly_topics_example =
    parse_exactly_topics (telemetry_topic ur5 elbow position) ur5 elbow position

check_command_exactly-Accepts_example :
    (check_command whole (command_fields_of move_elbow) ≡ ok move_elbow)
    ↔ CommandAccepts whole (command_fields_of move_elbow) move_elbow
check_command_exactly-Accepts_example =
    check_command_exactly-Accepts whole (command_fields_of move_elbow) move_elbow
