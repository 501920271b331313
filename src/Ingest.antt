-- ===== src/Ingest.antt =====
-- services/telemetry-svc/src/telemetry_svc/ingest.py: telemetry from MQTT to InfluxDB. The database
-- is seen as the list of the points that it took; what becomes of a write is part of the event.
pub mod Account
pub mod Points
use twin_services.Base.{
  ℕ, suc, Text, codes, Bool, true, false, Option, none, some, List, [], ◌∷◌, ◌++◌,
}
use twin_services.Base.Eq.{Dict}
use twin_services.Base.Result.{Result, ok, raise}
use twin_services.Contracts.Vocabulary.{JointField, field_value}
use twin_services.Contracts.Topics.{parse_telemetry_topic}
use twin_services.Contracts.Telemetry.{JointTelemetry, TelemetryJson, validate_telemetry}

-- `Point`: a measurement, its tags, its field and its time in nanoseconds.
pub record Point (F : Type 0) : Type 0 where
  pub measurement : Text
  pub asset : Text
  pub joint : Text
  pub metric : Text
  pub value : F
  pub time : ℕ

-- What `_to_point` returns: a point, or `None` behind a count of one kind.
pub data Conversion (F : Type 0) : Type 0 where
  rejected_topic rejected_payload : Conversion F
  converted : Point F → Conversion F

pub record Ingestor (F : Type 0) : Type 0 where
  pub mqtt_connected : Bool
  pub influx_ok : Bool
  -- the counters MESSAGES, REJECTED by reason and WRITE_FAILURES
  pub messages : ℕ
  pub topic_rejections : ℕ
  pub payload_rejections : ℕ
  pub write_failures : ℕ
  -- the points that the database took
  pub written : List (Point F)

abbrev pub start : {F : Type 0} → Ingestor F
start = record {
  mqtt_connected = false;
  influx_ok = false;
  messages = 0;
  topic_rejections = 0;
  payload_rejections = 0;
  write_failures = 0;
  written = [];
}

-- What becomes of a write: it returns; the database takes the point, but the call raises; or the
-- call raises and the point is not taken.
pub data Write : Type 0 where
  returned taken_unanswered refused : Write

module _ {F : Type 0} where
  unfoldable pub point_of : Text → Text → JointField → JointTelemetry F → Point F
  point_of asset joint field sample = record {
    measurement = codes "joint_telemetry";
    asset = asset;
    joint = joint;
    metric = field_value field;
    value = sample.value;
    time = sample.stamp_ns;
  }

  -- The `except Exception` around the write: it never kills the loop.
  unfoldable pub write : Point F → Write → Ingestor F → Ingestor F
  write p returned s = record s { written = s.written ++ p ∷ []; influx_ok = true }
  write p taken_unanswered s = record s {
    written = s.written ++ p ∷ [];
    write_failures = suc s.write_failures;
    influx_ok = false;
  }
  write p refused s = record s { write_failures = suc s.write_failures; influx_ok = false }

  unfoldable pub handle : Conversion F → Write → Ingestor F → Ingestor F
  unfolding write
  handle rejected_topic takes s = record s { topic_rejections = suc s.topic_rejections }
  handle rejected_payload takes s = record s { payload_rejections = suc s.payload_rejections }
  handle (converted p) takes s = write p takes s

-- The broker connects, the answer to `ping` arrives, the connection is lost, or a message comes in; a
-- payload that is neither bytes nor str is `none`. A message carries what becomes of its write.
pub data Event (Payload : Type 0) : Type 0 where
  connected disconnected : Event Payload
  pinged : Bool → Event Payload
  message : Text → Option Payload → Write → Event Payload

module _ {F : Type 0} {is_finite : F → Bool} (json : TelemetryJson F is_finite) where
  sample_point : Text → Text → JointField → Result (JointTelemetry F) → Conversion F
  unfolding point_of
  sample_point asset joint field (ok sample) = converted (point_of asset joint field sample)
  sample_point asset joint field (raise _) = rejected_payload

  topic_point : Result (Text × Text × JointField) → json.Payload → Conversion F
  unfolding sample_point
  topic_point (raise _) p = rejected_topic
  topic_point (ok (asset, joint, field)) p =
      sample_point asset joint field (validate_telemetry json p)

  unfoldable pub to_point : Text → json.Payload → Conversion F
  unfolding topic_point
  to_point topic p = topic_point (parse_telemetry_topic topic) p

  -- The test on the payload comes before `_to_point`.
  unfoldable pub convert : Text → Option json.Payload → Conversion F
  unfolding to_point
  convert topic none = rejected_payload
  convert topic (some p) = to_point topic p

  -- One event of `run` and `_consume`.
  unfoldable pub step : Event json.Payload → Ingestor F → Ingestor F
  unfolding handle convert
  step connected s = record s { mqtt_connected = true }
  step (pinged pong) s = record s { influx_ok = pong }
  step disconnected s = record s { mqtt_connected = false }
  step (message topic payload takes) s =
      handle (convert topic payload) takes (record s { messages = suc s.messages })

  unfoldable pub run : List (Event json.Payload) → Ingestor F → Ingestor F
  unfolding step
  run [] s = s
  run (e ∷ es) s = run es (step e s)

-- `readiness`
unfoldable pub readiness : {F : Type 0} → Ingestor F → Dict Text Bool
readiness s = (codes "mqtt", s.mqtt_connected) ∷ (codes "influxdb", s.influx_ok) ∷ []
