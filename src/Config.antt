-- ===== src/Config.antt =====
-- Runtime configuration: `from_env` of the config.py of the bridge and of the four services. The
-- environment is a `dict` of texts.
pub mod Decimal
pub mod Laws
use Prim.Native.String.{String}
use twin_services.Base.{◌≡◌, ℕ, Text, codes, Option, none, some, List, [], ◌∷◌}
use twin_services.Base.Eq.{Dict, lookup, text_is_eq}
use twin_services.Base.Int.{ℤ, pos}
use twin_services.Base.Result.{Result, ok, ◌>>=◌}
use twin_services.Config.Decimal.{int}

abbrev pub Environment : Type 0
Environment = Dict Text Text

-- The builtins that read numbers, where their text is not covered here: `int` outside ASCII, and
-- `float`, with its inverse `repr`.
pub record Readers (F : Type 0) : Type 0 where
  pub wide_int : Text → Result ℤ
  pub float : Text → Result F
  pub repr : F → Text
  pub float-repr : (x : F) → float (repr x) ≡ ok x

pub record StateConfig (F : Type 0) : Type 0 where
  pub mqtt_host : Text
  pub mqtt_port : ℤ
  pub asset_name : Text
  pub http_port : ℤ
  pub grpc_port : ℤ
  pub rms_window_s : F
  pub state_rate_hz : F

pub record CommandConfig : Type 0 where
  pub mqtt_host : Text
  pub mqtt_port : ℤ
  pub asset_name : Text
  pub http_port : ℤ

pub record TelemetryConfig : Type 0 where
  pub mqtt_host : Text
  pub mqtt_port : ℤ
  pub asset_name : Text
  pub influx_url : Text
  pub influx_token : Text
  pub influx_org : Text
  pub influx_bucket : Text
  pub http_port : ℤ

pub record VizConfig : Type 0 where
  pub state_grpc_target : Text
  pub asset_name : Text
  pub http_port : ℤ
  pub static_dir : Text

pub record BridgeConfig : Type 0 where
  pub mqtt_host : Text
  pub mqtt_port : ℤ
  pub asset_name : Text
  pub ros_topic : Text
  pub ros_cmd_topic : Text
  pub health_port : ℤ

-- `os.getenv(key, default)`
unfoldable pub getenv : Text → Text → Environment → Text
getenv key default env = elim (lookup key env) [ none ↦ default | some value ↦ value ]

module _ {F : Type 0} (readers : Readers F) where
  open readers use {wide_int, float}

  abbrev variable : String → String → Environment → Text
  variable key default env = getenv (codes key) (codes default) env

  abbrev port : String → String → Environment → Result ℤ
  port key default env = int wide_int (variable key default env)

  unfoldable pub state_from_env : Environment → Result (StateConfig F)
  state_from_env env = port "MQTT_PORT" "1883" env >>= λ mqtt_port.
      port "HTTP_PORT" "8002" env >>= λ http_port. port "GRPC_PORT" "50051" env >>= λ grpc_port.
      float (variable "RMS_WINDOW_S" "2.0" env) >>= λ rms_window_s.
      float (variable "STATE_RATE_HZ" "50" env) >>= λ state_rate_hz. ok (record {
        mqtt_host = variable "MQTT_HOST" "localhost" env;
        mqtt_port = mqtt_port;
        asset_name = variable "ASSET_NAME" "ur5" env;
        http_port = http_port;
        grpc_port = grpc_port;
        rms_window_s = rms_window_s;
        state_rate_hz = state_rate_hz;
      })

  unfoldable pub command_from_env : Environment → Result CommandConfig
  command_from_env env = port "MQTT_PORT" "1883" env >>= λ mqtt_port.
      port "HTTP_PORT" "8003" env >>= λ http_port. ok (record {
        mqtt_host = variable "MQTT_HOST" "localhost" env;
        mqtt_port = mqtt_port;
        asset_name = variable "ASSET_NAME" "ur5" env;
        http_port = http_port;
      })

  unfoldable pub telemetry_from_env : Environment → Result TelemetryConfig
  telemetry_from_env env = port "MQTT_PORT" "1883" env >>= λ mqtt_port.
      port "HTTP_PORT" "8001" env >>= λ http_port. ok (record {
        mqtt_host = variable "MQTT_HOST" "localhost" env;
        mqtt_port = mqtt_port;
        asset_name = variable "ASSET_NAME" "ur5" env;
        influx_url = variable "INFLUX_URL" "http://localhost:8086" env;
        influx_token = variable "INFLUX_TOKEN" "dev-token-change-me" env;
        influx_org = variable "INFLUX_ORG" "twin" env;
        influx_bucket = variable "INFLUX_BUCKET" "telemetry" env;
        http_port = http_port;
      })

  unfoldable pub viz_from_env : Environment → Result VizConfig
  viz_from_env env = port "HTTP_PORT" "8004" env >>= λ http_port. ok (record {
    state_grpc_target = variable "STATE_GRPC_TARGET" "localhost:50051" env;
    asset_name = variable "ASSET_NAME" "ur5" env;
    http_port = http_port;
    static_dir = variable "STATIC_DIR" "frontend/dist" env;
  })

  unfoldable pub bridge_from_env : Environment → Result BridgeConfig
  bridge_from_env env = port "MQTT_PORT" "1883" env >>= λ mqtt_port.
      port "HEALTH_PORT" "8080" env >>= λ health_port. ok (record {
        mqtt_host = variable "MQTT_HOST" "localhost" env;
        mqtt_port = mqtt_port;
        asset_name = variable "ASSET_NAME" "ur5" env;
        ros_topic = variable "ROS_JOINT_TOPIC" "/joint_states" env;
        ros_cmd_topic =
            variable "ROS_CMD_TOPIC" "/joint_trajectory_controller/joint_trajectory" env;
        health_port = health_port;
      })
