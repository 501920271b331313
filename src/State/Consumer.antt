-- ===== src/State/Consumer.antt =====
-- `Consumer` of services/state-svc/src/state_svc/consumer.py: `_observe`, one message of
-- `_consume`, one round of `_broadcast_forever`, and the interleavings of these with the broker's
-- connection and the clients of the hub. The Prometheus counters are part of the state.
pub mod Account
pub mod Broadcast
pub mod Uptime
pub mod Silence
use twin_services.Base.{
  ℕ, suc, Text, codes, Bool, true, false, ◌||◌, Option, none, some, List, [], ◌∷◌, text_eq,
  if◌then◌else◌,
}
use twin_services.Base.Eq.{Dict}
use twin_services.Base.Result.{Result, ok, raise, ◌>>=◌}
use twin_services.Floats.{Floats}
use twin_services.Contracts.Vocabulary.{JointField, ur5_joint_names}
use twin_services.Contracts.Topics.{parse_telemetry_topic}
use twin_services.Contracts.Telemetry.{JointTelemetry, TelemetryJson, validate_telemetry}
use twin_services.Config.{StateConfig}
use twin_services.State.Window.{RollingWindow, observe}
use twin_services.State.Hub.{Hub, publish, subscribe, unsubscribe, receive}
use twin_services.State.Build.{TwinState, Vendor, build_state}

pub record Consumer (F : Type 0) : Type 0 where
  pub config : StateConfig F
  pub window : RollingWindow F
  pub hub : Hub (TwinState F)
  pub mqtt_connected : Bool
  pub dirty : Bool
  -- the counters MESSAGES, REJECTED by reason and PUBLISHED
  pub messages : ℕ
  pub rejected_topic : ℕ
  pub rejected_joint : ℕ
  pub rejected_payload : ℕ
  pub published : ℕ

-- `Consumer(config, window, StateHub(config.asset_name))`, as the service starts with it.
unfoldable pub start : {F : Type 0} → StateConfig F → RollingWindow F → Consumer F
start config window = record {
  config = config;
  window = window;
  hub = record { asset = config.asset_name; latest = none; subscribers = [] };
  mqtt_connected = false;
  dirty = false;
  messages = 0;
  rejected_topic = 0;
  rejected_joint = 0;
  rejected_payload = 0;
  published = 0;
}

-- An MQTT message; a payload that is neither bytes nor str is `none`.
pub record Message (Payload : Type 0) : Type 0 where
  pub topic : Text
  pub payload : Option Payload

-- `x in names`
unfoldable pub elem : Text → List Text → Bool
elem x [] = false
elem x (y ∷ ys) = text_eq x y || elem x ys

-- The four outcomes of `_observe`.
pub data Verdict (F : Type 0) : Type 0 where
  bad_topic bad_joint bad_payload : Verdict F
  accepted : Text → JointField → JointTelemetry F → Verdict F

module _ {F : Type 0} {is_finite : F → Bool} (json : TelemetryJson F is_finite) where
  -- The `try` around `model_validate_json`.
  judge_sample : Text → JointField → Result (JointTelemetry F) → Verdict F
  judge_sample joint field (ok sample) = accepted joint field sample
  judge_sample joint field (raise _) = bad_payload

  judge_payload : Text → JointField → Option json.Payload → Verdict F
  unfolding judge_sample
  judge_payload joint field none = bad_payload
  judge_payload joint field (some p) = judge_sample joint field (validate_telemetry json p)

  judge_topic : Result (Text × Text × JointField) → Option json.Payload → Verdict F
  unfolding judge_payload
  judge_topic (raise _) payload = bad_topic
  judge_topic (ok (asset, joint, field)) payload =
      if elem joint ur5_joint_names then judge_payload joint field payload else bad_joint

  -- The tests of `_observe`, in order.
  unfoldable pub judge : Message json.Payload → Verdict F
  unfolding judge_topic
  judge m = judge_topic (parse_telemetry_topic m.topic) m.payload

-- What `_observe` does in each case.
unfoldable pub apply_verdict : {F : Type 0} → Verdict F → Consumer F → Consumer F
apply_verdict bad_topic c = record c { rejected_topic = suc c.rejected_topic }
apply_verdict bad_joint c = record c { rejected_joint = suc c.rejected_joint }
apply_verdict bad_payload c = record c { rejected_payload = suc c.rejected_payload }
apply_verdict (accepted joint field sample) c = record c {
  window = observe joint field sample c.window;
  dirty = true;
}

-- What happens in the service. A client event carries the number of its queue.
pub data Event (Payload : Type 0) : Type 0 where
  connected disconnected tick : Event Payload
  message : Message Payload → Event Payload
  client_joins client_leaves client_reads : ℕ → Event Payload

module _ (fl : Floats) (vendor : Vendor fl.F) where
  open fl use {F}

  announce : Option (TwinState F) → Consumer F → Result (Consumer F)
  announce none c = ok c
  announce (some state) c =
      publish state c.hub >>= λ hub. ok (record c { hub = hub; published = suc c.published })

  -- One round of `_broadcast_forever`, behind its sleep.
  unfoldable pub broadcast : Consumer F → Result (Consumer F)
  unfolding announce
  broadcast c =
      if c.dirty
      then (let clean = record c { dirty = false } in
          build_state fl vendor c.config.asset_name c.window c.config.rms_window_s >>= λ state.
          announce state clean)
      else ok c

  module _ (json : TelemetryJson F fl.is_finite) where
    -- `_observe(str(message.topic), message.payload)`
    unfoldable pub observe_message : Message json.Payload → Consumer F → Consumer F
    observe_message m c = apply_verdict (judge json m) c

    unfoldable pub step : Event json.Payload → Consumer F → Result (Consumer F)
    unfolding broadcast observe_message
    step connected c = ok (record c { mqtt_connected = true })
    step disconnected c = ok (record c { mqtt_connected = false })
    step (message m) c = ok (observe_message m (record c { messages = suc c.messages }))
    step tick c = broadcast c
    step (client_joins i) c = ok (record c { hub = subscribe i c.hub })
    step (client_leaves i) c = ok (record c { hub = unsubscribe i c.hub })
    step (client_reads i) c = ok (record c { hub = (receive i c.hub).0 })

    -- An exception ends the service: the TaskGroup of `run` lets it out.
    unfoldable pub run : List (Event json.Payload) → Consumer F → Result (Consumer F)
    unfolding step
    run [] c = ok c
    run (e ∷ es) c = step e c >>= run es

-- `readiness`
unfoldable pub readiness : {F : Type 0} → Consumer F → Dict Text Bool
readiness c = (codes "mqtt", c.mqtt_connected) ∷ []
