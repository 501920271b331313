-- ===== src/Config/Laws.antt =====
-- What the configurations hold of the environment that they are read from.
use Prim.Native.String.{String}
use twin_services.Base.{ℕ, ◌<◌, ◌≡◌, refl, sym, ap, ◌∙◌, Text, codes, [], ◌∷◌, arith, text_eq}
use twin_services.Base.Eq.{lookup, text_is_eq}
use twin_services.Base.Int.{ℤ, pos}
use twin_services.Base.Result.{Result, ok, ok-injective, >>=-eq-ok}
use twin_services.Config.Decimal.{int, str}
use twin_services.Config.Decimal.RoundTrip.{int-str}
use twin_services.Config.{
  Environment, Readers, StateConfig, CommandConfig, TelemetryConfig, VizConfig, BridgeConfig,
  getenv, state_from_env, command_from_env, telemetry_from_env, viz_from_env, bridge_from_env,
}

-- A number of at most five digits, as every port has.
abbrev pub IsPort : ℕ → Type 0
IsPort n = n < 100000

pub int-port : (wide : Text → Result ℤ) (n : ℕ) → IsPort n → int wide (str n) ≡ ok (pos n)
int-port wide n h = int-str wide n 4 (omega arith) (omega arith)

module _ {F : Type 0} (readers : Readers F) where
  open readers use {repr, float-repr, wide_int}

  -- What a deployment writes for a service of each kind: hosts, names and numbers.
  abbrev pub state_environment : Text → ℕ → Text → ℕ → ℕ → F → F → Environment
  state_environment host mqtt asset http grpc window rate =
      (codes "MQTT_HOST", host)
      ∷ (codes "MQTT_PORT", str mqtt)
      ∷ (codes "ASSET_NAME", asset)
      ∷ (codes "HTTP_PORT", str http)
      ∷ (codes "GRPC_PORT", str grpc)
      ∷ (codes "RMS_WINDOW_S", repr window)
      ∷ (codes "STATE_RATE_HZ", repr rate)
      ∷ []

  -- The variables of a deployment reach the configuration of state-svc unchanged: from an
  -- environment that has the decimal prints of ports of at most five digits, the prints of two
  -- floats and any texts, `from_env` returns those numbers and texts, each in its field.
  pub state_from_env-environment :
      (host asset : Text) (mqtt http grpc : ℕ) (window rate : F)
      → IsPort mqtt
      → IsPort http
      → IsPort grpc
      → state_from_env readers (state_environment host mqtt asset http grpc window rate)
        ≡ ok (record {
          mqtt_host = host;
          mqtt_port = pos mqtt;
          asset_name = asset;
          http_port = pos http;
          grpc_port = pos grpc;
          rms_window_s = window;
          state_rate_hz = rate;
        })
  unfolding state_from_env getenv lookup text_eq
  state_from_env-environment host asset mqtt http grpc window rate hm hh hg =
      rw
        (
          int-port wide_int mqtt hm,
          int-port wide_int http hh,
          int-port wide_int grpc hg,
          float-repr window,
          float-repr rate,
        )
        refl

  abbrev broker_host : Environment → Text
  broker_host env = getenv (codes "MQTT_HOST") (codes "localhost") env

  abbrev broker_port : Environment → Result ℤ
  broker_port env = int wide_int (getenv (codes "MQTT_PORT") (codes "1883") env)

  abbrev number : String → String → Environment → Result ℤ
  number key default env = int wide_int (getenv (codes key) (codes default) env)

  abbrev asset_of : Environment → Text
  asset_of env = getenv (codes "ASSET_NAME") (codes "ur5") env

  -- What a configuration that was read holds of the environment.
  state_reads :
      (env : Environment) (c : StateConfig F)
      → state_from_env readers env ≡ ok c
      → (c.mqtt_host ≡ broker_host env)
        × (broker_port env ≡ ok c.mqtt_port)
        × (c.asset_name ≡ asset_of env)
  unfolding state_from_env
  state_reads env c h =
      let (port, e0, r0) = >>=-eq-ok (broker_port env) _ h in
      let (v1, e1, r1) = >>=-eq-ok (number "HTTP_PORT" "8002" env) _ r0 in
      let (v2, e2, r2) = >>=-eq-ok (number "GRPC_PORT" "50051" env) _ r1 in
      let (v3, e3, r3) =
        >>=-eq-ok (readers.float (getenv (codes "RMS_WINDOW_S") (codes "2.0") env)) _ r2 in
      let (v4, e4, r4) =
        >>=-eq-ok (readers.float (getenv (codes "STATE_RATE_HZ") (codes "50") env)) _ r3 in
      let is = ok-injective r4 in
      (
        ap (λ (x : StateConfig F). x.mqtt_host) (sym is),
        e0 ∙ ap (λ (x : StateConfig F). ok x.mqtt_port) is,
        ap (λ (x : StateConfig F). x.asset_name) (sym is),
      )

  -- What a configuration that was read holds of the environment.
  command_reads :
      (env : Environment) (c : CommandConfig)
      → command_from_env readers env ≡ ok c
      → (c.mqtt_host ≡ broker_host env)
        × (broker_port env ≡ ok c.mqtt_port)
        × (c.asset_name ≡ asset_of env)
  unfolding command_from_env
  command_reads env c h =
      let (port, e0, r0) = >>=-eq-ok (broker_port env) _ h in
      let (v1, e1, r1) = >>=-eq-ok (number "HTTP_PORT" "8003" env) _ r0 in
      let is = ok-injective r1 in
      (
        ap (λ (x : CommandConfig). x.mqtt_host) (sym is),
        e0 ∙ ap (λ (x : CommandConfig). ok x.mqtt_port) is,
        ap (λ (x : CommandConfig). x.asset_name) (sym is),
      )

  -- What a configuration that was read holds of the environment.
  telemetry_reads :
      (env : Environment) (c : TelemetryConfig)
      → telemetry_from_env readers env ≡ ok c
      → (c.mqtt_host ≡ broker_host env)
        × (broker_port env ≡ ok c.mqtt_port)
        × (c.asset_name ≡ asset_of env)
  unfolding telemetry_from_env
  telemetry_reads env c h =
      let (port, e0, r0) = >>=-eq-ok (broker_port env) _ h in
      let (v1, e1, r1) = >>=-eq-ok (number "HTTP_PORT" "8001" env) _ r0 in
      let is = ok-injective r1 in
      (
        ap (λ (x : TelemetryConfig). x.mqtt_host) (sym is),
        e0 ∙ ap (λ (x : TelemetryConfig). ok x.mqtt_port) is,
        ap (λ (x : TelemetryConfig). x.asset_name) (sym is),
      )

  -- What a configuration that was read holds of the environment.
  bridge_reads :
      (env : Environment) (c : BridgeConfig)
      → bridge_from_env readers env ≡ ok c
      → (c.mqtt_host ≡ broker_host env)
        × (broker_port env ≡ ok c.mqtt_port)
        × (c.asset_name ≡ asset_of env)
  unfolding bridge_from_env
  bridge_reads env c h =
      let (port, e0, r0) = >>=-eq-ok (broker_port env) _ h in
      let (v1, e1, r1) = >>=-eq-ok (number "HEALTH_PORT" "8080" env) _ r0 in
      let is = ok-injective r1 in
      (
        ap (λ (x : BridgeConfig). x.mqtt_host) (sym is),
        e0 ∙ ap (λ (x : BridgeConfig). ok x.mqtt_port) is,
        ap (λ (x : BridgeConfig). x.asset_name) (sym is),
      )

  viz_reads :
      (env : Environment) (c : VizConfig)
      → viz_from_env readers env ≡ ok c
      → c.asset_name ≡ asset_of env
  unfolding viz_from_env
  viz_reads env c h =
      let (v0, e0, r0) =
        >>=-eq-ok (int wide_int (getenv (codes "HTTP_PORT") (codes "8004") env)) _ h in
      ap (λ (x : VizConfig). x.asset_name) (sym (ok-injective r0))

  -- The parts agree: they talk to one broker about one asset.
  pub record Agree (state : StateConfig F) (command : CommandConfig) (telemetry : TelemetryConfig)
      (viz : VizConfig) (bridge : BridgeConfig) : Type 0 where
    pub one_host :
        (command.mqtt_host ≡ state.mqtt_host)
        × (telemetry.mqtt_host ≡ state.mqtt_host)
        × (bridge.mqtt_host ≡ state.mqtt_host)
    pub one_port :
        (command.mqtt_port ≡ state.mqtt_port)
        × (telemetry.mqtt_port ≡ state.mqtt_port)
        × (bridge.mqtt_port ≡ state.mqtt_port)
    pub one_asset :
        (command.asset_name ≡ state.asset_name)
        × (telemetry.asset_name ≡ state.asset_name)
        × (viz.asset_name ≡ state.asset_name)
        × (bridge.asset_name ≡ state.asset_name)

  -- From one environment, whatever it holds, the bridge and the four services that start with it
  -- talk to one broker, host and port, about one asset.
  pub from_env-Agree :
      (env : Environment) (state : StateConfig F) (command : CommandConfig)
      (telemetry : TelemetryConfig) (viz : VizConfig) (bridge : BridgeConfig)
      → state_from_env readers env ≡ ok state
      → command_from_env readers env ≡ ok command
      → telemetry_from_env readers env ≡ ok telemetry
      → viz_from_env readers env ≡ ok viz
      → bridge_from_env readers env ≡ ok bridge
      → Agree state command telemetry viz bridge
  from_env-Agree env state command telemetry viz bridge s c t v b =
      let (sh, sp, sa) = state_reads env state s in
      let (ch, cp, ca) = command_reads env command c in
      let (th, tp, ta) = telemetry_reads env telemetry t in
      let (bh, bp, ba) = bridge_reads env bridge b in
      record {
        one_host = (ch ∙ sym sh, th ∙ sym sh, bh ∙ sym sh);
        one_port =
            (ok-injective (sym cp ∙ sp), ok-injective (sym tp ∙ sp), ok-injective (sym bp ∙ sp));
        one_asset = (ca ∙ sym sa, ta ∙ sym sa, viz_reads env viz v ∙ sym sa, ba ∙ sym sa);
      }
