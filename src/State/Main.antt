-- ===== src/State/Main.antt =====
-- `main` of services/state-svc/src/state_svc/main.py up to its task group, and the first line of
-- `_broadcast_forever` of consumer.py.
use twin_services.Base.{ℕ, ◌≡◌, refl, sym, ap, Text, List, [], All}
use twin_services.Base.Int.{ℤ, pos}
use twin_services.Base.Result.{Result, ok, Total, >>=-eq-ok, ok-injective, ◌>>=◌}
use mathlib.Core.Path.{subst}
use twin_services.Floats.{Floats}
use twin_services.Contracts.Vocabulary.{ur5_joint_names}
use twin_services.Contracts.Telemetry.{TelemetryJson}
use twin_services.Config.{Environment, Readers, StateConfig, state_from_env}
use twin_services.Config.Laws.{IsPort, state_environment, state_from_env-environment}
use twin_services.State.Window.{RollingWindow, empty_histories, init}
use twin_services.State.Build.{Vendor}
use twin_services.State.Consumer.{Consumer, Event, start, run}
use twin_services.State.Consumer.Account.{admitted_of}
use twin_services.State.Consumer.Uptime.{IsTame, IsAdmissible, run-start}

module _ (fl : Floats) (readers : Readers fl.F) where
  open fl use {F, literal, div, mul, truncate}

  -- `interval = 1.0 / self._config.state_rate_hz`
  unfoldable pub broadcast_interval : StateConfig F → Result F
  broadcast_interval config = div (literal (pos 10) 1) config.state_rate_hz

  -- The consumer that `main` makes, and the interval of its broadcaster.
  unfoldable pub main : Environment → Result (Consumer F × F)
  unfolding broadcast_interval
  main env = state_from_env readers env >>= λ config.
      init fl config.rms_window_s ur5_joint_names >>= λ window.
      broadcast_interval config >>= λ interval. ok (start config window, interval)

  -- What `main` returned was made of a configuration and a new window.
  main_parts :
      (env : Environment) (c : Consumer F) (interval : F)
      → main env ≡ ok (c, interval)
      → (config : StateConfig F) × (w : RollingWindow F) × (state_from_env readers env ≡ ok config)
        × (init fl config.rms_window_s ur5_joint_names ≡ ok w)
        × (c ≡ start config w)
  unfolding main
  main_parts env c interval h =
      let (config, read, rest) = >>=-eq-ok (state_from_env readers env) _ h in
      let (w, made, rest') = >>=-eq-ok (init fl config.rms_window_s ur5_joint_names) _ rest in
      let (i, divided, is) = >>=-eq-ok (broadcast_interval config) _ rest' in
      (config, w, read, made, ap (λ p. p.0) (sym (ok-injective is)))

  abbrev config_of : Text → Text → ℕ → ℕ → ℕ → F → F → StateConfig F
  config_of host asset mqtt http grpc window rate = record {
    mqtt_host = host;
    mqtt_port = pos mqtt;
    asset_name = asset;
    http_port = pos http;
    grpc_port = pos grpc;
    rms_window_s = window;
    state_rate_hz = rate;
  }

  abbrev window_of : ℤ → RollingWindow F
  window_of window_ns = record {
    window_ns = window_ns;
    joints = ur5_joint_names;
    latest = [];
    velocities = empty_histories ur5_joint_names [];
    stamp_ns = 0;
  }

  main_is :
      (host asset : Text) (mqtt http grpc : ℕ) (window rate interval : F) (window_ns : ℤ)
      → IsPort mqtt
      → IsPort http
      → IsPort grpc
      → truncate (mul window (literal (pos 1000000000) 0)) ≡ ok window_ns
      → div (literal (pos 10) 1) rate ≡ ok interval
      → main (state_environment readers host mqtt asset http grpc window rate)
        ≡ ok (
          start (config_of host asset mqtt http grpc window rate) (window_of window_ns),
          interval,
        )
  unfolding main init
  main_is host asset mqtt http grpc window rate interval window_ns hm hh hg hw hr =
      rw (state_from_env-environment readers host asset mqtt http grpc window rate hm hh hg, hw, hr)
        refl

  module _ (vendor : Vendor F) (tame : IsTame fl) (json : TelemetryJson F fl.is_finite) where
    -- Whatever environment the service starts in, if it starts, it runs on: in exact arithmetic no
    -- sequence of events ends it, if each message that is admitted has a finite value and a stamp
    -- below 2^64.
    pub run-main :
        (env : Environment) (c : Consumer F) (interval : F) (es : List (Event json.Payload))
        → main env ≡ ok (c, interval)
        → All (IsAdmissible fl vendor) (admitted_of json es)
        → Total (run fl vendor json es c)
    run-main env c interval es h a =
        let (config, w, read, made, is) = main_parts env c interval h in
        subst (λ x. Total (run fl vendor json es x)) (sym is)
          (run-start fl vendor tame json config w es made a)

    -- A deployment starts: from an environment with ports of at most five digits, a window whose
    -- length in nanoseconds is a number and a rate that divides one, `main` makes a consumer with
    -- the asset and the window of that environment and the interval of that rate, and in exact
    -- arithmetic no sequence of events ends it, if each message that is admitted has a finite value and a stamp below 2^64.
    pub main-environment :
        (host asset : Text) (mqtt http grpc : ℕ) (window rate interval : F) (window_ns : ℤ)
        (es : List (Event json.Payload))
        → IsPort mqtt
        → IsPort http
        → IsPort grpc
        → truncate (mul window (literal (pos 1000000000) 0)) ≡ ok window_ns
        → div (literal (pos 10) 1) rate ≡ ok interval
        → All (IsAdmissible fl vendor) (admitted_of json es)
        → (c : Consumer F) × (main (state_environment readers host mqtt asset http grpc window rate)
            ≡ ok (c, interval))
          × (c.config.asset_name ≡ asset)
          × (c.hub.asset ≡ asset)
          × (c.window.window_ns ≡ window_ns)
          × Total (run fl vendor json es c)
    unfolding start
    main-environment host asset mqtt http grpc window rate interval window_ns es hm hh hg hw hr a =
        let env = state_environment readers host mqtt asset http grpc window rate in
        let c = start (config_of host asset mqtt http grpc window rate) (window_of window_ns) in
        let returns =
          main_is host asset mqtt http grpc window rate interval window_ns hm hh hg hw hr in
        (c, returns, refl, refl, refl, run-main env c interval es returns a)
