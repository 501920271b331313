-- ===== src/State.antt =====
-- services/state-svc: MQTT telemetry to a rolling window, to a `TwinState`, to gRPC subscribers.
pub mod Window
pub mod Hub
pub mod Stream
pub mod Kinematics
pub mod Build
pub mod Consumer
pub mod Main
