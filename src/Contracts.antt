-- ===== src/Contracts.antt =====
-- contracts/: the shapes of everything that crosses MQTT or REST.
pub mod Vocabulary
pub mod Topics
pub mod Telemetry
pub mod Command
