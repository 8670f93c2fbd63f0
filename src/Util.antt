-- ===== src/Util.antt =====
-- src/util.rs: helpers shared across subsystems.
pub mod Endpoint
pub mod Base64
mod Tests
