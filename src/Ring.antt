-- ===== src/Ring.antt =====
-- src/ring.rs: who owns a key.
pub mod Ranges
pub mod Members
mod Tests
