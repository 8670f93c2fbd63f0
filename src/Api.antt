-- ===== src/Api.antt =====
-- src/api/: what the handlers decide on their own.
pub mod Precondition
mod Tests
