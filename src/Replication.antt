-- ===== src/Replication.antt =====
-- src/replication/: what a write waits for, and which peers are sent to.
pub mod WriteConcern
pub mod Budget
mod Tests
