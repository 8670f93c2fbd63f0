-- ===== src/Consensus.antt =====
-- src/consensus/: elections, quorums, progress and leases.
pub mod Config
pub mod Names
pub mod Progress
pub mod Lease
pub mod State
pub mod Election
pub mod Vote
pub mod Node
pub mod ReadIndex
mod Tests
mod Runs
