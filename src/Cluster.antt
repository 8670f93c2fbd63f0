-- ===== src/Cluster.antt =====
-- src/cluster/: the cluster's view of its members.
pub mod Metadata
pub mod Plan
mod Tests
