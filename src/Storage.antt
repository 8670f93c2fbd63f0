-- ===== src/Storage.antt =====
-- src/storage/: the frames of the log.
pub mod Frame
pub mod Entry
pub mod Secondary
pub mod Collection
pub mod AppliedPos
pub mod Wal
mod Tests
mod Runs
