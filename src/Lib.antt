-- ===== src/Lib.antt =====
-- dewdb is a sharded, replicated document store. Each shard is a group of nodes that elect a
-- leader, copy its log and answer writes once a quorum holds them. This library models the rules
-- of that group and the small codecs and maps it stands on, and proves what keeps them safe.
--
-- Parts and files. `Consensus/Config` models src/consensus/config.rs: voting sets, simple and,
-- while membership changes, joint. `Consensus/Names` models the collection names of the same
-- file. `Consensus/Progress` models src/consensus/progress.rs: what replicas hold, how far each
-- was sent, and the commit position. `Consensus/Lease` models src/consensus/lease.rs: a voter's
-- silence and a leader's count of it. `Consensus/State` models src/consensus/state.rs: the
-- durable term and vote (`ReplicationMeta`, `load`, `save`), `ReplicationState` and the ways out
-- of leadership. `Consensus/Election` models the decisions of src/consensus/election.rs.
-- `Consensus/Vote` puts them together as the code does: a node is a `ReplicationState` and a
-- directory; the handlers are those of src/api/internal.rs, the self-vote and `become_leader` of
-- src/consensus/election.rs, the boot of src/main.rs. `Consensus/Vote/Steps` gives their
-- interleavings as a relation: a lock is free between a change in memory and the save that
-- follows it, so such a save is a step of its own. `Consensus/Node` models the operations of
-- src/state.rs on the same state, `Consensus/ReadIndex` src/consensus/read_index.rs.
-- `Ring/Ranges` models the hash ranges of src/ring.rs and `Ring/Members` its consistent-hash
-- membership, `Util/Endpoint` and `Util/Base64` src/util.rs, `Storage/Frame`
-- src/storage/frame.rs, `Replication/WriteConcern` src/replication/write_concern.rs,
-- `Storage/Entry`, `Storage/Collection` and `Storage/Secondary` model the state of a collection
-- in src/storage/collection.rs, index.rs and secondary.rs; `Storage/Collection/Stage` stages
-- frames and reads over them, `Storage/Collection/Apply` commits them. `Storage/Wal` models
-- src/storage/wal.rs: cuts and the positions of the newest frames, `Storage/Wal/Writer` the files
-- and how they are cut, `Storage/Wal/Rewind` and `Storage/Wal/Append` a collection with its log,
-- `Storage/AppliedPos` the file of the applied position in src/storage/index.rs, by its bytes and
-- by its two slots, `Cluster/Metadata` the view of src/cluster/metadata.rs, its order and
-- adoption, and `Cluster/Plan` the next views, `Replication/Budget` src/replication/budget.rs and
-- `Api/Precondition` src/api/precondition.rs with the version of src/storage/index.rs. `Prelude`
-- holds what they share: tests, lists, byte strings, counting, sorting and maps. Definitions
-- stand in a part's own file and theorems in the files below it.
--
-- Correspondence. A definition has its function's name; the loops of a function are helpers
-- beside it. A text is the list of its bytes. A `HashMap` is an association list with one entry a
-- key, and the order of its entries is the order a loop over it takes. Durations and clock
-- readings are nanoseconds, handed in where the code reads a clock; `elapsed` and other
-- saturating subtractions stop at zero, as subtraction on ℕ does. Terms and positions are
-- numbers; where a 64-bit word can wrap (the next term of a candidate) the remainder is written
-- out. How a write to the file system ends is an argument. Every loop runs over a list, but for
-- the printing of a number, whose fuel is the number and one.
--
-- Outside. The syncs of files and directories are left out: a restart finds each file as it was
-- last written, and what a loss of power takes back is not modelled. The checksum of a payload is
-- a parameter (`crc32fast`). Network rounds, timers, the tasks that carry them, JSON text,
-- opening a collection, replay, compaction, queries and the HTTP interface are not modelled; what
-- a handler takes from them is an argument. A collection is generic in its JSON values: reading
-- and writing them, the member at a path and the equality of two values are the `Codec`, a
-- parameter. How each step on the file system ends is an argument too, and the model has what the
-- code leaves behind after a step that failed. The files of a log are the frames that can be read
-- from them, and a frame behind a partial one is not among them.
pub mod Prelude
pub mod Util
pub mod Ring
pub mod Storage
pub mod Consensus
pub mod Cluster
pub mod Replication
pub mod Api
