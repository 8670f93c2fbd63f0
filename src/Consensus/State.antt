-- ===== src/Consensus/State.antt =====
-- src/consensus/state.rs: the durable term and vote, the replication state in memory, and the
-- transitions out of leadership. The directory is the two files that `load` reads; what the file
-- system does to a write is an argument.
pub mod Kept
use dewdb.Prelude.{
  ℕ, Bool, true, false, not, ◌&&◌, List, [], ◌∷◌, ◌++◌, Bytes, leb, ltb, ◌==◌, if◌then◌else◌, any,
  Option, none, some, is_some, bytes_eq,
}
use dewdb.Prelude.Assoc.{Assoc}
use dewdb.Util.Endpoint.{same_endpoint}
use dewdb.Consensus.Config.{Configuration, simple}
use dewdb.Consensus.Progress
use dewdb.Consensus.Progress.{Progress}
use dewdb.Consensus.Lease.{Leases}

pub record ReplicationMeta : Type 0 where
  pub term : ℕ
  pub is_leader : Bool
  pub voted_for : Option Bytes

-- What a read of one file gives: `NotFound`, another error, content that does not parse, a record.
pub data StoredFile : Type 0 where
  absent unreadable damaged : StoredFile
  holds : ReplicationMeta → StoredFile

-- replication.meta and replication.meta.tmp.
pub record Disk : Type 0 where
  pub meta : StoredFile
  pub staging : StoredFile

pub data IoError : Type 0 where
  invalid_data invalid_input other : IoError

pub data Loaded : Type 0 where
  loaded : Option ReplicationMeta → Loaded
  load_error : IoError → Loaded

-- The loop of `load` over the two names, with whether a damaged file was seen.
unfoldable pub scan : List StoredFile → Bool → Loaded
scan [] corrupt = if corrupt then load_error invalid_data else loaded none
scan (absent ∷ files) corrupt = scan files corrupt
scan (unreadable ∷ files) corrupt = load_error other
scan (damaged ∷ files) corrupt = scan files true
scan (holds meta ∷ files) corrupt = loaded (some meta)

unfoldable pub load : Disk → Loaded
unfolding scan
load d = scan (d.meta ∷ d.staging ∷ []) false

-- How a `write_atomic` of src/util.rs can end: the staging file was not created; its content is
-- incomplete; it is complete and was not renamed; the rename was made. The directory is what a
-- reader of it finds afterwards: the syncs of the file and of the directory, whose failure the
-- code ignores, are left out, so nothing is said of what a loss of power takes back.
pub data WriteOutcome : Type 0 where
  not_created torn not_renamed renamed : WriteOutcome

pub data Saved : Type 0 where
  saved : Saved
  save_error : IoError → Saved

unfoldable pub write_atomic : Disk → ReplicationMeta → WriteOutcome → Disk × Saved
write_atomic d m not_created = (d, save_error other)
write_atomic d m torn = (record d { staging = damaged }, save_error other)
write_atomic d m not_renamed = (record d { staging = holds m }, save_error other)
write_atomic d m renamed = (record { meta = holds m; staging = absent }, saved)

-- `==` on `Option<String>`
unfoldable pub same_vote : Option Bytes → Option Bytes → Bool
same_vote none none = true
same_vote none (some b) = false
same_vote (some a) none = false
same_vote (some a) (some b) = bytes_eq a b

unfoldable pub save_over : Disk → ReplicationMeta → WriteOutcome → ReplicationMeta → Disk × Saved
save_over d m o existing =
    if ltb m.term existing.term
    then (d, saved)
    else if m.term == existing.term
        && is_some existing.voted_for
        && not (same_vote m.voted_for existing.voted_for)
    then (d, save_error invalid_input)
    else write_atomic d m o

unfoldable pub save : Disk → ReplicationMeta → WriteOutcome → Disk × Saved
save d m o = elim (load d) [
  | load_error e ↦ (d, save_error e)
  | loaded none ↦ write_atomic d m o
  | loaded (some existing) ↦ save_over d m o existing
]

pub record ReplicationState : Type 0 where
  pub term : ℕ
  pub is_leader : Bool
  pub voted_for : Option Bytes
  pub last_heartbeat : Option ℕ
  pub was_receiving_replication : Bool
  pub last_replication : Option ℕ
  pub heartbeat_running : Bool
  pub primary_addr : Option Bytes
  pub replicas : List Bytes
  pub last_known_primary_position : Option ℕ
  pub progress : Progress
  pub leases : Leases
  pub handing_over : Bool
  pub booted_at : ℕ
  pub novote_until : Option ℕ
  pub leader_matched : Assoc (ℕ × ℕ)
  pub configuration : Option Configuration

-- The loop of `quorum` over the replicas.
unfoldable pub add_voters : List Bytes → List Bytes → List Bytes
add_voters voters [] = voters
add_voters voters (replica ∷ replicas) =
    add_voters
      (if not (any (λ v. same_endpoint v replica) voters) then voters ++ replica ∷ [] else voters)
      replicas

unfoldable pub quorum : ReplicationState → Bytes → Configuration
unfolding add_voters
quorum repl own_url = elim repl.configuration [
  | some config ↦ config
  | none ↦ simple (add_voters (own_url ∷ []) repl.replicas)
]

unfoldable pub relinquish_leadership : ReplicationState → ReplicationState × Option Bool
relinquish_leadership repl = if not repl.is_leader then (repl, none) else (
  record repl {
    is_leader = false;
    progress = Progress.reset repl.progress;
    leases = [];
    handing_over = false;
    last_heartbeat = none;
    last_replication = none;
    was_receiving_replication = false;
    heartbeat_running = true;
  },
  some (not repl.heartbeat_running),
)

unfoldable pub apply_demotion : ReplicationState → ℕ → ℕ → ReplicationState × Option Bool
apply_demotion repl new_term now = if leb new_term repl.term then (repl, none) else (
  record repl {
    term = new_term;
    voted_for = none;
    is_leader = false;
    progress = Progress.reset repl.progress;
    leases = [];
    handing_over = false;
    last_heartbeat = some now;
    last_replication = none;
    was_receiving_replication = false;
    heartbeat_running = true;
  },
  some (not repl.heartbeat_running),
)
