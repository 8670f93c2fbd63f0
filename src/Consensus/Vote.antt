-- ===== src/Consensus/Vote.antt =====
-- A node's vote: `vote_handler` and `pre_vote_handler` of src/api/internal.rs, the self-vote and
-- the assumption of office of src/consensus/election.rs, the adoption of a higher term, and what
-- src/main.rs restores at boot. A node is the replication state in memory and the directory.

pub mod PreVote
pub mod Steps
pub mod Backing
pub mod Safety
use dewdb.Prelude.{
  ℕ, ◌+◌, ◌-◌, ◌*◌, ◌%◌, ◌^◌, Bool, true, false, not, ◌&&◌, ◌||◌, List, [], Bytes, leb, ltb, ◌==◌,
  if◌then◌else◌, Option, none, some,
}
use dewdb.Prelude.Assoc.{Assoc}
use dewdb.Util.Endpoint.{same_endpoint}
use dewdb.Consensus.Config.{Configuration}
use dewdb.Consensus.Progress
use dewdb.Consensus.Lease.{contact_age, withholds_vote}
use dewdb.Consensus.State.{
  ReplicationMeta, ReplicationState, Disk, WriteOutcome, Saved, saved, save_error, save, same_vote,
  apply_demotion, relinquish_leadership, Loaded, loaded, load_error,
}
use dewdb.Consensus.Election.{
  LogTail, VoteRequest, VoteDecision, decide_vote, decide_pre_vote, log_summary,
}

pub record Node : Type 0 where
  pub repl : ReplicationState
  pub disk : Disk

pub record VoteResponse : Type 0 where
  pub term : ℕ
  pub vote_granted : Bool

pub data VoteReply : Type 0 where
  forbidden internal_error : VoteReply
  ok : VoteResponse → VoteReply

unfoldable pub honours_transfer : ReplicationState → Bytes → Option Bytes → Bool
honours_transfer g own none = false
honours_transfer g own (some from) =
    if g.is_leader
    then same_endpoint from own
    else (elim g.primary_addr [ none ↦ false | some p ↦ same_endpoint p from ])

-- `lease::withholds_vote` on the node's own clocks.
unfoldable pub withholds : ReplicationState → ℕ → ℕ → Bool
withholds g heartbeat_timeout_secs now =
    withholds_vote (contact_age g.last_heartbeat g.last_replication now) g.novote_until
      (now - g.booted_at) (heartbeat_timeout_secs * 1_000_000_000) now

-- What `vote_handler` samples under the read lock, before it decides under the write lock.
pub record VoteSample : Type 0 where
  pub my_config : Option Configuration
  pub contact : Option ℕ
  pub granted_until : Option ℕ
  pub since_boot : ℕ

unfoldable pub sample_vote : ReplicationState → ℕ → VoteSample
sample_vote g sampled_at = record {
  my_config = g.configuration;
  contact = contact_age g.last_heartbeat g.last_replication sampled_at;
  granted_until = g.novote_until;
  since_boot = sampled_at - g.booted_at;
}

-- `followed` is the state in which `honours_transfer` is asked, under a read lock of its own.
unfoldable pub must_withhold_vote :
    VoteSample → ReplicationState → Bytes → VoteRequest → ℕ → ℕ → Bool
must_withhold_vote s followed own req heartbeat_timeout_secs now =
    withholds_vote s.contact s.granted_until s.since_boot (heartbeat_timeout_secs * 1_000_000_000)
      now
    && not (honours_transfer followed own req.transfer_from)

-- The fields that standing down by a vote clears.
unfoldable pub stood_down : ReplicationState → ReplicationState
stood_down g = record g {
  is_leader = false;
  progress = Progress.reset g.progress;
  leases = [];
  heartbeat_running = true;
}

-- The decision, once it is saved: the term and the vote, leadership, and the contact clock.
unfoldable pub install_decision : ReplicationState → VoteDecision → ℕ → ReplicationState
install_decision repl d now =
    let g = record repl { term = d.term; voted_for = d.voted_for } in
    let g = if ltb repl.term d.term && repl.is_leader then stood_down g else g in
    record g { last_heartbeat = if d.granted then some now else g.last_heartbeat }

-- What is saved for a decision.
unfoldable pub vote_meta : ReplicationState → VoteDecision → ReplicationMeta
vote_meta repl d =
    let stands_down = ltb repl.term d.term && repl.is_leader in
    record { term = d.term; is_leader = repl.is_leader && not stands_down; voted_for = d.voted_for }

-- The decision as it enters the memory, over the directory as the save left it; the last result
-- is whether a heartbeat poll is started again.
unfoldable pub vote_recorded :
    ReplicationState → VoteDecision → ℕ → Disk → Node × VoteResponse × Bool
vote_recorded repl d now disk = (
  record { repl = install_decision repl d now; disk = disk },
  record { term = d.term; vote_granted = d.granted },
  ltb repl.term d.term && repl.is_leader && not repl.heartbeat_running,
)

-- A save that failed leaves no term and no vote behind, and the vote is denied.
unfoldable pub vote_saved :
    ReplicationState → VoteDecision → ℕ → Disk × Saved → Node × VoteResponse × Bool
vote_saved repl d now (disk, saved) = vote_recorded repl d now disk
vote_saved repl d now (disk, save_error e) =
    (record { repl = repl; disk = disk }, record { term = repl.term; vote_granted = false }, false)

-- The part of `vote_handler` under the write lock, from the decision on.
unfoldable pub record_vote : Node → VoteDecision → WriteOutcome → ℕ → Node × VoteResponse × Bool
record_vote n d outcome now =
    if d.term == n.repl.term && same_vote d.voted_for n.repl.voted_for
    then vote_recorded n.repl d now n.disk
    else vote_saved n.repl d now (save n.disk (vote_meta n.repl d) outcome)

-- `vote_handler`, with the local tails as the collections give them (none is an error). The node
-- is as the write lock finds it; the sample and the state that was followed may be of earlier
-- states. `now` is the clock at the test of the silence, `decided_at` under the write lock.
unfoldable pub vote_handler :
    Bool
    → Bool
    → Node
    → Bytes
    → Option (Assoc LogTail)
    → LogTail
    → VoteSample
    → ReplicationState
    → VoteRequest
    → ℕ
    → ℕ
    → ℕ
    → WriteOutcome
    → Node × VoteReply × Bool
vote_handler is_shard in_quorum n own none counters s followed req timeout_secs now decided_at
      outcome =
    (n, if not is_shard || not in_quorum then forbidden else internal_error, false)
vote_handler is_shard in_quorum n own (some my_logs) counters s followed req timeout_secs now
      decided_at outcome =
    let d =
      decide_vote n.repl.term n.repl.voted_for my_logs (log_summary my_logs counters) s.my_config
        req (must_withhold_vote s followed own req timeout_secs now) in
    let r = record_vote n d outcome decided_at in
    if not is_shard || not in_quorum then (n, forbidden, false) else (r.0, ok r.1, r.2)

unfoldable pub pre_vote_handler :
    Bool → Bool → Node → Option (Assoc LogTail) → LogTail → VoteRequest → ℕ → ℕ → VoteReply
pre_vote_handler is_shard in_quorum n none counters req timeout_secs now =
    if not is_shard || not in_quorum then forbidden else internal_error
pre_vote_handler is_shard in_quorum n (some my_logs) counters req timeout_secs now =
    let granted =
      decide_pre_vote n.repl.term my_logs (log_summary my_logs counters) n.repl.configuration req
        (n.repl.is_leader || withholds n.repl timeout_secs now) in
    if not is_shard || not in_quorum
    then forbidden
    else ok (record { term = n.repl.term; vote_granted = granted })

-- The self-vote of `run_election`, saved before memory holds it: the new term, or none where it
-- could not be saved.
unfoldable pub stand_saved : ReplicationState → ReplicationMeta → Disk × Saved → Node × Option ℕ
stand_saved repl meta (disk, saved) = (
  record { repl = record repl { term = meta.term; voted_for = meta.voted_for }; disk = disk },
  some meta.term,
)
stand_saved repl meta (disk, save_error e) = (record { repl = repl; disk = disk }, none)

unfoldable pub stand : Node → Bytes → WriteOutcome → Node × Option ℕ
stand n candidate_id outcome =
    let new_term = (n.repl.term + 1) % 2 ^ 64 in
    let meta : ReplicationMeta = record {
      term = new_term;
      is_leader = false;
      voted_for = some candidate_id;
    } in
    stand_saved n.repl meta (save n.disk meta outcome)

-- `become_leader` under the write lock; none if the state changed during the election.
unfoldable pub assume_leadership :
    ReplicationState → ℕ → Bytes → List Bytes → Option ReplicationState
assume_leadership repl term candidate_id quorum_peers =
    if not (repl.term == term) || not (same_vote repl.voted_for (some candidate_id))
    then none
    else some (record repl {
      is_leader = true;
      heartbeat_running = false;
      primary_addr = none;
      replicas = quorum_peers;
    })

-- A higher term in a replication request or a heartbeat answer, as it enters the memory.
unfoldable pub adopt_term : ReplicationState → ℕ → ReplicationState × Bool
adopt_term repl their_term =
    if ltb repl.term their_term
    then (record repl { term = their_term; voted_for = none }, true)
    else (repl, false)

-- `demote`: the change in memory, and then the save of the new term without a vote, whose failure
-- is only reported. The last result is whether a heartbeat poll is started again.
unfoldable pub demote : Node → ℕ → ℕ → WriteOutcome → Node × Bool
demote n new_term now outcome =
    let r = apply_demotion n.repl new_term now in
    let meta : ReplicationMeta = record { term = new_term; is_leader = false; voted_for = none } in
    elim r.1 [
      | none ↦ (n, false)
      | some restart ↦ (record { repl = r.0; disk = (save n.disk meta outcome).0 }, restart)
    ]

-- `step_down_without_quorum`: leadership goes and the term and the vote stay, in memory and, where
-- the write succeeds, in the directory.
unfoldable pub step_down_without_quorum : Node → WriteOutcome → Node × Bool
step_down_without_quorum n outcome =
    let r = relinquish_leadership n.repl in
    let meta : ReplicationMeta = record {
      term = r.0.term;
      is_leader = false;
      voted_for = r.0.voted_for;
    } in
    elim r.1 [
      | none ↦ (n, false)
      | some restart ↦ (record { repl = r.0; disk = (save n.disk meta outcome).0 }, restart)
    ]

-- What the node starts from: whether it runs as a primary, has no peers, its replicas and its
-- primary.
pub record BootConfig : Type 0 where
  pub runs_as_primary : Bool
  pub no_peers : Bool
  pub replicas : List Bytes
  pub primary_addr : Option Bytes

-- The term, the office and the vote a node restarts with.
unfoldable pub restored : Option ReplicationMeta → BootConfig → ReplicationMeta
restored none config = record { term = 0; is_leader = config.runs_as_primary; voted_for = none }
restored (some m) config = record {
  term = m.term;
  is_leader = config.runs_as_primary && config.no_peers;
  voted_for = m.voted_for;
}

-- The replication state at boot, of which the restored record is saved again, as a step of its
-- own; none where the record cannot be read, and the node refuses to
-- start.
unfoldable pub boot : Loaded → BootConfig → ℕ → Option ReplicationState
boot (load_error e) config now = none
boot (loaded meta) config now =
    let m = restored meta config in
    some (record {
      term = m.term;
      is_leader = m.is_leader;
      voted_for = m.voted_for;
      last_heartbeat = none;
      last_replication = none;
      was_receiving_replication = false;
      heartbeat_running = not m.is_leader;
      replicas = config.replicas;
      primary_addr = config.primary_addr;
      last_known_primary_position = none;
      progress = Progress.empty;
      leases = [];
      handing_over = false;
      novote_until = none;
      booted_at = now;
      leader_matched = [];
      configuration = none;
    })
