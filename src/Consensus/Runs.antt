-- ===== src/Consensus/Runs.antt =====
-- Runs of the theorems on the leader's side of src/consensus/: commits, cursors and leases.
use dewdb.Prelude.{
  ℕ, ◌+◌, ◌*◌, ◌≤◌, ◌<◌, ◌≡◌, ◌≢◌, refl, true, false, [], ◌∷◌, Bytes, codes, bytes_eq, none, some,
  unwrap_or, arith,
}
use dewdb.Prelude.Assoc.{lookup}
use dewdb.Util.Endpoint.{
  after_scheme, ends_authority, cut_authority, endpoint_of, lower, eq_ignore_ascii_case,
  same_endpoint,
}
use dewdb.Consensus.Config.{
  Configuration, majority, distinct_after, distinct, voter_count, half_has_quorum, has_quorum,
  contains, members, push_distinct,
}
use dewdb.Consensus.Config.Lsn.{QuorumHolds}
use dewdb.Consensus.Progress.{
  Progress, reset, advance, committed, term_floor, held_by, matched, reinit_as_leader,
}
use dewdb.Consensus.Progress.Commit.{advance_commits_quorum, reinit_commits_nothing}
use dewdb.Consensus.Lease.{
  Promise, Leases, live, promised, held, withholds_vote, refusal_window, grantable, contact_age,
  newest,
}
use dewdb.Consensus.Lease.Honour.{silence_ends}
use dewdb.Consensus.Vote.PreVote.{granted_in, vote_record, pre_vote_predicts}
use dewdb.Consensus.Lease.Exclude.{lease_excludes_election}
use dewdb.Consensus.State.{
  ReplicationState, quorum, absent, renamed, save, saved, load, scan, save_over, write_atomic,
  same_vote,
}
use dewdb.Consensus.Election.{
  max_tail, decide_vote, grants, can_vote, candidate_is_current, candidate_is_a_member, covers_logs,
  tail_leb, log_summary, no_tail, VoteRequest,
}
use dewdb.Consensus.Vote.{
  Node, install_decision, stood_down, vote_meta, sample_vote, must_withhold_vote, record_vote,
  vote_saved, vote_recorded, vote_handler, pre_vote_handler, honours_transfer,
}
use dewdb.Consensus.Node.{note_ack, grant_novote}
use dewdb.Consensus.Node.Ack.{note_ack_lem, CommitsWhatIsHeld}
use dewdb.Consensus.Node.Silence.{granted_silence_is_kept, as_granted, GrantsNothing}

abbrev a : Bytes
a = codes "http://a"

abbrev b : Bytes
b = codes "http://b"

abbrev c : Bytes
c = codes "http://c"

abbrev col : Bytes
col = codes "users"

abbrev three : Configuration
three = record { voters = a ∷ b ∷ c ∷ []; outgoing = none }

-- Evidence of a leader whose first append stands at 5, with 7 acknowledged by `b`.
abbrev evidence : Progress
evidence = record {
  matched = (b, (col, 7) ∷ []) ∷ [];
  committed = (col, 3) ∷ [];
  sent_through = [];
  term_floor = (col, 5) ∷ [];
  contacted = [];
}

abbrev leader : ReplicationState
leader = record {
  term = 2;
  is_leader = true;
  voted_for = some a;
  last_heartbeat = none;
  last_replication = none;
  was_receiving_replication = false;
  heartbeat_running = false;
  replicas = b ∷ c ∷ [];
  primary_addr = none;
  last_known_primary_position = none;
  progress = evidence;
  leases = [];
  handing_over = false;
  novote_until = none;
  booted_at = 0;
  leader_matched = [];
  configuration = some three;
}

advance_commits_quorum_example :
    let (p, r) = advance evidence col a 9 three in
    (committed p col ≡ r)
    × (committed evidence col ≤ r)
    × (committed evidence col < r
        → QuorumHolds (held_by evidence col a 9) r three
          × ((f : ℕ) × (term_floor evidence col ≡ some f) × (f ≤ r)))
    × ((other : Bytes) → other ≢ col → committed p other ≡ committed evidence other)
advance_commits_quorum_example = advance_commits_quorum evidence col a 9 three (refl, tt)

note_ack_lem_example : CommitsWhatIsHeld leader a col 2 9 (note_ack leader a c col 8 2 9 100)
unfolding quorum
note_ack_lem_example = note_ack_lem leader a c col 8 2 9 100 (refl, tt)

reinit_commits_nothing_example :
    let p = reinit_as_leader evidence (b ∷ c ∷ []) ((col, 9) ∷ []) ((col, 4) ∷ []) [] 100 in
    ((r : Bytes) → matched p r col ≡ 0)
    × ((advance p col a 9 three).1 ≡ unwrap_or (lookup col ((col, 4) ∷ [])) 0)
reinit_commits_nothing_example =
    reinit_commits_nothing evidence (b ∷ c ∷ []) ((col, 9) ∷ []) ((col, 4) ∷ []) [] 100 col a 9
      three

-- A timeout of ten seconds, with a grant one second after the contact.
silence_ends_example :
    (2 * refusal_window 10_000_000_000 ≤ 10_000_000_000)
    × (withholds_vote
          (some 5_000_000_000)
          (some (1_000_001_000 + grantable (some 1_000_000_000) 10_000_000_000))
          5_000_001_000
          10_000_000_000
          5_000_001_000
        ≡ false)
silence_ends_example =
    silence_ends 1_000 1_000_001_000 0 10_000_000_000 5_000_001_000 (omega arith) (omega arith)
      (omega arith) (omega arith)

abbrev one_promise : Promise
one_promise = record { until = 600; at = 100; at_wall = 100 }

abbrev voter : ReplicationState
voter = record leader { is_leader = false; last_heartbeat = some 1_000; primary_addr = some a }

-- `b` grants half of a second at 2_000, and `a` dates the promise from 1_500.
abbrev granting : ReplicationState × ℕ
granting = grant_novote voter 2 500_000_000 10 2_000

abbrev backed : Promise
backed = record { until = 500_001_500; at = 1_500; at_wall = 1_500 }

abbrev leases : Leases
leases = (b, one_promise) ∷ []

lease_excludes_election_example : has_quorum three (c ∷ []) ≡ false
unfolding held promised live has_quorum half_has_quorum voter_count distinct distinct_after majority
    same_endpoint endpoint_of after_scheme ends_authority cut_authority lower eq_ignore_ascii_case
lease_excludes_election_example =
    lease_excludes_election leases three a 200 200 (c ∷ []) refl refl refl

abbrev request : VoteRequest
request = record {
  term = 4;
  candidate_id = b;
  last_lsn = 9;
  last_term = 3;
  logs = [];
  candidate_url = some b;
  transfer_from = none;
}

abbrev silent : Node
silent = record {
  repl = (grant_novote voter 2 1_000_000 10 2_000).0;
  disk = record { meta = absent; staging = absent };
}

granted_silence_is_kept_example :
    (honours_transfer silent.repl b none ≡ false
      → GrantsNothing
          (vote_handler true true silent b
            (some [])
            no_tail
            (sample_vote silent.repl 800_000)
            silent.repl
            request
            10
            900_000
            990_000
            renamed).1)
    × GrantsNothing (pre_vote_handler true true silent (some []) no_tail request 10 900_000)
unfolding grant_novote grantable refusal_window contact_age newest
granted_silence_is_kept_example =
    granted_silence_is_kept voter 2 1_000_000 10 2_000 silent.repl silent.repl 800_000 900_000
      990_000 true true silent silent.disk b (some []) no_tail request renamed (omega arith)
      as_granted (omega arith)

pre_vote_predicts_example :
    let pre =
      granted_in (pre_vote_handler true true silent (some []) no_tail request 10 9_000_000_000) in
    let vote =
      granted_in
        (vote_handler true true silent b
          (some [])
          no_tail
          (sample_vote silent.repl 9_000_000_000)
          silent.repl
          request
          10
          9_000_000_000
          9_000_000_000
          renamed).1 in
    (pre ≡ true → (save silent.disk (vote_record request) renamed).1 ≡ saved → vote ≡ true)
    × (vote ≡ true
        → silent.repl.term < 4
        → silent.repl.is_leader ≡ false
        → honours_transfer silent.repl b none ≡ false
        → pre ≡ true)
    × (4 ≤ silent.repl.term → pre ≡ false)
    × (silent.repl.is_leader ≡ true → pre ≡ false)
pre_vote_predicts_example = pre_vote_predicts silent b [] no_tail request 10 9_000_000_000 renamed

-- A contact that is out of date when it is sampled; then one that is new, and a promise resting
-- on it.
abbrev promised_late : ReplicationState × ℕ
promised_late =
    grant_novote (record voter { last_heartbeat = some 20_000_000_000 }) 2 1_000_000 10
      20_000_000_001

abbrev late : Node
late = record { repl = promised_late.0; disk = record { meta = absent; staging = absent } }

-- The vote that was sampled before the promise is granted behind it.
late_promise_is_broken :
    (promised_late.1 ≡ 1_000_000)
    × (granted_in
          (vote_handler true true late b
            (some [])
            no_tail
            (sample_vote voter 20_000_000_000)
            voter
            request
            10
            20_000_000_000
            20_000_000_002
            renamed).1
        ≡ true)
unfolding grant_novote vote_handler grantable contact_age record_vote decide_vote grants can_vote
    candidate_is_current tail_leb log_summary candidate_is_a_member sample_vote contains members
    push_distinct same_endpoint must_withhold_vote withholds_vote covers_logs max_tail newest
    refusal_window reset load same_vote save save_over scan write_atomic honours_transfer
    install_decision stood_down vote_meta vote_recorded vote_saved lookup bytes_eq after_scheme
    cut_authority endpoint_of ends_authority eq_ignore_ascii_case lower
late_promise_is_broken = (refl, refl)
