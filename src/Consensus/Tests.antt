-- ===== src/Consensus/Tests.antt =====
-- Runs of the theorems on src/consensus/ at small clusters: three nodes `a`, `b` and `c`.
use dewdb.Prelude.{
  ◌≤◌, ◌<◌, ◌≡◌, ◌↔◌, refl, true, false, List, [], ◌∷◌, Bytes, codes, none, some, unwrap_or, arith,
  ◌⊎◌, if◌then◌else◌, bytes_eq,
}
use dewdb.Prelude.Assoc.{Assoc, lookup}
use dewdb.Consensus.Names.{
  valid_collection_name, is_windows_reserved, stem, ends_with, valid_names_do_not_alias,
}
use dewdb.Util.Endpoint.{
  after_scheme, ends_authority, cut_authority, endpoint_of, lower, eq_ignore_ascii_case,
  same_endpoint,
}
use dewdb.Consensus.Config.{
  Configuration, majority, distinct_after, distinct, voter_count, half_has_quorum, has_quorum,
  simple, joint, canonical, push_distinct, quorum_lsn,
}
use dewdb.Consensus.Config.Quorum.{Shared, quorums_intersect, change_intersects, has_quorum_mono}
use dewdb.Consensus.Config.Lsn.{QuorumHolds, quorum_lsn_iff}
use dewdb.Consensus.Election.{
  Answer, tally, LogTail, no_tail, tail_leb, VoteRequest, decide_vote, candidate_is_current,
  candidate_is_a_member, grants, can_vote, covers_logs,
}
use dewdb.Consensus.Election.Tally.{HasRead, tally_decides, election_safety}
use dewdb.Consensus.Election.Eligible.{decide_vote_lem, granted_covers_logs}
use dewdb.Consensus.State.{
  ReplicationMeta, absent, holds, Disk, loaded, scan, load, write_atomic, save_over, save, renamed,
  torn, ReplicationState,
}
use dewdb.Consensus.State.Kept.{KeepsRecord, save-KeepsRecord, save_is_loaded}
use dewdb.Consensus.Vote.{BootConfig, boot, restored}
use dewdb.Consensus.Vote.Steps.{
  Voter, stands, votes, here, then_step, after_vote, after_stand, decision, OnePerTerm,
}
use dewdb.Consensus.Vote.Safety.{one_vote_per_term}

abbrev a : Bytes
a = codes "http://a"

abbrev b : Bytes
b = codes "http://b"

abbrev c : Bytes
c = codes "http://c"

abbrev three : Configuration
three = record { voters = a ∷ b ∷ c ∷ []; outgoing = none }

quorums_intersect_example : Shared three.voters (a ∷ b ∷ []) (b ∷ c ∷ [])
unfolding has_quorum half_has_quorum voter_count distinct distinct_after majority same_endpoint
    endpoint_of after_scheme ends_authority cut_authority lower eq_ignore_ascii_case
quorums_intersect_example = quorums_intersect three (a ∷ b ∷ []) (b ∷ c ∷ []) refl refl refl

change_intersects_example :
    (has_quorum (simple (a ∷ b ∷ [])) (a ∷ b ∷ []) ≡ true
      → Shared (simple (a ∷ b ∷ [])).voters (a ∷ b ∷ c ∷ []) (a ∷ b ∷ []))
    × (has_quorum (simple (b ∷ c ∷ [])) (a ∷ b ∷ []) ≡ true
        → Shared (simple (b ∷ c ∷ [])).voters (a ∷ b ∷ c ∷ []) (a ∷ b ∷ []))
unfolding has_quorum half_has_quorum voter_count distinct distinct_after majority same_endpoint
    endpoint_of after_scheme ends_authority cut_authority lower eq_ignore_ascii_case joint canonical
    push_distinct
change_intersects_example =
    change_intersects (a ∷ b ∷ []) (b ∷ c ∷ []) (a ∷ b ∷ c ∷ []) (a ∷ b ∷ []) refl refl refl

has_quorum_mono_example : has_quorum three (c ∷ b ∷ a ∷ []) ≡ true
unfolding has_quorum half_has_quorum voter_count distinct distinct_after majority same_endpoint
    endpoint_of after_scheme ends_authority cut_authority lower eq_ignore_ascii_case
has_quorum_mono_example =
    has_quorum_mono three (a ∷ b ∷ []) (c ∷ b ∷ a ∷ []) (λ v h. ground (arith, h)) refl

quorum_lsn_iff_example :
    (5 ≤ quorum_lsn three (λ v. if bytes_eq v a then 9 else 5))
    ↔ QuorumHolds (λ v. if bytes_eq v a then 9 else 5) 5 three
quorum_lsn_iff_example = quorum_lsn_iff three (λ v. if bytes_eq v a then 9 else 5) 5 (refl, tt)

-- `b` refuses at a higher term, and then `c` grants.
abbrev two_answers : List Answer
two_answers =
    record { voter = b; vote_granted = false; term = 3 }
    ∷ record { voter = c; vote_granted = true; term = 2 }
    ∷ []

tally_decides_example :
    let r = tally three two_answers (a ∷ []) 2 in
    (has_quorum three r.0 ≡ has_quorum three (a ∷ c ∷ []))
    × HasRead two_answers (a ∷ []) 2 r
    × (has_quorum three r.0 ≡ false → (r.0 ≡ a ∷ c ∷ []) × (r.1 ≡ 3))
tally_decides_example = tally_decides three two_answers (a ∷ []) 2

election_safety_example :
    (has_quorum three (a ∷ b ∷ []) ≡ true → has_quorum three (b ∷ c ∷ []) ≡ true → a ≡ a)
    × (has_quorum (joint (a ∷ []) (a ∷ b ∷ [])) (a ∷ b ∷ []) ≡ true
        → has_quorum (simple (a ∷ [])) (b ∷ c ∷ []) ≡ true
        → a ≡ a)
    × (has_quorum (joint (a ∷ []) (a ∷ b ∷ [])) (a ∷ b ∷ []) ≡ true
        → has_quorum (simple (a ∷ b ∷ [])) (b ∷ c ∷ []) ≡ true
        → a ≡ a)
election_safety_example =
    election_safety (λ v. some a) a a three (a ∷ []) (a ∷ b ∷ []) (a ∷ b ∷ []) (b ∷ c ∷ [])
      (λ x y h. refl) (refl, (refl, tt)) (refl, (refl, tt)) refl refl refl

abbrev request : VoteRequest
request = record {
  term = 4;
  candidate_id = b;
  last_lsn = 9;
  last_term = 3;
  logs = (codes "log", record { last_term = 3; last_lsn = 9 }) ∷ [];
  candidate_url = some b;
  transfer_from = none;
}

abbrev my_logs : Assoc LogTail
my_logs = (codes "log", record { last_term = 2; last_lsn = 12 }) ∷ []

decide_vote_lem_example :
    let d = decide_vote 3 (some a) my_logs no_tail (some three) request false in
    ((d.granted ≡ true) ↔ (
      (3 ≤ 4)
      × ((3 < 4) ⊎ ((some a ≡ none) ⊎ (some a ≡ some b)))
      × (candidate_is_current my_logs no_tail request ≡ true)
      × (candidate_is_a_member (some three) request ≡ true)
      × (false ≡ false)))
    × ((3 ≤ d.term) × (4 ≤ d.term))
    × (d.granted ≡ true → (d.term ≡ 4) × (d.voted_for ≡ some b))
    × ((x : Bytes) → d.term ≡ 3 → some a ≡ some x → d.voted_for ≡ some x)
decide_vote_lem_example = decide_vote_lem 3 (some a) my_logs no_tail (some three) request false

granted_covers_logs_example :
    let theirs = unwrap_or (lookup (codes "log") request.logs) no_tail in
    (2 < theirs.last_term) ⊎ ((2 ≡ theirs.last_term) × (12 ≤ theirs.last_lsn))
unfolding decide_vote grants can_vote candidate_is_current covers_logs candidate_is_a_member
    tail_leb lookup bytes_eq
granted_covers_logs_example =
    granted_covers_logs 3 (some a) my_logs no_tail none request false (codes "log")
      (record { last_term = 2; last_lsn = 12 }) refl refl refl

abbrev held_two : Disk
held_two = record {
  meta = holds (record { term = 2; is_leader = false; voted_for = some a });
  staging = absent;
}

abbrev next_term : ReplicationMeta
next_term = record { term = 3; is_leader = false; voted_for = some b }

-- The write of the next record is torn, and the old one is still read.
save-KeepsRecord_example :
    KeepsRecord
      (record { term = 2; is_leader = false; voted_for = some a })
      (load (save held_two next_term torn).0)
unfolding load scan
save-KeepsRecord_example =
    save-KeepsRecord held_two next_term (record { term = 2; is_leader = false; voted_for = some a })
      torn refl

save_is_loaded_example :
    (new : ReplicationMeta) × (load (save held_two next_term renamed).0 ≡ loaded (some new))
    × ((3 < new.term) ⊎ ((3 ≡ new.term) × (some b ≡ new.voted_for)))
unfolding load scan save save_over write_atomic
save_is_loaded_example = save_is_loaded held_two next_term renamed refl

abbrev empty_disk : Disk
empty_disk = record { meta = absent; staging = absent }

abbrev replica : BootConfig
replica = record { runs_as_primary = false; no_peers = false; replicas = []; primary_addr = none }

abbrev booted : ReplicationState
booted = record {
  term = 0;
  is_leader = false;
  voted_for = none;
  last_heartbeat = none;
  last_replication = none;
  was_receiving_replication = false;
  heartbeat_running = true;
  replicas = [];
  primary_addr = none;
  last_known_primary_position = none;
  progress = record {
    matched = [];
    committed = [];
    sent_through = [];
    term_floor = [];
    contacted = [];
  };
  leases = [];
  handing_over = false;
  novote_until = none;
  booted_at = 7;
  leader_matched = [];
  configuration = none;
}

abbrev started : Voter
started = record { node = record { repl = booted; disk = empty_disk }; cast = [] }

-- It stands in term 1, and then is asked for its vote in term 4.
abbrev candidate : Voter
candidate = after_stand started a renamed

abbrev asked : Voter
asked =
    after_vote candidate (decision candidate.node.repl my_logs no_tail none request false) b renamed
      9

one_vote_per_term_example : OnePerTerm asked.cast
unfolding boot restored load scan
one_vote_per_term_example = one_vote_per_term empty_disk replica 7 booted asked refl (
    then_step candidate asked
      (then_step started candidate here (stands started a renamed (omega arith)))
      (votes candidate my_logs no_tail none request false renamed 9))

valid_names_do_not_alias_example : codes "users-1" ≡ codes "users-1"
unfolding valid_collection_name is_windows_reserved stem ends_with bytes_eq eq_ignore_ascii_case
    lower
valid_names_do_not_alias_example =
    valid_names_do_not_alias (codes "users-1") (codes "users-1") refl refl refl
