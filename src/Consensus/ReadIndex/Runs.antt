-- ===== src/Consensus/ReadIndex/Runs.antt =====
-- Runs of the theorem on src/consensus/read_index.rs.
use dewdb.Prelude.{◌≡◌, ◌⊎◌, refl, true, false, [], ◌∷◌, Bytes, codes, bytes_eq, none, some}
use dewdb.Prelude.Assoc.{lookup}
use dewdb.Util.Endpoint.{same_endpoint}
use dewdb.Consensus.Config.{Configuration, half_has_quorum, has_quorum}
use dewdb.Consensus.Progress.{committed, term_floor}
use dewdb.Consensus.Lease.{held, promised}
use dewdb.Consensus.State.{ReplicationState}
use dewdb.Consensus.Node.{holds_read_lease, has_current_term_commit, committed_lsn}
use dewdb.Consensus.ReadIndex.{ReadRun, read_at, read_index}
use dewdb.Consensus.ReadIndex.Confirmed.{IsCovered, IsVouched, read_index_lem}

abbrev a : Bytes
a = codes "a"

abbrev b : Bytes
b = codes "b"

abbrev c : Bytes
c = codes "c"

abbrev users : Bytes
users = codes "u"

abbrev three : Configuration
three = record { voters = a ∷ b ∷ c ∷ []; outgoing = none }

abbrev leader : ReplicationState
leader = record {
  term = 2;
  is_leader = true;
  voted_for = some a;
  last_heartbeat = none;
  last_replication = none;
  was_receiving_replication = false;
  heartbeat_running = false;
  replicas = b ∷ c ∷ [];
  primary_addr = none;
  last_known_primary_position = none;
  progress = record {
    matched = [];
    committed = (users, 7) ∷ [];
    sent_through = [];
    term_floor = (users, 5) ∷ [];
    contacted = [];
  };
  leases = [];
  handing_over = false;
  novote_until = none;
  booted_at = 0;
  leader_matched = [];
  configuration = some three;
}

-- One of two peers answers, and the position becomes visible at the second poll.
abbrev reading : ReadRun
reading = record {
  start = leader;
  config = three;
  own = a;
  now = 100;
  wall_now = 100;
  answers = (b, some (record { term = 2; claims_primary = false })) ∷ (c, none) ∷ [];
  leads_after_round = true;
  applied = 6 ∷ 7 ∷ [];
  leads_at_end = true;
}

reading_answers : read_index reading users (some 1) ≡ read_at 7
unfolding read_index has_current_term_commit term_floor lookup bytes_eq committed holds_read_lease
    held has_quorum half_has_quorum same_endpoint promised committed_lsn
reading_answers = refl

others_are_quorum : has_quorum three (b ∷ c ∷ []) ≡ true
unfolding has_quorum half_has_quorum same_endpoint
others_are_quorum = refl

read_index_lem_example :
    (true ≡ true)
    × (true ≡ true)
    × IsCovered reading users (some 1) 7
    × ((holds_read_lease leader three a 100 100 ≡ true)
        ⊎ ((true ≡ true) × IsVouched three a 2 reading.answers (b ∷ c ∷ [])))
read_index_lem_example =
    read_index_lem reading users (some 1) 7 (b ∷ c ∷ []) reading_answers refl others_are_quorum
