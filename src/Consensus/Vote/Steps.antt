-- ===== src/Consensus/Vote/Steps.antt =====
-- The steps of a node that touch its term, its vote or its directory, in any order: the votes of
-- src/api/internal.rs, the candidacies and offices of src/consensus/election.rs, the adoptions and
-- step-downs of src/consensus/failover.rs, and crashes with a restart. A save that follows a
-- change in memory is a step of its own, since the lock is free between the two. A restart finds
-- the directory as it was last written.
use dewdb.Prelude.{
  ℕ, ◌+◌, ◌<◌, ◌^◌, ◌≡◌, Bool, List, [], ◌∷◌, Bytes, Option, none, some, if◌then◌else◌,
}
use dewdb.Prelude.Assoc.{Assoc}
use dewdb.Consensus.Config.{Configuration}
use dewdb.Consensus.State.{
  ReplicationMeta, ReplicationState, WriteOutcome, save, load, apply_demotion,
  relinquish_leadership,
}
use dewdb.Consensus.Election.{LogTail, VoteRequest, VoteDecision, decide_vote}
use dewdb.Consensus.Vote.{
  Node, VoteResponse, record_vote, stand, assume_leadership, adopt_term, BootConfig, boot,
}

-- A node with every vote it ever gave: the votes it answered and its own candidacies.
pub record Voter : Type 0 where
  pub node : Node
  pub cast : List (ℕ × Bytes)

abbrev pub with_repl : Voter → ReplicationState → Voter
with_repl v r = record { node = record { repl = r; disk = v.node.disk }; cast = v.cast }

abbrev pub answered : List (ℕ × Bytes) → VoteResponse → Bytes → List (ℕ × Bytes)
answered cast answer candidate_id =
    if answer.vote_granted then (answer.term, candidate_id) ∷ cast else cast

abbrev pub stood : List (ℕ × Bytes) → Option ℕ → Bytes → List (ℕ × Bytes)
stood cast none candidate_id = cast
stood cast (some term) candidate_id = (term, candidate_id) ∷ cast

-- The decision of `vote_handler` on the term and the vote under the lock. What it sampled before,
-- its logs, configuration and clocks, may be of any earlier state.
abbrev pub decision :
    ReplicationState
    → Assoc LogTail
    → LogTail
    → Option Configuration
    → VoteRequest
    → Bool
    → VoteDecision
decision g logs tail config req withhold =
    decide_vote g.term g.voted_for logs tail config req withhold

abbrev pub after_vote : Voter → VoteDecision → Bytes → WriteOutcome → ℕ → Voter
after_vote v d candidate_id outcome now = record {
  node = (record_vote v.node d outcome now).0;
  cast = answered v.cast (record_vote v.node d outcome now).1 candidate_id;
}

abbrev pub after_stand : Voter → Bytes → WriteOutcome → Voter
after_stand v candidate_id outcome = record {
  node = (stand v.node candidate_id outcome).0;
  cast = stood v.cast (stand v.node candidate_id outcome).1 candidate_id;
}

pub data Step : Voter → Voter → Type 0 where
  votes :
      (v : Voter) (logs : Assoc LogTail) (tail : LogTail) (config : Option Configuration)
      (req : VoteRequest) (withhold : Bool) (outcome : WriteOutcome) (now : ℕ)
      → Step v (
          after_vote v
            (decision v.node.repl logs tail config req withhold)
            req.candidate_id
            outcome
            now)
  stands :
      (v : Voter) (candidate_id : Bytes) (outcome : WriteOutcome)
      → v.node.repl.term + 1 < 2 ^ 64
      → Step v (after_stand v candidate_id outcome)
  leads :
      (v : Voter) (term : ℕ) (candidate_id : Bytes) (peers : List Bytes) (r : ReplicationState)
      → assume_leadership v.node.repl term candidate_id peers ≡ some r
      → Step v (with_repl v r)
  adopts : (v : Voter) (term : ℕ) → Step v (with_repl v (adopt_term v.node.repl term).0)
  is_deposed :
      (v : Voter) (term now : ℕ) → Step v (with_repl v (apply_demotion v.node.repl term now).0)
  resigns : (v : Voter) → Step v (with_repl v (relinquish_leadership v.node.repl).0)
  saves :
      (v : Voter) (m : ReplicationMeta) (outcome : WriteOutcome)
      → Step v (record {
        node = record { repl = v.node.repl; disk = (save v.node.disk m outcome).0 };
        cast = v.cast;
      })
  restarts :
      (v : Voter) (config : BootConfig) (now : ℕ) (r : ReplicationState)
      → boot (load v.node.disk) config now ≡ some r
      → Step v (with_repl v r)

pub data Reach (v : Voter) : Voter → Type 0 where
  here : Reach v v
  then_step : (w x : Voter) → Reach v w → Step w x → Reach v x

-- Every vote of a list is for `c` if it is of term `t`.
abbrev pub Agrees : ℕ → Bytes → List (ℕ × Bytes) → Type 0
Agrees t c [] = Unit
Agrees t c ((u, b) ∷ cast) = (u ≡ t → b ≡ c) × Agrees t c cast

-- No two votes of a list are of one term and for two candidates.
abbrev pub OnePerTerm : List (ℕ × Bytes) → Type 0
OnePerTerm [] = Unit
OnePerTerm ((t, c) ∷ cast) = Agrees t c cast × OnePerTerm cast
