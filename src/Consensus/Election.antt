-- ===== src/Consensus/Election.antt =====
-- src/consensus/election.rs: the eligibility of a candidate, the vote and the pre-vote, and the
-- tally of a round.
pub mod Eligible
pub mod Tally
use dewdb.Prelude.{
  ℕ, ◌+◌, ◌%◌, ◌^◌, Bool, true, false, not, ◌&&◌, ◌||◌, List, [], ◌∷◌, ◌++◌, Bytes, leb, ltb, ◌==◌,
  if◌then◌else◌, any, is_empty, max, Option, none, some, unwrap_or, bytes_eq,
}
use dewdb.Prelude.Assoc.{Assoc, lookup}
use dewdb.Consensus.Config.{Configuration, contains, has_quorum}

pub record LogTail : Type 0 where
  pub last_term : ℕ
  pub last_lsn : ℕ

-- `LogTail::default()`
abbrev pub no_tail : LogTail
no_tail = record { last_term = 0; last_lsn = 0 }

-- `a <= b` in the derived order, which compares the fields in the order of their declaration.
unfoldable pub tail_leb : LogTail → LogTail → Bool
tail_leb a b =
    ltb a.last_term b.last_term || (a.last_term == b.last_term && leb a.last_lsn b.last_lsn)

pub record VoteRequest : Type 0 where
  pub term : ℕ
  pub candidate_id : Bytes
  pub last_lsn : ℕ
  pub last_term : ℕ
  pub logs : Assoc LogTail
  pub candidate_url : Option Bytes
  pub transfer_from : Option Bytes

pub record VoteDecision : Type 0 where
  pub granted : Bool
  pub term : ℕ
  pub voted_for : Option Bytes

-- `tails.values().copied().max()`
unfoldable pub max_tail : Assoc LogTail → Option LogTail
unfolding tail_leb
max_tail [] = none
max_tail ((name, t) ∷ tails) = elim (max_tail tails) [
  | none ↦ some t
  | some best ↦ some (if tail_leb t best then best else t)
]

-- With the shared counters of the database, which stand in for the tails where there are none.
unfoldable pub log_summary : Assoc LogTail → LogTail → LogTail
unfolding max_tail
log_summary tails counters = unwrap_or (max_tail tails) counters

-- `my_logs.iter().all(..)`: no log of the voter is ahead of the candidate's.
unfoldable pub covers_logs : Assoc LogTail → Assoc LogTail → Bool
covers_logs [] logs = true
covers_logs ((name, mine) ∷ my_logs) logs =
    tail_leb mine (unwrap_or (lookup name logs) no_tail) && covers_logs my_logs logs

unfoldable pub candidate_is_current : Assoc LogTail → LogTail → VoteRequest → Bool
candidate_is_current my_logs my_summary req =
    if is_empty req.logs
    then tail_leb my_summary (record { last_term = req.last_term; last_lsn = req.last_lsn })
    else covers_logs my_logs req.logs

unfoldable pub candidate_is_a_member : Option Configuration → VoteRequest → Bool
candidate_is_a_member none req = true
candidate_is_a_member (some config) req = elim req.candidate_url [
  | none ↦ true
  | some url ↦ contains config url
]

-- May this vote go to the candidate?
unfoldable pub can_vote : Option Bytes → Bytes → Bool
can_vote none candidate_id = true
can_vote (some v) candidate_id = bytes_eq v candidate_id

unfoldable pub grants :
    Option Bytes → Assoc LogTail → LogTail → Option Configuration → VoteRequest → Bool → Bool
grants voted_for my_logs my_summary my_config req must_withhold =
    can_vote voted_for req.candidate_id
    && candidate_is_current my_logs my_summary req
    && candidate_is_a_member my_config req
    && not must_withhold

unfoldable pub decide_pre_vote :
    ℕ → Assoc LogTail → LogTail → Option Configuration → VoteRequest → Bool → Bool
decide_pre_vote cur_term my_logs my_summary my_config req must_withhold =
    if leb req.term cur_term
    then false
    else grants none my_logs my_summary my_config req must_withhold

unfoldable pub decide_vote :
    ℕ
    → Option Bytes
    → Assoc LogTail
    → LogTail
    → Option Configuration
    → VoteRequest
    → Bool
    → VoteDecision
decide_vote cur_term cur_voted_for my_logs my_summary my_config req must_withhold =
    if ltb req.term cur_term
    then record { granted = false; term = cur_term; voted_for = cur_voted_for }
    else (let term = if ltb cur_term req.term then req.term else cur_term in
        let voted_for = if ltb cur_term req.term then none else cur_voted_for in
        if grants voted_for my_logs my_summary my_config req must_withhold
        then record { granted = true; term = term; voted_for = some req.candidate_id }
        else record { granted = false; term = term; voted_for = voted_for })

-- One answer of a peer: its url, whether it granted, and its term (`ask_peers`).
pub record Answer : Type 0 where
  pub voter : Bytes
  pub vote_granted : Bool
  pub term : ℕ

-- The receive loop of `ask_peers`: it stops as soon as those who granted are a quorum, and else
-- takes the next answer, in the order of arrival, until the answers or the time run out.
unfoldable pub tally : Configuration → List Answer → List Bytes → ℕ → List Bytes × ℕ
tally config [] granted highest_term = (granted, highest_term)
tally config (a ∷ answers) granted highest_term =
    let rest =
      tally config answers (if a.vote_granted then granted ++ a.voter ∷ [] else granted)
        (if ltb highest_term a.term then a.term else highest_term) in
    if has_quorum config granted then (granted, highest_term) else rest
