-- ===== src/Consensus/Election/Eligible.antt =====
-- Who gets a vote: `decide_vote` and `decide_pre_vote` of src/consensus/election.rs.
use dewdb.Prelude.{
  ℕ, ◌≤◌, ◌<◌, ◌≡◌, refl, Bool, true, false, [], ◌∷◌, Bytes, arith, Option, none, some, ◌⊎◌,
  is_empty, bytes_eq_iff, unwrap_or, ◌↔◌,
}
use dewdb.Prelude.Assoc.{Assoc, lookup}
use dewdb.Consensus.Config.{Configuration}
use dewdb.Consensus.Election.{
  LogTail, no_tail, tail_leb, VoteRequest, covers_logs, candidate_is_current, candidate_is_a_member,
  can_vote, grants, decide_pre_vote, decide_vote,
}

can_vote_iff :
    (cur : Option Bytes) (id : Bytes) → (can_vote cur id ≡ true) ↔ ((cur ≡ none) ⊎ (cur ≡ some id))
unfolding can_vote
can_vote_iff none id = ground arith
can_vote_iff (some v) id = ground (arith, bytes_eq_iff v id)

can_vote-none : (id : Bytes) → can_vote none id ≡ true
unfolding can_vote
can_vote-none id = refl

module _ (cur_term : ℕ) (cur : Option Bytes) (my_logs : Assoc LogTail) (my_summary : LogTail)
    (my_config : Option Configuration) (req : VoteRequest) (withhold : Bool) where
  granted_iff :
      ((decide_vote cur_term cur my_logs my_summary my_config req withhold).granted ≡ true) ↔ (
        (cur_term ≤ req.term)
        × ((cur_term < req.term) ⊎ ((cur ≡ none) ⊎ (cur ≡ some req.candidate_id)))
        × (candidate_is_current my_logs my_summary req ≡ true)
        × (candidate_is_a_member my_config req ≡ true)
        × (withhold ≡ false))
  unfolding decide_vote grants
  granted_iff = ground (arith, can_vote_iff cur req.candidate_id, can_vote-none req.candidate_id)

  term_forward :
      (cur_term ≤ (decide_vote cur_term cur my_logs my_summary my_config req withhold).term)
      × (req.term ≤ (decide_vote cur_term cur my_logs my_summary my_config req withhold).term)
  unfolding decide_vote
  term_forward = ground arith

  granted_for :
      (decide_vote cur_term cur my_logs my_summary my_config req withhold).granted ≡ true
      → ((decide_vote cur_term cur my_logs my_summary my_config req withhold).term ≡ req.term)
        × ((decide_vote cur_term cur my_logs my_summary my_config req withhold).voted_for
            ≡ some req.candidate_id)
  unfolding decide_vote
  granted_for h = ground arith

  vote_stays :
      (c : Bytes)
      → (decide_vote cur_term cur my_logs my_summary my_config req withhold).term ≡ cur_term
      → cur ≡ some c
      → (decide_vote cur_term cur my_logs my_summary my_config req withhold).voted_for ≡ some c
  unfolding decide_vote grants
  vote_stays c h e = ground (arith, can_vote_iff cur req.candidate_id)

  -- A vote is granted exactly if the request's term is not behind, the vote of that term is free or
  -- went to the same candidate, the candidate's logs are current, the configuration names it, and
  -- no silence is owed. The voter's term never falls; it takes a higher term of the request even
  -- where it refuses; and a vote cast in a term stays the vote of that term.
  pub decide_vote_lem :
      let d = decide_vote cur_term cur my_logs my_summary my_config req withhold in
      ((d.granted ≡ true) ↔ (
        (cur_term ≤ req.term)
        × ((cur_term < req.term) ⊎ ((cur ≡ none) ⊎ (cur ≡ some req.candidate_id)))
        × (candidate_is_current my_logs my_summary req ≡ true)
        × (candidate_is_a_member my_config req ≡ true)
        × (withhold ≡ false)))
      × ((cur_term ≤ d.term) × (req.term ≤ d.term))
      × (d.granted ≡ true → (d.term ≡ req.term) × (d.voted_for ≡ some req.candidate_id))
      × ((c : Bytes) → d.term ≡ cur_term → cur ≡ some c → d.voted_for ≡ some c)
  decide_vote_lem = (granted_iff, term_forward, granted_for, vote_stays)

  -- Under one duty of silence the two decisions agree at a term above the voter's.
  pub pre_vote_agrees :
      (cur_term < req.term
        → decide_pre_vote cur_term my_logs my_summary my_config req withhold
          ≡ (decide_vote cur_term cur my_logs my_summary my_config req withhold).granted)
      × (req.term ≤ cur_term
          → decide_pre_vote cur_term my_logs my_summary my_config req withhold ≡ false)
  unfolding decide_vote decide_pre_vote
  pre_vote_agrees = ground arith

covers_logs-lookup :
    (my_logs logs : Assoc LogTail) (name : Bytes) (mine : LogTail)
    → covers_logs my_logs logs ≡ true
    → lookup name my_logs ≡ some mine
    → tail_leb mine (unwrap_or (lookup name logs) no_tail) ≡ true
unfolding covers_logs lookup
covers_logs-lookup [] logs name mine h e = absurd (ground arith)
covers_logs-lookup ((n, t) ∷ my_logs) logs name mine h e =
    ground (arith, bytes_eq_iff n name, covers_logs-lookup my_logs logs name mine)

-- The election restriction. A candidate that sent its logs and got the vote is behind the voter
-- in none of the voter's logs: its tail, the empty one where it named no such log, has a higher
-- term, or the same term and no lower position.
pub granted_covers_logs :
    (cur_term : ℕ) (cur : Option Bytes) (my_logs : Assoc LogTail) (my_summary : LogTail)
    (my_config : Option Configuration) (req : VoteRequest) (withhold : Bool) (name : Bytes)
    (mine : LogTail)
    → (decide_vote cur_term cur my_logs my_summary my_config req withhold).granted ≡ true
    → is_empty req.logs ≡ false
    → lookup name my_logs ≡ some mine
    → let theirs = unwrap_or (lookup name req.logs) no_tail in
      (mine.last_term < theirs.last_term)
      ⊎ ((mine.last_term ≡ theirs.last_term) × (mine.last_lsn ≤ theirs.last_lsn))
unfolding candidate_is_current tail_leb
granted_covers_logs cur_term cur my_logs my_summary my_config req withhold name mine g ne e =
    let d = (decide_vote_lem cur_term cur my_logs my_summary my_config req withhold).0.0 g in
    let current : covers_logs my_logs req.logs ≡ true = ground (arith, d.2) in
    let behind = covers_logs-lookup my_logs req.logs name mine current e in ground (arith, behind)
