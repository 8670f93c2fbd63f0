-- ===== src/Consensus/ReadIndex.antt =====
-- src/consensus/read_index.rs: what a leader establishes before it answers a read from local state.
-- The answers of the voters and the samples of the state across the awaits are arguments.
pub mod Confirmed
mod Runs
use dewdb.Prelude.{
  ℕ, Bool, true, false, not, ◌&&◌, ◌||◌, List, [], ◌∷◌, Bytes, leb, ltb, ◌==◌, if◌then◌else◌, max,
  Option, none, some,
}
use dewdb.Consensus.Config.{Configuration, has_quorum}
use dewdb.Consensus.State.{ReplicationState}
use dewdb.Consensus.Node.{holds_read_lease, has_current_term_commit, committed_lsn}

pub data ReadRefusal : Type 0 where
  not_leader term_too_new unconfirmed apply_timeout : ReadRefusal

-- What a voter's heartbeat says: its term, and whether its role is primary.
pub record HeartbeatAnswer : Type 0 where
  pub term : ℕ
  pub claims_primary : Bool

-- The voting peers with their answers; `none` is a peer that did not answer.
abbrev pub Answers : Type 0
Answers = List (Bytes × Option HeartbeatAnswer)

-- The test of the loop: no split brain, and no higher term.
unfoldable pub confirms : ℕ → HeartbeatAnswer → Bool
confirms term a = leb a.term term && not (a.term == term && a.claims_primary)

-- The urls that the loop pushes.
unfoldable pub confirming : ℕ → Answers → List Bytes
unfolding confirms
confirming term [] = []
confirming term ((url, none) ∷ answers) = confirming term answers
confirming term ((url, some a) ∷ answers) =
    let rest = confirming term answers in if confirms term a then url ∷ rest else rest

unfoldable pub highest_term : ℕ → Answers → ℕ
highest_term highest [] = highest
highest_term highest ((url, none) ∷ answers) = highest_term highest answers
highest_term highest ((url, some a) ∷ answers) = highest_term (max highest a.term) answers

-- How a confirmation ends; `stepped_down` demotes to the term it names and refuses as not leader.
pub data Confirmation : Type 0 where
  confirmed : Confirmation
  refused : ReadRefusal → Confirmation
  stepped_down : ℕ → Confirmation

unfoldable pub confirm_with_quorum : Configuration → Bytes → ℕ → Answers → Confirmation
unfolding confirming highest_term
confirm_with_quorum config own term answers =
    if has_quorum config (own ∷ [])
    then confirmed
    else if ltb term (highest_term term answers)
    then stepped_down (highest_term term answers)
    else if has_quorum config (own ∷ confirming term answers)
    then confirmed
    else refused unconfirmed

-- What the node sees across the awaits: its state and clocks at the start, the voters' answers, its
-- role after the round, the applied positions polled before the deadline, and its role at the end.
pub record ReadRun : Type 0 where
  pub start : ReplicationState
  pub config : Configuration
  pub own : Bytes
  pub now : ℕ
  pub wall_now : ℕ
  pub answers : Answers
  pub leads_after_round : Bool
  pub applied : List ℕ
  pub leads_at_end : Bool

unfoldable pub still_leads : Bool → Confirmation → Confirmation
still_leads leads confirmed = if leads then confirmed else refused not_leader
still_leads leads (refused e) = refused e
still_leads leads (stepped_down highest) = stepped_down highest

unfoldable pub confirm_leadership : ReadRun → Confirmation
unfolding confirm_with_quorum still_leads
confirm_leadership r =
    if holds_read_lease r.start r.config r.own r.now r.wall_now
    then confirmed
    else still_leads r.leads_after_round (confirm_with_quorum r.config r.own r.start.term r.answers)

-- The polls before the deadline; at their end the wait times out.
unfoldable pub wait_for_applied : List ℕ → ℕ → Bool
wait_for_applied [] index = false
wait_for_applied (lsn ∷ polls) index = leb index lsn || wait_for_applied polls index

pub data ReadResult : Type 0 where
  read_at : ℕ → ReadResult
  read_refused : ReadRefusal → ReadResult

-- The last check of `read_index`, behind the confirmation and the wait.
unfoldable pub answer_at : Bool → ℕ → Bool → Confirmation → ReadResult
answer_at leads_at_end index visible (refused e) = read_refused e
answer_at leads_at_end index visible (stepped_down highest) = read_refused not_leader
answer_at leads_at_end index visible confirmed =
    if not visible
    then read_refused apply_timeout
    else if leads_at_end
    then read_at index
    else read_refused not_leader

-- `pending` is the number of staged frames, `none` where there is no such collection.
unfoldable pub index_is_complete : ReplicationState → Bytes → ℕ → Bool
index_is_complete g collection pending = pending == 0 || has_current_term_commit g collection

unfoldable pub read_index : ReadRun → Bytes → Option ℕ → ReadResult
unfolding answer_at confirm_leadership wait_for_applied index_is_complete
read_index r collection none =
    if not r.start.is_leader
    then read_refused not_leader
    else answer_at r.leads_at_end 0 true (confirm_leadership r)
read_index r collection (some pending) =
    let index = committed_lsn r.start collection in
    if not r.start.is_leader
    then read_refused not_leader
    else if not (index_is_complete r.start collection pending)
    then read_refused term_too_new
    else answer_at r.leads_at_end index (wait_for_applied r.applied index) (confirm_leadership r)
