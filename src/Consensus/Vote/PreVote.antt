-- ===== src/Consensus/Vote/PreVote.antt =====
-- What the answer of `pre_vote_handler` says of the answer that `vote_handler` of
-- src/api/internal.rs would give in the same state at the same time.
use dewdb.Prelude.{
  ℕ, ◌≤◌, ◌<◌, ◌≡◌, refl, sym, ap, ◌∙◌, Bool, true, false, not, ◌&&◌, ◌||◌, ◌==◌, Bytes, arith,
  some, Bool-cases, inl, inr,
}
use dewdb.Prelude.Assoc.{Assoc}
use dewdb.Consensus.State.{
  ReplicationMeta, WriteOutcome, Disk, Saved, saved, save_error, save, same_vote,
}
use dewdb.Consensus.Election.{
  LogTail, VoteRequest, VoteDecision, decide_vote, decide_pre_vote, grants, log_summary,
}
use dewdb.Consensus.Election.Eligible.{pre_vote_agrees, decide_vote_lem}
use dewdb.Consensus.Vote.{
  Node, VoteReply, forbidden, internal_error, ok, sample_vote, vote_handler, pre_vote_handler,
  must_withhold_vote, withholds, honours_transfer, record_vote, vote_saved, vote_recorded,
  vote_meta,
}

-- Does a reply grant the vote?
abbrev pub granted_in : VoteReply → Bool
granted_in forbidden = false
granted_in internal_error = false
granted_in (ok r) = r.vote_granted

-- What is saved for a vote of a higher term.
abbrev pub vote_record : VoteRequest → ReplicationMeta
vote_record req = record { term = req.term; is_leader = false; voted_for = some req.candidate_id }

module _ (n : Node) (own : Bytes) (logs : Assoc LogTail) (counters : LogTail) (req : VoteRequest)
    (secs now : ℕ) (o : WriteOutcome) where
  abbrev asked_reply : VoteReply
  asked_reply = pre_vote_handler true true n (some logs) counters req secs now

  abbrev cast_reply : VoteReply
  cast_reply =
      (vote_handler true true n own (some logs) counters (sample_vote n.repl now) n.repl req secs
        now now o).1

  abbrev decided : Bool → VoteDecision
  decided withhold =
      decide_vote n.repl.term n.repl.voted_for logs (log_summary logs counters) n.repl.configuration
        req withhold

  abbrev pre_decided : Bool → Bool
  pre_decided withhold =
      decide_pre_vote n.repl.term logs (log_summary logs counters) n.repl.configuration req withhold

  pre_eq : granted_in asked_reply ≡ pre_decided (n.repl.is_leader || withholds n.repl secs now)
  unfolding pre_vote_handler
  pre_eq = refl

  vote_eq :
      granted_in cast_reply
      ≡ (record_vote n
          (decided
            (withholds n.repl secs now && not (honours_transfer n.repl own req.transfer_from)))
          o
          now).1.vote_granted
  unfolding vote_handler must_withhold_vote sample_vote withholds
  vote_eq = refl

  saved_only_granted :
      (d : VoteDecision) (r : Disk × Saved)
      → (vote_saved n.repl d now r).1.vote_granted ≡ true
      → d.granted ≡ true
  unfolding vote_saved vote_recorded
  saved_only_granted d (disk, saved) h = h
  saved_only_granted d (disk, save_error e) h = ground arith

  saved_granted :
      (d : VoteDecision) (r : Disk × Saved)
      → d.granted ≡ true
      → r.1 ≡ saved
      → (vote_saved n.repl d now r).1.vote_granted ≡ true
  unfolding vote_saved vote_recorded
  saved_granted d (disk, saved) h s = h
  saved_granted d (disk, save_error e) h s = ground arith

  recorded_only_granted :
      (d : VoteDecision) → (record_vote n d o now).1.vote_granted ≡ true → d.granted ≡ true
  unfolding record_vote vote_recorded
  recorded_only_granted d =
      elim (Bool-cases (d.term == n.repl.term && same_vote d.voted_for n.repl.voted_for)) [
        | inl e ↦ λ h. rw e at h
        | inr e ↦ λ h. saved_only_granted d (save n.disk (vote_meta n.repl d) o) (rw e at h)
      ]

  recorded_granted :
      (d : VoteDecision)
      → d.granted ≡ true
      → (save n.disk (vote_meta n.repl d) o).1 ≡ saved
      → (record_vote n d o now).1.vote_granted ≡ true
  unfolding record_vote vote_recorded
  recorded_granted d h s =
      elim (Bool-cases (d.term == n.repl.term && same_vote d.voted_for n.repl.voted_for)) [
        | inl e ↦ rw e h
        | inr e ↦ rw e (saved_granted d (save n.disk (vote_meta n.repl d) o) h s)
      ]

  -- A follower's record of a granted vote.
  follower_meta :
      (d : VoteDecision)
      → n.repl.is_leader ≡ false
      → d.term ≡ req.term
      → d.voted_for ≡ some req.candidate_id
      → vote_meta n.repl d ≡ vote_record req
  unfolding vote_meta
  follower_meta d f t v = rw (f, t, v) refl

  agrees :
      (withhold : Bool)
      → (n.repl.term < req.term → pre_decided withhold ≡ (decided withhold).granted)
        × (req.term ≤ n.repl.term → pre_decided withhold ≡ false)
  agrees withhold =
      pre_vote_agrees n.repl.term n.repl.voted_for logs (log_summary logs counters)
        n.repl.configuration req withhold

  withheld_refuses : pre_decided true ≡ false
  unfolding decide_pre_vote grants
  withheld_refuses = ground arith

  pre_not_withheld : (w : Bool) → pre_decided w ≡ true → w ≡ false
  pre_not_withheld true h = ground (arith, withheld_refuses)
  pre_not_withheld false h = refl

  pre_term : (w : Bool) → pre_decided w ≡ true → n.repl.term < req.term
  unfolding decide_pre_vote
  pre_term w h = ground arith

  owes_nothing :
      (leads withheld : Bool) → (leads || withheld) ≡ false → (leads ≡ false) × (withheld ≡ false)
  owes_nothing leads withheld h = ground arith

  -- What a granted pre-vote says: a higher term, no office, no silence owed.
  pre_granted :
      granted_in asked_reply ≡ true
      → (n.repl.term < req.term)
        × (n.repl.is_leader ≡ false)
        × (withholds n.repl secs now ≡ false)
        × ((decided false).granted ≡ true)
  pre_granted h =
      let w = n.repl.is_leader || withholds n.repl secs now in
      let g : pre_decided w ≡ true = sym pre_eq ∙ h in
      let lt = pre_term w g in
      let none_owed = pre_not_withheld w g in
      let (follows, free) = owes_nothing n.repl.is_leader (withholds n.repl secs now) none_owed in
      (lt, follows, free, sym ((agrees false).0 lt) ∙ ap pre_decided (sym none_owed) ∙ g)

  pre_then_vote :
      granted_in asked_reply ≡ true
      → (save n.disk (vote_record req) o).1 ≡ saved
      → granted_in cast_reply ≡ true
  pre_then_vote h s =
      let (lt, follows, free, g) = pre_granted h in
      let (at, cast) =
        (decide_vote_lem n.repl.term n.repl.voted_for logs (log_summary logs counters)
            n.repl.configuration req false).2
          g in
      vote_eq
      ∙ ap
          (λ w.
            (record_vote n (decided (w && not (honours_transfer n.repl own req.transfer_from))) o
              now).1.vote_granted)
          free
      ∙ recorded_granted (decided false) g
          (ap (λ m. (save n.disk m o).1) (follower_meta (decided false) follows at cast) ∙ s)

  vote_then_pre :
      granted_in cast_reply ≡ true
      → n.repl.term < req.term
      → n.repl.is_leader ≡ false
      → honours_transfer n.repl own req.transfer_from ≡ false
      → granted_in asked_reply ≡ true
  vote_then_pre h lt f t =
      let w = withholds n.repl secs now in
      let g : (decided (w && not (honours_transfer n.repl own req.transfer_from))).granted ≡ true =
        recorded_only_granted (decided (w && not (honours_transfer n.repl own req.transfer_from)))
          (sym vote_eq ∙ h) in
      let same : (n.repl.is_leader || w)
          ≡ (w && not (honours_transfer n.repl own req.transfer_from)) =
        ground arith in
      pre_eq
      ∙ ap pre_decided same
      ∙ (agrees (w && not (honours_transfer n.repl own req.transfer_from))).0 lt
      ∙ g

  pre_refuses_behind : req.term ≤ n.repl.term → granted_in asked_reply ≡ false
  pre_refuses_behind le = pre_eq ∙ (agrees (n.repl.is_leader || withholds n.repl secs now)).1 le

  leader_refuses : n.repl.is_leader ≡ true → granted_in asked_reply ≡ false
  leader_refuses l =
      pre_eq ∙ ap (λ b. pre_decided (b || withholds n.repl secs now)) l ∙ withheld_refuses

-- The pre-vote predicts the vote that the same node would give in the same state at the same
-- time, with the same logs. Where it is granted the vote is granted, if its record is saved.
-- Where the vote is granted at a term above the voter's, the pre-vote is too, unless the voter is
-- a leader or honours the candidate's transfer: those the vote lets through and the pre-vote does
-- not. At a term that is not above the voter's, and from a leader, no pre-vote is granted.
pub pre_vote_predicts :
    (n : Node) (own : Bytes) (logs : Assoc LogTail) (counters : LogTail) (req : VoteRequest)
    (secs now : ℕ) (o : WriteOutcome)
    → let pre = granted_in (pre_vote_handler true true n (some logs) counters req secs now) in
      let vote =
        granted_in
          (vote_handler true true n own
            (some logs)
            counters
            (sample_vote n.repl now)
            n.repl
            req
            secs
            now
            now
            o).1 in
      (pre ≡ true → (save n.disk (vote_record req) o).1 ≡ saved → vote ≡ true)
      × (vote ≡ true
          → n.repl.term < req.term
          → n.repl.is_leader ≡ false
          → honours_transfer n.repl own req.transfer_from ≡ false
          → pre ≡ true)
      × (req.term ≤ n.repl.term → pre ≡ false)
      × (n.repl.is_leader ≡ true → pre ≡ false)
pre_vote_predicts n own logs counters req secs now o = (
  pre_then_vote n own logs counters req secs now o,
  vote_then_pre n own logs counters req secs now o,
  pre_refuses_behind n own logs counters req secs now o,
  leader_refuses n own logs counters req secs now o,
)
