-- ===== src/Consensus/Node/Silence.antt =====
-- A voter's silence: what `grant_novote` of src/state.rs promises, `vote_handler` and
-- `pre_vote_handler` of src/api/internal.rs keep, whatever happens to the node's office in between.
use dewdb.Prelude.{
  ℕ, ◌+◌, ◌≤◌, ◌<◌, ◌≡◌, Bool, true, false, not, ◌||◌, arith, Option, none, some, inl, inr,
  Bool-cases, Bytes,
}
use dewdb.Prelude.Assoc.{Assoc}
use dewdb.Consensus.Config.{Configuration}
use dewdb.Consensus.State.{
  ReplicationState, Disk, WriteOutcome, apply_demotion, relinquish_leadership,
}
use dewdb.Consensus.Lease.{withholds_vote}
use dewdb.Consensus.Election.{
  LogTail, VoteRequest, VoteDecision, decide_vote, log_summary, decide_pre_vote, grants,
}
use dewdb.Consensus.Vote.{
  Node, VoteReply, forbidden, internal_error, ok, vote_handler, pre_vote_handler, VoteSample,
  sample_vote, must_withhold_vote, withholds, honours_transfer, record_vote, vote_saved,
  vote_recorded, install_decision, stood_down, adopt_term,
}
use dewdb.Consensus.Node.{grant_novote}

-- The node holds a deadline no earlier than `t`.
abbrev pub IsSilentUntil : ReplicationState → ℕ → Type 0
IsSilentUntil g t = elim g.novote_until [ none ↦ ⊥ | some until ↦ t ≤ until ]

pub grant_sets_deadline :
    (g : ReplicationState) (asker_term asked secs now : ℕ)
    → let r = grant_novote g asker_term asked secs now in 0 < r.1 → IsSilentUntil r.0 (now + r.1)
unfolding grant_novote
grant_sets_deadline g asker_term asked secs now h = ground arith

silent_withholds :
    (g : ReplicationState) (secs t now : ℕ)
    → IsSilentUntil g t
    → now < t
    → withholds g secs now ≡ true
unfolding withholds withholds_vote
silent_withholds g secs t now s lt = ground arith

-- What may happen to a node's replication state after a grant: it is deposed, resigns, adopts a
-- higher term, installs the decision on a vote, or grants again.
pub data Office (g : ReplicationState) : ReplicationState → Type 0 where
  as_granted : Office g g
  is_deposed :
      (h : ReplicationState) (term now : ℕ) → Office g h → Office g (apply_demotion h term now).0
  resigns : (h : ReplicationState) → Office g h → Office g (relinquish_leadership h).0
  adopts : (h : ReplicationState) (term : ℕ) → Office g h → Office g (adopt_term h term).0
  votes :
      (h : ReplicationState) (d : VoteDecision) (now : ℕ)
      → Office g h
      → Office g (install_decision h d now)
  grants_again :
      (h : ReplicationState) (asker_term asked secs now : ℕ)
      → Office g h
      → Office g (grant_novote h asker_term asked secs now).0

Office-keeps_silence :
    (g h : ReplicationState) (t : ℕ) → Office g h → IsSilentUntil g t → IsSilentUntil h t
unfolding apply_demotion relinquish_leadership adopt_term install_decision stood_down grant_novote
Office-keeps_silence g h t as_granted s = s
Office-keeps_silence g h t (is_deposed k term now o) s =
    let ih = Office-keeps_silence g k t o s in ground arith
Office-keeps_silence g h t (resigns k o) s = let ih = Office-keeps_silence g k t o s in ground arith
Office-keeps_silence g h t (adopts k term o) s =
    let ih = Office-keeps_silence g k t o s in ground arith
Office-keeps_silence g h t (votes k d now o) s =
    let ih = Office-keeps_silence g k t o s in ground arith
Office-keeps_silence g h t (grants_again k asker asked secs now o) s =
    let ih = Office-keeps_silence g k t o s in ground arith

-- No vote is granted by a reply.
abbrev pub GrantsNothing : VoteReply → Type 0
GrantsNothing forbidden = Unit
GrantsNothing internal_error = Unit
GrantsNothing (ok r) = r.vote_granted ≡ false

recorded_refusal :
    (n : Node) (d : VoteDecision) (o : WriteOutcome) (now : ℕ)
    → d.granted ≡ false
    → (record_vote n d o now).1.vote_granted ≡ false
unfolding record_vote vote_saved vote_recorded
recorded_refusal n d o now h = ground arith

refuses_withheld :
    (cur_term : ℕ) (cur : Option Bytes) (logs : Assoc LogTail) (tail : LogTail)
    (config : Option Configuration) (req : VoteRequest)
    → (decide_vote cur_term cur logs tail config req true).granted ≡ false
unfolding decide_vote grants
refuses_withheld cur_term cur logs tail config req = ground arith

silent_vote :
    (is_shard in_quorum : Bool) (n : Node) (own : Bytes) (tails : Option (Assoc LogTail))
    (counters : LogTail) (s : VoteSample) (followed : ReplicationState) (req : VoteRequest)
    (secs now decided_at : ℕ) (o : WriteOutcome)
    → must_withhold_vote s followed own req secs now ≡ true
    → GrantsNothing
        (vote_handler is_shard in_quorum n own tails counters s followed req secs now decided_at
          o).1
unfolding vote_handler
silent_vote s q n own none counters v followed req secs now at o m = ground arith
silent_vote s q n own (some logs) counters v followed req secs now at o m =
    let summary = log_summary logs counters in
    let r =
      recorded_refusal n
        (decide_vote n.repl.term n.repl.voted_for logs summary v.my_config req true) o at
        (refuses_withheld n.repl.term n.repl.voted_for logs summary v.my_config req) in
    elim (Bool-cases (not s || not q)) [ inl e ↦ rw e tt | inr e ↦ rw (e, m) r ]

sample_withholds :
    (h followed : ReplicationState) (own : Bytes) (req : VoteRequest) (secs t sampled_at now : ℕ)
    → IsSilentUntil h t
    → now < t
    → honours_transfer followed own req.transfer_from ≡ false
    → must_withhold_vote (sample_vote h sampled_at) followed own req secs now ≡ true
unfolding must_withhold_vote sample_vote withholds_vote
sample_withholds h followed own req secs t sampled_at now s lt f = ground arith

silent_pre_vote :
    (is_shard in_quorum : Bool) (n : Node) (tails : Option (Assoc LogTail)) (counters : LogTail)
    (req : VoteRequest) (secs now : ℕ)
    → withholds n.repl secs now ≡ true
    → GrantsNothing (pre_vote_handler is_shard in_quorum n tails counters req secs now)
unfolding pre_vote_handler decide_pre_vote grants
silent_pre_vote s q n none counters req secs now w = ground arith
silent_pre_vote s q n (some logs) counters req secs now w = ground arith

-- A promise of silence is kept by every vote that is sampled after it. A voter granted a probing
-- leader `granted` nanoseconds of silence at `asked_at`; since then it may have been deposed,
-- stepped down, taken a higher term, voted, forgotten its contact, or granted again. A vote that
-- samples that state and tests it before the deadline is not granted to a candidate that the
-- node's leader did not hand its office to, in whatever state the write lock then finds the node;
-- and a pre-vote at such a time is not granted.
pub granted_silence_is_kept :
    (g : ReplicationState) (asker_term asked secs asked_at : ℕ) (h followed : ReplicationState)
    (sampled_at now decided_at : ℕ) (is_shard in_quorum : Bool) (n : Node) (disk : Disk)
    (own : Bytes) (tails : Option (Assoc LogTail)) (counters : LogTail) (req : VoteRequest)
    (o : WriteOutcome)
    → 0 < (grant_novote g asker_term asked secs asked_at).1
    → Office (grant_novote g asker_term asked secs asked_at).0 h
    → now < asked_at + (grant_novote g asker_term asked secs asked_at).1
    → (honours_transfer followed own req.transfer_from ≡ false
        → GrantsNothing
            (vote_handler is_shard in_quorum n own tails counters
              (sample_vote h sampled_at)
              followed
              req
              secs
              now
              decided_at
              o).1)
      × GrantsNothing (
          pre_vote_handler is_shard in_quorum
            (record { repl = h; disk = disk })
            tails
            counters
            req
            secs
            now)
granted_silence_is_kept g asker_term asked secs asked_at h followed sampled_at now decided_at s q n
      disk own tails counters req o pos f lt =
    let r = grant_novote g asker_term asked secs asked_at in
    let silent =
      Office-keeps_silence r.0 h (asked_at + r.1) f
        (grant_sets_deadline g asker_term asked secs asked_at pos) in
    (
      λ t.
          silent_vote s q n own tails counters (sample_vote h sampled_at) followed req secs now
            decided_at o
            (sample_withholds h followed own req secs (asked_at + r.1) sampled_at now silent lt t),
      silent_pre_vote s q (record { repl = h; disk = disk }) tails counters req secs now
          (silent_withholds h secs (asked_at + r.1) now silent lt),
    )
