-- ===== src/Consensus/Node/Ack.antt =====
-- What an acknowledgement can commit (`note_ack` of src/state.rs).
use dewdb.Prelude.{
  ℕ, ◌≤◌, ◌<◌, ◌≡◌, refl, sym, Bool, true, false, not, ◌||◌, Bytes, arith, some, if◌then◌else◌,
  ◌==◌, Bool-cases, inl, inr,
}
use mathlib.Core.Path.{subst}
use dewdb.Consensus.Config.Lsn.{HasVoters, QuorumHolds}
use dewdb.Consensus.Progress.{
  Progress, advance, observe_ack, note_contact, committed, term_floor, held_by, matched,
}
use dewdb.Consensus.Progress.Commit.{advance_commits_quorum}
use dewdb.Consensus.State.{ReplicationState, quorum}
use dewdb.Consensus.Node.{note_ack, with_progress, advance_commit}

-- What `observe_ack` and `note_contact` leave as it is.
evidence_keeps :
    (p : Progress) (replica collection : Bytes) (lsn now : ℕ) (leads : Bool)
    → let p' : Progress =
        if leads
        then note_contact (observe_ack p replica collection lsn) replica now
        else observe_ack p replica collection lsn in
      (committed p' collection ≡ committed p collection)
      × (term_floor p' collection ≡ term_floor p collection)
      × (p'.matched ≡ (observe_ack p replica collection lsn).matched)
unfolding observe_ack note_contact committed term_floor
evidence_keeps p replica collection lsn now leads = ground arith

-- The state that `advance_commit` is asked in, and what it then returns.
module _ (g : ReplicationState) (own replica collection : Bytes)
    (lsn ack_term durable now : ℕ) where
  abbrev observed : ReplicationState
  observed = with_progress g (
      if g.is_leader
      then note_contact (observe_ack g.progress replica collection lsn) replica now
      else observe_ack g.progress replica collection lsn)

  ack_ignored :
      (not g.is_leader || not (ack_term == g.term)) ≡ true
      → note_ack g own replica collection lsn ack_term durable now
        ≡ (observed, committed observed.progress collection)
  unfolding note_ack with_progress
  ack_ignored h = rw (h, note_ack) refl

  ack_counted :
      (not g.is_leader || not (ack_term == g.term)) ≡ false
      → note_ack g own replica collection lsn ack_term durable now
        ≡ advance_commit observed own collection durable
  unfolding note_ack with_progress
  ack_counted h = rw (h, note_ack) refl

abbrev pub Answer : Type 0
Answer = ReplicationState × ℕ

-- The four parts of the theorem below, of the answer `r`.
abbrev pub CommitsWhatIsHeld : ReplicationState → Bytes → Bytes → ℕ → ℕ → Answer → Type 0
CommitsWhatIsHeld g own collection ack_term durable r =
    (committed r.0.progress collection ≡ r.1)
    × (committed g.progress collection ≤ r.1)
    × (committed g.progress collection < r.1
        → (g.is_leader ≡ true)
          × (ack_term ≡ g.term)
          × QuorumHolds (held_by r.0.progress collection own durable) r.1 (quorum g own)
          × ((f : ℕ) × (term_floor g.progress collection ≡ some f) × (f ≤ r.1)))

counted_answer :
    (g : ReplicationState) (p : Progress) (own collection : Bytes) (ack_term durable : ℕ)
    → HasVoters (quorum g own)
    → committed p collection ≡ committed g.progress collection
    → term_floor p collection ≡ term_floor g.progress collection
    → g.is_leader ≡ true
    → ack_term ≡ g.term
    → CommitsWhatIsHeld g own collection ack_term durable
        (advance_commit (with_progress g p) own collection durable)
unfolding advance_commit with_progress quorum advance matched
counted_answer g p own collection ack_term durable v c f leads current =
    let (stored, forward, moved, elsewhere) =
      advance_commits_quorum p collection own durable (quorum g own) v in
    (stored, rw c at forward, λ up. let m = moved (rw c up) in (leads, current, m.0, rw f at m.1))

-- What an acknowledgement commits. `note_ack` answers with the commit position that it leaves, and
-- never moves it back. It moves it only on a leader, only for an acknowledgement of the leader's
-- own term, and only to a position that a majority of each half of the voting set then holds, this
-- node by what it has made durable, at or above the leader's first append of its term.
pub note_ack_lem :
    (g : ReplicationState) (own replica collection : Bytes) (lsn ack_term durable now : ℕ)
    → HasVoters (quorum g own)
    → let r = note_ack g own replica collection lsn ack_term durable now in
      (committed r.0.progress collection ≡ r.1)
      × (committed g.progress collection ≤ r.1)
      × (committed g.progress collection < r.1
          → (g.is_leader ≡ true)
            × (ack_term ≡ g.term)
            × QuorumHolds (held_by r.0.progress collection own durable) r.1 (quorum g own)
            × ((f : ℕ) × (term_floor g.progress collection ≡ some f) × (f ≤ r.1)))
unfolding with_progress
note_ack_lem g own replica collection lsn ack_term durable now v =
    let (c, f, m) = evidence_keeps g.progress replica collection lsn now g.is_leader in
    elim (Bool-cases (not g.is_leader || not (ack_term == g.term))) [
      | inl e ↦
          subst commits (sym (ack_ignored g own replica collection lsn ack_term durable now e))
            (refl, ground (arith, c), λ up. absurd (ground (arith, c)))
      | inr e ↦
          subst commits (sym (ack_counted g own replica collection lsn ack_term durable now e)) (
            counted_answer g (observed g own replica collection lsn ack_term durable now).progress
              own collection ack_term durable v c f (ground arith) (ground arith))
    ]
  where
    commits : Answer → Type 0
    commits r = CommitsWhatIsHeld g own collection ack_term durable r
