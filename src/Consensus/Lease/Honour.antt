-- ===== src/Consensus/Lease/Honour.antt =====
-- The silence of a voter is bounded, and the promises that `note_promise` records, by voter.
use dewdb.Prelude.{
  ℕ, ◌≤◌, ◌+◌, ◌-◌, ◌*◌, ◌≡◌, false, Bytes, arith, none, some, max, bytes_eq_refl, bytes_eq_iff,
  ◌≢◌,
}
use dewdb.Prelude.Assoc.{lookup, lookup-insert}
use dewdb.Consensus.Lease.{
  Leases, Promise, refusal_window, withholds_vote, grantable, accept_promise, note_promise,
}

-- Silence ends. The refusal window is at most half the contact timeout, and a grant adds nothing to
-- it: half a timeout after its last contact, a voter that has been up that long withholds no vote,
-- whatever silence it granted since that contact.
pub silence_ends :
    (contact asked_at booted timeout now : ℕ)
    → contact ≤ asked_at
    → asked_at ≤ now
    → timeout ≤ 2 * (now - contact)
    → timeout ≤ 2 * (now - booted)
    → (2 * refusal_window timeout ≤ timeout)
      × (withholds_vote
            (some (now - contact))
            (some (asked_at + grantable (some (asked_at - contact)) timeout))
            (now - booted)
            timeout
            now
          ≡ false)
unfolding withholds_vote refusal_window grantable
silence_ends contact asked_at booted timeout now c a h b = (omega arith, ground arith)

pub note_promise_self :
    (l : Leases) (voter : Bytes) (sent wall granted : ℕ) (p : Promise)
    → lookup voter (note_promise l voter sent wall granted) ≡ some p
    → p.until ≡ (elim (lookup voter l) [
      | some held ↦ max held.until (sent + granted)
      | none ↦ sent + granted
    ])
unfolding note_promise
note_promise_self l voter sent wall granted p e =
    let until : ℕ = elim (lookup voter l) [
      | some held ↦ max held.until (sent + granted)
      | none ↦ sent + granted
    ] in
    let new : Promise = record { until = until; at = sent; at_wall = wall } in
    ground (arith, lookup-insert voter voter new l, bytes_eq_refl voter, e)

pub note_promise_other :
    (l : Leases) (voter other : Bytes) (sent wall granted : ℕ)
    → voter ≢ other
    → lookup other (note_promise l voter sent wall granted) ≡ lookup other l
unfolding note_promise
note_promise_other l voter other sent wall granted h =
    simp lookup-insert (ground (arith, bytes_eq_iff voter other))

pub accept_promise-le : (claimed timeout : ℕ) → accept_promise claimed timeout ≤ claimed
unfolding accept_promise
accept_promise-le claimed timeout = omega arith
