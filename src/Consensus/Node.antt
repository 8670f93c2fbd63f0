-- ===== src/Consensus/Node.antt =====
-- The operations of src/state.rs on the replication state: acknowledgements, commit positions,
-- promises and leases. A node without replication state (one that is no shard) answers zero, none
-- or false to each of them, and is left out here.
pub mod Ack
pub mod Silence
pub mod Backed
use dewdb.Prelude.{
  ℕ, ◌+◌, ◌*◌, Bool, true, false, not, ◌&&◌, ◌||◌, List, [], Bytes, leb, ltb, ◌==◌, if◌then◌else◌,
  is_some, min, max, Option, none, some,
}
use dewdb.Prelude.Assoc.{Assoc, lookup, insert}
use dewdb.Consensus.Config.{Configuration, contains}
use dewdb.Consensus.Progress
use dewdb.Consensus.Progress.{
  Progress, matched, max_committed, rewind_to, advance, observe_ack, note_contact, committed,
  term_floor, contact_quorum,
}
use dewdb.Consensus.Lease
use dewdb.Consensus.Lease.{contact_age, grantable, accept_promise, note_promise}
use dewdb.Consensus.State.{ReplicationState, quorum}

unfoldable pub leader_term : ReplicationState → Option ℕ
leader_term g = if g.is_leader then some g.term else none

unfoldable pub still_leading : ReplicationState → ℕ → Bool
unfolding leader_term
still_leading g term = elim (leader_term g) [ some t ↦ t == term | none ↦ false ]

unfoldable pub with_progress : ReplicationState → Progress → ReplicationState
with_progress g p = record g { progress = p }

-- The commit position after a change of the evidence, with the state that holds it.
unfoldable pub advance_commit : ReplicationState → Bytes → Bytes → ℕ → ReplicationState × ℕ
unfolding with_progress
advance_commit g own collection durable_lsn =
    let r = advance g.progress collection own durable_lsn (quorum g own) in
    (with_progress g r.0, r.1)

-- `note_ack` up to the position it hands to `apply_committed`.
unfoldable pub note_ack :
    ReplicationState → Bytes → Bytes → Bytes → ℕ → ℕ → ℕ → ℕ → ReplicationState × ℕ
unfolding with_progress advance_commit
note_ack g own replica collection lsn ack_term leader_durable now =
    let p = observe_ack g.progress replica collection lsn in
    let g = with_progress g (if g.is_leader then note_contact p replica now else p) in
    if not g.is_leader || not (ack_term == g.term)
    then (g, committed g.progress collection)
    else advance_commit g own collection leader_durable

unfoldable pub advance_own_commit : ReplicationState → Bytes → Bytes → ℕ → ReplicationState × ℕ
unfolding advance_commit
advance_own_commit g own collection durable_lsn =
    if not g.is_leader
    then (g, committed g.progress collection)
    else advance_commit g own collection durable_lsn

unfoldable pub note_leader_append : ReplicationState → Bytes → ℕ → ReplicationState
unfolding with_progress
note_leader_append g collection lsn =
    if g.is_leader
    then with_progress g (Progress.note_leader_append g.progress collection lsn)
    else g

unfoldable pub has_term_floor : ReplicationState → Bytes → Bool
has_term_floor g collection = g.is_leader && is_some (term_floor g.progress collection)

unfoldable pub has_current_term_commit : ReplicationState → Bytes → Bool
has_current_term_commit g collection = elim (term_floor g.progress collection) [
  | some floor ↦ leb floor (committed g.progress collection)
  | none ↦ false
]

-- The position up to which a follower publishes, once the log is durable up to `durable`; none
-- where the position is not this follower's to take.
unfoldable pub note_leader_committed :
    ReplicationState → Bytes → ℕ → ℕ → Option ℕ → ℕ → ReplicationState × Option ℕ
note_leader_committed g collection term lsn matched durable =
    let found : ℕ × ℕ = elim (lookup collection g.leader_matched) [
      | some prefix ↦ prefix
      | none ↦ (term, 0)
    ] in
    let base : ℕ = if not (found.0 == term) then 0 else found.1 in
    let held : ℕ = elim matched [ some m ↦ max base (min m durable) | none ↦ base ] in
    if g.is_leader || not (g.term == term) then (g, none) else (
      record g { leader_matched = insert collection (term, held) g.leader_matched },
      some (min (min lsn held) durable),
    )

-- How long this node refuses votes for a probing leader, with the deadline it then holds.
unfoldable pub grant_novote : ReplicationState → ℕ → ℕ → ℕ → ℕ → ReplicationState × ℕ
grant_novote g asker_term asked heartbeat_timeout_secs now =
    let age = contact_age g.last_heartbeat g.last_replication now in
    let granted = min asked (grantable age (heartbeat_timeout_secs * 1_000_000_000)) in
    let until = now + granted in
    if ltb asker_term g.term || granted == 0 then (g, 0) else (
      record g {
        novote_until = some (elim g.novote_until [ some held ↦ max held until | none ↦ until ]);
      },
      granted,
    )

-- `config` is the voting set of `quorum_config`, which stands outside the lock.
unfoldable pub note_lease_grant :
    ReplicationState → Configuration → Bytes → ℕ → ℕ → ℕ → ℕ → ℕ → ReplicationState
note_lease_grant g config voter term sent sent_wall granted heartbeat_timeout_secs =
    let capped = accept_promise granted (heartbeat_timeout_secs * 1_000_000_000) in
    if granted == 0 || not (contains config voter)
    then g
    else if g.is_leader && g.term == term && not g.handing_over
    then record g { leases = note_promise g.leases voter sent sent_wall capped }
    else g

unfoldable pub holds_read_lease : ReplicationState → Configuration → Bytes → ℕ → ℕ → Bool
holds_read_lease g config own now wall_now =
    not g.handing_over && Lease.held g.leases config own now wall_now

unfoldable pub set_handing_over : ReplicationState → Bool → ReplicationState
set_handing_over g handing_over = record g { handing_over = handing_over }

unfoldable pub note_replica_contact : ReplicationState → Bytes → ℕ → ReplicationState
unfolding with_progress
note_replica_contact g replica now =
    if g.is_leader then with_progress g (note_contact g.progress replica now) else g

unfoldable pub holds_contact_quorum :
    ReplicationState → Configuration → Bytes → ℕ → ℕ → ReplicationState × Bool
unfolding with_progress
holds_contact_quorum g config own now within =
    let r = contact_quorum g.progress config own now within in (with_progress g r.0, r.1)

unfoldable pub committed_lsn : ReplicationState → Bytes → ℕ
committed_lsn g collection = committed g.progress collection

unfoldable pub matched_lsn : ReplicationState → Bytes → Bytes → ℕ
matched_lsn g replica collection = matched g.progress replica collection

unfoldable pub max_committed_lsn : ReplicationState → ℕ
max_committed_lsn g = max_committed g.progress

unfoldable pub rewind_replica : ReplicationState → Bytes → Bytes → ℕ → ReplicationState
unfolding with_progress
rewind_replica g replica collection lsn =
    with_progress g (rewind_to g.progress replica collection lsn)
