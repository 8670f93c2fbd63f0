-- ===== src/Consensus/Lease.antt =====
-- src/consensus/lease.rs: leader leases, and the voter side of them in src/state.rs
-- (`grant_novote`, `note_lease_grant`). Durations and clock readings are nanoseconds, handed in
-- where the source asks the clock.
pub mod Honour
pub mod Exclude
use dewdb.Prelude.{
  ℕ, ◌+◌, ◌-◌, ◌/◌, Bool, true, false, not, ◌&&◌, ◌||◌, List, [], ◌∷◌, Bytes, leb, ltb, ◌==◌,
  if◌then◌else◌, Option, none, some, min, max,
}
use dewdb.Prelude.Assoc.{Assoc, lookup, insert}
use dewdb.Util.Endpoint.{same_endpoint}
use dewdb.Consensus.Config.{Configuration, has_quorum}

-- `HEARTBEAT_POLL_INTERVAL_MS` of src/consensus/failover.rs, and `STALL_TOLERANCE`.
abbrev pub heartbeat_poll_interval : ℕ
heartbeat_poll_interval = 500_000_000

abbrev pub stall_tolerance : ℕ
stall_tolerance = 250_000_000

unfoldable pub refusal_window : ℕ → ℕ
refusal_window heartbeat_timeout = (heartbeat_timeout - heartbeat_poll_interval) / 2

-- `[a, b].into_iter().flatten().max()`
unfoldable pub newest : Option ℕ → Option ℕ → Option ℕ
newest none b = b
newest (some a) none = some a
newest (some a) (some b) = some (max a b)

-- `elapsed()` is the time from then to now, and stops at zero.
unfoldable pub contact_age : Option ℕ → Option ℕ → ℕ → Option ℕ
unfolding newest
contact_age last_heartbeat last_replication now = elim (newest last_heartbeat last_replication) [
  | none ↦ none
  | some t ↦ some (now - t)
]

unfoldable pub withholds_vote : Option ℕ → Option ℕ → ℕ → ℕ → ℕ → Bool
unfolding refusal_window
withholds_vote contact granted_until since_boot heartbeat_timeout now =
    let window = refusal_window heartbeat_timeout in
    ltb since_boot window
    || (elim contact [ none ↦ false | some age ↦ ltb age window ])
    || (elim granted_until [ none ↦ false | some until ↦ ltb now until ])

unfoldable pub grantable : Option ℕ → ℕ → ℕ
unfolding refusal_window
grantable none heartbeat_timeout = 0
grantable (some age) heartbeat_timeout = refusal_window heartbeat_timeout - age

unfoldable pub accept_promise : ℕ → ℕ → ℕ
unfolding refusal_window
accept_promise claimed heartbeat_timeout = min claimed (refusal_window heartbeat_timeout)

pub record Promise : Type 0 where
  pub until : ℕ
  pub at : ℕ
  pub at_wall : ℕ

unfoldable pub live : Promise → ℕ → ℕ → Bool
live p now wall_now =
    if leb p.until now then false else leb (wall_now - p.at_wall) (now - p.at + stall_tolerance)

abbrev pub Leases : Type 0
Leases = Assoc Promise

unfoldable pub note_promise : Leases → Bytes → ℕ → ℕ → ℕ → Leases
note_promise promises voter now wall_now promise =
    let until : ℕ = elim (lookup voter promises) [
      | some held ↦ max held.until (now + promise)
      | none ↦ now + promise
    ] in
    insert voter (record { until = until; at = now; at_wall = wall_now }) promises

-- The loop of `held`.
unfoldable pub promised : Leases → Bytes → ℕ → ℕ → List Bytes
promised [] own_url now wall_now = []
promised ((voter, p) ∷ rest) own_url now wall_now =
    if live p now wall_now && not (same_endpoint voter own_url)
    then voter ∷ promised rest own_url now wall_now
    else promised rest own_url now wall_now

unfoldable pub held : Leases → Configuration → Bytes → ℕ → ℕ → Bool
held promises config own_url now wall_now =
    has_quorum config (own_url ∷ promised promises own_url now wall_now)
