-- ===== src/Replication/Budget.antt =====
-- src/replication/budget.rs: whether a peer is sent to. A peer whose last request failed in
-- transport is only probed, on a widening interval. Times are nanoseconds. The slots themselves
-- are a semaphore, and waiting for one is left out.
pub mod Probing
use dewdb.Prelude.{
  ℕ, ◌+◌, ◌-◌, ◌*◌, ◌^◌, Bool, true, false, not, ◌&&◌, ◌||◌, leb, ltb, if◌then◌else◌, min, max,
  Option, none, some,
}

abbrev pub probe_backoff_base : ℕ
probe_backoff_base = 100_000_000

abbrev pub probe_backoff_cap : ℕ
probe_backoff_cap = 2_000_000_000

unfoldable pub probe_backoff : ℕ → ℕ
probe_backoff failures = min (probe_backoff_base * 2 ^ min (failures - 1) 16) probe_backoff_cap

pub record Health : Type 0 where
  pub unreachable : Bool
  pub failures : ℕ
  pub retry_at : Option ℕ
  pub probing : Bool

-- `Health::default()`
abbrev pub healthy : Health
healthy = record { unreachable = false; failures = 0; retry_at = none; probing = false }

pub data Admission : Type 0 where
  normal probe skip : Admission

-- `retry_at.is_some_and(|at| now < at)`
abbrev pub too_early : Option ℕ → ℕ → Bool
too_early none now = false
too_early (some at) now = ltb now at

-- `retry_at.map_or(true, |at| now >= at)`
abbrev pub is_due : Option ℕ → ℕ → Bool
is_due none now = true
is_due (some at) now = leb at now

unfoldable pub admission : Health → ℕ → Health × Admission
admission h now =
    if not h.unreachable
    then (h, normal)
    else if h.probing || too_early h.retry_at now
    then (h, skip)
    else (record h { probing = true }, probe)

unfoldable pub admits : Health → ℕ → Bool
admits h now = not h.unreachable || (not h.probing && is_due h.retry_at now)

-- The health after a request, by whether the peer answered it; `failures` is a 32-bit word that
-- stops at its largest value.
unfoldable pub after_request : Health → Bool → Bool → ℕ → Health
after_request h is_probe answered now =
    let failures = min (h.failures + 1) 4_294_967_295 in
    if answered
    then healthy
    else if is_probe || not h.unreachable
    then record {
      unreachable = true;
      failures = failures;
      retry_at = some (now + probe_backoff failures);
      probing = h.probing;
    }
    else h

unfoldable pub settle : Health → Bool → Bool → ℕ → Health
unfolding after_request
settle h is_probe answered now =
    let after = after_request h is_probe answered now in
    if is_probe then record after { probing = false } else after

-- `Drop for PeerSlot`
unfoldable pub drop_slot : Health → Bool → Health
drop_slot h is_probe = if is_probe then record h { probing = false } else h
