-- ===== src/Replication/Budget/Probing.antt =====
-- No peer is given up on: the probes of src/replication/budget.rs under any order of requests,
-- answers, failures and cancellations.
use dewdb.Prelude.{
  ℕ, suc, ◌+◌, ◌-◌, ◌≤◌, ◌<◌, ◌≡◌, ◌≢◌, Bool, true, false, min, max, none, some, arith,
}
use dewdb.Replication.Budget.{
  probe_backoff, probe_backoff_cap, Health, healthy, Admission, normal, probe, skip, admission,
  admits, settle, after_request, drop_slot,
}

-- A peer, with the probes and the other requests that are out and the time of the last settle.
pub record Traffic : Type 0 where
  pub health : Health
  pub probes : ℕ
  pub others : ℕ
  pub last : ℕ

abbrev pub quiet : Traffic
quiet = record { health = healthy; probes = 0; others = 0; last = 0 }

abbrev pub admitted : Traffic → Health × Admission → Traffic
admitted t (h, normal) = record t { health = h; others = suc t.others }
admitted t (h, probe) = record t { health = h; probes = suc t.probes }
admitted t (h, skip) = record t { health = h }

pub data Event : Traffic → Traffic → Type 0 where
  asks : (t : Traffic) (now : ℕ) → Event t (admitted t (admission t.health now))
  probe_settles :
      (t : Traffic) (answered : Bool) (now : ℕ)
      → 0 < t.probes
      → Event t (record {
        health = settle t.health true answered now;
        probes = t.probes - 1;
        others = t.others;
        last = max t.last now;
      })
  other_settles :
      (t : Traffic) (answered : Bool) (now : ℕ)
      → 0 < t.others
      → Event t (record {
        health = settle t.health false answered now;
        probes = t.probes;
        others = t.others - 1;
        last = max t.last now;
      })
  probe_dropped :
      (t : Traffic)
      → 0 < t.probes
      → Event t (record t { health = drop_slot t.health true; probes = t.probes - 1 })
  other_dropped :
      (t : Traffic)
      → 0 < t.others
      → Event t (record t { health = drop_slot t.health false; others = t.others - 1 })

pub data Run : Traffic → Type 0 where
  start : Run quiet
  after : (t u : Traffic) → Run t → Event t u → Run u

-- A peer that is marked as being probed has a probe out, and no retry is due later than the cap.
abbrev IsAlive : Traffic → Type 0
IsAlive t =
    (t.health.probing ≡ true → 0 < t.probes)
    × (elim t.health.retry_at [ none ↦ Unit | some at ↦ at ≤ t.last + probe_backoff_cap ])

backoff_capped : (failures : ℕ) → probe_backoff failures ≤ probe_backoff_cap
unfolding probe_backoff
backoff_capped failures = ground arith

Event-IsAlive : (t u : Traffic) → Event t u → IsAlive t → IsAlive u
unfolding admission settle after_request drop_slot
Event-IsAlive t u (asks _ now) a = ground arith
Event-IsAlive t u (probe_settles _ answered now out) a =
    let cap = backoff_capped (min (t.health.failures + 1) 4_294_967_295) in ground arith
Event-IsAlive t u (other_settles _ answered now out) a =
    let cap = backoff_capped (min (t.health.failures + 1) 4_294_967_295) in ground arith
Event-IsAlive t u (probe_dropped _ out) a = ground arith
Event-IsAlive t u (other_dropped _ out) a = ground arith

Run-IsAlive : (t : Traffic) → Run t → IsAlive t
Run-IsAlive t start = ground arith
Run-IsAlive t (after s u r e) = Event-IsAlive s u e (Run-IsAlive s r)

-- No peer is given up on. However requests were admitted, answered, failed and cancelled before,
-- once no probe is out, the peer is admitted at any time from two seconds after the last request
-- settled: as a normal request or as a probe, and `admits` says so before it is asked.
pub peer_is_probed_again :
    (t : Traffic) (now : ℕ)
    → Run t
    → t.probes ≡ 0
    → t.last + 2_000_000_000 ≤ now
    → (admits t.health now ≡ true) × ((admission t.health now).1 ≢ skip)
unfolding admits admission
peer_is_probed_again t now r out late = let alive = Run-IsAlive t r in (ground arith, ground arith)
