-- ===== src/Consensus/Lease/Exclude.antt =====
-- While a leader holds its lease no election can complete without it.
use dewdb.Prelude.{
  ℕ, ◌≡◌, refl, Bool, true, false, not, ◌&&◌, ◌||◌, List, [], ◌∷◌, Bytes, arith, all, leb, is_empty,
  Bool-cases, inl, inr, any_witness, and_left, and_right,
}
use dewdb.Util.Endpoint.{same_endpoint}
use dewdb.Util.Endpoint.Laws.{same_endpoint_congr, same_endpoint_comm}
use dewdb.Consensus.Config.{Configuration, counts, has_quorum}
use dewdb.Consensus.Config.Quorum.{quorums_intersect}
use dewdb.Consensus.Lease.{Leases, live, promised, held}

-- Every deadline that the leader holds for the node `g` has passed.
abbrev pub deadlines_passed : Leases → ℕ → Bytes → Bool
deadlines_passed [] now g = true
deadlines_passed ((voter, p) ∷ l) now g =
    (not (same_endpoint voter g) || leb p.until now) && deadlines_passed l now g

-- `g` is not the leader, and owes it no silence at `now`.
abbrev pub may_grant : Leases → Bytes → ℕ → Bytes → Bool
may_grant l own now g = not (same_endpoint g own) && deadlines_passed l now g

not_promised :
    (l : Leases) (own : Bytes) (now wall : ℕ) (g : Bytes)
    → deadlines_passed l now g ≡ true
    → counts (promised l own now wall) g ≡ false
unfolding promised live
not_promised [] own now wall g h = refl
not_promised ((voter, p) ∷ l) own now wall g h = ground (arith, not_promised l own now wall g)

granter :
    (l : Leases) (own : Bytes) (now : ℕ) (v : Bytes) (granted : List Bytes)
    → all (may_grant l own now) granted ≡ true
    → counts granted v ≡ true
    → (g : Bytes) × (same_endpoint g v ≡ true) × (may_grant l own now g ≡ true)
granter l own now v [] h k = absurd (ground arith)
granter l own now v (g ∷ gs) h k = elim (Bool-cases (same_endpoint g v)) [
  | inl e ↦ (g, e, and_left (may_grant l own now g) (all (may_grant l own now) gs) h)
  | inr e ↦
      granter l own now v gs (and_right (may_grant l own now g) (all (may_grant l own now) gs) h)
        (ground arith)
]

not_counted :
    (l : Leases) (own : Bytes) (now wall : ℕ) (g v : Bytes)
    → same_endpoint g v ≡ true
    → may_grant l own now g ≡ true
    → counts (own ∷ promised l own now wall) v ≡ false
not_counted l own now wall g v e m = ground (
  arith,
  e,
  m,
  not_promised l own now wall g,
  dewdb.Consensus.Config.Distinct.counts_congr g v (promised l own now wall) e,
  same_endpoint_congr g v own e,
  same_endpoint_comm own v,
)

-- A lease excludes elections. While `held` answers true, nodes that are not the leader and whose
-- promised silence has run out by the leader's own count do not make up a quorum.
pub lease_excludes_election :
    (l : Leases) (c : Configuration) (own : Bytes) (now wall : ℕ) (granted : List Bytes)
    → is_empty c.voters ≡ false
    → held l c own now wall ≡ true
    → all (may_grant l own now) granted ≡ true
    → has_quorum c granted ≡ false
unfolding held
lease_excludes_election l c own now wall granted ne h free =
    elim (Bool-cases (has_quorum c granted)) [
      | inr e ↦ e
      | inl e ↦
          let leased = own ∷ promised l own now wall in
          let (v, both) =
            any_witness (λ v. counts leased v && counts granted v) c.voters
              (quorums_intersect c leased granted ne h e) in
          let (g, same, may) =
            granter l own now v granted free
              (and_right (counts leased v) (counts granted v) both) in
          absurd (ground (arith, not_counted l own now wall g v same may, both))
    ]
