-- ===== src/Replication/WriteConcern/Enough.antt =====
-- How many nodes hold a write that src/replication/write_concern.rs reports as acknowledged.
use dewdb.Prelude.{
  ◌+◌, ◌-◌, ◌≤◌, ◌≡◌, refl, ap, ◌∙◌, Bool, true, false, ◌||◌, List, [], ◌∷◌, ◌++◌, Bytes, arith,
  length, is_empty, count, count_mono, any-append, Option, none, some, if◌then◌else◌,
}
use dewdb.Util.Endpoint.{same_endpoint}
use dewdb.Util.Endpoint.Laws.{same_endpoint_comm}
use dewdb.Consensus.Config.{
  Configuration, majority, voter_count, distinct, members, counts, has_quorum, half_has_quorum,
  push_distinct, canonical,
}
use dewdb.Consensus.Config.Distinct.{
  IsDistinctAfter, distinct-IsDistinct, counts_congr, distinct_nonempty, canonical-eq-distinct,
  counts-distinct,
}
use dewdb.Consensus.Config.Quorum.{Shared, quorums_intersect}
use dewdb.Consensus.Config.Lsn.{HasVoters}
use mathlib.Core.List.{append-nil}
use dewdb.Replication.WriteConcern.{
  majority_of, required_acks, majority_in, write_quorum, met, required,
}

-- Of voters that name different nodes, one holder counts at most one.
single_count :
    (g : Bytes) (before vs : List Bytes)
    → IsDistinctAfter before vs
    → count (λ v. same_endpoint g v) vs ≤ (if counts before g then 0 else 1)
single_count g before [] d = ground arith
single_count g before (v ∷ vs) d =
    let ih = single_count g (before ++ v ∷ []) vs d.1 in
    ground (
      arith,
      any-append (λ w. same_endpoint w g) before (v ∷ []),
      same_endpoint_comm g v,
      counts_congr g v before,
    )

count_either :
    (p q : Bytes → Bool) (vs : List Bytes) → count (λ v. p v || q v) vs ≤ count p vs + count q vs
count_either p q [] = omega arith
count_either p q (v ∷ vs) = ground (arith, count_either p q vs)

count_none : (vs : List Bytes) → count (counts []) vs ≡ 0
count_none [] = refl
count_none (v ∷ vs) = count_none vs

count_holders :
    (holders vs : List Bytes) → IsDistinctAfter [] vs → count (counts holders) vs ≤ length holders
count_holders [] vs d = ground (arith, count_none vs)
count_holders (g ∷ holders) vs d =
    let one = single_count g [] vs d in
    let rest = count_holders holders vs d in
    let both = count_either (λ v. same_endpoint g v) (counts holders) vs in ground arith

same_count :
    (holders : List Bytes) (v : Bytes)
    → counts holders v ≡ true
    → counts (distinct holders) v ≡ true
same_count holders v h = counts-distinct holders v ∙ h

-- Holders that name one node count once.
count_nodes :
    (holders vs : List Bytes)
    → IsDistinctAfter [] vs
    → count (counts holders) vs ≤ length (distinct holders)
count_nodes holders vs d = omega (
  arith,
  count_mono (counts holders) (counts (distinct holders)) vs (λ v. same_count holders v),
  count_holders (distinct holders) vs d,
)

half_needs :
    (voters holders : List Bytes)
    → is_empty voters ≡ false
    → half_has_quorum voters holders ≡ true
    → majority (voter_count voters) ≤ length (distinct holders)
unfolding half_has_quorum voter_count
half_needs voters holders ne h =
    let n = distinct_nonempty voters ne in
    let c = count_nodes holders (distinct voters) (distinct-IsDistinct voters) in ground arith

majority_held :
    (vs : List Bytes) (o : Option (List Bytes)) (holders : List Bytes)
    → let c : Configuration = record { voters = vs; outgoing = o } in
      HasVoters c
      → has_quorum c holders ≡ true
      → (1 ≤ required (majority_in c)) × (required (majority_in c) ≤ length (distinct holders))
unfolding required has_quorum majority
majority_held vs none holders v m = ground (arith, half_needs vs holders v.0)
majority_held vs (some old) holders v m =
    ground (arith, half_needs vs holders v.0, half_needs old holders v.1)

-- A write for a majority is reported as acknowledged only if the holders name at least as many
-- different nodes as the client is told it needs, which is at least one: a node under two
-- spellings of its url counts once, and while a change is in flight both halves count. Every
-- quorum of the configuration, such as one that elects a leader, then counts a voter that holds
-- the write.
pub met_holds_required :
    (c : Configuration) (holders later : List Bytes)
    → HasVoters c
    → met (write_quorum majority_of c) holders ≡ true
    → has_quorum c later ≡ true
    → (1 ≤ required (write_quorum majority_of c))
      × (required (write_quorum majority_of c) ≤ length (distinct holders))
      × Shared c.voters holders later
met_holds_required c holders later v m k =
    let met_is_quorum : has_quorum c holders ≡ true = (unfold met write_quorum in m) in
    let held = majority_held c.voters c.outgoing holders v met_is_quorum in
    (
      unfold write_quorum in held.0,
      unfold write_quorum in held.1,
      quorums_intersect c holders later v.0 met_is_quorum k,
    )

members_simple : (c : Configuration) → c.outgoing ≡ none → members c ≡ distinct c.voters
unfolding members
members_simple c e = rw e (
    ap (push_distinct []) (append-nil c.voters)
    ∙ (unfold canonical in canonical-eq-distinct c.voters))

-- Outside a change, the majority that a write waits for is the count that `required_acks` gives for
-- the members other than this node.
pub majority_is_required_acks :
    (c : Configuration)
    → HasVoters c
    → c.outgoing ≡ none
    → required (write_quorum majority_of c) ≡ required_acks majority_of (length (members c) - 1)
unfolding required write_quorum required_acks majority voter_count
majority_is_required_acks c v e =
    let n = distinct_nonempty c.voters v.0 in rw (members_simple c e, e) (ground arith)
