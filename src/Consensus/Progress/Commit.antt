-- ===== src/Consensus/Progress/Commit.antt =====
-- The commit watermark of src/consensus/progress.rs: it moves forward only, to what a quorum
-- holds, and only past this leader's own first append.
use dewdb.Prelude.{
  ℕ, ◌≤◌, ◌<◌, ◌≡◌, ◌≢◌, refl, List, [], ◌∷◌, Bytes, arith, none, some, unwrap_or, if◌then◌else◌,
  bytes_eq, bytes_eq_iff, bytes_eq_refl, max, ◌&&◌,
}
use dewdb.Prelude.Assoc.{
  Assoc, lookup, lookup-insert, or_insert, raised-raise_two, lookup-or_insert,
}
use dewdb.Consensus.Config.{Configuration, quorum_lsn}
use dewdb.Consensus.Config.Lsn.{QuorumHolds, HasVoters, quorum_lsn_iff}
use dewdb.Consensus.Progress.{
  Progress, advance, committed, term_floor, held_by, matched, observe_ack, reinit_as_leader,
  seed_replicas, seed_replica, note_leader_append,
}

module _ (p : Progress) (collection own : Bytes) (durable : ℕ) (c : Configuration) where
  advance_stores :
      committed (advance p collection own durable c).0 collection
      ≡ (advance p collection own durable c).1
  unfolding advance committed
  advance_stores = simp (lookup-insert, bytes_eq_refl)

  advance_forward : committed p collection ≤ (advance p collection own durable c).1
  unfolding advance committed
  advance_forward = ground arith

  advance_moves :
      committed p collection < (advance p collection own durable c).1
      → ((advance p collection own durable c).1 ≡ quorum_lsn c (held_by p collection own durable))
        × ((f : ℕ) × (term_floor p collection ≡ some f)
            × (f ≤ (advance p collection own durable c).1))
  unfolding advance committed term_floor
  advance_moves h = ground arith

  advance_elsewhere :
      (other : Bytes)
      → other ≢ collection
      → committed (advance p collection own durable c).0 other ≡ committed p other
  unfolding advance committed
  advance_elsewhere other h = simp lookup-insert (ground (arith, bytes_eq_iff collection other))

-- Where `c` counts voters in each half, `advance` returns the watermark that it stores, never
-- moves it back, and leaves those of the other collections alone; and if it moves it, a majority
-- of each half holds the new position, which is at or above this leader's first append.
pub advance_commits_quorum :
    (p : Progress) (collection own : Bytes) (durable : ℕ) (c : Configuration)
    → HasVoters c
    → let (p', r) = advance p collection own durable c in
      (committed p' collection ≡ r)
      × (committed p collection ≤ r)
      × (committed p collection < r
          → QuorumHolds (held_by p collection own durable) r c
            × ((f : ℕ) × (term_floor p collection ≡ some f) × (f ≤ r)))
      × ((other : Bytes) → other ≢ collection → committed p' other ≡ committed p other)
advance_commits_quorum p collection own durable c h = (
  advance_stores p collection own durable c,
  advance_forward p collection own durable c,
  λ moved.
      let m = advance_moves p collection own durable c moved in
      (
        (quorum_lsn_iff c (held_by p collection own durable) (advance p collection own durable c).1
              h).0
            (omega (arith, m.0)),
        m.1,
      ),
  advance_elsewhere p collection own durable c,
)

-- After `observe_ack` a replica's position is the higher of what it was and what it acknowledged,
-- and no other replica's or collection's position has changed.
pub matched-observe_ack :
    (p : Progress) (replica collection r c : Bytes) (lsn : ℕ)
    → matched (observe_ack p replica collection lsn) r c ≡ (
        if bytes_eq replica r && bytes_eq collection c
        then max (matched p r c) lsn
        else matched p r c)
unfolding matched observe_ack
matched-observe_ack p replica collection r c lsn =
    raised-raise_two replica collection r c lsn p.matched

module _ (own_tails : Assoc ℕ) (hints : Assoc (Assoc ℕ)) (now : ℕ) where
  seed_replicas_keeps :
      (replicas : List Bytes) (p : Progress)
      → ((seed_replicas replicas own_tails hints now p).committed ≡ p.committed)
        × ((seed_replicas replicas own_tails hints now p).matched ≡ p.matched)
        × ((seed_replicas replicas own_tails hints now p).term_floor ≡ p.term_floor)
  unfolding seed_replicas seed_replica
  seed_replicas_keeps [] p = (refl, refl, refl)
  seed_replicas_keeps (r ∷ rs) p = seed_replicas_keeps rs _

-- A new leader commits nothing on inherited evidence: after `reinit_as_leader` no replica counts
-- as holding anything, and `advance` returns the position that was applied before, whatever is
-- durable and whatever the configuration, until the leader appends an entry of its own.
pub reinit_commits_nothing :
    (p : Progress) (replicas : List Bytes) (own_tails applied : Assoc ℕ) (hints : Assoc (Assoc ℕ))
    (now : ℕ) (collection own : Bytes) (durable : ℕ) (c : Configuration)
    → let p' = reinit_as_leader p replicas own_tails applied hints now in
      ((r : Bytes) → matched p' r collection ≡ 0)
      × ((advance p' collection own durable c).1 ≡ unwrap_or (lookup collection applied) 0)
unfolding reinit_as_leader advance matched lookup
reinit_commits_nothing p replicas own_tails applied hints now collection own durable c =
    let (k, m, f) = seed_replicas_keeps own_tails hints now replicas cleared in
    (λ r. rw m, rw (f, k))
  where
    cleared : Progress
    cleared = record p {
      matched = [];
      sent_through = [];
      term_floor = [];
      contacted = [];
      committed = applied;
    }

-- The floor is the first append of the term: a later `note_leader_append` does not move it.
pub first_append_is_floor :
    (p : Progress) (collection : Bytes) (first later : ℕ)
    → term_floor p collection ≡ none
    → term_floor
        (note_leader_append (note_leader_append p collection first) collection later)
        collection
      ≡ some first
unfolding term_floor note_leader_append
first_append_is_floor p collection first later h = ground (
  arith,
  h,
  lookup-or_insert collection collection first p.term_floor,
  lookup-or_insert collection collection later (or_insert collection first p.term_floor),
  bytes_eq_refl collection,
)
