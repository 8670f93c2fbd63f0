-- ===== src/Consensus/Progress/Cursor.antt =====
-- The send cursors of src/consensus/progress.rs.
use dewdb.Prelude.{
  ℕ, ◌≤◌, ◌≡◌, refl, ◌∙◌, true, false, List, [], ◌∷◌, Bytes, arith, Option, none, some, unwrap_or,
  ◌&&◌, if◌then◌else◌, bytes_eq, bytes_eq_iff, max, min, Bool-cases, inl, inr, any, is_some,
}
use dewdb.Prelude.Assoc.{
  Assoc, lookup, insert, lookup-insert, lookup_two, lookup_two-insert_two, raised-raise_two,
  lookup-nil, lookup-cons,
}
use dewdb.Consensus.Progress.{
  Progress, reinit_as_leader, seed_replicas, seed_replica, seed_cursors, sent_through, note_sent,
  rewind_to,
}

-- No key of the map stands twice: it is the contents of a `HashMap`.
abbrev pub HasUniqueKeys {ℓ} : {V : Type ℓ} → Assoc V → Type 0
HasUniqueKeys [] = Unit
HasUniqueKeys ((k, v) ∷ m) = (is_some (lookup k m) ≡ false) × HasUniqueKeys m

-- Where a cursor starts: at the hint, lowered to this node's own tail; at the tail without one.
abbrev pub seeded : Option (Assoc ℕ) → Bytes → ℕ → ℕ
seeded hints collection tail =
    min (unwrap_or (elim hints [ none ↦ none | some m ↦ lookup collection m ]) tail) tail

seed_cursors_lem :
    (hints : Option (Assoc ℕ)) (tails per : Assoc ℕ) (c : Bytes)
    → HasUniqueKeys tails
    → lookup c (seed_cursors hints tails per)
      ≡ (elim (lookup c tails) [ none ↦ lookup c per | some t ↦ some (seeded hints c t) ])
unfolding seed_cursors
seed_cursors_lem hints [] per c h = rw (lookup-nil c)
seed_cursors_lem hints ((k, t) ∷ tails) per c h = ground (
  arith,
  h.0,
  bytes_eq_iff k c,
  lookup-insert k c (seeded hints k t) per,
  lookup-cons c k t tails,
  seed_cursors_lem hints tails (insert k (seeded hints k t) per) c h.1,
)

module _ (tails : Assoc ℕ) (hints : Assoc (Assoc ℕ)) (now : ℕ) (u : HasUniqueKeys tails) where
  seed_replica_lem :
      (p : Progress) (x r c : Bytes)
      → lookup_two r c (seed_replica tails hints now x p).sent_through ≡ (
          if bytes_eq x r
          then lookup c
              (seed_cursors (lookup x hints) tails (unwrap_or (lookup x p.sent_through) []))
          else lookup_two r c p.sent_through)
  unfolding seed_replica
  seed_replica_lem p x r c =
      let per = seed_cursors (lookup x hints) tails (unwrap_or (lookup x p.sent_through) []) in
      ground (arith, lookup-insert x r per p.sent_through)

  seed_replicas_other :
      (replicas : List Bytes) (p : Progress) (r c : Bytes)
      → any (λ x. bytes_eq x r) replicas ≡ false
      → lookup_two r c (seed_replicas replicas tails hints now p).sent_through
        ≡ lookup_two r c p.sent_through
  unfolding seed_replicas
  seed_replicas_other [] p r c h = refl
  seed_replicas_other (x ∷ xs) p r c h =
      let ih = seed_replicas_other xs (seed_replica tails hints now x p) r c in
      ground (arith, ih, seed_replica_lem p x r c)

  seed_replicas_self :
      (replicas : List Bytes) (p : Progress) (r c : Bytes) (t : ℕ)
      → any (λ x. bytes_eq x r) replicas ≡ true
      → lookup c tails ≡ some t
      → lookup_two r c (seed_replicas replicas tails hints now p).sent_through
        ≡ some (seeded (lookup r hints) c t)
  unfolding seed_replicas
  seed_replicas_self [] p r c t h e = absurd (ground arith)
  seed_replicas_self (x ∷ xs) p r c t h e =
      let p' = seed_replica tails hints now x p in
      let old : Assoc ℕ = unwrap_or (lookup x p.sent_through) [] in
      elim (Bool-cases (any (λ y. bytes_eq y r) xs)) [
        | inl later ↦ seed_replicas_self xs p' r c t later e
        | inr last ↦
            seed_replicas_other xs p' r c last
            ∙ ground (
              arith,
              seed_replica_lem p x r c,
              seed_cursors_lem (lookup x hints) tails old c u,
              bytes_eq_iff x r,
            )
      ]

-- A new leader's cursor for a replica and a collection of its own starts at the persisted hint,
-- lowered to the leader's own tail, and at that tail where there is no hint: never above the tail.
pub reinit_seeds_cursors :
    (p : Progress) (replicas : List Bytes) (tails applied : Assoc ℕ) (hints : Assoc (Assoc ℕ))
    (now : ℕ) (replica collection : Bytes) (tail : ℕ)
    → HasUniqueKeys tails
    → any (λ x. bytes_eq x replica) replicas ≡ true
    → lookup collection tails ≡ some tail
    → (v : ℕ) × (sent_through
          (reinit_as_leader p replicas tails applied hints now)
          replica
          collection
        ≡ some v)
      × (v ≡ min (unwrap_or (lookup_two replica collection hints) tail) tail)
      × (v ≤ tail)
unfolding sent_through reinit_as_leader
reinit_seeds_cursors p replicas tails applied hints now replica collection tail u m e = (
  seeded (lookup replica hints) collection tail,
  seed_replicas_self tails hints now u replicas _ replica collection tail m e,
  refl,
  omega arith,
)

-- A send moves a cursor forward only, a rewind moves it to the tail that the replica reported, and
-- neither touches another cursor.
pub cursor_moves :
    (p : Progress) (replica collection r c : Bytes) (lsn : ℕ)
    → (unwrap_or (sent_through (note_sent p replica collection lsn) r c) 0 ≡ (
        if bytes_eq replica r && bytes_eq collection c
        then max (unwrap_or (sent_through p r c) 0) lsn
        else unwrap_or (sent_through p r c) 0))
      × (sent_through (rewind_to p replica collection lsn) r c
          ≡ (if bytes_eq replica r && bytes_eq collection c then some lsn else sent_through p r c))
unfolding sent_through note_sent rewind_to
cursor_moves p replica collection r c lsn = (
  raised-raise_two replica collection r c lsn p.sent_through,
  lookup_two-insert_two replica collection r c lsn p.sent_through,
)
