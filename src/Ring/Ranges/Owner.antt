-- ===== src/Ring/Ranges/Owner.antt =====
-- A shard map that `validate_shard_ring` of src/ring.rs accepts gives every hash one owner.
use dewdb.Prelude.{
  ℕ, ◌+◌, ◌<◌, ◌≡◌, refl, ◌∙◌, Bool, ◌&&◌, List, [], ◌∷◌, ◌++◌, Bytes, arith, leb, ltb,
  if◌then◌else◌, count,
}
use dewdb.Ring.Ranges.{
  ShardInfo, shard_owns, ring_size, ring_segments, Segment, owned_segments, segments,
  insert_segment, sort_segments, valid, cover, whole_ring, check_cover, validate_shard_ring,
}

abbrev pub covers : ℕ → Segment → Bool
covers h s = leb s.lo h && ltb h s.hi

abbrev AllNonempty : List Segment → Type 0
AllNonempty [] = Unit
AllNonempty (s ∷ xs) = (s.lo < s.hi) × AllNonempty xs

count-insert_segment :
    (p : Segment → Bool) (s : Segment) (xs : List Segment)
    → count p (insert_segment s xs) ≡ count p (s ∷ xs)
unfolding insert_segment
count-insert_segment p s [] = refl
count-insert_segment p s (x ∷ xs) = ground (arith, count-insert_segment p s xs)

count-sort_segments :
    (p : Segment → Bool) (xs : List Segment) → count p (sort_segments xs) ≡ count p xs
unfolding sort_segments
count-sort_segments p [] = refl
count-sort_segments p (s ∷ xs) =
    ground (arith, count-insert_segment p s (sort_segments xs), count-sort_segments p xs)

nonempty-insert :
    (s : Segment) (xs : List Segment)
    → s.lo < s.hi
    → AllNonempty xs
    → AllNonempty (insert_segment s xs)
unfolding insert_segment
nonempty-insert s [] h n = (h, tt)
nonempty-insert s (x ∷ xs) h n = ground (arith, nonempty-insert s xs)

nonempty-sort : (xs : List Segment) → AllNonempty xs → AllNonempty (sort_segments xs)
unfolding sort_segments
nonempty-sort [] n = tt
nonempty-sort (s ∷ xs) n = nonempty-insert s (sort_segments xs) n.0 (nonempty-sort xs n.1)

nonempty-owned : (url : Bytes) (ranges : List (ℕ × ℕ)) → AllNonempty (owned_segments url ranges)
unfolding owned_segments
nonempty-owned url [] = tt
nonempty-owned url ((lo, hi) ∷ rest) = ground (arith, nonempty-owned url rest)

nonempty-append : (xs ys : List Segment) → AllNonempty xs → AllNonempty ys → AllNonempty (xs ++ ys)
nonempty-append [] ys a b = b
nonempty-append (x ∷ xs) ys a b = (a.0, nonempty-append xs ys a.1 b)

nonempty-segments : (shards : List ShardInfo) → AllNonempty (segments shards)
unfolding segments
nonempty-segments [] = tt
nonempty-segments (s ∷ shards) =
    nonempty-append (owned_segments s.node_url (ring_segments s)) (segments shards)
      (nonempty-owned s.node_url (ring_segments s)) (nonempty-segments shards)

pub count-append :
    (p : Segment → Bool) (xs ys : List Segment) → count p (xs ++ ys) ≡ count p xs + count p ys
count-append p [] ys = omega arith
count-append p (x ∷ xs) ys = ground (arith, count-append p xs ys)

-- The ranges of a shard are what it owns, each hash once.
owned_once :
    (s : ShardInfo) (h : ℕ)
    → h < ring_size
    → count (covers h) (owned_segments s.node_url (ring_segments s))
      ≡ (if shard_owns s h then 1 else 0)
unfolding owned_segments ring_segments shard_owns
owned_once s h lt = ground arith

owners_are_segments :
    (shards : List ShardInfo) (h : ℕ)
    → h < ring_size
    → count (covers h) (segments shards) ≡ count (λ s. shard_owns s h) shards
unfolding segments
owners_are_segments [] h lt = refl
owners_are_segments (s ∷ shards) h lt =
    let own = owned_segments s.node_url (ring_segments s) in
    ground (
      arith,
      count-append (covers h) own (segments shards),
      owned_once s h lt,
      owners_are_segments shards h lt,
    )

pub sorted_owners :
    (shards : List ShardInfo) (h : ℕ)
    → h < ring_size
    → count (covers h) (sort_segments (segments shards)) ≡ count (λ s. shard_owns s h) shards
sorted_owners shards h lt =
    count-sort_segments (covers h) (segments shards) ∙ owners_are_segments shards h lt

-- Ranges that the walk accepts cover each hash from the cursor on once, and none below it.
cover_once :
    (cursor : ℕ) (prev : Bytes) (xs : List Segment) (h : ℕ)
    → AllNonempty xs
    → cover cursor prev xs ≡ valid
    → h < ring_size
    → count (covers h) xs ≡ (if leb cursor h then 1 else 0)
unfolding cover
cover_once cursor prev [] h n v lt = ground arith
cover_once cursor prev (s ∷ xs) h n v lt = ground (arith, cover_once s.hi s.owner xs h)

accepted_cover :
    (shards : List ShardInfo)
    → validate_shard_ring shards ≡ valid
    → cover 0 [] (sort_segments (segments shards)) ≡ valid
unfolding validate_shard_ring check_cover
accepted_cover shards v = go (whole_ring shards) refl
  where
    go :
        (full : List ShardInfo)
        → whole_ring shards ≡ full
        → cover 0 [] (sort_segments (segments shards)) ≡ valid
    go [] e = ground arith
    go (f ∷ fs) e = ground arith

pub accepted_has_one_owner :
    (shards : List ShardInfo) (hash : ℕ)
    → validate_shard_ring shards ≡ valid
    → hash < ring_size
    → count (λ s. shard_owns s hash) shards ≡ 1
accepted_has_one_owner shards hash v lt =
    let n = nonempty-sort (segments shards) (nonempty-segments shards) in
    let once =
      cover_once 0 [] (sort_segments (segments shards)) hash n (accepted_cover shards v) lt in
    let same = sorted_owners shards hash lt in ground arith
