-- ===== src/Ring/Ranges.antt =====
-- The explicit hash ranges of src/ring.rs: what a shard owns, and the check of a shard map.
pub mod Owner
pub mod Exact
use dewdb.Prelude.{
  ℕ, ◌+◌, ◌-◌, ◌^◌, Bool, true, false, not, ◌&&◌, ◌||◌, List, [], ◌∷◌, ◌++◌, Bytes, leb, ltb, ◌==◌,
  if◌then◌else◌, is_empty, length, any,
}

pub record ShardInfo : Type 0 where
  pub start_hash : ℕ
  pub end_hash : ℕ
  pub node_url : Bytes
  pub replica_urls : List Bytes

unfoldable pub shard_owns : ShardInfo → ℕ → Bool
shard_owns shard hash =
    if shard.start_hash == shard.end_hash
    then true
    else if ltb shard.start_hash shard.end_hash
    then leb shard.start_hash hash && ltb hash shard.end_hash
    else leb shard.start_hash hash || ltb hash shard.end_hash

abbrev pub ring_size : ℕ
ring_size = 2 ^ 64

unfoldable pub ring_segments : ShardInfo → List (ℕ × ℕ)
ring_segments shard =
    if shard.start_hash == shard.end_hash
    then (0, ring_size) ∷ []
    else if ltb shard.start_hash shard.end_hash
    then (shard.start_hash, shard.end_hash) ∷ []
    else (shard.start_hash, ring_size) ∷ (0, shard.end_hash) ∷ []

-- A range with its owner's url.
pub record Segment : Type 0 where
  pub lo : ℕ
  pub hi : ℕ
  pub owner : Bytes

-- The ranges of one shard that are not empty.
unfoldable pub owned_segments : Bytes → List (ℕ × ℕ) → List Segment
owned_segments node_url [] = []
owned_segments node_url ((lo, hi) ∷ rest) =
    if ltb lo hi
    then record { lo = lo; hi = hi; owner = node_url } ∷ owned_segments node_url rest
    else owned_segments node_url rest

unfoldable pub segments : List ShardInfo → List Segment
unfolding owned_segments ring_segments
segments [] = []
segments (shard ∷ shards) = owned_segments shard.node_url (ring_segments shard) ++ segments shards

-- `sort_by_key(|(lo, _, _)| *lo)`, which is stable.
unfoldable pub insert_segment : Segment → List Segment → List Segment
insert_segment s [] = s ∷ []
insert_segment s (x ∷ xs) = if leb s.lo x.lo then s ∷ x ∷ xs else x ∷ insert_segment s xs

unfoldable pub sort_segments : List Segment → List Segment
unfolding insert_segment
sort_segments [] = []
sort_segments (s ∷ xs) = insert_segment s (sort_segments xs)

-- The messages, with what they name.
pub data RingError : Type 0 where
  no_shards : RingError
  whole_ring_and_others : Bytes → ℕ → RingError
  overlap : Segment → Bytes → RingError
  uncovered_before : ℕ → Segment → RingError
  uncovered_end : ℕ → RingError

pub data Checked : Type 0 where
  valid : Checked
  invalid : RingError → Checked

-- The walk over the sorted ranges.
unfoldable pub cover : ℕ → Bytes → List Segment → Checked
cover cursor previous_owner [] =
    if not (cursor == ring_size) then invalid (uncovered_end cursor) else valid
cover cursor previous_owner (s ∷ rest) =
    let next = cover s.hi s.owner rest in
    if ltb s.lo cursor
    then invalid (overlap s previous_owner)
    else if ltb cursor s.lo
    then invalid (uncovered_before cursor s)
    else next

-- The shards that claim the whole ring.
unfoldable pub whole_ring : List ShardInfo → List ShardInfo
whole_ring [] = []
whole_ring (shard ∷ shards) =
    if shard.start_hash == shard.end_hash then shard ∷ whole_ring shards else whole_ring shards

unfoldable pub check_cover : List ShardInfo → List ShardInfo → Checked
check_cover [] shards = cover 0 [] (sort_segments (segments shards))
check_cover (full ∷ others) shards =
    if ltb 1 (length shards)
    then invalid (whole_ring_and_others full.node_url (length shards - 1))
    else cover 0 [] (sort_segments (segments shards))

unfoldable pub validate_shard_ring : List ShardInfo → Checked
unfolding check_cover whole_ring cover sort_segments segments
validate_shard_ring shards =
    if is_empty shards then invalid no_shards else check_cover (whole_ring shards) shards
