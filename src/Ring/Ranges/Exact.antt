-- ===== src/Ring/Ranges/Exact.antt =====
-- `validate_shard_ring` of src/ring.rs refuses no map that gives every hash one owner.
use dewdb.Prelude.{
  ℕ, ◌≤◌, ◌<◌, ◌^◌, ◌≡◌, ◌≢◌, ◌↔◌, refl, sym, true, List, [], ◌∷◌, ◌++◌, Bytes, arith, leb, ltb,
  ◌==◌, if◌then◌else◌, length, count, Bool-cases, inl, inr,
}
use dewdb.Ring.Ranges.{
  ShardInfo, shard_owns, ring_size, ring_segments, Segment, owned_segments, segments,
  insert_segment, sort_segments, RingError, Checked, valid, invalid, cover, whole_ring, check_cover,
  validate_shard_ring,
}
use dewdb.Ring.Ranges.Owner.{covers, sorted_owners, accepted_has_one_owner}

-- Ranges that start at `b` or above, in the order of their starts, none past the top.
abbrev IsOrderedFrom : ℕ → List Segment → Type 0
IsOrderedFrom b [] = Unit
IsOrderedFrom b (s ∷ xs) = (b ≤ s.lo) × (s.lo < s.hi) × (s.hi ≤ ring_size) × IsOrderedFrom s.lo xs

abbrev IsOnRing : List Segment → Type 0
IsOnRing [] = Unit
IsOnRing (s ∷ xs) = (s.lo < s.hi) × (s.hi ≤ ring_size) × IsOnRing xs

ordered-insert :
    (b : ℕ) (s : Segment) (xs : List Segment)
    → b ≤ s.lo
    → s.lo < s.hi
    → s.hi ≤ ring_size
    → IsOrderedFrom b xs
    → IsOrderedFrom b (insert_segment s xs)
unfolding insert_segment
ordered-insert b s [] h k l o = (h, k, l, tt)
ordered-insert b s (x ∷ xs) h k l o = ground (arith, ordered-insert x.lo s xs)

ordered-sort : (xs : List Segment) → IsOnRing xs → IsOrderedFrom 0 (sort_segments xs)
unfolding sort_segments
ordered-sort [] r = tt
ordered-sort (s ∷ xs) r =
    ordered-insert 0 s (sort_segments xs) (omega arith) r.0 r.1 (ordered-sort xs r.2)

-- The hashes of a shard are machine words.
abbrev pub AreWords : List ShardInfo → Type 0
AreWords [] = Unit
AreWords (s ∷ shards) = (s.start_hash < 2 ^ 64) × (s.end_hash < 2 ^ 64) × AreWords shards

IsOnRing-append : (xs ys : List Segment) → IsOnRing xs → IsOnRing ys → IsOnRing (xs ++ ys)
IsOnRing-append [] ys a b = b
IsOnRing-append (x ∷ xs) ys a b = (a.0, a.1, IsOnRing-append xs ys a.2 b)

IsOnRing-owned :
    (s : ShardInfo)
    → s.start_hash < 2 ^ 64
    → s.end_hash < 2 ^ 64
    → IsOnRing (owned_segments s.node_url (ring_segments s))
unfolding owned_segments ring_segments
IsOnRing-owned s a b = ground arith

IsOnRing-segments : (shards : List ShardInfo) → AreWords shards → IsOnRing (segments shards)
unfolding segments
IsOnRing-segments [] w = tt
IsOnRing-segments (s ∷ shards) w =
    IsOnRing-append (owned_segments s.node_url (ring_segments s)) (segments shards)
      (IsOnRing-owned s w.0 w.1) (IsOnRing-segments shards w.2)

below_start : (b h : ℕ) (xs : List Segment) → h < b → IsOrderedFrom b xs → count (covers h) xs ≡ 0
below_start b h [] lt o = refl
below_start b h (s ∷ xs) lt o = ground (arith, below_start s.lo h xs)

-- A hash below `n` that is covered too often or not at all, for a walk from `cursor`.
abbrev Miscovered : ℕ → ℕ → List Segment → Type 0
Miscovered n cursor xs = (h : ℕ) × (h < n) × (count (covers h) xs ≢ (if leb cursor h then 1 else 0))

overlap_is_Miscovered :
    (n cursor : ℕ) (s : Segment) (xs : List Segment)
    → s.lo < cursor
    → s.lo < s.hi
    → s.hi ≤ n
    → Miscovered n cursor (s ∷ xs)
overlap_is_Miscovered n cursor s xs lt k le = (s.lo, omega arith, ground arith)

gap_is_Miscovered :
    (n cursor : ℕ) (xs : List Segment)
    → cursor < n
    → count (covers cursor) xs ≡ 0
    → Miscovered n cursor xs
gap_is_Miscovered n cursor xs lt e = (cursor, lt, ground arith)

rest_is_Miscovered :
    (n : ℕ) (s : Segment) (xs : List Segment)
    → s.lo < s.hi
    → Miscovered n s.hi xs
    → Miscovered n s.lo (s ∷ xs)
rest_is_Miscovered n s xs k (h, lt, ne) = (h, lt, ground arith)

refused_is_Miscovered :
    (b cursor : ℕ) (prev : Bytes) (xs : List Segment) (e : RingError)
    → cursor ≤ ring_size
    → IsOrderedFrom b xs
    → cover cursor prev xs ≡ invalid e
    → Miscovered ring_size cursor xs
unfolding cover
refused_is_Miscovered b cursor prev [] e le o r =
    gap_is_Miscovered ring_size cursor [] (ground arith) refl
refused_is_Miscovered b cursor prev (s ∷ xs) e le o r = elim (Bool-cases (ltb s.lo cursor)) [
  | inl p ↦ overlap_is_Miscovered ring_size cursor s xs (ground arith) o.1 o.2
  | inr p ↦ elim (Bool-cases (ltb cursor s.lo)) [
    | inl q ↦
        let lt : cursor < s.lo = ground arith in
        gap_is_Miscovered ring_size cursor (s ∷ xs) (omega arith)
          (below_start s.lo cursor (s ∷ xs) lt (omega arith, o.1, o.2, o.3))
    | inr q ↦
        let here : s.lo ≡ cursor = ground arith in
        let rest = refused_is_Miscovered s.lo s.hi s.owner xs e o.2 o.3 (rw (p, q) at r) in
        rw (sym here) (rest_is_Miscovered ring_size s xs o.1 rest)
  ]
]

-- A map that gives every hash one owner.
abbrev pub HasOneOwner : List ShardInfo → Type 0
HasOneOwner shards = (h : ℕ) → h < ring_size → count (λ s. shard_owns s h) shards ≡ 1

owns_start : (s : ShardInfo) → shard_owns s s.start_hash ≡ true
unfolding shard_owns
owns_start s = ground arith

whole_owns : (s : ShardInfo) (h : ℕ) → s.start_hash ≡ s.end_hash → shard_owns s h ≡ true
unfolding shard_owns
whole_owns s h e = ground arith

whole_ring_owns :
    (shards others : List ShardInfo) (full : ShardInfo) (h : ℕ)
    → whole_ring shards ≡ full ∷ others
    → 1 ≤ count (λ s. shard_owns s h) shards
unfolding whole_ring
whole_ring_owns [] others full h e = absurd (ground arith)
whole_ring_owns (s ∷ shards) others full h e =
    ground (arith, whole_owns s h, whole_ring_owns shards others full h)

two_owners :
    (shards others : List ShardInfo) (full : ShardInfo)
    → AreWords shards
    → whole_ring shards ≡ full ∷ others
    → 1 < length shards
    → (h : ℕ) × (h < ring_size) × (1 < count (λ s. shard_owns s h) shards)
unfolding whole_ring
two_owners [] others full w e lt = absurd (ground arith)
two_owners (s ∷ []) others full w e lt = absurd (ground arith)
two_owners (s ∷ r ∷ shards) others full w e lt = elim (Bool-cases (s.start_hash == s.end_hash)) [
  | inl p ↦
      let a = whole_owns s r.start_hash (ground arith) in
      let b = owns_start r in (r.start_hash, ground arith, ground arith)
  | inr p ↦
      let a = owns_start s in
      let b = whole_ring_owns (r ∷ shards) others full s.start_hash (rw p at e) in
      (s.start_hash, ground arith, ground arith)
]

not-Miscovered :
    (shards : List ShardInfo)
    → HasOneOwner shards
    → Miscovered ring_size 0 (sort_segments (segments shards))
    → ⊥
not-Miscovered shards one (h, lt, ne) =
    let same = sorted_owners shards h lt in let once = one h lt in ne (ground arith)

exact_is_accepted :
    (shards : List ShardInfo)
    → AreWords shards
    → HasOneOwner shards
    → validate_shard_ring shards ≡ valid
unfolding validate_shard_ring check_cover
exact_is_accepted [] w one = absurd (let e = one 0 (omega arith) in ground arith)
exact_is_accepted (s ∷ shards) w one = go (whole_ring (s ∷ shards)) refl
  where
    sorted : List Segment
    sorted = sort_segments (segments (s ∷ shards))

    walk : (r : Checked) → cover 0 [] sorted ≡ r → cover 0 [] sorted ≡ valid
    walk valid e = e
    walk (invalid x) e = absurd (
        not-Miscovered (s ∷ shards) one (
          refused_is_Miscovered 0 0 [] sorted x (omega arith)
            (ordered-sort (segments (s ∷ shards)) (IsOnRing-segments (s ∷ shards) w)) e))

    go :
        (full : List ShardInfo)
        → whole_ring (s ∷ shards) ≡ full
        → check_cover (whole_ring (s ∷ shards)) (s ∷ shards) ≡ valid
    go [] e = rw e (walk (cover 0 [] sorted) refl)
    go (f ∷ fs) e = elim (Bool-cases (ltb 1 (length (s ∷ shards)))) [
      | inl p ↦
          let (h, lt, two) = two_owners (s ∷ shards) fs f w e (ground arith) in
          let once = one h lt in absurd (omega arith)
      | inr p ↦ rw (e, p) (walk (cover 0 [] sorted) refl)
    ]

-- The check of a shard map is exact. For shards whose hashes are 64-bit words, a map is accepted
-- exactly if every hash has one owner: the empty map, a gap, an overlap, a wrapped range that
-- meets another, and a whole-ring claim beside other shards are all refused, and nothing else is.
pub validate_shard_ring_lem :
    (shards : List ShardInfo)
    → AreWords shards
    → (validate_shard_ring shards ≡ valid)
      ↔ ((h : ℕ) → h < 2 ^ 64 → count (λ s. shard_owns s h) shards ≡ 1)
validate_shard_ring_lem shards w =
    (λ v h lt. accepted_has_one_owner shards h v lt, exact_is_accepted shards w)
