-- ===== src/Ring/Members/Placed.antt =====
-- In a ring that `HashRing::validate` of src/ring.rs accepts, every node has one place.
use dewdb.Prelude.{
  ◌*◌, ◌≤◌, ◌≡◌, refl, sym, false, List, [], ◌∷◌, ◌++◌, Bytes, bytes_eq, arith, length, any-append,
}
use mathlib.Core.List.{append_assoc, append-nil}
use dewdb.Util.Endpoint.{node_key}
use dewdb.Ring.Members.{
  RingShard, HashRing, max_ring_tokens, Members, members_ok, refused, knows, check_primaries,
  check_replicas, check_shards, validate,
}

-- No key of a list is among `before` or stands twice in the list.
abbrev pub IsFresh : List Bytes → List Bytes → Type 0
IsFresh before [] = Unit
IsFresh before (k ∷ keys) = (knows before k ≡ false) × IsFresh (before ++ k ∷ []) keys

abbrev pub primary_keys : List RingShard → List Bytes
primary_keys [] = []
primary_keys (s ∷ shards) = node_key s.node_url ∷ primary_keys shards

abbrev pub keys_of : List Bytes → List Bytes
keys_of [] = []
keys_of (u ∷ urls) = node_key u ∷ keys_of urls

abbrev pub replica_keys : List RingShard → List Bytes
replica_keys [] = []
replica_keys (s ∷ shards) = keys_of s.replica_urls ++ replica_keys shards

-- No key of a list is among `before`.
abbrev pub IsApart : List Bytes → List Bytes → Type 0
IsApart before [] = Unit
IsApart before (k ∷ keys) = (knows before k ≡ false) × IsApart before keys

primaries-IsFresh :
    (shards : List RingShard) (seen : List Bytes)
    → (check_primaries shards seen).0 ≡ members_ok
    → IsFresh seen (primary_keys shards)
      × ((check_primaries shards seen).1 ≡ seen ++ primary_keys shards)
unfolding check_primaries
primaries-IsFresh [] seen h = (tt, sym (append-nil seen))
primaries-IsFresh (s ∷ shards) seen h = ground (
  arith,
  primaries-IsFresh shards (seen ++ node_key s.node_url ∷ []),
  append_assoc seen (node_key s.node_url ∷ []) (primary_keys shards),
)

replicas-IsFresh :
    (url : Bytes) (primaries replicas here placed : List Bytes)
    → (check_replicas url primaries replicas here placed).0 ≡ members_ok
    → IsFresh placed (keys_of replicas)
      × IsApart primaries (keys_of replicas)
      × ((check_replicas url primaries replicas here placed).1 ≡ placed ++ keys_of replicas)
unfolding check_replicas
replicas-IsFresh url primaries [] here placed h = (tt, tt, sym (append-nil placed))
replicas-IsFresh url primaries (r ∷ replicas) here placed h = ground (
  arith,
  replicas-IsFresh url primaries replicas (here ++ node_key r ∷ []) (placed ++ node_key r ∷ []),
  append_assoc placed (node_key r ∷ []) (keys_of replicas),
)

IsFresh-append :
    (before xs ys : List Bytes)
    → IsFresh before xs
    → IsFresh (before ++ xs) ys
    → IsFresh before (xs ++ ys)
IsFresh-append before [] ys a b = rw (append-nil before) at b
IsFresh-append before (x ∷ xs) ys a b = (
  a.0,
  IsFresh-append (before ++ x ∷ []) xs ys a.1 (rw (sym (append_assoc before (x ∷ []) xs)) at b),
)

IsApart-append :
    (before xs ys : List Bytes) → IsApart before xs → IsApart before ys → IsApart before (xs ++ ys)
IsApart-append before [] ys a b = b
IsApart-append before (x ∷ xs) ys a b = (a.0, IsApart-append before xs ys a.1 b)

check_shards-cons :
    (s : RingShard) (shards : List RingShard) (primaries placed : List Bytes)
    → let r = check_replicas s.node_url primaries s.replica_urls [] placed in
      check_shards (s ∷ shards) primaries placed ≡ members_ok
      → (r.0 ≡ members_ok) × (check_shards shards primaries r.1 ≡ members_ok)
unfolding check_shards
check_shards-cons s shards primaries placed h = go r.0 refl
  where
    r : Members × List Bytes
    r = check_replicas s.node_url primaries s.replica_urls [] placed

    go :
        (m : Members)
        → r.0 ≡ m
        → (r.0 ≡ members_ok) × (check_shards shards primaries r.1 ≡ members_ok)
    go (refused e) k = absurd (ground (arith, k))
    go members_ok k = (k, ground (arith, k))

shards-IsFresh :
    (shards : List RingShard) (primaries placed : List Bytes)
    → check_shards shards primaries placed ≡ members_ok
    → IsFresh placed (replica_keys shards) × IsApart primaries (replica_keys shards)
shards-IsFresh [] primaries placed h = (tt, tt)
shards-IsFresh (s ∷ shards) primaries placed h =
    let r = check_replicas s.node_url primaries s.replica_urls [] placed in
    let (k, rest) = check_shards-cons s shards primaries placed h in
    let (fresh, apart, next) = replicas-IsFresh s.node_url primaries s.replica_urls [] placed k in
    let (fresh', apart') = shards-IsFresh shards primaries r.1 rest in
    (
      IsFresh-append placed (keys_of s.replica_urls) (replica_keys shards) fresh
          (rw next at fresh'),
      IsApart-append primaries (keys_of s.replica_urls) (replica_keys shards) apart apart',
    )

IsFresh-IsApart :
    (primaries placed keys : List Bytes)
    → IsApart primaries keys
    → IsFresh placed keys
    → IsFresh (primaries ++ placed) keys
IsFresh-IsApart primaries placed [] a f = tt
IsFresh-IsApart primaries placed (k ∷ keys) a f = (
  ground (arith, any-append (λ x. bytes_eq x k) primaries placed),
  rw (append_assoc primaries placed (k ∷ []))
      (IsFresh-IsApart primaries (placed ++ k ∷ []) keys a.1 f.1),
)

-- The membership that both loops passed.
members-IsFresh :
    (shards : List RingShard)
    → (check_primaries shards []).0 ≡ members_ok
    → check_shards shards (check_primaries shards []).1 [] ≡ members_ok
    → IsFresh [] (primary_keys shards ++ replica_keys shards)
members-IsFresh shards h k =
    let (fresh, seen) = primaries-IsFresh shards [] h in
    let (fresh', apart) = shards-IsFresh shards (check_primaries shards []).1 [] k in
    let apart'' : IsApart (primary_keys shards) (replica_keys shards) = rw seen at apart in
    let both = IsFresh-IsApart (primary_keys shards) [] (replica_keys shards) apart'' fresh' in
    IsFresh-append [] (primary_keys shards) (replica_keys shards) fresh
      (rw (append-nil (primary_keys shards)) at both)

-- In an accepted ring every node has one place: among the urls of all primaries and all replicas,
-- no two name one node, whatever their spelling. And building the ring is bounded: it has at least
-- one shard and one token a shard, and at most 2^20 tokens.
pub validate_lem :
    (ring : HashRing)
    → validate ring ≡ members_ok
    → IsFresh [] (primary_keys ring.shards ++ replica_keys ring.shards)
      × (1 ≤ length ring.shards)
      × (1 ≤ ring.vnodes)
      × (length ring.shards * ring.vnodes ≤ max_ring_tokens)
unfolding validate
validate_lem ring h = go (check_primaries ring.shards []).0 refl
  where
    go :
        (m : Members)
        → (check_primaries ring.shards []).0 ≡ m
        → IsFresh [] (primary_keys ring.shards ++ replica_keys ring.shards)
          × (1 ≤ length ring.shards)
          × (1 ≤ ring.vnodes)
          × (length ring.shards * ring.vnodes ≤ max_ring_tokens)
    go (refused e) k = absurd (ground (arith, k))
    go members_ok k = (
      members-IsFresh ring.shards k (ground (arith, k)),
      ground (arith, k),
      ground (arith, k),
      ground (arith, k),
    )
