-- ===== src/Ring/Members.antt =====
-- The consistent-hash ring of src/ring.rs: its members, and the check that a membership passes
-- before tokens are derived from it. A `HashSet` of node keys is the list of what was inserted.
pub mod Placed
use dewdb.Prelude.{
  ℕ, ◌*◌, ◌^◌, Bool, true, false, not, ◌&&◌, ◌||◌, List, [], ◌∷◌, ◌++◌, Bytes, bytes_eq, leb, ltb,
  ◌==◌, if◌then◌else◌, is_empty, length, any,
}
use dewdb.Util.Endpoint.{node_key}

pub record RingShard : Type 0 where
  pub node_url : Bytes
  pub replica_urls : List Bytes

pub record HashRing : Type 0 where
  pub vnodes : ℕ
  pub shards : List RingShard

abbrev pub max_vnodes : ℕ
max_vnodes = 4096

abbrev pub max_ring_shards : ℕ
max_ring_shards = 1024

abbrev pub max_ring_tokens : ℕ
max_ring_tokens = 1_048_576

-- `trim().is_empty()`: white space alone, whose characters take one, two or three bytes in UTF-8.
abbrev pub space_1 : ℕ → Bool
space_1 a = (leb 9 a && leb a 13) || a == 32

abbrev pub space_2 : ℕ → ℕ → Bool
space_2 a b = a == 194 && (b == 133 || b == 160)

abbrev pub space_3 : ℕ → ℕ → ℕ → Bool
space_3 a b c =
    (a == 225 && b == 154 && c == 128)
    || (a == 226 && b == 128 && ((leb 128 c && leb c 138) || c == 168 || c == 169 || c == 175))
    || (a == 226 && b == 129 && c == 159)
    || (a == 227 && b == 128 && c == 128)

unfoldable pub is_blank : Bytes → Bool
is_blank [] = true
is_blank (a ∷ []) = space_1 a
is_blank (a ∷ b ∷ []) = (space_1 a && space_1 b) || space_2 a b
is_blank (a ∷ b ∷ c ∷ rest) =
    (space_1 a && is_blank (b ∷ c ∷ rest))
    || (space_2 a b && is_blank (c ∷ rest))
    || (space_3 a b c && is_blank rest)

-- The refusals, with what their messages name.
pub data MemberError : Type 0 where
  no_shards no_vnodes empty_url : MemberError
  too_many_vnodes too_many_shards too_many_tokens : ℕ → MemberError
  listed_twice placed_twice primary_as_replica : Bytes → MemberError
  empty_replica own_replica : Bytes → MemberError
  replica_twice : Bytes → Bytes → MemberError

pub data Members : Type 0 where
  members_ok : Members
  refused : MemberError → Members

abbrev pub knows : List Bytes → Bytes → Bool
knows seen key = any (λ k. bytes_eq k key) seen

-- The first loop: the primaries, each once. What it has seen is the second result.
unfoldable pub check_primaries : List RingShard → List Bytes → Members × List Bytes
check_primaries [] seen = (members_ok, seen)
check_primaries (s ∷ shards) seen =
    let key = node_key s.node_url in
    let rest = check_primaries shards (seen ++ key ∷ []) in
    if is_blank s.node_url
    then (refused empty_url, seen)
    else if knows seen key
    then (refused (listed_twice s.node_url), seen)
    else rest

-- The replicas of one shard, with what the shard (`here`) and all shards (`placed`) have so far.
unfoldable pub check_replicas :
    Bytes → List Bytes → List Bytes → List Bytes → List Bytes → Members × List Bytes
check_replicas node_url primaries [] here placed = (members_ok, placed)
check_replicas node_url primaries (replica ∷ replicas) here placed =
    let endpoint = node_key replica in
    let rest =
      check_replicas node_url primaries replicas (here ++ endpoint ∷ [])
        (placed ++ endpoint ∷ []) in
    if is_blank replica
    then (refused (empty_replica node_url), placed)
    else if bytes_eq endpoint (node_key node_url)
    then (refused (own_replica node_url), placed)
    else if knows primaries endpoint
    then (refused (primary_as_replica replica), placed)
    else if knows here endpoint
    then (refused (replica_twice node_url replica), placed)
    else if knows placed endpoint
    then (refused (placed_twice replica), placed)
    else rest

-- The next shard is looked at only if this one's replicas passed.
unfoldable pub check_shards : List RingShard → List Bytes → List Bytes → Members
unfolding check_replicas
check_shards [] primaries placed = members_ok
check_shards (s ∷ shards) primaries placed =
    let r = check_replicas s.node_url primaries s.replica_urls [] placed in
    let rest = check_shards shards primaries r.1 in
    elim r.0 [ members_ok ↦ rest | refused e ↦ refused e ]

-- `saturating_mul` is the product here: both factors are bounded before it.
unfoldable pub validate : HashRing → Members
unfolding check_primaries check_shards
validate ring =
    let tokens = length ring.shards * ring.vnodes in
    let first = check_primaries ring.shards [] in
    let second = check_shards ring.shards first.1 [] in
    if is_empty ring.shards
    then refused no_shards
    else if ring.vnodes == 0
    then refused no_vnodes
    else if ltb max_vnodes ring.vnodes
    then refused (too_many_vnodes ring.vnodes)
    else if ltb max_ring_shards (length ring.shards)
    then refused (too_many_shards (length ring.shards))
    else if ltb max_ring_tokens tokens
    then refused (too_many_tokens tokens)
    else (elim first.0 [ members_ok ↦ second | refused e ↦ refused e ])
