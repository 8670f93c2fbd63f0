-- ===== src/Ring/Tests.antt =====
-- Runs of the theorems on src/ring.rs.
use dewdb.Prelude.{
  length, ◌*◌, ◌++◌, ◌≤◌, refl, bytes_eq, ℕ, ◌<◌, ◌^◌, ◌≡◌, ◌↔◌, List, [], ◌∷◌, codes, count, arith,
}
use dewdb.Util.Endpoint.{node_key, lower, endpoint_of, after_scheme, ends_authority, cut_authority}
use dewdb.Ring.Members.{
  HashRing, max_ring_tokens, validate, check_primaries, check_shards, check_replicas, is_blank,
}
use dewdb.Ring.Members.Placed.{IsFresh, primary_keys, replica_keys, validate_lem}
use dewdb.Ring.Ranges.{ShardInfo, shard_owns, validate_shard_ring, valid}
use dewdb.Ring.Ranges.Exact.{validate_shard_ring_lem}

-- A range that wraps past the top, and the rest.
abbrev two_shards : List ShardInfo
two_shards =
    record { start_hash = 900; end_hash = 100; node_url = codes "http://a"; replica_urls = [] }
    ∷ record { start_hash = 100; end_hash = 900; node_url = codes "http://b"; replica_urls = [] }
    ∷ []

validate_shard_ring_lem_example :
    (validate_shard_ring two_shards ≡ valid)
    ↔ ((h : ℕ) → h < 2 ^ 64 → count (λ s. shard_owns s h) two_shards ≡ 1)
validate_shard_ring_lem_example =
    validate_shard_ring_lem two_shards (omega arith, omega arith, (omega arith, omega arith, tt))

abbrev small_ring : HashRing
small_ring = record {
  vnodes = 2;
  shards =
      record { node_url = codes "http://a"; replica_urls = codes "http://c" ∷ [] }
      ∷ record { node_url = codes "http://b"; replica_urls = [] }
      ∷ [];
}

validate_lem_example :
    IsFresh [] (primary_keys small_ring.shards ++ replica_keys small_ring.shards)
    × (1 ≤ length small_ring.shards)
    × (1 ≤ small_ring.vnodes)
    × (length small_ring.shards * small_ring.vnodes ≤ max_ring_tokens)
unfolding validate check_primaries check_shards check_replicas is_blank node_key lower endpoint_of
    after_scheme ends_authority cut_authority bytes_eq
validate_lem_example = validate_lem small_ring refl
