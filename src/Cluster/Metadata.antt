-- ===== src/Cluster/Metadata.antt =====
-- src/cluster/metadata.rs: the view of the cluster as one versioned value, the order on views, and
-- the adoption of a view that is offered. Two derived hashes and the text of errors are left out.
pub mod Converge
use dewdb.Prelude.{
  ℕ, ◌+◌, ◌%◌, ◌^◌, Bool, true, false, not, ◌&&◌, ◌||◌, List, [], ◌∷◌, ◌++◌, map, Bytes, bytes_eq,
  codes, leb, ltb, ◌==◌, if◌then◌else◌, is_empty, length, any, all, keep, is_some, unwrap_or,
  Option, none, some,
}
use dewdb.Prelude.Assoc.{Assoc, lookup, insert}
use dewdb.Util.Endpoint.{same_endpoint, node_key}
use dewdb.Consensus.Names.{valid_collection_name}
use dewdb.Ring.Ranges.{ShardInfo, validate_shard_ring}
use dewdb.Ring.Ranges
use dewdb.Ring.Members.{HashRing, validate, is_blank}
use dewdb.Ring.Members
use dewdb.Storage.Entry.{IndexSpec}

pub record Member : Type 0 where
  pub url : Bytes
  pub node_id : Option Bytes
  pub role : Bytes
  pub shard_role : Option Bytes
  pub voting : Bool
  pub follows : Option Bytes

pub data MigrationPhase : Type 0 where
  copying finalizing : MigrationPhase

pub record Migration : Type 0 where
  pub id : Bytes
  pub target : HashRing
  pub started_by : Bytes
  pub phase : MigrationPhase

pub record CollectionIndexes : Type 0 where
  pub version : ℕ
  pub updated_by : Bytes
  pub indexes : List IndexSpec
  pub ttl_secs : Option ℕ

pub record ClusterMetadata : Type 0 where
  pub version : ℕ
  pub updated_by : Bytes
  pub seeded : Bool
  pub members : List Member
  pub shards : List ShardInfo
  pub ring : Option HashRing
  pub migration : Option Migration
  pub index_catalog : Assoc CollectionIndexes

pub record ViewId : Type 0 where
  pub version : ℕ
  pub updated_by : Option Bytes
  pub seeded : Bool

-- `>` on `str`, which compares bytes.
unfoldable pub bytes_gt : Bytes → Bytes → Bool
bytes_gt [] ys = false
bytes_gt (x ∷ xs) [] = true
bytes_gt (x ∷ xs) (y ∷ ys) = ltb y x || (x == y && bytes_gt xs ys)

-- `>` on a pair of a version and a name.
unfoldable pub later : ℕ → Bytes → ℕ → Bytes → Bool
unfolding bytes_gt
later v mine w theirs = ltb w v || (v == w && bytes_gt mine theirs)

-- The last test of `ViewId::supersedes`.
unfoldable pub outranks : ℕ → Option Bytes → ℕ → Option Bytes → Bool
unfolding later
outranks v (some mine) w (some theirs) = later v mine w theirs
outranks v (some mine) w none = ltb w v
outranks v none w theirs = ltb w v

unfoldable pub id_supersedes : ViewId → ViewId → Bool
unfolding outranks
id_supersedes a b =
    if a.seeded
    then false
    else if b.seeded
    then leb b.version a.version
    else outranks a.version a.updated_by b.version b.updated_by

unfoldable pub view_id : ClusterMetadata → ViewId
view_id m = record { version = m.version; updated_by = some m.updated_by; seeded = m.seeded }

unfoldable pub supersedes : ClusterMetadata → ClusterMetadata → Bool
unfolding id_supersedes view_id
supersedes m other = id_supersedes (view_id m) (view_id other)

abbrev pub max_catalog_collections : ℕ
max_catalog_collections = 4096

abbrev pub max_indexes_per_collection : ℕ
max_indexes_per_collection = 8

-- `is_ascii_alphanumeric`, or one of `_` and `-`.
unfoldable pub is_index_byte : ℕ → Bool
is_index_byte b =
    (leb 48 b && leb b 57)
    || (leb 65 b && leb b 90)
    || (leb 97 b && leb b 122)
    || b == 95
    || b == 45

unfoldable pub valid_index_name : Bytes → Bool
unfolding is_index_byte
valid_index_name name = not (is_empty name) && leb (length name) 64 && all is_index_byte name

-- `split('.')`, with the part that is being read.
unfoldable pub split_dots : Bytes → Bytes → List Bytes
split_dots part [] = part ∷ []
split_dots part (c ∷ cs) =
    let next = split_dots [] cs in
    let longer = split_dots (part ++ c ∷ []) cs in if c == 46 then part ∷ next else longer

-- `!part.is_empty() && !part.starts_with('$')`
unfoldable pub is_path_part : Bytes → Bool
is_path_part [] = false
is_path_part (c ∷ cs) = not (c == 36)

unfoldable pub valid_field_path : Bytes → Bool
unfolding split_dots is_path_part
valid_field_path field =
    not (is_empty field)
    && leb (length field) 256
    && leb (length (split_dots [] field)) 16
    && all is_path_part (split_dots [] field)

-- The loop of `unaddressable_entry` over the definitions.
unfoldable pub specs_usable : List Bytes → List IndexSpec → Bool
unfolding valid_index_name valid_field_path
specs_usable seen [] = true
specs_usable seen (s ∷ specs) =
    valid_index_name s.name
    && valid_field_path s.field
    && not (any (λ n. bytes_eq n s.name) seen)
    && specs_usable (s.name ∷ seen) specs

-- `unaddressable_entry(collection, entry).is_none()`
unfoldable pub is_addressable : Bytes → CollectionIndexes → Bool
unfolding specs_usable
is_addressable collection entry =
    valid_collection_name collection
    && leb (length entry.indexes) max_indexes_per_collection
    && not (elim entry.ttl_secs [ none ↦ false | some secs ↦ secs == 0 ])
    && specs_usable [] entry.indexes

unfoldable pub sanitize_catalog : Assoc CollectionIndexes → Assoc CollectionIndexes
unfolding is_addressable
sanitize_catalog catalog = keep (λ e. is_addressable e.0 e.1) catalog

unfoldable pub indexes_supersede : CollectionIndexes → CollectionIndexes → Bool
unfolding later
indexes_supersede a b = later a.version a.updated_by b.version b.updated_by

-- The test of one entry of the loop of `merge_catalog`.
unfoldable pub is_newer : Option CollectionIndexes → CollectionIndexes → Bool
unfolding indexes_supersede
is_newer none incoming = true
is_newer (some current) incoming = indexes_supersede incoming current

-- The catalogue, and whether it moved.
unfoldable pub merge_catalog :
    Assoc CollectionIndexes → Bool → Assoc CollectionIndexes → Assoc CollectionIndexes × Bool
unfolding is_addressable is_newer
merge_catalog into moved [] = (into, moved)
merge_catalog into moved ((collection, incoming) ∷ from) =
    if is_addressable collection incoming && is_newer (lookup collection into) incoming
    then merge_catalog (insert collection incoming into) true from
    else merge_catalog into moved from

-- The refusals of `validate`, with what their messages name.
pub data ViewError : Type 0 where
  version_zero no_ring_to_leave catalog_too_large blank_member : ViewError
  ring_refused target_refused : Members.MemberError → ViewError
  shards_refused : Ranges.RingError → ViewError
  member_twice : Bytes → ViewError
  unknown_role : (url role : Bytes) → ViewError

pub data ViewCheck : Type 0 where
  view_valid : ViewCheck
  view_invalid : ViewError → ViewCheck

-- `?`: the next check, unless this one refused.
unfoldable pub and_then : ViewCheck → ViewCheck → ViewCheck
and_then view_valid next = next
and_then (view_invalid e) next = view_invalid e

unfoldable pub check_ring : (Members.MemberError → ViewError) → Option HashRing → ViewCheck
check_ring refusal none = view_valid
check_ring refusal (some ring) = elim (validate ring) [
  | Members.members_ok ↦ view_valid
  | Members.refused e ↦ view_invalid (refusal e)
]

unfoldable pub check_migration : Option Migration → Option HashRing → ViewCheck
unfolding check_ring and_then
check_migration none ring = view_valid
check_migration (some m) ring =
    and_then (check_ring target_refused (some m.target))
      (if is_some ring then view_valid else view_invalid no_ring_to_leave)

unfoldable pub check_ranges : List ShardInfo → ViewCheck
check_ranges shards = if is_empty shards then view_valid else elim (validate_shard_ring shards) [
  | Ranges.valid ↦ view_valid
  | Ranges.invalid e ↦ view_invalid (shards_refused e)
]

unfoldable pub check_members : List Bytes → List Member → ViewCheck
unfolding node_key
check_members seen [] = view_valid
check_members seen (m ∷ members) =
    let key = node_key m.url in
    let rest = check_members (key ∷ seen) members in
    if is_blank m.url
    then view_invalid blank_member
    else if any (λ k. bytes_eq k key) seen
    then view_invalid (member_twice m.url)
    else if not (bytes_eq m.role (codes "shard")) && not (bytes_eq m.role (codes "router"))
    then view_invalid (unknown_role m.url m.role)
    else rest

unfoldable pub validate_view : ClusterMetadata → ViewCheck
unfolding and_then check_ring check_migration check_ranges check_members
validate_view m =
    if m.version == 0
    then view_invalid version_zero
    else and_then (check_ring ring_refused m.ring) (
        and_then (check_migration m.migration m.ring) (
          and_then (check_ranges m.shards) (
            if ltb max_catalog_collections (length m.index_catalog)
            then view_invalid catalog_too_large
            else check_members [] m.members)))

pub data Adoption : Type 0 where
  adopted : (from to : ℕ) → Adoption
  stale : (current : ℕ) → Adoption
  rejected : ViewError → Adoption

-- `adopt` of a view whose catalogue is sanitized.
unfoldable pub adopt_checked :
    ClusterMetadata → ClusterMetadata → ViewCheck → ClusterMetadata × Adoption
unfolding merge_catalog supersedes
adopt_checked current incoming (view_invalid why) = (current, rejected why)
adopt_checked current incoming view_valid =
    let catalog = (merge_catalog current.index_catalog false incoming.index_catalog).0 in
    if not (supersedes incoming current)
    then (record current { index_catalog = catalog }, stale current.version)
    else (record incoming { index_catalog = catalog }, adopted current.version incoming.version)

unfoldable pub adopt : ClusterMetadata → ClusterMetadata → ClusterMetadata × Adoption
unfolding sanitize_catalog validate_view adopt_checked
adopt current offered =
    let incoming : ClusterMetadata = record offered {
      index_catalog = sanitize_catalog offered.index_catalog;
    } in
    adopt_checked current incoming (validate_view incoming)
