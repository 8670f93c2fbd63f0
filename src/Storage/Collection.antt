-- ===== src/Storage/Collection.antt =====
-- src/storage/collection.rs: what a collection holds in memory, beside its log. Frames that are
-- durable but not committed are staged in `pending`; committing moves them into the index. An
-- atomic counter is a 64-bit word that wraps. The tasks that build indexes and publish changes are
-- outside; the changes they would be told of are returned.
pub mod Stage
pub mod Apply
pub mod Newest
pub mod Kept
pub mod Recovered
pub mod Invisible
pub mod Commit
pub mod Overlay
pub mod Untouched
use dewdb.Prelude.{
  ℕ, ◌+◌, ◌-◌, ◌%◌, ◌^◌, max, Bool, true, false, not, ◌&&◌, List, [], ◌∷◌, ◌++◌, Bytes, bytes_eq,
  leb, ltb, ◌==◌, if◌then◌else◌, length, is_empty, is_some, Option, none, some,
}
use dewdb.Prelude.Assoc.{Assoc, lookup, insert, remove}
use dewdb.Prelude.Positions.{Positions, put_at, at, up_to, above, find_last}
use dewdb.Api.Precondition.{Version}
use dewdb.Consensus.Config.{Configuration, canonicalized}
use dewdb.Storage.Entry.{
  IndexEntry, inline_bytes, version, expires_at, IndexSpec, IndexChange, apply_to, HandoverRecord,
  LogEntry, log_put, log_del, log_barrier, log_drop, log_config, log_handover, log_index, log_ttl,
  is_migration, Codec,
}
use dewdb.Storage.AppliedPos.{PosSlots}
use dewdb.Storage.Secondary.{Indexes, index_values, put, remove_key, apply_change}

-- `fetch_add` and `fetch_sub`
unfoldable pub add_word : ℕ → ℕ → ℕ
add_word a b = (a + b) % 2 ^ 64

unfoldable pub sub_word : ℕ → ℕ → ℕ
sub_word a b = (a + (2 ^ 64 - b % 2 ^ 64)) % 2 ^ 64

pub data StagedEffect (Value : Type 0) : Type 0 where
  put_key : (key : Bytes) (entry : IndexEntry) (indexed : List (Bytes × Value)) → StagedEffect Value
  remove_staged : (key : Bytes) → StagedEffect Value
  nothing clear : StagedEffect Value
  configure : Configuration → StagedEffect Value
  record_handover : HandoverRecord → StagedEffect Value
  define_index : IndexChange → StagedEffect Value
  set_ttl : Option ℕ → StagedEffect Value

pub record StagedApply (Value : Type 0) : Type 0 where
  pub wal_id : ℕ
  pub offset : ℕ
  pub term : ℕ
  pub effect : StagedEffect Value
  pub migration : Bool

pub record ReadCacheConfig : Type 0 where
  pub inline_max_value_bytes : ℕ
  pub inline_budget_bytes : ℕ

pub record AppliedMeta : Type 0 where
  pub applied_lsn : ℕ
  pub dropped : Bool
  pub config : Option Configuration
  pub handover : Option HandoverRecord
  pub indexes : List IndexSpec
  pub ttl_secs : Option ℕ

pub record Collection (Value : Type 0) : Type 0 where
  pub index : Assoc IndexEntry
  pub indexes : Indexes Value
  pub pending : Positions (StagedApply Value)
  pub inline_used : ℕ
  pub staged_inline : ℕ
  pub expiring_entries : ℕ
  pub dropped : Bool
  pub committed_config : Option Configuration
  pub committed_handover : Option HandoverRecord
  pub committed_indexes : List IndexSpec
  pub committed_ttl : Option ℕ
  pub applied_lsn : ℕ
  pub rich_gen : ℕ
  pub rich_saved : ℕ
  pub watermark_saved : ℕ
  pub watermark_recorded : Bool
  pub cache : ReadCacheConfig
  -- applied.meta, and applied.pos with the number that its handle counts
  pub meta_file : Option AppliedMeta
  pub pos_file : PosSlots

-- A value of type `Option (Option IndexEntry)`: not touched, removed, or the entry left behind.
unfoldable pub resolve : {Value : Type 0} → StagedEffect Value → Bytes → Option (Option IndexEntry)
resolve (put_key k entry indexed) key = if bytes_eq k key then some (some entry) else none
resolve (remove_staged k) key = if bytes_eq k key then some none else none
resolve clear key = some none
resolve effect key = none

-- `is_some_and(|old| old.expire_at.is_some())` and `map_or(0, |old| old.inline_bytes())`
unfoldable pub was_expiring : Option IndexEntry → Bool
was_expiring none = false
was_expiring (some e) = is_some e.expire_at

unfoldable pub replaced_bytes : Option IndexEntry → ℕ
unfolding inline_bytes
replaced_bytes none = 0
replaced_bytes (some e) = inline_bytes e

-- `==` on `Option<u64>`
unfoldable pub same_ttl : Option ℕ → Option ℕ → Bool
same_ttl none none = true
same_ttl none (some b) = false
same_ttl (some a) none = false
same_ttl (some a) (some b) = a == b

module _ {Value : Type 0} where
  unfoldable pub inline_resident : Collection Value → ℕ
  inline_resident c = (c.inline_used + c.staged_inline) % 2 ^ 64

  unfoldable pub build_entry : Codec Value → Collection Value → ℕ → ℕ → ℕ → ℕ → Bytes → IndexEntry
  unfolding inline_resident
  build_entry codec c wal_id offset lsn term payload =
      let len = length payload % 2 ^ 32 in
      let inline : Option Bytes =
        if leb len c.cache.inline_max_value_bytes
          && leb ((inline_resident c + len) % 2 ^ 64) c.cache.inline_budget_bytes
        then some payload
        else none in
      elim (codec.from_slice payload) [
        | some (log_put migration key value ts expire_at) ↦ record {
          wal_id = wal_id;
          offset = offset;
          len = len;
          inline = inline;
          lsn = lsn;
          term = term;
          ts = ts;
          expire_at = expire_at;
        }
        | other ↦ record {
          wal_id = wal_id;
          offset = offset;
          len = len;
          inline = inline;
          lsn = lsn;
          term = term;
          ts = 0;
          expire_at = none;
        }
      ]

  unfoldable pub release_staged : StagedEffect Value → Collection Value → Collection Value
  unfolding sub_word
  release_staged (put_key key entry indexed) c = record c {
    staged_inline = sub_word c.staged_inline (inline_bytes entry);
  }
  release_staged effect c = c

  unfoldable pub apply_index_put : Bytes → IndexEntry → Collection Value → Collection Value
  unfolding add_word sub_word was_expiring replaced_bytes
  apply_index_put key entry c =
      let added = inline_bytes entry in
      let expires = is_some entry.expire_at in
      let old = lookup key c.index in
      let replaced = replaced_bytes old in
      let expired_before = was_expiring old in
      record c {
        index = insert key entry c.index;
        inline_used =
            if leb replaced added
            then add_word c.inline_used (added - replaced)
            else sub_word c.inline_used (replaced - added);
        expiring_entries =
            if expires && not expired_before
            then add_word c.expiring_entries 1
            else if expired_before && not expires
            then sub_word c.expiring_entries 1
            else c.expiring_entries;
      }

  unfoldable pub apply_index_remove : Bytes → Collection Value → Collection Value
  unfolding sub_word
  apply_index_remove key c = elim (lookup key c.index) [
    | none ↦ c
    | some old ↦ record c {
      index = remove key c.index;
      inline_used = sub_word c.inline_used (inline_bytes old);
      expiring_entries =
          if is_some old.expire_at then sub_word c.expiring_entries 1 else c.expiring_entries;
    }
  ]

  unfoldable pub clear_index : Collection Value → Collection Value
  clear_index c = record c { index = []; inline_used = 0; expiring_entries = 0 }

  unfoldable pub bump_rich : Collection Value → Collection Value
  unfolding add_word
  bump_rich c = record c { rich_gen = add_word c.rich_gen 1 }

  -- `dropped.swap(flag)`, which counts as a change if the flag flips.
  unfoldable pub swap_dropped : Bool → Collection Value → Collection Value
  unfolding bump_rich
  swap_dropped true c = if c.dropped then c else bump_rich (record c { dropped = true })
  swap_dropped false c = if c.dropped then bump_rich (record c { dropped = false }) else c

  unfoldable pub drop_definitions : Collection Value → Collection Value
  unfolding bump_rich
  drop_definitions c =
      if is_empty c.committed_indexes then c else bump_rich (record c { committed_indexes = [] })

  unfoldable pub drop_ttl : Collection Value → Collection Value
  unfolding bump_rich
  drop_ttl c = if is_some c.committed_ttl then bump_rich (record c { committed_ttl = none }) else c
