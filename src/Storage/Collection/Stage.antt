-- ===== src/Storage/Collection/Stage.antt =====
-- src/storage/collection.rs: staging a frame that was appended, and what is read of staged frames
-- over the committed state.
use dewdb.Prelude.{
  ℕ, Bool, ◌&&◌, List, [], ◌∷◌, Bytes, leb, ◌==◌, if◌then◌else◌, is_some, Option, none, some,
}
use dewdb.Prelude.Assoc.{Assoc, lookup}
use dewdb.Prelude.Positions.{Positions, put_at, at, find_last}
use dewdb.Api.Precondition.{Version}
use dewdb.Consensus.Config.{Configuration, canonicalized}
use dewdb.Storage.Entry.{
  IndexEntry, inline_bytes, version, expires_at, IndexSpec, apply_to, LogEntry, log_put, log_del,
  log_barrier, log_drop, log_config, log_handover, log_index, log_ttl, is_migration, Codec,
}
use dewdb.Storage.Secondary.{index_values}
use dewdb.Storage.Collection.{
  Collection, StagedApply, StagedEffect, put_key, remove_staged, nothing, clear, configure,
  record_handover, define_index, set_ttl, resolve, build_entry, add_word, release_staged,
}

-- The keys of the sweep: the entries in their order whose time is over.
unfoldable pub expired_entries :
    (Bytes → Bool) → Option ℕ → ℕ → Assoc IndexEntry → List (Bytes × Version)
unfolding expires_at version
expired_entries owned ttl now [] = []
expired_entries owned ttl now ((key, entry) ∷ index) =
    let rest = expired_entries owned ttl now index in
    elim (expires_at entry ttl) [
      | none ↦ rest
      | some deadline ↦ if owned key && leb deadline now then (key, version entry) ∷ rest else rest
    ]

module _ {Value : Type 0} where
  unfoldable pub overlay_one : StagedEffect Value → List IndexSpec → List IndexSpec
  overlay_one (define_index change) specs = apply_to change specs
  overlay_one clear specs = []
  overlay_one effect specs = specs

  unfoldable pub overlay_index_specs :
      List IndexSpec → Positions (StagedApply Value) → List IndexSpec
  unfolding overlay_one
  overlay_index_specs specs [] = specs
  overlay_index_specs specs ((lsn, staged) ∷ pending) =
      overlay_index_specs (overlay_one staged.effect specs) pending

  unfoldable pub active_index_specs : Collection Value → List IndexSpec
  unfolding overlay_index_specs
  active_index_specs c = overlay_index_specs c.committed_indexes c.pending

  unfoldable pub overlay_ttl_one : StagedEffect Value → Option ℕ → Option ℕ
  overlay_ttl_one (set_ttl next) ttl = next
  overlay_ttl_one clear ttl = none
  overlay_ttl_one effect ttl = ttl

  -- The loop of `active_ttl_secs`.
  unfoldable pub overlay_ttl : Option ℕ → Positions (StagedApply Value) → Option ℕ
  unfolding overlay_ttl_one
  overlay_ttl ttl [] = ttl
  overlay_ttl ttl ((lsn, staged) ∷ pending) =
      overlay_ttl (overlay_ttl_one staged.effect ttl) pending

  unfoldable pub active_ttl_secs : Collection Value → Option ℕ
  unfolding overlay_ttl
  active_ttl_secs c = overlay_ttl c.committed_ttl c.pending

  unfoldable pub config_of : StagedApply Value → Option Configuration
  config_of staged = elim staged.effect [ configure config ↦ some config | _ ↦ none ]

  unfoldable pub latest_config : Collection Value → Option Configuration
  unfolding config_of find_last
  latest_config c = elim (find_last config_of c.pending) [
    | some config ↦ some config
    | none ↦ c.committed_config
  ]

  -- What the newest staged frame that touches the key leaves of it.
  unfoldable pub staged_entry : Bytes → Collection Value → Option (Option IndexEntry)
  unfolding resolve find_last
  staged_entry key c = find_last (λ staged. resolve staged.effect key) c.pending

  unfoldable pub exists : Bytes → Collection Value → Bool
  exists key c = is_some (lookup key c.index)

  unfoldable pub exists_including_staged : Bytes → Collection Value → Bool
  unfolding staged_entry exists
  exists_including_staged key c = elim (staged_entry key c) [
    | some e ↦ is_some e
    | none ↦ exists key c
  ]

  unfoldable pub version_including_staged : Bytes → Collection Value → Option Version
  unfolding staged_entry version
  version_including_staged key c = elim (staged_entry key c) [
    | some e ↦ (elim e [ none ↦ none | some entry ↦ some (version entry) ])
    | none ↦ (elim (lookup key c.index) [ none ↦ none | some entry ↦ some (version entry) ])
  ]

  unfoldable pub expire_at_including_staged : Bytes → Collection Value → Option ℕ
  unfolding staged_entry
  expire_at_including_staged key c = elim (staged_entry key c) [
    | some e ↦ (elim e [ none ↦ none | some entry ↦ entry.expire_at ])
    | none ↦ (elim (lookup key c.index) [ none ↦ none | some entry ↦ entry.expire_at ])
  ]

  unfoldable pub staged_term : ℕ → Collection Value → Option ℕ
  unfolding at
  staged_term lsn c = elim (at lsn c.pending) [ none ↦ none | some staged ↦ some staged.term ]

  unfoldable pub pending_floor : Collection Value → Option (ℕ × ℕ)
  pending_floor c = elim c.pending [
    | [] ↦ none
    | (lsn, staged) ∷ _ ↦ some (staged.wal_id, staged.offset)
  ]

  unfoldable pub expired_keys : (Bytes → Bool) → ℕ → Collection Value → List (Bytes × Version)
  unfolding expired_entries
  expired_keys owned now c =
      let walk = expired_entries owned c.committed_ttl now c.index in
      elim c.committed_ttl [
        | none ↦ (if c.expiring_entries == 0 then [] else walk)
        | some secs ↦ walk
      ]

  -- What an entry at a position of the log will do, and the collection with the memory it reserves.
  unfoldable pub effect_of :
      Codec Value
      → Collection Value
      → (lsn term : ℕ) → LogEntry Value
      → (wal_id offset : ℕ) → Bytes
      → StagedEffect Value × Collection Value
  unfolding build_entry add_word overlay_index_specs
  effect_of codec c lsn term (log_put migration key value ts expire_at) wal_id offset payload =
      let entry = build_entry codec c wal_id offset lsn term payload in
      (
        put_key key entry
            (index_values codec (overlay_index_specs c.committed_indexes c.pending) value),
        record c { staged_inline = add_word c.staged_inline (inline_bytes entry) },
      )
  effect_of codec c lsn term (log_del migration key ts) wal_id offset payload =
      (remove_staged key, c)
  effect_of codec c lsn term (log_barrier ts) wal_id offset payload = (nothing, c)
  effect_of codec c lsn term (log_drop ts) wal_id offset payload = (clear, c)
  effect_of codec c lsn term (log_config config ts) wal_id offset payload =
      (configure (canonicalized config), c)
  effect_of codec c lsn term (log_handover handover ts) wal_id offset payload =
      (record_handover handover, c)
  effect_of codec c lsn term (log_index change ts) wal_id offset payload = (define_index change, c)
  effect_of codec c lsn term (log_ttl ttl ts) wal_id offset payload = (set_ttl ttl, c)

  -- `pending.insert`, and the release of what it displaces.
  unfoldable pub stage : ℕ → StagedApply Value → Collection Value → Collection Value
  unfolding put_at at release_staged
  stage lsn staged c =
      let after = record c { pending = put_at lsn staged c.pending } in
      elim (at lsn c.pending) [ none ↦ after | some old ↦ release_staged old.effect after ]

  unfoldable pub stage_appended :
      Codec Value
      → (lsn term : ℕ) → LogEntry Value
      → (wal_id offset : ℕ) → Bytes
      → Collection Value
      → Collection Value
  unfolding stage effect_of is_migration
  stage_appended codec lsn term entry wal_id offset payload c =
      let made = effect_of codec c lsn term entry wal_id offset payload in
      stage lsn
        (record {
          wal_id = wal_id;
          offset = offset;
          term = term;
          effect = made.0;
          migration = is_migration entry;
        })
        made.1
