-- ===== src/Storage/Collection/Apply.antt =====
-- src/storage/collection.rs: committing. `apply_committed` drains the staged frames at or below a
-- position into the index in log order, and saves the position. How a write of applied.pos or
-- applied.meta ends is an argument.
use dewdb.Prelude.{
  ℕ, max, Bool, true, false, not, ◌&&◌, List, [], ◌∷◌, ◌++◌, Bytes, leb, ◌==◌, if◌then◌else◌,
  length, is_some, unwrap_or, Option, none, some,
}
use dewdb.Prelude.Assoc.{lookup}
use dewdb.Prelude.Positions.{Positions, up_to, above}
use dewdb.Storage.Entry.{IndexEntry, apply_to}
use dewdb.Storage.Secondary.{put, remove_key, apply_change}
use dewdb.Storage.AppliedPos.{SlotEnd, lands, save_slots, read_slots}
use dewdb.Storage.Collection.{
  AppliedMeta, Collection, StagedApply, StagedEffect, put_key, remove_staged, nothing, clear,
  configure, record_handover, define_index, set_ttl, release_staged, apply_index_put,
  apply_index_remove, clear_index, bump_rich, swap_dropped, same_ttl, drop_definitions, drop_ttl,
}

-- `ChangeOp`, and a change that the feed still owes an event for.
pub data ChangeOp : Type 0 where
  change_insert change_update : ChangeOp

pub data PendingChange : Type 0 where
  wrote : (lsn : ℕ) → ChangeOp → (key : Bytes) → IndexEntry → PendingChange
  gone : (lsn : ℕ) (key : Bytes) → PendingChange
  emptied : (lsn : ℕ) → PendingChange

module _ {Value : Type 0} (same_value : Value → Value → Bool) where
  unfoldable pub apply_effect : StagedEffect Value → Collection Value → Collection Value
  unfolding apply_index_put apply_index_remove clear_index bump_rich swap_dropped same_ttl
      drop_definitions drop_ttl
  apply_effect (put_key key entry indexed) c =
      let stored = apply_index_put key entry c in
      swap_dropped false (record stored { indexes = put same_value key indexed stored.indexes })
  apply_effect (remove_staged key) c =
      let stored = apply_index_remove key c in
      swap_dropped false (record stored { indexes = remove_key same_value key stored.indexes })
  apply_effect nothing c = c
  apply_effect clear c =
      swap_dropped true (drop_ttl (drop_definitions (record (clear_index c) { indexes = [] })))
  apply_effect (define_index change) c = bump_rich (record c {
    indexes = apply_change change c.indexes;
    committed_indexes = apply_to change c.committed_indexes;
  })
  apply_effect (set_ttl ttl) c =
      if same_ttl c.committed_ttl ttl then c else bump_rich (record c { committed_ttl = ttl })
  apply_effect (configure config) c = bump_rich (record c { committed_config = some config })
  apply_effect (record_handover handover) c =
      bump_rich (record c { committed_handover = some handover })

  -- The change that a watched frame makes, judged before the frame is applied.
  unfoldable pub change_of : ℕ → StagedEffect Value → Collection Value → List PendingChange
  change_of lsn (put_key key entry indexed) c =
      wrote lsn (if is_some (lookup key c.index) then change_update else change_insert) key entry
      ∷ []
  change_of lsn (remove_staged key) c =
      if is_some (lookup key c.index) then gone lsn key ∷ [] else []
  change_of lsn clear c = emptied lsn ∷ []
  change_of lsn effect c = []

  -- One frame of the loop.
  unfoldable pub apply_one : StagedApply Value → Collection Value → Collection Value
  unfolding apply_effect release_staged
  apply_one staged c = release_staged staged.effect (apply_effect staged.effect c)

  unfoldable pub apply_ready : Positions (StagedApply Value) → Collection Value → Collection Value
  unfolding apply_one
  apply_ready [] c = c
  apply_ready ((lsn, staged) ∷ ready) c = apply_ready ready (apply_one staged c)

  unfoldable pub changes_of :
      Bool → Positions (StagedApply Value) → Collection Value → List PendingChange
  unfolding change_of apply_one
  changes_of watched [] c = []
  changes_of watched ((lsn, staged) ∷ ready) c =
      (if watched && not staged.migration then change_of lsn staged.effect c else [])
      ++ changes_of watched ready (apply_one staged c)

-- The position over both files; an error is `none`, as where no slot of applied.pos can be read.
abbrev pub over_files : Option AppliedMeta → Option (Option ℕ) → Option (Option ℕ)
over_files meta none = none
over_files none (some pos) = some none
over_files (some m) (some pos) = some (some (max m.applied_lsn (unwrap_or pos 0)))

-- How the save of a position ends: there is no file, it failed and left its slot in some way, it
-- reports success.
pub data PosWrite : Type 0 where
  pos_missing : PosWrite
  pos_failed : SlotEnd → PosWrite
  pos_written : PosWrite

module _ {Value : Type 0} where
  -- The full record; `written` tells whether its atomic write succeeded.
  unfoldable pub persist_watermark_full : ℕ → Bool → Collection Value → Collection Value × Bool
  persist_watermark_full rich written c =
      if written
      then (
        record c {
          meta_file = some (record {
            applied_lsn = c.applied_lsn;
            dropped = c.dropped;
            config = c.committed_config;
            handover = c.committed_handover;
            indexes = c.committed_indexes;
            ttl_secs = c.committed_ttl;
          });
          rich_saved = rich;
          watermark_saved = max c.watermark_saved c.applied_lsn;
        },
        true,
      )
      else (c, false)

  -- The position alone, or the full record if that fails.
  unfoldable pub save_position : PosWrite → Bool → Collection Value → Collection Value × Bool
  unfolding persist_watermark_full save_slots
  save_position pos_written written c = (
    record c {
      pos_file = save_slots lands c.applied_lsn c.pos_file;
      watermark_saved = max c.watermark_saved c.applied_lsn;
    },
    true,
  )
  save_position (pos_failed end) written c =
      persist_watermark_full c.rich_gen written
        (record c { pos_file = save_slots end c.applied_lsn c.pos_file })
  save_position pos_missing written c = persist_watermark_full c.rich_gen written c

  unfoldable pub persist_watermark :
      ℕ → PosWrite → Bool → Collection Value → Collection Value × Bool
  unfolding persist_watermark_full save_position
  persist_watermark through pos written c =
      if leb through c.watermark_saved && c.rich_gen == c.rich_saved
      then (c, true)
      else if not (c.rich_gen == c.rich_saved)
      then persist_watermark_full c.rich_gen written c
      else save_position pos written c

  unfoldable pub record_watermark_once : Bool → Collection Value → Collection Value × Bool
  unfolding persist_watermark_full
  record_watermark_once written c =
      if c.watermark_recorded
      then (c, true)
      else let saved = persist_watermark_full c.rich_gen written c in
        if saved.1 then (record saved.0 { watermark_recorded = true }, true) else saved

  unfoldable pub recorded_watermark : Collection Value → Option (Option ℕ)
  unfolding read_slots
  recorded_watermark c = over_files c.meta_file (read_slots c.pos_file)

-- What `apply_committed` leaves: the collection, whether the position is saved, how many frames it
-- drained, and the changes to publish.
pub record Committed (Value : Type 0) : Type 0 where
  pub collection : Collection Value
  pub persisted : Bool
  pub drained : ℕ
  pub changes : List PendingChange

module _ {Value : Type 0} (same_value : Value → Value → Bool) where
  -- The block under the locks.
  unfoldable pub drain : ℕ → Collection Value → Collection Value
  unfolding apply_ready up_to above
  drain committed c =
      let drained =
        apply_ready same_value (up_to committed c.pending)
          (record c { pending = above committed c.pending }) in
      record drained { applied_lsn = max drained.applied_lsn committed }

  unfoldable pub apply_committed :
      ℕ → (watched : Bool) → PosWrite → (written : Bool) → Collection Value → Committed Value
  unfolding drain changes_of persist_watermark
  apply_committed committed watched pos written c =
      let saved = persist_watermark committed pos written (drain committed c) in
      record {
        collection = saved.0;
        persisted = saved.1;
        drained = length (up_to committed c.pending);
        changes = changes_of same_value watched (up_to committed c.pending) c;
      }
