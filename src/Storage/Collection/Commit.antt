-- ===== src/Storage/Collection/Commit.antt =====
-- Committing staged frames (src/storage/collection.rs) implements the map that the log describes,
-- and a reader of the newest state does not see it happen.
use dewdb.Prelude.{
  ℕ, max, ◌≡◌, refl, sym, ap, ◌∙◌, Bool, true, false, not, ◌&&◌, List, Bytes, leb, ◌==◌,
  if◌then◌else◌, Option,
}
use dewdb.Prelude.Assoc.{Assoc, lookup}
use dewdb.Prelude.Positions.{Positions, up_to, above, find_last}
use dewdb.Consensus.Config.{Configuration}
use dewdb.Storage.Entry.{IndexEntry, IndexSpec}
use dewdb.Storage.Collection.{Collection, StagedApply, resolve}
use dewdb.Storage.Collection.Apply.{
  drain, PosWrite, pos_missing, pos_failed, pos_written, persist_watermark, persist_watermark_full,
  save_position, apply_committed,
}
use dewdb.Storage.Collection.Newest.{over, replay, replay-over, lookup-apply_ready}
use dewdb.Storage.Collection.Untouched.{Outside, outside-apply_ready}

-- What a reader of the newest state sees, and the position it is committed through.
pub record View (Value : Type 0) : Type 0 where
  pub index : Assoc IndexEntry
  pub pending : Positions (StagedApply Value)
  pub ttl : Option ℕ
  pub specs : List IndexSpec
  pub config : Option Configuration
  pub applied : ℕ

abbrev pub view : {Value : Type 0} → Collection Value → View Value
view c = record {
  index = c.index;
  pending = c.pending;
  ttl = c.committed_ttl;
  specs = c.committed_indexes;
  config = c.committed_config;
  applied = c.applied_lsn;
}

module _ {Value : Type 0} where
  view-full :
      (rich : ℕ) (written : Bool) (c : Collection Value)
      → view (persist_watermark_full rich written c).0 ≡ view c
  unfolding persist_watermark_full
  view-full rich true c = refl
  view-full rich false c = refl

  view-save_position :
      (pos : PosWrite) (written : Bool) (c : Collection Value)
      → view (save_position pos written c).0 ≡ view c
  unfolding save_position
  view-save_position pos_missing written c = view-full c.rich_gen written c
  view-save_position pos_written written c = refl
  view-save_position (pos_failed end) written c = view-full c.rich_gen written _

  view-if :
      (b : Bool) (x y : Collection Value × Bool) (v : View Value)
      → view x.0 ≡ v
      → view y.0 ≡ v
      → view (if b then x else y).0 ≡ v
  view-if true x y v p q = p
  view-if false x y v p q = q

  -- Saving the position changes files and counters alone.
  view-persist_watermark :
      (through : ℕ) (pos : PosWrite) (written : Bool) (c : Collection Value)
      → view (persist_watermark through pos written c).0 ≡ view c
  unfolding persist_watermark
  view-persist_watermark through pos written c =
      view-if (leb through c.watermark_saved && c.rich_gen == c.rich_saved) (c, true) _ (view c)
        refl
        (view-if (not (c.rich_gen == c.rich_saved)) (persist_watermark_full c.rich_gen written c)
          (save_position pos written c) (view c) (view-full c.rich_gen written c)
          (view-save_position pos written c))

module _ {Value : Type 0} (same_value : Value → Value → Bool) where
  pub view-committed :
      (committed : ℕ) (watched : Bool) (pos : PosWrite) (written : Bool) (c : Collection Value)
      → view (apply_committed same_value committed watched pos written c).collection
        ≡ view (drain same_value committed c)
  unfolding apply_committed
  view-committed committed watched pos written c =
      view-persist_watermark committed pos written (drain same_value committed c)

  pub pending-drain :
      (committed : ℕ) (c : Collection Value)
      → (drain same_value committed c).pending ≡ above committed c.pending
  unfolding drain
  pending-drain committed c =
      ap (λ (o : Outside Value). o.pending)
        (outside-apply_ready same_value (up_to committed c.pending)
          (record c { pending = above committed c.pending }))

  applied-drain :
      (committed : ℕ) (c : Collection Value)
      → (drain same_value committed c).applied_lsn ≡ max c.applied_lsn committed
  unfolding drain
  applied-drain committed c =
      ap (λ (o : Outside Value). max o.applied committed)
        (outside-apply_ready same_value (up_to committed c.pending)
          (record c { pending = above committed c.pending }))

  pub lookup-drain :
      (committed : ℕ) (c : Collection Value) (k : Bytes)
      → lookup k (drain same_value committed c).index
        ≡ over (find_last (λ s. resolve s.effect k) (up_to committed c.pending)) (lookup k c.index)
  unfolding drain
  lookup-drain committed c k = lookup-apply_ready same_value (up_to committed c.pending) k _

  -- Committing implements the map that the log describes. However the save of the position ends,
  -- the index afterwards holds under a key what the staged frames at or below the position, run in
  -- the order of the log on the map before, leave there; those above the position stay staged, and
  -- the position applied does not fall and covers the one committed.
  pub apply_committed_lem :
      (committed : ℕ) (watched : Bool) (pos : PosWrite) (written : Bool) (c : Collection Value)
      (k : Bytes)
      → (lookup k (apply_committed same_value committed watched pos written c).collection.index
          ≡ replay (up_to committed c.pending) (λ j. lookup j c.index) k)
        × ((apply_committed same_value committed watched pos written c).collection.pending
            ≡ above committed c.pending)
        × ((apply_committed same_value committed watched pos written c).collection.applied_lsn
            ≡ max c.applied_lsn committed)
  apply_committed_lem committed watched pos written c k =
      let kept = view-committed committed watched pos written c in
      (
        ap (λ (v : View Value). lookup k v.index) kept
            ∙ lookup-drain committed c k
            ∙ sym (replay-over (up_to committed c.pending) (λ j. lookup j c.index) k),
        ap (λ (v : View Value). v.pending) kept ∙ pending-drain committed c,
        ap (λ (v : View Value). v.applied) kept ∙ applied-drain committed c,
      )
