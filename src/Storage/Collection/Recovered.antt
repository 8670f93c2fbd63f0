-- ===== src/Storage/Collection/Recovered.antt =====
-- The position that a restart recovers (src/storage/collection.rs): it covers what was reported
-- committed and nothing that was not applied, or the restart reports that it cannot be read.
use dewdb.Prelude.{
  ℕ, max, ◌+◌, ◌^◌, ◌<◌, ◌≤◌, ◌≡◌, refl, sym, inl, inr, Bool, true, false, not, ◌&&◌, leb, leb→le,
  and_left, ◌==◌, if◌then◌else◌, is_some, arith,
}
use mathlib.Core.Path.{subst}
use dewdb.Prelude.Positions.{up_to, above}
use dewdb.Storage.AppliedPos.{SlotEnd, lands, save_slots, read_slots}
use dewdb.Storage.AppliedPos.Turns.{
  IsTurned, AreWithin, failed_save_reads, turned_reads, save-AreWithin,
}
use dewdb.Storage.Collection.{Collection}
use dewdb.Storage.Collection.Apply.{
  drain, PosWrite, pos_missing, pos_failed, pos_written, persist_watermark, persist_watermark_full,
  save_position, recorded_watermark, apply_committed,
}
use dewdb.Storage.Collection.Untouched.{Outside, outside-apply_ready}
use dewdb.Storage.Collection.Kept.{
  Recovers, IsKept, kept-Recovers, failed-Recovers, saved-IsKept, kept_within, IsKept-later,
  readable, read_over_files, Recovers-from,
}

module _ {Value : Type 0} where
  abbrev pub IsRecorded : Collection Value → Type 0
  IsRecorded c = IsKept c.meta_file c.pos_file c.watermark_saved c.applied_lsn

  -- What the files recover lies from what is noted as saved to what is applied.
  abbrev pub RecoversNoted : Collection Value → Type 0
  RecoversNoted c = Recovers c.watermark_saved c.applied_lsn (recorded_watermark c)

  -- What a save of the position of `c` leaves, and what it means that it reports success.
  abbrev IsSavedThrough : ℕ → Collection Value → Collection Value × Bool → Type 0
  IsSavedThrough through c r =
      RecoversNoted r.0
      × (r.1 ≡ true → IsRecorded r.0 × (through ≤ r.0.watermark_saved))
      × ((lsn : ℕ) → IsTurned c.pos_file lsn → is_some (read_slots r.0.pos_file) ≡ true)

  recorded-Recovers : (c : Collection Value) → IsRecorded c → RecoversNoted c
  unfolding recorded_watermark
  recorded-Recovers c k = kept-Recovers c.meta_file c.pos_file c.watermark_saved c.applied_lsn k

  if-IsSavedThrough :
      (through : ℕ) (b : Bool) (c : Collection Value) (x y : Collection Value × Bool)
      → (b ≡ true → IsSavedThrough through c x)
      → (b ≡ false → IsSavedThrough through c y)
      → IsSavedThrough through c (if b then x else y)
  if-IsSavedThrough through true c x y p q = p refl
  if-IsSavedThrough through false c x y p q = q refl

  -- The full record covers the position whatever the slots hold within bounds.
  full-IsRecorded :
      (rich : ℕ) (c : Collection Value)
      → (c.watermark_saved ≤ c.applied_lsn)
      → AreWithin c.pos_file c.applied_lsn
      → IsRecorded (persist_watermark_full rich true c).0
        × ((persist_watermark_full rich true c).0.watermark_saved ≡ c.applied_lsn)
  unfolding persist_watermark_full
  full-IsRecorded rich c n w = ((omega arith, omega arith, w, inl (omega arith)), omega arith)

  full-IsSavedThrough :
      (through rich : ℕ) (written : Bool) (c : Collection Value)
      → IsRecorded c
      → through ≤ c.applied_lsn
      → IsSavedThrough through c (persist_watermark_full rich written c)
  unfolding persist_watermark_full
  full-IsSavedThrough through rich true c k h =
      let (n, w) = kept_within c.meta_file c.pos_file c.watermark_saved c.applied_lsn k in
      let (r, at) = full-IsRecorded rich c n w in
      (
        recorded-Recovers (persist_watermark_full rich true c).0 r,
        λ _. (r, omega (arith, at, h)),
        λ lsn t. readable c.pos_file lsn (turned_reads c.pos_file lsn t),
      )
  full-IsSavedThrough through rich false c k h = (
    recorded-Recovers c k,
    λ e. absurd (ground arith),
    λ lsn t. readable c.pos_file lsn (turned_reads c.pos_file lsn t),
  )

  failed_readable :
      (end : SlotEnd) (lsn : ℕ) (c : Collection Value)
      → c.pos_file.seq + 1 < 2 ^ 64
      → IsTurned c.pos_file lsn
      → is_some (read_slots (save_slots end c.applied_lsn c.pos_file)) ≡ true
  failed_readable end lsn c small t =
      elim (failed_save_reads end lsn c.applied_lsn c.pos_file small t) [
        | inl e ↦ readable (save_slots end c.applied_lsn c.pos_file) lsn e
        | inr e ↦ readable (save_slots end c.applied_lsn c.pos_file) c.applied_lsn e
      ]

  save_position-IsSavedThrough :
      (through : ℕ) (pos : PosWrite) (written : Bool) (c : Collection Value)
      → c.pos_file.seq + 1 < 2 ^ 64
      → IsRecorded c
      → through ≤ c.applied_lsn
      → IsSavedThrough through c (save_position pos written c)
  unfolding save_position recorded_watermark persist_watermark_full
  save_position-IsSavedThrough through pos_missing written c small k h =
      full-IsSavedThrough through c.rich_gen written c k h
  save_position-IsSavedThrough through (pos_failed end) true c small k h =
      let failed : Collection Value = record c {
        pos_file = save_slots end c.applied_lsn c.pos_file;
      } in
      let (n, w) = kept_within c.meta_file c.pos_file c.watermark_saved c.applied_lsn k in
      let (r, at) =
        full-IsRecorded c.rich_gen failed n (save-AreWithin end c.applied_lsn c.pos_file small w) in
      (
        recorded-Recovers (persist_watermark_full c.rich_gen true failed).0 r,
        λ _. (r, omega (arith, at, h)),
        λ lsn t. failed_readable end lsn c small t,
      )
  save_position-IsSavedThrough through (pos_failed end) false c small k h = (
    failed-Recovers c.meta_file end c.pos_file c.watermark_saved c.applied_lsn small k,
    λ e. absurd (ground arith),
    λ lsn t. failed_readable end lsn c small t,
  )
  save_position-IsSavedThrough through pos_written written c small k h =
      let r = saved-IsKept c.meta_file c.pos_file c.watermark_saved c.applied_lsn small k in
      let after = save_slots lands c.applied_lsn c.pos_file in
      (
        kept-Recovers c.meta_file after (max c.watermark_saved c.applied_lsn) c.applied_lsn r,
        λ _. (r, omega (arith, h)),
        λ lsn t. failed_readable lands lsn c small t,
      )

  persist-IsSavedThrough :
      (through : ℕ) (pos : PosWrite) (written : Bool) (c : Collection Value)
      → c.pos_file.seq + 1 < 2 ^ 64
      → IsRecorded c
      → through ≤ c.applied_lsn
      → IsSavedThrough through c (persist_watermark through pos written c)
  unfolding persist_watermark
  persist-IsSavedThrough through pos written c small k h =
      let done = leb through c.watermark_saved && c.rich_gen == c.rich_saved in
      if-IsSavedThrough through done c (c, true)
        (if not (c.rich_gen == c.rich_saved)
          then persist_watermark_full c.rich_gen written c
          else save_position pos written c)
        (λ (e : done ≡ true). (
          recorded-Recovers c k,
          λ _. (k, leb→le through c.watermark_saved (and_left _ _ e)),
          λ lsn t. readable c.pos_file lsn (turned_reads c.pos_file lsn t),
        ))
        (λ _.
          if-IsSavedThrough through (not (c.rich_gen == c.rich_saved)) c
            (persist_watermark_full c.rich_gen written c) (save_position pos written c)
            (λ _. full-IsSavedThrough through c.rich_gen written c k h)
            (λ _. save_position-IsSavedThrough through pos written c small k h))

module _ {Value : Type 0} (same_value : Value → Value → Bool) where
  drain-IsRecorded :
      (committed : ℕ) (c : Collection Value)
      → IsRecorded c
      → IsRecorded (drain same_value committed c)
        × (committed ≤ (drain same_value committed c).applied_lsn)
        × ((drain same_value committed c).pos_file ≡ c.pos_file)
  unfolding drain
  drain-IsRecorded committed c k =
      subst
        (λ (o : Outside Value).
          IsKept o.meta o.pos o.saved (max o.applied committed)
          × (committed ≤ max o.applied committed)
          × (o.pos ≡ c.pos_file))
        (sym (
          outside-apply_ready same_value (up_to committed c.pending)
            (record c { pending = above committed c.pending })))
        (
          IsKept-later c.meta_file c.pos_file c.watermark_saved c.applied_lsn
              (max c.applied_lsn committed) (omega arith) k,
          omega arith,
          refl,
        )

  -- The position a restart recovers follows the commits. Let the files record what was noted as
  -- saved: by the full record, or by the last save of the position, neither slot holding more
  -- than is applied. Then after a commit, however the writes of it end, a restart reports that
  -- the position cannot be read, or recovers one that covers what is noted as saved and nothing
  -- that is not applied. Where the commit reports no failure, the position covers the one
  -- committed and the files are again as was asked of them. And where the last save of the
  -- position had left its record, the file can be read also behind this one.
  pub committed_is_recovered :
      (committed : ℕ) (watched : Bool) (pos : PosWrite) (written : Bool) (c : Collection Value)
      → c.pos_file.seq + 1 < 2 ^ 64
      → IsRecorded c
      → let r = apply_committed same_value committed watched pos written c in
        RecoversNoted r.collection
        × (r.persisted ≡ true
            → IsRecorded r.collection
              × Recovers committed r.collection.applied_lsn (recorded_watermark r.collection))
        × ((lsn : ℕ) → IsTurned c.pos_file lsn → is_some (recorded_watermark r.collection) ≡ true)
  unfolding apply_committed recorded_watermark
  committed_is_recovered committed watched pos written c small k =
      let d = drain same_value committed c in
      let (kept, through, same) = drain-IsRecorded committed c k in
      let r = persist_watermark committed pos written d in
      let (noted, saved, read) =
        persist-IsSavedThrough committed pos written d
          (subst (λ q. q.seq + 1 < 2 ^ 64) (sym same) small) kept through in
      (
        noted,
        λ e.
            let (again, covers) = saved e in
            (
              again,
              Recovers-from committed r.0.watermark_saved r.0.applied_lsn (recorded_watermark r.0)
                  covers noted,
            ),
        λ lsn t.
            read_over_files r.0.meta_file (read_slots r.0.pos_file)
              (read lsn (subst (λ q. IsTurned q lsn) (sym same) t)),
      )
