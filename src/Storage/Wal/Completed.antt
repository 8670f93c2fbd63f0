-- ===== src/Storage/Wal/Completed.antt =====
-- A cut that failed part-way (src/storage/wal.rs) is completed by the retry before the next append
-- or by the boot that follows.
use dewdb.Prelude.{
  ℕ, ◌≡◌, refl, ap, ◌∙◌, ◌⊎◌, inl, inr, Bool, true, false, List, [], ◌∷◌, none, some, arith,
}
use dewdb.Storage.Wal.{WalCut, StoredFrame, empty_above, truncate_files}
use dewdb.Storage.Wal.Writer.{
  Wal, Shrink, shrink_failed, reopen_failed, clear_failed, cut_through, apply_cut,
  complete_recorded,
}
use dewdb.Storage.Wal.Cut.{truncate-empty_above, truncate-truncate}

-- The cut tried again and again, each time with its end.
abbrev pub attempts : WalCut → List Shrink → Wal → Wal
attempts c [] wal = wal
attempts c (shrink ∷ tries) wal = attempts c tries (apply_cut shrink c wal).0

empty_above-truncate :
    (c : WalCut) (emptied : ℕ → Bool) (files : List StoredFrame)
    → empty_above c emptied (truncate_files c files) ≡ truncate_files c files
unfolding truncate_files empty_above
empty_above-truncate c emptied [] = refl
empty_above-truncate c emptied (f ∷ fs) = ground (arith, empty_above-truncate c emptied fs)

-- The cut can still be made, and its record is there, or it is made and the record gone.
abbrev IsUnderWay : WalCut → List StoredFrame → Wal → Type 0
IsUnderWay c files wal =
    (truncate_files c wal.files ≡ truncate_files c files)
    × ((wal.cut_file ≡ some c) ⊎ ((wal.files ≡ truncate_files c files) × (wal.cut_file ≡ none)))

apply_cut-IsUnderWay :
    (c : WalCut) (files : List StoredFrame) (shrink : Shrink) (wal : Wal)
    → IsUnderWay c files wal
    → IsUnderWay c files (apply_cut shrink c wal).0
unfolding apply_cut
apply_cut-IsUnderWay c files (shrink_failed emptied) wal (e, inl r) =
    (truncate-empty_above c emptied wal.files ∙ e, inl r)
apply_cut-IsUnderWay c files (shrink_failed emptied) wal (e, inr (r, n)) = (
  truncate-empty_above c emptied wal.files ∙ e,
  inr (ap (empty_above c emptied) r ∙ empty_above-truncate c emptied files, n),
)
apply_cut-IsUnderWay c files reopen_failed wal (e, inl r) =
    (truncate-truncate c wal.files ∙ e, inl r)
apply_cut-IsUnderWay c files reopen_failed wal (e, inr (r, n)) =
    (truncate-truncate c wal.files ∙ e, inr (e, n))
apply_cut-IsUnderWay c files (clear_failed true) wal (e, r) =
    (truncate-truncate c wal.files ∙ e, inr (e, refl))
apply_cut-IsUnderWay c files (clear_failed false) wal (e, inl r) =
    (truncate-truncate c wal.files ∙ e, inl r)
apply_cut-IsUnderWay c files (clear_failed false) wal (e, inr (r, n)) =
    (truncate-truncate c wal.files ∙ e, inr (e, n))
apply_cut-IsUnderWay c files cut_through wal (e, r) =
    (truncate-truncate c wal.files ∙ e, inr (e, refl))

attempts-IsUnderWay :
    (c : WalCut) (files : List StoredFrame) (tries : List Shrink) (wal : Wal)
    → IsUnderWay c files wal
    → IsUnderWay c files (attempts c tries wal)
attempts-IsUnderWay c files [] wal u = u
attempts-IsUnderWay c files (shrink ∷ tries) wal u =
    attempts-IsUnderWay c files tries (apply_cut shrink c wal).0
      (apply_cut-IsUnderWay c files shrink wal u)

booted :
    (c : WalCut) (files : List StoredFrame) (wal : Wal)
    → IsUnderWay c files wal
    → (complete_recorded wal).files ≡ truncate_files c files
unfolding complete_recorded
booted c files wal (e, inl r) = rw (r, complete_recorded) e
booted c files wal (e, inr (r, n)) = rw (n, complete_recorded) r

-- A truncation that is recorded is finished. However often carrying it out failed, and wherever,
-- a boot then leaves the files that one uninterrupted truncation leaves; so does the next retry
-- that goes through, which lifts the fence and puts the log's tail at the cut.
pub cut_is_completed :
    (c : WalCut) (tries : List Shrink) (wal : Wal)
    → wal.cut_file ≡ some c
    → ((complete_recorded (attempts c tries wal)).files ≡ truncate_files c wal.files)
      × ((apply_cut cut_through c (attempts c tries wal)).0.files ≡ truncate_files c wal.files)
      × ((apply_cut cut_through c (attempts c tries wal)).0.fence ≡ none)
      × ((apply_cut cut_through c (attempts c tries wal)).0.last_appended_lsn ≡ c.prev_lsn)
      × ((apply_cut cut_through c (attempts c tries wal)).0.durable_lsn ≡ c.prev_lsn)
unfolding apply_cut
cut_is_completed c tries wal r =
    let u = attempts-IsUnderWay c wal.files tries wal (refl, inl r) in
    (booted c wal.files (attempts c tries wal) u, u.0, refl, refl, refl)
