-- ===== src/Storage/Wal/Rewound.antt =====
-- Taking a replica's log back to where its leader's agrees (src/storage/wal.rs) never drops a
-- committed frame, whatever fails on the way.
use dewdb.Prelude.{
  ℕ, ◌≤◌, ◌≡◌, refl, sym, ap, ◌∙◌, ◌⊎◌, inl, inr, Bool, true, false, not, ◌||◌, List, [], ◌∷◌, leb,
  ltb, ◌==◌, if◌then◌else◌, keep, Option, none, some, arith, Bool-cases, Option-cases,
}
use dewdb.Prelude.Positions.{Positions, at, above}
use dewdb.Storage.Collection.{StagedApply}
use dewdb.Storage.Wal.{WalCut, StoredFrame, FrameSpot, truncate_files}
use dewdb.Storage.Wal.Recent.{above_floor, keep_twice}
use dewdb.Storage.Wal.Cut.{
  Tail, IsLaid, through, file_spots, truncate_lem, truncate-empty_above, truncate-truncate,
}
use dewdb.Storage.Wal.Writer.{
  Wal, Result, ok, err, io_failed, Shrink, shrink_failed, reopen_failed, clear_failed, cut_through,
  apply_cut, rewind_index_tail,
}
use dewdb.Storage.Wal.Rewind.{Store, Io, first_cut, find_cut, drop_staged, rewind_by, rewind_to}

-- The frames of the log: those of the files, without what a cut under way will take.
abbrev pub live_of : Option WalCut → List StoredFrame → List StoredFrame
live_of none files = files
live_of (some c) files = truncate_files c files

abbrev pub live_log : Wal → List StoredFrame
live_log wal = live_of wal.fence wal.files

if_found :
    (b : Bool) (o : Option WalCut) (c : WalCut)
    → (if b then none else o) ≡ some c
    → (b ≡ false) × (o ≡ some c)
if_found true o c h = absurd (ground arith)
if_found false o c h = (refl, h)

not_behind : (prev applied : ℕ) (b : Bool) → (ltb prev applied || b) ≡ false → applied ≤ prev
not_behind prev applied b h = ground arith

module _ {Value : Type 0} where
  abbrev pub spots_of : Positions (StagedApply Value) → List FrameSpot
  spots_of [] = []
  spots_of ((lsn, s) ∷ pending) =
      record { lsn = lsn; term = s.term; wal_id = s.wal_id; offset = s.offset } ∷ spots_of pending

  -- The frames of the files follow each other, and those above the committed position are staged,
  -- each with its place.
  abbrev pub IsAligned : Tail → Store Value → Type 0
  IsAligned start s =
      IsLaid start s.wal.files
      × (spots_of s.col.pending ≡ keep (above_floor s.col.applied_lsn) (file_spots s.wal.files))

  keep-spots_of :
      (prev : ℕ) (pending : Positions (StagedApply Value))
      → keep (above_floor prev) (spots_of pending) ≡ spots_of (above prev pending)
  unfolding above
  keep-spots_of prev [] = refl
  keep-spots_of prev ((lsn, s) ∷ pending) = ground (arith, keep-spots_of prev pending)

  first_cut_lem :
      (start : Tail) (prev prev_term : ℕ) (files : List StoredFrame) (c : WalCut)
      (doomed : Positions (StagedApply Value))
      → IsLaid start files
      → keep (above_floor prev) (file_spots files) ≡ spots_of doomed
      → first_cut prev prev_term doomed ≡ some c
      → truncate_files c files ≡ through prev files
  unfolding first_cut
  first_cut_lem start prev prev_term files c [] laid e found = absurd (ground arith)
  first_cut_lem start prev prev_term files c ((lsn, staged) ∷ doomed) laid e found =
      truncate_lem c prev start files _ (spots_of doomed) laid e (ground arith) (ground arith)

  find_cut_lem :
      (start : Tail) (prev prev_term : ℕ) (s : Store Value) (c : WalCut)
      → IsAligned start s
      → find_cut prev prev_term s.col ≡ some c
      → (s.col.applied_lsn ≤ prev) × (truncate_files c s.wal.files ≡ through prev s.wal.files)
  unfolding find_cut
  find_cut_lem start prev prev_term s c (laid, aligned) found =
      let agrees : Bool = elim (at prev s.col.pending) [
        | some staged ↦ staged.term == prev_term
        | none ↦ prev == s.col.applied_lsn
      ] in
      let kept =
        if_found (ltb prev s.col.applied_lsn || not agrees)
          (first_cut prev prev_term (above prev s.col.pending)) c found in
      let le = not_behind prev s.col.applied_lsn (not agrees) kept.0 in
      (
        le,
        first_cut_lem start prev prev_term s.wal.files c (above prev s.col.pending) laid
            (sym (keep_twice s.col.applied_lsn prev (file_spots s.wal.files) le)
              ∙ ap (keep (above_floor prev)) (sym aligned)
              ∙ keep-spots_of prev s.col.pending)
            kept.1,
      )

-- What carrying out a cut leaves of the log, however it ends.
live-apply_cut :
    (shrink : Shrink) (c : WalCut) (wal : Wal)
    → live_log (apply_cut shrink c wal).0 ≡ truncate_files c wal.files
unfolding apply_cut
live-apply_cut (shrink_failed emptied) c wal = truncate-empty_above c emptied wal.files
live-apply_cut reopen_failed c wal = truncate-truncate c wal.files
live-apply_cut (clear_failed removed) c wal = truncate-truncate c wal.files
live-apply_cut cut_through c wal = refl

-- The log that a store has after a step is the one before, or that through a position.
abbrev IsKept : ℕ → List StoredFrame → Wal → Type 0
IsKept prev files wal = (live_log wal ≡ files) ⊎ (live_log wal ≡ through prev files)

through_twice :
    (applied prev : ℕ) (files : List StoredFrame)
    → applied ≤ prev
    → through applied (through prev files) ≡ through applied files
through_twice applied prev [] le = refl
through_twice applied prev (f ∷ fs) le = ground (arith, through_twice applied prev fs le)

kept_committed :
    (applied prev : ℕ) (files : List StoredFrame) (wal : Wal)
    → applied ≤ prev
    → IsKept prev files wal
    → ((live_log wal ≡ files) ⊎ ((live_log wal ≡ through prev files) × (applied ≤ prev)))
      × (through applied (live_log wal) ≡ through applied files)
kept_committed applied prev files wal le (inl e) = (inl e, ap (through applied) e)
kept_committed applied prev files wal le (inr e) =
    (inr (e, le), ap (through applied) e ∙ through_twice applied prev files le)

open-IsKept :
    (prev : ℕ) (wal : Wal) (files : List StoredFrame)
    → wal.fence ≡ none
    → wal.files ≡ files
    → IsKept prev files wal
open-IsKept prev wal files e f = inl (rw e f)

files-rewind_index_tail :
    (written : Bool) (lsn term : ℕ) (wal : Wal)
    → ((rewind_index_tail written lsn term wal).0.files ≡ wal.files)
      × ((rewind_index_tail written lsn term wal).0.fence ≡ wal.fence)
unfolding rewind_index_tail
files-rewind_index_tail written lsn term wal = elim (Option-cases wal.snapshot_tail) [
  | inl e ↦ rw (e, rewind_index_tail) (refl, refl)
  | inr (tail, e) ↦ (elim (Bool-cases (leb tail.0 lsn)) [
    | inl b ↦ rw (e, b, rewind_index_tail) (refl, refl)
    | inr b ↦ (elim (Bool-cases written) [
      | inl w ↦ rw (e, b, w, rewind_index_tail) (refl, refl)
      | inr w ↦ rw (e, b, w, rewind_index_tail) (refl, refl)
    ])
  ])
]

module _ {Value : Type 0} where
  if-IsKept :
      (prev : ℕ) (files : List StoredFrame) (b : Bool) (x y : Store Value × Result Bool)
      → IsKept prev files x.0.wal
      → IsKept prev files y.0.wal
      → IsKept prev files (if b then x else y).0.wal
  if-IsKept prev files true x y p q = p
  if-IsKept prev files false x y p q = q

  rewind_by-IsKept :
      (io : Io) (prev : ℕ) (c : WalCut) (s : Store Value)
      → s.wal.fence ≡ none
      → truncate_files c s.wal.files ≡ through prev s.wal.files
      → IsKept prev s.wal.files (rewind_by io c s).0.wal
  unfolding rewind_by
  rewind_by-IsKept io prev c s e cuts =
      let tail = rewind_index_tail io.snapshot_written c.prev_lsn c.prev_term s.wal in
      let same = files-rewind_index_tail io.snapshot_written c.prev_lsn c.prev_term s.wal in
      let done = apply_cut io.shrink c (record tail.0 { cut_file = some c }) in
      if-IsKept prev s.wal.files (not tail.1) (s, err io_failed)
        (if not io.cut_recorded then (record s { wal = tail.0 }, err io_failed) else (
          record { col = drop_staged c.prev_lsn s.col; wal = done.0 },
          if done.1 then ok true else err io_failed,
        ))
        (open-IsKept prev s.wal s.wal.files e refl)
        (if-IsKept prev s.wal.files (not io.cut_recorded) (record s { wal = tail.0 }, err io_failed)
          (
            record { col = drop_staged c.prev_lsn s.col; wal = done.0 },
            if done.1 then ok true else err io_failed,
          )
          (open-IsKept prev tail.0 s.wal.files (same.1 ∙ e) same.0)
          (inr (
            live-apply_cut io.shrink c (record tail.0 { cut_file = some c })
            ∙ ap (truncate_files c) same.0
            ∙ cuts)))

  -- Taking the log back never drops a committed frame. The frames of the log follow each other and
  -- those above the committed position are staged with their places. Then, whatever fails on the
  -- way, the log that is left is the one before or its frames through the leader's position, where
  -- a truncation under way counts as made; the second only if that position is not below the
  -- committed one; and the committed frames are in it as they were.
  pub rewind_keeps_committed :
      (start : Tail) (io : Io) (prev prev_term : ℕ) (s : Store Value)
      → IsAligned start s
      → s.wal.fence ≡ none
      → ((live_log (rewind_to io prev prev_term s).0.wal ≡ s.wal.files)
          ⊎ ((live_log (rewind_to io prev prev_term s).0.wal ≡ through prev s.wal.files)
              × (s.col.applied_lsn ≤ prev)))
        × (through s.col.applied_lsn (live_log (rewind_to io prev prev_term s).0.wal)
            ≡ through s.col.applied_lsn s.wal.files)
  unfolding rewind_to
  rewind_keeps_committed start io prev prev_term s al e =
      elim (Option-cases (find_cut prev prev_term s.col)) [
        | inl none_found ↦ rw (none_found, rewind_to) (rw e (inl refl, refl))
        | inr (c, found) ↦
            let cuts = find_cut_lem start prev prev_term s c al found in
            rw (found, rewind_to)
              (kept_committed s.col.applied_lsn prev s.wal.files (rewind_by io c s).0.wal cuts.0
                (rewind_by-IsKept io prev c s e cuts.1))
      ]
