-- ===== src/Storage/Wal/Rewind.antt =====
-- src/storage/wal.rs: a collection's memory with its log, and cutting that back.
use dewdb.Prelude.{
  ℕ, Bool, true, false, not, ◌||◌, [], ◌∷◌, ltb, ◌==◌, if◌then◌else◌, Option, none, some,
}
use dewdb.Prelude.Positions.{Positions, at, up_to, above}
use dewdb.Storage.Collection.{Collection, StagedApply, release_staged}
use dewdb.Storage.Wal.{WalCut}
use dewdb.Storage.Wal.Writer.{
  Wal, io_failed, Result, ok, err, Shrink, Rotation, FrameWrite, apply_cut, rewind_index_tail,
}

pub record Store (Value : Type 0) : Type 0 where
  pub col : Collection Value
  pub wal : Wal

pub record Io : Type 0 where
  pub watermark_written : Bool
  pub heal : Shrink
  pub snapshot_written : Bool
  pub cut_recorded : Bool
  pub shrink : Shrink
  pub rotation : Rotation
  pub write : FrameWrite

module _ {Value : Type 0} where
  -- The staged frames above a position are dropped, and their memory with them.
  unfoldable pub release_all : Positions (StagedApply Value) → Collection Value → Collection Value
  unfolding release_staged
  release_all [] c = c
  release_all ((lsn, staged) ∷ doomed) c = release_all doomed (release_staged staged.effect c)

  unfoldable pub drop_staged : ℕ → Collection Value → Collection Value
  unfolding release_all up_to above
  drop_staged prev c =
      release_all (above prev c.pending) (record c { pending = up_to prev c.pending })

  unfoldable pub heal : Option WalCut → Shrink → Store Value → Store Value × Bool
  unfolding drop_staged apply_cut
  heal none shrink s = (s, true)
  heal (some c) shrink s =
      let healed = apply_cut shrink c s.wal in
      (record { col = drop_staged c.prev_lsn s.col; wal = healed.0 }, healed.1)

  unfoldable pub heal_fenced_cut : Shrink → Store Value → Store Value × Bool
  unfolding heal
  heal_fenced_cut shrink s = heal s.wal.fence shrink s

  -- The cut at the first of the frames that have to go.
  unfoldable pub first_cut : ℕ → ℕ → Positions (StagedApply Value) → Option WalCut
  first_cut prev_lsn prev_term [] = none
  first_cut prev_lsn prev_term ((lsn, staged) ∷ doomed) = some (record {
    wal_id = staged.wal_id;
    offset = staged.offset;
    prev_lsn = prev_lsn;
    prev_term = prev_term;
  })

  -- The cut that takes the log back to a position: none if an entry there or above it is not ours
  -- to drop, or if it is not the leader's.
  unfoldable pub find_cut : ℕ → ℕ → Collection Value → Option WalCut
  unfolding at above first_cut
  find_cut prev_lsn prev_term c =
      let agrees : Bool = elim (at prev_lsn c.pending) [
        | some staged ↦ staged.term == prev_term
        | none ↦ prev_lsn == c.applied_lsn
      ] in
      if ltb prev_lsn c.applied_lsn || not agrees
      then none
      else first_cut prev_lsn prev_term (above prev_lsn c.pending)

  -- The cut carried out.
  unfoldable pub rewind_by : Io → WalCut → Store Value → Store Value × Result Bool
  unfolding rewind_index_tail drop_staged apply_cut
  rewind_by io c s =
      let tail = rewind_index_tail io.snapshot_written c.prev_lsn c.prev_term s.wal in
      if not tail.1
      then (s, err io_failed)
      else if not io.cut_recorded
      then (record s { wal = tail.0 }, err io_failed)
      else let done = apply_cut io.shrink c (record tail.0 { cut_file = some c }) in
        (
          record { col = drop_staged c.prev_lsn s.col; wal = done.0 },
          if done.1 then ok true else err io_failed,
        )

  -- `ok false` is `Ok(None)`: the log was left as it is.
  unfoldable pub rewind_to : Io → ℕ → ℕ → Store Value → Store Value × Result Bool
  unfolding find_cut rewind_by
  rewind_to io prev_lsn prev_term s = elim (find_cut prev_lsn prev_term s.col) [
    | none ↦ (s, ok false)
    | some c ↦ rewind_by io c s
  ]
