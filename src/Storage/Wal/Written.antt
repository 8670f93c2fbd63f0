-- ===== src/Storage/Wal/Written.antt =====
-- Writing a frame behind the log (src/storage/wal.rs) and turning to the next file leave the
-- committed frames alone.
use dewdb.Prelude.{
  ℕ, ◌<◌, ◌≡◌, refl, ap, ◌∙◌, inl, inr, Bool, true, false, not, List, [], ◌∷◌, ◌++◌, Bytes, ltb,
  if◌then◌else◌, Option, none, some, arith, Bool-cases,
}
use dewdb.Storage.Frame.{FrameHeader}
use dewdb.Storage.Entry.{LogEntry, Codec}
use dewdb.Storage.Wal.{WalCut, StoredFrame, truncate_files, wal_rotation_limit}
use dewdb.Storage.Wal.Cut.{through}
use dewdb.Storage.Wal.Writer.{
  Wal, Result, err, io_failed, Rotation, next_file, add_frame, sync_failed, open_failed, rotated,
  FrameWrite, write_failed, write_done, open_next_wal, rotate, rotate_past_torn_write, push_frame,
}
use dewdb.Storage.Wal.Rewind.{Store, Io}
use dewdb.Storage.Wal.Append.{put_frame, write_frame}
use dewdb.Storage.Wal.Rewound.{live_log, live_of}

-- The committed frames of a log.
abbrev pub committed_frames : ℕ → Wal → List StoredFrame
committed_frames n wal = through n (live_log wal)

live-open_next_wal :
    (opened : Bool) (wal : Wal) → live_log (open_next_wal opened wal) ≡ live_log wal
unfolding open_next_wal
live-open_next_wal true wal = refl
live-open_next_wal false wal = refl

live-next_file :
    (rotation : Rotation) (wal : Wal) → live_log (next_file rotation wal).0 ≡ live_log wal
unfolding next_file
live-next_file sync_failed wal = refl
live-next_file open_failed wal = live-open_next_wal false wal
live-next_file rotated wal = live-open_next_wal true wal

live-rotate : (rotation : Rotation) (wal : Wal) → live_log (rotate rotation wal).0 ≡ live_log wal
unfolding rotate
live-rotate rotation wal = elim (Bool-cases (ltb wal.current_wal_size wal_rotation_limit)) [
  | inl e ↦ rw (e, rotate) refl
  | inr e ↦ rw (e, rotate) (live-next_file rotation wal)
]

through-snoc :
    (n : ℕ) (f : StoredFrame) (files : List StoredFrame)
    → n < f.header.lsn
    → through n (files ++ f ∷ []) ≡ through n files
through-snoc n f [] h = ground arith
through-snoc n f (g ∷ files) h = ground (arith, through-snoc n f files h)

truncate-snoc :
    (n : ℕ) (c : WalCut) (f : StoredFrame) (files : List StoredFrame)
    → n < f.header.lsn
    → through n (truncate_files c (files ++ f ∷ [])) ≡ through n (truncate_files c files)
unfolding truncate_files
truncate-snoc n c f [] h = ground arith
truncate-snoc n c f (g ∷ files) h = ground (arith, truncate-snoc n c f files h)

-- A frame above the committed position adds nothing to the committed frames.
committed-add_frame :
    (n : ℕ) (torn : Bool) (f : StoredFrame) (fence : Option WalCut) (files : List StoredFrame)
    → n < f.header.lsn
    → through n (live_of fence (add_frame torn f files)) ≡ through n (live_of fence files)
unfolding add_frame
committed-add_frame n true f fence files h = refl
committed-add_frame n false f none files h = through-snoc n f files h
committed-add_frame n false f (some c) files h = truncate-snoc n c f files h

committed-push_frame :
    (n : ℕ) (header : FrameHeader) (payload : Bytes) (wal : Wal)
    → n < header.lsn
    → committed_frames n (push_frame header payload wal) ≡ committed_frames n wal
unfolding push_frame
committed-push_frame n header payload wal h =
    committed-add_frame n wal.handle_torn _ wal.fence wal.files h

module _ {Value : Type 0} where
  pub committed-if :
      {A : Type 0} (n : ℕ) (b : Bool) (x y : Store Value × Result A) (l : List StoredFrame)
      → committed_frames n x.0.wal ≡ l
      → committed_frames n y.0.wal ≡ l
      → committed_frames n (if b then x else y).0.wal ≡ l
  committed-if n true x y l p q = p
  committed-if n false x y l p q = q

  committed-put_frame :
      (codec : Codec Value) (write : FrameWrite) (n : ℕ) (header : FrameHeader)
      (entry : LogEntry Value) (payload : Bytes) (s : Store Value)
      → n < header.lsn
      → committed_frames n (put_frame codec write header entry payload s).0.wal
        ≡ committed_frames n s.wal
  unfolding put_frame rotate_past_torn_write
  committed-put_frame codec (write_failed torn next_opened) n header entry payload s h =
      ap (through n) (live-open_next_wal next_opened _)
  committed-put_frame codec write_done n header entry payload s h =
      committed-push_frame n header payload s.wal h

  pub committed-write_frame :
      (codec : Codec Value) (io : Io) (n : ℕ) (header : FrameHeader) (entry : LogEntry Value)
      (payload : Bytes) (s : Store Value)
      → n < header.lsn
      → committed_frames n (write_frame codec io header entry payload s).0.wal
        ≡ committed_frames n s.wal
  unfolding write_frame
  committed-write_frame codec io n header entry payload s h =
      let turned = rotate io.rotation s.wal in
      let same = ap (through n) (live-rotate io.rotation s.wal) in
      committed-if n (not turned.1) (record s { wal = turned.0 }, err io_failed)
        (put_frame codec io.write header entry payload (record s { wal = turned.0 }))
        (committed_frames n s.wal) same
        (committed-put_frame codec io.write n header entry payload (record s { wal = turned.0 }) h
          ∙ same)
