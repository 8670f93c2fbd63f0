-- ===== src/Storage/Wal/Writer.antt =====
-- src/storage/wal.rs: the writer of a log, its rotation from file to file, and how a cut is carried
-- out. How each step on the file system ends is an argument, and a step that fails leaves what the
-- code leaves.
use dewdb.Prelude.{
  ℕ, ◌+◌, max, Bool, true, false, ◌||◌, List, [], ◌∷◌, ◌++◌, Bytes, leb, ltb, if◌then◌else◌, length,
  Option, none, some,
}
use dewdb.Storage.Frame.{FrameHeader, header_len}
use dewdb.Storage.Wal.{
  WalCut, StoredFrame, RecentFrames, wal_rotation_limit, empty_above, truncate_files, push, cut,
}

-- `WalsState` with the file that the writer has open (`handle`) and whether that ends in part of
-- a frame, behind which nothing is read; and the other fields of a collection that its log moves;
-- the files; the recorded cut, and the tail that the index snapshot names.
pub record Wal : Type 0 where
  pub handle : ℕ
  pub handle_torn : Bool
  pub current_wal_id : ℕ
  pub current_wal_size : ℕ
  pub last_appended_lsn : ℕ
  pub last_appended_term : ℕ
  pub recent : RecentFrames
  pub fence : Option WalCut
  pub released : Bool
  pub durable_lsn : ℕ
  pub db_next_lsn : ℕ
  pub db_last_log_term : ℕ
  pub files : List StoredFrame
  pub cut_file : Option WalCut
  pub snapshot_tail : Option (ℕ × ℕ)

pub data IoError : Type 0 where
  invalid_data invalid_input not_found io_failed : IoError

pub data Result (A : Type 0) : Type 0 where
  ok : A → Result A
  err : IoError → Result A

-- How carrying out a cut ends: some files above it emptied and no more; all truncated, and the
-- writer not reopened; truncated and the record removed or not, with an error; through.
pub data Shrink : Type 0 where
  shrink_failed : (emptied : ℕ → Bool) → Shrink
  reopen_failed : Shrink
  clear_failed : (removed : Bool) → Shrink
  cut_through : Shrink

-- How a rotation to the next file ends: not synced, not opened, done; and how the write of a frame
-- does: failed with some bytes written or none, and the next file opened or not; done.
pub data Rotation : Type 0 where
  sync_failed open_failed rotated : Rotation

pub data FrameWrite : Type 0 where
  write_failed : (torn next_opened : Bool) → FrameWrite
  write_done : FrameWrite

unfoldable pub apply_cut : Shrink → WalCut → Wal → Wal × Bool
unfolding empty_above truncate_files cut
apply_cut (shrink_failed emptied) c wal =
    (record wal { files = empty_above c emptied wal.files; fence = some c }, false)
apply_cut reopen_failed c wal =
    (record wal { files = truncate_files c wal.files; fence = some c }, false)
apply_cut (clear_failed removed) c wal = (
  record wal {
    files = truncate_files c wal.files;
    handle = c.wal_id;
    handle_torn = false;
    current_wal_id = c.wal_id;
    current_wal_size = c.offset;
    cut_file = if removed then none else wal.cut_file;
    fence = some c;
  },
  false,
)
apply_cut cut_through c wal = (
  record wal {
    files = truncate_files c wal.files;
    handle = c.wal_id;
    handle_torn = false;
    current_wal_id = c.wal_id;
    current_wal_size = c.offset;
    cut_file = none;
    last_appended_lsn = c.prev_lsn;
    last_appended_term = c.prev_term;
    recent = cut c.prev_lsn wal.recent;
    durable_lsn = c.prev_lsn;
    fence = none;
  },
  true,
)

-- `complete_recorded`, what boot does before it reads the files: the truncation the record names.
unfoldable pub complete_recorded : Wal → Wal
unfolding truncate_files
complete_recorded wal = elim wal.cut_file [
  | none ↦ wal
  | some c ↦ record wal { files = truncate_files c wal.files; cut_file = none }
]

-- The number moves on before the file is opened.
unfoldable pub open_next_wal : Bool → Wal → Wal
open_next_wal true wal = record wal {
  handle = wal.current_wal_id + 1;
  handle_torn = false;
  current_wal_id = wal.current_wal_id + 1;
  current_wal_size = 0;
}
open_next_wal false wal = record wal { current_wal_id = wal.current_wal_id + 1 }

-- The index snapshot's tail, brought down to the cut.
unfoldable pub rewind_index_tail : Bool → ℕ → ℕ → Wal → Wal × Bool
rewind_index_tail written lsn term wal = elim wal.snapshot_tail [
  | none ↦ (wal, true)
  | some tail ↦
      if leb tail.0 lsn
      then (wal, true)
      else if written
      then (record wal { snapshot_tail = some (lsn, term) }, true)
      else (wal, false)
]

-- The rotation before a frame is written.
unfoldable pub next_file : Rotation → Wal → Wal × Bool
unfolding open_next_wal
next_file sync_failed wal = (wal, false)
next_file open_failed wal = (open_next_wal false wal, false)
next_file rotated wal = (open_next_wal true wal, true)

unfoldable pub rotate : Rotation → Wal → Wal × Bool
unfolding next_file
rotate rotation wal =
    if ltb wal.current_wal_size wal_rotation_limit then (wal, true) else next_file rotation wal

-- `rotate_past_torn_write`, after a write that left part of a frame or nothing.
unfoldable pub rotate_past_torn_write : (torn next_opened : Bool) → Wal → Wal
unfolding open_next_wal
rotate_past_torn_write torn next_opened wal =
    open_next_wal next_opened (record wal { handle_torn = wal.handle_torn || torn })

-- A frame written behind part of one cannot be read.
unfoldable pub add_frame : (torn : Bool) → StoredFrame → List StoredFrame → List StoredFrame
add_frame true f files = files
add_frame false f files = files ++ f ∷ []

-- The frame behind the log, with the counters it moves.
unfoldable pub push_frame : FrameHeader → Bytes → Wal → Wal
unfolding push add_frame
push_frame header payload wal = record wal {
  files =
      add_frame wal.handle_torn
        (record {
          wal_id = wal.handle;
          offset = wal.current_wal_size;
          header = header;
          payload = payload;
        })
        wal.files;
  current_wal_size = wal.current_wal_size + (header_len + length payload);
  last_appended_lsn = header.lsn;
  last_appended_term = header.term;
  recent =
      push
        (record {
          lsn = header.lsn;
          term = header.term;
          wal_id = wal.current_wal_id;
          offset = wal.current_wal_size;
        })
        wal.recent;
  db_next_lsn = max wal.db_next_lsn header.lsn;
  db_last_log_term = header.term;
}
