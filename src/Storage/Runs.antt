-- ===== src/Storage/Runs.antt =====
-- Runs of the theorems on collections and their logs (src/storage/collection.rs and wal.rs).
use dewdb.Prelude.{
  ℕ, max, inr, is_some, ◌≤◌, ◌≡◌, ◌⊎◌, refl, Bool, true, false, List, [], ◌∷◌, ◌++◌, ◌*◌, Bytes,
  ltb, if◌then◌else◌, keep, Option, none, some, arith, length, ◌==◌,
}
use dewdb.Prelude.Assoc.{lookup}
use dewdb.Prelude.Positions.{above, up_to}
use dewdb.Storage.Frame.{FrameHeader, encode}
use dewdb.Storage.Entry.{IndexEntry, LogEntry, log_put, Codec}
use dewdb.Storage.Collection.{Collection, StagedApply, put_key, remove_staged, set_ttl, AppliedMeta}
use dewdb.Storage.Collection.Stage.{
  exists_including_staged, version_including_staged, expire_at_including_staged, active_ttl_secs,
  active_index_specs, latest_config,
}
use dewdb.Storage.Collection.Apply.{pos_written, pos_failed, apply_committed, recorded_watermark}
use dewdb.Storage.Collection.Newest.{replay}
use dewdb.Storage.Collection.Commit.{apply_committed_lem}
use dewdb.Storage.Collection.Invisible.{committing_is_invisible}
use dewdb.Storage.Collection.Recovered.{IsRecorded, RecoversNoted, committed_is_recovered}
use dewdb.Storage.Collection.Kept.{Recovers}
use dewdb.Storage.AppliedPos.{empty, written, tears, lands}
use dewdb.Storage.AppliedPos.Turns.{IsTurned}
use dewdb.Storage.Wal.{
  WalCut, StoredFrame, FrameSpot, RecentFrames, truncate_files, push, cut, range,
}
use dewdb.Storage.Wal.Recent.{IsHeld, between, recent_frames_lem}
use dewdb.Storage.Wal.Recent
use dewdb.Storage.Wal.Cut.{Tail, through}
use dewdb.Storage.Wal.Writer.{
  Wal, shrink_failed, clear_failed, cut_through, rotated, write_done, apply_cut, complete_recorded,
}
use dewdb.Storage.Wal.Completed.{attempts, cut_is_completed}
use dewdb.Storage.Wal.Rewind.{Store, Io, rewind_to}
use dewdb.Storage.Wal.Append.{append_raw_frame}
use dewdb.Storage.Wal.Rewound.{live_log, IsAligned, rewind_keeps_committed}
use dewdb.Storage.Wal.Written.{committed_frames}
use dewdb.Storage.Wal.Committed.{append_raw_frame_lem}

abbrev same_number : ℕ → ℕ → Bool
same_number a b = a == b

abbrev entry : ℕ → IndexEntry
entry lsn = record {
  wal_id = 1;
  offset = lsn * 50;
  len = 10;
  inline = some (1 ∷ 2 ∷ []);
  lsn = lsn;
  term = 2;
  ts = 1_000;
  expire_at = none;
}

abbrev staged_put : StagedApply ℕ
staged_put = record {
  wal_id = 1;
  offset = 150;
  term = 2;
  effect = put_key (7 ∷ []) (entry 3) [];
  migration = false;
}

abbrev staged_del : StagedApply ℕ
staged_del = record {
  wal_id = 1;
  offset = 200;
  term = 2;
  effect = remove_staged (8 ∷ []);
  migration = false;
}

abbrev staged_ttl : StagedApply ℕ
staged_ttl = record {
  wal_id = 1;
  offset = 250;
  term = 2;
  effect = set_ttl (some 60);
  migration = false;
}

abbrev recorded_meta : AppliedMeta
recorded_meta = record {
  applied_lsn = 1;
  dropped = false;
  config = none;
  handover = none;
  indexes = [];
  ttl_secs = none;
}

abbrev collection : Collection ℕ
collection = record {
  index = (8 ∷ [], entry 2) ∷ [];
  indexes = [];
  pending = (3, staged_put) ∷ (4, staged_del) ∷ (5, staged_ttl) ∷ [];
  inline_used = 2;
  staged_inline = 2;
  expiring_entries = 0;
  dropped = false;
  committed_config = none;
  committed_handover = none;
  committed_indexes = [];
  committed_ttl = none;
  applied_lsn = 2;
  rich_gen = 0;
  rich_saved = 0;
  watermark_saved = 2;
  watermark_recorded = true;
  cache = record { inline_max_value_bytes = 512; inline_budget_bytes = 1_000 };
  meta_file = some recorded_meta;
  pos_file = record { first = empty; second = written 1 2; seq = 1 };
}

apply_committed_lem_example :
    (lookup
        (8 ∷ [])
        (apply_committed same_number 4 true pos_written true collection).collection.index
      ≡ replay (up_to 4 collection.pending) (λ j. lookup j collection.index) (8 ∷ []))
    × ((apply_committed same_number 4 true pos_written true collection).collection.pending
        ≡ above 4 collection.pending)
    × ((apply_committed same_number 4 true pos_written true collection).collection.applied_lsn
        ≡ max collection.applied_lsn 4)
apply_committed_lem_example =
    apply_committed_lem same_number 4 true pos_written true collection (8 ∷ [])

committing_is_invisible_example :
    (exists_including_staged
        (7 ∷ [])
        (apply_committed same_number 4 false (pos_failed lands) false collection).collection
      ≡ exists_including_staged (7 ∷ []) collection)
    × (version_including_staged
          (7 ∷ [])
          (apply_committed same_number 4 false (pos_failed lands) false collection).collection
        ≡ version_including_staged (7 ∷ []) collection)
    × (expire_at_including_staged
          (7 ∷ [])
          (apply_committed same_number 4 false (pos_failed lands) false collection).collection
        ≡ expire_at_including_staged (7 ∷ []) collection)
    × (active_ttl_secs
          (apply_committed same_number 4 false (pos_failed lands) false collection).collection
        ≡ active_ttl_secs collection)
    × (active_index_specs
          (apply_committed same_number 4 false (pos_failed lands) false collection).collection
        ≡ active_index_specs collection)
    × (latest_config
          (apply_committed same_number 4 false (pos_failed lands) false collection).collection
        ≡ latest_config collection)
committing_is_invisible_example =
    committing_is_invisible same_number 4 false (pos_failed lands) false collection (7 ∷ [])
      (omega arith, (omega arith, tt))

collection-IsRecorded : IsRecorded collection
collection-IsRecorded =
    (omega arith, omega arith, ((omega arith, omega arith), tt), inr (2, (refl, refl), omega arith))

-- The save of the position tears its slot, and the full record is written.
committed_is_recovered_example :
    let r = apply_committed same_number 4 false (pos_failed tears) true collection in
    RecoversNoted r.collection
    × (r.persisted ≡ true
        → IsRecorded r.collection
          × Recovers 4 r.collection.applied_lsn (recorded_watermark r.collection))
    × ((lsn : ℕ)
        → IsTurned collection.pos_file lsn
        → is_some (recorded_watermark r.collection) ≡ true)
committed_is_recovered_example =
    committed_is_recovered same_number 4 false (pos_failed tears) true collection (omega arith)
      collection-IsRecorded

abbrev spot : ℕ → FrameSpot
spot n = record { lsn = n; term = 2; wal_id = 1; offset = n * 50 }

abbrev held_log : List FrameSpot
held_log = spot 2 ∷ spot 3 ∷ spot 5 ∷ []

abbrev recent : RecentFrames
recent = record { floor = 2; spots = spot 3 ∷ spot 5 ∷ [] }

recent_frames_lem_example :
    IsHeld (held_log ++ spot 6 ∷ []) (push (spot 6) recent)
    × IsHeld (keep (Recent.through 3) held_log) (cut 3 recent)
    × (range 2 5 recent ≡ (if ltb 2 2 then none else some (keep (between 2 5) held_log)))
recent_frames_lem_example =
    recent_frames_lem held_log recent (spot 6) 3 2 5
      ((omega arith, (omega arith, (omega arith, tt))), refl) (omega arith) (omega arith)

-- A payload is the entry that puts its first byte as a key; it writes back as that byte.
abbrev read_put : Bytes → Option (LogEntry ℕ)
read_put [] = none
read_put (b ∷ bytes) = some (log_put false (b ∷ []) b 1_000 none)

abbrev write_put : LogEntry ℕ → Bytes
write_put (log_put migration key value ts expire_at) = key
write_put entry = []

abbrev codec : Codec ℕ
codec = record {
  from_slice = read_put;
  to_vec = write_put;
  path_value = λ v path. some v;
  same_value = same_number;
  crc32 = λ bytes. length bytes;
}

abbrev head : (lsn prev_lsn prev_term : ℕ) → FrameHeader
head lsn prev_lsn prev_term = record {
  len = 1;
  crc = 1;
  term = 2;
  lsn = lsn;
  prev_lsn = prev_lsn;
  prev_term = prev_term;
}

abbrev stored : (wal_id offset lsn prev_lsn : ℕ) → StoredFrame
stored wal_id offset lsn prev_lsn = record {
  wal_id = wal_id;
  offset = offset;
  header = head lsn prev_lsn 2;
  payload = 9 ∷ [];
}

-- Three frames, the last in a second file, of which the first is committed.
abbrev log : List StoredFrame
log = stored 1 0 2 1 ∷ stored 1 41 3 2 ∷ stored 2 0 5 3 ∷ []

abbrev wal : Wal
wal = record {
  handle = 2;
  handle_torn = false;
  current_wal_id = 2;
  current_wal_size = 41;
  last_appended_lsn = 5;
  last_appended_term = 2;
  recent = record { floor = 5; spots = [] };
  fence = none;
  released = false;
  durable_lsn = 5;
  db_next_lsn = 5;
  db_last_log_term = 2;
  files = log;
  cut_file = none;
  snapshot_tail = some (5, 2);
}

abbrev staged_at : (wal_id offset : ℕ) → StagedApply ℕ
staged_at wal_id offset = record {
  wal_id = wal_id;
  offset = offset;
  term = 2;
  effect = put_key (9 ∷ []) (entry 3) [];
  migration = false;
}

abbrev store : Store ℕ
store = record {
  col = record collection { pending = (3, staged_at 1 41) ∷ (5, staged_at 2 0) ∷ [] };
  wal = wal;
}

abbrev start : Tail
start = record { lsn = 1; term = 2; wal_id = 0; end = 0 }

abbrev io : Io
io = record {
  watermark_written = true;
  heal = cut_through;
  snapshot_written = true;
  cut_recorded = true;
  shrink = cut_through;
  rotation = rotated;
  write = write_done;
}

abbrev half_cut : Io
half_cut = record io { shrink = shrink_failed (λ id. id == 2) }

store-IsAligned : IsAligned start store
store-IsAligned = (
  (
    (refl, refl, omega arith, refl),
    ((refl, refl, omega arith, refl), ((refl, refl, omega arith, refl), tt)),
  ),
  refl,
)

rewind_keeps_committed_example :
    ((live_log (rewind_to half_cut 3 2 store).0.wal ≡ log)
      ⊎ ((live_log (rewind_to half_cut 3 2 store).0.wal ≡ through 3 log) × (2 ≤ 3)))
    × (through 2 (live_log (rewind_to half_cut 3 2 store).0.wal) ≡ through 2 log)
rewind_keeps_committed_example =
    rewind_keeps_committed start half_cut 3 2 store store-IsAligned refl

-- A new leader's frame, which takes the place of the last one.
abbrev frame : Bytes
frame = encode (head 6 3 2) ++ 9 ∷ []

append_raw_frame_lem_example :
    committed_frames 2 (append_raw_frame codec io frame store).0.wal ≡ through 2 log
append_raw_frame_lem_example =
    append_raw_frame_lem codec io start frame store store-IsAligned refl (omega arith)

abbrev cut_at_3 : WalCut
cut_at_3 = record { wal_id = 2; offset = 0; prev_lsn = 3; prev_term = 2 }

abbrev cut_wal : Wal
cut_wal = record wal { cut_file = some cut_at_3 }

cut_is_completed_example :
    ((complete_recorded
        (attempts cut_at_3 (shrink_failed (λ id. false) ∷ clear_failed false ∷ []) cut_wal)).files
      ≡ truncate_files cut_at_3 log)
    × ((apply_cut cut_through cut_at_3 (
          attempts cut_at_3
            (shrink_failed (λ id. false) ∷ clear_failed false ∷ [])
            cut_wal)).0.files
        ≡ truncate_files cut_at_3 log)
    × ((apply_cut cut_through cut_at_3 (
          attempts cut_at_3
            (shrink_failed (λ id. false) ∷ clear_failed false ∷ [])
            cut_wal)).0.fence
        ≡ none)
    × ((apply_cut cut_through cut_at_3 (
          attempts cut_at_3
            (shrink_failed (λ id. false) ∷ clear_failed false ∷ [])
            cut_wal)).0.last_appended_lsn
        ≡ 3)
    × ((apply_cut cut_through cut_at_3 (
          attempts cut_at_3
            (shrink_failed (λ id. false) ∷ clear_failed false ∷ [])
            cut_wal)).0.durable_lsn
        ≡ 3)
cut_is_completed_example =
    cut_is_completed cut_at_3 (shrink_failed (λ id. false) ∷ clear_failed false ∷ []) cut_wal refl
