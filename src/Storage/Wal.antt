-- ===== src/Storage/Wal.antt =====
-- src/storage/wal.rs: the files of a log, the record of a truncation that is under way, and the
-- positions of the newest frames. The files are the list of the frames that can be read from them,
-- oldest first; how a step on the file system ends is an argument.
pub mod Recent
pub mod Cut
pub mod Committed
pub mod Completed
pub mod Rewound
pub mod Writer
pub mod Rewind
pub mod Append
pub mod Written
use dewdb.Prelude.{
  ℕ, ◌+◌, ◌*◌, min, Bool, true, false, not, ◌&&◌, ◌||◌, List, [], ◌∷◌, ◌++◌, Bytes, leb, ltb, ◌==◌,
  if◌then◌else◌, length, is_empty, keep, Option, none, some,
}
use dewdb.Storage.Frame.{FrameHeader, header_len, to_le_bytes, from_le_bytes, slice}

abbrev pub wal_rotation_limit : ℕ
wal_rotation_limit = 50 * 1024 * 1024

abbrev pub recent_frames : ℕ
recent_frames = 4096

pub record WalCut : Type 0 where
  pub wal_id : ℕ
  pub offset : ℕ
  pub prev_lsn : ℕ
  pub prev_term : ℕ

unfoldable pub cut_encode : WalCut → Bytes
unfolding to_le_bytes
cut_encode c =
    to_le_bytes 8 c.wal_id
    ++ to_le_bytes 8 c.offset
    ++ to_le_bytes 8 c.prev_lsn
    ++ to_le_bytes 8 c.prev_term

unfoldable pub cut_decode : Bytes → Option WalCut
unfolding from_le_bytes
cut_decode b =
    if length b == 32
    then some (record {
      wal_id = from_le_bytes (slice 0 8 b);
      offset = from_le_bytes (slice 8 8 b);
      prev_lsn = from_le_bytes (slice 16 8 b);
      prev_term = from_le_bytes (slice 24 8 b);
    })
    else none

-- A frame in a file of the log.
pub record StoredFrame : Type 0 where
  pub wal_id : ℕ
  pub offset : ℕ
  pub header : FrameHeader
  pub payload : Bytes

abbrev pub end_of : StoredFrame → ℕ
end_of f = f.offset + (header_len + length f.payload)

-- The files above the cut emptied, those that `emptied` tells; and all of them, with the file of
-- the cut shrunk to its offset.
unfoldable pub empty_above : WalCut → (ℕ → Bool) → List StoredFrame → List StoredFrame
empty_above cut emptied files = keep (λ f. not (ltb cut.wal_id f.wal_id && emptied f.wal_id)) files

abbrev pub survives : WalCut → StoredFrame → Bool
survives cut f = ltb f.wal_id cut.wal_id || (f.wal_id == cut.wal_id && leb (end_of f) cut.offset)

unfoldable pub truncate_files : WalCut → List StoredFrame → List StoredFrame
truncate_files cut files = keep (survives cut) files

pub record FrameSpot : Type 0 where
  pub lsn : ℕ
  pub term : ℕ
  pub wal_id : ℕ
  pub offset : ℕ

pub record RecentFrames : Type 0 where
  pub floor : ℕ
  pub spots : List FrameSpot

-- `RecentFrames::new` and `reset`
unfoldable pub reset : ℕ → RecentFrames
reset tail = record { floor = tail; spots = [] }

-- `spots.back()`
unfoldable pub back : List FrameSpot → Option FrameSpot
back [] = none
back (s ∷ spots) = elim (back spots) [ none ↦ some s | some b ↦ some b ]

-- `push_back` on a full deque, which gives up its oldest spot.
unfoldable pub push_back : FrameSpot → RecentFrames → RecentFrames
push_back spot r = elim r.spots [
  | [] ↦ record { floor = r.floor; spots = spot ∷ [] }
  | oldest ∷ spots ↦
      if length r.spots == recent_frames
      then record { floor = oldest.lsn; spots = spots ++ spot ∷ [] }
      else record { floor = r.floor; spots = r.spots ++ spot ∷ [] }
]

unfoldable pub push : FrameSpot → RecentFrames → RecentFrames
unfolding back push_back reset
push spot r = elim (back r.spots) [
  | none ↦ push_back spot r
  | some last ↦ if leb spot.lsn last.lsn then reset spot.lsn else push_back spot r
]

-- The spots without those at the back that are above the position.
unfoldable pub cut_back : ℕ → List FrameSpot → List FrameSpot
cut_back prev [] = []
cut_back prev (s ∷ spots) =
    let rest = cut_back prev spots in if is_empty rest && ltb prev s.lsn then [] else s ∷ rest

unfoldable pub cut : ℕ → RecentFrames → RecentFrames
unfolding cut_back
cut prev r = record { floor = min r.floor prev; spots = cut_back prev r.spots }

-- The spots that follow the last frozen one that was not carried over, and that one's position.
unfoldable pub relocate_spots :
    ℕ → ℕ → (ℕ → ℕ → Option ℕ) → List FrameSpot → List FrameSpot × Option ℕ
relocate_spots frozen compact moved [] = ([], none)
relocate_spots frozen compact moved (s ∷ spots) =
    let rest = relocate_spots frozen compact moved spots in
    elim rest.1 [
      | some floor ↦ rest
      | none ↦ if ltb frozen s.wal_id then (s ∷ rest.0, none) else elim (moved s.wal_id s.offset) [
        | some offset ↦ (record s { wal_id = compact; offset = offset } ∷ rest.0, none)
        | none ↦ (rest.0, some s.lsn)
      ]
    ]

unfoldable pub relocate : ℕ → ℕ → (ℕ → ℕ → Option ℕ) → RecentFrames → RecentFrames
unfolding relocate_spots
relocate frozen compact moved r =
    let carried = relocate_spots frozen compact moved r.spots in
    record { floor = (elim carried.1 [ none ↦ r.floor | some floor ↦ floor ]); spots = carried.0 }

-- `partition_point` and `take_while`
unfoldable pub skip_to : ℕ → List FrameSpot → List FrameSpot
skip_to after [] = []
skip_to after (s ∷ spots) =
    let rest = skip_to after spots in if leb s.lsn after then rest else s ∷ spots

unfoldable pub take_through : ℕ → List FrameSpot → List FrameSpot
take_through up [] = []
take_through up (s ∷ spots) =
    let rest = take_through up spots in if leb s.lsn up then s ∷ rest else []

unfoldable pub range : ℕ → ℕ → RecentFrames → Option (List FrameSpot)
unfolding skip_to take_through
range after up r =
    if ltb after r.floor then none else some (take_through up (skip_to after r.spots))
