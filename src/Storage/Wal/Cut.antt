-- ===== src/Storage/Wal/Cut.antt =====
-- Cutting the log back (src/storage/wal.rs): which frames a cut leaves, and that one which failed
-- part-way is completed.
use dewdb.Prelude.{
  ℕ, ◌<◌, ◌≡◌, refl, inl, inr, Bool, Bool-cases, true, ◌&&◌, ◌||◌, List, [], ◌∷◌, leb, ltb, ◌==◌,
  keep, map, arith,
}
use dewdb.Storage.Wal.{WalCut, StoredFrame, FrameSpot, empty_above, truncate_files, end_of}
use dewdb.Storage.Wal.Recent.{above_floor}

abbrev pub spot_of : StoredFrame → FrameSpot
spot_of f = record {
  lsn = f.header.lsn;
  term = f.header.term;
  wal_id = f.wal_id;
  offset = f.offset;
}

-- Where a log ends: its last frame and the end of that frame in the files.
pub record Tail : Type 0 where
  pub lsn : ℕ
  pub term : ℕ
  pub wal_id : ℕ
  pub end : ℕ

abbrev pub tail_of : StoredFrame → Tail
tail_of f = record { lsn = f.header.lsn; term = f.header.term; wal_id = f.wal_id; end = end_of f }

-- An end of a frame is at or before an offset of a file.
abbrev pub before : (wal_id end wal_id' offset : ℕ) → Bool
before w e v o = ltb w v || (w == v && leb e o)

-- The frame names the one before it, has a higher position, and stands behind it.
abbrev pub Follows : Tail → StoredFrame → Type 0
Follows t f =
    (f.header.prev_lsn ≡ t.lsn)
    × (f.header.prev_term ≡ t.term)
    × (t.lsn < f.header.lsn)
    × (before t.wal_id t.end f.wal_id f.offset ≡ true)

-- Each frame follows the one before it.
abbrev pub IsLaid : Tail → List StoredFrame → Type 0
IsLaid t [] = Unit
IsLaid t (f ∷ fs) = Follows t f × IsLaid (tail_of f) fs

abbrev pub last_of : Tail → List StoredFrame → Tail
last_of t [] = t
last_of t (f ∷ fs) = last_of (tail_of f) fs

-- The frames of the log through a position.
abbrev pub through : ℕ → List StoredFrame → List StoredFrame
through prev files = keep (λ f. leb f.header.lsn prev) files

abbrev pub file_spots : List StoredFrame → List FrameSpot
file_spots files = map spot_of files

-- Truncating files of which some were emptied before leaves what it leaves of all.
pub truncate-empty_above :
    (c : WalCut) (emptied : ℕ → Bool) (files : List StoredFrame)
    → truncate_files c (empty_above c emptied files) ≡ truncate_files c files
unfolding truncate_files empty_above
truncate-empty_above c emptied [] = refl
truncate-empty_above c emptied (f ∷ fs) = ground (arith, truncate-empty_above c emptied fs)

pub truncate-truncate :
    (c : WalCut) (files : List StoredFrame)
    → truncate_files c (truncate_files c files) ≡ truncate_files c files
unfolding truncate_files
truncate-truncate c [] = refl
truncate-truncate c (f ∷ fs) = ground (arith, truncate-truncate c fs)

-- Behind the cut nothing survives.
none_survive :
    (c : WalCut) (prev : ℕ) (t : Tail) (files : List StoredFrame)
    → IsLaid t files
    → prev < t.lsn
    → before c.wal_id c.offset t.wal_id t.end ≡ true
    → (truncate_files c files ≡ []) × (through prev files ≡ [])
unfolding truncate_files
none_survive c prev t [] l h b = (refl, refl)
none_survive c prev t (f ∷ fs) l h b = ground (arith, none_survive c prev (tail_of f) fs)

-- A frame of a laid log stands behind where the log started.
stands_behind :
    (prev : ℕ) (t : Tail) (files : List StoredFrame) (s : FrameSpot) (rest : List FrameSpot)
    → IsLaid t files
    → keep (above_floor prev) (file_spots files) ≡ s ∷ rest
    → before t.wal_id t.end s.wal_id s.offset ≡ true
stands_behind prev t [] s rest l e = absurd (ground arith)
stands_behind prev t (f ∷ fs) s rest l e = ground (arith, stands_behind prev (tail_of f) fs s rest)

pub truncate_lem :
    (c : WalCut) (prev : ℕ) (t : Tail) (files : List StoredFrame) (s : FrameSpot)
    (rest : List FrameSpot)
    → IsLaid t files
    → keep (above_floor prev) (file_spots files) ≡ s ∷ rest
    → c.wal_id ≡ s.wal_id
    → c.offset ≡ s.offset
    → truncate_files c files ≡ through prev files
unfolding truncate_files
truncate_lem c prev t [] s rest l e w o = refl
truncate_lem c prev t (f ∷ fs) s rest l e w o = elim (Bool-cases (ltb prev f.header.lsn)) [
  | inl b ↦
      let here : f.wal_id ≡ s.wal_id = ground (arith, b, e) in
      let there : f.offset ≡ s.offset = ground (arith, b, e) in
      ground (arith, none_survive c prev (tail_of f) fs l.1)
  | inr b ↦
      let tail : keep (above_floor prev) (file_spots fs) ≡ s ∷ rest = ground (arith, b, e) in
      ground (
        arith,
        truncate_lem c prev (tail_of f) fs s rest l.1 tail w o,
        stands_behind prev (tail_of f) fs s rest l.1 tail,
      )
]
