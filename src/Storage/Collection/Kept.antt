-- ===== src/Storage/Collection/Kept.antt =====
-- The two files that hold a position (src/storage/collection.rs, src/storage/index.rs), and what is
-- recovered from them.
use dewdb.Prelude.{
  ℕ, max, ◌+◌, ◌^◌, ◌<◌, ◌≤◌, ◌⊎◌, ◌≡◌, refl, inl, inr, true, is_some, Option, none, some, arith,
}
use mathlib.Core.Path.{subst}
use dewdb.Storage.AppliedPos.{PosSlots, SlotEnd, lands, save_slots, read_slots}
use dewdb.Storage.AppliedPos.Turns.{
  IsTurned, AreWithin, AreWithin-wider, ReadsWithin, failed_save_reads, turned_reads, save-IsTurned,
  save-AreWithin, read_is_within,
}
use dewdb.Storage.Collection.{AppliedMeta}
use dewdb.Storage.Collection.Apply.{over_files}

-- What a restart recovers: an error, or a position from `low` to `high`.
abbrev pub Recovers : ℕ → ℕ → Option (Option ℕ) → Type 0
Recovers low high none = Unit
Recovers low high (some none) = ⊥
Recovers low high (some (some lsn)) = (low ≤ lsn) × (lsn ≤ high)

-- The full record covers what is noted as saved, or the last save of the position left its record
-- and that covers it.
abbrev pub Covers : ℕ → PosSlots → ℕ → Type 0
Covers meta pos noted = (noted ≤ meta) ⊎ ((lsn : ℕ) × IsTurned pos lsn × (noted ≤ max meta lsn))

abbrev pub IsKept : Option AppliedMeta → PosSlots → ℕ → ℕ → Type 0
IsKept none pos noted applied = ⊥
IsKept (some m) pos noted applied =
    (m.applied_lsn ≤ applied)
    × (noted ≤ applied)
    × AreWithin pos applied
    × Covers m.applied_lsn pos noted

Recovers-by_meta :
    (m : AppliedMeta) (read : Option (Option ℕ)) (noted applied : ℕ)
    → m.applied_lsn ≤ applied
    → noted ≤ m.applied_lsn
    → ReadsWithin applied read
    → Recovers noted applied (over_files (some m) read)
Recovers-by_meta m none noted applied a n w = tt
Recovers-by_meta m (some none) noted applied a n w = (omega arith, omega arith)
Recovers-by_meta m (some (some lsn)) noted applied a n w = (omega arith, omega arith)

Recovers-at :
    (m : AppliedMeta) (read : Option (Option ℕ)) (lsn noted applied : ℕ)
    → m.applied_lsn ≤ applied
    → lsn ≤ applied
    → noted ≤ max m.applied_lsn lsn
    → read ≡ some (some lsn)
    → Recovers noted applied (over_files (some m) read)
Recovers-at m read lsn noted applied a l n e = rw e (omega arith, omega arith)

pub kept-Recovers :
    (meta : Option AppliedMeta) (pos : PosSlots) (noted applied : ℕ)
    → IsKept meta pos noted applied
    → Recovers noted applied (over_files meta (read_slots pos))
kept-Recovers none pos noted applied k = absurd k
kept-Recovers (some m) pos noted applied (a, n, w, inl c) =
    Recovers-by_meta m (read_slots pos) noted applied a c (read_is_within pos applied w)
kept-Recovers (some m) pos noted applied (a, n, w, inr (lsn, t, c)) =
    let e = turned_reads pos lsn t in
    let l : lsn ≤ applied = subst (ReadsWithin applied) e (read_is_within pos applied w) in
    Recovers-at m (read_slots pos) lsn noted applied a l c e

-- A failed save of the position, with nothing written beside it.
pub failed-Recovers :
    (meta : Option AppliedMeta) (end : SlotEnd) (pos : PosSlots) (noted applied : ℕ)
    → pos.seq + 1 < 2 ^ 64
    → IsKept meta pos noted applied
    → Recovers noted applied (over_files meta (read_slots (save_slots end applied pos)))
failed-Recovers none end pos noted applied small k = absurd k
failed-Recovers (some m) end pos noted applied small (a, n, w, inl c) =
    Recovers-by_meta m (read_slots (save_slots end applied pos)) noted applied a c
      (read_is_within (save_slots end applied pos) applied (save-AreWithin end applied pos small w))
failed-Recovers (some m) end pos noted applied small (a, n, w, inr (lsn, t, c)) =
    let old : lsn ≤ applied =
      subst (ReadsWithin applied) (turned_reads pos lsn t) (read_is_within pos applied w) in
    elim (failed_save_reads end lsn applied pos small t) [
      | inl e ↦ Recovers-at m (read_slots (save_slots end applied pos)) lsn noted applied a old c e
      | inr e ↦
          Recovers-at m (read_slots (save_slots end applied pos)) applied noted applied a
            (omega arith) (omega arith) e
    ]

pub saved-IsKept :
    (meta : Option AppliedMeta) (pos : PosSlots) (noted applied : ℕ)
    → pos.seq + 1 < 2 ^ 64
    → IsKept meta pos noted applied
    → IsKept meta (save_slots lands applied pos) (max noted applied) applied
saved-IsKept none pos noted applied small k = absurd k
saved-IsKept (some m) pos noted applied small (a, n, w, c) = (
  a,
  omega arith,
  save-AreWithin lands applied pos small w,
  inr (applied, save-IsTurned applied pos small w.0, omega arith),
)

pub kept_within :
    (meta : Option AppliedMeta) (pos : PosSlots) (noted applied : ℕ)
    → IsKept meta pos noted applied
    → (noted ≤ applied) × AreWithin pos applied
kept_within none pos noted applied k = absurd k
kept_within (some m) pos noted applied (a, n, w, c) = (n, w)

pub IsKept-later :
    (meta : Option AppliedMeta) (pos : PosSlots) (noted low high : ℕ)
    → low ≤ high
    → IsKept meta pos noted low
    → IsKept meta pos noted high
IsKept-later none pos noted low high le k = k
IsKept-later (some m) pos noted low high le (a, n, w, c) =
    (omega arith, omega arith, AreWithin-wider pos low high le w, c)

pub readable :
    (pos : PosSlots) (lsn : ℕ) → read_slots pos ≡ some (some lsn) → is_some (read_slots pos) ≡ true
readable pos lsn e = rw e refl

pub read_over_files :
    (meta : Option AppliedMeta) (read : Option (Option ℕ))
    → is_some read ≡ true
    → is_some (over_files meta read) ≡ true
read_over_files meta none h = h
read_over_files none (some pos) h = refl
read_over_files (some m) (some pos) h = refl

pub Recovers-from :
    (low noted high : ℕ) (r : Option (Option ℕ))
    → low ≤ noted
    → Recovers noted high r
    → Recovers low high r
Recovers-from low noted high none le k = k
Recovers-from low noted high (some none) le k = k
Recovers-from low noted high (some (some lsn)) le k = (omega arith, omega arith)
