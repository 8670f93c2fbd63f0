-- ===== src/Storage/AppliedPos.antt =====
-- src/storage/index.rs: the file that holds the position up to which a collection is applied, two
-- slots written in turn. The checksum is a parameter, since `crc32fast` computes it.
pub mod Slots
pub mod Torn
pub mod Turns
pub mod Refine
mod Runs
use dewdb.Prelude.{
  ℕ, zero, suc, ◌+◌, ◌*◌, ◌%◌, ◌^◌, Bool, true, false, not, ◌||◌, List, [], ◌∷◌, ◌++◌, Bytes, all,
  leb, ◌==◌, if◌then◌else◌, length, take, drop, Option, none, some,
}
use dewdb.Storage.Frame.{to_le_bytes, from_le_bytes, slice}

abbrev pub pos_magic : ℕ
pos_magic = 1146113875

abbrev pub pos_slot : ℕ
pos_slot = 512

-- The bytes of the file, and the number of the last save.
pub record AppliedPos : Type 0 where
  pub file : Bytes
  pub seq : ℕ

pub data Slot : Type 0 where
  empty damaged : Slot
  written : (seq applied_lsn : ℕ) → Slot

-- The bytes of a record that its checksum covers.
unfoldable pub pos_body : ℕ → ℕ → Bytes
unfolding to_le_bytes
pos_body seq applied_lsn = to_le_bytes 4 pos_magic ++ to_le_bytes 8 seq ++ to_le_bytes 8 applied_lsn

unfoldable pub pos_encode : (Bytes → ℕ) → ℕ → ℕ → Bytes
unfolding pos_body to_le_bytes
pos_encode crc32 seq applied_lsn =
    pos_body seq applied_lsn ++ to_le_bytes 4 (crc32 (pos_body seq applied_lsn))

unfoldable pub pos_decode : (Bytes → ℕ) → Bytes → Slot
unfolding from_le_bytes
pos_decode crc32 bytes =
    if not (length bytes == pos_slot)
    then damaged
    else if all (λ byte. byte == 0) bytes
    then empty
    else if not (from_le_bytes (slice 0 4 bytes) == pos_magic)
    then damaged
    else if not (crc32 (slice 0 20 bytes) == from_le_bytes (slice 20 4 bytes))
    then damaged
    else written (from_le_bytes (slice 4 8 bytes)) (from_le_bytes (slice 12 8 bytes))

-- `max_by_key`, which keeps the last of equals, over the slots that are written.
unfoldable pub newest_written : Option (ℕ × ℕ) → List Slot → Option (ℕ × ℕ)
newest_written best [] = best
newest_written best (empty ∷ slots) = newest_written best slots
newest_written best (damaged ∷ slots) = newest_written best slots
newest_written none (written s l ∷ slots) = newest_written (some (s, l)) slots
newest_written (some (t, k)) (written s l ∷ slots) =
    newest_written (if leb t s then some (s, l) else some (t, k)) slots

unfoldable pub any_damaged : List Slot → Bool
any_damaged [] = false
any_damaged (empty ∷ slots) = any_damaged slots
any_damaged (damaged ∷ slots) = true
any_damaged (written s l ∷ slots) = any_damaged slots

-- The `match newest`; an error is `none`.
unfoldable pub found_or_damage : Option (ℕ × ℕ) → List Slot → Option (Option (ℕ × ℕ))
unfolding any_damaged
found_or_damage (some found) slots = some (some found)
found_or_damage none slots = if any_damaged slots then none else some none

-- An error is `none`.
unfoldable pub pos_newest : (Bytes → ℕ) → Bytes → Option (Option (ℕ × ℕ))
unfolding newest_written found_or_damage pos_decode
pos_newest crc32 file =
    let slots =
      pos_decode crc32 (slice 0 pos_slot file)
      ∷ pos_decode crc32 (slice pos_slot pos_slot file)
      ∷ [] in
    if length file == pos_slot * 2 then found_or_damage (newest_written none slots) slots else none

unfoldable pub zeros : ℕ → Bytes
zeros zero = []
zeros (suc n) = 0 ∷ zeros n

-- What `set_len` gives where there was no file.
unfoldable pub opened : Option Bytes → Bytes
unfolding zeros
opened none = zeros (pos_slot * 2)
opened (some file) = file

unfoldable pub pos_open : (Bytes → ℕ) → Option Bytes → Option AppliedPos
unfolding opened pos_newest
pos_open crc32 found = elim (pos_newest crc32 (opened found)) [
  | none ↦ none
  | some none ↦ some (record { file = opened found; seq = 0 })
  | some (some (seq, lsn)) ↦ some (record { file = opened found; seq = seq })
]

unfoldable pub pos_read : (Bytes → ℕ) → Option Bytes → Option (Option ℕ)
unfolding pos_newest
pos_read crc32 none = some none
pos_read crc32 (some file) = elim (pos_newest crc32 file) [
  | none ↦ none
  | some none ↦ some none
  | some (some (seq, lsn)) ↦ some (some lsn)
]

-- `seek` and `write_all`.
unfoldable pub write_at : ℕ → Bytes → Bytes → Bytes
write_at at bytes file = take at file ++ bytes ++ drop (at + length bytes) file

-- How the write of a record ends: all of it is in the file, or it tore and its slot holds other
-- bytes.
pub data SlotWrite : Type 0 where
  complete : SlotWrite
  torn : Bytes → SlotWrite

unfoldable pub slot_bytes : (Bytes → ℕ) → SlotWrite → ℕ → ℕ → Bytes
unfolding pos_encode
slot_bytes crc32 complete seq applied_lsn = pos_encode crc32 seq applied_lsn
slot_bytes crc32 (torn bytes) seq applied_lsn = bytes

unfoldable pub pos_save : (Bytes → ℕ) → SlotWrite → AppliedPos → ℕ → AppliedPos
unfolding slot_bytes write_at
pos_save crc32 end p applied_lsn =
    let seq = (p.seq + 1) % 2 ^ 64 in
    record {
      file = write_at (seq % 2 * pos_slot) (slot_bytes crc32 end seq applied_lsn) p.file;
      seq = seq;
    }

-- The file by what its two slots read as, with the number of the last save.
pub record PosSlots : Type 0 where
  pub first : Slot
  pub second : Slot
  pub seq : ℕ

-- The position that `read` gives; an error is `none`.
unfoldable pub read_slots : PosSlots → Option (Option ℕ)
unfolding newest_written found_or_damage
read_slots p =
    let slots = p.first ∷ p.second ∷ [] in
    elim (found_or_damage (newest_written none slots) slots) [
      | none ↦ none
      | some none ↦ some none
      | some (some (seq, lsn)) ↦ some (some lsn)
    ]

-- How a save leaves its slot: as it was, torn, or with its record.
pub data SlotEnd : Type 0 where
  untouched tears lands : SlotEnd

unfoldable pub slot_after : SlotEnd → ℕ → ℕ → Slot → Slot
slot_after untouched seq lsn s = s
slot_after tears seq lsn s = damaged
slot_after lands seq lsn s = written seq lsn

-- `save`, which counts also where it fails.
unfoldable pub save_slots : SlotEnd → ℕ → PosSlots → PosSlots
unfolding slot_after
save_slots end lsn p =
    let seq = (p.seq + 1) % 2 ^ 64 in
    if seq % 2 == 0
    then record { first = slot_after end seq lsn p.first; second = p.second; seq = seq }
    else record { first = p.first; second = slot_after end seq lsn p.second; seq = seq }
