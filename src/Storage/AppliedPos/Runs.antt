-- ===== src/Storage/AppliedPos/Runs.antt =====
-- Runs of the theorem on the position file of src/storage/index.rs.
use dewdb.Prelude.{ℕ, ◌%◌, ◌^◌, ◌<◌, ◌≡◌, refl, ◌∷◌, Bytes, length, none, some, arith}
use dewdb.Storage.AppliedPos.{
  read_slots, save_slots, lands, tears, slot_bytes, write_at, pos_encode, pos_body, AppliedPos,
  zeros, opened, complete, torn, pos_save, pos_read, pos_open, pos_newest, newest_written,
  any_damaged, found_or_damage, pos_decode,
}
use dewdb.Storage.AppliedPos.Refine.{slots_of, bytes_refine_slots}
use dewdb.Storage.AppliedPos.Torn.{IsReady, IsSaved, pos_save-IsSaved, pos_save_lem}
use dewdb.Storage.Frame.{to_le_bytes, from_le_bytes}

-- Stands for the checksum of `crc32fast`.
abbrev checksum : Bytes → ℕ
checksum bytes = length bytes % 2 ^ 32

checksum_word : (b : Bytes) → checksum b < 2 ^ 32
checksum_word b = omega arith

abbrev fresh : AppliedPos
fresh = record { file = opened none; seq = 0 }

fresh-IsReady : IsReady checksum fresh
unfolding opened zeros pos_decode
fresh-IsReady = (refl, omega arith, refl)

abbrev first_save : AppliedPos
first_save = pos_save checksum complete fresh 7

first_save-IsSaved : IsSaved checksum first_save 7
first_save-IsSaved = pos_save-IsSaved checksum fresh 7 checksum_word fresh-IsReady (omega arith)

abbrev garbage : Bytes
garbage = 1 ∷ zeros 511

pos_save_lem_example :
    (pos_read checksum (some (pos_save checksum complete first_save 9).file) ≡ some (some 9))
    × IsSaved checksum (pos_save checksum complete first_save 9) 9
    × (pos_read checksum (some (pos_save checksum (torn garbage) first_save 9).file)
        ≡ some (some 7))
    × (pos_open checksum (some (pos_save checksum (torn garbage) first_save 9).file)
        ≡ some (record (pos_save checksum (torn garbage) first_save 9) { seq = 1 }))
    × IsSaved checksum (record (pos_save checksum (torn garbage) first_save 9) { seq = 1 }) 7
unfolding pos_save zeros pos_decode from_le_bytes
pos_save_lem_example =
    pos_save_lem checksum first_save 7 9 garbage checksum_word first_save-IsSaved (omega arith)
      (omega arith) refl refl

bytes_refine_slots_example :
    (pos_read checksum (some first_save.file) ≡ read_slots (slots_of checksum first_save))
    × (slots_of checksum (pos_save checksum complete first_save 9)
        ≡ save_slots lands 9 (slots_of checksum first_save))
    × (slots_of checksum (pos_save checksum (torn garbage) first_save 9)
        ≡ save_slots tears 9 (slots_of checksum first_save))
unfolding pos_save zeros pos_decode from_le_bytes
bytes_refine_slots_example =
    bytes_refine_slots checksum first_save 9 garbage checksum_word first_save-IsSaved.0
      (omega arith) (omega arith) refl refl

-- A save that tears, and behind it another on the same handle: it goes to the other slot.
torn_retry :
    pos_read checksum (
      some
        (pos_save checksum (torn garbage) (pos_save checksum (torn garbage) first_save 9) 9).file)
    ≡ none
unfolding pos_save slot_bytes write_at pos_encode pos_body to_le_bytes opened zeros pos_decode
    from_le_bytes pos_read pos_newest newest_written any_damaged found_or_damage
torn_retry = refl
