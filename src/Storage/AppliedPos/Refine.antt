-- ===== src/Storage/AppliedPos/Refine.antt =====
-- The file of src/storage/index.rs by its bytes, and by what its two slots read as: one refines the
-- other.
use dewdb.Prelude.{
  ℕ, ◌+◌, ◌*◌, ◌%◌, ◌^◌, ◌≤◌, ◌<◌, ◌≡◌, inl, inr, refl, sym, ap, ◌∙◌, ◌==◌, ◌++◌, Bytes, length,
  drop, some, arith, if◌then◌else◌, Bool-cases,
}
use dewdb.Storage.AppliedPos.{
  write_at, AppliedPos, Slot, damaged, written, pos_slot, pos_encode, pos_decode, pos_read,
  complete, torn, slot_bytes, pos_save, PosSlots, read_slots, lands, tears, slot_after, save_slots,
}
use dewdb.Storage.AppliedPos.Slots.{IsTwo, slot_at, pos_encode-length, pos_decode-encode}
use dewdb.Storage.AppliedPos.Torn.{
  newest_of_slots, after, after-pos_save, next_slot-IsWritten, length-rest_of, nothing_left,
  unwrapped,
}

abbrev of_slots : Slot → Slot → ℕ → PosSlots
of_slots a b seq = record { first = a; second = b; seq = seq }

slots_eq : (a b c d : Slot) (seq : ℕ) → a ≡ c → b ≡ d → of_slots a b seq ≡ of_slots c d seq
slots_eq a b c d seq f g = ap (λ s. of_slots s b seq) f ∙ ap (λ s. of_slots c s seq) g

module _ (crc32 : Bytes → ℕ) where
  abbrev pub slots_of : AppliedPos → PosSlots
  slots_of p = record {
    first = pos_decode crc32 (slot_at 0 p.file);
    second = pos_decode crc32 (slot_at pos_slot p.file);
    seq = p.seq;
  }

  reads_slots :
      (p : AppliedPos) → IsTwo p.file → pos_read crc32 (some p.file) ≡ read_slots (slots_of p)
  unfolding pos_read read_slots
  reads_slots p two =
      rw
        (
          newest_of_slots crc32 p.file (pos_decode crc32 (slot_at 0 p.file))
              (pos_decode crc32 (slot_at pos_slot p.file)) two refl refl,
          pos_read,
        )
        refl

  -- One slot replaced, and the number of the save.
  replaced : Slot → PosSlots → PosSlots
  replaced s p =
      if (p.seq + 1) % 2 == 0
      then record { first = s; second = p.second; seq = p.seq + 1 }
      else record { first = p.first; second = s; seq = p.seq + 1 }

  slots_of-after :
      (p : AppliedPos) (r : Bytes) (s : Slot)
      → IsTwo p.file
      → length r ≤ 512
      → pos_decode crc32 (r ++ drop (length r) (slot_at ((p.seq + 1) % 2 * pos_slot) p.file)) ≡ s
      → slots_of (after crc32 p r) ≡ replaced s (slots_of p)
  unfolding after replaced
  slots_of-after p r s two le e =
      let (l, here, there) = next_slot-IsWritten crc32 p r two le in
      let file : Bytes = write_at ((p.seq + 1) % 2 * pos_slot) r p.file in
      let own = ap (pos_decode crc32) here ∙ e in
      let kept = ap (pos_decode crc32) there in
      elim (Bool-cases ((p.seq + 1) % 2 == 0)) [
        | inl even ↦
            let at : (p.seq + 1) % 2 * pos_slot ≡ 0 = ground arith in
            let other : p.seq % 2 * pos_slot ≡ pos_slot = ground arith in
            rw even (
              slots_eq _ _ _ _ (p.seq + 1)
                (ap (λ k. pos_decode crc32 (slot_at k file)) (sym at) ∙ own)
                (ap (λ k. pos_decode crc32 (slot_at k file)) (sym other)
                  ∙ kept
                  ∙ ap (λ k. pos_decode crc32 (slot_at k p.file)) other))
        | inr odd ↦
            let at : (p.seq + 1) % 2 * pos_slot ≡ pos_slot = ground arith in
            let other : p.seq % 2 * pos_slot ≡ 0 = ground arith in
            rw odd (
              slots_eq _ _ _ _ (p.seq + 1)
                (ap (λ k. pos_decode crc32 (slot_at k file)) (sym other)
                  ∙ kept
                  ∙ ap (λ k. pos_decode crc32 (slot_at k p.file)) other)
                (ap (λ k. pos_decode crc32 (slot_at k file)) (sym at) ∙ own))
      ]

  save_slots-lands :
      (p : PosSlots) (next : ℕ)
      → p.seq + 1 < 2 ^ 64
      → save_slots lands next p ≡ replaced (written (p.seq + 1) next) p
  unfolding save_slots slot_after replaced
  save_slots-lands p next small = rw (unwrapped (p.seq + 1) small) refl

  save_slots-tears :
      (p : PosSlots) (next : ℕ) → p.seq + 1 < 2 ^ 64 → save_slots tears next p ≡ replaced damaged p
  unfolding save_slots slot_after replaced
  save_slots-tears p next small = rw (unwrapped (p.seq + 1) small) refl

  slots_of-complete :
      (p : AppliedPos) (next : ℕ)
      → ((b : Bytes) → crc32 b < 2 ^ 32)
      → IsTwo p.file
      → p.seq + 1 < 2 ^ 64
      → next < 2 ^ 64
      → slots_of (pos_save crc32 complete p next) ≡ save_slots lands next (slots_of p)
  unfolding slot_bytes
  slots_of-complete p next word two small fits =
      let at : ℕ = (p.seq + 1) % 2 * pos_slot in
      let l : length (pos_encode crc32 (p.seq + 1) next) ≡ 24 =
        pos_encode-length crc32 (p.seq + 1) next in
      let le : length (pos_encode crc32 (p.seq + 1) next) ≤ 512 = omega arith in
      ap slots_of (after-pos_save crc32 complete p next small)
      ∙ slots_of-after p (pos_encode crc32 (p.seq + 1) next) (written (p.seq + 1) next) two le (
          pos_decode-encode crc32 (p.seq + 1) next
            (drop (length (pos_encode crc32 (p.seq + 1) next)) (slot_at at p.file)) word small fits
            (omega (arith, length-rest_of crc32 p (pos_encode crc32 (p.seq + 1) next) two le)))
      ∙ sym (save_slots-lands (slots_of p) next small)

  slots_of-torn :
      (p : AppliedPos) (next : ℕ) (bytes : Bytes)
      → IsTwo p.file
      → p.seq + 1 < 2 ^ 64
      → length bytes ≡ pos_slot
      → pos_decode crc32 bytes ≡ damaged
      → slots_of (pos_save crc32 (torn bytes) p next) ≡ save_slots tears next (slots_of p)
  unfolding slot_bytes
  slots_of-torn p next bytes two small l bad =
      ap slots_of (after-pos_save crc32 (torn bytes) p next small)
      ∙ slots_of-after p bytes damaged two (omega arith) (
          ap (pos_decode crc32)
            (nothing_left bytes _ l (omega (arith, length-rest_of crc32 p bytes two (omega arith))))
          ∙ bad)
      ∙ sym (save_slots-tears (slots_of p) next small)

-- The bytes of the position file refine its two slots. For a file of the right length a read
-- gives what the two slots read as; a save of a number that does not wrap, on what its record
-- fits, does to the bytes what landing does to the slots; and one that tears, leaving bytes that
-- read as damaged, what tearing does to them.
pub bytes_refine_slots :
    (crc32 : Bytes → ℕ) (p : AppliedPos) (next : ℕ) (bytes : Bytes)
    → ((b : Bytes) → crc32 b < 2 ^ 32)
    → IsTwo p.file
    → p.seq + 1 < 2 ^ 64
    → next < 2 ^ 64
    → length bytes ≡ pos_slot
    → pos_decode crc32 bytes ≡ damaged
    → (pos_read crc32 (some p.file) ≡ read_slots (slots_of crc32 p))
      × (slots_of crc32 (pos_save crc32 complete p next) ≡ save_slots lands next (slots_of crc32 p))
      × (slots_of crc32 (pos_save crc32 (torn bytes) p next)
          ≡ save_slots tears next (slots_of crc32 p))
bytes_refine_slots crc32 p next bytes word two small fits l bad = (
  reads_slots crc32 p two,
  slots_of-complete crc32 p next word two small fits,
  slots_of-torn crc32 p next bytes two small l bad,
)
