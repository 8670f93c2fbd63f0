-- ===== src/Storage/AppliedPos/Torn.antt =====
-- The position that is read back from the two slots of src/storage/index.rs.
use dewdb.Prelude.{
  ℕ, ◌+◌, ◌*◌, ◌%◌, ◌^◌, ◌≤◌, ◌<◌, ◌≡◌, ◌⊎◌, inl, inr, refl, sym, ap, ◌∙◌, Bool, true, false, ◌==◌,
  ltb, [], ◌∷◌, ◌++◌, Bytes, length, drop, none, some, arith,
}
use mathlib.Core.List.{append-nil}
use mathlib.Core.Path.{subst}
use dewdb.Storage.AppliedPos.{
  AppliedPos, Slot, empty, damaged, written, pos_slot, pos_encode, pos_decode, pos_newest,
  newest_written, found_or_damage, pos_open, pos_read, opened, write_at, SlotWrite, complete, torn,
  slot_bytes, pos_save,
}
use dewdb.Storage.AppliedPos.Slots.{
  IsTwo, IsPair, length-drop, IsWritten, two_slots-IsWritten, slot_at, length-slot_at,
  pos_encode-length, pos_decode-encode,
}

-- Every record that the slot holds is of a save before `seq`.
abbrev pub is_before : ℕ → Slot → Bool
is_before seq empty = true
is_before seq damaged = true
is_before seq (written s l) = ltb s seq

-- The slot does not read as a record.
abbrev pub is_unwritten : Slot → Bool
is_unwritten empty = true
is_unwritten damaged = true
is_unwritten (written s l) = false

pub newest_second :
    (older : Slot) (seq lsn : ℕ)
    → is_before seq older ≡ true
    → newest_written none (older ∷ written seq lsn ∷ []) ≡ some (seq, lsn)
unfolding newest_written
newest_second empty seq lsn h = refl
newest_second damaged seq lsn h = refl
newest_second (written s l) seq lsn h = ground arith

pub newest_first :
    (older : Slot) (seq lsn : ℕ)
    → is_before seq older ≡ true
    → newest_written none (written seq lsn ∷ older ∷ []) ≡ some (seq, lsn)
unfolding newest_written
newest_first empty seq lsn h = refl
newest_first damaged seq lsn h = refl
newest_first (written s l) seq lsn h = ground arith

has_two : (file : Bytes) → IsTwo file → (length file == pos_slot * 2) ≡ true
has_two file two = ground (arith, two)

pub parity : (n : ℕ) → (n % 2 ≡ 0) ⊎ (n % 2 ≡ 1)
parity n = ground arith

pub unwrapped : (n : ℕ) → n < 2 ^ 64 → n % 2 ^ 64 ≡ n
unwrapped n h = omega arith

pub swapped : {at other : ℕ} → IsPair at other → IsPair other at
swapped (inl (a, o)) = inr (o, a)
swapped (inr (a, o)) = inl (o, a)

unwritten_is_before : (seq : ℕ) (s : Slot) → is_unwritten s ≡ true → is_before seq s ≡ true
unwritten_is_before seq empty h = refl
unwritten_is_before seq damaged h = refl
unwritten_is_before seq (written s l) h = ground arith

before_next : (seq lsn : ℕ) → is_before (seq + 1) (written seq lsn) ≡ true
before_next seq lsn = ground arith

-- A write of the whole slot leaves nothing of what was there.
pub nothing_left :
    (bytes rest : Bytes) → length bytes ≡ 512 → length rest ≡ 0 → bytes ++ rest ≡ bytes
nothing_left bytes [] l h = append-nil bytes
nothing_left bytes (x ∷ rest) l h = ground arith

module _ (crc32 : Bytes → ℕ) where
  pub newest_of_slots :
      (file : Bytes) (first second : Slot)
      → IsTwo file
      → pos_decode crc32 (slot_at 0 file) ≡ first
      → pos_decode crc32 (slot_at pos_slot file) ≡ second
      → pos_newest crc32 file
        ≡ found_or_damage (newest_written none (first ∷ second ∷ [])) (first ∷ second ∷ [])
  unfolding pos_newest
  newest_of_slots file first second two a b = rw (a, b, has_two file two) refl

  newest_of_pair :
      (at other : ℕ) (file : Bytes) (seq lsn : ℕ)
      → IsPair at other
      → IsTwo file
      → pos_decode crc32 (slot_at at file) ≡ written seq lsn
      → is_before seq (pos_decode crc32 (slot_at other file)) ≡ true
      → pos_newest crc32 file ≡ some (some (seq, lsn))
  unfolding found_or_damage
  newest_of_pair at other file seq lsn (inl (a, o)) two w b =
      newest_of_slots file (written seq lsn) (pos_decode crc32 (slot_at pos_slot file)) two
        (sym (ap (λ k. pos_decode crc32 (slot_at k file)) a) ∙ w) refl
      ∙ ap
          (λ n. found_or_damage n (written seq lsn ∷ pos_decode crc32 (slot_at pos_slot file) ∷ []))
          (newest_first (pos_decode crc32 (slot_at pos_slot file)) seq lsn
            (ap (λ k. is_before seq (pos_decode crc32 (slot_at k file))) (sym o) ∙ b))
  newest_of_pair at other file seq lsn (inr (a, o)) two w b =
      newest_of_slots file (pos_decode crc32 (slot_at 0 file)) (written seq lsn) two refl
        (sym (ap (λ k. pos_decode crc32 (slot_at k file)) a) ∙ w)
      ∙ ap (λ n. found_or_damage n (pos_decode crc32 (slot_at 0 file) ∷ written seq lsn ∷ []))
          (newest_second (pos_decode crc32 (slot_at 0 file)) seq lsn
            (ap (λ k. is_before seq (pos_decode crc32 (slot_at k file))) (sym o) ∙ b))

  -- The slot of a save, and the one of the next.
  pub slots_alternate : (seq : ℕ) → IsPair (seq % 2 * pos_slot) ((seq + 1) % 2 * pos_slot)
  slots_alternate seq = elim (parity seq) [
    | inl e ↦ inl (omega arith, omega arith)
    | inr o ↦ inr (omega arith, omega arith)
  ]

  -- The file has its two slots, and no slot holds the record of a later save than `seq`.
  abbrev pub IsReady : AppliedPos → Type 0
  IsReady p =
      IsTwo p.file
      × (p.seq + 1 < 2 ^ 64)
      × (is_before (p.seq + 1) (pos_decode crc32 (slot_at (p.seq % 2 * pos_slot) p.file)) ≡ true)

  -- The last save is in its slot, and the other slot holds none after it.
  abbrev pub IsSaved : AppliedPos → ℕ → Type 0
  IsSaved p lsn =
      IsTwo p.file
      × (pos_decode crc32 (slot_at (p.seq % 2 * pos_slot) p.file) ≡ written p.seq lsn)
      × (is_before p.seq (pos_decode crc32 (slot_at ((p.seq + 1) % 2 * pos_slot) p.file)) ≡ true)

  saved_is_read :
      (p : AppliedPos) (lsn : ℕ)
      → IsSaved p lsn
      → pos_newest crc32 p.file ≡ some (some (p.seq, lsn))
  saved_is_read p lsn (two, w, b) =
      newest_of_pair (p.seq % 2 * pos_slot) ((p.seq + 1) % 2 * pos_slot) p.file p.seq lsn
        (slots_alternate p.seq) two w b

  -- What a save of a number that does not wrap leaves.
  unfoldable pub after : AppliedPos → Bytes → AppliedPos
  after p record_bytes = record {
    file = write_at ((p.seq + 1) % 2 * pos_slot) record_bytes p.file;
    seq = p.seq + 1;
  }

  pub after-pos_save :
      (end : SlotWrite) (p : AppliedPos) (next : ℕ)
      → p.seq + 1 < 2 ^ 64
      → pos_save crc32 end p next ≡ after p (slot_bytes crc32 end (p.seq + 1) next)
  unfolding pos_save after
  after-pos_save end p next small = rw (unwrapped (p.seq + 1) small) refl

  pub next_slot-IsWritten :
      (p : AppliedPos) (r : Bytes)
      → IsTwo p.file
      → length r ≤ 512
      → IsWritten ((p.seq + 1) % 2 * pos_slot) (p.seq % 2 * pos_slot) r p.file
  next_slot-IsWritten p r two le =
      two_slots-IsWritten ((p.seq + 1) % 2 * pos_slot) (p.seq % 2 * pos_slot) r p.file
        (swapped (slots_alternate p.seq)) two le

  turned : (seq : ℕ) → (seq + 1 + 1) % 2 * pos_slot ≡ seq % 2 * pos_slot
  turned seq = elim (parity seq) [ inl e ↦ omega arith | inr o ↦ omega arith ]

  after-IsSaved :
      (p : AppliedPos) (r : Bytes) (next : ℕ)
      → IsReady p
      → length r ≤ 512
      → pos_decode crc32 (r ++ drop (length r) (slot_at ((p.seq + 1) % 2 * pos_slot) p.file))
        ≡ written (p.seq + 1) next
      → IsSaved (after p r) next
  unfolding after
  after-IsSaved p r next (two, small, old) le w = (
    (next_slot-IsWritten p r two le).0,
    ap (pos_decode crc32) (next_slot-IsWritten p r two le).1 ∙ w,
    rw (turned p.seq, (next_slot-IsWritten p r two le).2) old,
  )

  pub length-rest_of :
      (p : AppliedPos) (r : Bytes)
      → IsTwo p.file
      → length r ≤ 512
      → length r + length (drop (length r) (slot_at ((p.seq + 1) % 2 * pos_slot) p.file)) ≡ 512
  length-rest_of p r two le =
      let s : Bytes = slot_at ((p.seq + 1) % 2 * pos_slot) p.file in
      let l : length s ≡ 512 =
        length-slot_at ((p.seq + 1) % 2 * pos_slot) (p.seq % 2 * pos_slot) p.file
          (swapped (slots_alternate p.seq)) two in
      length-drop (length r) s (omega (arith, l)) ∙ l

  pub pos_save-IsSaved :
      (p : AppliedPos) (next : ℕ)
      → ((b : Bytes) → crc32 b < 2 ^ 32)
      → IsReady p
      → next < 2 ^ 64
      → IsSaved (pos_save crc32 complete p next) next
  unfolding slot_bytes
  pos_save-IsSaved p next word ready fits =
      let l : length (pos_encode crc32 (p.seq + 1) next) ≡ 24 =
        pos_encode-length crc32 (p.seq + 1) next in
      let le : length (pos_encode crc32 (p.seq + 1) next) ≤ 512 = omega arith in
      subst (λ q. IsSaved q next) (sym (after-pos_save complete p next ready.1))
        (after-IsSaved p (pos_encode crc32 (p.seq + 1) next) next ready le (
          pos_decode-encode crc32 (p.seq + 1) next
            (drop (length (pos_encode crc32 (p.seq + 1) next))
              (slot_at ((p.seq + 1) % 2 * pos_slot) p.file))
            word ready.1 fits
            (omega (arith, length-rest_of p (pos_encode crc32 (p.seq + 1) next) ready.0 le))))

  -- The tear of a save: nothing but its own slot.
  torn-IsSaved :
      (p : AppliedPos) (lsn : ℕ) (bytes : Bytes)
      → IsSaved p lsn
      → length bytes ≡ pos_slot
      → is_unwritten (pos_decode crc32 bytes) ≡ true
      → IsSaved (record { file = (after p bytes).file; seq = p.seq }) lsn
  unfolding after
  torn-IsSaved p lsn bytes (two, w, b) l bad =
      let ws = next_slot-IsWritten p bytes two (omega arith) in
      (
        ws.0,
        ap (pos_decode crc32) ws.2 ∙ w,
        ap (λ s. is_before p.seq (pos_decode crc32 s))
              (ws.1
                ∙ nothing_left bytes _ l (omega (arith, length-rest_of p bytes two (omega arith))))
            ∙ unwritten_is_before p.seq (pos_decode crc32 bytes) bad,
      )

  saved-IsReady : (p : AppliedPos) (lsn : ℕ) → IsSaved p lsn → p.seq + 1 < 2 ^ 64 → IsReady p
  saved-IsReady p lsn (two, w, b) small =
      (two, small, ap (is_before (p.seq + 1)) w ∙ before_next p.seq lsn)

  read_of_saved :
      (p : AppliedPos) (lsn : ℕ) → IsSaved p lsn → pos_read crc32 (some p.file) ≡ some (some lsn)
  unfolding pos_read
  read_of_saved p lsn h = rw (saved_is_read p lsn h, pos_read) refl

  open_of_saved : (p : AppliedPos) (lsn : ℕ) → IsSaved p lsn → pos_open crc32 (some p.file) ≡ some p
  unfolding pos_open opened
  open_of_saved p lsn h = rw (saved_is_read p lsn h, pos_open, opened) refl

-- A file whose last save is of `lsn`, a next save that does not wrap, and a write of it that
-- tears and leaves in its slot bytes that do not read as a record. The position that is read is
-- then `next` where the save completed, and `lsn` where it tore; opening the torn file gives back
-- the number of the last save, so that the state is again one whose last save is of `lsn`; and
-- the completed save leaves such a state for `next`.
pub pos_save_lem :
    (crc32 : Bytes → ℕ) (p : AppliedPos) (lsn next : ℕ) (bytes : Bytes)
    → ((b : Bytes) → crc32 b < 2 ^ 32)
    → IsSaved crc32 p lsn
    → p.seq + 1 < 2 ^ 64
    → next < 2 ^ 64
    → length bytes ≡ pos_slot
    → is_unwritten (pos_decode crc32 bytes) ≡ true
    → (pos_read crc32 (some (pos_save crc32 complete p next).file) ≡ some (some next))
      × IsSaved crc32 (pos_save crc32 complete p next) next
      × (pos_read crc32 (some (pos_save crc32 (torn bytes) p next).file) ≡ some (some lsn))
      × (pos_open crc32 (some (pos_save crc32 (torn bytes) p next).file)
          ≡ some (record (pos_save crc32 (torn bytes) p next) { seq = p.seq }))
      × IsSaved crc32 (record (pos_save crc32 (torn bytes) p next) { seq = p.seq }) lsn
unfolding slot_bytes
pos_save_lem crc32 p lsn next bytes word saved small fits l bad =
    let done = pos_save-IsSaved crc32 p next word (saved-IsReady crc32 p lsn saved small) fits in
    let kept : IsSaved crc32 (record (pos_save crc32 (torn bytes) p next) { seq = p.seq }) lsn =
      subst (λ q. IsSaved crc32 (record q { seq = p.seq }) lsn)
        (sym (after-pos_save crc32 (torn bytes) p next small))
        (torn-IsSaved crc32 p lsn bytes saved l bad) in
    (
      read_of_saved crc32 (pos_save crc32 complete p next) next done,
      done,
      read_of_saved crc32 (record (pos_save crc32 (torn bytes) p next) { seq = p.seq }) lsn kept,
      open_of_saved crc32 (record (pos_save crc32 (torn bytes) p next) { seq = p.seq }) lsn kept,
      kept,
    )
