-- ===== src/Storage/AppliedPos/Turns.antt =====
-- The two slots of src/storage/index.rs over several saves, failed ones among them.
use dewdb.Prelude.{
  ℕ, ◌+◌, ◌%◌, ◌^◌, ◌≤◌, ◌<◌, ◌≡◌, ◌⊎◌, inl, inr, refl, sym, ap, ◌∙◌, Bool, true, false, ◌==◌, leb,
  [], ◌∷◌, Option, none, some, arith, if◌then◌else◌, Bool-cases,
}
use mathlib.Core.Path.{subst}
use dewdb.Storage.AppliedPos.{
  Slot, empty, damaged, written, newest_written, any_damaged, found_or_damage, PosSlots, read_slots,
  SlotEnd, untouched, tears, lands, slot_after, save_slots,
}
use dewdb.Storage.AppliedPos.Torn.{is_before, newest_first, newest_second, unwrapped}

-- The slot of the last save, and the one of the next.
abbrev pub current : PosSlots → Slot
current p = if p.seq % 2 == 0 then p.first else p.second

abbrev pub next : PosSlots → Slot
next p = if p.seq % 2 == 0 then p.second else p.first

-- A slot holds no position above `applied`, and no record of a save after `seq`.
abbrev pub IsWithin : ℕ → ℕ → Slot → Type 0
IsWithin seq applied empty = Unit
IsWithin seq applied damaged = Unit
IsWithin seq applied (written s l) = (s ≤ seq) × (l ≤ applied)

-- The last save left its record, and the record before it is older.
abbrev pub IsTurned : PosSlots → ℕ → Type 0
IsTurned p lsn = (current p ≡ written p.seq lsn) × (is_before p.seq (next p) ≡ true)

read_found :
    (a b : Slot) (seq q lsn : ℕ)
    → newest_written none (a ∷ b ∷ []) ≡ some (q, lsn)
    → read_slots (record { first = a; second = b; seq = seq }) ≡ some (some lsn)
unfolding read_slots found_or_damage
read_found a b seq q lsn h = rw (h, read_slots) refl

-- Of two slots, one holds the record that is newest.
abbrev IsNewest : Slot → Slot → ℕ → ℕ → Type 0
IsNewest a b q lsn = (a ≡ written q lsn) × (is_before q b ≡ true)

read_newest :
    (a b : Slot) (seq q lsn : ℕ)
    → (IsNewest a b q lsn ⊎ IsNewest b a q lsn)
    → read_slots (record { first = a; second = b; seq = seq }) ≡ some (some lsn)
read_newest a b seq q lsn (inl (w, older)) =
    read_found a b seq q lsn
      (ap (λ s. newest_written none (s ∷ b ∷ [])) w ∙ newest_first b q lsn older)
read_newest a b seq q lsn (inr (w, older)) =
    read_found a b seq q lsn
      (ap (λ s. newest_written none (a ∷ s ∷ [])) w ∙ newest_second a q lsn older)

in_order :
    (even : Bool) (a b : Slot) (q lsn : ℕ)
    → (IsNewest (if even then a else b) (if even then b else a) q lsn
        ⊎ IsNewest (if even then b else a) (if even then a else b) q lsn)
    → (IsNewest a b q lsn ⊎ IsNewest b a q lsn)
in_order true a b q lsn h = h
in_order false a b q lsn (inl h) = inr h
in_order false a b q lsn (inr h) = inl h

read_turns :
    (p : PosSlots) (q lsn : ℕ)
    → (IsNewest (current p) (next p) q lsn ⊎ IsNewest (next p) (current p) q lsn)
    → read_slots p ≡ some (some lsn)
read_turns p q lsn h =
    read_newest p.first p.second p.seq q lsn (in_order (p.seq % 2 == 0) p.first p.second q lsn h)

-- What a save does to the two turns.
abbrev IsAfter : PosSlots → Slot → PosSlots → Type 0
IsAfter p written_slot after =
    (current after ≡ written_slot) × (next after ≡ current p) × (after.seq ≡ p.seq + 1)

save_turns :
    (end : SlotEnd) (lsn : ℕ) (p : PosSlots)
    → p.seq + 1 < 2 ^ 64
    → IsAfter p (slot_after end (p.seq + 1) lsn (next p)) (save_slots end lsn p)
unfolding save_slots
save_turns end lsn p small = elim (Bool-cases (p.seq % 2 == 0)) [
  | inl e ↦
      let odd : ((p.seq + 1) % 2 == 0) ≡ false = ground arith in
      rw (unwrapped (p.seq + 1) small, odd, e) (rw odd (refl, refl, refl))
  | inr e ↦
      let even : ((p.seq + 1) % 2 == 0) ≡ true = ground arith in
      rw (unwrapped (p.seq + 1) small, even, e) (rw even (refl, refl, refl))
]

before_later : (seq : ℕ) (s : Slot) → is_before seq s ≡ true → is_before (seq + 1) s ≡ true
before_later seq empty h = refl
before_later seq damaged h = refl
before_later seq (written s l) h = ground arith

newer_than : (seq lsn : ℕ) → is_before (seq + 1) (written seq lsn) ≡ true
newer_than seq lsn = ground arith

-- The file after one save that failed still reads, at the position before it or at the new one.
pub failed_save_reads :
    (end : SlotEnd) (lsn applied : ℕ) (p : PosSlots)
    → p.seq + 1 < 2 ^ 64
    → IsTurned p lsn
    → (read_slots (save_slots end applied p) ≡ some (some lsn))
      ⊎ (read_slots (save_slots end applied p) ≡ some (some applied))
unfolding slot_after
failed_save_reads untouched lsn applied p small (w, older) =
    let (c, n, s) = save_turns untouched applied p small in
    inl (
      read_turns (save_slots untouched applied p) p.seq lsn
        (inr (n ∙ w, ap (is_before p.seq) c ∙ older)))
failed_save_reads tears lsn applied p small (w, older) =
    let (c, n, s) = save_turns tears applied p small in
    inl (read_turns (save_slots tears applied p) p.seq lsn (inr (n ∙ w, ap (is_before p.seq) c)))
failed_save_reads lands lsn applied p small (w, older) =
    let (c, n, s) = save_turns lands applied p small in
    inr (
      read_turns (save_slots lands applied p) (p.seq + 1) applied
        (inl (c, ap (is_before (p.seq + 1)) (n ∙ w) ∙ newer_than p.seq lsn)))

-- A file whose last save succeeded reads at it.
pub turned_reads : (p : PosSlots) (lsn : ℕ) → IsTurned p lsn → read_slots p ≡ some (some lsn)
turned_reads p lsn h = read_turns p p.seq lsn (inl h)

within_before : (seq applied : ℕ) (s : Slot) → IsWithin seq applied s → is_before (seq + 1) s ≡ true
within_before seq applied empty h = refl
within_before seq applied damaged h = refl
within_before seq applied (written s l) h = ground arith

-- A save that succeeds takes its turn, whatever the slots held.
pub save-IsTurned :
    (applied : ℕ) (p : PosSlots)
    → p.seq + 1 < 2 ^ 64
    → IsWithin p.seq applied (current p)
    → IsTurned (save_slots lands applied p) applied
unfolding slot_after
save-IsTurned applied p small within =
    let (c, n, s) = save_turns lands applied p small in
    let after = save_slots lands applied p in
    (
      c ∙ sym (ap (λ q. written q applied) s),
      ap (λ q. is_before q (next after)) s
          ∙ ap (is_before (p.seq + 1)) n
          ∙ within_before p.seq applied (current p) within,
    )

-- Neither slot holds a position above `applied` or a record after the last save.
abbrev pub AreWithin : PosSlots → ℕ → Type 0
AreWithin p applied = IsWithin p.seq applied (current p) × IsWithin p.seq applied (next p)

wider :
    (seq after low high : ℕ) (s : Slot)
    → seq ≤ after
    → low ≤ high
    → IsWithin seq low s
    → IsWithin after high s
wider seq after low high empty a b h = tt
wider seq after low high damaged a b h = tt
wider seq after low high (written s l) a b h = (omega arith, omega arith)

pub AreWithin-wider :
    (p : PosSlots) (low high : ℕ) → low ≤ high → AreWithin p low → AreWithin p high
AreWithin-wider p low high le (c, n) = (
  wider p.seq p.seq low high (current p) (omega arith) le c,
  wider p.seq p.seq low high (next p) (omega arith) le n,
)

slot_after-IsWithin :
    (end : SlotEnd) (seq applied : ℕ) (s : Slot)
    → IsWithin seq applied s
    → IsWithin (seq + 1) applied (slot_after end (seq + 1) applied s)
unfolding slot_after
slot_after-IsWithin untouched seq applied s h =
    wider seq (seq + 1) applied applied s (omega arith) (omega arith) h
slot_after-IsWithin tears seq applied s h = tt
slot_after-IsWithin lands seq applied s h = (omega arith, omega arith)

pub save-AreWithin :
    (end : SlotEnd) (applied : ℕ) (p : PosSlots)
    → p.seq + 1 < 2 ^ 64
    → AreWithin p applied
    → AreWithin (save_slots end applied p) applied
save-AreWithin end applied p small (within, older) =
    let (c, n, s) = save_turns end applied p small in
    let after = save_slots end applied p in
    (
      subst (λ q. IsWithin q applied (current after)) (sym s)
          (subst (IsWithin (p.seq + 1) applied) (sym c)
            (slot_after-IsWithin end p.seq applied (next p) older)),
      subst (λ q. IsWithin q applied (next after)) (sym s)
          (subst (IsWithin (p.seq + 1) applied) (sym n) (
            wider p.seq (p.seq + 1) applied applied (current p) (omega arith) (omega arith)
              within)),
    )

-- What a read gives is within the bound of the slots.
abbrev pub ReadsWithin : ℕ → Option (Option ℕ) → Type 0
ReadsWithin applied none = Unit
ReadsWithin applied (some none) = Unit
ReadsWithin applied (some (some lsn)) = lsn ≤ applied

picks_second :
    (s l t k : ℕ)
    → leb s t ≡ true
    → newest_written none (written s l ∷ written t k ∷ []) ≡ some (t, k)
unfolding newest_written
picks_second s l t k e = rw e refl

picks_first :
    (s l t k : ℕ)
    → leb s t ≡ false
    → newest_written none (written s l ∷ written t k ∷ []) ≡ some (s, l)
unfolding newest_written
picks_first s l t k e = rw e refl

read-Within :
    (a b : Slot) (seq seq' applied : ℕ)
    → IsWithin seq' applied a
    → IsWithin seq' applied b
    → ReadsWithin applied (read_slots (record { first = a; second = b; seq = seq }))
unfolding read_slots newest_written found_or_damage any_damaged
read-Within empty empty seq q applied ha hb = tt
read-Within empty damaged seq q applied ha hb = tt
read-Within empty (written s l) seq q applied ha hb = hb.1
read-Within damaged empty seq q applied ha hb = tt
read-Within damaged damaged seq q applied ha hb = tt
read-Within damaged (written s l) seq q applied ha hb = hb.1
read-Within (written s l) empty seq q applied ha hb = ha.1
read-Within (written s l) damaged seq q applied ha hb = ha.1
read-Within (written s l) (written t k) seq q applied ha hb = elim (Bool-cases (leb s t)) [
  | inl e ↦
      subst (ReadsWithin applied)
        (sym (read_found (written s l) (written t k) seq t k (picks_second s l t k e))) hb.1
  | inr e ↦
      subst (ReadsWithin applied)
        (sym (read_found (written s l) (written t k) seq s l (picks_first s l t k e))) ha.1
]

pub read_is_within :
    (p : PosSlots) (applied : ℕ) → AreWithin p applied → ReadsWithin applied (read_slots p)
read_is_within p applied h = elim (Bool-cases (p.seq % 2 == 0)) [
  | inl e ↦ let (c, n) = rw e at h in read-Within p.first p.second p.seq p.seq applied c n
  | inr e ↦ let (c, n) = rw e at h in read-Within p.first p.second p.seq p.seq applied n c
]
