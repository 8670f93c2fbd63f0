-- ===== src/Storage/AppliedPos/Slots.antt =====
-- The two slots of the file of src/storage/index.rs, and the bytes of a record.
use dewdb.Prelude.{
  ℕ, zero, suc, ◌+◌, ◌*◌, ◌^◌, ◌≤◌, ◌<◌, ◌≡◌, ◌⊎◌, inl, inr, refl, sym, ap, ◌∙◌, [], ◌∷◌, ◌++◌,
  Bytes, length, length-append, take, drop, arith, ◌==◌, not, if◌then◌else◌, true,
}
use mathlib.Core.List.{append_assoc}
use mathlib.Core.Path.{subst}
use dewdb.Storage.Frame.{to_le_bytes, from_le_bytes, slice}
use dewdb.Storage.Frame.Header.{from-to, fits_4, fits_8}
use dewdb.Storage.AppliedPos.{
  Slot, damaged, written, pos_slot, pos_body, pos_encode, pos_decode, write_at,
}

zero_plus : (k : ℕ) → 0 + k ≡ k
zero_plus k = omega arith

suc_plus : (n k : ℕ) → suc n + k ≡ suc (n + k)
suc_plus n k = omega arith

==-refl : (x : ℕ) → (x == x) ≡ true
==-refl x = ground arith

take-append : (n : ℕ) (xs ys : Bytes) → n ≤ length xs → take n (xs ++ ys) ≡ take n xs
take-append zero xs ys h = refl
take-append (suc n) [] ys h = ground arith
take-append (suc n) (x ∷ xs) ys h = ap (x ∷◌) (take-append n xs ys (omega arith))

take_all : (n : ℕ) (xs : Bytes) → length xs ≡ n → take n xs ≡ xs
take_all zero [] h = refl
take_all zero (x ∷ xs) h = ground arith
take_all (suc n) [] h = refl
take_all (suc n) (x ∷ xs) h = ap (x ∷◌) (take_all n xs (omega arith))

drop-append : (n : ℕ) (xs ys : Bytes) → n ≤ length xs → drop n (xs ++ ys) ≡ drop n xs ++ ys
drop-append zero xs ys h = refl
drop-append (suc n) [] ys h = ground arith
drop-append (suc n) (x ∷ xs) ys h = drop-append n xs ys (omega arith)

drop_past : (n k : ℕ) (xs ys : Bytes) → length xs ≡ n → drop (n + k) (xs ++ ys) ≡ drop k ys
drop_past zero k [] ys h = ap (λ m. drop m ys) (zero_plus k)
drop_past zero k (x ∷ xs) ys h = ground arith
drop_past (suc n) k [] ys h = ground arith
drop_past (suc n) k (x ∷ xs) ys h =
    ap (λ m. drop m (x ∷ xs ++ ys)) (suc_plus n k) ∙ drop_past n k xs ys (omega arith)

pub length-drop : (n : ℕ) (xs : Bytes) → n ≤ length xs → n + length (drop n xs) ≡ length xs
length-drop zero xs h = omega arith
length-drop (suc n) [] h = ground arith
length-drop (suc n) (x ∷ xs) h = omega (arith, length-drop n xs (omega arith))

-- Two slots, one behind the other.
write_first :
    (r s t : Bytes) → length r ≤ length s → (write_at 0 r (s ++ t) ≡ (r ++ drop (length r) s) ++ t)
unfolding write_at
write_first r s t h =
    rw (zero_plus (length r), drop-append (length r) s t h)
      (sym (append_assoc r (drop (length r) s) t))

write_second :
    (r s t : Bytes)
    → length s ≡ pos_slot
    → (write_at pos_slot r (s ++ t) ≡ s ++ (r ++ drop (length r) t))
unfolding write_at
write_second r s t h =
    rw (take-append 512 s t (omega arith), take_all 512 s h, drop_past 512 (length r) s t h)
      (append_assoc s r (drop (length r) t))

-- The file as two slots of 512 bytes.
abbrev pub IsTwo : Bytes → Type 0
IsTwo file = length file ≡ pos_slot * 2

abbrev pub slot_at : ℕ → Bytes → Bytes
slot_at at file = slice at pos_slot file

-- The two offsets, in either order.
abbrev pub IsPair : ℕ → ℕ → Type 0
IsPair at other = ((at ≡ 0) × (other ≡ pos_slot)) ⊎ ((at ≡ pos_slot) × (other ≡ 0))

take-drop : (n : ℕ) (xs : Bytes) → take n xs ++ drop n xs ≡ xs
take-drop zero xs = refl
take-drop (suc n) [] = refl
take-drop (suc n) (x ∷ xs) = ap (x ∷◌) (take-drop n xs)

slots_of :
    (s t : Bytes)
    → length s ≡ 512
    → length t ≡ 512
    → (length (s ++ t) ≡ pos_slot * 2) × (slot_at 0 (s ++ t) ≡ s) × (slot_at pos_slot (s ++ t) ≡ t)
slots_of s t h k = (
  omega (arith, length-append s t),
  take-append 512 s t (omega arith) ∙ take_all 512 s h,
  ap (take 512) (drop_past 512 0 s t h) ∙ take_all 512 t k,
)

length-overlaid : (r s : Bytes) → length r ≤ length s → length (r ++ drop (length r) s) ≡ length s
length-overlaid r s h =
    omega (arith, length-append r (drop (length r) s), length-drop (length r) s h)

-- What a write into one slot leaves: the length, the record over the old slot, the other slot.
abbrev pub IsWritten : ℕ → ℕ → Bytes → Bytes → Type 0
IsWritten at other r file =
    (length (write_at at r file) ≡ pos_slot * 2)
    × (slot_at at (write_at at r file) ≡ r ++ drop (length r) (slot_at at file))
    × (slot_at other (write_at at r file) ≡ slot_at other file)

IsWritten-first :
    (r s t : Bytes)
    → length s ≡ 512
    → length t ≡ 512
    → length r ≤ 512
    → IsWritten 0 pos_slot r (s ++ t)
IsWritten-first r s t h k le =
    rw
      (
        write_first r s t (omega arith),
        (slots_of s t h k).1,
        (slots_of s t h k).2,
        (slots_of (r ++ drop (length r) s) t (length-overlaid r s (omega arith) ∙ h) k).1,
        (slots_of (r ++ drop (length r) s) t (length-overlaid r s (omega arith) ∙ h) k).2,
      )
      (
        (slots_of (r ++ drop (length r) s) t (length-overlaid r s (omega arith) ∙ h) k).0,
        refl,
        refl,
      )

IsWritten-second :
    (r s t : Bytes)
    → length s ≡ 512
    → length t ≡ 512
    → length r ≤ 512
    → IsWritten pos_slot 0 r (s ++ t)
IsWritten-second r s t h k le =
    rw
      (
        write_second r s t h,
        (slots_of s t h k).1,
        (slots_of s t h k).2,
        (slots_of s (r ++ drop (length r) t) h (length-overlaid r t (omega arith) ∙ k)).1,
        (slots_of s (r ++ drop (length r) t) h (length-overlaid r t (omega arith) ∙ k)).2,
      )
      (
        (slots_of s (r ++ drop (length r) t) h (length-overlaid r t (omega arith) ∙ k)).0,
        refl,
        refl,
      )

length-take : (n : ℕ) (xs : Bytes) → n ≤ length xs → length (take n xs) ≡ n
length-take zero xs h = refl
length-take (suc n) [] h = ground arith
length-take (suc n) (x ∷ xs) h = omega (arith, length-take n xs (omega arith))

length-rest : (file : Bytes) → IsTwo file → length (drop 512 file) ≡ 512
length-rest file two = omega (arith, length-drop 512 file (omega arith))

pub two_slots-IsWritten :
    (at other : ℕ) (r file : Bytes)
    → IsPair at other
    → IsTwo file
    → length r ≤ 512
    → IsWritten at other r file
two_slots-IsWritten at other r file (inl (a, o)) two le =
    rw (a, o)
      (subst (λ f. IsWritten 0 pos_slot r f) (take-drop 512 file)
        (IsWritten-first r (take 512 file) (drop 512 file) (length-take 512 file (omega arith))
          (length-rest file two) le))
two_slots-IsWritten at other r file (inr (a, o)) two le =
    rw (a, o)
      (subst (λ f. IsWritten pos_slot 0 r f) (take-drop 512 file)
        (IsWritten-second r (take 512 file) (drop 512 file) (length-take 512 file (omega arith))
          (length-rest file two) le))

pub length-slot_at :
    (at other : ℕ) (file : Bytes) → IsPair at other → IsTwo file → length (slot_at at file) ≡ 512
length-slot_at at other file (inl (a, o)) two = rw a (length-take 512 file (omega arith))
length-slot_at at other file (inr (a, o)) two =
    rw a (length-take 512 (drop 512 file) (omega (arith, length-rest file two)))

-- The words that the slices of a record give.
reread : (Bytes → ℕ) → ℕ → ℕ → Slot
reread crc32 seq lsn =
    if not (crc32 (pos_body seq lsn) == from_le_bytes (to_le_bytes 4 (crc32 (pos_body seq lsn))))
    then damaged
    else written (from_le_bytes (to_le_bytes 8 seq)) (from_le_bytes (to_le_bytes 8 lsn))

pub pos_encode-length : (crc32 : Bytes → ℕ) (seq lsn : ℕ) → length (pos_encode crc32 seq lsn) ≡ 24
unfolding pos_encode
pos_encode-length crc32 seq lsn = simp length-append

is_slot :
    (crc32 : Bytes → ℕ) (seq lsn : ℕ) (rest : Bytes)
    → length rest ≡ 488
    → (length (pos_encode crc32 seq lsn ++ rest) == pos_slot) ≡ true
is_slot crc32 seq lsn rest h =
    ground
      (arith, length-append (pos_encode crc32 seq lsn) rest, pos_encode-length crc32 seq lsn, h)

decode_of_encoded :
    (crc32 : Bytes → ℕ) (seq lsn : ℕ) (rest : Bytes)
    → length rest ≡ 488
    → pos_decode crc32 (pos_encode crc32 seq lsn ++ rest) ≡ reread crc32 seq lsn
unfolding reread pos_encode pos_body to_le_bytes pos_decode from_le_bytes
decode_of_encoded crc32 seq lsn rest h = rw (is_slot crc32 seq lsn rest h) refl

pub pos_decode-encode :
    (crc32 : Bytes → ℕ) (seq lsn : ℕ) (rest : Bytes)
    → ((b : Bytes) → crc32 b < 2 ^ 32)
    → seq < 2 ^ 64
    → lsn < 2 ^ 64
    → length rest ≡ 488
    → pos_decode crc32 (pos_encode crc32 seq lsn ++ rest) ≡ written seq lsn
unfolding reread
pos_decode-encode crc32 seq lsn rest word s l h =
    rw
      (
        decode_of_encoded crc32 seq lsn rest h,
        from-to 4 (crc32 (pos_body seq lsn))
            (fits_4 (crc32 (pos_body seq lsn)) (word (pos_body seq lsn))),
        from-to 8 seq (fits_8 seq s),
        from-to 8 lsn (fits_8 lsn l),
        ==-refl (crc32 (pos_body seq lsn)),
      )
      refl
