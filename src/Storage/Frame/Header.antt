-- ===== src/Storage/Frame/Header.antt =====
-- The header of a frame (src/storage/frame.rs): what `encode` writes, `parse` reads, and back.
use dewdb.Prelude.{
  ℕ, zero, suc, ◌/◌, ◌^◌, ◌<◌, ◌≡◌, ◌↔◌, refl, sym, ap, ◌∙◌, false, ◌++◌, Bytes, arith, ltb, length,
  length-append, none, some,
}
use dewdb.Storage.Frame.{FrameHeader, header_len, to_le_bytes, from_le_bytes, parse, encode}

-- A value below `256 ^ n`, by its digits.
abbrev pub FitsIn : ℕ → ℕ → Type 0
FitsIn zero x = x ≡ 0
FitsIn (suc n) x = FitsIn n (x / 256)

pub from-to : (n x : ℕ) → FitsIn n x → from_le_bytes (to_le_bytes n x) ≡ x
unfolding from_le_bytes to_le_bytes
from-to zero x h = sym h
from-to (suc n) x h = ground (arith, from-to n (x / 256) h)

pub fits_4 : (x : ℕ) → x < 2 ^ 32 → FitsIn 4 x
fits_4 x lt = omega arith

pub fits_8 : (x : ℕ) → x < 2 ^ 64 → FitsIn 8 x
fits_8 x lt = omega arith

-- The fields of a header are machine words.
abbrev pub IsWords : FrameHeader → Type 0
IsWords h =
    (h.len < 2 ^ 32)
    × (h.crc < 2 ^ 32)
    × (h.term < 2 ^ 64)
    × (h.lsn < 2 ^ 64)
    × (h.prev_lsn < 2 ^ 64)
    × (h.prev_term < 2 ^ 64)

encode-length : (h : FrameHeader) → length (encode h) ≡ 40
unfolding encode
encode-length h = simp length-append

long_enough :
    (h : FrameHeader) (payload : Bytes) → ltb (length (encode h ++ payload)) header_len ≡ false
long_enough h payload = ground (arith, length-append (encode h) payload, encode-length h)

-- The header that the slices of an encoded one give.
reread : FrameHeader → FrameHeader
reread h = record {
  len = from_le_bytes (to_le_bytes 4 h.len);
  crc = from_le_bytes (to_le_bytes 4 h.crc);
  term = from_le_bytes (to_le_bytes 8 h.term);
  lsn = from_le_bytes (to_le_bytes 8 h.lsn);
  prev_lsn = from_le_bytes (to_le_bytes 8 h.prev_lsn);
  prev_term = from_le_bytes (to_le_bytes 8 h.prev_term);
}

parse_of_encoded :
    (h : FrameHeader) (payload : Bytes) → parse (encode h ++ payload) ≡ some (reread h)
unfolding parse reread encode to_le_bytes
parse_of_encoded h payload = rw (long_enough h payload, parse) refl

reread_eq : (h : FrameHeader) → IsWords h → reread h ≡ h
unfolding reread
reread_eq h (a, b, c, d, e, f) =
    rw
      (
        from-to 4 h.len (fits_4 h.len a),
        from-to 4 h.crc (fits_4 h.crc b),
        from-to 8 h.term (fits_8 h.term c),
        from-to 8 h.lsn (fits_8 h.lsn d),
        from-to 8 h.prev_lsn (fits_8 h.prev_lsn e),
        from-to 8 h.prev_term (fits_8 h.prev_term f),
      )
      refl

-- A header survives the log: behind it may stand any payload, its encoding is 40 bytes, and
-- reading them gives the header back; and a read fails exactly on fewer bytes than those.
pub parse-encode :
    (h : FrameHeader) (payload : Bytes)
    → IsWords h
    → (length (encode h) ≡ header_len)
      × (parse (encode h ++ payload) ≡ some h)
      × ((parse payload ≡ none) ↔ (length payload < header_len))
parse-encode h payload w = (
  encode-length h,
  parse_of_encoded h payload ∙ ap some (reread_eq h w),
  unfold parse in ground arith,
)
