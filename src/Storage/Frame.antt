-- ===== src/Storage/Frame.antt =====
-- src/storage/frame.rs: the sizes that bound a record, and the header of a log frame. The checksum
-- of a payload is a parameter, since `crc32fast` computes it.
pub mod Header
pub mod Sizes
use dewdb.Prelude.{
  ℕ, zero, suc, ◌+◌, ◌-◌, ◌*◌, ◌/◌, ◌%◌, Bool, List, [], ◌∷◌, ◌++◌, Bytes, ltb, ◌==◌, if◌then◌else◌,
  length, take, drop, Option, none, some,
}

abbrev pub max_record_size : ℕ
max_record_size = 10 * 1024 * 1024

abbrev pub header_len : ℕ
header_len = 40

abbrev pub max_frame_size : ℕ
max_frame_size = header_len + max_record_size

unfoldable pub base64_len : ℕ → ℕ
base64_len bytes = (bytes + 2) / 3 * 4

abbrev pub max_public_body : ℕ
max_public_body = 2 * 1024 * 1024

unfoldable pub max_internal_body : ℕ
unfolding base64_len
max_internal_body = base64_len max_frame_size + 64 * 1024

pub record FrameHeader : Type 0 where
  pub len : ℕ
  pub crc : ℕ
  pub term : ℕ
  pub lsn : ℕ
  pub prev_lsn : ℕ
  pub prev_term : ℕ

-- `to_le_bytes` and `from_le_bytes` of a word of `n` bytes.
unfoldable pub to_le_bytes : ℕ → ℕ → Bytes
to_le_bytes zero x = []
to_le_bytes (suc n) x = x % 256 ∷ to_le_bytes n (x / 256)

unfoldable pub from_le_bytes : Bytes → ℕ
from_le_bytes [] = 0
from_le_bytes (b ∷ bytes) = b + 256 * from_le_bytes bytes

-- `bytes[from..from + n]`
abbrev pub slice : ℕ → ℕ → Bytes → Bytes
slice from n bytes = take n (drop from bytes)

unfoldable pub parse : Bytes → Option FrameHeader
unfolding from_le_bytes
parse bytes =
    if ltb (length bytes) header_len
    then none
    else some (record {
      len = from_le_bytes (slice 0 4 bytes);
      crc = from_le_bytes (slice 4 4 bytes);
      term = from_le_bytes (slice 8 8 bytes);
      lsn = from_le_bytes (slice 16 8 bytes);
      prev_lsn = from_le_bytes (slice 24 8 bytes);
      prev_term = from_le_bytes (slice 32 8 bytes);
    })

unfoldable pub encode : FrameHeader → Bytes
unfolding to_le_bytes
encode h =
    to_le_bytes 4 h.len
    ++ to_le_bytes 4 h.crc
    ++ to_le_bytes 8 h.term
    ++ to_le_bytes 8 h.lsn
    ++ to_le_bytes 8 h.prev_lsn
    ++ to_le_bytes 8 h.prev_term

unfoldable pub payload_valid : (Bytes → ℕ) → FrameHeader → Bytes → Bool
payload_valid crc32 h payload = crc32 payload == h.crc
