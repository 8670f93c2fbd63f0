-- ===== src/Storage/Tests.antt =====
-- Runs of the theorems on src/storage/frame.rs.
use dewdb.Prelude.{◌+◌, ◌*◌, ◌≤◌, ◌<◌, ◌≡◌, ◌↔◌, [], ◌∷◌, ◌++◌, Bytes, length, none, some, arith}
use dewdb.Storage.Frame.{
  FrameHeader, header_len, encode, parse, base64_len, max_record_size, max_internal_body,
}
use dewdb.Storage.Frame.Header.{parse-encode}
use dewdb.Storage.Frame.Sizes.{frame_fits_body}
use dewdb.Util.Base64.{base64_encode}

abbrev header : FrameHeader
header = record {
  len = 3;
  crc = 4_000_000_000;
  term = 2;
  lsn = 70_000;
  prev_lsn = 69_998;
  prev_term = 1;
}

abbrev payload : Bytes
payload = 1 ∷ 2 ∷ 3 ∷ []

abbrev frame : Bytes
frame = 7 ∷ 8 ∷ []

parse-encode_example :
    (length (encode header) ≡ header_len)
    × (parse (encode header ++ payload) ≡ some header)
    × ((parse payload ≡ none) ↔ (length payload < header_len))
parse-encode_example =
    parse-encode header payload
      (omega arith, omega arith, omega arith, omega arith, omega arith, omega arith)

frame_fits_body_example :
    (length (base64_encode frame) ≡ base64_len (length frame))
    × (length frame ≤ header_len + max_record_size
        → length (base64_encode frame) + 64 * 1024 ≤ max_internal_body)
frame_fits_body_example = frame_fits_body frame
