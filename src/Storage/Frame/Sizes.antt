-- ===== src/Storage/Frame/Sizes.antt =====
-- The sizes of src/storage/frame.rs agree with the encoder of src/util.rs.
use dewdb.Prelude.{◌+◌, ◌*◌, ◌≤◌, ◌≡◌, refl, [], ◌∷◌, Bytes, arith, length}
use dewdb.Storage.Frame.{max_record_size, header_len, base64_len, max_internal_body}
use dewdb.Util.Base64.{Alphabet, in_body, encode_with, base64_encode}

length-encode_with :
    (chars : Alphabet) (bytes : Bytes)
    → length (encode_with chars bytes) ≡ base64_len (length bytes)
unfolding encode_with base64_len
length-encode_with chars [] = refl
length-encode_with chars (a ∷ []) = refl
length-encode_with chars (a ∷ b ∷ []) = refl
length-encode_with chars (a ∷ b ∷ c ∷ rest) = ground (arith, length-encode_with chars rest)

-- A frame that the log can hold fits one internal request: a record within the limit, with its
-- header and encoded, leaves 64 KiB of the body for what stands around it; and the encoded length
-- is the one that `base64_len` predicts for every input.
pub frame_fits_body :
    (frame : Bytes)
    → (length (base64_encode frame) ≡ base64_len (length frame))
      × (length frame ≤ header_len + max_record_size
          → length (base64_encode frame) + 64 * 1024 ≤ max_internal_body)
unfolding base64_encode max_internal_body base64_len
frame_fits_body frame = (
  length-encode_with in_body frame,
  λ h. (let e = length-encode_with in_body frame in ground arith),
)
