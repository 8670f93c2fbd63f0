-- ===== src/Util/Base64.antt =====
-- `base64_bytes` of src/util.rs: the two alphabets, the encoder and the decoder. A text is its
-- bytes; `buf` and `bits` are 32-bit words that the decoder keeps far below their bound.
pub mod Digits
pub mod Roundtrip
use dewdb.Prelude.{
  ℕ, ◌+◌, ◌-◌, ◌*◌, ◌/◌, ◌%◌, ◌^◌, Bool, true, false, not, ◌&&◌, ◌||◌, List, [], ◌∷◌, ◌++◌, Bytes,
  codes, leb, ltb, ◌==◌, if◌then◌else◌, get_or, is_empty, Option, none, some,
}

abbrev pub standard : Bytes
standard = codes "ABCDEFGHIJKLMNOPQRSTUVWXYZabcdefghijklmnopqrstuvwxyz0123456789+/"

abbrev pub url_safe : Bytes
url_safe = codes "ABCDEFGHIJKLMNOPQRSTUVWXYZabcdefghijklmnopqrstuvwxyz0123456789-_"

-- `=`
abbrev pub pad : ℕ
pad = 61

-- Which of its two alphabets the encoder uses.
pub data Alphabet : Type 0 where
  in_body in_url : Alphabet

unfoldable pub char_of : Alphabet → ℕ → ℕ
char_of in_body i = get_or standard i 0
char_of in_url i = get_or url_safe i 0

-- The six bits of `combined` from bit `k`: `(combined >> k) & 0x3F`.
abbrev pub six : ℕ → ℕ → ℕ
six combined k = combined / 2 ^ k % 64

-- The loop over the chunks of three bytes.
unfoldable pub encode_with : Alphabet → Bytes → Bytes
unfolding char_of
encode_with chars [] = []
encode_with chars (b0 ∷ []) =
    let combined = b0 * 2 ^ 16 in
    char_of chars (six combined 18) ∷ char_of chars (six combined 12) ∷ pad ∷ pad ∷ []
encode_with chars (b0 ∷ b1 ∷ []) =
    let combined = b0 * 2 ^ 16 + b1 * 2 ^ 8 in
    char_of chars (six combined 18)
    ∷ char_of chars (six combined 12)
    ∷ char_of chars (six combined 6)
    ∷ pad
    ∷ []
encode_with chars (b0 ∷ b1 ∷ b2 ∷ rest) =
    let combined = b0 * 2 ^ 16 + b1 * 2 ^ 8 + b2 in
    char_of chars (six combined 18)
    ∷ char_of chars (six combined 12)
    ∷ char_of chars (six combined 6)
    ∷ char_of chars (six combined 0)
    ∷ encode_with chars rest

unfoldable pub base64_encode : Bytes → Bytes
unfolding encode_with
base64_encode input = encode_with in_body input

unfoldable pub base64_encode_url : Bytes → Bytes
unfolding encode_with
base64_encode_url input = encode_with in_url input

-- `trim_end_matches('=')`
unfoldable pub trim_pads : Bytes → Bytes
trim_pads [] = []
trim_pads (c ∷ cs) = let rest = trim_pads cs in if c == pad && is_empty rest then [] else c ∷ rest

-- The value of a character; none is the error `Invalid base64 char`.
unfoldable pub value_of : ℕ → Option ℕ
value_of c =
    if leb 65 c && leb c 90
    then some (c - 65)
    else if leb 97 c && leb c 122
    then some (c - 97 + 26)
    else if leb 48 c && leb c 57
    then some (c - 48 + 52)
    else if c == 43 || c == 45
    then some 62
    else if c == 47 || c == 95
    then some 63
    else none

-- The loop of the decoder: at least eight bits give a byte.
unfoldable pub decode_chars : Bytes → ℕ → ℕ → Bytes → Option Bytes
unfolding value_of
decode_chars [] buf bits result = some result
decode_chars (c ∷ cs) buf bits result = elim (value_of c) [
  | none ↦ none
  | some val ↦
      let buf' = buf * 64 + val in
      let bits' = bits + 6 in
      if leb 8 bits'
      then decode_chars cs (buf' % 2 ^ (bits' - 8)) (bits' - 8)
          (result ++ buf' / 2 ^ (bits' - 8) % 256 ∷ [])
      else decode_chars cs buf' bits' result
]

unfoldable pub base64_decode : Bytes → Option Bytes
unfolding trim_pads decode_chars
base64_decode input = decode_chars (trim_pads input) 0 0 []
