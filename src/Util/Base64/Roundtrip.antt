-- ===== src/Util/Base64/Roundtrip.antt =====
-- What `base64_encode` and `base64_encode_url` of src/util.rs write, `base64_decode` reads back.
use dewdb.Prelude.{ℕ, ◌+◌, ◌*◌, ◌/◌, ◌^◌, ◌<◌, ◌≡◌, refl, ◌∙◌, ap, [], ◌∷◌, ◌++◌, Bytes, some}
use mathlib.Core.List.{append_assoc, append-nil}
use dewdb.Util.Base64.{
  pad, Alphabet, in_body, in_url, char_of, six, encode_with, base64_encode, base64_encode_url,
  trim_pads, decode_chars, base64_decode,
}
use dewdb.Util.Base64.Digits.{
  char_not_pad, read_first, read_second, read_third, read_fourth, first_byte, second_byte,
  third_byte, six_lt, alone, pair_first, pair_second,
}

-- The text without its padding.
unpadded : Alphabet → Bytes → Bytes
unpadded chars [] = []
unpadded chars (b0 ∷ []) =
    let n = b0 * 2 ^ 16 in char_of chars (six n 18) ∷ char_of chars (six n 12) ∷ []
unpadded chars (b0 ∷ b1 ∷ []) =
    let n = b0 * 2 ^ 16 + b1 * 2 ^ 8 in
    char_of chars (six n 18) ∷ char_of chars (six n 12) ∷ char_of chars (six n 6) ∷ []
unpadded chars (b0 ∷ b1 ∷ b2 ∷ rest) =
    let n = b0 * 2 ^ 16 + b1 * 2 ^ 8 + b2 in
    char_of chars (six n 18)
    ∷ char_of chars (six n 12)
    ∷ char_of chars (six n 6)
    ∷ char_of chars (six n 0)
    ∷ unpadded chars rest

keeps_char :
    (chars : Alphabet) (n k : ℕ) (cs : Bytes)
    → trim_pads (char_of chars (six n k) ∷ cs) ≡ char_of chars (six n k) ∷ trim_pads cs
unfolding trim_pads
keeps_char chars n k cs = rw (char_not_pad chars (six n k) (six_lt n k), trim_pads) refl

one_pad : trim_pads (pad ∷ []) ≡ []
unfolding trim_pads
one_pad = refl

two_pads : trim_pads (pad ∷ pad ∷ []) ≡ []
unfolding trim_pads
two_pads = refl

trim_pads-encode_with :
    (chars : Alphabet) (bytes : Bytes) → trim_pads (encode_with chars bytes) ≡ unpadded chars bytes
unfolding encode_with unpadded
trim_pads-encode_with chars [] = unfold trim_pads in refl
trim_pads-encode_with chars (b0 ∷ []) = simp (keeps_char, two_pads)
trim_pads-encode_with chars (b0 ∷ b1 ∷ []) = simp (keeps_char, one_pad)
trim_pads-encode_with chars (b0 ∷ b1 ∷ b2 ∷ rest) =
    simp (keeps_char, trim_pads-encode_with chars rest)

abbrev pub AreBytes : Bytes → Type 0
AreBytes [] = Unit
AreBytes (b ∷ bs) = (b < 256) × AreBytes bs

decode_nil : (buf bits : ℕ) (r : Bytes) → decode_chars [] buf bits r ≡ some r
unfolding decode_chars
decode_nil buf bits r = refl

decode_quad :
    (chars : Alphabet) (b0 b1 b2 : ℕ) (cs r : Bytes)
    → b0 < 256
    → b1 < 256
    → b2 < 256
    → let n = b0 * 2 ^ 16 + b1 * 2 ^ 8 + b2 in
      decode_chars
        (char_of chars (six n 18)
          ∷ char_of chars (six n 12)
          ∷ char_of chars (six n 6)
          ∷ char_of chars (six n 0)
          ∷ cs)
        0
        0
        r
      ≡ decode_chars cs 0 0 (r ++ b0 ∷ b1 ∷ b2 ∷ [])
decode_quad chars b0 b1 b2 cs r p q s =
    let n = b0 * 2 ^ 16 + b1 * 2 ^ 8 + b2 in
    let (one, one') = first_byte b0 b1 b2 p q s in
    let (two, two') = second_byte b0 b1 b2 p q s in
    let (three, three') = third_byte b0 b1 b2 p q s in
    rw
      (
        read_first chars (six n 18)
            (char_of chars (six n 12) ∷ char_of chars (six n 6) ∷ char_of chars (six n 0) ∷ cs) r
            (six_lt n 18),
        read_second chars (six n 18) (six n 12)
            (char_of chars (six n 6) ∷ char_of chars (six n 0) ∷ cs) r (six_lt n 12),
        one,
        one',
        read_third chars (b1 / 16) (six n 6) (char_of chars (six n 0) ∷ cs) (r ++ b0 ∷ [])
            (six_lt n 6),
        two,
        two',
        read_fourth chars (b2 / 64) (six n 0) cs ((r ++ b0 ∷ []) ++ b1 ∷ []) (six_lt n 0),
        three,
        three',
        append_assoc r (b0 ∷ []) (b1 ∷ []),
        append_assoc r (b0 ∷ b1 ∷ []) (b2 ∷ []),
      )
      refl

decode_unpadded :
    (chars : Alphabet) (bytes r : Bytes)
    → AreBytes bytes
    → decode_chars (unpadded chars bytes) 0 0 r ≡ some (r ++ bytes)
unfolding unpadded
decode_unpadded chars [] r h = rw (decode_nil, append-nil) refl
decode_unpadded chars (b0 ∷ []) r h =
    let n = b0 * 2 ^ 16 in
    rw
      (
        read_first chars (six n 18) (char_of chars (six n 12) ∷ []) r (six_lt n 18),
        read_second chars (six n 18) (six n 12) [] r (six_lt n 12),
        alone b0 h.0,
        decode_nil,
      )
      refl
decode_unpadded chars (b0 ∷ b1 ∷ []) r h =
    let n = b0 * 2 ^ 16 + b1 * 2 ^ 8 in
    let (one, one') = pair_first b0 b1 h.0 h.1.0 in
    rw
      (
        read_first chars (six n 18) (char_of chars (six n 12) ∷ char_of chars (six n 6) ∷ []) r
            (six_lt n 18),
        read_second chars (six n 18) (six n 12) (char_of chars (six n 6) ∷ []) r (six_lt n 12),
        one,
        one',
        read_third chars (b1 / 16) (six n 6) [] (r ++ b0 ∷ []) (six_lt n 6),
        pair_second b0 b1 h.0 h.1.0,
        decode_nil,
        append_assoc,
      )
      refl
decode_unpadded chars (b0 ∷ b1 ∷ b2 ∷ rest) r h =
    decode_quad chars b0 b1 b2 (unpadded chars rest) r h.0 h.1.0 h.1.1.0
    ∙ decode_unpadded chars rest (r ++ b0 ∷ b1 ∷ b2 ∷ []) h.1.1.1
    ∙ ap some (append_assoc r (b0 ∷ b1 ∷ b2 ∷ []) rest)

-- The decoder reads back what either encoder wrote: for every list of bytes, of any length modulo
-- three, the text of `base64_encode` and the text of `base64_encode_url` both decode to it.
pub base64_roundtrip :
    (bytes : Bytes)
    → AreBytes bytes
    → (base64_decode (base64_encode bytes) ≡ some bytes)
      × (base64_decode (base64_encode_url bytes) ≡ some bytes)
unfolding base64_decode base64_encode base64_encode_url
base64_roundtrip bytes h = (
  rw (trim_pads-encode_with in_body bytes) (decode_unpadded in_body bytes [] h),
  rw (trim_pads-encode_with in_url bytes) (decode_unpadded in_url bytes [] h),
)
