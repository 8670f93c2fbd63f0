-- ===== src/Util/Base64/Digits.antt =====
-- One character and one byte of the base64 of src/util.rs: the values of the two alphabets, the
-- steps of the decoder, and the arithmetic of three bytes in four six-bit values.
use dewdb.Prelude.{
  ℕ, zero, suc, ◌+◌, ◌*◌, ◌/◌, ◌%◌, ◌^◌, ◌<◌, ◌≡◌, refl, Bool, true, false, ◌&&◌, not, List, [],
  ◌∷◌, ◌++◌, Bytes, arith, ◌==◌, all, Option, none, some,
}
use native.Mathlib.Nat.{zero-add}
use dewdb.Util.Base64.{pad, Alphabet, in_body, in_url, char_of, six, value_of, decode_chars}

-- Every number below `n`, from the highest.
abbrev pub below : ℕ → List ℕ
below zero = []
below (suc n) = n ∷ below n

pub all-below : (p : ℕ → Bool) (n i : ℕ) → all p (below n) ≡ true → i < n → p i ≡ true
all-below p zero i h lt = absurd (omega arith)
all-below p (suc n) i h lt = ground (arith, all-below p n i)

pub is_value : Option ℕ → ℕ → Bool
is_value none i = false
is_value (some v) i = v == i

pub good_char : Alphabet → ℕ → Bool
good_char chars i = is_value (value_of (char_of chars i)) i && not (char_of chars i == pad)

pub all_good : (chars : Alphabet) → all (good_char chars) (below 64) ≡ true
unfolding good_char is_value value_of char_of
all_good in_body = refl
all_good in_url = refl

-- The character of a value reads as the value, in both alphabets, and is not the padding.
pub char_value : (chars : Alphabet) (i : ℕ) → i < 64 → value_of (char_of chars i) ≡ some i
unfolding good_char is_value
char_value chars i lt = let g = all-below (good_char chars) 64 i (all_good chars) lt in ground arith

pub char_not_pad : (chars : Alphabet) (i : ℕ) → i < 64 → (char_of chars i == pad) ≡ false
unfolding good_char is_value
char_not_pad chars i lt =
    let g = all-below (good_char chars) 64 i (all_good chars) lt in ground arith

-- One character of value `v`, for a buffer of no bits, six, four or two.
pub read_first :
    (chars : Alphabet) (v : ℕ) (cs r : Bytes)
    → v < 64
    → decode_chars (char_of chars v ∷ cs) 0 0 r ≡ decode_chars cs v 6 r
unfolding decode_chars
read_first chars v cs r lt = rw (char_value chars v lt, decode_chars, zero-add) refl

pub read_second :
    (chars : Alphabet) (buf v : ℕ) (cs r : Bytes)
    → v < 64
    → decode_chars (char_of chars v ∷ cs) buf 6 r
      ≡ decode_chars cs ((buf * 64 + v) % 16) 4 (r ++ (buf * 64 + v) / 16 % 256 ∷ [])
unfolding decode_chars
read_second chars buf v cs r lt = rw (char_value chars v lt, decode_chars) refl

pub read_third :
    (chars : Alphabet) (buf v : ℕ) (cs r : Bytes)
    → v < 64
    → decode_chars (char_of chars v ∷ cs) buf 4 r
      ≡ decode_chars cs ((buf * 64 + v) % 4) 2 (r ++ (buf * 64 + v) / 4 % 256 ∷ [])
unfolding decode_chars
read_third chars buf v cs r lt = rw (char_value chars v lt, decode_chars) refl

pub read_fourth :
    (chars : Alphabet) (buf v : ℕ) (cs r : Bytes)
    → v < 64
    → decode_chars (char_of chars v ∷ cs) buf 2 r
      ≡ decode_chars cs ((buf * 64 + v) % 1) 0 (r ++ (buf * 64 + v) / 1 % 256 ∷ [])
unfolding decode_chars
read_fourth chars buf v cs r lt = rw (char_value chars v lt, decode_chars) refl

-- The bytes that the six-bit values of three bytes give back.
pub first_byte :
    (b0 b1 b2 : ℕ)
    → b0 < 256
    → b1 < 256
    → b2 < 256
    → let n = b0 * 2 ^ 16 + b1 * 2 ^ 8 + b2 in
      ((six n 18 * 64 + six n 12) / 16 % 256 ≡ b0) × ((six n 18 * 64 + six n 12) % 16 ≡ b1 / 16)
first_byte b0 b1 b2 p q r = (omega arith, omega arith)

pub second_byte :
    (b0 b1 b2 : ℕ)
    → b0 < 256
    → b1 < 256
    → b2 < 256
    → let n = b0 * 2 ^ 16 + b1 * 2 ^ 8 + b2 in
      ((b1 / 16 * 64 + six n 6) / 4 % 256 ≡ b1) × ((b1 / 16 * 64 + six n 6) % 4 ≡ b2 / 64)
second_byte b0 b1 b2 p q r = (omega arith, omega arith)

pub third_byte :
    (b0 b1 b2 : ℕ)
    → b0 < 256
    → b1 < 256
    → b2 < 256
    → let n = b0 * 2 ^ 16 + b1 * 2 ^ 8 + b2 in
      ((b2 / 64 * 64 + six n 0) / 1 % 256 ≡ b2) × ((b2 / 64 * 64 + six n 0) % 1 ≡ 0)
third_byte b0 b1 b2 p q r = (omega arith, omega arith)

pub six_lt : (n k : ℕ) → six n k < 64
six_lt n k = omega arith

pub alone : (b0 : ℕ) → b0 < 256 → let n = b0 * 2 ^ 16 in (six n 18 * 64 + six n 12) / 16 % 256 ≡ b0
alone b0 p = omega arith

pub pair_first :
    (b0 b1 : ℕ)
    → b0 < 256
    → b1 < 256
    → let n = b0 * 2 ^ 16 + b1 * 2 ^ 8 in
      ((six n 18 * 64 + six n 12) / 16 % 256 ≡ b0) × ((six n 18 * 64 + six n 12) % 16 ≡ b1 / 16)
pair_first b0 b1 p q = (omega arith, omega arith)

pub pair_second :
    (b0 b1 : ℕ)
    → b0 < 256
    → b1 < 256
    → let n = b0 * 2 ^ 16 + b1 * 2 ^ 8 in (b1 / 16 * 64 + six n 6) / 4 % 256 ≡ b1
pair_second b0 b1 p q = omega arith
