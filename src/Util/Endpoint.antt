-- ===== src/Util/Endpoint.antt =====
-- `endpoint_of`, `same_endpoint`, `node_key` and `cmp_endpoint` of src/util.rs, over bytes. The
-- separators are ASCII, so cutting at a character is cutting at its byte.
pub mod Laws
use dewdb.Prelude.{
  ℕ, ◌+◌, Bool, true, false, ◌&&◌, ◌||◌, List, [], ◌∷◌, map, Bytes, leb, ◌==◌, if◌then◌else◌,
  length, Option, none, some,
}
use Prim.Native.Nat.{compare, Ordering}

-- `url.split_once("//")`: what follows the first `//`.
unfoldable pub after_scheme : Bytes → Option Bytes
after_scheme [] = none
after_scheme (a ∷ []) = none
after_scheme (a ∷ b ∷ rest) = if a == b'/' && b == b'/' then some rest else after_scheme (b ∷ rest)

-- `['/', '?', '#']`
unfoldable pub ends_authority : ℕ → Bool
ends_authority c = c == b'/' || c == b'?' || c == b'#'

-- `split([..]).next()`: up to the first separator.
unfoldable pub cut_authority : Bytes → Bytes
unfolding ends_authority
cut_authority [] = []
cut_authority (c ∷ rest) = if ends_authority c then [] else c ∷ cut_authority rest

unfoldable pub endpoint_of : Bytes → Bytes
unfolding after_scheme cut_authority
endpoint_of url = cut_authority (elim (after_scheme url) [ none ↦ url | some rest ↦ rest ])

-- `u8::to_ascii_lowercase`
unfoldable pub lower : ℕ → ℕ
lower c = if leb b'A' c && leb c b'Z' then c + 32 else c

-- `str::eq_ignore_ascii_case`
unfoldable pub eq_ignore_ascii_case : Bytes → Bytes → Bool
unfolding lower
eq_ignore_ascii_case [] [] = true
eq_ignore_ascii_case [] (y ∷ ys) = false
eq_ignore_ascii_case (x ∷ xs) [] = false
eq_ignore_ascii_case (x ∷ xs) (y ∷ ys) = lower x == lower y && eq_ignore_ascii_case xs ys

unfoldable pub same_endpoint : Bytes → Bytes → Bool
unfolding endpoint_of eq_ignore_ascii_case
same_endpoint a b = eq_ignore_ascii_case (endpoint_of a) (endpoint_of b)

unfoldable pub node_key : Bytes → Bytes
unfolding endpoint_of lower
node_key url = map lower (endpoint_of url)

-- The loop of `cmp_endpoint` over the two endpoints, and the comparison of lengths after it.
pub cmp_bytes : Bytes → Bytes → Ordering
unfolding lower
cmp_bytes [] [] = Ordering.eq
cmp_bytes [] (y ∷ ys) = Ordering.lt
cmp_bytes (x ∷ xs) [] = Ordering.gt
cmp_bytes (x ∷ xs) (y ∷ ys) = elim (compare (lower x) (lower y)) [
  | Ordering.eq ↦ cmp_bytes xs ys
  | unequal ↦ unequal
]

unfoldable pub cmp_endpoint : Bytes → Bytes → Ordering
unfolding endpoint_of cmp_bytes
cmp_endpoint a b = cmp_bytes (endpoint_of a) (endpoint_of b)
