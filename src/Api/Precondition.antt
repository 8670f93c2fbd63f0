-- ===== src/Api/Precondition.antt =====
-- src/api/precondition.rs: `If-Match` and `If-None-Match` on a write of one document, against the
-- version of src/storage/index.rs. A header's text is visible ASCII, as `to_str` of the `http`
-- library gives it, so the only white space at its ends is blanks and tabs.
pub mod Etag
use dewdb.Prelude.{
  ℕ, zero, suc, ◌+◌, ◌/◌, ◌%◌, Bool, true, false, not, ◌&&◌, ◌||◌, List, [], ◌∷◌, ◌++◌, Bytes,
  bytes_eq, leb, ltb, ◌==◌, if◌then◌else◌, is_empty, any, Option, none, some,
}

pub record Version : Type 0 where
  pub term : ℕ
  pub lsn : ℕ

-- Decimal digits, in front of `acc`. A number has fewer digits than its value and one, the fuel.
unfoldable pub digits : ℕ → ℕ → Bytes → Bytes
digits zero n acc = acc
digits (suc fuel) n acc =
    let more = digits fuel (n / 10) ((48 + n % 10) ∷ acc) in
    if ltb n 10 then (48 + n) ∷ acc else more

unfoldable pub decimal : ℕ → Bytes
decimal n = digits (suc n) n []

-- `etag` without its quotes, and with them.
unfoldable pub opaque_tag : Version → Bytes
opaque_tag v = decimal v.term ++ 46 ∷ decimal v.lsn

unfoldable pub etag : Version → Bytes
unfolding opaque_tag
etag v = 34 ∷ opaque_tag v ++ 34 ∷ []

pub record EntityTag : Type 0 where
  pub weak : Bool
  pub opaque : Bytes

pub data Tags : Type 0 where
  any_tag : Tags
  tag_list : List EntityTag → Tags

pub record Preconditions : Type 0 where
  pub if_match : Option Tags
  pub if_none_match : Option Tags

unfoldable pub no_conditions : Preconditions → Bool
no_conditions p = elim p.if_match [
  | none ↦ (elim p.if_none_match [ none ↦ true | some t ↦ false ])
  | some t ↦ false
]

-- The match of `If-Match`, which is strong, and of `If-None-Match`, which is weak.
unfoldable pub strong_match : Tags → Option Version → Bool
unfolding opaque_tag
strong_match tags none = false
strong_match any_tag (some v) = true
strong_match (tag_list l) (some v) = any (λ t. not t.weak && bytes_eq t.opaque (opaque_tag v)) l

unfoldable pub weak_match : Tags → Option Version → Bool
unfolding opaque_tag
weak_match tags none = false
weak_match any_tag (some v) = true
weak_match (tag_list l) (some v) = any (λ t. bytes_eq t.opaque (opaque_tag v)) l

unfoldable pub condition_holds : Preconditions → Option Version → Bool
unfolding strong_match weak_match
condition_holds p current =
    if (elim p.if_match [ some tags ↦ not (strong_match tags current) | none ↦ false ])
    then false
    else (elim p.if_none_match [ some tags ↦ not (weak_match tags current) | none ↦ true ])

pub data TagError : Type 0 where
  expected_tag unterminated outside_etagc not_separated no_tag : TagError

pub data ParsedTags : Type 0 where
  parsed : Tags → ParsedTags
  malformed : TagError → ParsedTags

abbrev pub is_blank : ℕ → Bool
is_blank c = c == 32 || c == 9

-- `*b == 0x21 || (0x23..=0x7e).contains(b)`
abbrev pub is_etagc : ℕ → Bool
is_etagc c = c == 33 || (leb 35 c && leb c 126)

-- Where the loop stands: between tags, behind a `W`, at an opening quote, inside a tag with what it
-- has read and whether all of it is allowed, or behind a closing quote.
pub data Reading : Type 0 where
  between after_w closed : Reading
  opening : Bool → Reading
  inside : Bool → Bytes → Bool → Reading

-- The end of the text in each place.
unfoldable pub at_end : Reading → List EntityTag → ParsedTags
at_end between tags = if is_empty tags then malformed no_tag else parsed (tag_list tags)
at_end after_w tags = malformed expected_tag
at_end closed tags = parsed (tag_list tags)
at_end (opening weak) tags = malformed expected_tag
at_end (inside weak opaque allowed) tags = malformed unterminated

unfoldable pub read_tags : Reading → Bytes → List EntityTag → ParsedTags
unfolding at_end
read_tags reading [] tags = at_end reading tags
read_tags between (c ∷ cs) tags =
    let skipped = read_tags between cs tags in
    let w = read_tags after_w cs tags in
    let tag = read_tags (inside false [] true) cs tags in
    if is_blank c || c == 44
    then skipped
    else if c == 87
    then w
    else if c == 34
    then tag
    else malformed expected_tag
read_tags after_w (c ∷ cs) tags =
    let rest = read_tags (opening true) cs tags in if c == 47 then rest else malformed expected_tag
read_tags (opening weak) (c ∷ cs) tags =
    let rest = read_tags (inside weak [] true) cs tags in
    if c == 34 then rest else malformed expected_tag
read_tags (inside weak opaque allowed) (c ∷ cs) tags =
    let done = read_tags closed cs (tags ++ record { weak = weak; opaque = opaque } ∷ []) in
    let more = read_tags (inside weak (opaque ++ c ∷ []) (allowed && is_etagc c)) cs tags in
    if c == 34 then (if allowed then done else malformed outside_etagc) else more
read_tags closed (c ∷ cs) tags =
    let skipped = read_tags closed cs tags in
    let next = read_tags between cs tags in
    if is_blank c then skipped else if c == 44 then next else malformed not_separated

-- `text.trim() == "*"`
unfoldable pub all_blank : Bytes → Bool
all_blank [] = true
all_blank (c ∷ cs) = is_blank c && all_blank cs

unfoldable pub is_star : Bytes → Bool
is_star [] = false
is_star (c ∷ cs) = if is_blank c then is_star cs else c == 42 && all_blank cs

unfoldable pub parse_tags : Bytes → ParsedTags
parse_tags text = if is_star text then parsed any_tag else read_tags between text []
