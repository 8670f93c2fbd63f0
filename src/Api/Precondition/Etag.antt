-- ===== src/Api/Precondition/Etag.antt =====
-- A version that a client read and sends back (src/api/precondition.rs).
use dewdb.Prelude.{
  ℕ, zero, suc, ◌+◌, ◌/◌, ◌%◌, ◌≡◌, refl, Bool, true, false, not, [], ◌∷◌, ◌++◌, Bytes, bytes_eq,
  arith, all, Option, none, some,
}
use mathlib.Core.List.{append_assoc, append-nil}
use dewdb.Api.Precondition.{
  Version, digits, decimal, opaque_tag, etag, tag_list, strong_match, weak_match, condition_holds,
  parsed, is_etagc, inside, read_tags, at_end, is_star, parse_tags,
}

digits_allowed :
    (fuel n : ℕ) (acc : Bytes) → all is_etagc acc ≡ true → all is_etagc (digits fuel n acc) ≡ true
unfolding digits
digits_allowed zero n acc h = h
digits_allowed (suc fuel) n acc h =
    let ih = digits_allowed fuel (n / 10) ((48 + n % 10) ∷ acc) in ground arith

all-append :
    (xs ys : Bytes)
    → all is_etagc xs ≡ true
    → all is_etagc ys ≡ true
    → all is_etagc (xs ++ ys) ≡ true
all-append [] ys h k = k
all-append (x ∷ xs) ys h k = ground (arith, all-append xs ys)

opaque_allowed : (v : Version) → all is_etagc (opaque_tag v) ≡ true
unfolding opaque_tag decimal
opaque_allowed v =
    all-append (decimal v.term) (46 ∷ decimal v.lsn) (digits_allowed (suc v.term) v.term [] refl)
      (digits_allowed (suc v.lsn) v.lsn [] refl)

read_inside :
    (weak : Bool) (opaque cs : Bytes)
    → all is_etagc cs ≡ true
    → read_tags (inside weak opaque true) (cs ++ 34 ∷ []) []
      ≡ parsed (tag_list (record { weak = weak; opaque = opaque ++ cs } ∷ []))
unfolding read_tags at_end
read_inside weak opaque [] h = rw (append-nil opaque) refl
read_inside weak opaque (c ∷ cs) h =
    let ih = read_inside weak (opaque ++ c ∷ []) cs in
    ground (arith, ih, append_assoc opaque (c ∷ []) cs)

-- A client may send back what it read. The tag of a version is read as one strong tag; as
-- `If-Match` it lets the write through exactly where the document still has a version of that tag,
-- and as `If-None-Match` exactly where it has not.
pub etag_lem :
    (v : Version) (current : Option Version)
    → let tags = tag_list (record { weak = false; opaque = opaque_tag v } ∷ []) in
      let same : Bool = elim current [
        | none ↦ false
        | some u ↦ bytes_eq (opaque_tag v) (opaque_tag u)
      ] in
      (parse_tags (etag v) ≡ parsed tags)
      × (condition_holds (record { if_match = some tags; if_none_match = none }) current ≡ same)
      × (condition_holds (record { if_match = none; if_none_match = some tags }) current ≡ not same)
unfolding parse_tags etag is_star read_tags condition_holds strong_match weak_match
etag_lem v current =
    (read_inside false [] (opaque_tag v) (opaque_allowed v), ground arith, ground arith)
