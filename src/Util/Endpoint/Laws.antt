-- ===== src/Util/Endpoint/Laws.antt =====
-- `same_endpoint`, `node_key` and `cmp_endpoint` of src/util.rs agree on which urls name one node.
use Prim.Native.Nat.{Ordering}
use dewdb.Prelude.{◌≡◌, refl, sym, ◌∙◌, ◌↔◌, true, [], ◌∷◌, map, Bytes, arith, bool_ext}
use dewdb.Util.Endpoint.{
  lower, endpoint_of, eq_ignore_ascii_case, same_endpoint, node_key, cmp_bytes, cmp_endpoint,
}

eq_ignore→key : (xs ys : Bytes) → eq_ignore_ascii_case xs ys ≡ true → map lower xs ≡ map lower ys
unfolding eq_ignore_ascii_case
eq_ignore→key [] [] h = refl
eq_ignore→key [] (y ∷ ys) h = ground arith
eq_ignore→key (x ∷ xs) [] h = ground arith
eq_ignore→key (x ∷ xs) (y ∷ ys) h = ground (arith, eq_ignore→key xs ys)

key→eq_ignore : (xs ys : Bytes) → map lower xs ≡ map lower ys → eq_ignore_ascii_case xs ys ≡ true
unfolding eq_ignore_ascii_case
key→eq_ignore [] [] h = refl
key→eq_ignore [] (y ∷ ys) h = ground arith
key→eq_ignore (x ∷ xs) [] h = ground arith
key→eq_ignore (x ∷ xs) (y ∷ ys) h = ground (arith, key→eq_ignore xs ys)

-- Two urls name one node exactly when their keys are equal.
pub same_endpoint_iff-node_key :
    (a b : Bytes) → (same_endpoint a b ≡ true) ↔ (node_key a ≡ node_key b)
unfolding same_endpoint node_key
same_endpoint_iff-node_key a b =
    (eq_ignore→key (endpoint_of a) (endpoint_of b), key→eq_ignore (endpoint_of a) (endpoint_of b))

pub same_endpoint_refl : (a : Bytes) → same_endpoint a a ≡ true
same_endpoint_refl a = (same_endpoint_iff-node_key a a).1 refl

pub same_endpoint_symm : (a b : Bytes) → same_endpoint a b ≡ true → same_endpoint b a ≡ true
same_endpoint_symm a b h =
    (same_endpoint_iff-node_key b a).1 (sym ((same_endpoint_iff-node_key a b).0 h))

pub same_endpoint_trans :
    (a b c : Bytes) → same_endpoint a b ≡ true → same_endpoint b c ≡ true → same_endpoint a c ≡ true
same_endpoint_trans a b c h k =
    (same_endpoint_iff-node_key a c).1
      ((same_endpoint_iff-node_key a b).0 h ∙ (same_endpoint_iff-node_key b c).0 k)

-- One node, one answer: spellings of one node are the same as the same others.
pub same_endpoint_congr :
    (a b c : Bytes) → same_endpoint a b ≡ true → same_endpoint a c ≡ same_endpoint b c
same_endpoint_congr a b c h =
    bool_ext (same_endpoint a c) (same_endpoint b c)
      (same_endpoint_trans b a c (same_endpoint_symm a b h)) (same_endpoint_trans a b c h)

pub same_endpoint_comm : (a b : Bytes) → same_endpoint a b ≡ same_endpoint b a
same_endpoint_comm a b =
    bool_ext (same_endpoint a b) (same_endpoint b a) (same_endpoint_symm a b)
      (same_endpoint_symm b a)

cmp_bytes_eq_iff :
    (xs ys : Bytes) → (cmp_bytes xs ys ≡ Ordering.eq) ↔ (eq_ignore_ascii_case xs ys ≡ true)
unfolding cmp_bytes eq_ignore_ascii_case
cmp_bytes_eq_iff [] [] = ground arith
cmp_bytes_eq_iff [] (y ∷ ys) = ground arith
cmp_bytes_eq_iff (x ∷ xs) [] = ground arith
cmp_bytes_eq_iff (x ∷ xs) (y ∷ ys) = ground (arith, cmp_bytes_eq_iff xs ys)

-- The three notions of node identity agree: `cmp_endpoint` answers Equal exactly where
-- `same_endpoint` answers true, which is exactly where the `node_key`s are equal.
pub identities_agree :
    (a b : Bytes)
    → ((cmp_endpoint a b ≡ Ordering.eq) ↔ (same_endpoint a b ≡ true))
      × ((same_endpoint a b ≡ true) ↔ (node_key a ≡ node_key b))
unfolding cmp_endpoint same_endpoint
identities_agree a b =
    (cmp_bytes_eq_iff (endpoint_of a) (endpoint_of b), same_endpoint_iff-node_key a b)
