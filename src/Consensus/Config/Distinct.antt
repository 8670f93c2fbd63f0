-- ===== src/Consensus/Config/Distinct.antt =====
-- `distinct`, `canonical` and `members` of src/consensus/config.rs: one entry a node, no node lost.
use dewdb.Prelude.{
  ◌<◌, is_empty, ◌≡◌, refl, sym, ap, ◌∙◌, true, false, not, ◌||◌, List, [], ◌∷◌, ◌++◌, Bytes, arith,
  if◌then◌else◌, any-append, Bool-cases, inl, inr, length,
}
use mathlib.Core.List.{append_assoc, append-nil}
use dewdb.Util.Endpoint.{same_endpoint}
use dewdb.Util.Endpoint.Laws.{same_endpoint_comm, same_endpoint_congr}
use dewdb.Consensus.Config.{
  Configuration, distinct_after, distinct, push_distinct, canonical, members, counts, contains,
  outgoing_list,
}

-- A list names a node that it holds under another spelling.
pub counts_congr :
    (a b : Bytes) (xs : List Bytes) → same_endpoint a b ≡ true → counts xs a ≡ counts xs b
counts_congr a b [] h = refl
counts_congr a b (x ∷ xs) h = ground (
  arith,
  counts_congr a b xs,
  same_endpoint_congr a b x,
  same_endpoint_comm a x,
  same_endpoint_comm b x,
)

-- Two lists that name the same nodes.
abbrev SameNodes : List Bytes → List Bytes → Type 0
SameNodes xs ys = (v : Bytes) → counts xs v ≡ counts ys v

-- Pushing an entry that is there already names no new node.
SameNodes-push :
    (out before : List Bytes) (v : Bytes)
    → SameNodes out before
    → SameNodes (if not (counts out v) then out ++ v ∷ [] else out) (before ++ v ∷ [])
SameNodes-push out before v h w = ground (
  arith,
  h w,
  h v,
  any-append (λ x. same_endpoint x w) out (v ∷ []),
  any-append (λ x. same_endpoint x w) before (v ∷ []),
  counts_congr v w out,
)

push_distinct-eq :
    (out before urls : List Bytes)
    → SameNodes out before
    → push_distinct out urls ≡ out ++ distinct_after before urls
unfolding push_distinct distinct_after
push_distinct-eq out before [] h = sym (append-nil out)
push_distinct-eq out before (v ∷ urls) h = elim (Bool-cases (counts out v)) [
  | inl old ↦
      let ih = push_distinct-eq out (before ++ v ∷ []) urls (grown old) in
      rw (old, sym (h v) ∙ old) ih
  | inr new ↦
      rw (new, sym (h v) ∙ new)
        (push_distinct-eq (out ++ v ∷ []) (before ++ v ∷ []) urls (grown' new)
          ∙ append_assoc out (v ∷ []) (distinct_after (before ++ v ∷ []) urls))
]
  where
    grown : counts out v ≡ true → SameNodes out (before ++ v ∷ [])
    grown e w = ground (arith, SameNodes-push out before v h w)

    grown' : counts out v ≡ false → SameNodes (out ++ v ∷ []) (before ++ v ∷ [])
    grown' e w = ground (arith, SameNodes-push out before v h w)

-- `canonical`, which compares each voter with those kept, gives what `distinct`, which compares it
-- with all that stand before it, gives: the first spelling of each node.
pub canonical-eq-distinct : (voters : List Bytes) → canonical voters ≡ distinct voters
unfolding canonical distinct
canonical-eq-distinct voters = push_distinct-eq [] [] voters (λ v. refl)

counts-distinct_after :
    (before voters : List Bytes) (v : Bytes)
    → (counts before v || counts (distinct_after before voters) v)
      ≡ (counts before v || counts voters v)
unfolding distinct_after
counts-distinct_after before [] v = refl
counts-distinct_after before (x ∷ xs) v = ground (
  arith,
  counts-distinct_after (before ++ x ∷ []) xs v,
  any-append (λ w. same_endpoint w v) before (x ∷ []),
  counts_congr x v before,
)

-- Dropping later spellings loses no node.
pub counts-distinct :
    (voters : List Bytes) (v : Bytes) → counts (distinct voters) v ≡ counts voters v
unfolding distinct
counts-distinct voters v = counts-distinct_after [] voters v

-- No entry of a list names a node that an earlier one, or one of `before`, names.
abbrev pub IsDistinctAfter : List Bytes → List Bytes → Type 0
IsDistinctAfter before [] = Unit
IsDistinctAfter before (v ∷ vs) = (counts before v ≡ false) × IsDistinctAfter (before ++ v ∷ []) vs

distinct_after_fixed :
    (before voters : List Bytes)
    → IsDistinctAfter before voters
    → distinct_after before voters ≡ voters
unfolding distinct_after
distinct_after_fixed before [] h = refl
distinct_after_fixed before (v ∷ vs) h =
    ground (arith, distinct_after_fixed (before ++ v ∷ []) vs h.1)

IsDistinctAfter-weaken :
    (before more vs : List Bytes)
    → ((v : Bytes) → counts more v ≡ true → counts before v ≡ true)
    → IsDistinctAfter before vs
    → IsDistinctAfter more vs
IsDistinctAfter-weaken before more [] f h = tt
IsDistinctAfter-weaken before more (v ∷ vs) f h = (
  ground (arith, f v),
  IsDistinctAfter-weaken (before ++ v ∷ []) (more ++ v ∷ []) vs
      (λ w. ground (
        arith,
        f w,
        any-append (λ x. same_endpoint x w) before (v ∷ []),
        any-append (λ x. same_endpoint x w) more (v ∷ []),
      ))
      h.1,
)

distinct_after-IsDistinctAfter :
    (before voters : List Bytes) → IsDistinctAfter before (distinct_after before voters)
unfolding distinct_after
distinct_after-IsDistinctAfter before [] = tt
distinct_after-IsDistinctAfter before (v ∷ vs) = elim (Bool-cases (counts before v)) [
  | inl old ↦ rw old (
      IsDistinctAfter-weaken (before ++ v ∷ []) before (distinct_after (before ++ v ∷ []) vs)
        (λ w. ground (arith, any-append (λ x. same_endpoint x w) before (v ∷ [])))
        (distinct_after-IsDistinctAfter (before ++ v ∷ []) vs))
  | inr new ↦ rw new (new, distinct_after-IsDistinctAfter (before ++ v ∷ []) vs)
]

-- The electorate that `distinct` gives names no node twice.
pub distinct-IsDistinct : (voters : List Bytes) → IsDistinctAfter [] (distinct voters)
unfolding distinct
distinct-IsDistinct voters = distinct_after-IsDistinctAfter [] voters

-- An electorate is empty only for no voters.
pub distinct_nonempty : (vs : List Bytes) → is_empty vs ≡ false → 0 < length (distinct vs)
unfolding distinct distinct_after
distinct_nonempty [] h = absurd (ground arith)
distinct_nonempty (v ∷ vs) h = ground arith

-- What `canonical` returns names no node twice.
pub canonical-IsDistinctAfter : (voters : List Bytes) → IsDistinctAfter [] (canonical voters)
canonical-IsDistinctAfter voters =
    rw (canonical-eq-distinct voters) (unfold distinct in distinct_after-IsDistinctAfter [] voters)

-- So canonicalising again changes nothing, and the canonical list is its own electorate.
pub distinct-canonical : (voters : List Bytes) → distinct (canonical voters) ≡ canonical voters
distinct-canonical voters =
    unfold distinct in distinct_after_fixed [] (canonical voters) (canonical-IsDistinctAfter voters)

pub canonical-canonical : (voters : List Bytes) → canonical (canonical voters) ≡ canonical voters
canonical-canonical voters = canonical-eq-distinct (canonical voters) ∙ distinct-canonical voters

-- A node is a member exactly if one of the two halves names it.
pub contains-eq :
    (c : Configuration) (url : Bytes)
    → contains c url ≡ (counts c.voters url || counts (outgoing_list c) url)
unfolding contains members
contains-eq c url =
    ap (λ l. counts l url) (push_distinct-eq [] [] (c.voters ++ outgoing_list c) (λ v. refl))
    ∙ counts-distinct_after [] (c.voters ++ outgoing_list c) url
    ∙ any-append (λ w. same_endpoint w url) c.voters (outgoing_list c)
