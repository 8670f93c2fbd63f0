-- ===== src/Consensus/Election/Tally.antt =====
-- The tally of `ask_peers`, and what two won elections of one term have in common.
use dewdb.Prelude.{
  ℕ, ◌≡◌, refl, sym, ◌∙◌, ap, true, false, ◌&&◌, List, [], ◌∷◌, ◌++◌, Bytes, arith, Option, some,
  if◌then◌else◌, ltb, is_empty, any-append, any_witness, and_left, and_right, Bool-cases, inl, inr,
  max,
}
use mathlib.Core.List.{append-nil, append_assoc}
use dewdb.Util.Endpoint.{same_endpoint}
use dewdb.Consensus.Config.{Configuration, counts, has_quorum, simple, joint}
use dewdb.Consensus.Config.Quorum.{Shared, quorums_intersect, change_intersects, has_quorum_mono}
use dewdb.Consensus.Election.{Answer, tally}

-- Everyone who granted, in the order of arrival, and the highest term of an answer.
abbrev pub granters : List Answer → List Bytes
granters [] = []
granters (a ∷ answers) = if a.vote_granted then a.voter ∷ granters answers else granters answers

abbrev pub highest : List Answer → ℕ → ℕ
highest [] t = t
highest (a ∷ answers) t = highest answers (max t a.term)

more_counts :
    (granted more : List Bytes) (v : Bytes)
    → counts granted v ≡ true
    → counts (granted ++ more) v ≡ true
more_counts granted more v h = ground (arith, any-append (λ g. same_endpoint g v) granted more)

granted_eq :
    (a : Answer) (answers : List Answer) (granted : List Bytes)
    → (if a.vote_granted then granted ++ a.voter ∷ [] else granted) ++ granters answers
      ≡ granted ++ granters (a ∷ answers)
granted_eq a answers granted =
    ground (arith, append_assoc granted (a.voter ∷ []) (granters answers))

-- What the loop has read when it stops: some of the answers, from the first on, with all who
-- granted and the highest term among those.
abbrev pub HasRead : List Answer → List Bytes → ℕ → List Bytes × ℕ → Type 0
HasRead answers granted t r =
    (read unread : List Answer) × (answers ≡ read ++ unread)
    × (r.0 ≡ granted ++ granters read)
    × (r.1 ≡ highest read t)

tally-HasRead :
    (c : Configuration) (answers : List Answer) (granted : List Bytes) (t : ℕ)
    → HasRead answers granted t (tally c answers granted t)
unfolding tally
tally-HasRead c [] granted t = ([], [], refl, sym (append-nil granted), refl)
tally-HasRead c (a ∷ answers) granted t = elim (Bool-cases (has_quorum c granted)) [
  | inl e ↦ rw e ([], a ∷ answers, refl, sym (append-nil granted), refl)
  | inr e ↦
      let granted' = if a.vote_granted then granted ++ a.voter ∷ [] else granted in
      let t' : ℕ = if ltb t a.term then a.term else t in
      let (read, unread, split, g, h) = tally-HasRead c answers granted' t' in
      let seen : t' ≡ max t a.term = ground arith in
      rw e (
        a ∷ read,
        unread,
        ap (a ∷◌) split,
        g ∙ granted_eq a read granted,
        h ∙ ap (highest read) seen,
      )
]

same_verdict :
    (c : Configuration) (answers : List Answer) (granted : List Bytes) (t : ℕ)
    → let (g, h) = tally c answers granted t in
      (has_quorum c g ≡ has_quorum c (granted ++ granters answers))
      × (has_quorum c g ≡ false → (g ≡ granted ++ granters answers) × (h ≡ highest answers t))
unfolding tally
same_verdict c [] granted t = (rw append-nil, λ h. (sym (append-nil granted), refl))
same_verdict c (a ∷ answers) granted t = elim (Bool-cases (has_quorum c granted)) [
  | inl e ↦ rw e (
    e
        ∙ sym (
            has_quorum_mono c granted (granted ++ granters (a ∷ answers))
              (more_counts granted (granters (a ∷ answers))) e),
    λ f. absurd (ground arith),
  )
  | inr e ↦
      let granted' = if a.vote_granted then granted ++ a.voter ∷ [] else granted in
      let t' : ℕ = if ltb t a.term then a.term else t in
      let (same, all_read) = same_verdict c answers granted' t' in
      let g = granted_eq a answers granted in
      let h : t' ≡ max t a.term = ground arith in
      rw e (
        same ∙ ap (has_quorum c) g,
        λ f. ((all_read f).0 ∙ g, (all_read f).1 ∙ ap (highest answers) h),
      )
]

-- Stopping early changes neither verdict on the votes. The loop that stops at the first quorum ends
-- with a quorum exactly if all who granted are one. It has then read some of the answers, from the
-- first on: it returns those of them that granted and the highest term among them, so a higher term
-- in an answer it did not read is missed; and where it ends without a quorum it has read them all.
pub tally_decides :
    (c : Configuration) (answers : List Answer) (granted : List Bytes) (t : ℕ)
    → let r = tally c answers granted t in
      (has_quorum c r.0 ≡ has_quorum c (granted ++ granters answers))
      × HasRead answers granted t r
      × (has_quorum c r.0 ≡ false → (r.0 ≡ granted ++ granters answers) × (r.1 ≡ highest answers t))
tally_decides c answers granted t =
    let (same, all_read) = same_verdict c answers granted t in
    (same, tally-HasRead c answers granted t, all_read)

-- Every node of a list voted for `id`.
abbrev pub AllVoted : (Bytes → Option Bytes) → Bytes → List Bytes → Type 0
AllVoted ballot id [] = Unit
AllVoted ballot id (v ∷ vs) = (ballot v ≡ some id) × AllVoted ballot id vs

-- A ballot is a node's, whatever url names the node.
abbrev pub IsByNode : (Bytes → Option Bytes) → Type 0
IsByNode ballot = (a b : Bytes) → same_endpoint a b ≡ true → ballot a ≡ ballot b

ballot_of_counted :
    (ballot : Bytes → Option Bytes) (id v : Bytes) (g : List Bytes)
    → IsByNode ballot
    → AllVoted ballot id g
    → counts g v ≡ true
    → ballot v ≡ some id
ballot_of_counted ballot id v [] n all h = absurd (ground arith)
ballot_of_counted ballot id v (x ∷ xs) n all h = elim (Bool-cases (same_endpoint x v)) [
  | inl e ↦ sym (n x v e) ∙ all.0
  | inr e ↦ ballot_of_counted ballot id v xs n all.1 (ground arith)
]

one_winner :
    (ballot : Bytes → Option Bytes) (id₁ id₂ : Bytes) (voters g₁ g₂ : List Bytes)
    → IsByNode ballot
    → AllVoted ballot id₁ g₁
    → AllVoted ballot id₂ g₂
    → Shared voters g₁ g₂
    → id₁ ≡ id₂
one_winner ballot id₁ id₂ voters g₁ g₂ n a₁ a₂ s =
    let (v, both) = any_witness (λ v. counts g₁ v && counts g₂ v) voters s in
    let b₁ = ballot_of_counted ballot id₁ v g₁ n a₁ (and_left (counts g₁ v) (counts g₂ v) both) in
    let b₂ = ballot_of_counted ballot id₂ v g₂ n a₂ (and_right (counts g₁ v) (counts g₂ v) both) in
    cc

-- Election safety. If each node has one ballot in a term, two candidates that both end their
-- round of that term with a quorum of those who voted for them are the same candidate: under one
-- configuration, and, in the course of a change from `old` to `new`, also where one of them was
-- elected under the joint entry and the other under the entry before it or the one after it.
pub election_safety :
    (ballot : Bytes → Option Bytes) (id₁ id₂ : Bytes) (c : Configuration) (old new : List Bytes)
    (g₁ g₂ : List Bytes)
    → IsByNode ballot
    → AllVoted ballot id₁ g₁
    → AllVoted ballot id₂ g₂
    → is_empty c.voters ≡ false
    → is_empty old ≡ false
    → is_empty new ≡ false
    → (has_quorum c g₁ ≡ true → has_quorum c g₂ ≡ true → id₁ ≡ id₂)
      × (has_quorum (joint old new) g₁ ≡ true → has_quorum (simple old) g₂ ≡ true → id₁ ≡ id₂)
      × (has_quorum (joint old new) g₁ ≡ true → has_quorum (simple new) g₂ ≡ true → id₁ ≡ id₂)
election_safety ballot id₁ id₂ c old new g₁ g₂ n a₁ a₂ hc ho hn = (
  λ h k. one_winner ballot id₁ id₂ c.voters g₁ g₂ n a₁ a₂ (quorums_intersect c g₁ g₂ hc h k),
  λ h k.
      one_winner ballot id₁ id₂ (simple old).voters g₁ g₂ n a₁ a₂
        ((change_intersects old new g₁ g₂ ho hn h).0 k),
  λ h k.
      one_winner ballot id₁ id₂ (simple new).voters g₁ g₂ n a₁ a₂
        ((change_intersects old new g₁ g₂ ho hn h).1 k),
)
