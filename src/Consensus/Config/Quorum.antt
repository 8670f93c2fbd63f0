-- ===== src/Consensus/Config/Quorum.antt =====
-- Quorum intersection for `has_quorum` of src/consensus/config.rs, inside one configuration and
-- across the two entries of a membership change.
use dewdb.Prelude.{
  ◌≡◌, Bool, true, false, ◌&&◌, List, [], ◌∷◌, ◌++◌, Bytes, arith, any, some, is_empty, pigeonhole,
  count_mono,
}
use dewdb.Consensus.Config.{
  Configuration, distinct_after, distinct, half_has_quorum, canonical, simple, joint, counts,
  has_quorum, outgoing_list,
}
use dewdb.Consensus.Config.Distinct.{distinct_nonempty, canonical-eq-distinct}

-- A voter that is counted by both of two sets.
abbrev pub Shared : List Bytes → List Bytes → List Bytes → Type 0
Shared voters g₁ g₂ = any (λ v. counts g₁ v && counts g₂ v) voters ≡ true

any-distinct_after :
    (p : Bytes → Bool) (before vs : List Bytes)
    → any p (distinct_after before vs) ≡ true
    → any p vs ≡ true
unfolding distinct_after
any-distinct_after p before [] h = h
any-distinct_after p before (v ∷ vs) h = ground (arith, any-distinct_after p (before ++ v ∷ []) vs)

-- Two majorities of one half share a voter.
half_intersect :
    (voters g₁ g₂ : List Bytes)
    → is_empty voters ≡ false
    → half_has_quorum voters g₁ ≡ true
    → half_has_quorum voters g₂ ≡ true
    → Shared voters g₁ g₂
unfolding half_has_quorum
half_intersect voters g₁ g₂ ne h k =
    unfold distinct in
    any-distinct_after (λ v. counts g₁ v && counts g₂ v) [] voters
      (pigeonhole (counts g₁) (counts g₂) (distinct voters)
        (ground (arith, distinct_nonempty voters)))

half_of_quorum :
    (c : Configuration) (g : List Bytes) → has_quorum c g ≡ true → half_has_quorum c.voters g ≡ true
unfolding has_quorum
half_of_quorum c g h = ground arith

outgoing_of_quorum :
    (vs old : List Bytes) (g : List Bytes)
    → has_quorum (record { voters = vs; outgoing = some old }) g ≡ true
    → half_has_quorum old g ≡ true
unfolding has_quorum
outgoing_of_quorum vs old g h = ground arith

-- Any two quorums of a configuration with a voter have a voter of it in common.
pub quorums_intersect :
    (c : Configuration) (g₁ g₂ : List Bytes)
    → is_empty c.voters ≡ false
    → has_quorum c g₁ ≡ true
    → has_quorum c g₂ ≡ true
    → Shared c.voters g₁ g₂
quorums_intersect c g₁ g₂ ne h k =
    half_intersect c.voters g₁ g₂ ne (half_of_quorum c g₁ h) (half_of_quorum c g₂ k)

canonical_nonempty : (vs : List Bytes) → is_empty vs ≡ false → is_empty (canonical vs) ≡ false
canonical_nonempty vs h = rw (canonical-eq-distinct vs) (ground (arith, distinct_nonempty vs))

-- Across a membership change from `old` to `new` any quorum of an entry meets any quorum of the
-- entry before it: a quorum of the joint entry shares a voter of `old` with every quorum of the
-- simple entry before it, and a voter of `new` with every quorum of the simple entry after it.
pub change_intersects :
    (old new g₁ g₂ : List Bytes)
    → is_empty old ≡ false
    → is_empty new ≡ false
    → has_quorum (joint old new) g₁ ≡ true
    → (has_quorum (simple old) g₂ ≡ true → Shared (simple old).voters g₁ g₂)
      × (has_quorum (simple new) g₂ ≡ true → Shared (simple new).voters g₁ g₂)
unfolding simple joint
change_intersects old new g₁ g₂ ho hn h = (
  λ k.
      half_intersect (canonical old) g₁ g₂ (canonical_nonempty old ho)
        (outgoing_of_quorum (canonical new) (canonical old) g₁ h)
        (half_of_quorum (simple old) g₂ k),
  λ k.
      half_intersect (canonical new) g₁ g₂ (canonical_nonempty new hn)
        (half_of_quorum (joint old new) g₁ h) (half_of_quorum (simple new) g₂ k),
)

half_mono :
    (vs g₁ g₂ : List Bytes)
    → ((v : Bytes) → counts g₁ v ≡ true → counts g₂ v ≡ true)
    → half_has_quorum vs g₁ ≡ true
    → half_has_quorum vs g₂ ≡ true
unfolding half_has_quorum
half_mono vs g₁ g₂ f h = ground (arith, count_mono (counts g₁) (counts g₂) (distinct vs) f)

-- Whoever else grants, under whatever spelling, a quorum stays one: the answer depends only on
-- which nodes are named.
pub has_quorum_mono :
    (c : Configuration) (g₁ g₂ : List Bytes)
    → ((v : Bytes) → counts g₁ v ≡ true → counts g₂ v ≡ true)
    → has_quorum c g₁ ≡ true
    → has_quorum c g₂ ≡ true
unfolding has_quorum
has_quorum_mono c g₁ g₂ f h =
    ground (arith, half_mono c.voters g₁ g₂ f, half_mono (outgoing_list c) g₁ g₂ f)
