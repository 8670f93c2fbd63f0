-- ===== src/Cluster/Metadata/Converge.antt =====
-- Views that are offered (src/cluster/metadata.rs) lead every node to the same one, whatever the
-- order they come in.
use dewdb.Prelude.{
  ℕ, ◌≡◌, ◌⊎◌, refl, sym, ap, ap₂, ◌∙◌, inl, inr, Bool, true, false, not, ◌||◌, [], ◌∷◌, Bytes,
  if◌then◌else◌, some, arith, Bool-cases,
}
use dewdb.Cluster.Metadata.{
  ClusterMetadata, ViewId, ViewCheck, view_valid, view_invalid, bytes_gt, later, outranks,
  id_supersedes, view_id, supersedes, sanitize_catalog, validate_view, adopt_checked, adopt,
}

gt-irreflexive : (a : Bytes) → bytes_gt a a ≡ false
unfolding bytes_gt
gt-irreflexive [] = refl
gt-irreflexive (x ∷ a) = ground (arith, gt-irreflexive a)

gt-asymmetric : (a b : Bytes) → bytes_gt a b ≡ true → bytes_gt b a ≡ false
unfolding bytes_gt
gt-asymmetric [] b h = absurd (ground arith)
gt-asymmetric (x ∷ a) [] h = refl
gt-asymmetric (x ∷ a) (y ∷ b) h = ground (arith, gt-asymmetric a b)

gt-transitive : (a b c : Bytes) → bytes_gt a b ≡ true → bytes_gt b c ≡ true → bytes_gt a c ≡ true
unfolding bytes_gt
gt-transitive [] b c g h = absurd (ground arith)
gt-transitive (x ∷ a) [] c g h = absurd (ground arith)
gt-transitive (x ∷ a) (y ∷ b) [] g h = refl
gt-transitive (x ∷ a) (y ∷ b) (z ∷ c) g h = ground (arith, gt-transitive a b c)

gt-total : (a b : Bytes) → bytes_gt a b ≡ false → bytes_gt b a ≡ false → a ≡ b
unfolding bytes_gt
gt-total [] [] g h = refl
gt-total [] (y ∷ b) g h = absurd (ground arith)
gt-total (x ∷ a) [] g h = absurd (ground arith)
gt-total (x ∷ a) (y ∷ b) g h = ground (arith, gt-total a b)

-- The view a node holds after one is offered, by what the order reads.
abbrev pub settle_on : ViewId → ViewId → ViewId
settle_on current offered = if id_supersedes offered current then offered else current

-- A view that a node publishes names its author.
abbrev named : ℕ → Bytes → Bool → ViewId
named version by seeded = record { version = version; updated_by = some by; seeded = seeded }

supersedes-transitive :
    (v w u : ℕ) (a b c : Bytes) (r s t : Bool)
    → id_supersedes (named v a r) (named w b s) ≡ true
    → id_supersedes (named w b s) (named u c t) ≡ true
    → id_supersedes (named v a r) (named u c t) ≡ true
unfolding id_supersedes outranks later
supersedes-transitive v w u a b c r s t g h = ground (arith, gt-transitive a b c)

supersedes-asymmetric :
    (v w : ℕ) (a b : Bytes) (r s : Bool)
    → id_supersedes (named v a r) (named w b s) ≡ true
    → id_supersedes (named w b s) (named v a r) ≡ false
unfolding id_supersedes outranks later
supersedes-asymmetric v w a b r s g = ground (arith, gt-asymmetric a b)

not_seeded :
    (v w : ℕ) (a b : Bytes) (r s : Bool)
    → id_supersedes (named v a r) (named w b s) ≡ true
    → r ≡ false
unfolding id_supersedes
not_seeded v w a b true s g = sym g
not_seeded v w a b false s g = refl

same_rank :
    (v w : ℕ) (a b : Bytes)
    → id_supersedes (named v a false) (named w b false) ≡ false
    → id_supersedes (named w b false) (named v a false) ≡ false
    → named v a false ≡ named w b false
unfolding id_supersedes outranks later
same_rank v w a b g h =
    let versions : v ≡ w = ground arith in
    let names : a ≡ b = gt-total a b (ground arith) (ground arith) in
    ap₂ (λ n by. named n by false) versions names

-- Two views that both supersede a third.
settle_both :
    (w u : ℕ) (b c : Bytes) (s t : Bool)
    → s ≡ false
    → t ≡ false
    → settle_on (named w b s) (named u c t) ≡ settle_on (named u c t) (named w b s)
settle_both w u b c s t p q =
    rw (p, q)
      (elim (Bool-cases (id_supersedes (named u c false) (named w b false))) [
        | inl e ↦ rw (e, supersedes-asymmetric u w c b false false e) refl
        | inr e ↦ (elim (Bool-cases (id_supersedes (named w b false) (named u c false))) [
          | inl d ↦ rw (e, d) refl
          | inr d ↦ rw (e, d) (same_rank w u b c d e)
        ])
      ])

both : ¬ (true ≡ false)
both h = ground arith

-- What does not supersede a view does not supersede one that does.
not_beyond :
    (v w u : ℕ) (a b c : Bytes) (r s t : Bool)
    → id_supersedes (named w b s) (named v a r) ≡ true
    → id_supersedes (named u c t) (named v a r) ≡ false
    → id_supersedes (named u c t) (named w b s) ≡ false
not_beyond v w u a b c r s t e d = elim (Bool-cases (id_supersedes (named u c t) (named w b s))) [
  | inr f ↦ f
  | inl f ↦ absurd (both (sym (supersedes-transitive u w v c b a t s r f e) ∙ d))
]

settle-swap :
    (v w u : ℕ) (a b c : Bytes) (r s t : Bool)
    → settle_on (settle_on (named v a r) (named w b s)) (named u c t)
      ≡ settle_on (settle_on (named v a r) (named u c t)) (named w b s)
settle-swap v w u a b c r s t = elim (Bool-cases (id_supersedes (named w b s) (named v a r))) [
  | inl e ↦ (elim (Bool-cases (id_supersedes (named u c t) (named v a r))) [
    | inl d ↦
        rw (e, d) (settle_both w u b c s t (not_seeded w v b a s r e) (not_seeded u v c a t r d))
    | inr d ↦ rw (e, d) (rw (e, not_beyond v w u a b c r s t e d) refl)
  ])
  | inr e ↦ (elim (Bool-cases (id_supersedes (named u c t) (named v a r))) [
    | inl d ↦ rw (e, d) (rw (not_beyond v u w a c b r t s d e) refl)
    | inr d ↦ rw (e, d) (rw e refl)
  ])
]

irreflexive : (v : ℕ) (a : Bytes) (s : Bool) → id_supersedes (named v a s) (named v a s) ≡ false
unfolding id_supersedes outranks later
irreflexive v a true = refl
irreflexive v a false = ground (arith, gt-irreflexive a)

decided :
    (v w : ℕ) (a b : Bytes) (r s : Bool)
    → (named v a r ≡ named w b s)
      ⊎ ((r || s) ≡ true)
      ⊎ (id_supersedes (named v a r) (named w b s)
          ≡ not (id_supersedes (named w b s) (named v a r)))
decided v w a b true s = inr (inl refl)
decided v w a b false true = inr (inl refl)
decided v w a b false false =
    elim (Bool-cases (id_supersedes (named v a false) (named w b false))) [
      | inl e ↦ inr (inr (rw (e, supersedes-asymmetric v w a b false false e) refl))
      | inr e ↦ (elim (Bool-cases (id_supersedes (named w b false) (named v a false))) [
        | inl d ↦ inr (inr (rw (e, d) refl))
        | inr d ↦ inl (same_rank v w a b e d)
      ])
    ]

-- What the order reads of the view a node holds after one is offered that passed the check or not.
abbrev settle_checked : ViewCheck → ViewId → ViewId → ViewId
settle_checked view_valid current offered = settle_on current offered
settle_checked (view_invalid why) current offered = current

-- The check that `adopt` makes of a view.
abbrev checked : ClusterMetadata → ViewCheck
checked offered =
    validate_view (record offered { index_catalog = sanitize_catalog offered.index_catalog })

adopted_checked_id :
    (check : ViewCheck) (current incoming : ClusterMetadata)
    → view_id (adopt_checked current incoming check).0
      ≡ settle_checked check (view_id current) (view_id incoming)
unfolding adopt_checked view_id supersedes
adopted_checked_id (view_invalid why) current incoming = refl
adopted_checked_id view_valid current incoming =
    elim (Bool-cases (id_supersedes (view_id incoming) (view_id current))) [
      | inl e ↦ rw e refl
      | inr e ↦ rw e refl
    ]

adopted_id :
    (current offered : ClusterMetadata)
    → view_id (adopt current offered).0
      ≡ settle_checked (checked offered) (view_id current) (view_id offered)
unfolding adopt view_id
adopted_id current offered =
    adopted_checked_id (checked offered) current
      (record offered { index_catalog = sanitize_catalog offered.index_catalog })

settle_checked-swap :
    (check other : ViewCheck) (current a b : ClusterMetadata)
    → settle_checked other (settle_checked check (view_id current) (view_id a)) (view_id b)
      ≡ settle_checked check (settle_checked other (view_id current) (view_id b)) (view_id a)
unfolding view_id
settle_checked-swap view_valid view_valid current a b =
    settle-swap current.version a.version b.version current.updated_by a.updated_by b.updated_by
      current.seeded a.seeded b.seeded
settle_checked-swap view_valid (view_invalid why) current a b = refl
settle_checked-swap (view_invalid why) view_valid current a b = refl
settle_checked-swap (view_invalid why) (view_invalid also) current a b = refl

-- Views converge. Whatever view a node holds and whichever two it is offered, valid or not, seeded
-- or decided, in either order it ends with the same version, author and seed mark; and the order
-- that decides is strict: no view supersedes itself, and of two decided views that differ in these
-- exactly one supersedes the other.
pub adoption_converges :
    (current a b : ClusterMetadata)
    → (view_id (adopt (adopt current a).0 b).0 ≡ view_id (adopt (adopt current b).0 a).0)
      × (supersedes a a ≡ false)
      × ((view_id a ≡ view_id b)
          ⊎ ((a.seeded || b.seeded) ≡ true)
          ⊎ (supersedes a b ≡ not (supersedes b a)))
unfolding view_id supersedes
adoption_converges current a b = (
  adopted_id (adopt current a).0 b
      ∙ ap (λ id. settle_checked (checked b) id (view_id b)) (adopted_id current a)
      ∙ settle_checked-swap (checked a) (checked b) current a b
      ∙ sym (
          adopted_id (adopt current b).0 a
          ∙ ap (λ id. settle_checked (checked a) id (view_id a)) (adopted_id current b)),
  irreflexive a.version a.updated_by a.seeded,
  decided a.version b.version a.updated_by b.updated_by a.seeded b.seeded,
)
