-- ===== src/Consensus/ReadIndex/Confirmed.antt =====
-- What an answered read of src/consensus/read_index.rs has established.
use dewdb.Prelude.{
  ℕ, ◌≡◌, ◌⊎◌, inl, inr, refl, ◌∙◌, ap, sym, Bool, true, false, not, ◌&&◌, ◌||◌, List, [], ◌∷◌,
  Bytes, leb, ◌==◌, if◌then◌else◌, any, is_empty, Option, none, some, arith,
}
use dewdb.Util.Endpoint.{same_endpoint}
use dewdb.Consensus.Config.{Configuration, has_quorum, counts}
use dewdb.Consensus.Config.Quorum.{quorums_intersect}
use dewdb.Consensus.Node.{holds_read_lease, has_current_term_commit, committed_lsn}
use dewdb.Consensus.ReadIndex.{
  ReadRefusal, not_leader, term_too_new, HeartbeatAnswer, Answers, confirms, confirming,
  Confirmation, confirmed, refused, stepped_down, confirm_with_quorum, ReadRun, still_leads,
  confirm_leadership, wait_for_applied, ReadResult, read_at, read_refused, answer_at,
  index_is_complete, read_index,
}

answer_at_confirmed :
    (leads visible : Bool) (index i : ℕ) (c : Confirmation)
    → answer_at leads index visible c ≡ read_at i
    → (c ≡ confirmed) × (visible ≡ true) × (leads ≡ true) × (i ≡ index)
unfolding answer_at
answer_at_confirmed leads visible index i (refused e) h = ground arith
answer_at_confirmed leads visible index i (stepped_down t) h = ground arith
answer_at_confirmed true true index i confirmed h = ground arith
answer_at_confirmed false true index i confirmed h = ground arith
answer_at_confirmed leads false index i confirmed h = ground arith

-- A voter that is `url`, and whose heartbeat shows no higher term and no claim to lead this one.
abbrev answered_for : ℕ → Bytes → Bytes × Option HeartbeatAnswer → Bool
answered_for term v (url, none) = false
answered_for term v (url, some a) =
    same_endpoint url v && leb a.term term && not (a.term == term && a.claims_primary)

-- Is the voter this node, or did it answer at `term` or below, claiming no leadership of `term`?
abbrev pub vouches : Bytes → ℕ → Answers → Bytes → Bool
vouches own term answers v = same_endpoint own v || any (answered_for term v) answers

counts-confirming :
    (term : ℕ) (answers : Answers) (v : Bytes)
    → counts (confirming term answers) v ≡ any (answered_for term v) answers
unfolding confirming confirms
counts-confirming term [] v = refl
counts-confirming term ((url, none) ∷ answers) v = counts-confirming term answers v
counts-confirming term ((url, some a) ∷ answers) v =
    ground (arith, counts-confirming term answers v)

any_mono :
    (p q : Bytes → Bool) (xs : List Bytes)
    → ((x : Bytes) → p x ≡ true → q x ≡ true)
    → any p xs ≡ true
    → any q xs ≡ true
any_mono p q [] le h = h
any_mono p q (x ∷ xs) le h = ground (arith, le x, any_mono p q xs le)

-- What a round that confirms has shown of every quorum.
abbrev pub IsVouched : Configuration → Bytes → ℕ → Answers → List Bytes → Type 0
IsVouched config own term answers later =
    any (λ v. vouches own term answers v && counts later v) config.voters ≡ true

own_vouches :
    (own : Bytes) (term : ℕ) (answers : Answers) (later : List Bytes) (v : Bytes)
    → (counts (own ∷ []) v && counts later v) ≡ true
    → (vouches own term answers v && counts later v) ≡ true
own_vouches own term answers later v h = ground arith

round_vouches :
    (own : Bytes) (term : ℕ) (answers : Answers) (later : List Bytes) (v : Bytes)
    → (counts (own ∷ confirming term answers) v && counts later v) ≡ true
    → (vouches own term answers v && counts later v) ≡ true
round_vouches own term answers later v h = ground (arith, counts-confirming term answers v)

-- A set that is a quorum in the round's terms, whichever test it passed.
confirmed_has_quorum :
    (config : Configuration) (own : Bytes) (term : ℕ) (answers : Answers)
    → confirm_with_quorum config own term answers ≡ confirmed
    → (has_quorum config (own ∷ []) ≡ true)
      ⊎ (has_quorum config (own ∷ confirming term answers) ≡ true)
unfolding confirm_with_quorum
confirmed_has_quorum config own term answers h = ground arith

round-IsVouched :
    (config : Configuration) (own : Bytes) (term : ℕ) (answers : Answers) (later : List Bytes)
    → confirm_with_quorum config own term answers ≡ confirmed
    → is_empty config.voters ≡ false
    → has_quorum config later ≡ true
    → IsVouched config own term answers later
round-IsVouched config own term answers later h ne k =
    elim (confirmed_has_quorum config own term answers h) [
      | inl alone ↦
          any_mono (λ v. counts (own ∷ []) v && counts later v)
            (λ v. vouches own term answers v && counts later v) config.voters
            (own_vouches own term answers later)
            (quorums_intersect config (own ∷ []) later ne alone k)
      | inr round ↦
          any_mono (λ v. counts (own ∷ confirming term answers) v && counts later v)
            (λ v. vouches own term answers v && counts later v) config.voters
            (round_vouches own term answers later)
            (quorums_intersect config (own ∷ confirming term answers) later ne round k)
    ]

leads_still :
    (leads : Bool) (c : Confirmation)
    → still_leads leads c ≡ confirmed
    → (c ≡ confirmed) × (leads ≡ true)
unfolding still_leads
leads_still true confirmed h = ground arith
leads_still false confirmed h = ground arith
leads_still leads (refused e) h = ground arith
leads_still leads (stepped_down t) h = ground arith

either_confirms :
    (lease : Bool) (c : Confirmation)
    → (if lease then confirmed else c) ≡ confirmed
    → (lease ≡ true) ⊎ (c ≡ confirmed)
either_confirms true c h = inl refl
either_confirms false c h = inr h

-- The lease or the round.
leadership_is_confirmed :
    (r : ReadRun)
    → confirm_leadership r ≡ confirmed
    → (holds_read_lease r.start r.config r.own r.now r.wall_now ≡ true)
      ⊎ ((confirm_with_quorum r.config r.own r.start.term r.answers ≡ confirmed)
          × (r.leads_after_round ≡ true))
unfolding confirm_leadership
leadership_is_confirmed r h =
    elim (either_confirms (holds_read_lease r.start r.config r.own r.now r.wall_now)
      (still_leads r.leads_after_round (confirm_with_quorum r.config r.own r.start.term r.answers))
      h) [
        | inl lease ↦ inl lease
        | inr round ↦ inr (
            leads_still r.leads_after_round
              (confirm_with_quorum r.config r.own r.start.term r.answers) round)
      ]

wait_is_over :
    (polls : List ℕ) (index : ℕ) → wait_for_applied polls index ≡ any (λ lsn. leb index lsn) polls
unfolding wait_for_applied
wait_is_over [] index = refl
wait_is_over (lsn ∷ polls) index = ap (λ b. leb index lsn || b) (wait_is_over polls index)

seen_at :
    (polls : List ℕ) (index i : ℕ)
    → i ≡ index
    → wait_for_applied polls index ≡ true
    → any (λ lsn. leb i lsn) polls ≡ true
seen_at polls index i at h = rw at (sym (wait_is_over polls index) ∙ h)

-- Where the read may be answered: at zero where nothing was ever written; else at the commit
-- position of the start, which nothing inherited and staged lies beyond, and which a poll found
-- applied.
abbrev pub IsCovered : ReadRun → Bytes → Option ℕ → ℕ → Type 0
IsCovered r collection none i = i ≡ 0
IsCovered r collection (some pending) i =
    (i ≡ committed_lsn r.start collection)
    × (any (λ lsn. leb i lsn) r.applied ≡ true)
    × (((pending == 0) || has_current_term_commit r.start collection) ≡ true)

abbrev Facts : ReadRun → Bytes → Option ℕ → ℕ → Type 0
Facts r collection pending i =
    (r.start.is_leader ≡ true)
    × (r.leads_at_end ≡ true)
    × (confirm_leadership r ≡ confirmed)
    × IsCovered r collection pending i

-- A check that did not refuse.
past_check :
    (passes : Bool) (e : ReadRefusal) (next : ReadResult) (i : ℕ)
    → (if not passes then read_refused e else next) ≡ read_at i
    → (passes ≡ true) × (next ≡ read_at i)
past_check true e next i h = (refl, h)
past_check false e next i h = ground arith

answered-Facts :
    (r : ReadRun) (collection : Bytes) (pending : Option ℕ) (i : ℕ)
    → read_index r collection pending ≡ read_at i
    → Facts r collection pending i
unfolding read_index index_is_complete
answered-Facts r collection none i h =
    let (leads, next) =
      past_check r.start.is_leader not_leader
        (answer_at r.leads_at_end 0 true (confirm_leadership r)) i h in
    let (c, visible, ends, at) =
      answer_at_confirmed r.leads_at_end true 0 i (confirm_leadership r) next in
    (leads, ends, c, at)
answered-Facts r collection (some pending) i h =
    let index : ℕ = committed_lsn r.start collection in
    let (leads, complete) =
      past_check r.start.is_leader not_leader
        (if not (index_is_complete r.start collection pending)
          then read_refused term_too_new
          else answer_at r.leads_at_end index (wait_for_applied r.applied index)
              (confirm_leadership r))
        i h in
    let (whole, next) =
      past_check (index_is_complete r.start collection pending) term_too_new
        (answer_at r.leads_at_end index (wait_for_applied r.applied index) (confirm_leadership r)) i
        complete in
    let (c, visible, ends, at) =
      answer_at_confirmed r.leads_at_end (wait_for_applied r.applied index) index i
        (confirm_leadership r) next in
    (leads, ends, c, (at, seen_at r.applied index i at visible, whole))

-- A read that is answered at `i`, of a configuration with a voter, and any quorum `later` of it.
-- The node led at the start and at the end; `i` is covered: zero where the collection was never
-- written, else the commit position of the start, found applied, with nothing inherited and
-- staged beyond it; and either the node held a read lease, or it led after the round and `later`
-- counts a voter that is the node itself or answered with no higher term and no claim to lead
-- this one.
pub read_index_lem :
    (r : ReadRun) (collection : Bytes) (pending : Option ℕ) (i : ℕ) (later : List Bytes)
    → read_index r collection pending ≡ read_at i
    → is_empty r.config.voters ≡ false
    → has_quorum r.config later ≡ true
    → (r.start.is_leader ≡ true)
      × (r.leads_at_end ≡ true)
      × IsCovered r collection pending i
      × ((holds_read_lease r.start r.config r.own r.now r.wall_now ≡ true)
          ⊎ ((r.leads_after_round ≡ true) × IsVouched r.config r.own r.start.term r.answers later))
read_index_lem r collection pending i later h ne k =
    let (leads, ends, c, at) = answered-Facts r collection pending i h in
    (
      leads,
      ends,
      at,
      elim (leadership_is_confirmed r c) [
        | inl lease ↦ inl lease
        | inr (round, still) ↦
            inr (still, round-IsVouched r.config r.own r.start.term r.answers later round ne k)
      ],
    )
