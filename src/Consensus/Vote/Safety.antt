-- ===== src/Consensus/Vote/Safety.antt =====
-- One vote per term and node, through failed writes, late saves and restarts: the reason for the
-- save before the change in memory in src/api/internal.rs and src/consensus/election.rs.
use dewdb.Prelude.{
  ℕ, ◌+◌, ◌<◌, ◌^◌, ◌%◌, ◌≡◌, refl, sym, ◌∙◌, Bool, true, false, List, [], ◌∷◌, Bytes, arith,
  Option, none, some, ◌⊎◌, inl, inr, Bool-cases, ◌==◌, ◌&&◌,
}
use dewdb.Consensus.State.{
  ReplicationMeta, ReplicationState, Disk, WriteOutcome, save, load, Loaded, loaded, load_error,
  Saved, saved, save_error, same_vote, apply_demotion, relinquish_leadership,
}
use dewdb.Consensus.State.Kept.{same_vote→eq}
use dewdb.Prelude.Assoc.{Assoc}
use dewdb.Consensus.Config.{Configuration}
use dewdb.Consensus.Election.{VoteDecision, VoteRequest, LogTail}
use dewdb.Consensus.Election.Eligible.{decide_vote_lem}
use dewdb.Consensus.Vote.{
  Node, record_vote, vote_meta, vote_saved, vote_recorded, stand_saved, install_decision,
  stood_down, stand, assume_leadership, adopt_term, BootConfig, boot, restored,
}
use dewdb.Consensus.Vote.Steps.{
  Voter, Step, votes, stands, leads, adopts, is_deposed, resigns, saves, restarts, Reach, here,
  then_step, Agrees, OnePerTerm, answered, stood, decision,
}
use dewdb.Consensus.Vote.Backing.{
  Backs, AllHold, AllBack, IsSound, Moves, AllHold-Moves, may_vote, Backs-save, AllBack-save,
  Backs-saved,
}

installed_vote :
    (repl : ReplicationState) (d : VoteDecision) (now : ℕ)
    → ((install_decision repl d now).term ≡ d.term)
      × ((install_decision repl d now).voted_for ≡ d.voted_for)
unfolding install_decision stood_down
installed_vote repl d now = ground arith

-- What the votes need of a decision.
abbrev IsAllowed : ReplicationState → VoteDecision → Bytes → List (ℕ × Bytes) → Type 0
IsAllowed repl d c cast =
    Moves repl.term repl.voted_for d.term d.voted_for
    × (d.granted ≡ true → (d.voted_for ≡ some c) × Agrees d.term c cast)

add_vote :
    (term : ℕ) (vote : Option Bytes) (l : Loaded) (granted : Bool) (c : Bytes)
    (cast : List (ℕ × Bytes))
    → OnePerTerm cast
    → AllHold term vote cast
    → AllBack l cast
    → ((b : Bytes) → vote ≡ some b → Backs l term b)
    → (granted ≡ true → (vote ≡ some c) × Agrees term c cast)
    → let cast' = answered cast (record { term = term; vote_granted = granted }) c in
      OnePerTerm cast' × AllHold term vote cast' × AllBack l cast'
add_vote term vote l false c cast one h b backed g = (one, h, b)
add_vote term vote l true c cast one h b backed g =
    let (e, a) = g refl in ((a, one), (inr (refl, e), h), (backed c e, b))

-- The sound states after a change in memory alone, after a save alone, and after a save and the
-- change that it allows.
remember_vote :
    (term : ℕ) (vote : Option Bytes) (d : VoteDecision) (l : Loaded) (c : Bytes)
    (cast : List (ℕ × Bytes))
    → OnePerTerm cast
    → AllHold term vote cast
    → AllBack l cast
    → Moves term vote d.term d.voted_for
    → (d.granted ≡ true → (d.voted_for ≡ some c) × Agrees d.term c cast)
    → ((b : Bytes) → d.voted_for ≡ some b → Backs l d.term b)
    → let cast' = answered cast (record { term = d.term; vote_granted = d.granted }) c in
      OnePerTerm cast' × AllHold d.term d.voted_for cast' × AllBack l cast'
remember_vote term vote d l c cast one h b m g backed =
    add_vote d.term d.voted_for l d.granted c cast one
      (AllHold-Moves term vote d.term d.voted_for cast m h) b backed g

after_install :
    (repl : ReplicationState) (disk : Disk) (d : VoteDecision) (now : ℕ) (c : Bytes)
    (cast : List (ℕ × Bytes))
    → OnePerTerm cast
    → AllHold repl.term repl.voted_for cast
    → AllBack (load disk) cast
    → IsAllowed repl d c cast
    → ((b : Bytes) → d.voted_for ≡ some b → Backs (load disk) d.term b)
    → IsSound
        (install_decision repl d now)
        disk
        (answered cast (record { term = d.term; vote_granted = d.granted }) c)
after_install repl disk d now c cast one h b (m, g) backed =
    let (t, v) = installed_vote repl d now in
    let (one', h', b') =
      remember_vote repl.term repl.voted_for d (load disk) c cast one h b m g backed in
    rw (t, v) (one', h', b', backed)

save-IsSound :
    (repl : ReplicationState) (disk : Disk) (cast : List (ℕ × Bytes)) (m : ReplicationMeta)
    (o : WriteOutcome)
    → IsSound repl disk cast
    → IsSound repl (save disk m o).0 cast
save-IsSound repl disk cast m o (one, h, b, backed) =
    (one, h, AllBack-save disk m o cast b, λ c e. Backs-save disk m o repl.term c (backed c e))

vote_saved-IsSound :
    (repl : ReplicationState) (d : VoteDecision) (c : Bytes) (cast : List (ℕ × Bytes)) (now : ℕ)
    (disk : Disk) (s : Saved)
    → IsSound repl disk cast
    → IsAllowed repl d c cast
    → (s ≡ saved → (b : Bytes) → d.voted_for ≡ some b → Backs (load disk) d.term b)
    → let r = vote_saved repl d now (disk, s) in IsSound r.0.repl r.0.disk (answered cast r.1 c)
unfolding vote_saved vote_recorded
vote_saved-IsSound repl d c cast now disk saved (one, h, b, backed) allowed durable =
    after_install repl disk d now c cast one h b allowed (durable refl)
vote_saved-IsSound repl d c cast now disk (save_error e) sound allowed durable = sound

vote_recorded-IsSound :
    (n : Node) (d : VoteDecision) (c : Bytes) (cast : List (ℕ × Bytes)) (now : ℕ)
    → IsSound n.repl n.disk cast
    → IsAllowed n.repl d c cast
    → d.term ≡ n.repl.term
    → d.voted_for ≡ n.repl.voted_for
    → let r = vote_recorded n.repl d now n.disk in IsSound r.0.repl r.0.disk (answered cast r.1 c)
unfolding vote_recorded
vote_recorded-IsSound n d c cast now (one, h, b, backed) allowed t v =
    after_install n.repl n.disk d now c cast one h b allowed (λ x y. rw t (backed x (sym v ∙ y)))

vote-IsSound :
    (n : Node) (d : VoteDecision) (c : Bytes) (cast : List (ℕ × Bytes)) (o : WriteOutcome) (now : ℕ)
    → IsSound n.repl n.disk cast
    → IsAllowed n.repl d c cast
    → let r = record_vote n d o now in IsSound r.0.repl r.0.disk (answered cast r.1 c)
unfolding record_vote vote_meta
vote-IsSound n d c cast o now sound allowed =
    elim (Bool-cases (d.term == n.repl.term && same_vote d.voted_for n.repl.voted_for)) [
      | inl e ↦ rw e (
          vote_recorded-IsSound n d c cast now sound allowed (ground arith)
            (same_vote→eq d.voted_for n.repl.voted_for (ground arith)))
      | inr e ↦
          let m = vote_meta n.repl d in
          rw e (
            vote_saved-IsSound n.repl d c cast now (save n.disk m o).0 (save n.disk m o).1
              (save-IsSound n.repl n.disk cast m o sound) allowed
              (λ s x y. Backs-saved n.disk m o x s y))
    ]

decision-IsAllowed :
    (repl : ReplicationState) (logs : Assoc LogTail) (tail : LogTail)
    (config : Option Configuration) (req : VoteRequest) (withhold : Bool) (cast : List (ℕ × Bytes))
    → AllHold repl.term repl.voted_for cast
    → IsAllowed repl (decision repl logs tail config req withhold) req.candidate_id cast
unfolding Moves
decision-IsAllowed repl logs tail config req withhold cast h =
    let (granted, forward, for, stays) =
      decide_vote_lem repl.term repl.voted_for logs tail config req withhold in
    (
      (forward.0, stays),
      λ g.
          let (t, v) = for g in
          (
            v,
            rw t (
                may_vote repl.term repl.voted_for req.term req.candidate_id cast h
                  (let all = granted.0 g in let le = all.0 in let free = all.1 in ground arith)),
          ),
    )

stand_saved-IsSound :
    (repl : ReplicationState) (c : Bytes) (cast : List (ℕ × Bytes)) (m : ReplicationMeta)
    (disk : Disk) (s : Saved)
    → repl.term < m.term
    → m.voted_for ≡ some c
    → IsSound repl disk cast
    → (s ≡ saved → (b : Bytes) → m.voted_for ≡ some b → Backs (load disk) m.term b)
    → let r = stand_saved repl m (disk, s) in IsSound r.0.repl r.0.disk (stood cast r.1 c)
unfolding stand_saved Moves
stand_saved-IsSound repl c cast m disk (save_error e) lt v sound durable = sound
stand_saved-IsSound repl c cast m disk saved lt v (one, h, b, backed) durable = (
  (may_vote repl.term repl.voted_for m.term c cast h (inl lt), one),
  (
    inr (refl, v),
    AllHold-Moves repl.term repl.voted_for m.term m.voted_for cast
        (ground arith, λ x e y. absurd (ground arith)) h,
  ),
  (durable refl c v, b),
  durable refl,
)

stand-IsSound :
    (n : Node) (c : Bytes) (cast : List (ℕ × Bytes)) (o : WriteOutcome)
    → n.repl.term + 1 < 2 ^ 64
    → IsSound n.repl n.disk cast
    → let r = stand n c o in IsSound r.0.repl r.0.disk (stood cast r.1 c)
unfolding stand
stand-IsSound n c cast o lt sound =
    let m : ReplicationMeta = record {
      term = (n.repl.term + 1) % 2 ^ 64;
      is_leader = false;
      voted_for = some c;
    } in
    stand_saved-IsSound n.repl c cast m (save n.disk m o).0 (save n.disk m o).1 (omega arith) refl
      (save-IsSound n.repl n.disk cast m o sound) (λ s x y. Backs-saved n.disk m o x s y)

AllBack-loaded :
    (m : ReplicationMeta) (cast : List (ℕ × Bytes))
    → AllBack (loaded (some m)) cast
    → AllHold m.term m.voted_for cast
AllBack-loaded m [] h = tt
AllBack-loaded m ((t, c) ∷ cast) h = (h.0, AllBack-loaded m cast h.1)

boot-IsSound :
    (l : Loaded) (cast : List (ℕ × Bytes)) (config : BootConfig) (now : ℕ) (r : ReplicationState)
    → boot l config now ≡ some r
    → AllBack l cast
    → AllHold r.term r.voted_for cast × ((c : Bytes) → r.voted_for ≡ some c → Backs l r.term c)
unfolding boot restored
boot-IsSound (load_error e) cast config now r h b = absurd (ground arith)
boot-IsSound (loaded none) [] config now r h b = (tt, λ c e. absurd (ground arith))
boot-IsSound (loaded none) ((t, c) ∷ cast) config now r h b = absurd b.0
boot-IsSound (loaded (some m)) cast config now r h b =
    let t : r.term ≡ m.term = ground arith in
    let v : r.voted_for ≡ m.voted_for = ground arith in
    rw (t, v) (AllBack-loaded m cast b, λ c e. inr (refl, e))

-- A change in memory that keeps the term and the vote, or takes a higher term with no vote.
moved-IsSound :
    (repl repl' : ReplicationState) (disk : Disk) (cast : List (ℕ × Bytes))
    → ((repl'.term ≡ repl.term) × (repl'.voted_for ≡ repl.voted_for))
      ⊎ ((repl.term < repl'.term) × (repl'.voted_for ≡ none))
    → IsSound repl disk cast
    → IsSound repl' disk cast
unfolding Moves
moved-IsSound repl repl' disk cast (inl (t, v)) (one, h, b, backed) = rw (t, v) (one, h, b, backed)
moved-IsSound repl repl' disk cast (inr (t, v)) (one, h, b, backed) = (
  one,
  AllHold-Moves repl.term repl.voted_for repl'.term repl'.voted_for cast
      (ground arith, λ x e y. absurd (ground arith)) h,
  b,
  λ c e. absurd (ground arith),
)

abbrev Sound : Voter → Type 0
Sound v = IsSound v.node.repl v.node.disk v.cast

Step-Sound : (v w : Voter) → Step v w → Sound v → Sound w
unfolding assume_leadership adopt_term apply_demotion relinquish_leadership
Step-Sound v w (votes _ logs tail config req withhold o now) sound =
    vote-IsSound v.node (decision v.node.repl logs tail config req withhold) req.candidate_id v.cast
      o now sound (decision-IsAllowed v.node.repl logs tail config req withhold v.cast sound.1)
Step-Sound v w (stands _ c o lt) sound = stand-IsSound v.node c v.cast o lt sound
Step-Sound v w (leads _ t c peers r e) sound =
    moved-IsSound v.node.repl r v.node.disk v.cast (inl (ground arith)) sound
Step-Sound v w (adopts _ t) sound =
    moved-IsSound v.node.repl (adopt_term v.node.repl t).0 v.node.disk v.cast (ground arith) sound
Step-Sound v w (is_deposed _ t now) sound =
    moved-IsSound v.node.repl (apply_demotion v.node.repl t now).0 v.node.disk v.cast (ground arith)
      sound
Step-Sound v w (resigns _) sound =
    moved-IsSound v.node.repl (relinquish_leadership v.node.repl).0 v.node.disk v.cast
      (inl (ground arith)) sound
Step-Sound v w (saves _ m o) sound = save-IsSound v.node.repl v.node.disk v.cast m o sound
Step-Sound v w (restarts _ config now r e) (one, h, b, backed) =
    let (h', backed') = boot-IsSound (load v.node.disk) v.cast config now r e b in
    (one, h', b, backed')

Reach-Sound : (v w : Voter) → Reach v w → Sound v → Sound w
Reach-Sound v w here sound = sound
Reach-Sound v w (then_step u x r s) sound = Step-Sound u x s (Reach-Sound v u r sound)

-- One vote per term. A node that boots on any directory it can read, and then votes, stands,
-- leads, adopts terms, is deposed, resigns, saves any record late, with any write failing at any
-- point, and restarts, in any order and any number of times, never gives votes of one term to two
-- candidates, as long as it stands in no term of 2^64 or above.
pub one_vote_per_term :
    (disk : Disk) (config : BootConfig) (now : ℕ) (repl : ReplicationState) (v : Voter)
    → boot (load disk) config now ≡ some repl
    → Reach (record { node = record { repl = repl; disk = disk }; cast = [] }) v
    → OnePerTerm v.cast
one_vote_per_term disk config now repl v e r =
    let (h, backed) = boot-IsSound (load disk) [] config now repl e tt in
    (Reach-Sound (record { node = record { repl = repl; disk = disk }; cast = [] }) v r
      (tt, h, tt, backed)).0
