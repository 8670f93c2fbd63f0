-- ===== src/Consensus/State/Kept.antt =====
-- What `ReplicationMeta::save` and `load` of src/consensus/state.rs keep, however a write ends.
use dewdb.Prelude.{
  ◌≤◌, ◌<◌, ◌≡◌, refl, Bool, true, false, Bytes, arith, Option, none, some, is_some, bytes_eq_iff,
  ltb, ◌==◌, not, ◌&&◌, ◌⊎◌, inl, inr, bytes_eq_refl, Bool-cases,
}
use dewdb.Consensus.State.{
  ReplicationMeta, StoredFile, absent, unreadable, damaged, holds, Disk, IoError, Loaded, loaded,
  load_error, load, WriteOutcome, not_created, torn, not_renamed, renamed, saved, save_error,
  write_atomic, same_vote, save, save_over,
}

pub same_vote→eq : (a b : Option Bytes) → same_vote a b ≡ true → a ≡ b
unfolding same_vote
same_vote→eq none none h = refl
same_vote→eq none (some b) h = cc
same_vote→eq (some a) none h = cc
same_vote→eq (some a) (some b) h = ground (arith, bytes_eq_iff a b)

pub same_vote_refl : (a : Option Bytes) → same_vote a a ≡ true
unfolding same_vote
same_vote_refl none = refl
same_vote_refl (some a) = bytes_eq_refl a

-- `new` may stand where `old` stood: its term is no lower, and in the same term a vote that was
-- cast is the same vote.
abbrev pub Follows : ReplicationMeta → ReplicationMeta → Type 0
Follows old new =
    (old.term ≤ new.term)
    × (old.term ≡ new.term → is_some old.voted_for ≡ true → new.voted_for ≡ old.voted_for)

-- What a load finds now is nothing older than `old`: such a record, or damage that is reported.
abbrev pub KeepsRecord : ReplicationMeta → Loaded → Type 0
KeepsRecord old (loaded none) = ⊥
KeepsRecord old (loaded (some new)) = Follows old new
KeepsRecord old (load_error e) = Unit

Follows-refl : (old : ReplicationMeta) → Follows old old
Follows-refl old = (omega arith, λ e v. refl)

-- The files as they are keep the record that a load finds.
keeps_unchanged :
    (d : Disk) (old : ReplicationMeta) → load d ≡ loaded (some old) → KeepsRecord old (load d)
keeps_unchanged d old h = rw h (Follows-refl old)

keeps_written :
    (meta staging : StoredFile) (m old : ReplicationMeta) (o : WriteOutcome)
    → load (record { meta = meta; staging = staging }) ≡ loaded (some old)
    → Follows old m
    → KeepsRecord old (load (write_atomic (record { meta = meta; staging = staging }) m o).0)
unfolding load write_atomic
keeps_written absent s m old not_created h f = rw h (Follows-refl old)
keeps_written absent s m old torn h f = tt
keeps_written absent s m old not_renamed h f = f
keeps_written absent s m old renamed h f = f
keeps_written damaged s m old not_created h f = rw h (Follows-refl old)
keeps_written damaged s m old torn h f = tt
keeps_written damaged s m old not_renamed h f = f
keeps_written damaged s m old renamed h f = f
keeps_written unreadable s m old o h f = absurd (ground arith)
keeps_written (holds x) s m old not_created h f = ground arith
keeps_written (holds x) s m old torn h f = ground arith
keeps_written (holds x) s m old not_renamed h f = ground arith
keeps_written (holds x) s m old renamed h f = f

abbrev changes_vote : ReplicationMeta → ReplicationMeta → Bool
changes_vote m old =
    m.term == old.term && is_some old.voted_for && not (same_vote m.voted_for old.voted_for)

allowed :
    (m old : ReplicationMeta)
    → ltb m.term old.term ≡ false
    → changes_vote m old ≡ false
    → Follows old m
allowed m old h c = (ground arith, λ e v. same_vote→eq m.voted_for old.voted_for (ground arith))

save_over-KeepsRecord :
    (d : Disk) (m old : ReplicationMeta) (o : WriteOutcome)
    → load d ≡ loaded (some old)
    → KeepsRecord old (load (save_over d m o old).0)
unfolding save_over
save_over-KeepsRecord d m old o h = elim (Bool-cases (ltb m.term old.term)) [
  | inl e ↦ rw e (keeps_unchanged d old h)
  | inr e ↦ elim (Bool-cases (changes_vote m old)) [
    | inl c ↦ rw (e, c) (keeps_unchanged d old h)
    | inr c ↦ rw (e, c) (keeps_written d.meta d.staging m old o h (allowed m old e c))
  ]
]

save_of_load :
    (d : Disk) (m old : ReplicationMeta) (o : WriteOutcome)
    → load d ≡ loaded (some old)
    → save d m o ≡ save_over d m o old
unfolding save
save_of_load d m old o h = rw (h, save)

save_of_none :
    (d : Disk) (m : ReplicationMeta) (o : WriteOutcome)
    → load d ≡ loaded none
    → save d m o ≡ write_atomic d m o
unfolding save
save_of_none d m o h = rw (h, save)

pub save_of_error :
    (d : Disk) (m : ReplicationMeta) (o : WriteOutcome) (e : IoError)
    → load d ≡ load_error e
    → save d m o ≡ (d, save_error e)
unfolding save
save_of_error d m o e h = rw (h, save)

written_is_loaded :
    (d : Disk) (m : ReplicationMeta) (o : WriteOutcome)
    → (write_atomic d m o).1 ≡ saved
    → load (write_atomic d m o).0 ≡ loaded (some m)
unfolding write_atomic load
written_is_loaded d m not_created h = absurd (ground arith)
written_is_loaded d m torn h = absurd (ground arith)
written_is_loaded d m not_renamed h = absurd (ground arith)
written_is_loaded d m renamed h = refl

-- The record that stands for `m`: of a higher term, or of the same term with the same vote.
abbrev StandsFor : Disk → ReplicationMeta → Type 0
StandsFor d m =
    (new : ReplicationMeta) × (load d ≡ loaded (some new))
    × ((m.term < new.term) ⊎ ((m.term ≡ new.term) × (m.voted_for ≡ new.voted_for)))

save_over_is_loaded :
    (d : Disk) (m old : ReplicationMeta) (o : WriteOutcome)
    → load d ≡ loaded (some old)
    → (save_over d m o old).1 ≡ saved
    → StandsFor (save_over d m o old).0 m
unfolding save_over
save_over_is_loaded d m old o l h = elim (Bool-cases (ltb m.term old.term)) [
  | inl e ↦ rw e (old, l, inl (ground arith))
  | inr e ↦ elim (Bool-cases (changes_vote m old)) [
    | inl c ↦ absurd (ground arith)
    | inr c ↦ rw (e, c) (m, written_is_loaded d m o (ground arith), inr (refl, refl))
  ]
]

-- A record that the disk reads as survives every later save, whatever is saved and however the
-- write ends: a load then gives a record of no lower term with the same vote in the same term, or
-- an error, and never "no record".
pub save-KeepsRecord :
    (d : Disk) (m old : ReplicationMeta) (o : WriteOutcome)
    → load d ≡ loaded (some old)
    → KeepsRecord old (load (save d m o).0)
save-KeepsRecord d m old o h = rw (save_of_load d m old o h) (save_over-KeepsRecord d m old o h)

-- After a save that reports success a load reads a record of the saved term with the saved vote, or
-- one of a higher term.
pub save_is_loaded :
    (d : Disk) (m : ReplicationMeta) (o : WriteOutcome)
    → (save d m o).1 ≡ saved
    → (new : ReplicationMeta) × (load (save d m o).0 ≡ loaded (some new))
      × ((m.term < new.term) ⊎ ((m.term ≡ new.term) × (m.voted_for ≡ new.voted_for)))
save_is_loaded d m o h = go (load d) refl
  where
    go : (l : Loaded) → load d ≡ l → StandsFor (save d m o).0 m
    go (load_error e) l = absurd (ground (arith, save_of_error d m o e l))
    go (loaded none) l =
        let s = save_of_none d m o l in
        rw s (m, written_is_loaded d m o (rw s at h), inr (refl, refl))
    go (loaded (some old)) l =
        let s = save_of_load d m old o l in rw s (save_over_is_loaded d m old o l (rw s at h))
