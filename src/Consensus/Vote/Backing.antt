-- ===== src/Consensus/Vote/Backing.antt =====
-- Which votes a record of the term and the vote rules out, and what the saves of
-- src/consensus/state.rs keep of that.
use dewdb.Prelude.{ℕ, ◌≤◌, ◌<◌, ◌≡◌, refl, List, [], ◌∷◌, Bytes, arith, Option, none, some, ◌⊎◌}
use dewdb.Consensus.State.{
  ReplicationMeta, ReplicationState, Disk, WriteOutcome, save, load, Loaded, loaded, load_error,
  saved,
}
use dewdb.Consensus.State.Kept.{KeepsRecord, save-KeepsRecord, save_is_loaded, save_of_error}
use dewdb.Consensus.Vote.Steps.{Agrees, OnePerTerm}

-- A record of this term and vote rules out another vote in term `t` than the one for `c`.
abbrev pub Holds : ℕ → Option Bytes → ℕ → Bytes → Type 0
Holds term vote t c = (t < term) ⊎ ((t ≡ term) × (vote ≡ some c))

abbrev pub Backs : Loaded → ℕ → Bytes → Type 0
Backs (load_error e) t c = Unit
Backs (loaded none) t c = ⊥
Backs (loaded (some m)) t c = Holds m.term m.voted_for t c

abbrev pub AllHold : ℕ → Option Bytes → List (ℕ × Bytes) → Type 0
AllHold term vote [] = Unit
AllHold term vote ((t, c) ∷ cast) = Holds term vote t c × AllHold term vote cast

abbrev pub AllBack : Loaded → List (ℕ × Bytes) → Type 0
AllBack l [] = Unit
AllBack l ((t, c) ∷ cast) = Backs l t c × AllBack l cast

-- What the votes, the memory and the directory have in common in every reachable state.
abbrev pub IsSound : ReplicationState → Disk → List (ℕ × Bytes) → Type 0
IsSound repl disk cast =
    OnePerTerm cast
    × AllHold repl.term repl.voted_for cast
    × AllBack (load disk) cast
    × ((c : Bytes) → repl.voted_for ≡ some c → Backs (load disk) repl.term c)

unfoldable pub Moves : ℕ → Option Bytes → ℕ → Option Bytes → Type 0
Moves term vote term' vote' =
    (term ≤ term') × ((c : Bytes) → term' ≡ term → vote ≡ some c → vote' ≡ some c)

pub AllHold-Moves :
    (term : ℕ) (vote : Option Bytes) (term' : ℕ) (vote' : Option Bytes) (cast : List (ℕ × Bytes))
    → Moves term vote term' vote'
    → AllHold term vote cast
    → AllHold term' vote' cast
unfolding Moves
AllHold-Moves term vote term' vote' [] m h = tt
AllHold-Moves term vote term' vote' ((t, c) ∷ cast) m h =
    (ground (arith, m.1 c), AllHold-Moves term vote term' vote' cast m h.1)

-- A vote that the memory allows agrees with every vote given before.
pub may_vote :
    (term : ℕ) (vote : Option Bytes) (t : ℕ) (c : Bytes) (cast : List (ℕ × Bytes))
    → AllHold term vote cast
    → (term < t) ⊎ ((term ≡ t) × ((vote ≡ none) ⊎ (vote ≡ some c)))
    → Agrees t c cast
may_vote term vote t c [] h free = tt
may_vote term vote t c ((u, b) ∷ cast) h free =
    (λ e. ground (arith), may_vote term vote t c cast h.1 free)

pub Backs-Follows :
    (m : ReplicationMeta) (l : Loaded) (t : ℕ) (c : Bytes)
    → KeepsRecord m l
    → Holds m.term m.voted_for t c
    → Backs l t c
Backs-Follows m (load_error e) t c k h = tt
Backs-Follows m (loaded none) t c k h = k
Backs-Follows m (loaded (some new)) t c k h = ground arith

pub Backs-save :
    (d : Disk) (m : ReplicationMeta) (o : WriteOutcome) (t : ℕ) (c : Bytes)
    → Backs (load d) t c
    → Backs (load (save d m o).0) t c
Backs-save d m o t c b = go (load d) refl b
  where
    go : (l : Loaded) → load d ≡ l → Backs l t c → Backs (load (save d m o).0) t c
    go (load_error e) l b = rw (save_of_error d m o e l, l) tt
    go (loaded none) l b = absurd b
    go (loaded (some old)) l b =
        Backs-Follows old (load (save d m o).0) t c (save-KeepsRecord d m old o l) b

pub AllBack-save :
    (d : Disk) (m : ReplicationMeta) (o : WriteOutcome) (cast : List (ℕ × Bytes))
    → AllBack (load d) cast
    → AllBack (load (save d m o).0) cast
AllBack-save d m o [] b = tt
AllBack-save d m o ((t, c) ∷ cast) b = (Backs-save d m o t c b.0, AllBack-save d m o cast b.1)

pub Backs-saved :
    (d : Disk) (m : ReplicationMeta) (o : WriteOutcome) (c : Bytes)
    → (save d m o).1 ≡ saved
    → m.voted_for ≡ some c
    → Backs (load (save d m o).0) m.term c
Backs-saved d m o c s v = let (new, l, f) = save_is_loaded d m o s in rw l (ground arith)
