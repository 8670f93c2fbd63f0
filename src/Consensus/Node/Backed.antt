-- ===== src/Consensus/Node/Backed.antt =====
-- Both sides of a lease, `grant_novote` and `note_lease_grant` of src/state.rs.
use dewdb.Prelude.{ℕ, ◌<◌, ◌≡◌, true, false, Bytes}
use dewdb.Consensus.Config.{Configuration, contains}
use dewdb.Consensus.State.{ReplicationState}

-- The leader takes the grant: a member's, of the term it leads, while it keeps its office.
abbrev pub TakesGrant : ReplicationState → Configuration → Bytes → ℕ → ℕ → Type 0
TakesGrant g config voter term granted =
    (0 < granted)
    × (contains config voter ≡ true)
    × (g.is_leader ≡ true)
    × (g.term ≡ term)
    × (g.handing_over ≡ false)
