-- ===== src/Cluster/Tests.antt =====
-- Runs of the theorems on src/cluster/metadata.rs.
use dewdb.Prelude.{◌≡◌, ◌⊎◌, true, false, not, ◌||◌, [], codes, none, ℕ}
use dewdb.Cluster.Metadata.{ClusterMetadata, adopt, supersedes, view_id}
use dewdb.Cluster.Metadata.Converge.{adoption_converges}

abbrev seed : ClusterMetadata
seed = record {
  version = 1;
  updated_by = codes "n1";
  seeded = true;
  members = [];
  shards = [];
  ring = none;
  migration = none;
  index_catalog = [];
}

abbrev decided_by : ClusterMetadata → ℕ → ClusterMetadata
decided_by m version = record m { version = version; seeded = false }

abbrev second : ClusterMetadata
second = decided_by seed 2

abbrev third : ClusterMetadata
third = record (decided_by seed 2) { updated_by = codes "n2" }

adoption_converges_example :
    (view_id (adopt (adopt seed second).0 third).0 ≡ view_id (adopt (adopt seed third).0 second).0)
    × (supersedes second second ≡ false)
    × ((view_id second ≡ view_id third)
        ⊎ ((second.seeded || third.seeded) ≡ true)
        ⊎ (supersedes second third ≡ not (supersedes third second)))
adoption_converges_example = adoption_converges seed second third
