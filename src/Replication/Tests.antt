-- ===== src/Replication/Tests.antt =====
-- Runs of the theorems on src/replication/write_concern.rs.
use dewdb.Replication.Budget.{skip, admission, admits, settle, after_request}
use dewdb.Replication.Budget.Probing.{
  Traffic, quiet, admitted, asks, other_settles, start, after, peer_is_probed_again,
}
use dewdb.Prelude.{
  arith, true, false, ◌≢◌, ◌≤◌, ◌≡◌, refl, [], ◌∷◌, codes, none, some, List, Bytes, length,
}
use dewdb.Util.Endpoint.{
  after_scheme, ends_authority, cut_authority, endpoint_of, lower, eq_ignore_ascii_case,
  same_endpoint,
}
use dewdb.Consensus.Config.{
  Configuration, majority, distinct_after, distinct, voter_count, half_has_quorum, has_quorum,
}
use dewdb.Consensus.Config.Quorum.{Shared}
use dewdb.Replication.WriteConcern.{majority_of, write_quorum, met, required}
use dewdb.Replication.WriteConcern.Enough.{met_holds_required}

abbrev changing : Configuration
changing = record {
  voters = codes "http://b" ∷ codes "http://c" ∷ [];
  outgoing = some (codes "http://a" ∷ codes "http://b" ∷ []);
}

abbrev three : Configuration
three = record {
  voters = codes "http://a" ∷ codes "http://b" ∷ codes "http://c" ∷ [];
  outgoing = none;
}

-- Three nodes hold the write, one of them under two spellings, and the next election is won by two.
abbrev holders : List Bytes
holders = codes "http://a" ∷ codes "http://b" ∷ codes "http://B/" ∷ codes "http://c" ∷ []

met_holds_required_example :
    (1 ≤ required (write_quorum majority_of changing))
    × (required (write_quorum majority_of changing) ≤ length (distinct holders))
    × Shared changing.voters holders (codes "http://a" ∷ codes "http://b" ∷ codes "http://c" ∷ [])
unfolding met write_quorum has_quorum half_has_quorum voter_count distinct distinct_after majority
    same_endpoint endpoint_of after_scheme ends_authority cut_authority lower eq_ignore_ascii_case
met_holds_required_example =
    met_holds_required changing holders
      (codes "http://a" ∷ codes "http://b" ∷ codes "http://c" ∷ []) (refl, refl) refl refl

-- A request that failed at 100, and nothing sent since.
abbrev asked_once : Traffic
asked_once = admitted quiet (admission quiet.health 50)

abbrev failed : Traffic
failed = record {
  health = settle asked_once.health false false 100;
  probes = 0;
  others = 0;
  last = 100;
}

peer_is_probed_again_example :
    (admits failed.health 3_000_000_000 ≡ true) × ((admission failed.health 3_000_000_000).1 ≢ skip)
unfolding admission settle after_request
peer_is_probed_again_example =
    peer_is_probed_again failed 3_000_000_000
      (after asked_once failed (after quiet asked_once start (asks quiet 50))
        (other_settles asked_once false 100 (omega arith)))
      refl (omega arith)
