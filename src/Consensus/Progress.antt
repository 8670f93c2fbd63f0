-- ===== src/Consensus/Progress.antt =====
-- src/consensus/progress.rs: what each replica holds, and the watermark that a quorum committed.
-- An `Instant` is a number of nanoseconds, handed in where the source asks the clock.
pub mod Commit
pub mod Cursor
use dewdb.Prelude.{
  ℕ, ◌+◌, ◌-◌, Bool, true, false, not, ◌&&◌, List, [], ◌∷◌, ◌++◌, map, Bytes, leb, ltb,
  if◌then◌else◌, Option, none, some, unwrap_or, min, max,
}
use dewdb.Prelude.Assoc.{Assoc, lookup, insert, lookup_two, insert_two, raise_two, or_insert}
use dewdb.Util.Endpoint.{same_endpoint}
use dewdb.Consensus.Config.{Configuration, has_quorum, quorum_lsn, outgoing_list}

pub record Progress : Type 0 where
  pub matched : Assoc (Assoc ℕ)
  pub committed : Assoc ℕ
  pub sent_through : Assoc (Assoc ℕ)
  pub term_floor : Assoc ℕ
  pub contacted : Assoc ℕ

-- `Progress::new`
abbrev pub empty : Progress
empty = record { matched = []; committed = []; sent_through = []; term_floor = []; contacted = [] }

unfoldable pub reset : Progress → Progress
reset p = record p {
  matched = [];
  committed = [];
  sent_through = [];
  term_floor = [];
  contacted = [];
}

unfoldable pub sent_through : Progress → Bytes → Bytes → Option ℕ
sent_through p replica collection = lookup_two replica collection p.sent_through

unfoldable pub note_sent : Progress → Bytes → Bytes → ℕ → Progress
note_sent p replica collection lsn = record p {
  sent_through = raise_two replica collection lsn p.sent_through;
}

unfoldable pub rewind_to : Progress → Bytes → Bytes → ℕ → Progress
rewind_to p replica collection lsn = record p {
  sent_through = insert_two replica collection lsn p.sent_through;
}

-- `hinted.unwrap_or(*tail).min(*tail)` for each collection of `own_tails`.
unfoldable pub seed_cursors : Option (Assoc ℕ) → Assoc ℕ → Assoc ℕ → Assoc ℕ
seed_cursors hints [] per = per
seed_cursors hints ((collection, tail) ∷ tails) per =
    let hinted : Option ℕ = elim hints [ none ↦ none | some m ↦ lookup collection m ] in
    seed_cursors hints tails (insert collection (min (unwrap_or hinted tail) tail) per)

-- The body of the loop over the replicas of `reinit_as_leader`, and the loop.
unfoldable pub seed_replica : Assoc ℕ → Assoc (Assoc ℕ) → ℕ → Bytes → Progress → Progress
seed_replica own_tails hints now replica p = record p {
  contacted = insert replica now p.contacted;
  sent_through =
      insert replica
        (seed_cursors (lookup replica hints) own_tails
          (unwrap_or (lookup replica p.sent_through) []))
        p.sent_through;
}

unfoldable pub seed_replicas : List Bytes → Assoc ℕ → Assoc (Assoc ℕ) → ℕ → Progress → Progress
seed_replicas [] own_tails hints now p = p
seed_replicas (replica ∷ replicas) own_tails hints now p =
    seed_replicas replicas own_tails hints now (seed_replica own_tails hints now replica p)

unfoldable pub reinit_as_leader :
    Progress → List Bytes → Assoc ℕ → Assoc ℕ → Assoc (Assoc ℕ) → ℕ → Progress
reinit_as_leader p replicas own_tails applied hints now =
    seed_replicas replicas own_tails hints now (record p {
      matched = [];
      sent_through = [];
      term_floor = [];
      contacted = [];
      committed = applied;
    })

unfoldable pub track_collections : List Bytes → Assoc ℕ → Assoc ℕ
track_collections [] per = per
track_collections (collection ∷ rest) per = track_collections rest (or_insert collection 0 per)

unfoldable pub begin_tracking : Progress → Bytes → List Bytes → ℕ → Progress
begin_tracking p replica collections now = record p {
  contacted = or_insert replica now p.contacted;
  sent_through =
      insert replica (track_collections collections (unwrap_or (lookup replica p.sent_through) []))
        p.sent_through;
}

unfoldable pub note_leader_append : Progress → Bytes → ℕ → Progress
note_leader_append p collection lsn = record p {
  term_floor = or_insert collection lsn p.term_floor;
}

unfoldable pub observe_ack : Progress → Bytes → Bytes → ℕ → Progress
observe_ack p replica collection lsn = record p {
  matched = raise_two replica collection lsn p.matched;
}

unfoldable pub matched : Progress → Bytes → Bytes → ℕ
matched p replica collection = unwrap_or (lookup_two replica collection p.matched) 0

unfoldable pub term_floor : Progress → Bytes → Option ℕ
term_floor p collection = lookup collection p.term_floor

unfoldable pub note_contact : Progress → Bytes → ℕ → Progress
note_contact p replica now =
    let slot = unwrap_or (lookup replica p.contacted) now in
    record p { contacted = insert replica (if ltb slot now then now else slot) p.contacted }

-- The first loop of `contact_quorum`: a member first seen here is stamped now.
unfoldable pub stamp_members : List Bytes → Bytes → ℕ → Assoc ℕ → Assoc ℕ
stamp_members [] own_url now contacted = contacted
stamp_members (member ∷ rest) own_url now contacted =
    stamp_members rest own_url now
      (if not (same_endpoint member own_url) then or_insert member now contacted else contacted)

-- The second loop: who answered inside `within` (`saturating_duration_since`).
unfoldable pub reached_within : Assoc ℕ → Bytes → ℕ → ℕ → List Bytes
reached_within [] own_url now within = []
reached_within ((replica, at) ∷ rest) own_url now within =
    if ltb (now - at) within && not (same_endpoint replica own_url)
    then replica ∷ reached_within rest own_url now within
    else reached_within rest own_url now within

unfoldable pub contact_quorum : Progress → Configuration → Bytes → ℕ → ℕ → Progress × Bool
contact_quorum p config own_url now within =
    let contacted = stamp_members (config.voters ++ outgoing_list config) own_url now p.contacted in
    (
      record p { contacted = contacted },
      has_quorum config (own_url ∷ reached_within contacted own_url now within),
    )

unfoldable pub committed : Progress → Bytes → ℕ
committed p collection = unwrap_or (lookup collection p.committed) 0

-- `self.committed.values().copied().max().unwrap_or(0)`
unfoldable pub max_value : Assoc ℕ → ℕ
max_value [] = 0
max_value ((k, v) ∷ rest) = max v (max_value rest)

unfoldable pub max_committed : Progress → ℕ
unfolding max_value
max_committed p = max_value p.committed

-- What `advance` hands to `quorum_lsn`: this node's own durable position, and the acks.
abbrev pub held_by : Progress → Bytes → Bytes → ℕ → Bytes → ℕ
held_by p collection own_url leader_durable member =
    if same_endpoint member own_url then leader_durable else matched p member collection

-- `floor.is_some_and(|f| quorum >= f)`
abbrev pub reaches_floor : Option ℕ → ℕ → Bool
reaches_floor none quorum = false
reaches_floor (some f) quorum = leb f quorum

unfoldable pub advance : Progress → Bytes → Bytes → ℕ → Configuration → Progress × ℕ
advance p collection own_url leader_durable config =
    let quorum = quorum_lsn config (held_by p collection own_url leader_durable) in
    let slot = unwrap_or (lookup collection p.committed) 0 in
    let next =
      if reaches_floor (lookup collection p.term_floor) quorum && ltb slot quorum
      then quorum
      else slot in
    (record p { committed = insert collection next p.committed }, next)
