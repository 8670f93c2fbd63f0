-- ===== src/Cluster/Plan.antt =====
-- src/cluster/metadata.rs: the next view for a change of membership, of the ring or of the indexes
-- of a collection.
use dewdb.Prelude.{
  ◌+◌, ◌%◌, ◌^◌, Bool, true, false, not, ◌&&◌, ◌||◌, List, [], ◌∷◌, ◌++◌, map, Bytes, bytes_eq,
  codes, if◌then◌else◌, any, keep, is_some, unwrap_or, Option, none, some,
}
use dewdb.Util.Endpoint.{same_endpoint}
use dewdb.Ring.Members.{HashRing, is_blank}
use dewdb.Cluster.Metadata.{
  Member, Migration, ClusterMetadata, ViewError, view_valid, view_invalid, validate_view,
}

unfoldable pub member_in : Bytes → List Member → Option Member
member_in url [] = none
member_in url (m ∷ members) = if same_endpoint m.url url then some m else member_in url members

unfoldable pub is_shard : Member → Bool
is_shard m = bytes_eq m.role (codes "shard")

unfoldable pub learners_following : Bytes → List Member → List Bytes
unfolding is_shard
learners_following primary members =
    map (λ (m : Member). m.url)
      (keep
        (λ (m : Member).
          not m.voting
          && is_shard m
          && (elim m.follows [ none ↦ false | some f ↦ same_endpoint f primary ]))
        members)

unfoldable pub voting_shards : List Member → List Bytes
unfolding is_shard
voting_shards members =
    map (λ (m : Member). m.url) (keep (λ (m : Member). m.voting && is_shard m) members)

unfoldable pub is_learner : Bytes → List Member → Bool
unfolding is_shard member_in
is_learner url members = elim (member_in url members) [
  | none ↦ false
  | some m ↦ not m.voting && is_shard m
]

-- The version is a 64-bit word.
unfoldable pub bump : Bytes → ClusterMetadata → ClusterMetadata
bump by m = record m { version = (m.version + 1) % 2 ^ 64; updated_by = by; seeded = false }

unfoldable pub without : Bytes → List Member → List Member
without url members = keep (λ (m : Member). not (same_endpoint m.url url)) members

unfoldable pub with_member : Bytes → Member → ClusterMetadata → ClusterMetadata
unfolding bump without
with_member by member m =
    bump by (record m { members = without member.url m.members ++ member ∷ [] })

unfoldable pub without_member : Bytes → Bytes → ClusterMetadata → ClusterMetadata
unfolding bump without
without_member by url m = bump by (record m { members = without url m.members })

unfoldable pub with_ring : Bytes → HashRing → ClusterMetadata → ClusterMetadata
unfolding bump
with_ring by ring m = bump by (record m { ring = some ring; migration = none })

unfoldable pub with_migration : Bytes → Option Migration → ClusterMetadata → ClusterMetadata
unfolding bump
with_migration by migration m = bump by (record m { migration = migration })

pub record JoinRequest : Type 0 where
  pub url : Bytes
  pub node_id : Option Bytes
  pub role : Option Bytes
  pub shard_role : Option Bytes
  pub follows : Option Bytes
  pub voting : Option Bool

pub data PlanError : Type 0 where
  url_required joins_voting follows_without_replica adds_itself follows_itself : PlanError
  role_unknown already_voting not_a_member still_voting : Bytes → PlanError
  view_refused : ViewError → PlanError

pub data Planned : Type 0 where
  planned : ClusterMetadata → Planned
  plan_refused : PlanError → Planned

-- `next.validate().map(|_| next)`
unfoldable pub checked_plan : ClusterMetadata → Planned
checked_plan next = elim (validate_view next) [
  | view_valid ↦ planned next
  | view_invalid e ↦ plan_refused (view_refused e)
]

-- `as_deref() == Some("replica")`
unfoldable pub is_replica : Option Bytes → Bool
is_replica none = false
is_replica (some role) = bytes_eq role (codes "replica")

-- `as_deref().map_or(false, |f| same_url(url, f))`
unfoldable pub follows_url : Bytes → Option Bytes → Bool
follows_url url none = false
follows_url url (some f) = same_endpoint url f

-- A member of the view that votes.
unfoldable pub votes_in : Bytes → List Member → Bool
unfolding member_in
votes_in url members = elim (member_in url members) [ none ↦ false | some m ↦ m.voting ]

unfoldable pub plan_join : ClusterMetadata → Bytes → Bytes → JoinRequest → Planned
unfolding is_replica follows_url votes_in with_member checked_plan
plan_join current by leader_url req =
    let role = unwrap_or req.role (codes "shard") in
    let shard = bytes_eq role (codes "shard") in
    let shard_role : Option Bytes =
      if is_some req.shard_role
      then req.shard_role
      else if shard
      then some (codes "replica")
      else none in
    let member : Member = record {
      url = req.url;
      node_id = req.node_id;
      role = role;
      shard_role = shard_role;
      voting = false;
      follows = if is_replica shard_role then some (unwrap_or req.follows leader_url) else none;
    } in
    if is_blank req.url
    then plan_refused url_required
    else if unwrap_or req.voting false
    then plan_refused joins_voting
    else if not shard && not (bytes_eq role (codes "router"))
    then plan_refused (role_unknown role)
    else if not (is_replica shard_role) && is_some req.follows
    then plan_refused follows_without_replica
    else if same_endpoint req.url leader_url
    then plan_refused adds_itself
    else if follows_url req.url req.follows
    then plan_refused follows_itself
    else if votes_in req.url current.members
    then plan_refused (already_voting req.url)
    else checked_plan (with_member by member current)

-- The loop of `plan_configuration` over the members, and that over the voters.
unfoldable pub set_voting : Bytes → List Bytes → Member → Member
unfolding is_shard
set_voting leader_url voters m =
    let voting = any (λ v. same_endpoint v m.url) voters in
    if not (is_shard m) || (if voting then m.voting else not m.voting) then m else record m {
      voting = voting;
      follows =
          if not voting && not (same_endpoint m.url leader_url) then some leader_url else none;
    }

unfoldable pub add_voter_members : Bytes → List Bytes → List Member → List Member
unfolding member_in
add_voter_members leader_url [] members = members
add_voter_members leader_url (voter ∷ voters) members = add_voter_members leader_url voters (
    if is_some (member_in voter members)
    then members
    else members
      ++ (record {
        url = voter;
        node_id = none;
        role = codes "shard";
        shard_role =
            some (if same_endpoint voter leader_url then codes "primary" else codes "replica");
        voting = true;
        follows = none;
      }
          ∷ []))

unfoldable pub plan_configuration : ClusterMetadata → Bytes → Bytes → List Bytes → Planned
unfolding set_voting add_voter_members bump checked_plan
plan_configuration current by leader_url voters = checked_plan (
    bump by (record current {
      members =
          add_voter_members leader_url voters (map (set_voting leader_url voters) current.members);
    }))

unfoldable pub plan_leave : ClusterMetadata → Bytes → Bytes → Planned
unfolding member_in without_member checked_plan
plan_leave current by url = elim (member_in url current.members) [
  | none ↦ plan_refused (not_a_member url)
  | some m ↦
      if m.voting
      then plan_refused (still_voting url)
      else checked_plan (without_member by url current)
]
