-- ===== src/Consensus/Config.antt =====
-- src/consensus/config.rs: quorum arithmetic over a configuration (`Configuration` of
-- src/storage/frame.rs), and `majority` of src/consensus/election.rs.
pub mod Distinct
pub mod Quorum
pub mod Lsn
use dewdb.Prelude.{
  ℕ, ◌+◌, ◌-◌, ◌/◌, Bool, true, false, not, ◌&&◌, List, [], ◌∷◌, ◌++◌, map, Bytes, leb, ◌==◌,
  if◌then◌else◌, length, any, keep, count, get_or, is_empty, Option, none, some, min,
}
use dewdb.Prelude.Sort.{sort_desc}
use dewdb.Util.Endpoint.{same_endpoint}

unfoldable pub majority : ℕ → ℕ
majority cluster_size = cluster_size / 2 + 1

pub record Configuration : Type 0 where
  pub voters : List Bytes
  pub outgoing : Option (List Bytes)

-- The filter of `distinct`, with the entries before the current one (`voters[..i]`).
unfoldable pub distinct_after : List Bytes → List Bytes → List Bytes
distinct_after before [] = []
distinct_after before (v ∷ voters) =
    let rest = distinct_after (before ++ v ∷ []) voters in
    if not (any (λ w. same_endpoint w v) before) then v ∷ rest else rest

unfoldable pub distinct : List Bytes → List Bytes
unfolding distinct_after
distinct voters = distinct_after [] voters

unfoldable pub voter_count : List Bytes → ℕ
unfolding distinct
voter_count voters = length (distinct voters)

unfoldable pub half_quorum_lsn : List Bytes → (Bytes → ℕ) → ℕ
unfolding majority
half_quorum_lsn voters held =
    let lsns = map held (distinct voters) in
    if is_empty lsns then 0 else get_or (sort_desc lsns) (majority (length lsns) - 1) 0

-- Is a member among those that granted, by endpoint?
abbrev pub counts : List Bytes → Bytes → Bool
counts granted v = any (λ g. same_endpoint g v) granted

unfoldable pub half_has_quorum : List Bytes → List Bytes → Bool
unfolding majority voter_count
half_has_quorum voters granted =
    let total = voter_count voters in
    if total == 0 then true else leb (majority total) (count (counts granted) (distinct voters))

-- The loop of `canonical` and `members`: each url is pushed unless the output names its node.
unfoldable pub push_distinct : List Bytes → List Bytes → List Bytes
push_distinct out [] = out
push_distinct out (url ∷ urls) =
    push_distinct (if not (any (λ u. same_endpoint u url) out) then out ++ url ∷ [] else out) urls

unfoldable pub canonical : List Bytes → List Bytes
canonical voters = push_distinct [] voters

unfoldable pub simple : List Bytes → Configuration
simple voters = record { voters = canonical voters; outgoing = none }

unfoldable pub joint : List Bytes → List Bytes → Configuration
joint outgoing voters = record { voters = canonical voters; outgoing = some (canonical outgoing) }

unfoldable pub canonicalized : Configuration → Configuration
canonicalized c = elim c.outgoing [
  | some outgoing ↦ joint outgoing c.voters
  | none ↦ simple c.voters
]

unfoldable pub is_joint : Configuration → Bool
is_joint c = elim c.outgoing [ some _ ↦ true | none ↦ false ]

unfoldable pub target : Configuration → Configuration
target c = simple c.voters

-- `self.outgoing.iter().flatten()`
abbrev pub outgoing_list : Configuration → List Bytes
outgoing_list c = elim c.outgoing [ some old ↦ old | none ↦ [] ]

unfoldable pub members : Configuration → List Bytes
members c = push_distinct [] (c.voters ++ outgoing_list c)

unfoldable pub contains : Configuration → Bytes → Bool
contains c url = any (λ m. same_endpoint m url) (members c)

unfoldable pub has_quorum : Configuration → List Bytes → Bool
has_quorum c granted =
    half_has_quorum c.voters granted
    && (elim c.outgoing [ some old ↦ half_has_quorum old granted | none ↦ true ])

unfoldable pub quorum_lsn : Configuration → (Bytes → ℕ) → ℕ
quorum_lsn c held =
    let new = half_quorum_lsn c.voters held in
    elim c.outgoing [ some old ↦ min new (half_quorum_lsn old held) | none ↦ new ]
