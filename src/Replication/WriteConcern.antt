-- ===== src/Replication/WriteConcern.antt =====
-- src/replication/write_concern.rs: how many acknowledgements a write needs.
pub mod Enough
use dewdb.Prelude.{
  ℕ, ◌+◌, ◌-◌, ◌*◌, ◌/◌, ◌^◌, Bool, true, false, not, ◌&&◌, List, [], ◌∷◌, ◌++◌, Bytes, codes,
  bytes_eq, leb, ltb, ◌==◌, if◌then◌else◌, length, is_empty, min, max, Option, none, some,
}
use dewdb.Consensus.Config.{Configuration, majority, voter_count, members, has_quorum}

pub data WriteConcern : Type 0 where
  local majority_of all_of : WriteConcern
  n_of : ℕ → WriteConcern

-- `str::parse::<usize>`: one `+` may stand before at least one decimal digit; none where another
-- character is met or the value leaves 64 bits.
unfoldable pub parse_digits : ℕ → Bytes → Option ℕ
parse_digits value [] = some value
parse_digits value (c ∷ cs) =
    let next = value * 10 + (c - 48) in
    let rest = parse_digits next cs in
    if leb 48 c && leb c 57 && ltb next (2 ^ 64) then rest else none

unfoldable pub parse_usize : Bytes → Option ℕ
unfolding parse_digits
parse_usize [] = none
parse_usize (c ∷ cs) =
    if c == 43 then (if is_empty cs then none else parse_digits 0 cs) else parse_digits 0 (c ∷ cs)

-- None is the refusal of an unknown spelling.
unfoldable pub parse_write_concern : Option Bytes → Option WriteConcern
unfolding parse_usize
parse_write_concern none = some local
parse_write_concern (some w) =
    if bytes_eq w (codes "1")
    then some local
    else if bytes_eq w (codes "majority")
    then some majority_of
    else if bytes_eq w (codes "all")
    then some all_of
    else (elim (parse_usize w) [ some n ↦ some (n_of n) | none ↦ none ])

unfoldable pub required_acks : WriteConcern → ℕ → ℕ
required_acks local replica_count = 1
required_acks majority_of replica_count = (1 + replica_count) / 2 + 1
required_acks all_of replica_count = 1 + replica_count
required_acks (n_of n) replica_count = min (max n 1) (1 + replica_count)

pub data WriteQuorum : Type 0 where
  acks : ℕ → WriteQuorum
  majority_in : Configuration → WriteQuorum

unfoldable pub write_quorum : WriteConcern → Configuration → WriteQuorum
unfolding required_acks
write_quorum majority_of config = majority_in config
write_quorum local config = acks (required_acks local (length (members config) - 1))
write_quorum all_of config = acks (required_acks all_of (length (members config) - 1))
write_quorum (n_of n) config = acks (required_acks (n_of n) (length (members config) - 1))

unfoldable pub met : WriteQuorum → List Bytes → Bool
met (acks n) holders = leb n (length holders)
met (majority_in config) holders = has_quorum config holders

unfoldable pub required : WriteQuorum → ℕ
required (acks n) = n
required (majority_in config) =
    let new = majority (voter_count config.voters) in
    elim config.outgoing [ some old ↦ max new (majority (voter_count old)) | none ↦ new ]
