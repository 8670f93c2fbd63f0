-- ===== src/Consensus/Config/Lsn.antt =====
-- What `quorum_lsn` of src/consensus/config.rs returns: the highest position that a majority of
-- each half holds.
use dewdb.Prelude.{
  ◌≡◌, false, List, Bytes, arith, ◌<◌, ◌≤◌, ◌-◌, length, count, ℕ, leb, Option, none, some,
  is_empty, map, count-map, length-map, ◌↔◌,
}
use dewdb.Prelude.Sort.{get_or-sort_desc}
use dewdb.Consensus.Config.Distinct.{distinct_nonempty}
use dewdb.Consensus.Config.{
  Configuration, majority, distinct, voter_count, half_quorum_lsn, quorum_lsn,
}

-- A majority of one half holds `m` or more.
abbrev pub HalfHolds : (Bytes → ℕ) → ℕ → List Bytes → Type 0
HalfHolds held m voters =
    majority (voter_count voters) ≤ count (λ v. leb m (held v)) (distinct voters)

-- A majority of each half holds `m` or more.
abbrev pub QuorumHolds : (Bytes → ℕ) → ℕ → Configuration → Type 0
QuorumHolds held m c =
    HalfHolds held m c.voters × (elim c.outgoing [ some old ↦ HalfHolds held m old | none ↦ Unit ])

-- The lists of voters of a configuration name someone.
abbrev pub HasVoters : Configuration → Type 0
HasVoters c =
    (is_empty c.voters ≡ false)
    × (elim c.outgoing [ some old ↦ is_empty old ≡ false | none ↦ Unit ])

half_quorum_lsn_lem :
    (m : ℕ) (voters : List Bytes) (held : Bytes → ℕ)
    → 0 < length (distinct voters)
    → (m ≤ half_quorum_lsn voters held) ↔ HalfHolds held m voters
unfolding half_quorum_lsn voter_count
half_quorum_lsn_lem m voters held h = ground (
  arith,
  count-map (leb m) held (distinct voters),
  length-map held (distinct voters),
  get_or-sort_desc m (majority (length (distinct voters)) - 1) (map held (distinct voters)),
)

quorum_lsn_halves :
    (vs : List Bytes) (o : Option (List Bytes)) (held : Bytes → ℕ) (m : ℕ)
    → HasVoters (record { voters = vs; outgoing = o })
    → (m ≤ quorum_lsn (record { voters = vs; outgoing = o }) held)
      ↔ QuorumHolds held m (record { voters = vs; outgoing = o })
unfolding quorum_lsn
quorum_lsn_halves vs none held m h =
    let i = half_quorum_lsn_lem m vs held (distinct_nonempty vs h.0) in
    (λ k. (i.0 k, tt), λ k. i.1 k.0)
quorum_lsn_halves vs (some old) held m h =
    let i = half_quorum_lsn_lem m vs held (distinct_nonempty vs h.0) in
    let j = half_quorum_lsn_lem m old held (distinct_nonempty old h.1) in
    (λ k. (i.0 (omega arith), j.0 (omega arith)), λ k. omega (arith, i.1 k.0, j.1 k.1))

-- `quorum_lsn` is the highest position that a quorum holds: where no half is empty, a position is
-- at most it exactly if a majority of each half holds that position or more.
pub quorum_lsn_iff :
    (c : Configuration) (held : Bytes → ℕ) (m : ℕ)
    → HasVoters c
    → (m ≤ quorum_lsn c held) ↔ QuorumHolds held m c
quorum_lsn_iff c held m h = quorum_lsn_halves c.voters c.outgoing held m h
