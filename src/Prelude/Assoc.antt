-- ===== src/Prelude/Assoc.antt =====
-- A map keyed by byte strings (`HashMap<String, V>`), as an association list with one entry a key.
use Prim.Native.Nat.{ℕ}
use mathlib.Core.Path.{◌≡◌, refl}
use mathlib.Core.Option.{Option, none, some}
use mathlib.Core.List.{List, [], ◌∷◌}
use native.Mathlib.Omega.{arith}
use mathlib.Core.Logic.{inl, inr}
use mathlib.Core.Bool.{◌&&◌}
use dewdb.Prelude.Tests.{if◌then◌else◌, ltb, Option-cases}
use dewdb.Prelude.Lists.{unwrap_or}
use Prim.Native.Nat.{max}
use dewdb.Prelude.ByteStrings.{Bytes, bytes_eq, bytes_eq_iff}

abbrev pub Assoc {ℓ} : Type ℓ → Type ℓ
Assoc V = List (Bytes × V)

module _ {ℓ} {V : Type ℓ} where
  -- `HashMap::get`
  unfoldable pub lookup : Bytes → Assoc V → Option V
  lookup k [] = none
  lookup k ((j, v) ∷ m) = if bytes_eq j k then some v else lookup k m

  -- `HashMap::insert`: the value of a key that is there is replaced.
  unfoldable pub insert : Bytes → V → Assoc V → Assoc V
  insert k v [] = (k, v) ∷ []
  insert k v ((j, w) ∷ m) = if bytes_eq j k then (k, v) ∷ m else (j, w) ∷ insert k v m

  -- `HashMap::remove`
  unfoldable pub remove : Bytes → Assoc V → Assoc V
  remove k [] = []
  remove k ((j, v) ∷ m) = let rest = remove k m in if bytes_eq j k then rest else (j, v) ∷ rest

  pub lookup-remove :
      (k j : Bytes) (m : Assoc V)
      → lookup j (remove k m) ≡ (if bytes_eq k j then none else lookup j m)
  unfolding lookup remove
  lookup-remove k j [] = ground arith
  lookup-remove k j ((i, w) ∷ m) =
      ground (arith, bytes_eq_iff k j, bytes_eq_iff i k, bytes_eq_iff i j, lookup-remove k j m)

  pub lookup-insert :
      (k j : Bytes) (v : V) (m : Assoc V)
      → lookup j (insert k v m) ≡ (if bytes_eq k j then some v else lookup j m)
  unfolding lookup insert
  lookup-insert k j v [] = refl
  lookup-insert k j v ((i, w) ∷ m) =
      ground (arith, bytes_eq_iff k j, bytes_eq_iff i k, bytes_eq_iff i j, lookup-insert k j v m)

pub lookup-nil : (k : Bytes) → lookup {V = ℕ} k [] ≡ none
unfolding lookup
lookup-nil k = refl

pub lookup-cons :
    (k j : Bytes) (v : ℕ) (m : Assoc ℕ)
    → lookup k ((j, v) ∷ m) ≡ (if bytes_eq j k then some v else lookup k m)
unfolding lookup
lookup-cons k j v m = refl

-- `m.get(outer).and_then(|m| m.get(inner)).copied()`
abbrev pub lookup_two : Bytes → Bytes → Assoc (Assoc ℕ) → Option ℕ
lookup_two outer inner m = elim (lookup outer m) [ none ↦ none | some per ↦ lookup inner per ]

-- `m.entry(outer).or_default().insert(inner, v)`
abbrev pub insert_two : Bytes → Bytes → ℕ → Assoc (Assoc ℕ) → Assoc (Assoc ℕ)
insert_two outer inner v m = insert outer (insert inner v (unwrap_or (lookup outer m) [])) m

-- `m.entry(outer).or_default().entry(inner).or_insert(0)`, raised to `lsn` if that is more.
abbrev pub raise_two : Bytes → Bytes → ℕ → Assoc (Assoc ℕ) → Assoc (Assoc ℕ)
raise_two outer inner lsn m =
    let slot = unwrap_or (lookup_two outer inner m) 0 in
    insert_two outer inner (if ltb slot lsn then lsn else slot) m

-- `m.entry(k).or_insert(v)`
abbrev pub or_insert : Bytes → ℕ → Assoc ℕ → Assoc ℕ
or_insert k v m = elim (lookup k m) [ none ↦ insert k v m | some _ ↦ m ]

pub lookup_two-insert_two :
    (r c s d : Bytes) (v : ℕ) (m : Assoc (Assoc ℕ))
    → lookup_two s d (insert_two r c v m)
      ≡ (if bytes_eq r s && bytes_eq c d then some v else lookup_two s d m)
lookup_two-insert_two r c s d v m = elim (Option-cases (lookup r m)) [
  | inl e ↦ ground (
    arith,
    e,
    lookup-insert r s (insert c v []) m,
    lookup-insert c d v [],
    lookup-nil d,
    bytes_eq_iff r s,
  )
  | inr (per, e) ↦
      ground
        (arith, e, lookup-insert r s (insert c v per) m, lookup-insert c d v per, bytes_eq_iff r s)
]

pub lookup-or_insert :
    (k j : Bytes) (v : ℕ) (m : Assoc ℕ)
    → lookup j (or_insert k v m)
      ≡ (if bytes_eq k j then some (unwrap_or (lookup k m) v) else lookup j m)
lookup-or_insert k j v m = ground (arith, lookup-insert k j v m, bytes_eq_iff k j)

pub raised-raise_two :
    (r c s d : Bytes) (v : ℕ) (m : Assoc (Assoc ℕ))
    → unwrap_or (lookup_two s d (raise_two r c v m)) 0 ≡ (
        if bytes_eq r s && bytes_eq c d
        then max (unwrap_or (lookup_two s d m) 0) v
        else unwrap_or (lookup_two s d m) 0)
raised-raise_two r c s d v m = ground (
  arith,
  lookup_two-insert_two r c s d
      (if ltb (unwrap_or (lookup_two r c m) 0) v then v else unwrap_or (lookup_two r c m) 0) m,
  bytes_eq_iff r s,
  bytes_eq_iff c d,
)
