-- ===== src/Prelude/Positions.antt =====
-- A map keyed by log positions (`BTreeMap<u64, V>`): its entries in ascending order of position.
use dewdb.Prelude.Tests.{if◌then◌else◌, ltb, leb, ◌==◌, Option-cases}
use Prim.Native.Nat.{ℕ, ◌<◌, ◌≤◌}
use mathlib.Core.Path.{◌≡◌, refl}
use mathlib.Core.Option.{Option, none, some}
use mathlib.Core.Logic.{inl, inr}
use mathlib.Core.List.{List, [], ◌∷◌, ◌++◌}
use native.Mathlib.Omega.{arith}

abbrev pub Positions {ℓ} : Type ℓ → Type ℓ
Positions V = List (ℕ × V)

module _ {ℓ} {V : Type ℓ} where
  -- `BTreeMap::get`
  unfoldable pub at : ℕ → Positions V → Option V
  at n [] = none
  at n ((m, v) ∷ xs) = if m == n then some v else at n xs

  -- `BTreeMap::insert`
  unfoldable pub put_at : ℕ → V → Positions V → Positions V
  put_at n v [] = (n, v) ∷ []
  put_at n v ((m, w) ∷ xs) =
      if ltb n m
      then (n, v) ∷ (m, w) ∷ xs
      else if n == m
      then (n, v) ∷ xs
      else (m, w) ∷ put_at n v xs

  -- What `split_off(&(n + 1))` leaves behind and what it returns.
  unfoldable pub up_to : ℕ → Positions V → Positions V
  up_to n [] = []
  up_to n ((m, v) ∷ xs) = if leb m n then (m, v) ∷ up_to n xs else up_to n xs

  unfoldable pub above : ℕ → Positions V → Positions V
  above n [] = []
  above n ((m, v) ∷ xs) = if leb m n then above n xs else (m, v) ∷ above n xs

  -- `values().rev().find_map(f)`
  unfoldable pub find_last {κ} : {B : Type κ} → (V → Option B) → Positions V → Option B
  find_last f [] = none
  find_last f ((m, v) ∷ xs) = elim (find_last f xs) [ some b ↦ some b | none ↦ f v ]

  -- Every position is above `b`, and they ascend.
  abbrev pub IsAscFrom : ℕ → Positions V → Type 0
  IsAscFrom b [] = Unit
  IsAscFrom b ((m, v) ∷ xs) = (b < m) × IsAscFrom m xs

  abbrev pub IsAsc : Positions V → Type 0
  IsAsc [] = Unit
  IsAsc ((m, v) ∷ xs) = IsAscFrom m xs

  pub IsAscFrom-lower : (b c : ℕ) (xs : Positions V) → c ≤ b → IsAscFrom b xs → IsAscFrom c xs
  IsAscFrom-lower b c [] h a = tt
  IsAscFrom-lower b c ((m, v) ∷ xs) h a = ground arith

  above-all :
      (n b : ℕ) (xs : Positions V) → n ≤ b → IsAscFrom b xs → (up_to n xs ≡ []) × (above n xs ≡ xs)
  unfolding up_to above
  above-all n b [] h a = (refl, refl)
  above-all n b ((m, v) ∷ xs) h a = ground (arith, above-all n m xs)

  split-from : (n b : ℕ) (xs : Positions V) → IsAscFrom b xs → xs ≡ up_to n xs ++ above n xs
  unfolding up_to above
  split-from n b [] a = refl
  split-from n b ((m, v) ∷ xs) a = ground (arith, above-all n m xs, split-from n m xs)

  -- A map in order is what stands at or below a position, and then the rest.
  pub split : (n : ℕ) (xs : Positions V) → IsAsc xs → xs ≡ up_to n xs ++ above n xs
  unfolding up_to above
  split n [] a = refl
  split n ((m, v) ∷ xs) a = ground (arith, above-all n m xs, split-from n m xs)

  IsAscFrom-above : (n b : ℕ) (xs : Positions V) → IsAscFrom b xs → IsAscFrom b (above n xs)
  unfolding above
  IsAscFrom-above n b [] a = tt
  IsAscFrom-above n b ((m, v) ∷ xs) a =
      ground (arith, IsAscFrom-above n m xs, IsAscFrom-lower m b (above n xs))

  IsAsc-from : (b : ℕ) (xs : Positions V) → IsAscFrom b xs → IsAsc xs
  IsAsc-from b [] a = tt
  IsAsc-from b ((m, v) ∷ xs) a = a.1

  pub IsAsc-above : (n : ℕ) (xs : Positions V) → IsAsc xs → IsAsc (above n xs)
  unfolding above
  IsAsc-above n [] a = tt
  IsAsc-above n ((m, v) ∷ xs) a =
      ground (arith, IsAscFrom-above n m xs a, IsAsc-from m (above n xs))

  IsAscFrom-put_at :
      (n b : ℕ) (v : V) (xs : Positions V) → b < n → IsAscFrom b xs → IsAscFrom b (put_at n v xs)
  unfolding put_at
  IsAscFrom-put_at n b v [] h a = (h, tt)
  IsAscFrom-put_at n b v ((m, w) ∷ xs) h a =
      ground (arith, IsAscFrom-put_at n m v xs, IsAscFrom-lower m n xs)

  pub IsAsc-put_at : (n : ℕ) (v : V) (xs : Positions V) → IsAsc xs → IsAsc (put_at n v xs)
  unfolding put_at
  IsAsc-put_at n v [] a = tt
  IsAsc-put_at n v ((m, w) ∷ xs) a =
      ground (arith, IsAscFrom-put_at n m v xs, IsAscFrom-lower m n xs)

  pub find_last-append {κ} :
      {B : Type κ} (f : V → Option B) (xs ys : Positions V)
      → find_last f (xs ++ ys) ≡ (elim (find_last f ys) [ some b ↦ some b | none ↦ find_last f xs ])
  unfolding find_last
  find_last-append f [] ys = elim (Option-cases (find_last f ys)) [
    | inl e ↦ rw e refl
    | inr (b, e) ↦ rw e refl
  ]
  find_last-append f ((m, v) ∷ xs) ys = elim (Option-cases (find_last f ys)) [
    | inl e ↦ rw (find_last-append f xs ys, e) refl
    | inr (b, e) ↦ rw (find_last-append f xs ys, e) refl
  ]
