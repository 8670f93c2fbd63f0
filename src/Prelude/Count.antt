-- ===== src/Prelude/Count.antt =====
-- How many elements of a list pass a test (`Iterator::filter(..).count()`), and the pigeonhole
-- lemma behind every quorum argument.
use Prim.Native.Nat.{ℕ, suc, ◌+◌, ◌≤◌, ◌<◌}
use mathlib.Core.Path.{◌≡◌, refl}
use mathlib.Core.Bool.{Bool, true, ◌&&◌}
use mathlib.Core.List.{List, [], ◌∷◌, map}
use native.Mathlib.Omega.{arith}
use dewdb.Prelude.Tests.{if◌then◌else◌}
use dewdb.Prelude.Lists.{length, any}

module _ {ℓ} {A : Type ℓ} where
  abbrev pub count : (A → Bool) → List A → ℕ
  count p [] = 0
  count p (x ∷ xs) = if p x then suc (count p xs) else count p xs

module _ {ℓ} {A : Type ℓ} where
  pub count-le-length : (p : A → Bool) (xs : List A) → count p xs ≤ length xs
  count-le-length p [] = omega arith
  count-le-length p (x ∷ xs) = ground (arith, count-le-length p xs)

  pub count-add-le :
      (p q : A → Bool) (xs : List A)
      → count p xs + count q xs ≤ length xs + count (λ x. p x && q x) xs
  count-add-le p q [] = omega arith
  count-add-le p q (x ∷ xs) = ground (arith, count-add-le p q xs)

  pub any_of_count_pos : (p : A → Bool) (xs : List A) → 0 < count p xs → any p xs ≡ true
  any_of_count_pos p [] h = absurd (omega arith)
  any_of_count_pos p (x ∷ xs) h = ground (arith, any_of_count_pos p xs)

  -- Two tests that together pass more elements than there are share an element.
  pub pigeonhole :
      (p q : A → Bool) (xs : List A)
      → length xs < count p xs + count q xs
      → any (λ x. p x && q x) xs ≡ true
  pigeonhole p q xs h = any_of_count_pos (λ x. p x && q x) xs (omega (arith, count-add-le p q xs))

  -- An element that passes, as a value.
  pub any_witness : (p : A → Bool) (xs : List A) → any p xs ≡ true → (x : A) × (p x ≡ true)
  any_witness p [] h = absurd (ground arith)
  any_witness p (x ∷ xs) h = elim (dewdb.Prelude.Tests.Bool-cases (p x)) [
    | mathlib.Core.Logic.inl e ↦ (x, e)
    | mathlib.Core.Logic.inr e ↦ any_witness p xs (ground arith)
  ]

  pub count_mono :
      (p q : A → Bool) (xs : List A) → ((x : A) → p x ≡ true → q x ≡ true) → count p xs ≤ count q xs
  count_mono p q [] h = omega arith
  count_mono p q (x ∷ xs) h = ground (arith, h x, count_mono p q xs h)

  pub count-map {κ} :
      {B : Type κ} (p : B → Bool) (f : A → B) (xs : List A)
      → count p (map f xs) ≡ count (λ x. p (f x)) xs
  count-map p f [] = refl
  count-map p f (x ∷ xs) = ground (arith, count-map p f xs)
