-- ===== src/Prelude/Sort.antt =====
-- Sorting numbers in descending order (`sort_unstable_by(|a, b| b.cmp(a))`), and what the element
-- at a position of a sorted list says of how many elements are that large.
use Prim.Native.Nat.{ℕ, zero, suc, ◌≤◌, ◌<◌}
use mathlib.Core.Path.{◌≡◌, refl}
use mathlib.Core.Logic.{◌↔◌}
use mathlib.Core.Bool.{Bool}
use mathlib.Core.List.{List, [], ◌∷◌}
use native.Mathlib.Omega.{arith}
use dewdb.Prelude.Tests.{if◌then◌else◌, leb}
use dewdb.Prelude.Lists.{length, get_or}
use dewdb.Prelude.Count.{count}

unfoldable pub insert_desc : ℕ → List ℕ → List ℕ
insert_desc a [] = a ∷ []
insert_desc a (x ∷ xs) = if leb x a then a ∷ x ∷ xs else x ∷ insert_desc a xs

unfoldable pub sort_desc : List ℕ → List ℕ
unfolding insert_desc
sort_desc [] = []
sort_desc (x ∷ xs) = insert_desc x (sort_desc xs)

-- Every element is at most `b`, and each is at least all that follow it.
abbrev pub IsDescFrom : ℕ → List ℕ → Type 0
IsDescFrom b [] = Unit
IsDescFrom b (x ∷ xs) = (x ≤ b) × IsDescFrom x xs

IsDescFrom-insert_desc :
    (b a : ℕ) (xs : List ℕ) → a ≤ b → IsDescFrom b xs → IsDescFrom b (insert_desc a xs)
unfolding insert_desc
IsDescFrom-insert_desc b a [] h d = (h, tt)
IsDescFrom-insert_desc b a (x ∷ xs) h d = ground (arith, IsDescFrom-insert_desc x a xs)

count-insert_desc :
    (p : ℕ → Bool) (a : ℕ) (xs : List ℕ) → count p (insert_desc a xs) ≡ count p (a ∷ xs)
unfolding insert_desc
count-insert_desc p a [] = refl
count-insert_desc p a (x ∷ xs) = ground (arith, count-insert_desc p a xs)

-- Sorting moves elements and neither adds nor drops one.
pub count-sort_desc : (p : ℕ → Bool) (xs : List ℕ) → count p (sort_desc xs) ≡ count p xs
unfolding sort_desc
count-sort_desc p [] = refl
count-sort_desc p (x ∷ xs) =
    ground (arith, count-insert_desc p x (sort_desc xs), count-sort_desc p xs)

abbrev pub IsDesc : List ℕ → Type 0
IsDesc [] = Unit
IsDesc (x ∷ xs) = IsDescFrom x xs

IsDesc-insert_desc : (a : ℕ) (xs : List ℕ) → IsDesc xs → IsDesc (insert_desc a xs)
unfolding insert_desc
IsDesc-insert_desc a [] d = tt
IsDesc-insert_desc a (x ∷ xs) d = ground (arith, IsDescFrom-insert_desc x a xs)

pub sort_desc-IsDesc : (xs : List ℕ) → IsDesc (sort_desc xs)
unfolding sort_desc
sort_desc-IsDesc [] = tt
sort_desc-IsDesc (x ∷ xs) = IsDesc-insert_desc x (sort_desc xs) (sort_desc-IsDesc xs)

count-above : (m b : ℕ) (xs : List ℕ) → IsDescFrom b xs → b < m → count (leb m) xs ≡ 0
count-above m b [] d h = refl
count-above m b (x ∷ xs) d h = ground (arith, count-above m x xs)

-- In a descending list the element at `k` is at least `m` exactly if more than `k` elements are.
get_or-desc :
    (m k : ℕ) (xs : List ℕ)
    → IsDesc xs
    → k < length xs
    → (m ≤ get_or xs k 0) ↔ (k < count (leb m) xs)
get_or-desc m k [] d h = absurd (omega arith)
get_or-desc m zero (x ∷ xs) d h = ground (arith, count-above m x xs)
get_or-desc m (suc k) (x ∷ []) d h = absurd (omega arith)
get_or-desc m (suc k) (x ∷ y ∷ xs) d h =
    ground (arith, count-above m x (y ∷ xs), get_or-desc m k (y ∷ xs) d.1)

length-insert_desc : (a : ℕ) (xs : List ℕ) → length (insert_desc a xs) ≡ suc (length xs)
unfolding insert_desc
length-insert_desc a [] = refl
length-insert_desc a (x ∷ xs) = ground (arith, length-insert_desc a xs)

pub length-sort_desc : (xs : List ℕ) → length (sort_desc xs) ≡ length xs
unfolding sort_desc
length-sort_desc [] = refl
length-sort_desc (x ∷ xs) = ground (arith, length-insert_desc x (sort_desc xs), length-sort_desc xs)

-- The element at rank `k` of the sorted list is at least `m` exactly if more than `k` elements of
-- the list are.
pub get_or-sort_desc :
    (m k : ℕ) (xs : List ℕ)
    → k < length xs
    → (m ≤ get_or (sort_desc xs) k 0) ↔ (k < count (leb m) xs)
get_or-sort_desc m k xs h = ground (
  arith,
  count-sort_desc (leb m) xs,
  length-sort_desc xs,
  get_or-desc m k (sort_desc xs) (sort_desc-IsDesc xs),
)
