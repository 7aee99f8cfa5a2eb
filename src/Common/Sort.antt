-- ===== src/Common/Sort.antt =====
-- slices.Sort, as insertion sort, and what it keeps.
use smokeng.Common.Lists.{length}
use smokeng.Common.Tests.{leb, if◌then◌else◌}
use smokeng.Common.Predicates.{All, SortedFrom}
use Prim.Native.Nat.{ℕ, suc, ◌≤◌}
use mathlib.Core.Path.{◌≡◌, refl}
use mathlib.Core.Bool.{Bool}
use mathlib.Core.List.{List, [], ◌∷◌}
use native.Mathlib.Omega.{arith}

module _ {A : Type 0} (le : A → A → Bool) where
  unfoldable pub insert_by : A → List A → List A
  insert_by x [] = x ∷ []
  insert_by x (y ∷ ys) = let rest = insert_by x ys in if le x y then x ∷ y ∷ ys else y ∷ rest

  unfoldable pub sort_by : List A → List A
  unfolding insert_by
  sort_by [] = []
  sort_by (x ∷ xs) = insert_by x (sort_by xs)

  length-insert_by : (x : A) (xs : List A) → length (insert_by x xs) ≡ suc (length xs)
  unfolding insert_by
  length-insert_by x [] = refl
  length-insert_by x (y ∷ ys) = ground (arith, length-insert_by x ys)

  pub length-sort_by : (xs : List A) → length (sort_by xs) ≡ length xs
  unfolding sort_by
  length-sort_by [] = refl
  length-sort_by (x ∷ xs) = ground (arith, length-sort_by xs, length-insert_by x (sort_by xs))

  All-insert_by : (P : A → Type 0) (x : A) (xs : List A) → P x → All P xs → All P (insert_by x xs)
  unfolding insert_by
  All-insert_by P x [] p h = (p, tt)
  All-insert_by P x (y ∷ ys) p h = ground (arith, All-insert_by P x ys p h.1)

  pub All-sort_by : (P : A → Type 0) (xs : List A) → All P xs → All P (sort_by xs)
  unfolding sort_by
  All-sort_by P [] h = tt
  All-sort_by P (x ∷ xs) h = All-insert_by P x (sort_by xs) h.0 (All-sort_by P xs h.1)

insert_by-SortedFrom :
    (lo x : ℕ) (xs : List ℕ) → lo ≤ x → SortedFrom lo xs → SortedFrom lo (insert_by leb x xs)
unfolding insert_by
insert_by-SortedFrom lo x [] h s = (h, tt)
insert_by-SortedFrom lo x (y ∷ ys) h s = ground (arith, insert_by-SortedFrom y x ys)

-- Numbers sorted by `leb` are ascending.
pub sort_by-SortedFrom : (xs : List ℕ) → SortedFrom 0 (sort_by leb xs)
unfolding sort_by
sort_by-SortedFrom [] = tt
sort_by-SortedFrom (x ∷ xs) =
    insert_by-SortedFrom 0 x (sort_by leb xs) (omega arith) (sort_by-SortedFrom xs)
