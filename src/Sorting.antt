-- ===== src/Sorting.antt =====
-- Python's `sorted(xs, key=…)` as an insertion sort: it is stable, so it returns the same list.
pub mod Order
use memsafedb.Prelude.{Bool, List, [], ◌∷◌, if◌then◌else◌}

module _ {ℓ κ} {A : Type ℓ} {K : Type κ} (leb : K → K → Bool) (key : A → K) where
  unfoldable pub insert_by : A → List A → List A
  insert_by x [] = x ∷ []
  insert_by x (y ∷ ys) = if leb (key x) (key y) then x ∷ y ∷ ys else y ∷ insert_by x ys

  unfoldable pub sort_by : List A → List A
  unfolding insert_by
  sort_by [] = []
  sort_by (x ∷ xs) = insert_by x (sort_by xs)
