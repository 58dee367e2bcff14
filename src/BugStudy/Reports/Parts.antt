-- ===== src/BugStudy/Reports/Parts.antt =====
-- The parts that the detailed report is cut into.
pub mod Whole
use memsafedb.Prelude.{ℕ, zero, suc, ◌+◌, ◌/◌, List, [], ◌∷◌, take, drop, length}

module _ {ℓ} {A : Type ℓ} where
  -- `[xs[i:i + n] for i in range(0, len(xs), n)]`. Each part takes an element, as `n` is not 0.
  unfoldable pub slices : ℕ → ℕ → List A → List (List A)
  slices zero n xs = []
  slices (suc fuel) n [] = []
  slices (suc fuel) n (x ∷ xs) = take n (x ∷ xs) ∷ slices fuel n (drop n (x ∷ xs))

  -- `math.ceil(len(xs) / 3)`
  unfoldable pub chunk_size : List A → ℕ
  chunk_size xs = (length xs + 2) / 3

  unfoldable pub chunks : List A → List (List A)
  unfolding slices chunk_size
  chunks xs = slices (length xs) (chunk_size xs) xs
