-- ===== src/Instructions/Table/Totals.antt =====
-- The rows of `rows_for_database` and its breakdown add up to the same counts.
use mathlib.Core.Path.{subst}
use memsafedb.Prelude.{
  ℕ, ◌+◌, ◌≤◌, ◌≡◌, refl, ap, ◌∙◌, Bool, true, false, not, Option, none, some, List, [], ◌∷◌, ◌++◌,
  ◌⊎◌, inl, inr, map, All, arith, if◌then◌else◌,
}
use memsafedb.Text.{Text, text_eq}
use memsafedb.Dict.{Counter, lookup}
use memsafedb.Dict.Counters.{counter_sum}
use memsafedb.Instructions.Patterns.{Mechanism, mte, cheri}
use memsafedb.Instructions.Counting.{Counts, count_instructions}
use memsafedb.Instructions.Counting.Sums.{IsCounted, count_instructions-IsCounted}
use memsafedb.Instructions.Targets.{
  BinaryTarget, World, Shared, shared_counts, shared_of, shared_at, candidate_paths, disassemble,
  resolve_glibc_path, count_mte_in_shared_runtime,
}
use memsafedb.Instructions.Table.{
  insert_item, sorted_items, text_leb, Component, binary, glibc, Category, Breakdown, breakdown,
  Status, missing_binary, error, Filled, TargetRow, no_instructions, breakdown_rows_for_target,
  counted_row, runtime_counts, counted_target, try_target, fill_target, rows_for_targets,
  rows_for_database,
}

counter_sum-insert_item :
    (k : Text) (n : ℕ) (c : Counter Text) → counter_sum (insert_item (k, n) c) ≡ n + counter_sum c
unfolding insert_item
counter_sum-insert_item k n [] = refl
counter_sum-insert_item k n ((j, m) ∷ c) = moved (text_leb k j) (counter_sum-insert_item k n c)
  where
    moved :
        (b : Bool)
        → counter_sum (insert_item (k, n) c) ≡ n + counter_sum c
        → counter_sum (if b then (k, n) ∷ ((j, m) ∷ c) else (j, m) ∷ insert_item (k, n) c)
          ≡ n + (m + counter_sum c)
    moved true e = refl
    moved false e = omega arith

counter_sum-sorted_items : (c : Counter Text) → counter_sum (sorted_items c) ≡ counter_sum c
unfolding sorted_items
counter_sum-sorted_items [] = refl
counter_sum-sorted_items ((k, n) ∷ c) =
    counter_sum-insert_item k n (sorted_items c) ∙ ap (λ s. n + s) (counter_sum-sorted_items c)

-- What the breakdown counts of the binaries, and of the shared runtime.
abbrev of_component : Component → Component → ℕ → ℕ
of_component binary binary n = n
of_component glibc glibc n = n
of_component _ _ n = 0

abbrev pub sum_of : Component → List Breakdown → ℕ
sum_of component [] = 0
sum_of component (b ∷ bs) = of_component component b.component b.count + sum_of component bs

sum_of-append :
    (component : Component) (cs bs : List Breakdown)
    → sum_of component (cs ++ bs) ≡ sum_of component cs + sum_of component bs
sum_of-append component [] bs = omega arith
sum_of-append component (c ∷ cs) bs = omega (arith, sum_of-append component cs bs)

sum_of-map :
    (component other : Component) (t : BinaryTarget) (category : Category) (c : Counter Text)
    → sum_of component (map (breakdown t other category) c)
      ≡ of_component component other (counter_sum c)
sum_of-map binary binary t category [] = refl
sum_of-map glibc glibc t category [] = refl
sum_of-map binary glibc t category [] = refl
sum_of-map glibc binary t category [] = refl
sum_of-map binary binary t category ((k, n) ∷ c) =
    ap (λ s. n + s) (sum_of-map binary binary t category c)
sum_of-map glibc glibc t category ((k, n) ∷ c) =
    ap (λ s. n + s) (sum_of-map glibc glibc t category c)
sum_of-map binary glibc t category ((k, n) ∷ c) =
    let e = sum_of-map binary glibc t category c in omega arith
sum_of-map glibc binary t category ((k, n) ∷ c) =
    let e = sum_of-map glibc binary t category c in omega arith

sum_of-sorted :
    (component other : Component) (t : BinaryTarget) (category : Category) (c : Counter Text)
    → sum_of component (map (breakdown t other category) (sorted_items c))
      ≡ of_component component other (counter_sum c)
sum_of-sorted component other t category c =
    sum_of-map component other t category (sorted_items c)
    ∙ ap (of_component component other) (counter_sum-sorted_items c)

sum_of-breakdown_rows :
    (component : Component) (t : BinaryTarget) (operand manip shared : Counter Text)
    → sum_of component (breakdown_rows_for_target t operand manip shared)
      ≡ of_component component binary (counter_sum operand)
        + (of_component component binary (counter_sum manip)
            + of_component component glibc (counter_sum shared))
unfolding breakdown_rows_for_target
sum_of-breakdown_rows component t operand manip shared = simp (sum_of-append, sum_of-sorted)

-- A row as its breakdown counts it.
pub record Agrees (f : Filled) (bs : List Breakdown) : Type 0 where
  pub of_binary : sum_of binary bs ≡ f.new_instruction_count
  pub of_glibc : sum_of glibc bs ≡ f.glibc_instruction_count
  pub within_total : f.new_instruction_count ≤ f.total_instructions

module _ (w : World) where
  -- What the shared runtime counts by mnemonic adds up to its count, if there is no error.
  abbrev IsShared : Text ⊎ Shared w → Type 0
  IsShared (inl e) = Unit
  IsShared (inr s) = counter_sum s.mnemonic_counts ≡ s.count

  shared_of-IsShared : (path : Text) (o : Text ⊎ (Text × Text)) → IsShared (shared_of w path o)
  unfolding shared_of shared_counts
  shared_of-IsShared path (inl e) = tt
  shared_of-IsShared path (inr (disassembly, tool)) =
      (count_instructions-IsCounted disassembly mte).manip_sum

  shared_at-IsShared : (o : Option Text) → IsShared (shared_at w o)
  unfolding shared_at
  shared_at-IsShared none = refl
  shared_at-IsShared (some path) = shared_of-IsShared path _

  runtime_counts-IsShared :
      (target : BinaryTarget) (mechanism : Mechanism) → IsShared (runtime_counts w target mechanism)
  unfolding runtime_counts count_mte_in_shared_runtime
  runtime_counts-IsShared target cheri = refl
  runtime_counts-IsShared target mte = shared_at-IsShared (resolve_glibc_path w target.path)

  counted-Agrees :
      (target : BinaryTarget) (tool : Text) (counts : Counts) (s : Shared w)
      → IsCounted target.mechanism counts
      → counter_sum s.mnemonic_counts ≡ s.count
      → Agrees (counted_row w tool counts s) (
          breakdown_rows_for_target target counts.operand_mnemonic_counts
            counts.manip_mnemonic_counts s.mnemonic_counts)
  unfolding counted_row
  counted-Agrees target tool counts s h e =
      let b =
        sum_of-breakdown_rows binary target counts.operand_mnemonic_counts
          counts.manip_mnemonic_counts s.mnemonic_counts in
      let g =
        sum_of-breakdown_rows glibc target counts.operand_mnemonic_counts
          counts.manip_mnemonic_counts s.mnemonic_counts in
      let o = h.operand_sum in
      let m = h.manip_sum in
      let i = h.within_total in
      record { of_binary = omega arith; of_glibc = omega arith; within_total = omega arith }

  none-Agrees : (status : Status) → Agrees (no_instructions status) []
  none-Agrees status = record { of_binary = refl; of_glibc = refl; within_total = omega arith }

  counted_target-Agrees :
      (target : BinaryTarget) (tool : Text) (counts : Counts) (o : Text ⊎ Shared w)
      → IsCounted target.mechanism counts
      → IsShared o
      → (let (filled, broken) = counted_target w target tool counts o in Agrees filled broken)
  unfolding counted_target
  counted_target-Agrees target tool counts (inl e) h i = none-Agrees (error e)
  counted_target-Agrees target tool counts (inr s) h i = counted-Agrees target tool counts s h i

  try_target-Agrees :
      (target : BinaryTarget) (d : Text ⊎ (Text × Text))
      → (let (filled, broken) = try_target w target d in Agrees filled broken)
  unfolding try_target
  try_target-Agrees target (inl e) = none-Agrees (error e)
  try_target-Agrees target (inr (disassembly, tool)) =
      counted_target-Agrees target tool (count_instructions disassembly target.mechanism)
        (runtime_counts w target target.mechanism)
        (count_instructions-IsCounted disassembly target.mechanism)
        (runtime_counts-IsShared target target.mechanism)

  fill_target-Agrees :
      (target : BinaryTarget)
      → (let (filled, broken) = fill_target w target in Agrees filled broken)
  unfolding fill_target
  fill_target-Agrees target =
      elim (w.exists target.path)
        as (λ b.
          let (filled, broken) =
            (if not b
              then (no_instructions missing_binary, [])
              else try_target w target (disassemble w target)) in
          Agrees filled broken) [
            | true ↦ try_target-Agrees target (disassemble w target)
            | false ↦ none-Agrees missing_binary
          ]

-- The sums of a column of the rows.
abbrev pub new_sum : List TargetRow → ℕ
new_sum [] = 0
new_sum (r ∷ rs) = r.filled.new_instruction_count + new_sum rs

abbrev pub glibc_sum : List TargetRow → ℕ
glibc_sum [] = 0
glibc_sum (r ∷ rs) = r.filled.glibc_instruction_count + glibc_sum rs

abbrev WithinTotal : TargetRow → Type 0
WithinTotal r = r.filled.new_instruction_count ≤ r.filled.total_instructions

pub record AreTotals (rows : List TargetRow) (broken : List Breakdown) : Type 0 where
  pub of_binaries : sum_of binary broken ≡ new_sum rows
  pub of_runtimes : sum_of glibc broken ≡ glibc_sum rows
  pub within_totals : All WithinTotal rows

add_sums : (a b : ℕ) {c d x : ℕ} → x ≡ a + b → a ≡ c → b ≡ d → x ≡ c + d
add_sums a b e f g = omega arith

module _ (w : World) where
  rows_for_targets-AreTotals :
      (targets : List BinaryTarget)
      → (let (rows, broken) = rows_for_targets w targets in AreTotals rows broken)
  unfolding rows_for_targets
  rows_for_targets-AreTotals [] = record {
    of_binaries = refl;
    of_runtimes = refl;
    within_totals = tt;
  }
  rows_for_targets-AreTotals (target ∷ targets) =
      let first = fill_target-Agrees w target in
      let rest = rows_for_targets-AreTotals targets in
      record {
        of_binaries =
            add_sums _ _
              (sum_of-append binary (fill_target w target).1 (rows_for_targets w targets).1)
              first.of_binary rest.of_binaries;
        of_runtimes =
            add_sums _ _
              (sum_of-append glibc (fill_target w target).1 (rows_for_targets w targets).1)
              first.of_glibc rest.of_runtimes;
        within_totals = (first.within_total, rest.within_totals);
      }

  -- Whatever the machine answers (binaries that are missing, tools that fail, a runtime that is not
  -- found): if the database is known, the breakdown's counts for the binaries add up to the
  -- `new_instruction_count` of all rows, those for the shared runtime to their
  -- `glibc_instruction_count`, and no row counts more new instructions than instructions.
  pub rows_for_database-AreTotals :
      (database : Text) {rows : List TargetRow} {broken : List Breakdown}
      → rows_for_database w database ≡ some (rows, broken)
      → AreTotals rows broken
  unfolding rows_for_database
  rows_for_database-AreTotals database {rows} {broken} e =
      elim (lookup text_eq database (candidate_paths w))
          as (λ o.
            elim o [ none ↦ none | some targets ↦ some (rows_for_targets w targets) ]
              ≡ some (rows, broken)
            → AreTotals rows broken) [
              | none ↦ λ f. (cc)
              | some targets ↦ λ f.
                  let same : rows_for_targets w targets ≡ (rows, broken) = cc in
                  subst (λ (r, b). AreTotals r b) same (rows_for_targets-AreTotals targets)
            ]
        e
