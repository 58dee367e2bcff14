-- ===== src/Tables/Breakdown/Kept.antt =====
-- The rows of a section hold all of its counts.
use memsafedb.Prelude.{
  ℕ, zero, suc, ◌+◌, ◌≤◌, ◌≡◌, refl, sym, ap, ◌∙◌, Option, none, some, List, [], ◌∷◌, ◌++◌, map,
  take, drop, length, length-append, length-map, length-take, ltb, ◌==◌, ==_iff, Bool-cases, inl,
  inr, arith, if◌then◌else◌,
}
use memsafedb.Text.{Text, text_eq}
use memsafedb.Dict.{Counter, update}
use memsafedb.Dict.Counters.{counter_sum}
use memsafedb.Sorting.{insert_by, sort_by}
use memsafedb.Tables.Breakdown.{
  BreakdownRow, Section, SectionRow, selected, section_counts, pair_leb, ordered_pairs, plain,
  combined_row, top_rows, aggregate_section,
}

-- The counts of the rows of the file that a section selects.
abbrev pub selected_sum : Section → List BreakdownRow → ℕ
selected_sum s [] = 0
selected_sum s (r ∷ rows) =
    let rest = selected_sum s rows in if selected s r then r.count + rest else rest

abbrev pub row_sum : List SectionRow → ℕ
row_sum [] = 0
row_sum (r ∷ rows) = r.count + row_sum rows

counter_sum-update :
    (k : Text) (m : ℕ) (c : Counter Text)
    → counter_sum (update text_eq 0 k (λ n. n + m) c) ≡ m + counter_sum c
unfolding update
counter_sum-update k m [] = omega arith
counter_sum-update k m ((j, n) ∷ c) = ground (arith, counter_sum-update k m c)

section_counts-sum :
    (s : Section) (rows : List BreakdownRow) (c : Counter Text)
    → counter_sum (section_counts s rows c) ≡ selected_sum s rows + counter_sum c
unfolding section_counts
section_counts-sum s [] c = omega arith
section_counts-sum s (r ∷ rows) c = elim (Bool-cases (selected s r)) [
  | inl is_selected ↦ rw is_selected (
      omega (
        arith,
        section_counts-sum s rows (update text_eq 0 r.mnemonic (λ n. n + r.count) c),
        counter_sum-update r.mnemonic r.count c,
      ))
  | inr not_selected ↦ rw not_selected (section_counts-sum s rows c)
]

insert_by-sum :
    (e : Text × ℕ) (c : Counter Text)
    → counter_sum (insert_by pair_leb (λ e. e) e c) ≡ counter_sum (e ∷ c)
unfolding insert_by
insert_by-sum (k, n) [] = omega arith
insert_by-sum (k, n) ((j, m) ∷ c) = elim (Bool-cases (pair_leb (k, n) (j, m))) [
  | inl first ↦ rw first (omega arith)
  | inr later ↦ rw later (omega (arith, insert_by-sum (k, n) c))
]

sort_by-sum : (c : Counter Text) → counter_sum (sort_by pair_leb (λ e. e) c) ≡ counter_sum c
unfolding sort_by
sort_by-sum [] = refl
sort_by-sum ((k, n) ∷ c) =
    insert_by-sum (k, n) (sort_by pair_leb (λ e. e) c) ∙ ap (λ r. n + r) (sort_by-sum c)

take-drop-sum :
    (n : ℕ) (c : Counter Text) → counter_sum (take n c) + counter_sum (drop n c) ≡ counter_sum c
take-drop-sum zero c = omega arith
take-drop-sum (suc n) [] = omega arith
take-drop-sum (suc n) ((k, m) ∷ c) = omega (arith, take-drop-sum n c)

row_sum-append : (xs ys : List SectionRow) → row_sum (xs ++ ys) ≡ row_sum xs + row_sum ys
row_sum-append [] ys = omega arith
row_sum-append (x ∷ xs) ys = omega (arith, row_sum-append xs ys)

row_sum-plain : (c : Counter Text) → row_sum (map plain c) ≡ counter_sum c
row_sum-plain [] = refl
row_sum-plain ((k, n) ∷ c) = omega (arith, row_sum-plain c)

combined_row-sum : (c : Counter Text) → row_sum (combined_row c) ≡ counter_sum c
unfolding combined_row
combined_row-sum c = elim (Bool-cases (counter_sum c == 0)) [
  | inl none_left ↦ rw none_left (sym ((==_iff (counter_sum c) 0).0 none_left))
  | inr some_left ↦ rw some_left (omega arith)
]

length-combined_row : (c : Counter Text) → length (combined_row c) ≤ 1
unfolding combined_row
length-combined_row c = elim (Bool-cases (counter_sum c == 0)) [
  | inl none_left ↦ rw none_left (omega arith)
  | inr some_left ↦ rw some_left (omega arith)
]

top_rows-sum : (top : Option ℕ) (c : Counter Text) → row_sum (top_rows top c) ≡ counter_sum c
top_rows-sum none c = row_sum-plain c
top_rows-sum (some n) c = elim (Bool-cases (ltb n (length c))) [
  | inl cut ↦ rw cut (
      omega (
        arith,
        row_sum-append (map plain (take n c)) (combined_row (drop n c)),
        row_sum-plain (take n c),
        combined_row-sum (drop n c),
        take-drop-sum n c,
      ))
  | inr not_cut ↦ rw not_cut (row_sum-plain c)
]

length-top_rows : (n : ℕ) (c : Counter Text) → length (top_rows (some n) c) ≤ n + 1
length-top_rows n c = elim (Bool-cases (ltb n (length c))) [
  | inl cut ↦ rw cut (
      omega (
        arith,
        length-append (map plain (take n c)) (combined_row (drop n c)),
        length-map plain (take n c),
        length-take n c,
        length-combined_row (drop n c),
      ))
  | inr not_cut ↦ rw not_cut (ground (arith, length-map plain c))
]

-- A limit on the number of rows.
abbrev pub IsWithinTop : Option ℕ → List SectionRow → Type 0
IsWithinTop none rows = Unit
IsWithinTop (some n) rows = length rows ≤ n + 1

-- Whatever rows the file has, and whether only the top ones are kept: the total of a section is the
-- sum of the counts of the rows that it selects, the rows shown add up to the same total, that of
-- the combined ones included, and there is at most one more of them than are to be kept.
pub aggregate_section-total :
    (rows : List BreakdownRow) (s : Section) (top : Option ℕ)
    → ((aggregate_section rows s top).1 ≡ selected_sum s rows)
      × ((row_sum (aggregate_section rows s top).0 ≡ (aggregate_section rows s top).1)
          × IsWithinTop top (aggregate_section rows s top).0)
unfolding aggregate_section ordered_pairs
aggregate_section-total rows s top =
    let pairs = sort_by pair_leb (λ e. e) (section_counts s rows []) in
    (
      omega (arith, sort_by-sum (section_counts s rows []), section_counts-sum s rows []),
      (top_rows-sum top pairs, within top pairs),
    )
  where
    within : (top : Option ℕ) (pairs : Counter Text) → IsWithinTop top (top_rows top pairs)
    within none pairs = tt
    within (some n) pairs = length-top_rows n pairs
