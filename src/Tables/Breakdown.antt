-- ===== src/Tables/Breakdown.antt =====
-- plots/compiler_instruction_breakdown_table.py. A row has its count read; the two texts of a share
-- of floats are parameters.
pub mod Kept
use memsafedb.Prelude.{
  ℕ, zero, suc, ◌+◌, ◌-◌, ◌*◌, ◌/◌, ◌%◌, Bool, true, false, not, ◌&&◌, ◌||◌, Option, none, some,
  List, [], ◌∷◌, ◌++◌, map, take, drop, length, ltb, leb, ◌==◌, if◌then◌else◌,
}
use memsafedb.Text.{Text, codes, show, strip, text_eq, join_lines, is_digit}
use memsafedb.Dict.{Counter, update, member}
use memsafedb.Dict.Counters.{counter_sum}
use memsafedb.Sorting.{sort_by}
use memsafedb.Instructions.Table.{text_leb}
use memsafedb.BugStudy.Reports.Regions.{join}
use memsafedb.Scrape.Cves.{int_digits, unsigned}

pub record BreakdownRow : Type 0 where
  pub mechanism : Text
  pub component : Text
  pub category : Text
  pub mnemonic : Text
  pub count : ℕ

-- An entry of SECTION_SPECS.
pub record Section : Type 0 where
  pub mechanism : Text
  pub components : List Text
  pub category : Text
  pub title : Text
  pub color : Text

abbrev pub section_specs : List Section
section_specs =
    record {
      mechanism = codes "cheri";
      components = codes "binary" ∷ [];
      category = codes "capability-operand";
      title = codes "CHERI capability operands";
      color = codes "warn";
    }
    ∷ record {
      mechanism = codes "cheri";
      components = codes "binary" ∷ [];
      category = codes "new-instruction";
      title = codes "CHERI new instructions";
      color = codes "warn";
    }
    ∷ record {
      mechanism = codes "mte";
      components = codes "binary" ∷ codes "glibc" ∷ [];
      category = codes "new-instruction";
      title = codes "MTE instructions";
      color = codes "good";
    }
    ∷ []

-- The number of rows that are kept: all of them (`none`), or some; an error is the outer `none`.
abbrev positive : Option ℕ → Option (Option ℕ)
positive none = none
positive (some zero) = none
positive (some (suc n)) = some (some (suc n))

unfoldable pub parse_top : Text → Option (Option ℕ)
unfolding text_eq strip int_digits
parse_top value =
    if text_eq value (codes "all")
    then some none
    else positive (int_digits false 0 (unsigned (strip value)))

unfoldable pub latex_escape : Text → Text
latex_escape [] = []
latex_escape (c ∷ t) =
    let rest = latex_escape t in if c == b'_' then codes "\\_" ++ rest else c ∷ rest

-- `\texttt{…}`
abbrev texttt : Text → Text
texttt mnemonic = codes "\\texttt{" ++ (latex_escape mnemonic ++ codes "}")

unfoldable pub format_combined_label : List Text → Text
unfolding latex_escape join
format_combined_label mnemonics = join (codes ", ") (map texttt mnemonics)

-- A row of a section, and the label of those that are combined.
pub record SectionRow : Type 0 where
  pub mnemonic : Text
  pub count : ℕ
  pub combined : Option Text

abbrev pub selected : Section → BreakdownRow → Bool
selected s r =
    text_eq r.mechanism s.mechanism
    && (member text_eq r.component s.components && text_eq r.category s.category)

-- The counts by mnemonic.
unfoldable pub section_counts : Section → List BreakdownRow → Counter Text → Counter Text
unfolding update text_eq member
section_counts s [] counts = counts
section_counts s (r ∷ rows) counts =
    section_counts s rows
      (if selected s r then update text_eq 0 r.mnemonic (λ n. n + r.count) counts else counts)

-- `(-item[1], item[0])`: the larger count first, then by the mnemonic
unfoldable pub pair_leb : Text × ℕ → Text × ℕ → Bool
unfolding text_leb
pair_leb (j, m) (k, n) = ltb n m || (m == n && text_leb j k)

unfoldable pub ordered_pairs : Counter Text → Counter Text
unfolding sort_by pair_leb
ordered_pairs counts = sort_by pair_leb (λ e. e) counts

abbrev pub plain : Text × ℕ → SectionRow
plain (mnemonic, count) = record { mnemonic = mnemonic; count = count; combined = none }

abbrev names : Counter Text → List Text
names = map (λ (k, n). k)

-- The rows that are left are summed into one, if their sum is not 0.
unfoldable pub combined_row : Counter Text → List SectionRow
unfolding format_combined_label
combined_row remaining =
    if counter_sum remaining == 0
    then []
    else record {
      mnemonic = codes "__combined__";
      count = counter_sum remaining;
      combined = some (format_combined_label (names remaining));
    }
      ∷ []

abbrev pub top_rows : Option ℕ → Counter Text → List SectionRow
top_rows none pairs = map plain pairs
top_rows (some n) pairs =
    if ltb n (length pairs)
    then map plain (take n pairs) ++ combined_row (drop n pairs)
    else map plain pairs

-- The rows of a section, and their total.
unfoldable pub aggregate_section : List BreakdownRow → Section → Option ℕ → List SectionRow × ℕ
unfolding section_counts ordered_pairs combined_row
aggregate_section rows s top_n =
    let pairs = ordered_pairs (section_counts s rows []) in
    (top_rows top_n pairs, counter_sum pairs)

-- `max(12, min(82, n))`
unfoldable pub clamped : ℕ → ℕ
clamped n = if ltb 82 n then 82 else if ltb n 12 then 12 else n

abbrev zeros : ℕ → Text → Text
zeros n t = if ltb n 10 then codes "00" ++ t else if ltb n 100 then codes "0" ++ t else t

-- `f"{n:,}"`: each round takes three digits, and a number has fewer digits than its own value plus
-- one.
unfoldable pub grouped : ℕ → ℕ → Text
unfolding show
grouped zero n = []
grouped (suc fuel) n =
    let rest = grouped fuel (n / 1000) in
    if ltb n 1000 then show n else rest ++ (codes "," ++ zeros (n % 1000) (show (n % 1000)))

-- The texts of floats: `int(round(12 + 70 * a / b))`, and `a / b * 100` with one digit.
pub record Shares : Type 0 where
  pub intensity : ℕ → ℕ → ℕ
  pub percent1 : ℕ → ℕ → Text

module _ (shares : Shares) where
  unfoldable pub format_count_cell : ℕ → ℕ → Text → Text
  unfolding clamped grouped show
  format_count_cell count total color =
      codes "\\cellcolor{"
      ++ (color
          ++ (codes "!"
              ++ (show (clamped (shares.intensity count total))
                  ++ (codes "!white} "
                      ++ (grouped (suc count) count
                          ++ (codes " (" ++ (shares.percent1 count total ++ codes "\\%)")))))))

  abbrev row_name : SectionRow → Text
  row_name r =
      if text_eq r.mnemonic (codes "__combined__")
      then elim r.combined [ none ↦ codes "None" | some label ↦ label ]
      else texttt r.mnemonic

  unfoldable pub row_lines : List SectionRow → ℕ → Text → List Text
  unfolding latex_escape format_count_cell text_eq
  row_lines [] total color = []
  row_lines (r ∷ rows) total color =
      (codes "        "
        ++ (row_name r
            ++ (codes " & " ++ (format_count_cell r.count total color ++ codes " \\\\"))))
      ∷ row_lines rows total color

  abbrev midrule : Text
  midrule = codes "        \\midrule"

  -- A section is left out if it has no row, or no count.
  unfoldable pub sections_lines : List BreakdownRow → Option ℕ → Bool → List Section → List Text
  unfolding aggregate_section row_lines
  sections_lines rows top_n emitted [] = []
  sections_lines rows top_n emitted (s ∷ more) =
      let section = aggregate_section rows s top_n in
      let skipped = sections_lines rows top_n emitted more in
      let rest = sections_lines rows top_n true more in
      if length section.0 == 0 || section.1 == 0
      then skipped
      else (if emitted then midrule ∷ [] else [])
        ++ ((codes "        \\multicolumn{2}{@{}l}{\\textbf{" ++ (s.title ++ codes "}} \\\\"))
            ∷ midrule
            ∷ (row_lines section.0 section.1 s.color ++ rest))

  -- The table ends in a line break.
  unfoldable pub build_table : List BreakdownRow → Option ℕ → Text
  unfolding sections_lines join_lines
  build_table rows top_n = join_lines (
      codes "\\begin{table}[t]"
      ∷ codes "    \\centering"
      ∷ codes "    \\footnotesize"
      ∷ codes "    \\begin{tabularx}{\\columnwidth}{@{}Xr@{}}"
      ∷ codes "        \\toprule"
      ∷ codes "        \\textbf{Instruction} & \\textbf{Count} \\\\"
      ∷ midrule
      ∷ (sections_lines rows top_n false section_specs
          ++ (codes "        \\bottomrule"
              ∷ codes "    \\end{tabularx}"
              ∷ codes
                  "    \\caption{Instruction breakdown aggregated across evaluated systems. When a top-$N$ cutoff is used, remaining instructions are summed into \\texttt{Other}.}"
              ∷ codes "    \\label{tab:compiler-instruction-breakdown}"
              ∷ codes "\\end{table}"
              ∷ []
              ∷ [])))
