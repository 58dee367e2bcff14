-- ===== src/Tables/BugClasses/Latex.antt =====
-- The LaTeX table, and the summary that is printed.
use memsafedb.Prelude.{
  ℕ, ◌||◌, Bool, true, false, Option, some, List, [], ◌∷◌, ◌++◌, ◌>>=◌, map, if◌then◌else◌,
}
use memsafedb.Text.{Text, codes, show, join_lines, text_eq}
use memsafedb.BugStudy.Reports.Regions.{join}
use memsafedb.BugStudy.Reports.Cumulative.{pad_left, pad_right}
use memsafedb.Tables.BugClasses.{
  Config, baseline, mte, cheri, Classes, cases_of, Cell, c_trap, c_partial, c_libc, c_os, c_crash,
  c_miss, c_noos, aggregate,
}

abbrev columns : List Config
columns = baseline ∷ mte ∷ cheri ∷ []

abbrev config_name : Config → Text
config_name baseline = codes "baseline"
config_name mte = codes "mte"
config_name cheri = codes "cheri"

abbrev heading : Config → Text
heading baseline = codes "\\textbf{Baseline}"
heading mte = codes "\\textbf{MTE}"
heading cheri = codes "\\textbf{CHERI}"

-- The classes of the table, with their LaTeX labels.
abbrev table_rows : List (Text × Text)
table_rows =
    (codes "Heap buffer overflow", codes "Heap buffer overflow")
    ∷ (codes "Stack/global buffer overflow", codes "Stack/global buffer overflow")
    ∷ (codes "Out-of-bounds read/write", codes "Out-of-bounds read/write")
    ∷ (codes "Integer overflow to corruption", codes "Integer overflow $\\to$ corruption")
    ∷ (codes "Use-after-free", codes "Use-after-free")
    ∷ (codes "Double/invalid free", codes "Double/invalid free")
    ∷ (codes "Null pointer dereference", codes "Null pointer dereference")
    ∷ (codes "Uninitialized memory access", codes "Uninitialized memory access")
    ∷ []

-- A note of PARTIAL_NOTES: a text, or the percentages.
abbrev percentages : List ℕ → Bool → Text
percentages probs latex =
    join (codes "--") (map show probs) ++ (if latex then codes "\\%" else codes "%")

unfoldable pub partial_note : Text → Config → List ℕ → Bool → Text
unfolding text_eq join show
partial_note cls mte probs latex =
    if text_eq cls (codes "Heap buffer overflow")
    then codes "into next object"
    else if text_eq cls (codes "Out-of-bounds read/write") || text_eq cls (codes "Use-after-free")
    then percentages probs latex
    else if text_eq cls (codes "Double/invalid free")
    then codes "double free only"
    else codes "some cases"
partial_note cls config probs latex = codes "some cases"

unfoldable pub latex_cell : Text → Config → Cell × List ℕ → Text
unfolding partial_note
latex_cell cls config (c_trap, probs) = codes "\\BcTrap"
latex_cell cls config (c_partial, probs) =
    codes "\\BcPartial{" ++ (partial_note cls config probs true ++ codes "}")
latex_cell cls config (c_libc, probs) = codes "\\BcLibc"
latex_cell cls config (c_os, probs) = codes "\\BcOSFault"
latex_cell cls config (c_crash, probs) = codes "\\BcCrash"
latex_cell cls config (c_miss, probs) = codes "\\BcSilent"
latex_cell cls config (c_noos, probs) = codes "\\BcNoOS"

unfoldable pub summary_cell : Text → Config → Cell × List ℕ → Text
unfolding partial_note
summary_cell cls config (c_trap, probs) = codes "trap"
summary_cell cls config (c_partial, probs) =
    codes "partial (" ++ (partial_note cls config probs false ++ codes ")")
summary_cell cls config (c_libc, probs) = codes "libc"
summary_cell cls config (c_os, probs) = codes "os"
summary_cell cls config (c_crash, probs) = codes "crash"
summary_cell cls config (c_miss, probs) = codes "miss"
summary_cell cls config (c_noos, probs) = codes "noos"

module _ (data_of : Config → Classes) where
  -- The cells of a class; `none` where a configuration has no case of it, at which the script exits.
  unfoldable pub class_cells :
      (Text → Config → Cell × List ℕ → Text) → Text → List Config → Option (List Text)
  unfolding aggregate cases_of
  class_cells cell cls [] = some []
  class_cells cell cls (config ∷ configs) = do
    result ← aggregate config cls (cases_of data_of config cls)
    cells ← class_cells cell cls configs
    some (cell cls config result ∷ cells)

  unfoldable pub latex_rows : List (Text × Text) → Option (List Text)
  unfolding class_cells latex_cell join
  latex_rows [] = some []
  latex_rows ((cls, label) ∷ more) = do
    cells ← class_cells latex_cell cls columns
    rest ← latex_rows more
    some ((label ++ (codes " & " ++ (join (codes " & ") cells ++ codes " \\\\"))) ∷ rest)

  unfoldable pub build_latex : Option Text
  unfolding latex_rows join
  build_latex = do
    rows ← latex_rows table_rows
    some (
        join_lines (
          codes "\\begin{tabular}{@{}lccc@{}}"
          ∷ codes "\\toprule"
          ∷ (codes "\\textbf{Bug class} & "
              ++ (join (codes " & ") (map heading columns) ++ codes " \\\\"))
          ∷ codes "\\midrule"
          ∷ (rows ++ (codes "\\bottomrule" ∷ codes "\\end{tabular}" ∷ [] ∷ []))))

  abbrev padded : List Text → Text
  padded [] = []
  padded (t ∷ ts) = pad_left 26 t ++ padded ts

  unfoldable pub summary_rows : List (Text × Text) → Option (List Text)
  unfolding class_cells summary_cell pad_left pad_right
  summary_rows [] = some []
  summary_rows ((cls, label) ∷ more) = do
    cells ← class_cells summary_cell cls columns
    rest ← summary_rows more
    some ((pad_right 32 cls ++ padded cells) ∷ rest)

  unfoldable pub print_summary : Option (List Text)
  unfolding summary_rows pad_left pad_right
  print_summary = do
    rows ← summary_rows table_rows
    some ((pad_right 32 (codes "class") ++ padded (map config_name columns)) ∷ rows)
