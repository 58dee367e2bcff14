-- ===== src/Structs/Runs/Appended.antt =====
-- The result file over several runs.
use memsafedb.Prelude.{
  ◌≡◌, sym, ◌∙◌, Bool, true, false, Option, none, some, List, [], ◌∷◌, ◌++◌, append_assoc,
  append-nil, ◌⊎◌, inl, inr,
}
use memsafedb.Text.{Text}
use memsafedb.Structs.Runs.{header, result_file}

-- The file after runs with `--append`, one behind the other, from what it held before the first.
abbrev pub after_runs : Text → List Text → Text
after_runs file [] = file
after_runs file (lines ∷ more) = after_runs (result_file true (some file) lines) more

abbrev pub all_lines : List Text → Text
all_lines [] = []
all_lines (lines ∷ more) = lines ++ all_lines more

after_runs-all_lines :
    (file : Text) (runs : List Text) → after_runs file runs ≡ file ++ all_lines runs
unfolding result_file
after_runs-all_lines file [] = sym (append-nil file)
after_runs-all_lines file (lines ∷ more) =
    after_runs-all_lines (file ++ lines) more ∙ append_assoc file lines (all_lines more)

-- A first run that truncates the file or finds none, and any number of runs that append: the file
-- holds the header once, at its beginning, and then the lines of all runs in their order.
pub result_file-all_lines :
    (append : Bool) (old : Option Text) (first : Text) (runs : List Text)
    → (append ≡ false) ⊎ (old ≡ none)
    → after_runs (result_file append old first) runs ≡ header ++ all_lines (first ∷ runs)
unfolding result_file
result_file-all_lines false old first runs h =
    after_runs-all_lines (header ++ first) runs ∙ append_assoc header first (all_lines runs)
result_file-all_lines true none first runs h =
    after_runs-all_lines (header ++ first) runs ∙ append_assoc header first (all_lines runs)
result_file-all_lines true (some t) first runs (inl e) = cc
result_file-all_lines true (some t) first runs (inr e) = cc
