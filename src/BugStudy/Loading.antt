-- ===== src/BugStudy/Loading.antt =====
-- `load_llm_results` and `load_keyword_matches` of the two export scripts, which are alike, over
-- the contents of the files. A name is any value that can be hashed, as in the source, which does
-- not ask for a text.
use memsafedb.Prelude.{Option, none, some, List, [], ◌∷◌, if◌then◌else◌}
use memsafedb.Text.{Text, codes, strip, is_empty}
use memsafedb.BugStudy.Json.{
  Json, str, array, object, Items, nil, item, Fields, truthy, hashable, get, key_eq,
}
use memsafedb.Dict.{update, add}

pub data Rep : Type 0 where
  rep1 rep2 rep3 : Rep

-- The classifications of one report, by repetition.
pub record Reps : Type 0 where
  pub first : Option Fields
  pub second : Option Fields
  pub third : Option Fields

abbrev pub no_reps : Reps
no_reps = record { first = none; second = none; third = none }

-- `results[f_name][f"rep{rep}"] = classification`
unfoldable pub set_rep : Rep → Fields → Reps → Reps
set_rep rep1 c r = record r { first = some c }
set_rep rep2 c r = record r { second = some c }
set_rep rep3 c r = record r { third = some c }

abbrev pub Results : Type 0
Results = List (Text × Reps)

-- The results as they are loaded, by any names.
abbrev pub NamedResults : Type 0
NamedResults = List (Json × Reps)

abbrev fields_of : Option Json → Option Fields
fields_of (some (object fs)) = some fs
fields_of _ = none

-- `entry.get('file')`, if it is true
abbrev name_of : Option Json → Option Json
name_of none = none
name_of (some v) = if truthy v then some v else none

module _ (loads : Text → Option Json) where
  -- The classification of an entry: an object, or a text that parses to one. An empty object is
  -- passed over, but not one that a text held.
  unfoldable pub classification_of : Option Json → Option Fields
  unfolding truthy
  classification_of none = none
  classification_of (some (str t)) = if is_empty t then none else fields_of (loads t)
  classification_of (some (object fs)) = if truthy (object fs) then some fs else none
  classification_of (some _) = none

  -- The name and the classification of a line, if it has both.
  unfoldable pub read_entry : Text → Option (Json × Fields)
  unfolding strip classification_of get truthy
  read_entry raw =
      let line = strip raw in
      if is_empty line then none else elim (fields_of (loads line)) [
        | none ↦ none
        | some entry ↦ elim (name_of (get (codes "file") entry)) [
          | none ↦ none
          | some name ↦ elim (classification_of (get (codes "classification") entry)) [
            | none ↦ none
            | some c ↦ some (name, c)
          ]
        ]
      ]

  -- A name that cannot be hashed raises, and the line is passed over.
  abbrev stored : Rep → Json → Fields → NamedResults → NamedResults
  stored rep name c results =
      if hashable name then update key_eq no_reps name (set_rep rep c) results else results

  unfoldable pub read_lines : Rep → List Text → NamedResults → NamedResults
  unfolding read_entry update key_eq set_rep
  read_lines rep [] results = results
  read_lines rep (line ∷ lines) results =
      read_lines rep lines
        (elim (read_entry line) [ none ↦ results | some (name, c) ↦ stored rep name c results ])

  -- A file that is not there leaves the results as they are.
  abbrev read_file : Rep → Option (List Text) → NamedResults → NamedResults
  read_file rep none results = results
  read_file rep (some lines) results = read_lines rep lines results

  unfoldable pub load_llm_results : (Rep → Option (List Text)) → NamedResults
  unfolding read_lines
  load_llm_results files =
      read_file rep3 (files rep3) (read_file rep2 (files rep2) (read_file rep1 (files rep1) []))

  -- `set(data)`, behind the values read before; `none` where a value cannot be hashed.
  unfoldable pub set_of : Items → List Json → Option (List Json)
  unfolding add key_eq
  set_of nil s = some s
  set_of (item v vs) s = let rest = set_of vs (add key_eq v s) in if hashable v then rest else none

  abbrev or_empty : Option (List Json) → List Json
  or_empty none = []
  or_empty (some s) = s

  abbrev match_set : Option Json → List Json
  match_set (some (array vs)) = or_empty (set_of vs [])
  match_set _ = []

  unfoldable pub load_keyword_matches : Option Text → List Json
  unfolding strip set_of
  load_keyword_matches none = []
  load_keyword_matches (some file) =
      let content = strip file in if is_empty content then [] else match_set (loads content)

  -- The same two functions of export_cve_results_to_csv.py, which read files of other names.
  unfoldable pub load_cve_llm_results : (Rep → Option (List Text)) → NamedResults
  unfolding load_llm_results
  load_cve_llm_results files = load_llm_results files

  unfoldable pub load_cve_keyword_matches : Option Text → List Json
  unfolding load_keyword_matches
  load_cve_keyword_matches file = load_keyword_matches file
