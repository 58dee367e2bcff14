-- ===== src/Tests/Studies.antt =====
-- The reports and exports of the bug study at concrete files.
use memsafedb.Prelude.{
  ◌≡◌, refl, ◌↔◌, ◌&&◌, true, false, Option, none, some, List, [], ◌∷◌, map, if◌then◌else◌,
}
use memsafedb.Text.{Text, codes, text_eq, lower}
use memsafedb.BugStudy.Json.{Json, num, str, bool, object, array, nil, item, end, field}
use memsafedb.BugStudy.Loading.{read_entry}
use memsafedb.BugStudy.Yearly.{Report, Summary}
use memsafedb.BugStudy.Reports.Ids.{get_id, comparable, sorted_ids, key_of}
use memsafedb.BugStudy.Reports.Reading.{count_entry, flag, store}
use memsafedb.BugStudy.Reports.Regions.{keywords, llm_rep1, llm_rep2, llm_rep3, Sets, keys}
use memsafedb.BugStudy.Reports.Regions.Exclusive.{
  region_count, in_some, where_in, exclusive_intersection-once,
}
use memsafedb.BugStudy.Reports.Bugs.{
  Files, Output, load, all_flagged, analyse_bugs, all_texts, names_of,
}
use memsafedb.BugStudy.Reports.Bugs.Outcome.{bug_key, IsReport, analyse_bugs-IsReport}
use memsafedb.BugStudy.Reports.Bugs.Raises.{analyse_bugs-none_iff}
use memsafedb.BugStudy.Export.{Summaries, active_cats, export_rows, Exported}
use memsafedb.BugStudy.Export.Columns.{AreColumns, active_cats-AreColumns}
use memsafedb.BugStudy.Export.Rows.{AreBlocks, export_rows-AreBlocks}

abbrev some_sets : Sets
some_sets keywords = codes "a" ∷ codes "b" ∷ []
some_sets llm_rep1 = codes "b" ∷ codes "c" ∷ []
some_sets llm_rep2 = codes "c" ∷ []
some_sets llm_rep3 = []

exclusive_intersection-once_example :
    region_count some_sets (codes "b")
    ≡ (if in_some (where_in some_sets (codes "b")) keys then 1 else 0)
exclusive_intersection-once_example = exclusive_intersection-once some_sets (codes "b")

-- The lines are the texts of the entries' names, all flagged.
abbrev parse : Text → Option Json
parse line =
    if text_eq line (codes "[]")
    then some (array (item (str (codes "bugs/10.json")) (item (str (codes "bugs/9.json")) nil)))
    else some (
        object (
          field (codes "file") (str line) (
            field (codes "classification")
              (object (
                field (codes "issue_type") (str (codes "bug"))
                  (field (codes "is_memory_safety") (bool true) end)))
              end)))

abbrev files : Text → Files
files line = record {
  console = record { loads = parse; percent2 = λ a b. [] };
  repr = λ v. [];
  matches = some (codes "[]");
  reps = λ rep. some (line ∷ []);
  content = λ path. none;
}

abbrev numbered : Files
numbered = files (codes "bugs/7.json")

abbrev output_of : Option Output → Output
output_of none = record { printed = []; written = [] }
output_of (some out) = out

flagged_three :
    sorted_ids (all_flagged (load numbered (codes "Redis")))
    ≡ some (codes "7" ∷ codes "9" ∷ codes "10" ∷ [])
unfolding load all_flagged sorted_ids read_entry count_entry flag store
flagged_three = refl

numbered_returns :
    analyse_bugs numbered (codes "Redis") ≡ some (output_of (analyse_bugs numbered (codes "Redis")))
unfolding analyse_bugs read_entry count_entry flag store
numbered_returns = refl

analyse_bugs-IsReport_example :
    (all_texts (names_of (load numbered (codes "Redis"))) ≡ true)
    × IsReport numbered
        (codes "Redis")
        (load numbered (codes "Redis"))
        (all_flagged (load numbered (codes "Redis")))
        (output_of (analyse_bugs numbered (codes "Redis"))).written
analyse_bugs-IsReport_example = analyse_bugs-IsReport numbered (codes "Redis") numbered_returns

-- One of the flagged reports has a name that is no number.
analyse_bugs-none_iff_example :
    (analyse_bugs (files (codes "bugs/x.json")) (codes "Redis") ≡ none) ↔ (
      (all_texts (names_of (load (files (codes "bugs/x.json")) (codes "Redis")))
        && comparable
            (map bug_key (all_flagged (load (files (codes "bugs/x.json")) (codes "Redis")))))
      ≡ false)
analyse_bugs-none_iff_example = analyse_bugs-none_iff (files (codes "bugs/x.json")) (codes "Redis")

mixed_ids :
    comparable (map bug_key (all_flagged (load (files (codes "bugs/x.json")) (codes "Redis"))))
    ≡ false
unfolding comparable load all_flagged read_entry count_entry flag store key_of get_id
mixed_ids = refl

-- A matches file that holds a number.
abbrev number_matched : Files
number_matched = record numbered {
  console = record {
    loads =
        λ line. if text_eq line (codes "[]") then some (array (item (num false 5 0) nil)) else none;
    percent2 = λ a b. [];
  };
}

number_raises : analyse_bugs number_matched (codes "Redis") ≡ none
unfolding analyse_bugs read_entry
number_raises = refl

abbrev two_databases : List Text
two_databases = codes "redis" ∷ codes "mysql" ∷ []

-- The second database's analysis raises, since one of its names is a number.
abbrev some_files : Text → Option Files
some_files dbms = if text_eq dbms (codes "mysql") then some number_matched else some numbered

abbrev crashes : Summary
crashes = record {
  total = 9;
  llm_memsafe = 3;
  implications_unanimous = (str (codes "system_crash"), 2) ∷ (str (codes "data_loss"), 1) ∷ [];
}

abbrev summaries : Summaries
summaries = (codes "Redis", crashes) ∷ []

active_cats-AreColumns_example : AreColumns summaries (active_cats summaries)
active_cats-AreColumns_example = active_cats-AreColumns summaries

abbrev two_years : Text → Option Report
two_years dbms = some (
  (2020, record { total = 3; llm_memsafe = 1; keyword_memsafe = 0 })
      ∷ (2019, record { total = 4; llm_memsafe = 0; keyword_memsafe = 2 })
      ∷ [],
  crashes,
)

abbrev exported_of : Option Exported → Exported
exported_of none = ([], [])
exported_of (some e) = e

two_exported :
    export_rows lower two_years two_databases
    ≡ some (exported_of (export_rows lower two_years two_databases))
unfolding export_rows
two_exported = refl

export_rows-AreBlocks_example :
    AreBlocks lower two_years two_databases
      (exported_of (export_rows lower two_years two_databases))
export_rows-AreBlocks_example = export_rows-AreBlocks lower two_years two_databases two_exported
