-- ===== src/BugStudy/Reports/Reading.antt =====
-- The loops over the result files of the repetitions, and the statistics that they print. What a
-- line holds is read as by `load_llm_results`.
pub mod Counted
use memsafedb.Prelude.{
  ℕ, suc, Bool, true, false, not, Option, none, some, List, [], ◌∷◌, ◌++◌, length, ltb, ◌==◌,
  if◌then◌else◌,
}
use memsafedb.Text.{Text, codes, show}
use memsafedb.Dict.{Counter, add, bump, lookup, update}
use memsafedb.Dict.Counters.{counter_sum}
use memsafedb.BugStudy.Json.{Json, bool, str, Fields, get_or, hashable, truthy, key_eq}
use memsafedb.BugStudy.Loading.{Rep, rep1, rep2, rep3, NamedResults, no_reps, set_rep, read_entry}

abbrev pub rep_number : Rep → ℕ
rep_number rep1 = 1
rep_number rep2 = 2
rep_number rep3 = 3

-- What the loop over the lines of a file keeps: `results`, `current_rep_stats`, and
-- `current_rep_mem_safety`.
pub record RepState : Type 0 where
  pub results : NamedResults
  pub stats : Counter Json
  pub mem_safety : List Json

unfoldable pub store : Rep → Json → Fields → RepState → RepState
unfolding update key_eq set_rep
store rep name c s = record s { results = update key_eq no_reps name (set_rep rep c) s.results }

abbrev issue_type_of : Fields → Json
issue_type_of c = get_or (codes "issue_type") (str (codes "unknown")) c

-- `if is_mem: current_rep_mem_safety.add(f_name)`
unfoldable pub flag : Json → Fields → RepState → RepState
unfolding add key_eq truthy get_or
flag name c s =
    if truthy (get_or (codes "is_memory_safety") (bool false) c)
    then record s { mem_safety = add key_eq name s.mem_safety }
    else s

-- `results[f_name]` raises at a name that cannot be hashed, and the handler goes on to the next line.
-- So does `current_rep_stats[issue_type] += 1` at such a type: the classification is stored, but
-- neither counted nor flagged.
unfoldable pub count_entry : Rep → Json → Fields → RepState → RepState
unfolding bump key_eq get_or
count_entry rep name c s =
    let stored = store rep name c s in
    if not (hashable name)
    then s
    else if hashable (issue_type_of c)
    then flag name c (record stored { stats = bump key_eq (issue_type_of c) stored.stats })
    else stored

-- The console's `print_stat` with `{pct:.2f}`: the text of `count / base * 100` is a parameter.
pub record Console : Type 0 where
  pub loads : Text → Option Json
  pub percent2 : ℕ → ℕ → Text

abbrev count_of : Text → Counter Json → ℕ
count_of t c = elim (lookup key_eq (str t) c) [ none ↦ 0 | some n ↦ n ]

abbrev pub bug_count : Counter Json → ℕ
bug_count c = count_of (codes "bug") c

abbrev pub prog_count : Counter Json → ℕ
prog_count c = count_of (codes "programmer_error") c

abbrev pub other_count : Counter Json → ℕ
other_count c = count_of (codes "other") c

-- What one repetition leaves: the lines printed, the set appended to `rep_sets`, and `results`.
pub record RepRead : Type 0 where
  pub printed : List Text
  pub mem_safety : List Json
  pub results : NamedResults

-- analyse_cve_results.py also counts the lines that hold a classification.
pub record CveRepState : Type 0 where
  pub total_examined : ℕ
  pub rep : RepState

-- An entry of `rep_stats_list`.
pub record RepStats : Type 0 where
  pub total : ℕ
  pub bugs : ℕ
  pub programmer_error : ℕ
  pub other : ℕ
  pub memory_safety : ℕ

pub record CveRepRead : Type 0 where
  pub read : RepRead
  pub stats : RepStats

unfoldable pub count_cve_entry : Rep → Json → Fields → CveRepState → CveRepState
unfolding count_entry
count_cve_entry rep name c s = record {
  total_examined = suc s.total_examined;
  rep = count_entry rep name c s.rep;
}

unfoldable pub rep_stats : CveRepState → RepStats
unfolding lookup key_eq
rep_stats s = record {
  total = s.total_examined;
  bugs = bug_count s.rep.stats;
  programmer_error = prog_count s.rep.stats;
  other = other_count s.rep.stats;
  memory_safety = length s.rep.mem_safety;
}

module _ (con : Console) where
  abbrev percent_of : ℕ → ℕ → Text
  percent_of count base = if ltb 0 base then con.percent2 count base else codes "0.00"

  unfoldable pub print_stat : Text → ℕ → ℕ → Text
  unfolding show
  print_stat label count base =
      codes "- "
      ++ (label
          ++ (codes ": " ++ (show count ++ (codes " (" ++ (percent_of count base ++ codes "%)")))))

  abbrev memory_safety_line : ℕ → ℕ → Text
  memory_safety_line mem bugs =
      codes "    of which "
      ++ (show mem ++ (codes " memory safety bugs (" ++ (percent_of mem bugs ++ codes "%)")))

  abbrev counted_lines : Counter Json → ℕ → ℕ → List Text
  counted_lines c mem total =
      print_stat (codes "bug") (bug_count c) total
      ∷ memory_safety_line mem (bug_count c)
      ∷ print_stat (codes "programmer_error") (prog_count c) total
      ∷ print_stat (codes "other") (other_count c) total
      ∷ []

  -- What is printed behind the file of a repetition.
  unfoldable pub stat_lines : Rep → RepState → List Text
  unfolding show lookup key_eq print_stat
  stat_lines rep s =
      let total = counter_sum s.stats in
      (codes "Rep " ++ (show (rep_number rep) ++ codes " Stats:"))
      ∷ ((if total == 0
            then codes "  No entries found." ∷ []
            else counted_lines s.stats (length s.mem_safety) total)
          ++ (codes "--------------------" ∷ []))

  unfoldable pub count_lines : Rep → List Text → RepState → RepState
  count_lines rep [] s = s
  count_lines rep (line ∷ lines) s =
      count_lines rep lines
        (elim (read_entry con.loads line) [ none ↦ s | some (name, c) ↦ count_entry rep name c s ])

  unfoldable pub read_rep : Text → Rep → Option (List Text) → NamedResults → RepRead
  unfolding count_lines stat_lines
  read_rep filename rep none results = record {
    printed = (codes "File " ++ (filename ++ codes " not found.")) ∷ [];
    mem_safety = [];
    results = results;
  }
  read_rep filename rep (some lines) results =
      let s = count_lines rep lines (record { results = results; stats = []; mem_safety = [] }) in
      record {
        printed = (codes "Reading " ++ (filename ++ codes "...")) ∷ stat_lines rep s;
        mem_safety = s.mem_safety;
        results = s.results;
      }

  unfoldable pub count_cve_lines : Rep → List Text → CveRepState → CveRepState
  count_cve_lines rep [] s = s
  count_cve_lines rep (line ∷ lines) s =
      count_cve_lines rep lines (elim (read_entry con.loads line) [
        | none ↦ s
        | some (name, c) ↦ count_cve_entry rep name c s
      ])

  unfoldable pub read_cve_rep : Text → Rep → Option (List Text) → NamedResults → CveRepRead
  unfolding count_cve_lines stat_lines rep_stats
  read_cve_rep filename rep none results = record {
    read = record {
      printed = (codes "File " ++ (filename ++ codes " not found.")) ∷ [];
      mem_safety = [];
      results = results;
    };
    stats = record { total = 0; bugs = 0; programmer_error = 0; other = 0; memory_safety = 0 };
  }
  read_cve_rep filename rep (some lines) results =
      let s = count_cve_lines rep lines (record {
        total_examined = 0;
        rep = record { results = results; stats = []; mem_safety = [] };
      }) in
      record {
        read = record {
          printed = (codes "Reading " ++ (filename ++ codes "...")) ∷ stat_lines rep s.rep;
          mem_safety = s.rep.mem_safety;
          results = s.rep.results;
        };
        stats = rep_stats s;
      }
