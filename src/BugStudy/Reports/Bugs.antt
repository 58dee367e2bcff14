-- ===== src/BugStudy/Reports/Bugs.antt =====
-- `main` of analyse_bug_results.py. Messages that hold the text of an exception are left out of what
-- is printed; a report keeps the lines that its parts hold.
pub mod Outcome
pub mod Raises
use memsafedb.Prelude.{
  ℕ, suc, ◌+◌, Bool, true, false, ◌&&◌, if◌then◌else◌, Option, none, some, List, [], ◌∷◌, ◌++◌, map,
  length,
}
use memsafedb.Text.{Text, codes, show, newline, join_lines}
use memsafedb.BugStudy.Json.{Json, str}
use memsafedb.BugStudy.Loading.{Rep, rep1, rep2, rep3, load_keyword_matches}
use memsafedb.BugStudy.Reports.Ids.{sorted_ids, sorted_bugs}
use memsafedb.BugStudy.Reports.Reading.{Console, RepRead, read_rep, rep_number}
use memsafedb.BugStudy.Reports.Regions.{
  Key, keywords, llm_rep1, llm_rep2, llm_rep3, Sets, combos_down, regions_lines, union,
}
use memsafedb.BugStudy.Reports.Parts.{chunks}
use memsafedb.BugStudy.Reports.Entries.{bug_of, bug_lines}

-- The files that the script reads, and the texts that Python makes of numbers.
pub record Files : Type 0 where
  pub console : Console
  pub repr : Json → Text
  pub matches : Option Text
  pub reps : Rep → Option (List Text)
  pub content : Text → Option Json

-- What the script prints and writes.
pub record Output : Type 0 where
  pub printed : List Text
  pub written : List (Text × Text)

pub record Loaded : Type 0 where
  pub matches : List Json
  pub first : RepRead
  pub second : RepRead
  pub third : RepRead

-- The texts among the names.
abbrev pub texts_in : List Json → List Text
texts_in [] = []
texts_in (str t ∷ names) = t ∷ texts_in names
texts_in (name ∷ names) = texts_in names

abbrev only_texts : List Json → Bool
only_texts [] = true
only_texts (str t ∷ names) = only_texts names
only_texts (name ∷ names) = false

-- Is each name that was flagged a text?
unfoldable pub all_texts : List (List Json) → Bool
all_texts [] = true
all_texts (names ∷ more) = only_texts names && all_texts more

-- The sets of names, in the order of `sets`.
abbrev pub names_of : Loaded → List (List Json)
names_of l = l.matches ∷ l.first.mem_safety ∷ l.second.mem_safety ∷ l.third.mem_safety ∷ []

-- The sets, as `main` goes on with them where all names are texts.
abbrev pub sets_of : Loaded → Sets
sets_of l keywords = texts_in l.matches
sets_of l llm_rep1 = texts_in l.first.mem_safety
sets_of l llm_rep2 = texts_in l.second.mem_safety
sets_of l llm_rep3 = texts_in l.third.mem_safety

-- `set.union(keyword_matches, *rep_sets)`
unfoldable pub all_flagged : Loaded → List Text
unfolding union
all_flagged l =
    union (sets_of l keywords) (sets_of l llm_rep1 ∷ sets_of l llm_rep2 ∷ sets_of l llm_rep3 ∷ [])

abbrev results_dir : Text
results_dir = codes "memsafedb_bugs/bug_results/"

module _ (files : Files) (dbms : Text) where
  abbrev rep_file : Rep → Text
  rep_file rep = results_dir ++ (dbms ++ (codes "_rep" ++ (show (rep_number rep) ++ codes ".json")))

  unfoldable pub load : Loaded
  unfolding load_keyword_matches read_rep show
  load =
      let first = read_rep files.console (rep_file rep1) rep1 (files.reps rep1) [] in
      let second = read_rep files.console (rep_file rep2) rep2 (files.reps rep2) first.results in
      record {
        matches = load_keyword_matches files.console.loads files.matches;
        first = first;
        second = second;
        third = read_rep files.console (rep_file rep3) rep3 (files.reps rep3) second.results;
      }

  abbrev not_found : Option Text → List Text
  not_found none =
      (codes "Warning: "
        ++ (results_dir
            ++ (codes "matches_"
                ++ (dbms ++ codes ".json not found. Assuming no keyword matches."))))
      ∷ []
  not_found (some t) = []

  unfoldable pub load_lines : Loaded → List Text
  load_lines l =
      (codes "Analyzing results for " ++ (dbms ++ codes "..."))
      ∷ (not_found files.matches
          ++ (l.first.printed
              ++ (l.second.printed
                  ++ (l.third.printed
                      ++ ((newline ∷ codes "Intersection of ALL sets (Keywords AND All LLM Reps):")
                          ∷ [])))))

  -- One part of the report.
  unfoldable pub chunk_lines : Loaded → List Text → List Text
  unfolding bug_lines bug_of
  chunk_lines l [] = []
  chunk_lines l (bug_file ∷ more) =
      bug_lines files.repr (texts_in l.matches) l.third.results bug_file
        (bug_of (files.content bug_file))
      ++ chunk_lines l more

  -- The lines of the whole report, which `main` also builds, and does not write.
  unfoldable pub report_lines : Loaded → List Text → List Text
  unfolding bug_lines bug_of
  report_lines l [] = []
  report_lines l (bug_file ∷ more) =
      bug_lines files.repr (texts_in l.matches) l.third.results bug_file
        (bug_of (files.content bug_file))
      ++ report_lines l more

  abbrev out_name : ℕ → Text
  out_name i =
      results_dir ++ (codes "report_" ++ (dbms ++ (codes "_part" ++ (show i ++ codes ".txt"))))

  -- The loop over the parts, from the part `i`.
  unfoldable pub write_parts : Loaded → ℕ → List (List Text) → Output
  unfolding chunk_lines show join_lines
  write_parts l i [] = record { printed = []; written = [] }
  write_parts l i (chunk_bugs ∷ more) =
      let rest = write_parts l (suc i) more in
      record {
        printed =
            (codes "Wrote " ++ (show (length chunk_bugs) ++ (codes " bugs to " ++ out_name i)))
            ∷ rest.printed;
        written = (out_name i, join_lines (chunk_lines l chunk_bugs)) ∷ rest.written;
      }

  abbrev pub after : List Text → Output → Output
  after lines out = record out { printed = lines ++ out.printed }

  -- The detailed report; `none` where the sort raises.
  unfoldable pub report : Loaded → List Text → Option Output
  unfolding sorted_bugs write_parts chunks
  report l [] =
      some
        (record { printed = codes "No memory safety issues found to report." ∷ []; written = [] })
  report l (x ∷ flagged) = elim (sorted_bugs (x ∷ flagged)) [
    | none ↦ none
    | some bugs ↦ some (write_parts l 1 (chunks bugs))
  ]

  abbrev pub report_after : List Text → Loaded → Option Output
  report_after lines l = elim (report l (all_flagged l)) [
    | none ↦ none
    | some out ↦ some (after lines out)
  ]

  -- What is printed before the report, `lines` for the regions.
  abbrev pub before_report : Loaded → List Text → List Text
  before_report l lines =
      load_lines l ++ (lines ++ ((newline ∷ codes "Generating Detailed Reports...") ∷ []))

  -- What `main` does with texts; `none` where a sort raises.
  unfoldable pub analyse_texts : Loaded → Option Output
  unfolding load_lines regions_lines combos_down report all_flagged sorted_ids
  analyse_texts l = elim (regions_lines sorted_ids (sets_of l) (combos_down 4)) [
    | none ↦ none
    | some lines ↦ report_after (before_report l lines) l
  ]

  -- `main`; `none` where it raises `TypeError`, which nothing catches. A name that is no text stands
  -- in one of the regions, and `get_id` raises when that region is printed, if nothing raises before.
  unfoldable pub analyse_bugs : Option Output
  unfolding load all_texts analyse_texts
  analyse_bugs =
      let l = load in
      let analysed = analyse_texts l in if all_texts (names_of l) then analysed else none
