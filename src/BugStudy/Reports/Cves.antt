-- ===== src/BugStudy/Reports/Cves.antt =====
-- `analyse_dbms` of analyse_cve_results.py, as of analyse_bug_results.py: the messages that hold the
-- text of an exception are left out, and so is the base of the directories. `opens` says which of the
-- files can be opened to be written.
pub mod Totals
use memsafedb.Prelude.{
  ℕ, suc, ◌+◌, Bool, true, false, if◌then◌else◌, Option, none, some, List, [], ◌∷◌, ◌++◌, length,
}
use memsafedb.Text.{Text, codes, show, newline, join_lines}
use memsafedb.BugStudy.Json.{Json}
use memsafedb.BugStudy.Loading.{Rep, rep1, rep2, rep3, load_keyword_matches}
use memsafedb.BugStudy.Reports.Ids.{sorted_cve_ids, sorted_cves}
use memsafedb.BugStudy.Reports.Reading.{CveRepRead, RepStats, read_cve_rep, rep_number}
use memsafedb.BugStudy.Reports.Regions.{
  Key, keywords, llm_rep1, llm_rep2, llm_rep3, Sets, combos_down, regions_lines, union,
}
use memsafedb.BugStudy.Reports.Parts.{chunks}
use memsafedb.BugStudy.Reports.Entries.{cve_of, cve_lines}
use memsafedb.BugStudy.Reports.Bugs.{Files, Output, texts_in, all_texts}

pub record CveLoaded : Type 0 where
  pub matches : List Json
  pub first : CveRepRead
  pub second : CveRepRead
  pub third : CveRepRead

-- What is appended to `cumulative_stats`.
pub record DbmsStats : Type 0 where
  pub dbms : Text
  pub keyword_matches : ℕ
  pub rep1_stats : RepStats
  pub rep2_stats : RepStats
  pub rep3_stats : RepStats

unfoldable pub stats_of : Text → CveLoaded → DbmsStats
stats_of dbms l = record {
  dbms = dbms;
  keyword_matches = length l.matches;
  rep1_stats = l.first.stats;
  rep2_stats = l.second.stats;
  rep3_stats = l.third.stats;
}

abbrev pub cve_sets : CveLoaded → Sets
cve_sets l keywords = texts_in l.matches
cve_sets l llm_rep1 = texts_in l.first.read.mem_safety
cve_sets l llm_rep2 = texts_in l.second.read.mem_safety
cve_sets l llm_rep3 = texts_in l.third.read.mem_safety

abbrev pub cve_names_of : CveLoaded → List (List Json)
cve_names_of l =
    l.matches ∷ l.first.read.mem_safety ∷ l.second.read.mem_safety ∷ l.third.read.mem_safety ∷ []

unfoldable pub all_flagged_cves : CveLoaded → List Text
unfolding union
all_flagged_cves l =
    union (cve_sets l keywords)
      (cve_sets l llm_rep1 ∷ cve_sets l llm_rep2 ∷ cve_sets l llm_rep3 ∷ [])

abbrev double_line : Text
double_line = codes "============================================================"

module _ (files : Files) (opens : Text → Bool) (dbms : Text) where
  abbrev rep_file : Rep → Text
  rep_file rep = dbms ++ (codes "_cve_rep" ++ (show (rep_number rep) ++ codes ".json"))

  unfoldable pub load_cves : CveLoaded
  unfolding load_keyword_matches read_cve_rep show
  load_cves =
      let first = read_cve_rep files.console (rep_file rep1) rep1 (files.reps rep1) [] in
      let second =
        read_cve_rep files.console (rep_file rep2) rep2 (files.reps rep2) first.read.results in
      record {
        matches = load_keyword_matches files.console.loads files.matches;
        first = first;
        second = second;
        third =
            read_cve_rep files.console (rep_file rep3) rep3 (files.reps rep3) second.read.results;
      }

  abbrev not_found : Option Text → List Text
  not_found none =
      (codes "Warning: matches_"
        ++ (dbms ++ codes "_cve.json not found. Assuming no keyword matches."))
      ∷ []
  not_found (some t) = []

  unfoldable pub load_cve_lines : CveLoaded → List Text
  load_cve_lines l =
      (newline ∷ double_line)
      ∷ (codes "Analyzing CVE results for " ++ (dbms ++ codes "..."))
      ∷ double_line
      ∷ (not_found files.matches
          ++ (l.first.read.printed
              ++ (l.second.read.printed
                  ++ (l.third.read.printed
                      ++ ((newline ∷ codes "Intersection of ALL sets (Keywords AND All LLM Reps):")
                          ∷ [])))))

  unfoldable pub cve_chunk_lines : CveLoaded → List Text → List Text
  unfolding cve_lines cve_of
  cve_chunk_lines l [] = []
  cve_chunk_lines l (cve_file ∷ more) =
      cve_lines files.repr (texts_in l.matches) l.third.read.results cve_file
        (cve_of (files.content cve_file))
      ++ cve_chunk_lines l more

  abbrev out_name : ℕ → Text
  out_name i = codes "report_" ++ (dbms ++ (codes "_cve_part" ++ (show i ++ codes ".txt")))

  abbrev with_part : CveLoaded → ℕ → List Text → Output → Output
  with_part l i chunk_cves rest = record {
    printed =
        (codes "Wrote " ++ (show (length chunk_cves) ++ (codes " CVEs to " ++ out_name i)))
        ∷ rest.printed;
    written = (out_name i, join_lines (cve_chunk_lines l chunk_cves)) ∷ rest.written;
  }

  -- `none` where `open` raises
  unfoldable pub write_cve_parts : CveLoaded → ℕ → List (List Text) → Option Output
  unfolding cve_chunk_lines show join_lines
  write_cve_parts l i [] = some (record { printed = []; written = [] })
  write_cve_parts l i (chunk_cves ∷ more) =
      let rest = write_cve_parts l (suc i) more in
      if opens (out_name i)
      then elim rest [ none ↦ none | some out ↦ some (with_part l i chunk_cves out) ]
      else none

  unfoldable pub cve_report : CveLoaded → List Text → Option Output
  unfolding sorted_cves write_cve_parts chunks
  cve_report l [] =
      some
        (record { printed = codes "No memory safety issues found to report." ∷ []; written = [] })
  cve_report l (x ∷ flagged) = write_cve_parts l 1 (chunks (sorted_cves (x ∷ flagged)))

  abbrev region_part : Option (List Text) → List Text
  region_part none = []
  region_part (some lines) = lines

  abbrev cve_lines_before : CveLoaded → List Text
  cve_lines_before l =
      load_cve_lines l
      ++ (region_part (regions_lines (λ s. some (sorted_cve_ids s)) (cve_sets l) (combos_down 4))
          ++ ((newline ∷ codes "Generating Detailed Reports...") ∷ []))

  -- What it does with texts, which can all be sorted.
  unfoldable pub analyse_cve_texts : CveLoaded → Option Output
  unfolding load_cve_lines regions_lines combos_down cve_report all_flagged_cves sorted_cve_ids
  analyse_cve_texts l = elim (cve_report l (all_flagged_cves l)) [
    | none ↦ none
    | some out ↦ some (record out { printed = cve_lines_before l ++ out.printed })
  ]

  -- What `analyse_dbms` appends to `cumulative_stats`, which it does before the regions; and what it
  -- prints and writes, `none` where it raises behind that: `get_cve_id` raises at a name that is no
  -- text, which stands in one of the regions.
  unfoldable pub analyse_dbms : DbmsStats × Option Output
  unfolding load_cves stats_of all_texts analyse_cve_texts
  analyse_dbms =
      let l = load_cves in
      let out = analyse_cve_texts l in
      (stats_of dbms l, if all_texts (cve_names_of l) then out else none)
