-- ===== src/BugStudy/Yearly/Bugs.antt =====
-- `analyze_dbms_by_year` of export_bug_results_to_csv.py
use memsafedb.Prelude.{ℕ, suc, Option, none, some, List, [], ◌∷◌, ◌==◌, if◌then◌else◌}
use memsafedb.Text.{Text}
use memsafedb.BugStudy.Json.{Json, key_eq}
use memsafedb.Dict.{Counter, bump}
use memsafedb.BugStudy.Loading.{Results}
use memsafedb.BugStudy.Votes.{Tally, tally, unanimous_implication}
use memsafedb.BugStudy.Yearly.Table.{
  Yearly, Stats, Report, no_stats, in_year, add_total, add_llm, add_keyword, yearly_counts,
}

-- `if year is not None: yearly_stats[year]['total_bugs'].add(bug_path)`, if all three say "bug"
unfoldable pub count_bug : Option ℕ → Text → Tally → Stats → Stats
unfolding in_year add_total
count_bug none path t s = s
count_bug (some year) path t s =
    if t.bug_count == 3 then record s { yearly = in_year year (add_total path) s.yearly } else s

abbrev pub add_year : Option ℕ → Text → Yearly → Yearly
add_year none path y = y
add_year (some year) path y = in_year year (add_llm path) y

abbrev pub add_implication : Option Json → Counter Json → Counter Json
add_implication none c = c
add_implication (some v) c = bump key_eq v c

-- What a report counts if all three say that it is a memory-safety bug.
unfoldable pub count_memsafe : Option ℕ → Text → Tally → Stats → Stats
unfolding in_year add_llm bump key_eq unanimous_implication
count_memsafe year path t s =
    if t.memsafe_count == 3
    then record {
      yearly = add_year year path s.yearly;
      db_memsafe = suc s.db_memsafe;
      implications = add_implication (unanimous_implication t.implication_votes) s.implications;
    }
    else s

module _ (year_of : Text → Option ℕ) where
  -- The loop over the reports; `none` if a vote raises.
  unfoldable pub count_reports : Results → Stats → Option Stats
  count_reports [] s = some s
  count_reports ((path, reps) ∷ more) s = elim (tally reps) [
    | none ↦ none
    | some t ↦
        count_reports more (count_memsafe (year_of path) path t (count_bug (year_of path) path t s))
  ]

  abbrev add_keyword_year : Option ℕ → Text → Yearly → Yearly
  add_keyword_year none path y = y
  add_keyword_year (some year) path y = in_year year (add_keyword path) y

  unfoldable pub count_keywords : List Text → Yearly → Yearly
  unfolding in_year add_keyword
  count_keywords [] y = y
  count_keywords (path ∷ paths) y = count_keywords paths (add_keyword_year (year_of path) path y)

  -- `db_total` is the number of reports in the database's directory.
  unfoldable pub analyze_bugs : ℕ → List Text → Results → Option Report
  unfolding count_reports count_keywords yearly_counts tally count_bug count_memsafe
  analyze_bugs db_total keyword_matches llm_results = elim (count_reports llm_results no_stats) [
    | none ↦ none
    | some s ↦ some (
      yearly_counts (count_keywords keyword_matches s.yearly),
      record {
        total = db_total;
        llm_memsafe = s.db_memsafe;
        implications_unanimous = s.implications;
      },
    )
  ]
