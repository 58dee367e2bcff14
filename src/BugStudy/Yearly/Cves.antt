-- ===== src/BugStudy/Yearly/Cves.antt =====
-- `analyze_dbms_by_year` of export_cve_results_to_csv.py. A CVE's year is in its name; one that
-- names no year is passed over, and the summary counts the years 2015 to 2025.
use memsafedb.Prelude.{
  ℕ, suc, ◌&&◌, Bool, Option, none, some, List, [], ◌∷◌, ◌==◌, leb, if◌then◌else◌,
}
use memsafedb.Text.{Text, strip, is_empty}
use memsafedb.BugStudy.Json.{key_eq}
use memsafedb.Dict.{bump}
use memsafedb.BugStudy.Loading.{Results}
use memsafedb.BugStudy.Years.{extract_year_from_cve_path}
use memsafedb.BugStudy.Votes.{Tally, tally, unanimous_implication}
use memsafedb.BugStudy.Yearly.Table.{
  Stats, Report, no_stats, in_year, add_total, add_llm, yearly_counts,
}
use memsafedb.BugStudy.Yearly.Bugs.{add_implication, count_keywords}

abbrev pub year_min : ℕ
year_min = 2015

abbrev pub year_max : ℕ
year_max = 2025

-- `YEAR_MIN <= year <= YEAR_MAX`
abbrev pub in_range : ℕ → Bool
in_range year = leb year_min year && leb year year_max

abbrev listed_year : Option ℕ → ℕ → ℕ
listed_year none n = n
listed_year (some year) n = if in_range year then suc n else n

-- `db_total` over the lines of the list of CVEs
unfoldable pub count_listed : List Text → ℕ
unfolding strip extract_year_from_cve_path
count_listed [] = 0
count_listed (line ∷ lines) =
    let path = strip line in
    let rest = count_listed lines in
    if is_empty path then rest else listed_year (extract_year_from_cve_path path) rest

unfoldable pub count_total_cve : ℕ → Text → Tally → Stats → Stats
unfolding in_year add_total
count_total_cve year path t s =
    if t.bug_count == 3 then record s { yearly = in_year year (add_total path) s.yearly } else s

unfoldable pub count_memsafe_cve : ℕ → Text → Tally → Stats → Stats
unfolding in_year add_llm bump key_eq unanimous_implication
count_memsafe_cve year path t s =
    if t.memsafe_count == 3
    then (if in_range year
        then record {
          yearly = in_year year (add_llm path) s.yearly;
          db_memsafe = suc s.db_memsafe;
          implications = add_implication (unanimous_implication t.implication_votes) s.implications;
        }
        else record s { yearly = in_year year (add_llm path) s.yearly })
    else s

-- `if year is None: continue` comes before the votes are read.
unfoldable pub count_cves : Results → Stats → Option Stats
count_cves [] s = some s
count_cves ((path, reps) ∷ more) s = elim (extract_year_from_cve_path path) [
  | none ↦ count_cves more s
  | some year ↦ elim (tally reps) [
    | none ↦ none
    | some t ↦ count_cves more (count_memsafe_cve year path t (count_total_cve year path t s))
  ]
]

unfoldable pub analyze_cves : List Text → List Text → Results → Option Report
unfolding count_listed count_cves count_keywords yearly_counts extract_year_from_cve_path tally
    count_total_cve count_memsafe_cve
analyze_cves listed keyword_matches llm_results = elim (count_cves llm_results no_stats) [
  | none ↦ none
  | some s ↦ some (
    yearly_counts (count_keywords extract_year_from_cve_path keyword_matches s.yearly),
    record {
      total = count_listed listed;
      llm_memsafe = s.db_memsafe;
      implications_unanimous = s.implications;
    },
  )
]
