-- ===== src/BugStudy/Export.antt =====
-- The tables and the CSV files of export_bug_results_to_csv.py and export_cve_results_to_csv.py.
-- `percent1` is the text of `a / b * 100` with one digit behind the point.
pub mod Columns
pub mod Rows
use memsafedb.Prelude.{
  ℕ, zero, suc, ◌+◌, ◌*◌, Bool, true, false, ◌||◌, Option, none, some, List, [], ◌∷◌, ◌++◌, ◌>>=◌,
  map, keep, take, length, ltb, leb, if◌then◌else◌,
}
use memsafedb.Text.{Text, codes, show, lower}
use memsafedb.BugStudy.Json.{Json, str, key_eq}
use memsafedb.Dict.{Counter, lookup}
use memsafedb.Sorting.{sort_by}
use memsafedb.BugStudy.Yearly.{YearCounts, Summary, Report}
use memsafedb.BugStudy.Reports.Cumulative.{pad_left, pad_right, databases}

-- A category of IMPLICATION_CATEGORIES, with its name in `abbrev`.
pub record Category : Type 0 where
  pub name : Text
  pub label : Text

abbrev category : Text → Text → Category
category name label = record { name = name; label = label }

abbrev pub implication_categories : List Category
implication_categories =
    category (codes "data_loss") (codes "DataLoss")
    ∷ category (codes "data_corruption") (codes "DataCorr")
    ∷ category (codes "incorrect_query_results") (codes "WrongQry")
    ∷ category (codes "system_crash") (codes "Crash")
    ∷ category (codes "resource_exhaustion") (codes "ResExhst")
    ∷ category (codes "concurrency_hazard") (codes "Concur")
    ∷ category (codes "transaction_violation") (codes "TxnViol")
    ∷ category (codes "durability_violation") (codes "DurViol")
    ∷ category (codes "replication_inconsistency") (codes "ReplIncn")
    ∷ category (codes "denial_of_service") (codes "DoS")
    ∷ category (codes "none") (codes "None")
    ∷ []

abbrev pub Summaries : Type 0
Summaries = List (Text × Summary)

-- `impl.get(c, 0)`
unfoldable pub count_in : Category → Counter Json → ℕ
unfolding lookup key_eq
count_in c impl = elim (lookup key_eq (str c.name) impl) [ none ↦ 0 | some n ↦ n ]

-- `any(s['implications_unanimous'].get(c, 0) > 0 for _, s in all_db_summaries)`
unfoldable pub appears : Summaries → Category → Bool
unfolding count_in
appears [] c = false
appears ((dbms, s) ∷ more) c = ltb 0 (count_in c s.implications_unanimous) || appears more c

unfoldable pub active_cats : Summaries → List Category
unfolding appears
active_cats summaries = keep (appears summaries) implication_categories

abbrev rule : ℕ → ℕ → Text
rule c zero = []
rule c (suc n) = c ∷ rule c n

-- `''.join(…)` of cells of the width 10
abbrev cells : List Text → Text
cells [] = []
cells (t ∷ ts) = pad_left 10 t ++ cells ts

module _ (percent1 : ℕ → ℕ → Text) where
  abbrev pct : ℕ → ℕ → Text
  pct memsafe total = if ltb 0 total then percent1 memsafe total else codes "0.0"

  abbrev total_line : Text → ℕ → ℕ → Text
  total_line name total memsafe =
      pad_right 16 name
      ++ (b' '
          ∷ (pad_left 12 (show total)
              ++ (b' '
                  ∷ (pad_left 12 (show memsafe)
                      ++ (b' ' ∷ (pad_left 13 (pct memsafe total) ++ codes "%"))))))

  -- The rows of the first table, and its totals.
  unfoldable pub total_rows : Summaries → ℕ → ℕ → List Text × (ℕ × ℕ)
  unfolding pad_left pad_right show
  total_rows [] grand_total grand_memsafe = ([], (grand_total, grand_memsafe))
  total_rows ((dbms, s) ∷ more) grand_total grand_memsafe =
      let rest = total_rows more (grand_total + s.total) (grand_memsafe + s.llm_memsafe) in
      (total_line dbms s.total s.llm_memsafe ∷ rest.0, rest.1)

  -- The first table, under its title and the headings of its columns.
  unfoldable pub first_table : Text → Text → Text → Summaries → List Text
  unfolding total_rows pad_left pad_right show
  first_table title total_heading pct_heading summaries =
      let rows = total_rows summaries 0 0 in
      []
      ∷ rule b'=' 60
      ∷ title
      ∷ rule b'=' 60
      ∷ (pad_right 16 (codes "Database")
          ++ (b' '
              ∷ (pad_left 12 total_heading
                  ++ (b' '
                      ∷ (pad_left 12 (codes "Mem Safety") ++ (b' ' ∷ pad_left 14 pct_heading))))))
      ∷ rule b'-' 60
      ∷ (rows.0 ++ (rule b'-' 60 ∷ total_line (codes "TOTAL") rows.1.0 rows.1.1 ∷ [] ∷ []))

  abbrev category_row : List Category → Text × Summary → Text
  category_row cats (dbms, s) =
      pad_right 16 dbms ++ cells (map (λ c. show (count_in c s.implications_unanimous)) cats)

  -- The second table, of the categories that appear.
  unfoldable pub implication_table : Text → Summaries → List Text
  unfolding active_cats count_in pad_left pad_right show
  implication_table title summaries =
      let cats = active_cats summaries in
      let width = 16 + 10 * length cats in
      rule b'=' width
      ∷ title
      ∷ rule b'=' width
      ∷ (pad_right 16 (codes "Database") ++ cells (map (λ c. take 10 c.label) cats))
      ∷ rule b'-' width
      ∷ (map (category_row cats) summaries ++ ([] ∷ []))

  unfoldable pub print_summary_tables : Summaries → List Text
  unfolding first_table implication_table
  print_summary_tables summaries =
      first_table (codes "TABLE 1: Bug Totals per Database (all 3 LLM reps agree)")
        (codes "Total Bugs") (codes "Mem% of Bugs") summaries
      ++ implication_table
          (codes
            "TABLE 2: Implication Breakdown — Memory Safety Bugs, Unanimous (all 3 reps agree)")
          summaries

  unfoldable pub print_cve_summary_tables : Summaries → List Text
  unfolding first_table implication_table
  print_cve_summary_tables summaries =
      first_table (codes "TABLE 1: CVE Totals per Database (2015–2025, all 3 LLM reps agree)")
        (codes "Total CVEs") (codes "Mem% of CVEs") summaries
      ++ implication_table
          (codes "TABLE 2: Implication Breakdown — Memory Safety CVEs, Unanimous (2015–2025)")
          summaries

-- A row of the CSV file.
pub record CsvRow : Type 0 where
  pub db : Text
  pub year : ℕ
  pub total_bugs : ℕ
  pub memory_safety_bugs_llms : ℕ
  pub memory_safety_bugs_keywords : ℕ

abbrev pub csv_row : Text → ℕ × YearCounts → CsvRow
csv_row db (year, n) = record {
  db = db;
  year = year;
  total_bugs = n.total;
  memory_safety_bugs_llms = n.llm_memsafe;
  memory_safety_bugs_keywords = n.keyword_memsafe;
}

abbrev pub year_of : ℕ × YearCounts → ℕ
year_of (year, n) = year

-- `sorted(yearly_stats.items())`: no two have the same year
unfoldable pub sorted_years : List (ℕ × YearCounts) → List (ℕ × YearCounts)
unfolding sort_by
sorted_years years = sort_by leb year_of years

abbrev pub Exported : Type 0
Exported = List CsvRow × Summaries

abbrev pub onto : List CsvRow → Text × Summary → Exported → Exported
onto rows summary (more, summaries) = (rows ++ more, summary ∷ summaries)

-- The loop over the databases; `db_name` is how a database's name is written into its rows, and
-- `none` where an analysis raises, which nothing catches.
unfoldable pub export_rows : (Text → Text) → (Text → Option Report) → List Text → Option Exported
unfolding sorted_years
export_rows db_name analyze [] = some ([], [])
export_rows db_name analyze (dbms ∷ dbs) = do
  report ← analyze dbms
  rest ← export_rows db_name analyze dbs
  some (onto (map (csv_row (db_name dbms)) (sorted_years report.0)) (dbms, report.1) rest)

abbrev line_end : Text
line_end = 13 ∷ 10 ∷ []

abbrev row_text : CsvRow → Text
row_text r =
    r.db
    ++ (codes ","
        ++ (show r.year
            ++ (codes ","
                ++ (show r.total_bugs
                    ++ (codes ","
                        ++ (show r.memory_safety_bugs_llms
                            ++ (codes "," ++ (show r.memory_safety_bugs_keywords ++ line_end))))))))

abbrev rows_text : List CsvRow → Text
rows_text [] = []
rows_text (r ∷ rows) = row_text r ++ rows_text rows

-- `csv.DictWriter` with its header: no field holds a character that is quoted.
unfoldable pub csv_text : List CsvRow → Text
unfolding show
csv_text rows =
    codes "db,year,total_bugs,memory_safety_bugs_llms,memory_safety_bugs_keywords"
    ++ (line_end ++ rows_text rows)

abbrev pub bug_databases : List Text
bug_databases =
    codes "DuckDB"
    ∷ codes "Redis"
    ∷ codes "RocksDB"
    ∷ codes "ClickHouse"
    ∷ codes "MySQL"
    ∷ codes "LevelDB"
    ∷ codes "MariaDB"
    ∷ []

-- The text of the CSV file, and the tables that are printed.
unfoldable pub export_to_csv : (ℕ → ℕ → Text) → (Text → Option Report) → Option (Text × List Text)
unfolding export_rows csv_text print_summary_tables lower
export_to_csv percent1 analyze = do
  exported ← export_rows lower analyze bug_databases
  some (csv_text exported.0, print_summary_tables percent1 exported.1)

unfoldable pub export_cves_to_csv :
    (ℕ → ℕ → Text) → (Text → Option Report) → Option (Text × List Text)
unfolding export_rows csv_text print_cve_summary_tables
export_cves_to_csv percent1 analyze = do
  exported ← export_rows (λ db. db) analyze databases
  some (csv_text exported.0, print_cve_summary_tables percent1 exported.1)
