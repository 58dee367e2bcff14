-- ===== src/BugStudy/Reports/Cumulative.antt =====
-- `generate_cumulative_report` and `main` of analyse_cve_results.py. The time of the report and the
-- formats with a width are built from texts; `{x:.1f}` is a parameter.
use memsafedb.Prelude.{
  ℕ, zero, suc, ◌+◌, ◌-◌, Bool, not, Option, none, some, List, [], ◌∷◌, ◌++◌, length, ltb,
  if◌then◌else◌,
}
use memsafedb.Text.{Text, codes, show, lower, text_eq}
use memsafedb.Dict.{member}
use memsafedb.BugStudy.Loading.{Rep, rep1, rep2, rep3}
use memsafedb.BugStudy.Reports.Reading.{RepStats, rep_number}
use memsafedb.BugStudy.Reports.Bugs.{Output}
use memsafedb.BugStudy.Reports.Cves.{DbmsStats}

-- The totals of one repetition, and all of them.
pub record GrandTotals : Type 0 where
  pub keywords : ℕ
  pub rep1_totals : RepStats
  pub rep2_totals : RepStats
  pub rep3_totals : RepStats

abbrev pub no_totals : RepStats
no_totals = record { total = 0; bugs = 0; programmer_error = 0; other = 0; memory_safety = 0 }

abbrev pub no_grand_totals : GrandTotals
no_grand_totals = record {
  keywords = 0;
  rep1_totals = no_totals;
  rep2_totals = no_totals;
  rep3_totals = no_totals;
}

-- `grand_totals[…] += …`
unfoldable pub add_rep : RepStats → RepStats → RepStats
add_rep g r = record {
  total = g.total + r.total;
  bugs = g.bugs + r.bugs;
  programmer_error = g.programmer_error + r.programmer_error;
  other = g.other + r.other;
  memory_safety = g.memory_safety + r.memory_safety;
}

unfoldable pub add_stats : GrandTotals → DbmsStats → GrandTotals
unfolding add_rep
add_stats g s = record {
  keywords = g.keywords + s.keyword_matches;
  rep1_totals = add_rep g.rep1_totals s.rep1_stats;
  rep2_totals = add_rep g.rep2_totals s.rep2_stats;
  rep3_totals = add_rep g.rep3_totals s.rep3_stats;
}

abbrev spaces : ℕ → Text
spaces zero = []
spaces (suc n) = b' ' ∷ spaces n

-- `{t:<w}` and `{t:>w}`
unfoldable pub pad_right : ℕ → Text → Text
pad_right w t = t ++ spaces (w - length t)

unfoldable pub pad_left : ℕ → Text → Text
pad_left w t = spaces (w - length t) ++ t

abbrev cell : Text → Text
cell t = b' ' ∷ pad_left 8 t

abbrev rule : ℕ → ℕ → Text
rule c zero = []
rule c (suc n) = c ∷ rule c n

module _ (percent1 : ℕ → ℕ → Text) where
  abbrev mem_pct : RepStats → Text
  mem_pct r = if ltb 0 r.bugs then percent1 r.memory_safety r.bugs else codes "0.0"

  unfoldable pub rep_line : Rep → RepStats → Text
  unfolding pad_right pad_left show
  rep_line rep r =
      pad_right 12 []
      ++ (b' '
          ∷ (pad_right 10 (codes "Rep " ++ show (rep_number rep))
              ++ (cell (show r.total)
                  ++ (cell (show r.bugs)
                      ++ (cell (show r.programmer_error)
                          ++ (cell (show r.other)
                              ++ (cell (show r.memory_safety)
                                  ++ (b' ' ∷ (pad_left 7 (mem_pct r) ++ codes "%")))))))))

  unfoldable pub keyword_line : Text → ℕ → Text
  unfolding pad_right pad_left show
  keyword_line name n =
      pad_right 12 name
      ++ (b' '
          ∷ (pad_right 10 (codes "Keywords")
              ++ (cell (codes "-")
                  ++ (cell (codes "-")
                      ++ (cell (codes "-")
                          ++ (cell (codes "-") ++ (cell (show n) ++ cell (codes "-"))))))))

  -- The loop over the databases: the lines, and the totals.
  unfoldable pub dbms_lines : List DbmsStats → GrandTotals → List Text × GrandTotals
  unfolding keyword_line rep_line
  dbms_lines [] g = ([], g)
  dbms_lines (s ∷ more) g =
      let rest = dbms_lines more (add_stats g s) in
      (
        keyword_line s.dbms s.keyword_matches
            ∷ rep_line rep1 s.rep1_stats
            ∷ rep_line rep2 s.rep2_stats
            ∷ rep_line rep3 s.rep3_stats
            ∷ rule b'-' 100
            ∷ rest.0,
        rest.1,
      )

  abbrev header_line : Text
  header_line =
      pad_right 12 (codes "Database")
      ++ (b' '
          ∷ (pad_right 10 (codes "Source")
              ++ (cell (codes "Total")
                  ++ (cell (codes "Bugs")
                      ++ (cell (codes "ProgErr")
                          ++ (cell (codes "Other")
                              ++ (cell (codes "MemSafe") ++ cell (codes "Mem%"))))))))

  unfoldable pub total_lines : GrandTotals → List Text
  unfolding keyword_line rep_line
  total_lines g =
      []
      ∷ codes "GRAND TOTALS:"
      ∷ keyword_line (codes "TOTAL") g.keywords
      ∷ rep_line rep1 g.rep1_totals
      ∷ rep_line rep2 g.rep2_totals
      ∷ rep_line rep3 g.rep3_totals
      ∷ rule b'=' 100
      ∷ []

  -- The lines of the report, which is written to cumulative_report.txt; `now` is the time's text.
  unfoldable pub generate_cumulative_report : Text → List DbmsStats → List Text
  unfolding dbms_lines total_lines add_stats pad_right pad_left
  generate_cumulative_report now stats =
      let read = dbms_lines stats no_grand_totals in
      rule b'=' 100
      ∷ codes "CUMULATIVE CVE ANALYSIS REPORT"
      ∷ (codes "Generated: " ++ now)
      ∷ rule b'=' 100
      ∷ []
      ∷ header_line
      ∷ rule b'-' 100
      ∷ (read.0 ++ total_lines read.1)

-- The databases of scrape_cves.py
abbrev pub databases : List Text
databases =
    codes "mysql"
    ∷ codes "sqlite"
    ∷ codes "mariadb"
    ∷ codes "redis"
    ∷ codes "leveldb"
    ∷ codes "rocksdb"
    ∷ codes "duckdb"
    ∷ codes "ladybug"
    ∷ codes "postgresql"
    ∷ codes "mongodb"
    ∷ codes "memcached"
    ∷ codes "influxdb"
    ∷ codes "redshift"
    ∷ []

-- What `main` does: which databases it analyses, and whether it writes the cumulative report.
pub data Task : Type 0 where
  every : Task
  one : Text → Bool → Task

-- The argument in lower case; `one` says whether it warns that the name is not in the list.
unfoldable pub task_of : Option Text → Task
unfolding lower text_eq member
task_of none = every
task_of (some argument) =
    let dbms_arg = lower argument in
    if text_eq dbms_arg (codes "all")
    then every
    else one dbms_arg (not (member text_eq dbms_arg databases))

-- What a call of `analyse_dbms` leaves: what it has appended, and its output, `none` where it raises.
abbrev pub Attempt : Type 0
Attempt = Option DbmsStats × Option Output

-- The loop over the databases, over what the calls leave in `cumulative_stats`. A call that raises is
-- passed over, but what it has appended before stays.
unfoldable pub analyse_all : (Text → Attempt) → List Text → List DbmsStats
analyse_all analyse [] = []
analyse_all analyse (dbms ∷ more) = elim (analyse dbms).0 [
  | none ↦ analyse_all analyse more
  | some s ↦ s ∷ analyse_all analyse more
]

abbrev written : List DbmsStats → List Text → Option (List Text)
written [] report = none
written (s ∷ more) report = some report

-- The lines of the cumulative report, if one is written.
unfoldable pub main_report :
    (ℕ → ℕ → Text) → Text → (Text → Attempt) → Option Text → Option (List Text)
unfolding task_of analyse_all generate_cumulative_report
main_report percent1 now analyse argument = elim (task_of argument) [
  | one dbms warns ↦ none
  | every ↦
      let stats = analyse_all analyse databases in
      written stats (generate_cumulative_report percent1 now stats)
]
