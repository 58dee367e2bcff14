-- ===== src/BugStudy/Reports/Cves/Totals.antt =====
-- The statistics of the databases, and the grand totals of the cumulative report.
use memsafedb.Prelude.{Bool, true, false, map, keep, ℕ, ◌+◌, ◌≡◌, Option, none, some, List, [], ◌∷◌}
use memsafedb.Text.{Text}
use memsafedb.BugStudy.Reports.Reading.{RepStats}
use memsafedb.BugStudy.Reports.Reading.Counted.{IsRepStats, read_cve_rep-IsRepStats}
use memsafedb.BugStudy.Reports.Bugs.{Files}
use memsafedb.BugStudy.Reports.Cves.{DbmsStats, load_cves, stats_of, analyse_dbms}
use memsafedb.BugStudy.Reports.Cumulative.{
  GrandTotals, no_grand_totals, add_rep, analyse_all, Attempt,
}

pub record IsDbmsStats (s : DbmsStats) : Type 0 where
  pub rep1_stats : IsRepStats s.rep1_stats
  pub rep2_stats : IsRepStats s.rep2_stats
  pub rep3_stats : IsRepStats s.rep3_stats

pub analyse_dbms-IsDbmsStats :
    (files : Files) (opens : Text → Bool) (dbms : Text)
    → IsDbmsStats (analyse_dbms files opens dbms).0
unfolding analyse_dbms load_cves stats_of
analyse_dbms-IsDbmsStats files opens dbms = record {
  rep1_stats = search read_cve_rep-IsRepStats;
  rep2_stats = search read_cve_rep-IsRepStats;
  rep3_stats = search read_cve_rep-IsRepStats;
}

-- The sum of a number over the databases.
abbrev pub sum_of : (DbmsStats → ℕ) → List DbmsStats → ℕ
sum_of f [] = 0
sum_of f (s ∷ more) = f s + sum_of f more

abbrev pub sums_of : (DbmsStats → RepStats) → List DbmsStats → RepStats
sums_of f stats = record {
  total = sum_of (λ s. (f s).total) stats;
  bugs = sum_of (λ s. (f s).bugs) stats;
  programmer_error = sum_of (λ s. (f s).programmer_error) stats;
  other = sum_of (λ s. (f s).other) stats;
  memory_safety = sum_of (λ s. (f s).memory_safety) stats;
}

pub record AreSums (g : GrandTotals) (stats : List DbmsStats) (h : GrandTotals) : Type 0 where
  pub keywords : h.keywords ≡ g.keywords + sum_of (λ s. s.keyword_matches) stats
  pub rep1_totals : h.rep1_totals ≡ add_rep g.rep1_totals (sums_of (λ s. s.rep1_stats) stats)
  pub rep2_totals : h.rep2_totals ≡ add_rep g.rep2_totals (sums_of (λ s. s.rep2_stats) stats)
  pub rep3_totals : h.rep3_totals ≡ add_rep g.rep3_totals (sums_of (λ s. s.rep3_stats) stats)

-- The totals of the cumulative report.
pub record AreGrandTotals (stats : List DbmsStats) (h : GrandTotals) : Type 0 where
  pub sums : AreSums no_grand_totals stats h
  pub rep1_totals : IsRepStats h.rep1_totals
  pub rep2_totals : IsRepStats h.rep2_totals
  pub rep3_totals : IsRepStats h.rep3_totals

-- Does a call get to the files?
abbrev pub is_read : (Text → Option Files) → Text → Bool
is_read files dbms = elim (files dbms) [ none ↦ false | some fs ↦ true ]

module _ (files : Text → Option Files) (opens : Text → Bool) where
  -- A call for a database: it raises at once, before it reads the files, if the directory of the
  -- reports cannot be made (`none`).
  abbrev attempt_with : Option Files → Text → Attempt
  attempt_with none dbms = (none, none)
  attempt_with (some fs) dbms = let left = analyse_dbms fs opens dbms in (some left.0, left.1)

  abbrev pub analyse_each : Text → Attempt
  analyse_each dbms = attempt_with (files dbms) dbms

  abbrev AreRead : List Text → Type 0
  AreRead dbs = map (λ s. s.dbms) (analyse_all analyse_each dbs) ≡ keep (is_read files) dbs
