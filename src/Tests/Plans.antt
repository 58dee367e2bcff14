-- ===== src/Tests/Plans.antt =====
-- The theorems on the sweep, the votes and the instruction counts, at concrete data.
use memsafedb.Prelude.{ℕ, Bool, true, false, ◌≡◌, refl, none, some, List, [], ◌∷◌}
use memsafedb.Text.{Text, codes, show}
use memsafedb.Sweep.Specs.{duckdb, sqlite, SweepSpec, eliza, ace, num}
use memsafedb.Sweep.Plan.{Run, build_sweep_runs, build_baseline_run}
use memsafedb.Sweep.Plan.Keys.{IsSweep, build_sweep_runs-IsSweep}
use memsafedb.Sweep.Queues.{PlanList, split_queues, total}
use memsafedb.Sweep.Queues.Split.{Shares, split_queues-Shares}
use memsafedb.Sweep.Workers
use memsafedb.Sweep.Workers.{
  System, Worker, Shared, Outcome, Event, begin, finish, steps, step, begin_job, finish_job,
  set_current, concurrent, job_label,
}
use memsafedb.Sweep.Workers.Invariant.{IsRun, steps-IsRun, steps-total}
use memsafedb.BugStudy.Json.{bool, str, Fields, end, field}
use memsafedb.BugStudy.Loading.{Reps, Results}
use memsafedb.BugStudy.Votes.{Tally, tally}
use memsafedb.BugStudy.Votes.Unanimous.{IsUnanimous, tally-IsUnanimous}
use memsafedb.BugStudy.Yearly.Table.{Stats}
use memsafedb.BugStudy.Yearly.Bugs.{count_reports, count_bug, count_memsafe}
use memsafedb.BugStudy.Years.{extract_year_from_cve_path}
use memsafedb.BugStudy.Yearly.Cves.{count_cves, count_total_cve, count_memsafe_cve}
use memsafedb.BugStudy.Yearly.CveSubsets.{count_cves-IsStats}
use memsafedb.BugStudy.Yearly.Subsets.{IsStats, count_reports-IsStats}
use memsafedb.Instructions.Patterns.{cheri}
use memsafedb.Instructions.Counting.{count_instructions}
use memsafedb.Instructions.Counting.Sums.{IsCounted, count_instructions-IsCounted}

abbrev two_hosts : SweepSpec
two_hosts = record {
  parser = sqlite;
  hosts = eliza (codes "run_a") ∷ ace (codes "run_b") ∷ [];
  ws_values = 1 ∷ 10 ∷ [];
  ws_pivot = 10;
  persistence = none ∷ [];
  make_args = λ ws t p. num ws ∷ num t ∷ [];
}

build_sweep_runs-IsSweep_example : IsSweep sqlite two_hosts (build_sweep_runs sqlite two_hosts)
build_sweep_runs-IsSweep_example = build_sweep_runs-IsSweep sqlite two_hosts

abbrev run_on : Text → Run
run_on host = record (build_baseline_run duckdb) { host = host }

abbrev two_runs : PlanList
two_runs = (duckdb, run_on (codes "eliza") ∷ run_on (codes "ace") ∷ []) ∷ []

split_queues-Shares_example : Shares 3 two_runs (split_queues 3 two_runs)
split_queues-Shares_example = split_queues-Shares 3 two_runs

abbrev returns : ℕ → Bool → Outcome ℕ
returns n ok = record { rows = n ∷ []; elapsed = codes "1"; ok = ok }

abbrev overlapping : List (Event ℕ)
overlapping =
    begin Workers.eliza
    ∷ begin Workers.ace
    ∷ finish Workers.ace (returns 1 true)
    ∷ finish Workers.eliza (returns 2 false)
    ∷ []

abbrev at_end : System ℕ
at_end = record {
  eliza_worker = record { running = none; queue = [] };
  ace_worker = record { running = none; queue = [] };
  shared = record {
    done = 2;
    current_eliza = some (codes "-");
    current_ace = some (codes "-");
    last = some (codes "duckdb (rep 0) in 1s");
    warnings = 1;
    written = 1 ∷ 2 ∷ [];
  };
}

overlapping-steps : steps overlapping (concurrent (split_queues 1 two_runs)) ≡ some at_end
unfolding steps step begin_job finish_job set_current job_label split_queues build_baseline_run show
overlapping-steps = refl

steps-IsRun_example : IsRun overlapping (concurrent (split_queues 1 two_runs)) at_end
steps-IsRun_example =
    steps-IsRun overlapping (concurrent (split_queues 1 two_runs)) overlapping-steps

steps-total_example : at_end.shared.done ≡ total 1 two_runs
steps-total_example = steps-total 1 two_runs overlapping overlapping-steps refl refl

abbrev says : Bool → Text → Fields
says memsafe implication = field (codes "issue_type") (str (codes "bug")) (
    field (codes "is_memory_safety") (bool memsafe)
      (field (codes "implication") (str implication) end))

abbrev agreeing : Reps
agreeing = record {
  first = some (says true (codes "rce"));
  second = some (says true (codes "rce"));
  third = some (says true (codes "rce"));
}

abbrev agreed_tally : Tally
agreed_tally = record {
  bug_count = 3;
  memsafe_count = 3;
  implication_votes = (str (codes "rce"), 3) ∷ [];
}

tally-IsUnanimous_example : IsUnanimous agreeing agreed_tally
unfolding tally
tally-IsUnanimous_example = tally-IsUnanimous agreeing refl

abbrev one_report : Results
one_report = (codes "bug_1", agreeing) ∷ []

abbrev report_stats : Stats
report_stats = record {
  yearly =
      (
        2020,
        record {
          total = codes "bug_1" ∷ [];
          llm_memsafe = codes "bug_1" ∷ [];
          keyword_memsafe = [];
        },
      )
      ∷ [];
  db_memsafe = 1;
  implications = (str (codes "rce"), 1) ∷ [];
}

count_reports-IsStats_example : IsStats report_stats
unfolding count_reports tally count_bug count_memsafe
count_reports-IsStats_example = count_reports-IsStats (λ path. some 2020) one_report refl

abbrev old_and_new : Results
old_and_new =
    (codes "CVE-2009-1.json", agreeing)
    ∷ (codes "CVE-2020-2.json", agreeing)
    ∷ (codes "no_year.json", agreeing)
    ∷ []

abbrev cve_stats : Stats
cve_stats = record {
  yearly =
      (
        2009,
        record {
          total = codes "CVE-2009-1.json" ∷ [];
          llm_memsafe = codes "CVE-2009-1.json" ∷ [];
          keyword_memsafe = [];
        },
      )
      ∷ (
        2020,
        record {
          total = codes "CVE-2020-2.json" ∷ [];
          llm_memsafe = codes "CVE-2020-2.json" ∷ [];
          keyword_memsafe = [];
        },
      )
      ∷ [];
  db_memsafe = 1;
  implications = (str (codes "rce"), 1) ∷ [];
}

count_cves-IsStats_example : IsStats cve_stats
unfolding count_cves extract_year_from_cve_path tally count_total_cve count_memsafe_cve
count_cves-IsStats_example = count_cves-IsStats old_and_new refl

abbrev capability_code : Text
capability_code = codes "   10:\tc2 00 00 c2\tldr\tc0, [csp]\n"

count_instructions-IsCounted_example : IsCounted cheri (count_instructions capability_code cheri)
count_instructions-IsCounted_example = count_instructions-IsCounted capability_code cheri
