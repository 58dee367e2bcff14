-- ===== src/Sweep/Queues.antt =====
-- The filters of `main` on the plan, and the two queues that it splits the plan into.
pub mod Split
use memsafedb.Prelude.{
  ℕ, zero, suc, ◌+◌, ◌*◌, Bool, true, false, not, Option, none, some, List, [], ◌∷◌, ◌++◌, length,
  keep, map, if◌then◌else◌,
}
use memsafedb.Text.{Text, codes, text_eq}
use memsafedb.Sweep.Specs.{Database}
use memsafedb.Sweep.Plan.{Run, persistence_eq}

abbrev pub PlanList : Type 0
PlanList = List (Database × List Run)

abbrev is_nonempty : List Run → Bool
is_nonempty [] = false
is_nonempty (r ∷ rs) = true

-- `[(db, [r for r in runs if …]) …]`, then without the databases that have no run left
unfoldable pub filter_plan : (Run → Bool) → PlanList → PlanList
filter_plan test plan =
    keep (λ (db, runs). is_nonempty runs) (map (λ (db, runs). (db, keep test runs)) plan)

abbrev apply_filter : Option (Run → Bool) → PlanList → Option PlanList
apply_filter none plan = some plan
apply_filter (some test) plan = elim (filter_plan test plan) [ [] ↦ none | d ∷ ds ↦ some (d ∷ ds) ]

abbrev host_test : Option Text → Option (Run → Bool)
host_test none = none
host_test (some h) = some (λ run. text_eq run.host h)

abbrev persistence_test : Option Text → Option (Run → Bool)
persistence_test none = none
persistence_test (some p) = some (λ run. persistence_eq run.persistence (some p))

-- `none` where `main` exits, since no config point is left
unfoldable pub filtered : Option Text → Option Text → PlanList → Option PlanList
unfolding filter_plan text_eq persistence_eq
filtered host persistence plan = elim (apply_filter (host_test host) plan) [
  | none ↦ none
  | some plan' ↦ apply_filter (persistence_test persistence) plan'
]

-- A repetition of a run.
abbrev pub Job : Type 0
Job = ℕ × Run

pub record Queues : Type 0 where
  pub eliza : List Job
  pub ace : List Job

-- `queues[key].append((rep, run))`
unfoldable pub enqueue : ℕ → List Run → Queues → Queues
unfolding text_eq
enqueue rep [] q = q
enqueue rep (run ∷ runs) q = enqueue rep runs (
    if text_eq run.host (codes "ace")
    then record q { ace = q.ace ++ ((rep, run) ∷ []) }
    else record q { eliza = q.eliza ++ ((rep, run) ∷ []) })

-- `for rep in range(repetitions)`, from `rep` on with `left` rounds to go
unfoldable pub enqueue_reps : ℕ → ℕ → List Run → Queues → Queues
unfolding enqueue
enqueue_reps rep zero runs q = q
enqueue_reps rep (suc left) runs q = enqueue_reps (suc rep) left runs (enqueue rep runs q)

unfoldable pub enqueue_plan : ℕ → PlanList → Queues → Queues
unfolding enqueue_reps
enqueue_plan repetitions [] q = q
enqueue_plan repetitions ((db, runs) ∷ plan) q =
    enqueue_plan repetitions plan (enqueue_reps 0 repetitions runs q)

unfoldable pub split_queues : ℕ → PlanList → Queues
unfolding enqueue_plan
split_queues repetitions plan = enqueue_plan repetitions plan (record { eliza = []; ace = [] })

unfoldable pub plan_size : PlanList → ℕ
plan_size [] = 0
plan_size ((db, runs) ∷ plan) = length runs + plan_size plan

-- `total = sum(len(runs) for _, runs in plan) * args.repetitions`
unfoldable pub total : ℕ → PlanList → ℕ
unfolding plan_size
total repetitions plan = plan_size plan * repetitions
