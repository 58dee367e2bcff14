-- ===== src/Sweep/Queues/Split.antt =====
-- How the plan is shared out to the two queues.
use memsafedb.Prelude.{
  ℕ, zero, suc, ◌+◌, ◌*◌, ◌≡◌, refl, sym, ◌∙◌, Bool, true, false, not, List, [], ◌∷◌, ◌++◌, length,
  length-append, append_assoc, append-nil, keep, map, inl, inr, Bool-cases, if◌then◌else◌, arith,
}
use memsafedb.Text.{codes, text_eq}
use memsafedb.Sweep.Plan.{Run}
use memsafedb.Sweep.Queues.{
  PlanList, Job, Queues, enqueue, enqueue_reps, enqueue_plan, split_queues, plan_size, total,
}

abbrev pub is_ace : Job → Bool
is_ace (rep, run) = text_eq run.host (codes "ace")

-- The runs of a database, once each.
abbrev pub round : ℕ → List Run → List Job
round rep runs = map (λ run. (rep, run)) runs

-- The rounds of a database, from the repetition `rep` on.
unfoldable pub rounds : ℕ → ℕ → List Run → List Job
rounds rep zero runs = []
rounds rep (suc left) runs = round rep runs ++ rounds (suc rep) left runs

-- All jobs of a plan in one sequence.
unfoldable pub all_jobs : ℕ → PlanList → List Job
unfolding rounds
all_jobs repetitions [] = []
all_jobs repetitions ((db, runs) ∷ plan) = rounds 0 repetitions runs ++ all_jobs repetitions plan

-- The queues have got these jobs, in their order, each the ones of its host.
abbrev Got : List Job → Queues → Queues → Type 0
Got jobs q q' =
    (q'.eliza ≡ q.eliza ++ keep (λ job. not (is_ace job)) jobs)
    × (q'.ace ≡ q.ace ++ keep is_ace jobs)

keep-append : (p : Job → Bool) (xs ys : List Job) → keep p (xs ++ ys) ≡ keep p xs ++ keep p ys
keep-append p [] ys = refl
keep-append p (x ∷ xs) ys = elim (Bool-cases (p x)) [
  | inl kept ↦ rw (kept, keep-append p xs ys) refl
  | inr left ↦ rw (left, keep-append p xs ys) refl
]

Got-none : (q : Queues) → Got [] q q
Got-none q = (sym (append-nil q.eliza), sym (append-nil q.ace))

Got-then :
    (xs ys : List Job) (q q' q'' : Queues) → Got xs q q' → Got ys q' q'' → Got (xs ++ ys) q q''
Got-then xs ys q q' q'' (a, b) (c, d) =
    let not_ace : Job → Bool = λ job. not (is_ace job) in
    (
      rw (c, a, keep-append not_ace xs ys)
          (append_assoc q.eliza (keep not_ace xs) (keep not_ace ys)),
      rw (d, b, keep-append is_ace xs ys) (append_assoc q.ace (keep is_ace xs) (keep is_ace ys)),
    )

-- The queues behind one job.
abbrev put : Bool → Job → Queues → Queues
put b job q =
    if b then record q { ace = q.ace ++ (job ∷ []) } else record q { eliza = q.eliza ++ (job ∷ []) }

put-Got : (job : Job) (q : Queues) (b : Bool) → is_ace job ≡ b → Got (job ∷ []) q (put b job q)
put-Got job q true e = rw e (sym (append-nil q.eliza), refl)
put-Got job q false e = rw e (refl, sym (append-nil q.ace))

enqueue-Got : (rep : ℕ) (runs : List Run) (q : Queues) → Got (round rep runs) q (enqueue rep runs q)
unfolding enqueue
enqueue-Got rep [] q = Got-none q
enqueue-Got rep (run ∷ runs) q =
    let q' : Queues = put (is_ace (rep, run)) (rep, run) q in
    Got-then ((rep, run) ∷ []) (round rep runs) q q' (enqueue rep runs q')
      (put-Got (rep, run) q (is_ace (rep, run)) refl) (enqueue-Got rep runs q')

enqueue_reps-Got :
    (rep left : ℕ) (runs : List Run) (q : Queues)
    → Got (rounds rep left runs) q (enqueue_reps rep left runs q)
unfolding enqueue_reps rounds
enqueue_reps-Got rep zero runs q = Got-none q
enqueue_reps-Got rep (suc left) runs q =
    Got-then (round rep runs) (rounds (suc rep) left runs) q (enqueue rep runs q)
      (enqueue_reps (suc rep) left runs (enqueue rep runs q)) (enqueue-Got rep runs q)
      (enqueue_reps-Got (suc rep) left runs (enqueue rep runs q))

enqueue_plan-Got :
    (repetitions : ℕ) (plan : PlanList) (q : Queues)
    → Got (all_jobs repetitions plan) q (enqueue_plan repetitions plan q)
unfolding enqueue_plan all_jobs
enqueue_plan-Got repetitions [] q = Got-none q
enqueue_plan-Got repetitions ((db, runs) ∷ plan) q =
    Got-then (rounds 0 repetitions runs) (all_jobs repetitions plan) q
      (enqueue_reps 0 repetitions runs q)
      (enqueue_plan repetitions plan (enqueue_reps 0 repetitions runs q))
      (enqueue_reps-Got 0 repetitions runs q)
      (enqueue_plan-Got repetitions plan (enqueue_reps 0 repetitions runs q))

-- How many jobs there are.
length-round : (rep : ℕ) (runs : List Run) → length (round rep runs) ≡ length runs
length-round rep [] = refl
length-round rep (run ∷ runs) = omega (arith, length-round rep runs)

length-rounds :
    (rep left : ℕ) (runs : List Run) → length (rounds rep left runs) ≡ length runs * left
unfolding rounds
length-rounds rep zero runs = ground arith
length-rounds rep (suc left) runs =
    length-append (round rep runs) (rounds (suc rep) left runs)
    ∙ ground (arith, length-round rep runs, length-rounds (suc rep) left runs)

length-all_jobs :
    (repetitions : ℕ) (plan : PlanList)
    → length (all_jobs repetitions plan) ≡ plan_size plan * repetitions
unfolding all_jobs plan_size
length-all_jobs repetitions [] = ground arith
length-all_jobs repetitions ((db, runs) ∷ plan) =
    length-append (rounds 0 repetitions runs) (all_jobs repetitions plan)
    ∙ ground (arith, length-rounds 0 repetitions runs, length-all_jobs repetitions plan)

length-split :
    (p : Job → Bool) (jobs : List Job)
    → length (keep (λ job. not (p job)) jobs) + length (keep p jobs) ≡ length jobs
length-split p [] = omega arith
length-split p (job ∷ jobs) = elim (Bool-cases (p job)) [
  | inl kept ↦ rw kept (omega (arith, length-split p jobs))
  | inr left ↦ rw left (omega (arith, length-split p jobs))
]

-- What the two queues hold of a plan.
pub record Shares (repetitions : ℕ) (plan : PlanList) (q : Queues) : Type 0 where
  pub eliza : q.eliza ≡ keep (λ job. not (is_ace job)) (all_jobs repetitions plan)
  pub ace : q.ace ≡ keep is_ace (all_jobs repetitions plan)
  pub count : length q.eliza + length q.ace ≡ total repetitions plan

-- The jobs of a plan are, for each of its databases in turn, and for each repetition from 0 on, each
-- of the database's runs. The `ace` queue holds those of them that are for the host `ace`, and the
-- other queue the rest of them, both in this order; together they hold as many as `total` says.
pub split_queues-Shares :
    (repetitions : ℕ) (plan : PlanList) → Shares repetitions plan (split_queues repetitions plan)
unfolding split_queues total
split_queues-Shares repetitions plan =
    let start : Queues = record { eliza = []; ace = [] } in
    let (eliza, ace) = enqueue_plan-Got repetitions plan start in
    record {
      eliza = eliza;
      ace = ace;
      count =
          rw (eliza, ace)
            (length-split is_ace (all_jobs repetitions plan) ∙ length-all_jobs repetitions plan);
    }
