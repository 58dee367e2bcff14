-- ===== src/Sweep/Workers/Invariant.antt =====
-- What every interleaving of the two threads of `run_queue` keeps.
use memsafedb.Prelude.{
  ℕ, ◌+◌, ◌≡◌, refl, sym, ap, ◌∙◌, Option, none, some, List, [], ◌∷◌, ◌++◌, length, drop, drop-add,
  arith, if◌then◌else◌, append-nil, append_assoc,
}
use memsafedb.Sweep.Queues.{PlanList, Job, split_queues, total}
use memsafedb.Sweep.Queues.Split.{split_queues-Shares}
use memsafedb.Sweep.Workers.{
  Who, eliza, ace, Worker, System, Event, begin, finish, set_current, begin_job, finish_job, step,
  then_steps, steps, concurrent,
}

-- The jobs that a thread still has to finish: the one it carries out, and its queue.
abbrev in_hand : Option Job → List Job
in_hand none = []
in_hand (some job) = job ∷ []

abbrev pub pending : Worker → List Job
pending w = in_hand w.running ++ w.queue

add_pairs :
    (a b c d x : ℕ) {y z : ℕ} → y ≡ x + (a + b) → z ≡ y + (c + d) → z ≡ x + ((a + c) + (b + d))
add_pairs a b c d x e f = omega arith

add_one : (a b x : ℕ) {y z : ℕ} → y ≡ x + a → z ≡ y + b → z ≡ x + (a + b)
add_one a b x e f = omega arith

add_ends : (a b z : ℕ) {x y : ℕ} → a + y ≡ x → b + z ≡ y → (a + b) + z ≡ x
add_ends a b z e f = omega arith

module _ {Row : Type 0} where
  -- What a step adds: the jobs that a thread ends, the rows, the warnings.
  abbrev one_end : Who → Event Row → ℕ
  one_end eliza (finish eliza o) = 1
  one_end ace (finish ace o) = 1
  one_end _ _ = 0

  abbrev one_rows : Event Row → List Row
  one_rows (begin who) = []
  one_rows (finish who o) = o.rows

  abbrev one_warning : Event Row → ℕ
  one_warning (begin who) = 0
  one_warning (finish who o) = if o.ok then 0 else 1

  abbrev pub ends : Who → List (Event Row) → ℕ
  ends who [] = 0
  ends who (e ∷ es) = one_end who e + ends who es

  abbrev pub rows_of : List (Event Row) → List Row
  rows_of [] = []
  rows_of (e ∷ es) = one_rows e ++ rows_of es

  abbrev pub failures : List (Event Row) → ℕ
  failures [] = 0
  failures (e ∷ es) = one_warning e + failures es

  -- What the steps `es` from `s` to `t` do: they take each queue from its front, count each job once,
  -- and write the rows of the jobs in the order in which they end.
  pub record IsRun (es : List (Event Row)) (s t : System Row) : Type 0 where
    pub done : t.shared.done ≡ s.shared.done + (ends eliza es + ends ace es)
    pub warnings : t.shared.warnings ≡ s.shared.warnings + failures es
    pub written : t.shared.written ≡ s.shared.written ++ rows_of es
    pub eliza_left : pending t.eliza_worker ≡ drop (ends eliza es) (pending s.eliza_worker)
    pub eliza_ends :
        ends eliza es + length (pending t.eliza_worker) ≡ length (pending s.eliza_worker)
    pub ace_left : pending t.ace_worker ≡ drop (ends ace es) (pending s.ace_worker)
    pub ace_ends : ends ace es + length (pending t.ace_worker) ≡ length (pending s.ace_worker)

  record Stepped (e : Event Row) (s t : System Row) : Type 0 where
    done : t.shared.done ≡ s.shared.done + (one_end eliza e + one_end ace e)
    warnings : t.shared.warnings ≡ s.shared.warnings + one_warning e
    written : t.shared.written ≡ s.shared.written ++ one_rows e
    eliza_left : pending t.eliza_worker ≡ drop (one_end eliza e) (pending s.eliza_worker)
    eliza_ends : one_end eliza e + length (pending t.eliza_worker) ≡ length (pending s.eliza_worker)
    ace_left : pending t.ace_worker ≡ drop (one_end ace e) (pending s.ace_worker)
    ace_ends : one_end ace e + length (pending t.ace_worker) ≡ length (pending s.ace_worker)

  step-Stepped :
      (e : Event Row) (s : System Row) {t : System Row} → step e s ≡ some t → Stepped e s t
  unfolding step begin_job finish_job set_current
  step-Stepped (begin eliza) s q = let n = append-nil s.shared.written in ground arith
  step-Stepped (begin ace) s q = let n = append-nil s.shared.written in ground arith
  step-Stepped (finish eliza o) s q = ground arith
  step-Stepped (finish ace o) s q = ground arith

  then-IsRun :
      (e : Event Row) (es : List (Event Row)) {s t u : System Row}
      → Stepped e s t
      → IsRun es t u
      → IsRun (e ∷ es) s u
  then-IsRun e es {s} {t} {u} p q = record {
    done = add_pairs _ _ _ _ _ p.done q.done;
    warnings = add_one _ _ _ p.warnings q.warnings;
    written =
        q.written
        ∙ ap (λ w. w ++ rows_of es) p.written
        ∙ append_assoc s.shared.written (one_rows e) (rows_of es);
    eliza_left =
        q.eliza_left
        ∙ ap (drop (ends eliza es)) p.eliza_left
        ∙ sym (drop-add (one_end eliza e) (ends eliza es) (pending s.eliza_worker));
    eliza_ends = add_ends _ _ _ p.eliza_ends q.eliza_ends;
    ace_left =
        q.ace_left
        ∙ ap (drop (ends ace es)) p.ace_left
        ∙ sym (drop-add (one_end ace e) (ends ace es) (pending s.ace_worker));
    ace_ends = add_ends _ _ _ p.ace_ends q.ace_ends;
  }

  none-IsRun : (s : System Row) → IsRun [] s s
  none-IsRun s = record {
    done = omega arith;
    warnings = omega arith;
    written = sym (append-nil s.shared.written);
    eliza_left = refl;
    eliza_ends = omega arith;
    ace_left = refl;
    ace_ends = omega arith;
  }

  -- Every interleaving `es` of the steps of the two threads that can be taken from a state `s` to a
  -- state `t`: the count of done jobs grows by the jobs that end, the warnings by the jobs that end
  -- without success, the file gets the rows of the jobs that end, in the order in which they end,
  -- and the jobs that each thread has still to finish are what is left of its own in their order,
  -- without those that it ended.
  pub steps-IsRun :
      (es : List (Event Row)) (s : System Row) {t : System Row} → steps es s ≡ some t → IsRun es s t
  unfolding steps
  steps-IsRun [] s {t} q = let same : s ≡ t = cc in rw (sym same) (none-IsRun s)
  steps-IsRun (e ∷ es) s {t} q =
      (elim (step e s)
          as (λ o. step e s ≡ o → then_steps o (steps es) ≡ some t → IsRun (e ∷ es) s t) [
            | none ↦ λ r f. (cc)
            | some s' ↦ λ r f. then-IsRun e es (step-Stepped e s r) (steps-IsRun es s' f)
          ])
        refl q

finish_count :
    (a b : ℕ) {d x y m n k : ℕ}
    → d ≡ 0 + (a + b)
    → a + x ≡ m
    → b + y ≡ n
    → x ≡ 0
    → y ≡ 0
    → m + n ≡ k
    → d ≡ k
finish_count a b e f g h k l = omega arith

-- In the concurrent mode, on any plan and any number of repetitions: whatever interleaving of the two
-- threads leads from the start to a state `t` in which neither thread has a job left, `state['done']`
-- is then the `total` that the progress line divides by.
pub steps-total :
    {Row : Type 0} (repetitions : ℕ) (plan : PlanList) (es : List (Event Row)) {t : System Row}
    → steps es (concurrent (split_queues repetitions plan)) ≡ some t
    → pending t.eliza_worker ≡ []
    → pending t.ace_worker ≡ []
    → t.shared.done ≡ total repetitions plan
steps-total repetitions plan es {t} e p r =
    let queues = split_queues repetitions plan in
    let run = steps-IsRun es (concurrent queues) e in
    finish_count _ _ run.done run.eliza_ends run.ace_ends (ap length p) (ap length r)
      (split_queues-Shares repetitions plan).count
