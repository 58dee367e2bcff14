-- ===== src/Sweep/Workers.antt =====
-- `run_queue`, by two threads that share the writer and `state` under a lock: each turns jobs of
-- its queue into two critical sections, and the threads interleave in any order between them.
pub mod Invariant
use memsafedb.Prelude.{
  ℕ, zero, suc, Bool, true, false, Option, none, some, List, [], ◌∷◌, ◌++◌, if◌then◌else◌,
}
use memsafedb.Text.{Text, codes, show}
use memsafedb.Sweep.Plan.{Run}
use memsafedb.Sweep.Queues.{Job, Queues}

pub data Who : Type 0 where
  eliza ace : Who

-- `state`, and the file that the rows go to. A label that is not there is shown as `-`.
pub record Shared (Row : Type 0) : Type 0 where
  pub done : ℕ
  pub current_eliza : Option Text
  pub current_ace : Option Text
  pub last : Option Text
  pub warnings : ℕ
  pub written : List Row

-- A thread: the job that it carries out, if it is between its critical sections, and its queue.
pub record Worker : Type 0 where
  pub running : Option Job
  pub queue : List Job

pub record System (Row : Type 0) : Type 0 where
  pub eliza_worker : Worker
  pub ace_worker : Worker
  pub shared : Shared Row

-- What `execute_run` returns; `elapsed` as it is printed.
pub record Outcome (Row : Type 0) : Type 0 where
  pub rows : List Row
  pub elapsed : Text
  pub ok : Bool

-- `f"{run['label']} (rep {rep})"`
unfoldable pub job_label : Job → Text
unfolding show
job_label (rep, run) = run.label ++ (codes " (rep " ++ (show rep ++ codes ")"))

-- A step of one thread. What `execute_run` returns is up to the environment.
pub data Event (Row : Type 0) : Type 0 where
  begin : Who → Event Row
  finish : Who → Outcome Row → Event Row

module _ {Row : Type 0} where
  -- `state['current'][host_key] = label`
  unfoldable pub set_current : Who → Text → Shared Row → Shared Row
  set_current eliza label s = record s { current_eliza = some label }
  set_current ace label s = record s { current_ace = some label }

  abbrev pub worker : Who → System Row → Worker
  worker eliza s = s.eliza_worker
  worker ace s = s.ace_worker

  abbrev pub set_worker : Who → Worker → System Row → System Row
  set_worker eliza w s = record s { eliza_worker = w }
  set_worker ace w s = record s { ace_worker = w }

  -- The first critical section.
  unfoldable pub begin_job : Who → Job → Shared Row → Shared Row
  begin_job who job s = set_current who (job_label job) s

  -- The second one.
  unfoldable pub finish_job : Who → Job → Outcome Row → Shared Row → Shared Row
  finish_job who job o s = set_current who (codes "-") (record s {
    written = s.written ++ o.rows;
    done = suc s.done;
    warnings = if o.ok then s.warnings else suc s.warnings;
    last = some (job_label job ++ (codes " in " ++ (o.elapsed ++ codes "s")));
  })

  abbrev started : Who → Worker → System Row → Option (System Row)
  started who w s = elim w.running [
    | some job ↦ none
    | none ↦ elim w.queue [
      | [] ↦ none
      | job ∷ jobs ↦ some (record (set_worker who (record { running = some job; queue = jobs }) s) {
        shared = begin_job who job s.shared;
      })
    ]
  ]

  abbrev finished : Who → Worker → Outcome Row → System Row → Option (System Row)
  finished who w o s = elim w.running [
    | none ↦ none
    | some job ↦ some (record (set_worker who (record { running = none; queue = w.queue }) s) {
      shared = finish_job who job o s.shared;
    })
  ]

  -- `none` where the thread cannot take that step now.
  unfoldable pub step : Event Row → System Row → Option (System Row)
  unfolding begin_job finish_job
  step (begin who) s = started who (worker who s) s
  step (finish who o) s = finished who (worker who s) o s

  abbrev pub then_steps :
      Option (System Row) → (System Row → Option (System Row)) → Option (System Row)
  then_steps none f = none
  then_steps (some s) f = f s

  -- An interleaving: `none` if one of its steps cannot be taken.
  unfoldable pub steps : List (Event Row) → System Row → Option (System Row)
  unfolding step
  steps [] s = some s
  steps (e ∷ es) s = then_steps (step e s) (steps es)

abbrev idle : List Job → Worker
idle jobs = record { running = none; queue = jobs }

abbrev fresh : {Row : Type 0} → Shared Row
fresh = record {
  done = 0;
  current_eliza = none;
  current_ace = none;
  last = none;
  warnings = 0;
  written = [];
}

-- The two threads of the concurrent mode, and the one of `--sequential`.
abbrev pub concurrent : {Row : Type 0} → Queues → System Row
concurrent q = record { eliza_worker = idle q.eliza; ace_worker = idle q.ace; shared = fresh }

abbrev pub sequential : {Row : Type 0} → Queues → System Row
sequential q = record {
  eliza_worker = idle (q.eliza ++ q.ace);
  ace_worker = idle [];
  shared = fresh;
}
