-- ===== src/Structs/Runs.antt =====
-- `format_output`, `execute`, and the result file of `run`, outside of the debug mode. The order in
-- which the configurations are run is a parameter, since they are shuffled.
pub mod Appended
use memsafedb.Prelude.{
  ℕ, zero, suc, ◌+◌, Bool, true, false, not, ◌&&◌, Option, none, some, List, [], ◌∷◌, ◌++◌, ◌>>=◌,
  drop, if◌then◌else◌,
}
use memsafedb.Text.{Text, codes, show, split_on, text_eq, is_empty, newline}
use memsafedb.Rows.{Floats}
use memsafedb.Structs.Latency.{calculate_weighted_average_latency}
use memsafedb.Structs.Commands.{Configuration, NbOpsRow, get_conf, get_command}

-- The floats, and what the queues' latency is computed with: `queue_latency n t` is
-- `1 / (n / (t * 10**9))`, `none` where a division by zero raises; `str` is `f"{x}"`.
pub record Numbers : Type 1 where
  pub floats : Floats
  pub queue_latency : ℕ → floats.Float → Option floats.Float
  pub str : floats.Float → Text

-- What a run of one configuration leaves: what is appended to the raw file, and its line.
pub record Executed : Type 0 where
  pub raw : Text
  pub line : Text

abbrev skipped : Executed
skipped = record { raw = []; line = [] }

abbrev first_word : List Text → Option Text
first_word [] = none
first_word (w ∷ ws) = some w

module _ (num : Numbers) where
  -- The latency in its format; `none` where a value error, an index error or a division by zero
  -- is caught, and also for a type of benchmark that is not known.
  unfoldable pub latency_text : Text → ℕ → Text → Option Text
  unfolding calculate_weighted_average_latency split_on text_eq
  latency_text type_bench nb_ops stdout =
      if text_eq type_bench (codes "ycsb")
      then (do
        latency ← calculate_weighted_average_latency num.floats stdout
        some (num.str latency))
      else if text_eq type_bench (codes "queue_bench")
      then (do
        word ← first_word (drop 7 (split_on b' ' stdout))
        time ← num.floats.of_text word
        lat ← num.queue_latency nb_ops time
        some (num.floats.fixed3 lat))
      else none

  abbrev fields : ℕ → Configuration → ℕ → Text → Text → Text
  fields rep c nb_ops sep last =
      show rep
      ++ (sep
          ++ (c.host
              ++ (sep
                  ++ (c.arch
                      ++ (sep
                          ++ (c.system
                              ++ (sep
                                  ++ (c.name
                                      ++ (sep
                                          ++ (c.nthreads ++ (sep ++ (show nb_ops ++ last))))))))))))

  abbrev line_of : ℕ → Configuration → ℕ → Option Text → Text
  line_of rep c nb_ops none = []
  line_of rep c nb_ops (some latency) =
      fields rep c nb_ops (codes ",") (codes "," ++ (latency ++ (newline ∷ [])))

  unfoldable pub format_output : Configuration → ℕ → Text → ℕ → Text
  unfolding latency_text show
  format_output c nb_ops stdout rep =
      if is_empty stdout then [] else line_of rep c nb_ops (latency_text c.type_bench nb_ops stdout)

  module _ (user : Text) (rows : List NbOpsRow) (run_process : Text → Text → Text) where
    abbrev executed : Configuration → ℕ → ℕ → Text → Executed
    executed c nb_ops rep stdout = record {
      raw = fields rep c nb_ops (codes " - ") (newline ∷ []) ++ (stdout ++ (newline ∷ []));
      line = format_output c nb_ops stdout rep;
    }

    abbrev run_command : Configuration → ℕ → ℕ → Option Text → Option Executed
    run_command c nb_ops rep none = none
    run_command c nb_ops rep (some cmd) = some (executed c nb_ops rep (run_process c.host cmd))

    -- `execute`; `none` where it raises.
    unfoldable pub execute : Configuration → ℕ → Option Executed
    unfolding get_conf get_command format_output
    execute c rep = elim (get_conf rows c) [
      | none ↦ some skipped
      | some nb_ops ↦ run_command c nb_ops rep (get_command user c nb_ops)
    ]

    -- The loop over the runs: what is written to the result file; an exception ends it.
    unfoldable pub run_lines : List (Configuration × ℕ) → Text
    unfolding execute
    run_lines [] = []
    run_lines ((c, rep) ∷ more) = elim (execute c rep) [
      | none ↦ []
      | some e ↦ e.line ++ run_lines more
    ]

abbrev pub header : Text
header = codes "repetition,host,arch,system,name,nthreads,nb_ops,latency\n"

abbrev is_there : Option Text → Bool
is_there none = false
is_there (some t) = true

abbrev kept : Bool → Option Text → Text
kept true (some old) = old
kept append old = []

-- The result file after `run`: `old` is what the file held, if it was there, and `lines` what the
-- loop wrote.
unfoldable pub result_file : Bool → Option Text → Text → Text
result_file append old lines =
    let fresh = not (append && is_there old) in
    kept append old ++ ((if fresh then header else []) ++ lines)
