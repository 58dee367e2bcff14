-- ===== src/Ycsb/Exec.antt =====
-- `make_exec`, over what a script prints and whether it exits with 0.
use memsafedb.Prelude.{
  ℕ, ◌*◌, Bool, true, ◌&&◌, Option, none, some, List, [], ◌∷◌, ◌==◌, length, keep,
}
use memsafedb.Text.{Text, codes, text_eq, join_lines}
use memsafedb.Rows.{Floats}
use memsafedb.Sweep.Specs.{Variant}
use memsafedb.Ycsb.Scripts.{all_workloads}
use memsafedb.Ycsb.Output.{TaggedRow}

-- `_run_script`: the output, and whether the return code is 0
abbrev pub Runner : Type 0
Runner = Option Text → Text → Text × Bool

-- The outputs of the variants in turn, and whether all of them exited with 0.
unfoldable pub run_variants : Runner → (Text → Text) → List Variant → List Text × Bool
run_variants run script [] = ([], true)
run_variants run script ((variant, devshell) ∷ vs) =
    let (outputs, rest_ok) = run_variants run script vs in
    let (out, rc_ok) = run devshell (script variant) in (out ∷ outputs, rc_ok && rest_ok)

unfoldable pub expected : List Variant → List ℕ → ℕ
expected variants thread_set = length variants * length all_workloads * length thread_set

module _ (fl : Floats) where
  abbrev pub is_throughput : TaggedRow fl.Float → Bool
  is_throughput r = text_eq r.metric_name (codes "throughput")

  -- `sum(1 for r in rows if r['metric_name'] == 'throughput')`
  unfoldable pub got : List (TaggedRow fl.Float) → ℕ
  unfolding text_eq
  got rows = length (keep is_throughput rows)

  pub record Executed : Type 0 where
    pub rows : List (TaggedRow fl.Float)
    pub ok : Bool
    pub output : Text

  -- `none` if the parser raises.
  unfoldable pub exec :
      Runner
      → (Text → Text)
      → (Text → Option (List (TaggedRow fl.Float)))
      → List Variant
      → List ℕ
      → Option Executed
  unfolding run_variants expected got join_lines
  exec run script parse variants thread_set =
      let (outputs, rc_ok) = run_variants run script variants in
      let full = join_lines outputs in
      elim (parse full) [
        | none ↦ none
        | some rows ↦ some (record {
          rows = rows;
          ok = rc_ok && got rows == expected variants thread_set;
          output = full;
        })
      ]
