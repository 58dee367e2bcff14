-- ===== src/Parsers/Redis.antt =====
-- `parse_redis_output`
pub mod Order
use memsafedb.Prelude.{
  ℕ, ◌-◌, ◌≡◌, refl, Bool, not, Option, none, some, List, [], ◌∷◌, map, length, take, drop,
  get_last?, if◌then◌else◌,
}
use memsafedb.Prelude.Gen.{Gen, done, yield, ◌then◌}
use memsafedb.Text.{Text, codes, text_eq, lower}
use memsafedb.Regex.{
  Re, alt, seq, group, plus, lit, lit_ci, eps, Match, search_in, find_iter, group_text,
}
use memsafedb.Rows.{Floats, Row, number, with_float}
use memsafedb.Parsers.Classes.{workload_ci, label_char_ci, spaces, maybe_spaces, number_group}
use memsafedb.Parsers.Variant.{variant_name}

-- `REDIS_YCSB\s+workload=([a-f])\s+variant=([a-z0-9-]+)\s+phase=(load|run)`, ignoring case
unfoldable pub redis_marker : Re
redis_marker = lit_ci (codes "REDIS_YCSB") (
    spaces (
      lit_ci (codes "workload=") (
        seq (group 1 workload_ci) (
          spaces (
            lit_ci (codes "variant=") (
              seq (group 2 (plus label_char_ci)) (
                spaces (
                  lit_ci (codes "phase=")
                    (group 3 (alt (lit_ci (codes "load") eps) (lit_ci (codes "run") eps)))))))))))

-- `\[OVERALL\],\s*Throughput\(ops/sec\),\s*([0-9.]+)`, ignoring case
pub overall_throughput : Re
overall_throughput =
    lit_ci (codes "[OVERALL],")
      (maybe_spaces (lit_ci (codes "Throughput(ops/sec),") (maybe_spaces (number_group 1))))

-- `operations;\s*([0-9.]+)\s+current ops/sec;`
pub current_throughput : Re
current_throughput =
    lit (codes "operations;")
      (maybe_spaces (seq (number_group 1) (spaces (lit (codes "current ops/sec;") eps))))

-- What a segment says of the throughput: the text of the overall figure, or else that of the last
-- current one.
unfoldable pub throughput_text : Text → Option Text
unfolding search_in find_iter group_text overall_throughput current_throughput
throughput_text segment = elim (search_in overall_throughput segment) [
  | some m ↦ some (group_text 1 m)
  | none ↦ get_last? (map (group_text 1) (find_iter current_throughput segment))
]

-- `t[from:to]`
abbrev pub slice : ℕ → ℕ → Text → Text
slice from to t = take (to - from) (drop from t)

unfoldable pub is_run_phase : Match → Bool
unfolding text_eq lower group_text
is_run_phase m = text_eq (lower (group_text 3 m)) (codes "run")

-- `markers[idx + 1].start()`, or the end of the output
abbrev pub next_start : Text → List Match → ℕ
next_start output [] = length output
next_start output (m ∷ ms) = m.start

module _ (fl : Floats) (repetition : ℕ) where
  abbrev pub redis_row : Text → Text → fl.Float → Row fl.Float
  redis_row variant workload throughput = record {
    database = codes "redis";
    variant = variant;
    benchmark = codes "ycsb";
    workload = workload;
    metric_name = codes "throughput";
    metric_value = number throughput;
    unit = codes "ops/sec";
    repetition = repetition;
  }

  -- The body of the loop for a marker of the run phase.
  unfoldable pub segment_rows : Match → Text → Gen (Row fl.Float)
  segment_rows m segment = elim (throughput_text segment) [
    | none ↦ done
    | some t ↦ with_float fl t λ throughput.
        yield
          (redis_row (variant_name (lower (group_text 2 m))) (lower (group_text 1 m)) throughput)
          done
  ]

  unfoldable pub markers_rows : Text → List Match → Gen (Row fl.Float)
  markers_rows output [] = done
  markers_rows output (m ∷ ms) =
      let rest = markers_rows output ms in
      if not (is_run_phase m)
      then rest
      else segment_rows m (slice m.end_state.at (next_start output ms) output) then rest

  unfoldable pub parse_redis_output : Text → Gen (Row fl.Float)
  unfolding find_iter redis_marker markers_rows is_run_phase segment_rows throughput_text lower
      group_text variant_name
  parse_redis_output output = markers_rows output (find_iter redis_marker output)

  pub parse_redis_output_lem :
      (output : Text)
      → parse_redis_output output ≡ markers_rows output (find_iter redis_marker output)
  unfolding parse_redis_output
  parse_redis_output_lem output = refl
