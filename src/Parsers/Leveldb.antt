-- ===== src/Parsers/Leveldb.antt =====
-- `parse_leveldb_output`
use memsafedb.Prelude.{
  ◌≡◌, refl, ℕ, zero, suc, ◌+◌, Bool, ◌&&◌, Option, none, some, List, [], ◌∷◌, if◌then◌else◌,
}
use memsafedb.Prelude.Gen.{Gen, done, yield, scan, ◌then◌}
use memsafedb.Text.{Text, codes, strip, split_on, newline, contains, lower, int}
use memsafedb.Regex.{
  Re, char, seq, group, plus, lit, lit_ci, eps, bol, eol, digit, number_char, Match, search_in,
  find_iter, match_at, group_text,
}
use memsafedb.Rows.{Floats, Row, Value, number, text, Metric, with_float, given}
use memsafedb.Parsers.Classes.{is_upper, workload_ci, name_char, spaces, number_group}
use memsafedb.Parsers.Variant.{sanitizer_variant_name}
use memsafedb.Parsers.LeveldbBench.{threaded}

-- The block's lines are kept latest first.
pub record BlockState : Type 0 where
  pub current_workload : Option Text
  pub current_threads : ℕ
  pub current_variant : Option Text
  pub current_block_lines : List Text

abbrev pub start : BlockState
start = record {
  current_workload = none;
  current_threads = 1;
  current_variant = none;
  current_block_lines = [];
}

-- `^===\s+Running workload([a-f])\s+-\s+threads:\s+(\d+)\s+-\s+([a-zA-Z0-9_-]+)\s+===$`, ignoring
-- case
block_marker_pattern : Re
block_marker_pattern = seq bol (
    lit (codes "===") (
      spaces (
        lit_ci (codes "Running workload") (
          seq (group 1 workload_ci) (
            spaces (
              lit (codes "-") (
                spaces (
                  lit_ci (codes "threads:") (
                    spaces (
                      seq (group 2 (plus digit)) (
                        spaces (
                          lit (codes "-") (
                            spaces (
                              seq (group 3 (plus name_char))
                                (spaces (lit (codes "===") eol))))))))))))))))

-- `Run throughput\(ops/sec\):\s+([\d.]+)`
unfoldable pub run_throughput : Re
run_throughput = lit (codes "Run throughput(ops/sec):") (spaces (number_group 1))

-- `\[([A-Z]+): Count=(\d+) Max=[0-9.]+ Min=[0-9.]+ Avg=([0-9.]+)\]`
unfoldable pub op_pattern : Re
op_pattern = lit (codes "[") (
    seq (group 1 (plus (char is_upper))) (
      lit (codes ": Count=") (
        seq (group 2 (plus digit)) (
          lit (codes " Max=") (
            seq (plus number_char) (
              lit (codes " Min=") (
                seq (plus number_char)
                  (lit (codes " Avg=") (seq (number_group 3) (lit (codes "]") eps))))))))))

unfoldable pub block_marker : Text → Option Match
unfolding match_at block_marker_pattern
block_marker line = match_at block_marker_pattern line

unfoldable pub read_block_marker : Match → BlockState
unfolding group_text int lower sanitizer_variant_name
read_block_marker m = record {
  current_workload = some (group_text 1 m);
  current_threads = int (group_text 2 m);
  current_variant = some (sanitizer_variant_name (lower (group_text 3 m)));
  current_block_lines = [];
}

-- `"operations;" in prev and "[" in prev and "]" in prev`
unfoldable pub is_status_line : Text → Bool
unfolding contains
is_status_line line =
    contains (codes "operations;") line && contains (codes "[") line && contains (codes "]") line

-- The search backwards from the line before the throughput line.
unfoldable pub last_status_line : List Text → Option Text
unfolding is_status_line strip
last_status_line [] = none
last_status_line (line ∷ earlier) =
    let rest = last_status_line earlier in
    let prev = strip line in if is_status_line prev then some prev else rest

-- An operation's count and average, as they are written.
pub record OpStat : Type 0 where
  pub count : ℕ
  pub average : Text

unfoldable pub op_stat : Match → OpStat
unfolding int group_text
op_stat m = record { count = int (group_text 2 m); average = group_text 3 m }

unfoldable pub op_stats : List Match → List OpStat
unfolding op_stat
op_stats [] = []
op_stats (m ∷ ms) = op_stat m ∷ op_stats ms

abbrev pub throughput : Metric
throughput = record { name = codes "throughput"; unit = codes "ops/sec" }

abbrev pub latency_avg : Metric
latency_avg = record { name = codes "latency_avg"; unit = codes "us" }

module _ (fl : Floats) where
  -- The loop over the operations; `none` if a `float` raises.
  unfoldable pub weighted : ℕ → fl.Float → List OpStat → Option (ℕ × fl.Float)
  weighted count sum [] = some (count, sum)
  weighted count sum (op ∷ ops) = elim (fl.of_text op.average) [
    | none ↦ none
    | some avg ↦ weighted (count + op.count) (fl.add sum (fl.times op.count avg)) ops
  ]

  -- `if total_count > 0: avg_latency = total_weighted_sum / total_count`
  abbrev pub average_of : ℕ → fl.Float → Option fl.Float
  average_of zero sum = none
  average_of (suc n) sum = some (fl.over sum (suc n))

module _ (fl : Floats) (repetition : ℕ) where
  abbrev pub leveldb_row : Text → Text → Metric → Value fl.Float → Row fl.Float
  leveldb_row variant workload metric value = record {
    database = codes "leveldb";
    variant = variant;
    benchmark = codes "ycsb";
    workload = workload;
    metric_name = metric.name;
    metric_value = value;
    unit = metric.unit;
    repetition = repetition;
  }

  unfoldable pub average_row : Text → Text → Option fl.Float → Gen (Row fl.Float)
  average_row variant workload none = done
  average_row variant workload (some avg) =
      yield (leveldb_row variant workload latency_avg (text (fl.fixed3 avg))) done

  unfoldable pub latency_rows : Text → Text → List OpStat → Gen (Row fl.Float)
  unfolding weighted average_row
  latency_rows variant workload ops = elim (weighted fl 0 fl.zero ops) [
    | none ↦ Gen.value_error
    | some (count, sum) ↦ average_row variant workload (average_of fl count sum)
  ]

  unfoldable pub status_rows : Text → Text → Option Text → Gen (Row fl.Float)
  unfolding latency_rows op_stats find_iter op_pattern
  status_rows variant workload none = done
  status_rows variant workload (some line) =
      latency_rows variant workload (op_stats (find_iter op_pattern line))

  -- `if throughput_match and current_variant and current_workload: …`, with the lines of the block
  -- before this one
  unfoldable pub throughput_rows :
      ℕ → List Text → Option Match → Option Text → Option Text → Gen (Row fl.Float)
  unfolding group_text threaded last_status_line status_rows
  throughput_rows threads earlier (some m) (some variant) (some workload) =
      with_float fl (group_text 1 m) λ value.
        yield (leveldb_row variant (threaded workload threads) throughput (number value))
          (status_rows variant (threaded workload threads) (last_status_line earlier))
  throughput_rows threads earlier _ _ _ = done

  unfoldable pub leveldb_step : BlockState → Text → Gen (Row fl.Float) × BlockState
  leveldb_step s raw =
      let line = strip raw in
      elim (block_marker line) [
        | some m ↦ (done, read_block_marker m)
        | none ↦ (
          throughput_rows s.current_threads s.current_block_lines (search_in run_throughput line)
              (given s.current_variant) (given s.current_workload),
          record s { current_block_lines = line ∷ s.current_block_lines },
        )
      ]

  unfoldable pub parse_leveldb_output : Text → Gen (Row fl.Float)
  unfolding scan split_on leveldb_step strip block_marker read_block_marker throughput_rows
      search_in run_throughput
  parse_leveldb_output output = scan leveldb_step start (split_on newline output)

  pub parse_leveldb_output_lem :
      (output : Text)
      → parse_leveldb_output output ≡ scan leveldb_step start (split_on newline output)
  unfolding parse_leveldb_output
  parse_leveldb_output_lem output = refl
