-- ===== src/Parsers/YcsbJava.antt =====
-- `parse_ycsb_java_output`
use memsafedb.Prelude.{◌≡◌, refl, ℕ, not, ◌||◌, Option, none, some, ◌==◌, if◌then◌else◌}
use memsafedb.Prelude.Gen.{Gen, done, yield, scan}
use memsafedb.Text.{Text, codes, strip, split_on, newline, starts_with, contains, lower}
use memsafedb.Regex.{Re, char, seq, group, star, lit, eps, Match, search_in, match_at, group_text}
use memsafedb.Rows.{Floats, Row, Metric, number, with_float, given}
use memsafedb.Parsers.Classes.{is_workload, number_group}

pub record YcsbState : Type 0 where
  pub current_workload : Option Text
  pub current_variant : Option Text

abbrev pub start : YcsbState
start = record { current_workload = none; current_variant = none }

-- `=== Running workload([a-f]) \(([^)]*)\) ===`
workload_pattern : Re
workload_pattern = lit (codes "=== Running workload") (
    seq (group 1 (char is_workload)) (
      lit (codes " (")
        (seq (group 2 (star (char (λ c. not (c == b')'))))) (lit (codes ") ===") eps))))

-- A metric line: the head of the line, the head of the pattern, and the name and the unit.
pub record MetricLine : Type 0 where
  pub prefix : Text
  pub head : Text
  pub metric : Metric

abbrev pub throughput : MetricLine
throughput = record {
  prefix = codes "[OVERALL], Throughput";
  head = codes "[OVERALL], Throughput(ops/sec), ";
  metric = record { name = codes "throughput"; unit = codes "ops/sec" };
}

abbrev pub read_latency : MetricLine
read_latency = record {
  prefix = codes "[READ], AverageLatency";
  head = codes "[READ], AverageLatency(us), ";
  metric = record { name = codes "read_latency_avg"; unit = codes "us" };
}

abbrev pub update_latency : MetricLine
update_latency = record {
  prefix = codes "[UPDATE], AverageLatency";
  head = codes "[UPDATE], AverageLatency(us), ";
  metric = record { name = codes "update_latency_avg"; unit = codes "us" };
}

-- `'release-mte' if '-mte' in variant_str or 'mte' in variant_str.lower() else 'release'`
unfoldable pub variant_of_label : Text → Text
unfolding contains lower
variant_of_label label =
    if contains (codes "-mte") label || contains (codes "mte") (lower label)
    then codes "release-mte"
    else codes "release"

unfoldable pub workload_marker : Text → Option Match
unfolding search_in workload_pattern
workload_marker line = search_in workload_pattern line

unfoldable pub read_marker : Match → YcsbState
unfolding group_text variant_of_label
read_marker m = record {
  current_workload = some (group_text 1 m);
  current_variant = some (variant_of_label (group_text 2 m));
}

module _ (fl : Floats) (database : Text) (repetition : ℕ) where
  abbrev pub ycsb_row : Text → Text → Metric → fl.Float → Row fl.Float
  ycsb_row variant workload metric value = record {
    database = database;
    variant = variant;
    benchmark = codes "ycsb";
    workload = workload;
    metric_name = metric.name;
    metric_value = number value;
    unit = metric.unit;
    repetition = repetition;
  }

  -- `if match and current_workload and current_variant: yield …`
  unfoldable pub yield_metric :
      Metric → Option Match → Option Text → Option Text → Gen (Row fl.Float)
  unfolding group_text
  yield_metric metric (some m) (some workload) (some variant) =
      with_float fl (group_text 1 m) λ value. yield (ycsb_row variant workload metric value) done
  yield_metric metric _ _ _ = done

  unfoldable pub metric_rows : YcsbState → MetricLine → Text → Gen (Row fl.Float)
  unfolding match_at yield_metric
  metric_rows s kind line =
      yield_metric kind.metric (match_at (lit kind.head (number_group 1)) line)
        (given s.current_workload) (given s.current_variant)

  -- The `if … elif … elif` on the head of the line.
  unfoldable pub line_rows : YcsbState → Text → Gen (Row fl.Float)
  unfolding starts_with metric_rows
  line_rows s line =
      if starts_with line throughput.prefix
      then metric_rows s throughput line
      else if starts_with line read_latency.prefix
      then metric_rows s read_latency line
      else if starts_with line update_latency.prefix
      then metric_rows s update_latency line
      else done

  unfoldable pub ycsb_step : YcsbState → Text → Gen (Row fl.Float) × YcsbState
  ycsb_step s raw =
      let line = strip raw in
      elim (workload_marker line) [ some m ↦ (done, read_marker m) | none ↦ (line_rows s line, s) ]

  unfoldable pub parse_ycsb_java_output : Text → Gen (Row fl.Float)
  unfolding scan split_on ycsb_step strip workload_marker read_marker line_rows
  parse_ycsb_java_output output = scan ycsb_step start (split_on newline output)

  pub parse_ycsb_java_output_lem :
      (output : Text)
      → parse_ycsb_java_output output ≡ scan ycsb_step start (split_on newline output)
  unfolding parse_ycsb_java_output
  parse_ycsb_java_output_lem output = refl
