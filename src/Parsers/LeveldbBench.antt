-- ===== src/Parsers/LeveldbBench.antt =====
-- `parse_leveldb_bench_output`
use memsafedb.Prelude.{◌≡◌, refl, ℕ, Option, none, some, ◌++◌, if◌then◌else◌}
use memsafedb.Prelude.Gen.{Gen, done, yield, scan, ◌then◌}
use memsafedb.Text.{Text, codes, strip, split_on, newline, is_empty, contains, lower, int, show}
use memsafedb.Regex.{
  Re, char, seq, group, plus, lit, lit_ci, eps, bol, eol, digit, Match, search_in, match_at,
  group_text,
}
use memsafedb.Rows.{Floats, Row, number, with_float, given}
use memsafedb.Parsers.Classes.{is_word_char, name_char, spaces, maybe_spaces, number_group}
use memsafedb.Parsers.Variant.{sanitizer_variant_name}

-- The variant and the workload that later statistics belong to.
pub record BenchmarkInfo : Type 0 where
  pub variant : Text
  pub workload : Text

pub record BenchState : Type 0 where
  pub current_threads : ℕ
  pub current_variant : Option Text
  pub last_benchmark_info : Option BenchmarkInfo

abbrev pub start : BenchState
start = record { current_threads = 1; current_variant = none; last_benchmark_info = none }

-- `^===\s+Running threads\s+(\d+)\s+-\s+([a-zA-Z0-9_-]+)\s+===$`, ignoring case
threads_marker : Re
threads_marker = seq bol (
    lit (codes "===") (
      spaces (
        lit_ci (codes "Running threads") (
          spaces (
            seq (group 1 (plus digit)) (
              spaces (
                lit (codes "-")
                  (spaces (seq (group 2 (plus name_char)) (spaces (lit (codes "===") eol)))))))))))

-- `^([a-zA-Z0-9_]+)\s*:\s+([0-9.]+)\s+micros/op;`
data_line : Re
data_line = seq bol (
    seq (group 1 (plus (char is_word_char))) (
      maybe_spaces
        (lit (codes ":") (spaces (seq (number_group 2) (spaces (lit (codes "micros/op;") eps)))))))

-- `NAME:\s+([0-9.]+)`
abbrev pub stat_pattern : Text → Re
stat_pattern name = lit name (spaces (number_group 1))

unfoldable pub bench_marker : Text → Option Match
unfolding match_at threads_marker
bench_marker line = match_at threads_marker line

unfoldable pub bench_data : Text → Option Match
unfolding match_at data_line
bench_data line = match_at data_line line

unfoldable pub read_bench_marker : BenchState → Match → BenchState
unfolding group_text int lower sanitizer_variant_name
read_bench_marker s m = record s {
  current_threads = int (group_text 1 m);
  current_variant = some (sanitizer_variant_name (lower (group_text 2 m)));
}

-- `f"{benchmark}_t{current_threads}"`
unfoldable pub threaded : Text → ℕ → Text
unfolding show
threaded name threads = name ++ (codes "_t" ++ show threads)

module _ (fl : Floats) (repetition : ℕ) where
  abbrev pub bench_row : BenchmarkInfo → Text → fl.Float → Row fl.Float
  bench_row info metric value = record {
    database = codes "leveldb_motiv";
    variant = info.variant;
    benchmark = codes "db_bench";
    workload = info.workload;
    metric_name = metric;
    metric_value = number value;
    unit = codes "us";
    repetition = repetition;
  }

  -- `m = pattern.search(line)`, and a row if it matched
  unfoldable pub stat_row : BenchmarkInfo → Text → Text → Text → Gen (Row fl.Float)
  unfolding search_in group_text
  stat_row info name metric line = elim (search_in (stat_pattern name) line) [
    | none ↦ done
    | some m ↦ with_float fl (group_text 1 m) λ value. yield (bench_row info metric value) done
  ]

  unfoldable pub stat_rows : Option BenchmarkInfo → Text → Gen (Row fl.Float)
  unfolding contains stat_row
  stat_rows none line = done
  stat_rows (some info) line =
      if contains (codes "Average:") line
      then stat_row info (codes "StdDev:") (codes "latency_stddev") line
      else if contains (codes "Min:") line
      then stat_row info (codes "Min:") (codes "latency_min") line
      then stat_row info (codes "Median:") (codes "latency_median") line
      then stat_row info (codes "Max:") (codes "latency_max") line
      else done

  -- The yield of a data line, and what it leaves in `last_benchmark_info`.
  unfoldable pub data_step : BenchState → Text → Match → Gen (Row fl.Float) × BenchState
  unfolding group_text threaded
  data_step s variant m =
      let info : BenchmarkInfo = record {
        variant = variant;
        workload = threaded (group_text 1 m) s.current_threads;
      } in
      (
        with_float fl (group_text 2 m)
            (λ value. yield (bench_row info (codes "latency_avg") value) done),
        record s { last_benchmark_info = some info },
      )

  -- `if data_match and current_variant: … continue`, and the statistics otherwise
  unfoldable pub data_or_stats :
      BenchState → Text → Option Match → Option Text → Gen (Row fl.Float) × BenchState
  unfolding data_step stat_rows
  data_or_stats s line (some m) (some variant) = data_step s variant m
  data_or_stats s line _ _ = (stat_rows s.last_benchmark_info line, s)

  unfoldable pub bench_step : BenchState → Text → Gen (Row fl.Float) × BenchState
  bench_step s raw =
      let line = strip raw in
      if is_empty line then (done, s) else elim (bench_marker line) [
        | some m ↦ (done, read_bench_marker s m)
        | none ↦ data_or_stats s line (bench_data line) (given s.current_variant)
      ]

  unfoldable pub parse_leveldb_bench_output : Text → Gen (Row fl.Float)
  unfolding scan split_on bench_step strip bench_marker read_bench_marker bench_data data_or_stats
  parse_leveldb_bench_output output = scan bench_step start (split_on newline output)

  pub parse_leveldb_bench_output_lem :
      (output : Text)
      → parse_leveldb_bench_output output ≡ scan bench_step start (split_on newline output)
  unfolding parse_leveldb_bench_output
  parse_leveldb_bench_output_lem output = refl
