-- ===== src/Parsers/Mysql.antt =====
-- `parse_mysql_output`
use memsafedb.Prelude.{
  ◌≡◌, refl, ℕ, zero, suc, Bool, true, false, not, ◌&&◌, ◌||◌, Option, none, some, List, [], ◌∷◌,
  ◌++◌, ◌==◌, keep, length, map, if◌then◌else◌,
}
use memsafedb.Prelude.Gen.{Gen, done, yield, scan, ◌then◌}
use memsafedb.Text.{
  Text, codes, strip, rstrip, split_on, newline, join_lines, is_empty, starts_with, contains, lower,
}
use memsafedb.Regex.{
  Re, char, seq, group, plus, lit, lit_ci, eps, bol, eol, digit, Match, search_in, match_at,
  find_iter, group_text,
}
use memsafedb.Rows.{Floats, Row, Metric, number, with_float}
use memsafedb.Parsers.Classes.{spaces, maybe_spaces, number_group}
use memsafedb.Parsers.Redis.{slice}

-- A run's label and its lines, joined.
abbrev pub Run : Type 0
Run = Option Text × Text

-- `NAME:\s+\d+\s+\(([\d.]+) per sec\.\)`
abbrev pub rate_pattern : Text → Re
rate_pattern name = lit name (
    spaces (
      seq (plus digit)
        (spaces (lit (codes "(") (seq (number_group 1) (lit (codes " per sec.)") eps))))))

-- `^\s*NAME:\s+([\d.]+)`, ignoring case
abbrev pub latency_pattern : Text → Re
latency_pattern name = seq bol (maybe_spaces (lit_ci name (spaces (number_group 1))))

-- `^=== Running mysql \(([^)]+)\) ===$`, ignoring case
run_pattern : Re
run_pattern = seq bol (
    lit_ci (codes "=== Running mysql (")
      (seq (group 1 (plus (char (λ c. not (c == b')'))))) (lit (codes ") ===") eol)))

unfoldable pub run_marker : Text → Option Match
unfolding match_at run_pattern strip
run_marker line = match_at run_pattern (strip line)

-- `if current_lines: runs.append((current_label, '\n'.join(current_lines)))`
abbrev pub close_run : Option Text → List Text → List Run
close_run label [] = []
close_run label (l ∷ ls) = (label, join_lines (l ∷ ls)) ∷ []

-- The loop that collects the runs, from the current label and the current lines.
unfoldable pub collect_runs : Option Text → List Text → List Text → List Run
unfolding run_marker group_text strip lower join_lines
collect_runs label current [] = close_run label current
collect_runs label current (line ∷ lines) = elim (run_marker line) [
  | some m ↦
      close_run label current ++ collect_runs (some (lower (strip (group_text 1 m)))) [] lines
  | none ↦ collect_runs label (current ++ (line ∷ [])) lines
]

-- The truth of a label.
abbrev pub has_label : Run → Bool
has_label (none, t) = false
has_label (some label, t) = not (is_empty label)

abbrev pub any_label : List Run → Bool
any_label [] = false
any_label (r ∷ rs) = has_label r || any_label rs

-- `re.split` at matches: the pieces between them.
pieces : Text → ℕ → List Match → List Text
pieces t from [] = slice from (length t) t ∷ []
pieces t from (m ∷ ms) = slice from m.start t ∷ pieces t m.end_state.at ms

unfoldable pub split_runs : Text → List Run
unfolding pieces find_iter strip
split_runs output =
    map (λ chunk. (none, chunk))
      (keep (λ chunk. not (is_empty (strip chunk)))
        (pieces output 0 (find_iter (lit (codes "SQL statistics:") eps) output)))

unfoldable pub mysql_runs : Text → List Run
unfolding collect_runs split_runs split_on
mysql_runs output =
    let runs = collect_runs none [] (split_on newline output) in
    if any_label runs then runs else split_runs output

-- `variants[var_idx]`, `none` where the loop breaks
abbrev pub position_variant : ℕ → Option Text
position_variant zero = some (codes "release")
position_variant (suc zero) = some (codes "release-mte")
position_variant (suc (suc n)) = none

-- The label, where there is one, decides the variant.
unfoldable pub run_variant : Text → Option Text → Text
run_variant default none = default
run_variant default (some label) =
    if is_empty label
    then default
    else if contains (codes "mte") label
    then codes "release-mte"
    else if contains (codes "release") label
    then codes "release"
    else default

abbrev pub tps : Metric
tps = record { name = codes "tps"; unit = codes "txn/sec" }

abbrev pub qps : Metric
qps = record { name = codes "qps"; unit = codes "queries/sec" }

abbrev pub latency_avg : Metric
latency_avg = record { name = codes "latency_avg"; unit = codes "ms" }

abbrev pub latency_p95 : Metric
latency_p95 = record { name = codes "latency_p95"; unit = codes "ms" }

abbrev pub latency_p99 : Metric
latency_p99 = record { name = codes "latency_p99"; unit = codes "ms" }

module _ (fl : Floats) (repetition : ℕ) where
  abbrev pub mysql_row : Text → Metric → fl.Float → Row fl.Float
  mysql_row variant metric value = record {
    database = codes "mysql";
    variant = variant;
    benchmark = codes "sysbench";
    workload = codes "oltp_read_write";
    metric_name = metric.name;
    metric_value = number value;
    unit = metric.unit;
    repetition = repetition;
  }

  -- A row for a match, and otherwise the rest of the body.
  unfoldable pub match_row : Text → Metric → Option Match → Gen (Row fl.Float) → Gen (Row fl.Float)
  match_row variant metric none otherwise = otherwise
  match_row variant metric (some m) otherwise =
      with_float fl (group_text 1 m) λ value. yield (mysql_row variant metric value) done

  -- The three latency patterns in turn: the first that matches yields.
  unfoldable pub latency_rows : Text → Text → Gen (Row fl.Float)
  latency_rows variant line =
      match_row variant latency_avg (match_at (latency_pattern (codes "avg:")) line) (
        match_row variant latency_p95 (match_at (latency_pattern (codes "95th percentile:")) line) (
          match_row variant latency_p99 (match_at (latency_pattern (codes "99th percentile:")) line)
            done))

  -- The body of the loop over a run's lines, with the flag `in_latency`.
  unfoldable pub latency_step : Text → Bool → Text → Gen (Row fl.Float) × Bool
  latency_step variant in_latency raw =
      let line = rstrip raw in
      if starts_with (strip line) (codes "Latency (ms):")
      then (done, true)
      else if in_latency
          && (is_empty (strip line) || starts_with (strip line) (codes "Threads fairness:"))
      then (done, false)
      else if not in_latency
      then (done, in_latency)
      else (latency_rows variant line, in_latency)

  unfoldable pub run_rows : Text → Text → Gen (Row fl.Float)
  run_rows variant output =
      match_row variant tps (search_in (rate_pattern (codes "transactions:")) output) done
      then match_row variant qps (search_in (rate_pattern (codes "queries:")) output) done
      then scan (latency_step variant) false (split_on newline output)

  -- `for var_idx, (label, run_output) in enumerate(runs)`
  unfoldable pub runs_rows : ℕ → List Run → Gen (Row fl.Float)
  runs_rows index [] = done
  runs_rows index ((label, output) ∷ runs) = elim (position_variant index) [
    | none ↦ done
    | some default ↦ run_rows (run_variant default label) output then runs_rows (suc index) runs
  ]

  unfoldable pub parse_mysql_output : Text → Gen (Row fl.Float)
  unfolding mysql_runs runs_rows run_variant run_rows contains group_text match_at match_row strip
      rstrip starts_with latency_rows search_in scan split_on latency_step
  parse_mysql_output output = runs_rows 0 (mysql_runs output)

  pub parse_mysql_output_lem :
      (output : Text) → parse_mysql_output output ≡ runs_rows 0 (mysql_runs output)
  unfolding parse_mysql_output
  parse_mysql_output_lem output = refl
