-- ===== src/Parsers/Ladybug.antt =====
-- `parse_ladybug_output`
use memsafedb.Prelude.{◌≡◌, refl, ℕ, Option, none, some}
use memsafedb.Prelude.Gen.{Gen, done, yield, scan}
use memsafedb.Text.{Text, codes, strip, split_on, newline, lower}
use memsafedb.Regex.{Re, seq, group, plus, lit, lit_ci, eps, digit, Match, search_in, group_text}
use memsafedb.Rows.{Floats, Row, number, with_float, given}
use memsafedb.Parsers.Classes.{name_char, spaces, number_group}
use memsafedb.Parsers.Variant.{variant_name}

pub record LadybugState : Type 0 where
  pub current_variant : Option Text
  pub current_query : Option Text

abbrev pub start : LadybugState
start = record { current_variant = none; current_query = none }

-- `===\s+Executing\s+([a-zA-Z0-9_-]+)\s+-\s+threads:\s+\d+\s+===`, ignoring case
executing_pattern : Re
executing_pattern = lit (codes "===") (
    spaces (
      lit_ci (codes "Executing") (
        spaces (
          seq (group 1 (plus name_char)) (
            spaces (
              lit (codes "-") (
                spaces (
                  lit_ci (codes "threads:")
                    (spaces (seq (plus digit) (spaces (lit (codes "===") eps))))))))))))

-- `Running benchmark\s+([a-zA-Z0-9_-]+)\s+with`, ignoring case
query_pattern : Re
query_pattern =
    lit_ci (codes "Running benchmark")
      (spaces (seq (group 1 (plus name_char)) (spaces (lit_ci (codes "with") eps))))

-- `Time Taken \(Average of Last 3 runs\) \(ms\):\s+([\d.]+)`, ignoring case
time_pattern : Re
time_pattern = lit_ci (codes "Time Taken (Average of Last 3 runs) (ms):") (spaces (number_group 1))

unfoldable pub executing_marker : Text → Option Match
unfolding search_in executing_pattern
executing_marker line = search_in executing_pattern line

unfoldable pub query_marker : Text → Option Match
unfolding search_in query_pattern
query_marker line = search_in query_pattern line

unfoldable pub time_marker : Text → Option Match
unfolding search_in time_pattern
time_marker line = search_in time_pattern line

module _ (fl : Floats) (repetition : ℕ) where
  abbrev pub ladybug_row : Text → Text → fl.Float → Row fl.Float
  ladybug_row variant query time = record {
    database = codes "ladybug";
    variant = variant;
    benchmark = codes "ldbc";
    workload = query;
    metric_name = codes "query_time";
    metric_value = number time;
    unit = codes "ms";
    repetition = repetition;
  }

  unfoldable pub time_rows : Option Match → Option Text → Option Text → Gen (Row fl.Float)
  unfolding group_text
  time_rows (some m) (some variant) (some query) =
      with_float fl (group_text 1 m) λ time. yield (ladybug_row variant query time) done
  time_rows _ _ _ = done

  unfoldable pub query_or_time :
      LadybugState → Text → Option Match → Gen (Row fl.Float) × LadybugState
  unfolding group_text time_marker time_rows
  query_or_time s line (some m) = (done, record s { current_query = some (group_text 1 m) })
  query_or_time s line none =
      (time_rows (time_marker line) (given s.current_variant) (given s.current_query), s)

  unfoldable pub ladybug_step : LadybugState → Text → Gen (Row fl.Float) × LadybugState
  ladybug_step s raw =
      let line = strip raw in
      elim (executing_marker line) [
        | some m ↦
            (done, record s { current_variant = some (variant_name (lower (group_text 1 m))) })
        | none ↦ query_or_time s line (query_marker line)
      ]

  unfoldable pub parse_ladybug_output : Text → Gen (Row fl.Float)
  unfolding scan split_on ladybug_step strip executing_marker group_text lower variant_name
      query_marker query_or_time
  parse_ladybug_output output = scan ladybug_step start (split_on newline output)

  pub parse_ladybug_output_lem :
      (output : Text)
      → parse_ladybug_output output ≡ scan ladybug_step start (split_on newline output)
  unfolding parse_ladybug_output
  parse_ladybug_output_lem output = refl
