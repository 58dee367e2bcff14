-- ===== src/Parsers/Sqlite.antt =====
-- `parse_sqlite_output`
pub mod Rates
use memsafedb.Prelude.{◌≡◌, refl, ℕ, zero, suc, Option, none, some, if◌then◌else◌, ltb}
use memsafedb.Prelude.Gen.{Gen, done, yield, scan}
use memsafedb.Text.{Text, codes, strip, split_on, newline, lower, int}
use memsafedb.Regex.{
  Re, seq, group, plus, lit, lit_ci, eps, bol, boundary, digit, Match, search_in, match_at,
  group_text,
}
use memsafedb.Rows.{Floats, Row, number, given}
use memsafedb.Parsers.Classes.{name_char, spaces, maybe_spaces}
use memsafedb.Parsers.Variant.{variant_name}

pub record SqliteState : Type 0 where
  pub current_variant : Option Text
  pub current_duration : Option ℕ

abbrev pub start : SqliteState
start = record { current_variant = none; current_duration = none }

-- `===\s+Executing\s+([a-zA-Z0-9_-]+)\s+===`, ignoring case
executing_pattern : Re
executing_pattern = lit (codes "===") (
    spaces (
      lit_ci (codes "Executing")
        (spaces (seq (group 1 (plus name_char)) (spaces (lit (codes "===") eps))))))

-- `Execution Results after\s+(\d+)\s+seconds`, ignoring case
duration_pattern : Re
duration_pattern =
    lit_ci (codes "Execution Results after")
      (spaces (seq (group 1 (plus digit)) (spaces (lit_ci (codes "seconds") eps))))

-- `^\s*TOTAL\s+(\d+)\b`, ignoring case
total_pattern : Re
total_pattern =
    seq bol (maybe_spaces (lit_ci (codes "TOTAL") (spaces (seq (group 1 (plus digit)) boundary))))

unfoldable pub executing_marker : Text → Option Match
unfolding search_in executing_pattern
executing_marker line = search_in executing_pattern line

unfoldable pub duration_marker : Text → Option Match
unfolding search_in duration_pattern
duration_marker line = search_in duration_pattern line

unfoldable pub total_marker : Text → Option Match
unfolding match_at total_pattern
total_marker line = match_at total_pattern line

unfoldable pub read_executing : Match → SqliteState
unfolding group_text lower variant_name
read_executing m = record {
  current_variant = some (variant_name (lower (group_text 1 m)));
  current_duration = none;
}

-- The truth of an `int` that may be `None`.
abbrev pub nonzero : Option ℕ → Option ℕ
nonzero none = none
nonzero (some zero) = none
nonzero (some (suc n)) = some (suc n)

module _ (fl : Floats) (repetition : ℕ) where
  abbrev pub tps_row : Text → fl.Float → Row fl.Float
  tps_row variant tps = record {
    database = codes "sqlite";
    variant = variant;
    benchmark = codes "tpcc";
    workload = codes "tpcc";
    metric_name = codes "tps";
    metric_value = number tps;
    unit = codes "txn/sec";
    repetition = repetition;
  }

  -- `total_txn / current_duration if current_duration > 0 else 0.0`
  abbrev pub tps_value : ℕ → ℕ → fl.Float
  tps_value total duration = if ltb 0 duration then fl.ratio total duration else fl.zero

  unfoldable pub total_step :
      SqliteState → Option Match → Option Text → Option ℕ → Gen (Row fl.Float) × SqliteState
  unfolding int group_text
  total_step s (some m) (some variant) (some duration) = (
    yield (tps_row variant (tps_value (int (group_text 1 m)) duration)) done,
    record s { current_duration = none },
  )
  total_step s _ _ _ = (done, s)

  unfoldable pub duration_or_total :
      SqliteState → Text → Option Match → Gen (Row fl.Float) × SqliteState
  duration_or_total s line (some m) =
      (done, record s { current_duration = some (int (group_text 1 m)) })
  duration_or_total s line none =
      total_step s (total_marker line) (given s.current_variant) (nonzero s.current_duration)

  unfoldable pub header_or_rest :
      SqliteState → Text → Option Match → Gen (Row fl.Float) × SqliteState
  header_or_rest s line (some m) = (done, read_executing m)
  header_or_rest s line none = duration_or_total s line (duration_marker line)

  unfoldable pub sqlite_step : SqliteState → Text → Gen (Row fl.Float) × SqliteState
  sqlite_step s raw = header_or_rest s (strip raw) (executing_marker (strip raw))

  unfoldable pub parse_sqlite_output : Text → Gen (Row fl.Float)
  unfolding scan split_on sqlite_step header_or_rest strip executing_marker read_executing
      duration_marker duration_or_total total_marker total_step int group_text
  parse_sqlite_output output = scan sqlite_step start (split_on newline output)

  pub parse_sqlite_output_lem :
      (output : Text)
      → parse_sqlite_output output ≡ scan sqlite_step start (split_on newline output)
  unfolding parse_sqlite_output
  parse_sqlite_output_lem output = refl
