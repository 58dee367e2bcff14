-- ===== src/Parsers/Sqlite/Rates.antt =====
-- What `parse_sqlite_output` yields: rates over a duration that is not zero, and at most one for
-- each duration.
use memsafedb.Prelude.{
  ℕ, zero, suc, ◌+◌, ◌<◌, ◌≤◌, ◌≡◌, refl, Option, none, some, List, [], ◌∷◌, arith, length,
}
use memsafedb.Prelude.Gen.{rows, scan, AllRows, AllRows-then, rows-then-le}
use memsafedb.Text.{Text, int, strip, split_on, newline}
use memsafedb.Regex.{Match, group_text}
use memsafedb.Rows.{Floats, Row, number, given}
use memsafedb.Parsers.Sqlite.{
  SqliteState, start, nonzero, total_step, duration_or_total, header_or_rest, sqlite_step,
  executing_marker, duration_marker, total_marker, read_executing, parse_sqlite_output,
  parse_sqlite_output_lem,
}

abbrev counts_duration : Option Match → Option Match → ℕ
counts_duration (some m) d = 0
counts_duration none (some d) = 1
counts_duration none none = 0

-- 1 if the line is taken for a duration: it is no variant header, and it matches.
abbrev pub duration_of : Text → ℕ
duration_of line = counts_duration (executing_marker (strip line)) (duration_marker (strip line))

abbrev pub durations : List Text → ℕ
durations [] = 0
durations (line ∷ lines) = duration_of line + durations lines

abbrev some_count : Option ℕ → ℕ
some_count none = 0
some_count (some d) = 1

module _ (fl : Floats) (repetition : ℕ) where
  -- The value is the quotient of the total by a duration that is not zero.
  abbrev pub IsRate : Row fl.Float → Type 0
  IsRate r =
      (total duration : ℕ) × (0 < duration) × (r.metric_value ≡ number (fl.ratio total duration))

  total_step-IsRate :
      (s : SqliteState) (m : Option Match) (v : Option Text) (d : Option ℕ)
      → AllRows IsRate (total_step fl repetition s m v (nonzero d)).0
  unfolding total_step
  total_step-IsRate s (some m) (some v) (some (suc d)) =
      ((int (group_text 1 m), suc d, omega arith, ground arith), tt)
  total_step-IsRate s (some m) (some v) (some zero) = tt
  total_step-IsRate s (some m) (some v) none = tt
  total_step-IsRate s (some m) none d = tt
  total_step-IsRate s none v d = tt

  duration_or_total-IsRate :
      (s : SqliteState) (line : Text) (d : Option Match)
      → AllRows IsRate (duration_or_total fl repetition s line d).0
  unfolding duration_or_total
  duration_or_total-IsRate s line (some m) = tt
  duration_or_total-IsRate s line none =
      total_step-IsRate s (total_marker line) (given s.current_variant) s.current_duration

  header_or_rest-IsRate :
      (s : SqliteState) (line : Text) (h : Option Match)
      → AllRows IsRate (header_or_rest fl repetition s line h).0
  unfolding header_or_rest
  header_or_rest-IsRate s line (some m) = tt
  header_or_rest-IsRate s line none = duration_or_total-IsRate s line (duration_marker line)

  scan-IsRate :
      (s : SqliteState) (lines : List Text)
      → AllRows IsRate (scan (sqlite_step fl repetition) s lines)
  unfolding scan sqlite_step
  scan-IsRate s [] = tt
  scan-IsRate s (line ∷ lines) =
      AllRows-then IsRate _ _ (header_or_rest-IsRate s (strip line) (executing_marker (strip line)))
        (scan-IsRate (sqlite_step fl repetition s line).1 lines)

  -- A step yields at most one row, and clears a duration for it.
  total_step-balance :
      (s : SqliteState) (m : Option Match) (v : Option Text) (d : Option ℕ)
      → s.current_duration ≡ d
      → (let r = total_step fl repetition s m v (nonzero d) in
          length (rows r.0) + some_count r.1.current_duration ≤ some_count d)
  unfolding total_step
  total_step-balance s (some m) (some v) (some (suc d)) e = omega arith
  total_step-balance s (some m) (some v) (some zero) e = rw e (omega arith)
  total_step-balance s (some m) (some v) none e = rw e (omega arith)
  total_step-balance s (some m) none d e = rw e (omega arith)
  total_step-balance s none v d e = rw e (omega arith)

  duration_or_total-balance :
      (s : SqliteState) (line : Text) (d : Option Match)
      → (let r = duration_or_total fl repetition s line d in
          length (rows r.0) + some_count r.1.current_duration
          ≤ some_count s.current_duration + counts_duration none d)
  unfolding duration_or_total
  duration_or_total-balance s line (some m) = omega arith
  duration_or_total-balance s line none = omega (
    arith,
    total_step-balance s (total_marker line) (given s.current_variant) s.current_duration refl,
  )

  header_or_rest-balance :
      (s : SqliteState) (line : Text) (h : Option Match)
      → (let r = header_or_rest fl repetition s line h in
          length (rows r.0) + some_count r.1.current_duration
          ≤ some_count s.current_duration + counts_duration h (duration_marker line))
  unfolding header_or_rest read_executing
  header_or_rest-balance s line (some m) = omega arith
  header_or_rest-balance s line none = duration_or_total-balance s line (duration_marker line)

  scan-balance :
      (s : SqliteState) (lines : List Text)
      → length (rows (scan (sqlite_step fl repetition) s lines))
        ≤ some_count s.current_duration + durations lines
  unfolding scan sqlite_step
  scan-balance s [] = omega arith
  scan-balance s (line ∷ lines) = omega (
    arith,
    rows-then-le (sqlite_step fl repetition s line).0
        (scan (sqlite_step fl repetition) (sqlite_step fl repetition s line).1 lines),
    header_or_rest-balance s (strip line) (executing_marker (strip line)),
    scan-balance (sqlite_step fl repetition s line).1 lines,
  )

  -- Every rate divides by a duration that is not zero, and there are at most as many rows as the
  -- output has lines that state a duration.
  pub parse_sqlite_output-rates :
      (output : Text)
      → AllRows IsRate (parse_sqlite_output fl repetition output)
        × (length (rows (parse_sqlite_output fl repetition output))
            ≤ durations (split_on newline output))
  parse_sqlite_output-rates output = rw (parse_sqlite_output_lem fl repetition output) (
    scan-IsRate start (split_on newline output),
    omega (arith, scan-balance start (split_on newline output)),
  )
