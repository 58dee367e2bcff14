-- ===== src/Structs/Latency.antt =====
-- `calculate_weighted_average_latency`
pub mod Summary
use memsafedb.Prelude.{
  ℕ, ◌+◌, Bool, true, false, not, ◌&&◌, ◌||◌, Option, none, some, List, [], ◌∷◌, ◌>>=◌, ◌==◌,
  if◌then◌else◌,
}
use memsafedb.Text.{Text, codes, strip, split_on, contains, newline, int}
use memsafedb.Regex.{
  Re, char, eps, seq, group, lazy, plus, optional, lit, digit, Match, find_iter, group_text,
}
use memsafedb.Parsers.Classes.{name_char}
use memsafedb.Rows.{Floats}

abbrev pub is_summary : Text → Bool
is_summary line = contains (codes "Run runtime") line || contains (codes "Run operations") line

-- The lines before the first summary of the run, or all of them.
unfoldable pub before_summary : List Text → List Text
unfolding contains
before_summary [] = []
before_summary (line ∷ lines) =
    let rest = before_summary lines in if is_summary line then [] else line ∷ rest

abbrev pub is_status : Text → Bool
is_status line =
    contains (codes "operations;") line
    && (contains (codes "[") line && contains (codes "Avg=") line)

abbrev pub or_else : Option Text → Option Text → Option Text
or_else (some t) other = some t
or_else none other = other

-- The last line of a status.
unfoldable pub last_status : List Text → Option Text
unfolding contains
last_status [] = none
last_status (line ∷ lines) =
    or_else (last_status lines) (if is_status line then some line else none)

unfoldable pub target_line : List Text → Option Text
unfolding before_summary last_status
target_line lines = last_status (before_summary lines)

-- `\[([a-zA-Z0-9_-]+):.*?Count=(\d+).*?Avg=(\d+(?:\.\d+)?)\]`
op_pattern : Re
op_pattern = lit (codes "[") (
    seq (group 1 (plus name_char)) (
      lit (codes ":") (
        seq (lazy (char (λ c. not (c == newline)))) (
          lit (codes "Count=") (
            seq (group 2 (plus digit)) (
              seq (lazy (char (λ c. not (c == newline)))) (
                lit (codes "Avg=") (
                  seq (group 3 (seq (plus digit) (optional (lit (codes ".") (plus digit)))))
                    (lit (codes "]") eps)))))))))

module _ (fl : Floats) where
  -- The operations of the matches, and the sum of their latencies, weighted; `none` where `float`
  -- raises.
  unfoldable pub weighted_sums : List Match → ℕ → fl.Float → Option (ℕ × fl.Float)
  unfolding group_text int
  weighted_sums [] count total = some (count, total)
  weighted_sums (m ∷ ms) count total = do
    avg ← fl.of_text (group_text 3 m)
    let n = int (group_text 2 m)
    weighted_sums ms (count + n) (fl.add total (fl.times n avg))

  abbrev average : ℕ × fl.Float → fl.Float
  average (count, total) = if count == 0 then fl.zero else fl.over total count

  abbrev latency_of : Option (ℕ × fl.Float) → Option fl.Float
  latency_of none = none
  latency_of (some sums) = some (average sums)

  -- `none` where no line has a status, at which the caller raises as at a text that is no number.
  unfoldable pub calculate_weighted_average_latency : Text → Option fl.Float
  unfolding target_line weighted_sums op_pattern find_iter strip split_on
  calculate_weighted_average_latency log_text =
      elim (target_line (split_on newline (strip log_text))) [
        | none ↦ none
        | some line ↦ latency_of (weighted_sums (find_iter op_pattern line) 0 fl.zero)
      ]
