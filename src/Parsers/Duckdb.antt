-- ===== src/Parsers/Duckdb.antt =====
-- `parse_duckdb_output`
pub mod Lines
pub mod RoundTrip
pub mod Quarters
use memsafedb.Prelude.{
  ℕ, ◌-◌, ◌*◌, ◌/◌, Bool, true, false, not, Option, none, some, List, [], ◌∷◌, map, ltb, keep,
  length, take, drop, if◌then◌else◌,
}
use memsafedb.Prelude.Gen.{Gen, done, yield, ◌then◌}
use memsafedb.Text.{Text, codes, strip, split_on, newline, is_empty}
use memsafedb.Regex.{Re, seq, group, plus, lit, digit, number_char, Match, match_at, group_text}
use memsafedb.Rows.{Floats, Row, number, with_float}

-- `q\d+,[\d.]+`
unfoldable pub query_line : Re
query_line = lit (codes "q") (seq (plus digit) (lit (codes ",") (plus number_char)))

-- `(q\d+),([\d.]+)`
unfoldable pub query_parts : Re
query_parts =
    seq (group 1 (lit (codes "q") (plus digit))) (lit (codes ",") (group 2 (plus number_char)))

abbrev pub is_match : Option Match → Bool
is_match none = false
is_match (some m) = true

-- The lines of the output that look like a query's time.
unfoldable pub query_lines : Text → List Text
unfolding strip split_on match_at query_line
query_lines output =
    keep (λ line. is_match (match_at query_line line))
      (keep (λ line. not (is_empty line)) (map strip (split_on newline (strip output))))

module _ (fl : Floats) where
  abbrev pub query_row : Text → ℕ → Text → fl.Float → Row fl.Float
  query_row variant repetition query time = record {
    database = codes "duckdb";
    variant = variant;
    benchmark = codes "tpch";
    workload = query;
    metric_name = codes "query_time";
    metric_value = number time;
    unit = codes "seconds";
    repetition = repetition;
  }

  -- The body of the loops over the quarters.
  unfoldable pub parse_query : Text → ℕ → Text → Gen (Row fl.Float)
  unfolding match_at query_parts group_text
  parse_query variant repetition line = elim (match_at query_parts line) [
    | none ↦ done
    | some m ↦
        with_float fl (group_text 2 m)
          λ time. yield (query_row variant repetition (group_text 1 m) time) done
  ]

  unfoldable pub parse_queries : Text → ℕ → List Text → Gen (Row fl.Float)
  unfolding parse_query
  parse_queries variant repetition [] = done
  parse_queries variant repetition (line ∷ lines) =
      parse_query variant repetition line then parse_queries variant repetition lines

  -- The four quarters, by the slices `[:quarter]`, `[quarter:quarter*2]`,
  -- `[quarter*2:quarter*3]` and `[quarter*3:]`.
  unfoldable pub parse_quarters : ℕ → ℕ → List Text → Gen (Row fl.Float)
  unfolding parse_queries
  parse_quarters repetition quarter lines =
      parse_queries (codes "release") repetition (take quarter lines)
      then parse_queries (codes "release-mte") repetition
          (take (quarter * 2 - quarter) (drop quarter lines))
      then parse_queries (codes "release-cold") repetition
          (take (quarter * 3 - quarter * 2) (drop (quarter * 2) lines))
      then parse_queries (codes "release-mte-cold") repetition (drop (quarter * 3) lines)

  unfoldable pub parse_duckdb_output : Text → ℕ → Gen (Row fl.Float)
  unfolding query_lines parse_quarters
  parse_duckdb_output output repetition =
      let lines = query_lines output in
      if ltb (length lines) 4 then done else parse_quarters repetition (length lines / 4) lines
