-- ===== src/Parsers/Duckdb/Lines.antt =====
-- A line as `run_duckdb` prints it, under the two patterns of the parser.
use memsafedb.Prelude.{◌<◌, ◌≡◌, refl, ap, true, some, [], ◌∷◌, ◌++◌, length}
use memsafedb.Text.{Text, is_digit}
use memsafedb.Regex.{State, Match, run, match_at, group_text, begin, is_number_char}
use memsafedb.Regex.Runs.{AllIn, plus-run, plus-run_end, group_plus-run_end, between-append}
use memsafedb.Parsers.Duckdb.{query_line, query_parts, is_match}

-- The number of a query, and its time, as they are printed.
pub record Printed : Type 0 where
  pub query : Text
  pub time : Text

pub record IsPrinted (r : Printed) : Type 0 where
  pub query_digits : AllIn is_digit r.query
  pub query_some : 0 < length r.query
  pub time_number : AllIn is_number_char r.time
  pub time_some : 0 < length r.time

abbrev pub query_name : Printed → Text
query_name r = b'q' ∷ r.query

-- `q1,1.234`
abbrev pub line : Printed → Text
line r = query_name r ++ (b',' ∷ r.time)

-- Both patterns match the line, and the groups of the second are the name and the time.
parts_groups :
    (ds v : Text)
    → AllIn is_digit ds
    → 0 < length ds
    → AllIn is_number_char v
    → 0 < length v
    → (s : State) × (run query_parts (begin (b'q' ∷ (ds ++ (b',' ∷ v)))) some ≡ some s)
      × (s.groups ≡ (2, v) ∷ (1, b'q' ∷ ds) ∷ [])
unfolding run query_parts
parts_groups ds v all some_ds nums some_v = (
  _,
  plus-run _ _ _ is_digit ds (b',' ∷ v) _ all some_ds refl
      (group_plus-run_end _ _ _ is_number_char 2 v some nums some_v refl),
  ap (λ t. (2, v) ∷ (1, t) ∷ []) (between-append (b'q' ∷ ds) (b',' ∷ v)),
)

line_match :
    (ds v : Text)
    → AllIn is_digit ds
    → 0 < length ds
    → AllIn is_number_char v
    → 0 < length v
    → (s : State) × (run query_line (begin (b'q' ∷ (ds ++ (b',' ∷ v)))) some ≡ some s)
unfolding run query_line
line_match ds v all some_ds nums some_v = (
  _,
  plus-run _ _ _ is_digit ds (b',' ∷ v) _ all some_ds refl
      (plus-run_end _ _ _ is_number_char v some nums some_v refl),
)

pub is_match-line : (r : Printed) → IsPrinted r → is_match (match_at query_line (line r)) ≡ true
unfolding match_at
is_match-line r h =
    rw (line_match r.query r.time h.query_digits h.query_some h.time_number h.time_some).1

-- What `match.group(1)` and `match.group(2)` are.
pub match_at-line :
    (r : Printed)
    → IsPrinted r
    → (m : Match) × (match_at query_parts (line r) ≡ some m)
      × (group_text 1 m ≡ query_name r)
      × (group_text 2 m ≡ r.time)
unfolding match_at group_text
match_at-line r h =
    let (s, matched, groups) =
      parts_groups r.query r.time h.query_digits h.query_some h.time_number h.time_some in
    (record { start = 0; end_state = s }, rw matched, rw groups, rw groups)
