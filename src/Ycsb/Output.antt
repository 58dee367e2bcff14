-- ===== src/Ycsb/Output.antt =====
-- `_blocks`, `_row`, `_parse_leveldb` and `_parse_redis`
use memsafedb.Prelude.{ℕ, Option, none, some, List, [], ◌∷◌, ◌++◌, if◌then◌else◌}
use memsafedb.Text.{Text, codes, strip, split_on, newline, join_lines, int}
use mathlib.Core.List.{reverse}
use memsafedb.Regex.{
  Re, char, seq, group, plus, lit, bol, eol, digit, Match, match_at, search_in, find_iter,
  group_text,
}
use memsafedb.Rows.{Floats, Value, number, text, Metric}
use memsafedb.Sweep.Specs.{Persistence}
use memsafedb.Sweep.Plan.{persistence_tag}
use memsafedb.Parsers.Classes.{is_workload, is_word_char}
use memsafedb.Parsers.Redis.{throughput_text}
use memsafedb.Parsers.Leveldb.{
  OpStat, op_pattern, op_stats, run_throughput, weighted, average_of, is_status_line, throughput,
  latency_avg,
}

-- `^=== DB workload=([a-f]) threads=(\d+) variant=(\w+) ===$`
unfoldable pub marker_pattern : Text → Re
marker_pattern db = seq bol (
    lit (codes "=== ") (
      lit db (
        lit (codes " workload=") (
          seq (group 1 (char is_workload)) (
            lit (codes " threads=") (
              seq (group 2 (plus digit)) (
                lit (codes " variant=")
                  (seq (group 3 (plus (char is_word_char))) (lit (codes " ===") eol)))))))))

pub record Header : Type 0 where
  pub workload : Text
  pub threads : Text
  pub variant : Text

abbrev header_of : Option Match → Option Header
header_of none = none
header_of (some m) =
    some (record { workload = group_text 1 m; threads = group_text 2 m; variant = group_text 3 m })

unfoldable pub read_header : Text → Text → Option Header
unfolding strip match_at marker_pattern group_text
read_header db line = header_of (match_at (marker_pattern db) (strip line))

abbrev pub Block : Type 0
Block = Header × Text

-- The block that is open, if there is one, with its lines.
abbrev pub Open : Type 0
Open = Option (Header × List Text)

abbrev pub close : Open → List Block
close none = []
close (some (h, lines)) = (h, join_lines lines) ∷ []

abbrev pub add_line : Text → Open → Open
add_line line none = none
add_line line (some (h, lines)) = some (h, lines ++ (line ∷ []))

unfoldable pub blocks_from : Text → Open → List Text → List Block
blocks_from db cur [] = close cur
blocks_from db cur (line ∷ lines) = elim (read_header db line) [
  | some h ↦ close cur ++ blocks_from db (some (h, [])) lines
  | none ↦ blocks_from db (add_line line cur) lines
]

unfoldable pub blocks : Text → Text → List Block
unfolding blocks_from read_header join_lines split_on
blocks db output = blocks_from db none (split_on newline output)

-- A row with the tags of the sweep.
pub record TaggedRow (F : Type 0) : Type 0 where
  pub database : Text
  pub variant : Text
  pub benchmark : Text
  pub workload : Text
  pub repetition : ℕ
  pub persistence : Text
  pub working_set : ℕ
  pub threads : ℕ
  pub metric_name : Text
  pub metric_value : Value F
  pub unit : Text

-- `next((ln for ln in reversed(text.split('\n')) if …), None)`
unfoldable pub first_status : List Text → Option Text
unfolding is_status_line
first_status [] = none
first_status (line ∷ lines) =
    let rest = first_status lines in if is_status_line line then some line else rest

abbrev stats_of : Option Text → Option (List OpStat)
stats_of none = none
stats_of (some line) = some (op_stats (find_iter op_pattern line))

module _ (fl : Floats) (ws : ℕ) (p : Persistence) (rep : ℕ) where
  unfoldable pub tagged_row : Text → Text → Text → ℕ → Metric → Value fl.Float → TaggedRow fl.Float
  tagged_row db variant workload threads metric value = record {
    database = db;
    variant = codes "release-" ++ variant;
    benchmark = codes "ycsb";
    workload = workload;
    repetition = rep;
    persistence = persistence_tag p;
    working_set = ws;
    threads = threads;
    metric_name = metric.name;
    metric_value = value;
    unit = metric.unit;
  }

  -- `f'{wl}_t{t}'`
  abbrev ldb_row : Header → Metric → Value fl.Float → TaggedRow fl.Float
  ldb_row h metric value =
      tagged_row (codes "leveldb") h.variant (h.workload ++ (codes "_t" ++ h.threads))
        (int h.threads) metric value

  abbrev average_rows : Header → Option fl.Float → List (TaggedRow fl.Float)
  average_rows h none = []
  average_rows h (some avg) = ldb_row h latency_avg (text (fl.fixed3 avg)) ∷ []

  -- `none` if a `float` raises.
  unfoldable pub latency_of : Header → Option (List OpStat) → Option (List (TaggedRow fl.Float))
  unfolding weighted tagged_row int
  latency_of h none = some []
  latency_of h (some ops) = elim (weighted fl 0 fl.zero ops) [
    | none ↦ none
    | some (count, sum) ↦ some (average_rows h (average_of fl count sum))
  ]

  unfoldable pub leveldb_block_rows : Block → Option (List (TaggedRow fl.Float))
  unfolding search_in run_throughput first_status op_stats find_iter op_pattern split_on latency_of
      group_text
  leveldb_block_rows (h, body) = elim (search_in run_throughput body) [
    | none ↦ some []
    | some m ↦ elim (fl.of_text (group_text 1 m)) [
      | none ↦ none
      | some tp ↦ elim (latency_of h (stats_of (first_status (reverse (split_on newline body))))) [
        | none ↦ none
        | some rows ↦ some (ldb_row h throughput (number tp) ∷ rows)
      ]
    ]
  ]

  unfoldable pub redis_block_rows : Block → Option (List (TaggedRow fl.Float))
  unfolding throughput_text tagged_row int
  redis_block_rows (h, body) = elim (throughput_text body) [
    | none ↦ some []
    | some t ↦ elim (fl.of_text t) [
      | none ↦ none
      | some tp ↦ some (
          tagged_row (codes "redis") h.variant h.workload (int h.threads) throughput (number tp)
          ∷ [])
    ]
  ]

  -- The loop `for … in _blocks(…): … rows.append(…)`
  unfoldable pub all_rows :
      (Block → Option (List (TaggedRow fl.Float))) → List Block → Option (List (TaggedRow fl.Float))
  all_rows f [] = some []
  all_rows f (b ∷ bs) = elim (f b) [
    | none ↦ none
    | some rows ↦ elim (all_rows f bs) [ none ↦ none | some more ↦ some (rows ++ more) ]
  ]

  unfoldable pub parse_leveldb : Text → Option (List (TaggedRow fl.Float))
  unfolding blocks leveldb_block_rows all_rows
  parse_leveldb output = all_rows leveldb_block_rows (blocks (codes "LDB") output)

  unfoldable pub parse_redis : Text → Option (List (TaggedRow fl.Float))
  unfolding blocks redis_block_rows all_rows
  parse_redis output = all_rows redis_block_rows (blocks (codes "REDIS") output)
