-- ===== src/Parsers/Blocks.antt =====
-- Outputs one after the other: where the second begins with a marker that sets all the variables
-- of its parser, the rows of both are the rows of the one and then those of the other.
use memsafedb.Prelude.{ℕ, ◌≡◌, some, List, ◌∷◌, ◌++◌, arith}
use memsafedb.Prelude.Gen.{Gen, ◌then◌, scan, scan_state, scan-restart}
use memsafedb.Text.{Text, strip, split_on, newline}
use memsafedb.Text.Laws.{split_on-append}
use memsafedb.Regex.{Match}
use memsafedb.Rows.{Floats}
use memsafedb.Parsers.YcsbJava
use memsafedb.Parsers.YcsbJava.{
  YcsbState, workload_marker, read_marker, ycsb_step, parse_ycsb_java_output,
}
use memsafedb.Parsers.Leveldb
use memsafedb.Parsers.Leveldb.{BlockState, block_marker, leveldb_step, parse_leveldb_output}
use memsafedb.Parsers.Sqlite
use memsafedb.Parsers.Sqlite.{
  SqliteState, executing_marker, header_or_rest, sqlite_step, parse_sqlite_output,
}

-- The text's first line, and the rest of its lines.
abbrev pub BeginsWith : Text → Text → List Text → Type 0
BeginsWith t l ls = split_on newline t ≡ l ∷ ls

module _ {S A : Type 0} (step : S → Text → Gen A × S) (start : S) where
  scan-append_marker :
      (s t l : Text) (ls : List Text)
      → BeginsWith t l ls
      → step (scan_state step start (split_on newline s)) l ≡ step start l
      → scan step start (split_on newline (s ++ (newline ∷ t)))
        ≡ (scan step start (split_on newline s) then scan step start (split_on newline t))
  scan-append_marker s t l ls begins e =
      rw (split_on-append s t)
        (rw begins (scan-restart step start start (split_on newline s) l ls e))

module _ (fl : Floats) (s t l : Text) (ls : List Text) (begins : BeginsWith t l ls)
    (m : Match) where
  module _ (database : Text) (repetition : ℕ) where
    ycsb_step-marker :
        (v w : YcsbState)
        → workload_marker (strip l) ≡ some m
        → ycsb_step fl database repetition v l ≡ ycsb_step fl database repetition w l
    ycsb_step-marker v w e = unfold ycsb_step in ground arith

    -- If the first line of a second output, stripped, matches the workload marker,
    -- `parse_ycsb_java_output` yields of any first output, a line break and the second output what
    -- it yields of the first and then what it yields of the second.
    pub parse_ycsb_java_output-append :
        workload_marker (strip l) ≡ some m
        → parse_ycsb_java_output fl database repetition (s ++ (newline ∷ t)) ≡ (
            parse_ycsb_java_output fl database repetition s
            then parse_ycsb_java_output fl database repetition t)
    parse_ycsb_java_output-append e = simp (YcsbJava.parse_ycsb_java_output_lem) (
        scan-append_marker (ycsb_step fl database repetition) YcsbJava.start s t l ls begins
          (ycsb_step-marker _ YcsbJava.start e))

  module _ (repetition : ℕ) where
    leveldb_step-marker :
        (v w : BlockState)
        → block_marker (strip l) ≡ some m
        → leveldb_step fl repetition v l ≡ leveldb_step fl repetition w l
    leveldb_step-marker v w e = unfold leveldb_step in ground arith

    -- If the first line of a second output, stripped, matches the block marker,
    -- `parse_leveldb_output` yields of any first output, a line break and the second output what
    -- it yields of the first and then what it yields of the second.
    pub parse_leveldb_output-append :
        block_marker (strip l) ≡ some m
        → parse_leveldb_output fl repetition (s ++ (newline ∷ t))
          ≡ (parse_leveldb_output fl repetition s then parse_leveldb_output fl repetition t)
    parse_leveldb_output-append e = simp Leveldb.parse_leveldb_output_lem (
        scan-append_marker (leveldb_step fl repetition) Leveldb.start s t l ls begins
          (leveldb_step-marker _ Leveldb.start e))

    sqlite_step-marker :
        (v w : SqliteState)
        → executing_marker (strip l) ≡ some m
        → sqlite_step fl repetition v l ≡ sqlite_step fl repetition w l
    sqlite_step-marker v w e = unfold sqlite_step header_or_rest in ground arith

    -- If the first line of a second output, stripped, matches the variant header,
    -- `parse_sqlite_output` yields of any first output, a line break and the second output what
    -- it yields of the first and then what it yields of the second.
    pub parse_sqlite_output-append :
        executing_marker (strip l) ≡ some m
        → parse_sqlite_output fl repetition (s ++ (newline ∷ t))
          ≡ (parse_sqlite_output fl repetition s then parse_sqlite_output fl repetition t)
    parse_sqlite_output-append e = simp Sqlite.parse_sqlite_output_lem (
        scan-append_marker (sqlite_step fl repetition) Sqlite.start s t l ls begins
          (sqlite_step-marker _ Sqlite.start e))
