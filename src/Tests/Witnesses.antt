-- ===== src/Tests/Witnesses.antt =====
-- The theorems on the parsers, at concrete outputs.
use memsafedb.Prelude.{
  Sublist, map, keep, ◌≤◌, ◌≡◌, refl, Option, none, some, [], ◌∷◌, ◌++◌, length, arith,
}
use memsafedb.Prelude.Gen.{yield_all, AllRows, rows, ◌then◌}
use memsafedb.Text.{Text, codes, show, split_on, newline, strip, join_lines, is_digit}
use memsafedb.Regex.{Match, begin, find_iter}
use memsafedb.Tests.Fractions.{Fraction, fractions, frac}
use memsafedb.Parsers.Variant.{variant_name, sanitizer_variant_name, variant_names}
use memsafedb.Parsers.Blocks.{
  parse_ycsb_java_output-append, parse_leveldb_output-append, parse_sqlite_output-append,
}
use memsafedb.Parsers.Duckdb.{parse_duckdb_output}
use memsafedb.Parsers.Duckdb.Quarters.{
  Timed, IsTimed, duckdb_output, duckdb_rows, parse_duckdb_output-duckdb_output,
}
use memsafedb.Parsers.YcsbJava.{parse_ycsb_java_output, workload_marker}
use memsafedb.Parsers.Leveldb.{parse_leveldb_output, block_marker}
use memsafedb.Parsers.Redis.{redis_marker, is_run_phase, parse_redis_output}
use memsafedb.Parsers.Redis.Order.{marker_label, row_label, parse_redis_output-Sublist}
use memsafedb.Parsers.Mysql.{parse_mysql_output}
use memsafedb.Parsers.Sqlite.{parse_sqlite_output, executing_marker}
use memsafedb.Parsers.Sqlite.Rates.{IsRate, durations, parse_sqlite_output-rates}
use memsafedb.Ycsb.Output.{blocks, read_header}
use memsafedb.Ycsb.Scripts.{marker}
use memsafedb.Ycsb.Headers.{ldb, redis, IsHeader, read_header-marker}
use memsafedb.Ycsb.Transcript.{Section, IsSection, section_lines, block_of, blocks-sections}

abbrev query_one : Timed Fraction
query_one = record {
  printed = record { query = codes "1"; time = codes "1.5" };
  value = frac 15 10;
}

query_one-IsTimed : IsTimed fractions query_one
unfolding is_digit
query_one-IsTimed = record {
  is_printed = record {
    query_digits = (refl, tt);
    query_some = omega arith;
    time_number = (refl, (refl, (refl, tt)));
    time_some = omega arith;
  };
  is_float = refl;
}

parse_duckdb_output-duckdb_output_example :
    parse_duckdb_output fractions
      (duckdb_output fractions 3
        (query_one ∷ [])
        (query_one ∷ [])
        (query_one ∷ [])
        (query_one ∷ (query_one ∷ [])))
      3
    ≡ yield_all (
        duckdb_rows fractions 3
          (query_one ∷ [])
          (query_one ∷ [])
          (query_one ∷ [])
          (query_one ∷ (query_one ∷ [])))
parse_duckdb_output-duckdb_output_example =
    parse_duckdb_output-duckdb_output fractions 3 query_one [] (query_one ∷ []) (query_one ∷ [])
      (query_one ∷ (query_one ∷ [])) (query_one-IsTimed, tt) (query_one-IsTimed, tt)
      (query_one-IsTimed, tt) (query_one-IsTimed, (query_one-IsTimed, tt)) refl refl (omega arith)
      (omega arith)

variant_names_example :
    (variant_name (codes "rsan") ≡ codes "release-rsan")
    × (sanitizer_variant_name (codes "rsan") ≡ codes "release-rsan")
variant_names_example = variant_names (codes "rsan")

abbrev sqlite_text : Text
sqlite_text = codes "=== Executing mte ===\nExecution Results after 60 seconds\nTOTAL 4200"

parse_sqlite_output-rates_example :
    AllRows (IsRate fractions 1) (parse_sqlite_output fractions 1 sqlite_text)
    × (length (rows (parse_sqlite_output fractions 1 sqlite_text))
        ≤ durations (split_on newline sqlite_text))
parse_sqlite_output-rates_example = parse_sqlite_output-rates fractions 1 sqlite_text

abbrev mte_section : Section
mte_section = record { workload = b'a'; threads = 8; variant = codes "mte"; body = codes "7" ∷ [] }

mte-IsHeader : IsHeader b'a' (codes "mte")
unfolding is_digit
mte-IsHeader = record {
  workload = refl;
  variant_word = (refl, (refl, (refl, tt)));
  variant_some = omega arith;
}

read_header-marker_example :
    read_header (codes "REDIS") (marker (codes "REDIS") (codes "a") 64 (codes "mte"))
    ≡ some (record { workload = codes "a"; threads = show 64; variant = codes "mte" })
read_header-marker_example = read_header-marker redis b'a' 64 (codes "mte") mte-IsHeader

mte_section-IsSection : IsSection ldb mte_section
unfolding read_header
mte_section-IsSection = record {
  header = mte-IsHeader;
  lines = ((refl, tt), tt);
  plain = (refl, tt);
}

blocks-sections_example :
    blocks
      (codes "LDB")
      (join_lines (codes "load" ∷ section_lines ldb (mte_section ∷ (mte_section ∷ []))))
    ≡ block_of mte_section ∷ (block_of mte_section ∷ [])
unfolding read_header
blocks-sections_example =
    blocks-sections ldb (codes "load" ∷ []) mte_section (mte_section ∷ [])
      ((refl, (refl, (refl, (refl, tt)))), tt) (refl, tt)
      (mte_section-IsSection, (mte_section-IsSection, tt))

abbrev no_match : Match
no_match = record { start = 0; end_state = begin [] }

abbrev the_match : Option Match → Match
the_match none = no_match
the_match (some m) = m

abbrev java_marker : Text
java_marker = codes "=== Running workloada (dynamic) ==="

abbrev java_metric : Text
java_metric = codes "[OVERALL], Throughput(ops/sec), 12.5"

parse_ycsb_java_output-append_example :
    parse_ycsb_java_output fractions
      (codes "redis")
      1
      (codes "first" ++ (newline ∷ (java_marker ++ (newline ∷ java_metric))))
    ≡ (parse_ycsb_java_output fractions (codes "redis") 1 (codes "first")
        then parse_ycsb_java_output fractions
            (codes "redis")
            1
            (java_marker ++ (newline ∷ java_metric)))
unfolding workload_marker strip split_on
parse_ycsb_java_output-append_example =
    parse_ycsb_java_output-append fractions (codes "first") (java_marker ++ (newline ∷ java_metric))
      java_marker (java_metric ∷ []) refl (the_match (workload_marker (strip java_marker)))
      (codes "redis") 1 refl

abbrev leveldb_marker : Text
leveldb_marker = codes "=== Running workloada - threads: 8 - MTE ==="

parse_leveldb_output-append_example :
    parse_leveldb_output fractions 1 (codes "first" ++ (newline ∷ leveldb_marker)) ≡ (
      parse_leveldb_output fractions 1 (codes "first")
      then parse_leveldb_output fractions 1 leveldb_marker)
unfolding block_marker strip split_on
parse_leveldb_output-append_example =
    parse_leveldb_output-append fractions (codes "first") leveldb_marker leveldb_marker [] refl
      (the_match (block_marker (strip leveldb_marker))) 1 refl

abbrev sqlite_marker : Text
sqlite_marker = codes "=== Executing mte ==="

parse_sqlite_output-append_example :
    parse_sqlite_output fractions 1 (sqlite_text ++ (newline ∷ sqlite_marker)) ≡ (
      parse_sqlite_output fractions 1 sqlite_text
      then parse_sqlite_output fractions 1 sqlite_marker)
unfolding executing_marker strip split_on
parse_sqlite_output-append_example =
    parse_sqlite_output-append fractions sqlite_text sqlite_marker sqlite_marker [] refl
      (the_match (executing_marker (strip sqlite_marker))) 1 refl

abbrev redis_text : Text
redis_text =
    codes
      "REDIS_YCSB workload=a variant=mte phase=run\n[OVERALL], Throughput(ops/sec), 9\nREDIS_YCSB workload=b variant=x phase=load"

parse_redis_output-Sublist_example :
    Sublist
      (map (row_label fractions 1) (rows (parse_redis_output fractions 1 redis_text)))
      (map marker_label (keep is_run_phase (find_iter redis_marker redis_text)))
parse_redis_output-Sublist_example = parse_redis_output-Sublist fractions 1 redis_text

abbrev mysql_text : Text
mysql_text = codes "=== Running mysql (release-mte) ===\n transactions:   100  (16.5 per sec.)"

-- The label decides the variant, also of the first run.
mysql_variants :
    map (λ r. r.variant) (rows (parse_mysql_output fractions 1 mysql_text))
    ≡ codes "release-mte" ∷ []
unfolding parse_mysql_output
mysql_variants = refl
