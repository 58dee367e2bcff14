-- ===== src/Tests/Parsers.antt =====
-- The parsers on short outputs.
use memsafedb.Prelude.{◌≡◌, refl}
use memsafedb.Prelude.Gen.{done, yield, value_error}
use memsafedb.Text.{codes, show}
use memsafedb.Rows.{number, text}
use memsafedb.Tests.Fractions.{fractions, frac}
use memsafedb.Parsers.Duckdb.{parse_duckdb_output, query_row}
use memsafedb.Parsers.YcsbJava.{parse_ycsb_java_output, ycsb_row, throughput, read_latency}
use memsafedb.Parsers.Redis.{parse_redis_output, redis_row}
use memsafedb.Parsers.LeveldbBench.{BenchmarkInfo, parse_leveldb_bench_output, bench_row}
use memsafedb.Parsers.Leveldb
use memsafedb.Parsers.Leveldb.{parse_leveldb_output, leveldb_row}
use memsafedb.Parsers.Sqlite.{parse_sqlite_output, tps_row}
use memsafedb.Parsers.Mysql
use memsafedb.Parsers.Mysql.{parse_mysql_output, mysql_row}
use memsafedb.Parsers.Ladybug.{parse_ladybug_output, ladybug_row}

duckdb_run :
    parse_duckdb_output fractions
      (codes "noise\nq1,1.5\nq2,2.5\n q1,3\nq2,4\nq1,5\nq2,6\nq1,7\nq2,8\nq3,9\n")
      2
    ≡ yield (query_row fractions (codes "release") 2 (codes "q1") (frac 15 10)) (
        yield (query_row fractions (codes "release") 2 (codes "q2") (frac 25 10)) (
          yield (query_row fractions (codes "release-mte") 2 (codes "q1") (frac 3 1)) (
            yield (query_row fractions (codes "release-mte") 2 (codes "q2") (frac 4 1)) (
              yield (query_row fractions (codes "release-cold") 2 (codes "q1") (frac 5 1)) (
                yield (query_row fractions (codes "release-cold") 2 (codes "q2") (frac 6 1)) (
                  yield (query_row fractions (codes "release-mte-cold") 2 (codes "q1") (frac 7 1)) (
                    yield
                      (query_row fractions (codes "release-mte-cold") 2 (codes "q2") (frac 8 1))
                      (yield
                        (query_row fractions (codes "release-mte-cold") 2 (codes "q3") (frac 9 1))
                        done))))))))
unfolding parse_duckdb_output
duckdb_run = refl

-- `[\d.]+` takes what `float` refuses.
duckdb_raises : parse_duckdb_output fractions (codes "q1,1.2.3\nq2,1\nq3,1\nq4,1") 0 ≡ value_error
unfolding parse_duckdb_output
duckdb_raises = refl

java_run :
    parse_ycsb_java_output fractions (codes "redis") 1 (
      codes
        "=== Running workloada (redis-MTE) ===\n[OVERALL], Throughput(ops/sec), 12.5\n [READ], AverageLatency(us), 7")
    ≡ yield
        (ycsb_row fractions
          (codes "redis")
          1
          (codes "release-mte")
          (codes "a")
          throughput.metric
          (frac 125 10))
        (yield
          (ycsb_row fractions
            (codes "redis")
            1
            (codes "release-mte")
            (codes "a")
            read_latency.metric
            (frac 7 1))
          done)
unfolding parse_ycsb_java_output
java_run = refl

redis_run :
    parse_redis_output fractions 1 (
      codes
        "REDIS_YCSB workload=a variant=mte phase=load\n[OVERALL], Throughput(ops/sec), 9\nredis_ycsb workload=A variant=Dynamic phase=run\n 10 operations; 3 current ops/sec; 10 operations; 4 current ops/sec;\nREDIS_YCSB workload=b variant=x phase=run\n5 operations; 3 current ops/sec; [OVERALL], Throughput(ops/sec), 8")
    ≡ yield
        (redis_row fractions 1 (codes "release-dynamic") (codes "a") (frac 4 1))
        (yield (redis_row fractions 1 (codes "release-x") (codes "b") (frac 8 1)) done)
unfolding parse_redis_output
redis_run = refl

bench_run :
    parse_leveldb_bench_output fractions 1 (
      codes
        "=== Running threads 04 - ASan ===\nfillseq  :  1.5 micros/op; x\nMin: 1.0 Median: 2 Max: 3\nAverage: 4 StdDev: 5")
    ≡ (let info : BenchmarkInfo = record {
      variant = codes "release-asan";
      workload = codes "fillseq_t4";
    } in
        yield (bench_row fractions 1 info (codes "latency_avg") (frac 15 10)) (
          yield (bench_row fractions 1 info (codes "latency_min") (frac 10 10)) (
            yield (bench_row fractions 1 info (codes "latency_median") (frac 2 1)) (
              yield
                (bench_row fractions 1 info (codes "latency_max") (frac 3 1))
                (yield (bench_row fractions 1 info (codes "latency_stddev") (frac 5 1)) done)))))
unfolding parse_leveldb_bench_output
bench_run = refl

leveldb_run :
    parse_leveldb_output fractions 1 (
      codes
        "=== Running workloada - threads: 8 - MTE ===\n10 sec: 99 operations; [READ: Count=1 Max=2 Min=1 Avg=4] [UPDATE: Count=3 Max=2.5 Min=1 Avg=8]\nRun runtime(sec): 3\nRun throughput(ops/sec): 77.5")
    ≡ yield
        (leveldb_row fractions 1
          (codes "release-mte")
          (codes "a_t8")
          Leveldb.throughput
          (number (frac 775 10)))
        (yield
          (leveldb_row fractions 1
            (codes "release-mte")
            (codes "a_t8")
            Leveldb.latency_avg
            (text (codes "7.0")))
          done)
unfolding parse_leveldb_output show
leveldb_run = refl

sqlite_run :
    parse_sqlite_output fractions 1 (
      codes
        "=== Executing cheri ===\nExecution Results after 60 seconds\nTOTAL  4200  58.3\nTOTAL 1\nExecution Results after 0 seconds\nTOTAL 5")
    ≡ yield (tps_row fractions 1 (codes "release-cheri") (frac 4200 60)) done
unfolding parse_sqlite_output
sqlite_run = refl

mysql_run :
    parse_mysql_output fractions 1 (
      codes
        "=== Running mysql (release-mte) ===\n transactions:   100  (16.5 per sec.)\n queries: 3 (33 per sec.)\nLatency (ms):\n  avg:   4\n  95th percentile: 12\n\n avg: 5")
    ≡ yield (mysql_row fractions 1 (codes "release-mte") Mysql.tps (frac 165 10)) (
        yield (mysql_row fractions 1 (codes "release-mte") Mysql.qps (frac 33 1)) (
          yield (mysql_row fractions 1 (codes "release-mte") Mysql.latency_avg (frac 4 1)) (
            yield
              (mysql_row fractions 1 (codes "release-mte") Mysql.latency_p95 (frac 12 1))
              done)))
unfolding parse_mysql_output
mysql_run = refl

ladybug_run :
    parse_ladybug_output fractions 1 (
      codes
        "=== Executing mte - threads: 4 ===\n[info] Running benchmark q1 with 4 thread\n[info] Time Taken (Average of Last 3 runs) (ms): 12.5")
    ≡ yield (ladybug_row fractions 1 (codes "release-mte") (codes "q1") (frac 125 10)) done
unfolding parse_ladybug_output
ladybug_run = refl
