-- ===== src/Structs.antt =====
-- datastructures/execute_bench.py: the configurations of the data structures' benchmarks, the
-- commands that run them, and the results that are written.
pub mod Latency
pub mod Commands
pub mod Confs
pub mod Runs
