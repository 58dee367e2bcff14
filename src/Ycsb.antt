-- ===== src/Ycsb.antt =====
-- dbms/benchmark/ycsb_runner.py: the scripts that load once and run many times, and the reading of
-- their output.
pub mod Scripts
pub mod RedisScripts
pub mod Output
pub mod Headers
pub mod Transcript
pub mod Exec
