-- ===== src/Parsers.antt =====
-- dbms/benchmark/parsers.py
pub mod Variant
pub mod Classes
pub mod Blocks
pub mod Duckdb
pub mod YcsbJava
pub mod Redis
pub mod LeveldbBench
pub mod Leveldb
pub mod Sqlite
pub mod Mysql
pub mod Ladybug
