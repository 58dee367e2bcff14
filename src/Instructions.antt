-- ===== src/Instructions.antt =====
-- dbms/benchmark/count_new_instructions.py
pub mod Patterns
pub mod Counting
pub mod Targets
pub mod Table
