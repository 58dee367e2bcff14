-- ===== src/Sweep.antt =====
-- dbms/benchmark/run_benchmarks.py: the plan of a sweep, and the two queues that carry it out.
pub mod Specs
pub mod Plan
pub mod Queues
pub mod Workers
pub mod Execute
