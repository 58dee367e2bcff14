-- ===== src/BugStudy/Yearly.antt =====
-- `analyze_dbms_by_year` of export_bug_results_to_csv.py and of export_cve_results_to_csv.py. A
-- set of names that the scripts walk in no certain order is walked as it was filled; the results
-- are sets and counts.
pub mod Bugs
pub mod Cves
pub mod Subsets
pub mod CveSubsets
pub mod Table
pub use Table.*
