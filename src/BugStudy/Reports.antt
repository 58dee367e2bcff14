-- ===== src/BugStudy/Reports.antt =====
-- analyse_bug_results.py and analyse_cve_results.py: the statistics of the classifier's three
-- repetitions, the exclusive regions of the four sets of flagged reports, and the detailed reports.
pub mod Ids
pub mod Reading
pub mod Regions
pub mod Parts
pub mod Entries
pub mod Bugs
pub mod Cves
pub mod Cumulative
