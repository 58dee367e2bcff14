-- ===== src/BugStudy.antt =====
-- bug_study: the votes of the classifier, their yearly statistics, and the report of overlaps.
pub mod Json
pub mod Years
pub mod Loading
pub mod Votes
pub mod Yearly
pub mod Reports
pub mod Export
