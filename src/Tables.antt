-- ===== src/Tables.antt =====
-- The two scripts of plots/ that write LaTeX tables without drawing.
pub mod BugClasses
pub mod Breakdown
