-- ===== src/Tests.antt =====
-- Runs on concrete outputs, and the theorems at concrete data.
mod Fractions
mod Parsers
mod Witnesses
mod Plans
mod Counts
mod Scrapes
mod Studies
mod Benches
mod Tables
