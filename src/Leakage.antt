-- ===== src/Leakage.antt =====
-- The checks for leakage between splits: app/plugins/tabular/leakage_checks.py.
pub mod Model
pub mod Table
pub mod Checks
pub mod Crossing
pub mod Content
pub mod Duplicates
pub mod Reading
pub mod Ids
pub mod Acceptance
pub mod Verdict
pub mod Splitter
mod Tests
