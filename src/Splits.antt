-- ===== src/Splits.antt =====
-- The splitter of supervised tables: app/plugins/tabular/splits.py.
pub mod Rows
pub mod Groups
pub mod Targets
pub mod Assign
pub mod Integrity
pub mod Success
pub mod Distribution
pub mod Samples
mod Tests
