-- ===== src/Archive.antt =====
-- Archive safety: app/ingestion/archive_safety.py.
pub mod Paths
pub mod Entries
mod Tests
