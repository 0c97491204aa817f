-- ===== src/Cancellation.antt =====
-- Cancellation, retry metadata and failure classification: app/orchestration/cancellation.py.
pub mod Reasons
pub mod Registry
mod Tests
