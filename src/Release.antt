-- ===== src/Release.antt =====
-- What an apply run releases: app/kernel/candidate_version.py, app/kernel/export_package.py, and
-- the final refs of app/orchestration/apply_runtime.py.
pub mod Version
pub mod Candidate
pub mod Gates
pub mod Export
pub mod Stops
pub mod Ready
pub mod Package
pub mod Chain
mod Tests
