-- ===== src/Runs.antt =====
-- Runs of the two workflows: app/orchestration/status_bridge.py, apply_workflow.py and
-- analyze_workflow.py of the same directory, and the job endpoints of app/api/main.py.
pub mod Events
pub mod Launch
pub mod Endings
pub mod Closings
pub mod Store
pub mod Endpoints
pub mod Surfacing
pub mod Publishing
pub mod Answer
pub mod Samples
mod Tests
