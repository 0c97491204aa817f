-- ===== src/ActionPlan.antt =====
-- Action plans: app/kernel/action_plan.py and the contracts of app/domain/decision.py.
pub mod Model
pub mod Steps
pub mod Preview
pub mod Execution
pub mod RoundTrip
mod Tests
