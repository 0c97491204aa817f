-- ===== src/Eligibility.antt =====
-- Whether model impact may be evaluated: app/kernel/model_impact_eligibility.py.
pub mod Model
pub mod Stats
pub mod Check
pub mod Conditions
pub mod Bookkeeping
pub mod Consistency
mod Tests
