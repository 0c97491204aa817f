-- ===== src/Validation.antt =====
-- What a candidate has to pass: app/plugins/tabular/rules.py and app/plugins/validation/gates.py.
pub mod Numbers
pub mod RuleModel
pub mod Rules
pub mod Gates
pub mod Samples
mod Tests
