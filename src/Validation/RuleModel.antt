-- ===== src/Validation/RuleModel.antt =====
-- The rules of app/plugins/tabular/rules.py, and the contracts of their report.
use dataforge_ai_ml_service.Prelude.{
  ℕ, Bool, true, false, Option, none, some, List, [], ◌∷◌, nat_eq, list_eq,
}
use dataforge_ai_ml_service.Prelude.Dict
use dataforge_ai_ml_service.Prelude.Dict.{Dict}
use dataforge_ai_ml_service.Prelude.Texts.{Text}

abbrev pub Row : Type 0
Row = Dict Text Text

pub data FieldOp : Type 0 where
  gte gt lte lt eq ne is_in not_in : FieldOp

pub data RuleValue (N : Type 0) : Type 0 where
  number : N → RuleValue N
  text : Text → RuleValue N
  texts : List Text → RuleValue N

pub data BusinessRuleSeverity : Type 0 where
  critical warning info : BusinessRuleSeverity

pub record RuleFieldCheck (N : Type 0) : Type 0 where
  pub field : Text
  pub op : FieldOp
  pub value : RuleValue N

pub record BusinessRule (N : Type 0) : Type 0 where
  pub rule_id : Text
  pub description : Option Text
  pub severity : BusinessRuleSeverity
  pub columns : List Text
  pub checks : List (RuleFieldCheck N)
  pub allow_missing : Bool
  pub message : Option Text

pub record BusinessRuleViolation : Type 0 where
  pub rule_id : Text
  pub object_id : Option Text
  pub column : Option Text
  pub message : Option Text

pub record RuleCounters : Type 0 where
  pub evaluated : ℕ
  pub violations : ℕ
  pub sample_object_ids : List Text

-- A pass rate is kept as its two counts.
pub record Ratio : Type 0 where
  pub part : ℕ
  pub whole : ℕ

pub record BusinessRuleSummary : Type 0 where
  pub rule_id : Text
  pub severity : BusinessRuleSeverity
  pub description : Option Text
  pub columns : List Text
  pub violation_count : ℕ
  pub evaluated_count : ℕ
  pub pass_rate : Ratio

pub record BusinessRulesReport : Type 0 where
  pub rules_version : Text
  pub rules_config_hash : Text
  pub rules : List BusinessRuleSummary
  pub sample_violations : List BusinessRuleViolation
  pub blocker_candidate_rule_ids : List Text

pub record BusinessRuleEvaluator (N : Type 0) : Type 0 where
  pub rules : List (BusinessRule N)
  pub rules_version : Text
  pub rules_config_hash : Text
  pub sample_limit : ℕ
  pub counters : Dict Text RuleCounters
  pub sample_violations : List BusinessRuleViolation

-- `_check_value` raises ValueError for a set operator with another value than a list; a counter
-- that is not there would be a KeyError.
pub data RuleError : Type 0 where
  wants_list : FieldOp → RuleError
  no_counters : Text → RuleError

abbrev pub is_critical : BusinessRuleSeverity → Bool
is_critical critical = true
is_critical warning = false
is_critical info = false

-- `row.get(column, "")`
abbrev pub cell : Row → Text → Text
cell row column = elim (Dict.get row column) [ none ↦ [] | some value ↦ value ]

abbrev pub is_blank : Text → Bool
is_blank [] = true
is_blank (c ∷ t) = false

-- `text or None`
abbrev pub text_or_none : Text → Option Text
text_or_none [] = none
text_or_none (c ∷ t) = some (c ∷ t)
