-- ===== src/Validation/Rules.antt =====
-- BusinessRuleEvaluator of app/plugins/tabular/rules.py.
pub mod Counting
use dataforge_ai_ml_service.Prelude.{
  ℕ, zero, suc, ◌+◌, ◌-◌, Bool, true, false, not, ◌&&◌, ◌||◌, Option, none, some, List, [], ◌∷◌,
  ◌++◌, if◌then◌else◌, ltb, nat_eq, list_eq, ◌==◌, member, length, map, keep, Result, ok, raise,
  ◌>>=◌, ◌>>◌,
}
use dataforge_ai_ml_service.Prelude.Dict
use dataforge_ai_ml_service.Prelude.Dict.{Dict}
use dataforge_ai_ml_service.Prelude.Texts.{Text}
use dataforge_ai_ml_service.Validation.Numbers.{Numbers}
use dataforge_ai_ml_service.Validation.RuleModel.{
  Row, FieldOp, gte, gt, lte, lt, eq, ne, is_in, not_in, RuleValue, number, text, texts,
  BusinessRuleSeverity, critical, warning, info, RuleFieldCheck, BusinessRule,
  BusinessRuleViolation, RuleCounters, Ratio, BusinessRuleSummary, BusinessRulesReport,
  BusinessRuleEvaluator, RuleError, wants_list, no_counters, is_critical, cell, is_blank,
  text_or_none,
}

abbrev pub zero_counters : RuleCounters
zero_counters = record { evaluated = 0; violations = 0; sample_object_ids = [] }

abbrev pub counters_for :
    {N : Type 0} → List (BusinessRule N) → Dict Text RuleCounters → Dict Text RuleCounters
counters_for [] d = d
counters_for (r ∷ rs) d = counters_for rs (Dict.put d r.rule_id zero_counters)

-- `BusinessRuleEvaluator.__init__`
unfoldable pub business_rule_evaluator :
    {N : Type 0}
    → (List (BusinessRule N) → Text)
    → List (BusinessRule N)
    → Text
    → Option Text
    → ℕ
    → BusinessRuleEvaluator N
business_rule_evaluator compute_rules_config_hash rules version config_hash sample_limit = record {
  rules = rules;
  rules_version = version;
  rules_config_hash = elim config_hash [ none ↦ compute_rules_config_hash rules | some h ↦ h ];
  sample_limit = sample_limit;
  counters = counters_for rules [];
  sample_violations = [];
}

-- A counter after a violation in a row.
abbrev pub count_violation : ℕ → Text → RuleCounters → RuleCounters
count_violation limit object_id c = record {
  evaluated = suc c.evaluated;
  violations = suc c.violations;
  sample_object_ids =
      if ltb (length c.sample_object_ids) limit && not (is_blank object_id)
      then c.sample_object_ids ++ object_id ∷ []
      else c.sample_object_ids;
}

abbrev pub count_pass : RuleCounters → RuleCounters
count_pass c = record c { evaluated = suc c.evaluated }

abbrev pub failed_field : {N : Type 0} → Option (RuleFieldCheck N) → Option Text
failed_field none = none
failed_field (some check) = some check.field

module _ {N F : Type 0} (n : Numbers N F) where
  -- `float(str(value))`: no text of a tuple is one of a float.
  abbrev pub expected_of : RuleValue N → Option F
  expected_of (number v) = some (n.to_float v)
  expected_of (text t) = n.parse t
  expected_of (texts ts) = none

  abbrev pub text_of : RuleValue N → Text
  text_of (number v) = n.show v
  text_of (text t) = t
  text_of (texts ts) = n.show_tuple ts

  abbrev pub compare_numbers : (F → F → Bool) → Text → RuleValue N → Bool
  compare_numbers test raw value = elim (n.parse raw) [
    | none ↦ false
    | some actual ↦ elim (expected_of value) [ none ↦ false | some expected ↦ test actual expected ]
  ]

  abbrev pub in_list : FieldOp → Text → RuleValue N → Result RuleError Bool
  in_list op raw (texts ts) = ok (member raw ts)
  in_list op raw (number v) = raise (wants_list op)
  in_list op raw (text t) = raise (wants_list op)

  -- `_check_value`
  abbrev pub check_op : FieldOp → Text → RuleValue N → Result RuleError Bool
  check_op gte raw value = ok (compare_numbers (λ a b. n.le b a) raw value)
  check_op gt raw value = ok (compare_numbers (λ a b. n.lt b a) raw value)
  check_op lte raw value = ok (compare_numbers n.le raw value)
  check_op lt raw value = ok (compare_numbers n.lt raw value)
  check_op eq raw value = ok (raw == text_of value)
  check_op ne raw value = ok (not (raw == text_of value))
  check_op is_in raw value = in_list is_in raw value
  check_op not_in raw value = in_list not_in raw value >>= λ b. ok (not b)

  unfoldable pub check_value : Text → RuleFieldCheck N → Result RuleError Bool
  check_value raw check = check_op check.op raw check.value

  -- The loop of `_evaluate_rule`: whether the rule is evaluated, whether the row passes, and the
  -- first check that fails.
  unfoldable pub evaluate_checks :
      Bool
      → Row
      → List (RuleFieldCheck N)
      → Result RuleError (Bool × Bool × Option (RuleFieldCheck N))
  evaluate_checks allow_missing row [] = ok (true, true, none)
  evaluate_checks allow_missing row (check ∷ checks) =
      let rest = evaluate_checks allow_missing row checks in
      let raw = cell row check.field in
      if is_blank raw
      then if allow_missing then rest else ok (true, false, some check)
      else check_value raw check >>= λ passes. if passes then rest else ok (true, false, some check)

  -- `_evaluate_rule`
  abbrev pub evaluate_rule :
      BusinessRule N → Row → Result RuleError (Bool × Bool × Option (RuleFieldCheck N))
  evaluate_rule rule row = evaluate_checks rule.allow_missing row rule.checks

  -- What `observe_row` does for one rule, once the rule is evaluated.
  abbrev pub record_outcome :
      BusinessRuleEvaluator N
      → BusinessRule N
      → Text
      → RuleCounters
      → Bool × Bool × Option (RuleFieldCheck N)
      → BusinessRuleEvaluator N
  record_outcome e rule object_id c (false, passed, failed) = e
  record_outcome e rule object_id c (true, true, failed) = record e {
    counters = Dict.put e.counters rule.rule_id (count_pass c);
  }
  record_outcome e rule object_id c (true, false, failed) = record e {
    counters = Dict.put e.counters rule.rule_id (count_violation e.sample_limit object_id c);
    sample_violations =
        if ltb (length e.sample_violations) e.sample_limit
        then e.sample_violations
          ++ (record {
            rule_id = rule.rule_id;
            object_id = text_or_none object_id;
            column = failed_field failed;
            message = rule.message;
          })
            ∷ []
        else e.sample_violations;
  }

  abbrev pub found_counters : Option RuleCounters → Text → Result RuleError RuleCounters
  found_counters none id = raise (no_counters id)
  found_counters (some c) id = ok c

  -- The loop of `observe_row`
  unfoldable pub observe_rules :
      BusinessRuleEvaluator N
      → Row
      → Text
      → List (BusinessRule N)
      → Result RuleError (BusinessRuleEvaluator N)
  observe_rules e row object_id [] = ok e
  observe_rules e row object_id (rule ∷ rules) = do
    c ← found_counters (Dict.get e.counters rule.rule_id) rule.rule_id
    outcome ← evaluate_rule rule row
    observe_rules (record_outcome e rule object_id c outcome) row object_id rules

  -- `BusinessRuleEvaluator.observe_row`
  unfoldable pub observe_row :
      BusinessRuleEvaluator N → Row → Text → Result RuleError (BusinessRuleEvaluator N)
  unfolding observe_rules
  observe_row e row object_id = observe_rules e row object_id e.rules

abbrev pub evaluated_of : Option RuleCounters → ℕ
evaluated_of none = 0
evaluated_of (some c) = c.evaluated

abbrev pub violations_of : Option RuleCounters → ℕ
violations_of none = 0
violations_of (some c) = c.violations

abbrev pub pass_rate_of : ℕ → ℕ → Ratio
pass_rate_of evaluated violations =
    if ltb 0 evaluated
    then record { part = evaluated - violations; whole = evaluated }
    else record { part = 1; whole = 1 }

module _ {N : Type 0} where
  abbrev pub summary_of : Dict Text RuleCounters → BusinessRule N → BusinessRuleSummary
  summary_of counters rule =
      let evaluated = evaluated_of (Dict.get counters rule.rule_id) in
      let violations = violations_of (Dict.get counters rule.rule_id) in
      record {
        rule_id = rule.rule_id;
        severity = rule.severity;
        description = rule.description;
        columns = rule.columns;
        violation_count = violations;
        evaluated_count = evaluated;
        pass_rate = pass_rate_of evaluated violations;
      }

  abbrev pub is_blocker : Dict Text RuleCounters → BusinessRule N → Bool
  is_blocker counters rule =
      is_critical rule.severity && ltb 0 (violations_of (Dict.get counters rule.rule_id))

  -- `BusinessRuleEvaluator.build_report`
  unfoldable pub build_report : BusinessRuleEvaluator N → BusinessRulesReport
  build_report e = record {
    rules_version = e.rules_version;
    rules_config_hash = e.rules_config_hash;
    rules = map (summary_of e.counters) e.rules;
    sample_violations = e.sample_violations;
    blocker_candidate_rule_ids = map (λ r. r.rule_id) (keep (is_blocker e.counters) e.rules);
  }
