-- ===== src/Validation/Rules/Counting.antt =====
-- What BusinessRuleEvaluator of app/plugins/tabular/rules.py counts over the rows of a table.
use mathlib.Core.Path.{ap₂}
use dataforge_ai_ml_service.Prelude.{
  ℕ, ◌+◌, Bool, true, false, not, ◌&&◌, Option, some, List, [], ◌∷◌, if◌then◌else◌, ltb, nat_eq,
  list_eq, list_beq_iff, ◌==◌, map, keep, any, sum_of, Result, ok, raise, ◌>>=◌, >>=-eq-ok, ◌≡◌,
  refl, sym, ap, ◌∙◌, arith,
}
use dataforge_ai_ml_service.Prelude.Dict
use dataforge_ai_ml_service.Prelude.Dict.{Dict, get-put}
use dataforge_ai_ml_service.Prelude.Texts.{Text, codes}
use dataforge_ai_ml_service.Validation.Numbers.{Numbers}
use dataforge_ai_ml_service.Validation.RuleModel.{
  Row, RuleFieldCheck, BusinessRule, RuleCounters, BusinessRuleEvaluator, RuleError, is_critical,
  cell,
}
use dataforge_ai_ml_service.Validation.Rules.{
  zero_counters, counters_for, business_rule_evaluator, count_violation, count_pass, evaluate_rule,
  record_outcome, found_counters, observe_rules, observe_row, violations_of, is_blocker, summary_of,
  build_report,
}

module _ {N F : Type 0} (n : Numbers N F) where
  -- The rows of a table, observed in order, each under its object id.
  unfoldable pub observe_rows :
      BusinessRuleEvaluator N → List Row → Result RuleError (BusinessRuleEvaluator N)
  observe_rows e [] = ok e
  observe_rows e (row ∷ rows) = do
    e' ← observe_row n e row (cell row (codes "object_id"))
    observe_rows e' rows

  -- The outcome of a rule that a row violates.
  abbrev pub is_violation : Result RuleError (Bool × Bool × Option (RuleFieldCheck N)) → Bool
  is_violation (ok (evaluated, passed, failed)) = evaluated && not passed
  is_violation (raise x) = false

  abbrev pub violates : Row → BusinessRule N → Bool
  violates row rule = is_violation (evaluate_rule n rule row)

  -- The violations that are counted under an id.
  abbrev tally : BusinessRuleEvaluator N → Text → ℕ
  tally e id = violations_of (Dict.get e.counters id)

  abbrev pub counted : Text → Row → BusinessRule N → ℕ
  counted id row rule = if rule.rule_id == id && violates row rule then 1 else 0

  record_outcome-tally :
      (e : BusinessRuleEvaluator N) (rule : BusinessRule N) (object_id : Text) (c : RuleCounters)
      (o : Bool × Bool × Option (RuleFieldCheck N)) (id : Text)
      → Dict.get e.counters rule.rule_id ≡ some c
      → tally (record_outcome n e rule object_id c o) id
        ≡ tally e id + (if rule.rule_id == id && is_violation (ok o) then 1 else 0)
  record_outcome-tally e rule object_id c (false, passed, failed) id h = ground arith
  record_outcome-tally e rule object_id c (true, true, failed) id h = ground (
    arith,
    get-put e.counters rule.rule_id id (count_pass c),
    list_beq_iff rule.rule_id id,
    ap (Dict.get e.counters),
  )
  record_outcome-tally e rule object_id c (true, false, failed) id h = ground (
    arith,
    get-put e.counters rule.rule_id id (count_violation e.sample_limit object_id c),
    list_beq_iff rule.rule_id id,
    ap (Dict.get e.counters),
  )

  record_outcome-rules :
      (e : BusinessRuleEvaluator N) (rule : BusinessRule N) (object_id : Text) (c : RuleCounters)
      (o : Bool × Bool × Option (RuleFieldCheck N))
      → (record_outcome n e rule object_id c o).rules ≡ e.rules
  record_outcome-rules e rule object_id c (false, passed, failed) = refl
  record_outcome-rules e rule object_id c (true, true, failed) = refl
  record_outcome-rules e rule object_id c (true, false, failed) = refl

  observe_rules-tally :
      (e : BusinessRuleEvaluator N) (row : Row) (object_id : Text) (rules : List (BusinessRule N))
      {e' : BusinessRuleEvaluator N}
      → observe_rules n e row object_id rules ≡ ok e'
      → (e'.rules ≡ e.rules)
        × ((id : Text) → tally e' id ≡ tally e id + sum_of (counted id row) rules)
  unfolding observe_rules
  observe_rules-tally e row object_id [] {e'} h =
      let same : e ≡ e' = cc h in
      (ap (λ x. x.rules) (sym same), λ id. omega (arith, ap (λ x. tally x id) same))
  observe_rules-tally e row object_id (rule ∷ rules) {e'} h =
      let (c, found, h₁) =
        >>=-eq-ok (found_counters n (Dict.get e.counters rule.rule_id) rule.rule_id) _ h in
      let (o, outcome, h₂) = >>=-eq-ok (evaluate_rule n rule row) _ h₁ in
      let (same, later) =
        observe_rules-tally (record_outcome n e rule object_id c o) row object_id rules h₂ in
      let found' : Dict.get e.counters rule.rule_id ≡ some c = ground arith in
      (
        same ∙ record_outcome-rules e rule object_id c o,
        λ id.
            let this : counted id row rule
                ≡ (if rule.rule_id == id && is_violation (ok o) then 1 else 0) =
              ap (λ r. if rule.rule_id == id && is_violation r then 1 else 0) outcome in
            omega (arith, later id, record_outcome-tally e rule object_id c o id found', this),
      )

  -- The rows, each with the rules it violates of an id.
  abbrev pub counted_in : List (BusinessRule N) → Text → Row → ℕ
  counted_in rules id row = sum_of (counted id row) rules

  observe_rows-tally :
      (e : BusinessRuleEvaluator N) (rows : List Row) {e' : BusinessRuleEvaluator N}
      → observe_rows e rows ≡ ok e'
      → (e'.rules ≡ e.rules)
        × ((id : Text) → tally e' id ≡ tally e id + sum_of (counted_in e.rules id) rows)
  unfolding observe_rows observe_row
  observe_rows-tally e [] {e'} h =
      let same : e ≡ e' = cc h in
      (ap (λ x. x.rules) (sym same), λ id. omega (arith, ap (λ x. tally x id) same))
  observe_rows-tally e (row ∷ rows) {e'} h =
      let (e₁, first, h₁) = >>=-eq-ok (observe_row n e row (cell row (codes "object_id"))) _ h in
      let (kept, now) = observe_rules-tally e row (cell row (codes "object_id")) e.rules first in
      let (same, later) = observe_rows-tally e₁ rows h₁ in
      (
        same ∙ kept,
        λ id.
            let moved : sum_of (counted_in e₁.rules id) rows ≡ sum_of (counted_in e.rules id) rows =
              ap (λ rs. sum_of (counted_in rs id) rows) kept in
            omega (arith, later id, now id, moved),
      )

  -- A row breaks a rule of an id.
  abbrev pub breaks : List (BusinessRule N) → Text → Row → Bool
  breaks rules id row = any (λ rule. rule.rule_id == id && violates row rule) rules

  counted_in-breaks :
      (rules : List (BusinessRule N)) (id : Text) (row : Row)
      → ltb 0 (counted_in rules id row) ≡ breaks rules id row
  counted_in-breaks [] id row = refl
  counted_in-breaks (rule ∷ rules) id row = ground (arith, counted_in-breaks rules id row)

  pub sum-breaks :
      (rules : List (BusinessRule N)) (id : Text) (rows : List Row)
      → ltb 0 (sum_of (counted_in rules id) rows) ≡ any (breaks rules id) rows
  sum-breaks rules id [] = refl
  sum-breaks rules id (row ∷ rows) =
      ground (arith, sum-breaks rules id rows, counted_in-breaks rules id row)

  counters_for-zero :
      (rules : List (BusinessRule N)) (d : Dict Text RuleCounters) (id : Text)
      → violations_of (Dict.get d id) ≡ 0
      → violations_of (Dict.get (counters_for rules d) id) ≡ 0
  counters_for-zero [] d id h = h
  counters_for-zero (rule ∷ rules) d id h =
      counters_for-zero rules (Dict.put d rule.rule_id zero_counters) id
        (ground (arith, get-put d rule.rule_id id zero_counters))

  keep_cong :
      (p q : BusinessRule N → Bool)
      → ((r : BusinessRule N) → p r ≡ q r)
      → (rs : List (BusinessRule N)) → keep p rs ≡ keep q rs
  keep_cong p q h [] = refl
  keep_cong p q h (r ∷ rs) = ground (arith, keep_cong p q h rs, h r)

  violation_counts :
      (d : Dict Text RuleCounters) (f : Text → ℕ)
      → ((id : Text) → violations_of (Dict.get d id) ≡ f id)
      → (rs : List (BusinessRule N))
      → map (λ s. s.violation_count) (map (summary_of d) rs) ≡ map (λ r. f r.rule_id) rs
  violation_counts d f h [] = refl
  violation_counts d f h (r ∷ rs) = ap₂ (λ x xs. x ∷ xs) (h r.rule_id) (violation_counts d f h rs)

  module _ (hash : List (BusinessRule N) → Text) (rules : List (BusinessRule N)) (version : Text)
      (config_hash : Option Text) (limit : ℕ) (rows : List Row) where
    abbrev pub fresh_evaluator : BusinessRuleEvaluator N
    fresh_evaluator = business_rule_evaluator hash rules version config_hash limit

    observed-rules :
        {e : BusinessRuleEvaluator N} → observe_rows fresh_evaluator rows ≡ ok e → e.rules ≡ rules
    unfolding business_rule_evaluator
    observed-rules h = (observe_rows-tally fresh_evaluator rows h).0

    observed-tally :
        {e : BusinessRuleEvaluator N} (id : Text)
        → observe_rows fresh_evaluator rows ≡ ok e
        → tally e id ≡ sum_of (counted_in rules id) rows
    unfolding business_rule_evaluator Dict.get
    observed-tally id h =
        let from_zero = counters_for-zero rules [] id refl in
        omega (arith, (observe_rows-tally fresh_evaluator rows h).1 id, from_zero)

    -- The ids of the critical rules such that some row breaks a rule of the id.
    abbrev pub broken_critical : List Text
    broken_critical =
        map (λ r. r.rule_id)
          (keep (λ r. is_critical r.severity && any (breaks rules r.rule_id) rows) rules)

    pub build_report-blockers :
        (e : BusinessRuleEvaluator N)
        → observe_rows fresh_evaluator rows ≡ ok e
        → ((build_report e).blocker_candidate_rule_ids ≡ broken_critical)
          × (map (λ s. s.violation_count) (build_report e).rules
              ≡ map (λ r. sum_of (counted_in rules r.rule_id) rows) rules)
    unfolding build_report
    build_report-blockers e h =
        let tallies = λ (id : Text). observed-tally id h in
        (
          ap (λ rs. map (λ r. r.rule_id) (keep (is_blocker e.counters) rs)) (observed-rules h)
              ∙ ap (map (λ r. r.rule_id)) (
                  keep_cong (is_blocker e.counters)
                    (λ r. is_critical r.severity && any (breaks rules r.rule_id) rows)
                    (λ r.
                      ap (λ t. is_critical r.severity && ltb 0 t) (tallies r.rule_id)
                      ∙ ap (λ b. is_critical r.severity && b) (sum-breaks rules r.rule_id rows))
                    rules),
          ap (λ rs. map (λ s. s.violation_count) (map (summary_of e.counters) rs))
                (observed-rules h)
              ∙ violation_counts e.counters (λ id. sum_of (counted_in rules id) rows) tallies rules,
        )
