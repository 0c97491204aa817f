-- ===== src/Eligibility/Consistency.antt =====
-- What the report of app/kernel/model_impact_eligibility.py says of its own verdict.
use dataforge_ai_ml_service.Prelude.{
  true, false, not, none, List, [], ◌∷◌, member, ordered_unique, unique_from, member-unique_from,
  string_eq, nat_eq, list_eq, ◌≡◌, ◌≢◌, ◌↔◌, refl, sym, ◌∙◌, arith,
}
use dataforge_ai_ml_service.Eligibility.Model
use dataforge_ai_ml_service.Eligibility.Model.{
  ModelImpactTaskType, supervised_tabular_classification, supervised_tabular_regression,
  ModelImpactInputName, target_label, enough_labeled_samples, valid_split_strategy,
  no_leakage_blockers, baseline_model_available, ReasonCode, not_eligible, value, input_eq, code_eq,
  Ref, FallbackReadinessReportRef, SplitManifest, LeakageReport,
}
use dataforge_ai_ml_service.Eligibility.Check.{
  CheckModelImpactEligibilityRequest, findings_of, is_eligible, has_no_codes, first_code,
  FallbackReadinessReport, ModelImpactEligibilityReport, check_model_impact_eligibility,
}
use dataforge_ai_ml_service.Eligibility.Conditions.{is_classification, Tests, tests_of, found}

-- What a report says of its own verdict.
pub record IsConsistent (task : ModelImpactTaskType) (r : ModelImpactEligibilityReport)
    : Type 0 where
  pub status_fits : (r.status ≡ Model.eligible) ↔ (r.eligible ≡ true)
  pub fallback_fits : (r.fallback_report ≡ none) ↔ (r.eligible ≡ true)
  pub codes_fit : (r.not_eligible_reason_codes ≡ []) ↔ (r.eligible ≡ true)
  pub primary_fits :
      r.eligible ≡ false
      → (c : ReasonCode) × (cs : List ReasonCode) × (r.not_eligible_reason_codes ≡ c ∷ cs)
        × (r.primary_reason_code ≡ value c)
  pub inputs_split :
      (i : ModelImpactInputName)
      → i ≢ baseline_model_available
      → member i r.required_inputs_present ≡ not (member i r.required_inputs_missing)
  pub baseline_noted :
      (member baseline_model_available r.required_inputs_present ≡ is_classification task)
      × (member baseline_model_available r.required_inputs_missing ≡ false)

found-codes :
    (task : ModelImpactTaskType) (t : Tests)
    → let f = found task t in has_no_codes f.codes ≡ is_eligible f
unfolding is_eligible
found-codes task t = ground arith

found-inputs :
    (task : ModelImpactTaskType) (t : Tests) (i : ModelImpactInputName)
    → let f = found task t in
      (i ≢ baseline_model_available → member i f.present ≡ not (member i f.missing))
found-inputs task t i h = ground arith

found-baseline :
    (task : ModelImpactTaskType) (t : Tests)
    → let f = found task t in
      (member baseline_model_available f.present ≡ is_classification task)
      × (member baseline_model_available f.missing ≡ false)
found-baseline task t = (ground arith, ground arith)

unique_codes :
    (codes : List ReasonCode)
    → has_no_codes codes ≡ false
    → (c : ReasonCode) × (cs : List ReasonCode) × (ordered_unique codes ≡ c ∷ cs)
      × (first_code codes ≡ value c)
unfolding unique_from
unique_codes [] h = cc h
unique_codes (c ∷ cs) h = (c, unique_from (c ∷ []) cs, refl, refl)

no_codes_unique :
    (codes : List ReasonCode) → (ordered_unique codes ≡ []) ↔ (has_no_codes codes ≡ true)
unfolding unique_from
no_codes_unique [] = ground arith
no_codes_unique (c ∷ cs) = ground arith

module _ (save_artifact : FallbackReadinessReport → Ref)
    (q : CheckModelImpactEligibilityRequest) where
  codes_rule : has_no_codes (findings_of q).codes ≡ is_eligible (findings_of q)
  unfolding findings_of
  codes_rule = found-codes q.task_type (tests_of q)

  inputs_rule :
      (i : ModelImpactInputName)
      → i ≢ baseline_model_available
      → member i (findings_of q).present ≡ not (member i (findings_of q).missing)
  unfolding findings_of
  inputs_rule i other = found-inputs q.task_type (tests_of q) i other

  baseline_rule :
      (member baseline_model_available (findings_of q).present ≡ is_classification q.task_type)
      × (member baseline_model_available (findings_of q).missing ≡ false)
  unfolding findings_of
  baseline_rule = found-baseline q.task_type (tests_of q)

  -- A report's status is eligible exactly if it is eligible, and so has it no reason codes and no
  -- fallback report exactly then; otherwise its primary reason is the first of its codes. Each
  -- required input but the baseline is listed either as present or as missing; the baseline is
  -- listed as present exactly for a classification, and never as missing.
  pub check_model_impact_eligibility-IsConsistent :
      IsConsistent q.task_type (check_model_impact_eligibility save_artifact q)
  unfolding check_model_impact_eligibility
  check_model_impact_eligibility-IsConsistent =
      let f = findings_of q in
      let unique = no_codes_unique f.codes in
      record {
        status_fits = ground arith;
        fallback_fits = ground arith;
        codes_fit = (
          λ none_left. sym codes_rule ∙ unique.0 none_left,
          λ fine. unique.1 (codes_rule ∙ fine),
        );
        primary_fits = λ refused.
            let (c, cs, listed, first) = unique_codes f.codes (codes_rule ∙ refused) in
            (c, cs, listed, ground arith);
        inputs_split = λ i other. ground (
          arith,
          member-unique_from i [] f.present,
          member-unique_from i [] f.missing,
          inputs_rule i other,
        );
        baseline_noted = (
          ground (arith, member-unique_from baseline_model_available [] f.present, baseline_rule),
          ground (arith, member-unique_from baseline_model_available [] f.missing, baseline_rule),
        );
      }
