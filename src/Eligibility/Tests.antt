-- ===== src/Eligibility/Tests.antt =====
-- Runs of app/kernel/model_impact_eligibility.py, and its theorems at concrete inputs.
use dataforge_ai_ml_service.Prelude.{
  true, false, none, some, [], ◌∷◌, map, ordered_unique, unique_from, nat_eq, list_eq, ◌≡◌, ◌↔◌,
  refl,
}
use dataforge_ai_ml_service.Prelude.Sorting.{sorted, nat_order, list_order}
use dataforge_ai_ml_service.Prelude.Texts.{codes}
use dataforge_ai_ml_service.Eligibility.Model.{
  supervised_tabular_classification, supervised_tabular_regression, unsupported_task_type,
  leakage_blocker_present, input_eq, Profile, SplitManifest, Ref,
}
use dataforge_ai_ml_service.Eligibility.Stats.{
  resolve_target_column, has_target_missing_values, resolve_cohort_stats, resolve_rare_class_label,
  resolve_total_labeled, resolve_rare_class_count, resolve_split_stats, has_valid_split,
  has_leakage_blocker, splits_in,
}
use dataforge_ai_ml_service.Eligibility.Check.{
  CheckModelImpactEligibilityRequest, findings_of, is_eligible, FallbackReadinessReport,
  check_model_impact_eligibility,
}
use dataforge_ai_ml_service.Eligibility.Conditions.{
  MeetsConditions, check_model_impact_eligibility_iff,
}
use dataforge_ai_ml_service.Eligibility.Consistency.{
  IsConsistent, check_model_impact_eligibility-IsConsistent,
}
use dataforge_ai_ml_service.Eligibility.Bookkeeping.{true_stat, resolve_split_stats_exact}

abbrev profile : Profile
profile = record {
  target_column = some (codes "default");
  target_column_missing = some false;
  class_imbalance = some (record {
    total_samples = 3;
    class_counts =
        record { label = codes "no"; count = 2 } ∷ record { label = codes "yes"; count = 1 } ∷ [];
    rare_class_label = codes "yes";
  });
}

abbrev manifest : SplitManifest
manifest = record {
  target_column = codes "default";
  assignments =
      record { split = codes "train"; label = codes "no" }
      ∷ record { split = codes "test"; label = codes "yes" }
      ∷ record { split = codes "train"; label = codes "yes" }
      ∷ [];
}

abbrev request : CheckModelImpactEligibilityRequest
request = record {
  task_type = supervised_tabular_classification;
  tabular_profile = some profile;
  split_manifest = some manifest;
  split_leakage_report = none;
  fallback_report = none;
  minimum_labeled_samples = 3;
  minimum_rare_class_samples = 1;
  minimum_splits = 2;
}

abbrev refused_request : CheckModelImpactEligibilityRequest
refused_request = record request {
  task_type = supervised_tabular_regression;
  split_leakage_report =
      some (record {
        leakage_detected = true;
        block_training = false;
        block_model_evaluation = false;
      });
}

abbrev save : FallbackReadinessReport → Ref
save r = record { uri = codes "s3://b/k"; hash = codes "h" }

eligible_run : (check_model_impact_eligibility save request).eligible ≡ true
unfolding check_model_impact_eligibility findings_of is_eligible resolve_target_column
    has_target_missing_values resolve_cohort_stats resolve_rare_class_label resolve_total_labeled
    resolve_rare_class_count has_valid_split has_leakage_blocker unique_from
eligible_run = refl

-- The baseline of an unsupported task is listed neither as present nor as missing.
refused_run :
    let r = check_model_impact_eligibility save refused_request in
    (r.not_eligible_reason_codes ≡ unsupported_task_type ∷ leakage_blocker_present ∷ [])
    × (r.primary_reason_code ≡ "unsupported_task_type")
unfolding check_model_impact_eligibility findings_of is_eligible resolve_target_column
    has_target_missing_values resolve_cohort_stats resolve_rare_class_label resolve_total_labeled
    resolve_rare_class_count has_valid_split has_leakage_blocker unique_from
refused_run = (refl, refl)

check_model_impact_eligibility_iff_example :
    ((check_model_impact_eligibility save request).eligible ≡ true) ↔ MeetsConditions request
check_model_impact_eligibility_iff_example = check_model_impact_eligibility_iff save request

check_model_impact_eligibility-IsConsistent_example :
    IsConsistent supervised_tabular_regression (check_model_impact_eligibility save refused_request)
check_model_impact_eligibility-IsConsistent_example =
    check_model_impact_eligibility-IsConsistent save refused_request

resolve_split_stats_exact_example :
    resolve_split_stats (some manifest) (some (codes "yes"))
    ≡ map
        (true_stat manifest.assignments (some (codes "yes")))
        (sorted (ordered_unique (splits_in manifest)))
resolve_split_stats_exact_example = resolve_split_stats_exact manifest (some (codes "yes"))
