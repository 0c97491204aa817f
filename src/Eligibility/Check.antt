-- ===== src/Eligibility/Check.antt =====
-- `check_model_impact_eligibility` of app/kernel/model_impact_eligibility.py.
use dataforge_ai_ml_service.Prelude.{
  ℕ, Bool, true, false, not, ◌&&◌, Option, none, some, List, [], ◌∷◌, ◌++◌, String, map, member,
  ordered_unique, if◌then◌else◌, leb, string_eq,
}
use dataforge_ai_ml_service.Prelude.Texts.{Text}
use dataforge_ai_ml_service.Eligibility.Model
use dataforge_ai_ml_service.Eligibility.Model.{
  ModelImpactTaskType, supervised_tabular_classification, supervised_tabular_regression,
  ModelImpactInputName, target_label, enough_labeled_samples, valid_split_strategy,
  no_leakage_blockers, baseline_model_available, ReasonCode, target_label_missing,
  target_column_has_missing_values, not_enough_labeled_samples, not_enough_rare_class_samples,
  split_manifest_missing, split_manifest_insufficient_splits, leakage_blocker_present,
  unsupported_task_type, ModelImpactEligibilityStatus, not_eligible, value, input_eq, code_eq,
  Profile, SplitManifest, LeakageReport, Ref, FallbackReadinessReportRef, ModelImpactCohortStats,
  ModelImpactSplitStats,
}
use dataforge_ai_ml_service.Eligibility.Stats.{
  resolve_target_column, has_target_missing_values, resolve_cohort_stats, resolve_rare_class_label,
  resolve_total_labeled, resolve_rare_class_count, resolve_split_stats, has_valid_split,
  has_leakage_blocker,
}

-- The request, without the identifiers and references that only go through to the lineage.
pub record CheckModelImpactEligibilityRequest : Type 0 where
  pub task_type : ModelImpactTaskType
  pub tabular_profile : Option Profile
  pub split_manifest : Option SplitManifest
  pub split_leakage_report : Option LeakageReport
  pub fallback_report : Option FallbackReadinessReportRef
  pub minimum_labeled_samples : ℕ
  pub minimum_rare_class_samples : ℕ
  pub minimum_splits : ℕ

-- The four lists that the check appends to.
pub record Findings : Type 0 where
  pub codes : List ReasonCode
  pub reasons : List String
  pub present : List ModelImpactInputName
  pub missing : List ModelImpactInputName

abbrev pub nothing_found : Findings
nothing_found = record { codes = []; reasons = []; present = []; missing = [] }

-- An input is there; the texts are the reasons to note.
abbrev pub is_there : ModelImpactInputName → List String → Findings → Findings
is_there input notes f = record f {
  present = f.present ++ input ∷ [];
  reasons = f.reasons ++ notes;
}

abbrev pub lacks : ModelImpactInputName → Findings → Findings
lacks input f = record f { missing = f.missing ++ input ∷ [] }

abbrev pub blame : ReasonCode → String → Findings → Findings
blame code note f = record f { codes = f.codes ++ code ∷ []; reasons = f.reasons ++ note ∷ [] }

abbrev pub blame_if : Bool → ReasonCode → String → Findings → Findings
blame_if true code note f = blame code note f
blame_if false code note f = f

-- `request.task_type not in _SUPPORTED_TASK_TYPES`; no reason is noted.
abbrev pub check_task : ModelImpactTaskType → Findings → Findings
check_task supervised_tabular_classification f = is_there baseline_model_available [] f
check_task supervised_tabular_regression f = record f {
  codes = f.codes ++ unsupported_task_type ∷ [];
}

abbrev pub is_some {ℓ} : {A : Type ℓ} → Option A → Bool
is_some none = false
is_some (some a) = true

abbrev pub check_target : Bool → Bool → Findings → Findings
check_target there has_missing f =
    if there && not has_missing
    then is_there target_label ("target_label_present" ∷ []) f
    else blame_if has_missing target_column_has_missing_values "target_column_has_missing_values"
        (blame_if (not there) target_label_missing "target_label_missing" (lacks target_label f))

abbrev pub check_samples : Bool → Bool → Findings → Findings
check_samples enough_labeled enough_rare f =
    if enough_labeled && enough_rare
    then is_there enough_labeled_samples ("enough_labeled_samples" ∷ []) f
    else blame_if (not enough_rare) not_enough_rare_class_samples "not_enough_rare_class_samples" (
        blame_if (not enough_labeled) not_enough_labeled_samples "not_enough_labeled_samples"
          (lacks enough_labeled_samples f))

abbrev pub check_splits : Bool → Bool → Findings → Findings
check_splits valid has_manifest f =
    if valid
    then is_there valid_split_strategy ("split_manifest_valid" ∷ []) f
    else if has_manifest
    then blame split_manifest_insufficient_splits "split_manifest_insufficient_splits"
        (lacks valid_split_strategy f)
    else blame split_manifest_missing "split_manifest_missing" (lacks valid_split_strategy f)

abbrev pub check_leakage : Bool → Findings → Findings
check_leakage blocked f =
    if blocked
    then blame leakage_blocker_present "leakage_blocker_present" (lacks no_leakage_blockers f)
    else is_there no_leakage_blockers ("no_leakage_blockers" ∷ []) f

abbrev pub total_of : CheckModelImpactEligibilityRequest → ℕ
total_of q = resolve_total_labeled (resolve_cohort_stats q.tabular_profile) q.tabular_profile

abbrev pub rare_label_of : CheckModelImpactEligibilityRequest → Option Text
rare_label_of q =
    resolve_rare_class_label q.tabular_profile (resolve_cohort_stats q.tabular_profile)

abbrev pub rare_count_of : CheckModelImpactEligibilityRequest → ℕ
rare_count_of q =
    resolve_rare_class_count (resolve_cohort_stats q.tabular_profile) (rare_label_of q)

-- The checks in the order of the code.
unfoldable pub findings_of : CheckModelImpactEligibilityRequest → Findings
findings_of q = check_leakage (has_leakage_blocker q.split_leakage_report) (
    check_splits (has_valid_split q.split_manifest q.minimum_splits) (is_some q.split_manifest) (
      check_samples (leb q.minimum_labeled_samples (total_of q))
        (leb q.minimum_rare_class_samples (rare_count_of q))
        (check_target (is_some (resolve_target_column q.tabular_profile q.split_manifest))
          (has_target_missing_values q.tabular_profile) (check_task q.task_type nothing_found))))

abbrev pub has_no_codes : List ReasonCode → Bool
has_no_codes [] = true
has_no_codes (c ∷ cs) = false

-- `eligible`
unfoldable pub is_eligible : Findings → Bool
is_eligible f =
    has_no_codes f.codes
    && (member target_label f.present
        && (member enough_labeled_samples f.present
            && (member valid_split_strategy f.present
                && (member no_leakage_blockers f.present
                    && member baseline_model_available f.present))))

abbrev pub first_code : List ReasonCode → String
first_code [] = "unknown_eligibility_failure"
first_code (c ∷ cs) = value c

pub record FallbackReadinessReport : Type 0 where
  pub fallback_kind : String
  pub primary_reason_code : String
  pub reasons : List String
  pub required_inputs_present : List ModelImpactInputName
  pub required_inputs_missing : List ModelImpactInputName
  pub not_eligible_reason_codes : List ReasonCode
  pub cohort_stats : List ModelImpactCohortStats
  pub split_stats : List ModelImpactSplitStats

pub record ModelImpactEligibilityReport : Type 0 where
  pub status : ModelImpactEligibilityStatus
  pub eligible : Bool
  pub task_type : ModelImpactTaskType
  pub target_column : Option Text
  pub rare_class_label : Option Text
  pub primary_reason_code : String
  pub reasons : List String
  pub required_inputs_present : List ModelImpactInputName
  pub required_inputs_missing : List ModelImpactInputName
  pub not_eligible_reason_codes : List ReasonCode
  pub cohort_stats : List ModelImpactCohortStats
  pub split_stats : List ModelImpactSplitStats
  pub minimum_labeled_samples : ℕ
  pub minimum_rare_class_samples : ℕ
  pub fallback_report : Option FallbackReadinessReportRef

abbrev pub fallback_kind : String
fallback_kind = "model_impact_not_eligible_readiness"

-- `save_artifact` is the ArtifactRegistry's, on the fallback report.
module _ (save_artifact : FallbackReadinessReport → Ref) where
  abbrev pub stats_of : CheckModelImpactEligibilityRequest → List ModelImpactSplitStats
  stats_of q = resolve_split_stats q.split_manifest (rare_label_of q)

  -- `_build_fallback_readiness_report`
  unfoldable pub build_fallback_readiness_report :
      CheckModelImpactEligibilityRequest → Findings → String → FallbackReadinessReportRef
  build_fallback_readiness_report q f primary = record {
    fallback_kind = fallback_kind;
    fallback_artifact = save_artifact (record {
      fallback_kind = fallback_kind;
      primary_reason_code = primary;
      reasons = ordered_unique f.reasons;
      required_inputs_present = ordered_unique f.present;
      required_inputs_missing = ordered_unique f.missing;
      not_eligible_reason_codes = ordered_unique f.codes;
      cohort_stats = resolve_cohort_stats q.tabular_profile;
      split_stats = stats_of q;
    });
    reasons = map value (ordered_unique f.codes);
  }

  abbrev pub given_or_built :
      Option FallbackReadinessReportRef → FallbackReadinessReportRef → FallbackReadinessReportRef
  given_or_built none built = built
  given_or_built (some r) built = r

  -- `check_model_impact_eligibility`
  unfoldable pub check_model_impact_eligibility :
      CheckModelImpactEligibilityRequest → ModelImpactEligibilityReport
  unfolding findings_of is_eligible build_fallback_readiness_report
  check_model_impact_eligibility q =
      let f = findings_of q in
      let eligible = is_eligible f in
      let primary =
        if eligible then "supervised_classification_with_target" else first_code f.codes in
      let fallback =
        given_or_built q.fallback_report (build_fallback_readiness_report q f primary) in
      record {
        status = if eligible then Model.eligible else not_eligible;
        eligible = eligible;
        task_type = q.task_type;
        target_column = resolve_target_column q.tabular_profile q.split_manifest;
        rare_class_label = rare_label_of q;
        primary_reason_code = primary;
        reasons = ordered_unique f.reasons;
        required_inputs_present = ordered_unique f.present;
        required_inputs_missing = ordered_unique f.missing;
        not_eligible_reason_codes = ordered_unique f.codes;
        cohort_stats = resolve_cohort_stats q.tabular_profile;
        split_stats = stats_of q;
        minimum_labeled_samples = q.minimum_labeled_samples;
        minimum_rare_class_samples = q.minimum_rare_class_samples;
        fallback_report = if eligible then none else some fallback;
      }
