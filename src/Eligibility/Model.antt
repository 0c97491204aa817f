-- ===== src/Eligibility/Model.antt =====
-- The contracts of app/domain/model_impact.py, and what app/kernel/model_impact_eligibility.py
-- reads of the profile, the split manifest and the leakage report.
use dataforge_ai_ml_service.Prelude.{
  ℕ, Bool, true, Option, List, String, Eq, nat_eq, ◌==◌, ◌≡◌, ◌↔◌, arith,
}
use dataforge_ai_ml_service.Prelude.Texts.{Text}

pub data ModelImpactTaskType : Type 0 where
  supervised_tabular_classification supervised_tabular_regression : ModelImpactTaskType

pub data ModelImpactInputName : Type 0 where
  target_label enough_labeled_samples valid_split_strategy no_leakage_blockers
        baseline_model_available :
      ModelImpactInputName

pub data ReasonCode : Type 0 where
  target_label_missing target_column_has_missing_values not_enough_labeled_samples
        not_enough_rare_class_samples split_manifest_missing split_manifest_insufficient_splits
        leakage_blocker_present baseline_model_unavailable unsupported_task_type :
      ReasonCode

pub data ModelImpactEligibilityStatus : Type 0 where
  eligible not_eligible : ModelImpactEligibilityStatus

-- `code.value`
abbrev pub value : ReasonCode → String
value target_label_missing = "target_label_missing"
value target_column_has_missing_values = "target_column_has_missing_values"
value not_enough_labeled_samples = "not_enough_labeled_samples"
value not_enough_rare_class_samples = "not_enough_rare_class_samples"
value split_manifest_missing = "split_manifest_missing"
value split_manifest_insufficient_splits = "split_manifest_insufficient_splits"
value leakage_blocker_present = "leakage_blocker_present"
value baseline_model_unavailable = "baseline_model_unavailable"
value unsupported_task_type = "unsupported_task_type"

abbrev pub input_rank : ModelImpactInputName → ℕ
input_rank target_label = 0
input_rank enough_labeled_samples = 1
input_rank valid_split_strategy = 2
input_rank no_leakage_blockers = 3
input_rank baseline_model_available = 4

abbrev pub code_rank : ReasonCode → ℕ
code_rank target_label_missing = 0
code_rank target_column_has_missing_values = 1
code_rank not_enough_labeled_samples = 2
code_rank not_enough_rare_class_samples = 3
code_rank split_manifest_missing = 4
code_rank split_manifest_insufficient_splits = 5
code_rank leakage_blocker_present = 6
code_rank baseline_model_unavailable = 7
code_rank unsupported_task_type = 8

pub input_rank_iff :
    (a b : ModelImpactInputName) → ((input_rank a == input_rank b) ≡ true) ↔ (a ≡ b)
input_rank_iff a b = ground arith

pub code_rank_iff : (a b : ReasonCode) → ((code_rank a == code_rank b) ≡ true) ↔ (a ≡ b)
code_rank_iff a b = ground arith

instance abbrev pub input_eq : Eq ModelImpactInputName
input_eq = record { beq = λ a b. input_rank a == input_rank b; beq_iff = input_rank_iff }

instance abbrev pub code_eq : Eq ReasonCode
code_eq = record { beq = λ a b. code_rank a == code_rank b; beq_iff = code_rank_iff }

pub record ClassCount : Type 0 where
  pub label : Text
  pub count : ℕ

-- ClassImbalanceDiagnostics, as far as it is read
pub record ClassImbalance : Type 0 where
  pub total_samples : ℕ
  pub class_counts : List ClassCount
  pub rare_class_label : Text

-- TabularProfileReport, with `missingness.target_column_missing` where there is a missingness block
pub record Profile : Type 0 where
  pub target_column : Option Text
  pub target_column_missing : Option Bool
  pub class_imbalance : Option ClassImbalance

pub record SplitAssignment : Type 0 where
  pub split : Text
  pub label : Text

pub record SplitManifest : Type 0 where
  pub target_column : Text
  pub assignments : List SplitAssignment

pub record LeakageReport : Type 0 where
  pub leakage_detected : Bool
  pub block_training : Bool
  pub block_model_evaluation : Bool

pub record Ref : Type 0 where
  pub uri : Text
  pub hash : Text

pub record FallbackReadinessReportRef : Type 0 where
  pub fallback_kind : String
  pub fallback_artifact : Ref
  pub reasons : List String

-- A share of the labelled samples, as two counts.
pub record Share : Type 0 where
  pub part : ℕ
  pub whole : ℕ

pub record ModelImpactCohortStats : Type 0 where
  pub label : Text
  pub count : ℕ
  pub ratio : Share
  pub is_rare_class : Bool

pub record ModelImpactSplitStats : Type 0 where
  pub split : Text
  pub total_count : ℕ
  pub rare_class_count : ℕ
