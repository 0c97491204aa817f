-- ===== src/Release/Version.antt =====
-- A candidate version, and what it is built from: app/domain/candidate_version.py and the request
-- of app/kernel/candidate_version.py.
use dataforge_ai_ml_service.Prelude.{ℕ, Bool, Option, List, nat_eq, list_eq, String}
use dataforge_ai_ml_service.Prelude.Texts.{Text}
use dataforge_ai_ml_service.ActionPlan.Model.{ActionPlan}
use dataforge_ai_ml_service.Validation.Gates.Csv.{ArtifactRef}
use dataforge_ai_ml_service.Validation.Gates.Report.{ValidationGatesReport}

-- `needs_review` is REVIEW_REQUIRED.
pub data CandidateVersionStatus : Type 0 where
  proposed blocked failed : CandidateVersionStatus
  needs_review : CandidateVersionStatus

pub record CandidateActionStepSummary : Type 0 where
  pub step_id : Text
  pub step_type : Text
  pub method_id : Text
  pub plugin_id : Text
  pub plugin_version : Text
  pub config_hash : Text
  pub output_artifact_kind : Text
  pub random_seed : Option ℕ

-- Of a SyntheticDatasetReport, what the metadata of a candidate take
pub record SyntheticDatasetReport : Type 0 where
  pub method : Text
  pub method_version : Text
  pub rare_class_label : Option Text
  pub source_split : Text
  pub random_seed : ℕ
  pub generated_count : ℕ
  pub seed_object_ids : List (Option Text)

pub record SyntheticCandidateMetadata : Type 0 where
  pub method_id : Text
  pub plugin_version : Text
  pub random_seed : ℕ
  pub source_split : Text
  pub source_cohort : Option Text
  pub source_object_ids : List Text
  pub source_object_ids_truncated : Bool
  pub full_source_object_ids_count : ℕ
  pub generated_count : ℕ
  pub validation_report : ArtifactRef
  pub model_impact_report : Option ArtifactRef
  pub synthetic_dataset_report : ArtifactRef

pub record CandidateDatasetVersion : Type 0 where
  pub status : CandidateVersionStatus
  pub parent_version_id : Text
  pub proposed_version_name : Text
  pub action_plan_id : Text
  pub input_artifact_hashes : List Text
  pub output_artifact_hashes : List Text
  pub candidate_artifacts : List ArtifactRef
  pub primary_dataset_artifact : ArtifactRef
  -- `validation_gates_summary.get("raw_artifact_unchanged")`
  pub raw_artifact_unchanged : Option Bool
  pub block_export : Bool
  pub block_model_evaluation : Bool
  pub block_training : Bool
  pub blocker_reason_codes : List String
  pub action_plan_steps : List CandidateActionStepSummary
  pub synthetic_metadata : Option SyntheticCandidateMetadata

pub record BuildCandidateVersionRequest : Type 0 where
  pub parent_version_id : Text
  pub proposed_version_name : Text
  pub action_plan : ActionPlan
  pub source_artifacts : List ArtifactRef
  pub candidate_artifacts : List ArtifactRef
  pub primary_dataset_artifact : ArtifactRef
  pub validation_gates_report : Option ValidationGatesReport
  pub validation_gates_report_artifact : Option ArtifactRef
  pub synthetic_dataset_report : Option SyntheticDatasetReport
  pub synthetic_dataset_report_artifact : Option ArtifactRef
  pub synthetic_validation_report_artifact : Option ArtifactRef
  pub model_impact_report_artifact : Option ArtifactRef

pub data CandidateVersionBuilderError : Type 0 where
  synthetic_dataset_report_artifact_required synthetic_validation_report_required
        synthetic_candidate_has_no_generated_rows :
      CandidateVersionBuilderError
