-- ===== src/Release/Candidate.antt =====
-- `build_candidate_dataset_version` of app/kernel/candidate_version.py.
use dataforge_ai_ml_service.Prelude.{
  ℕ, Bool, true, false, ◌&&◌, Option, none, some, List, [], ◌∷◌, ◌++◌, map, keep, length, take,
  if◌then◌else◌, ltb, nat_eq, list_eq, ◌==◌, ordered_unique, String, Result, ok, raise, ◌>>=◌,
}
use dataforge_ai_ml_service.Prelude.Texts.{Text}
use dataforge_ai_ml_service.ActionPlan.Model.{ActionPlanStep}
use dataforge_ai_ml_service.Validation.Gates
use dataforge_ai_ml_service.Validation.Gates.{
  CandidateArtifactStatus, validation_failed, review_required, CandidateValidationGate,
}
use dataforge_ai_ml_service.Validation.Gates.Csv.{ArtifactRef}
use dataforge_ai_ml_service.Validation.Gates.Report.{ValidationGatesReport, gate_is_blocking}
use dataforge_ai_ml_service.Release.Version.{
  BuildCandidateVersionRequest, CandidateActionStepSummary, CandidateDatasetVersion,
  CandidateVersionBuilderError, CandidateVersionStatus, SyntheticCandidateMetadata,
  SyntheticDatasetReport, blocked, failed, needs_review, proposed,
  synthetic_candidate_has_no_generated_rows, synthetic_dataset_report_artifact_required,
  synthetic_validation_report_required,
}

abbrev pub status_of : CandidateArtifactStatus → CandidateVersionStatus
status_of validation_failed = blocked
status_of review_required = needs_review
status_of Gates.ok = proposed

-- `_resolve_status`
unfoldable pub resolve_status : Option ValidationGatesReport → CandidateVersionStatus
resolve_status none = failed
resolve_status (some report) = status_of report.candidate_status

-- `_resolve_blocks`, one flag at a time
abbrev pub resolve_block : (ValidationGatesReport → Bool) → Option ValidationGatesReport → Bool
resolve_block flag none = true
resolve_block flag (some report) = flag report

-- `_resolve_blocker_reason_codes`
unfoldable pub resolve_blocker_reason_codes : Option ValidationGatesReport → List String
resolve_blocker_reason_codes none = []
resolve_blocker_reason_codes (some report) =
    map (λ g. g.reason_code) (keep gate_is_blocking report.gates)

-- The part of `_validation_summary` that is read again
abbrev pub summary_raw_unchanged : Option ValidationGatesReport → Option Bool
summary_raw_unchanged none = none
summary_raw_unchanged (some report) = some report.raw_artifact_unchanged

-- `_summarize_steps`
abbrev pub summarize_step : ActionPlanStep → CandidateActionStepSummary
summarize_step s = record {
  step_id = s.step_id;
  step_type = s.type;
  method_id = s.method_id;
  plugin_id = s.plugin_id;
  plugin_version = s.plugin_version;
  config_hash = s.config_hash;
  output_artifact_kind = s.output_artifact_kind;
  random_seed = s.random_seed;
}

-- `entry.seed_object_id for entry in ... if entry.seed_object_id`
abbrev pub given_ids : List (Option Text) → List Text
given_ids [] = []
given_ids (none ∷ rest) = given_ids rest
given_ids (some [] ∷ rest) = given_ids rest
given_ids (some (c ∷ t) ∷ rest) = (c ∷ t) ∷ given_ids rest

abbrev pub or_else {ℓ} : {A : Type ℓ} → Option A → Option A → Option A
or_else (some a) other = some a
or_else none other = other

abbrev pub source_object_id_limit : ℕ
source_object_id_limit = 25

abbrev pub require {ℓ} :
    {A : Type ℓ} → CandidateVersionBuilderError → Option A → Result CandidateVersionBuilderError A
require e none = raise e
require e (some a) = ok a

abbrev pub is_proposed : CandidateVersionStatus → Bool
is_proposed proposed = true
is_proposed blocked = false
is_proposed failed = false
is_proposed needs_review = false

abbrev pub metadata_of :
    BuildCandidateVersionRequest
    → SyntheticDatasetReport
    → ArtifactRef
    → ArtifactRef
    → SyntheticCandidateMetadata
metadata_of q report report_artifact validation_artifact =
    let ids = ordered_unique (given_ids report.seed_object_ids) in
    record {
      method_id = report.method;
      plugin_version = report.method_version;
      random_seed = report.random_seed;
      source_split = report.source_split;
      source_cohort = report.rare_class_label;
      source_object_ids = take source_object_id_limit ids;
      source_object_ids_truncated = ltb source_object_id_limit (length ids);
      full_source_object_ids_count = length ids;
      generated_count = report.generated_count;
      validation_report = validation_artifact;
      model_impact_report = q.model_impact_report_artifact;
      synthetic_dataset_report = report_artifact;
    }

abbrev pub synthetic_metadata_of :
    BuildCandidateVersionRequest
    → CandidateVersionStatus
    → Option SyntheticDatasetReport
    → Result CandidateVersionBuilderError (Option SyntheticCandidateMetadata)
synthetic_metadata_of q status none = ok none
synthetic_metadata_of q status (some report) = do
  report_artifact ←
      require synthetic_dataset_report_artifact_required q.synthetic_dataset_report_artifact
  validation_artifact ←
      require synthetic_validation_report_required
        (or_else q.synthetic_validation_report_artifact q.validation_gates_report_artifact)
  if is_proposed status && (report.generated_count == 0)
      then raise synthetic_candidate_has_no_generated_rows
      else ok (some (metadata_of q report report_artifact validation_artifact))

-- `_build_synthetic_metadata`
unfoldable pub build_synthetic_metadata :
    BuildCandidateVersionRequest
    → CandidateVersionStatus
    → Result CandidateVersionBuilderError (Option SyntheticCandidateMetadata)
build_synthetic_metadata q status = synthetic_metadata_of q status q.synthetic_dataset_report

abbrev pub candidate_of :
    BuildCandidateVersionRequest → Option SyntheticCandidateMetadata → CandidateDatasetVersion
candidate_of q metadata = record {
  status = resolve_status q.validation_gates_report;
  parent_version_id = q.parent_version_id;
  proposed_version_name = q.proposed_version_name;
  action_plan_id = q.action_plan.action_plan_id;
  input_artifact_hashes = map (λ a. a.hash) q.source_artifacts;
  output_artifact_hashes = ordered_unique (map (λ a. a.hash) q.candidate_artifacts);
  candidate_artifacts = q.candidate_artifacts;
  primary_dataset_artifact = q.primary_dataset_artifact;
  raw_artifact_unchanged = summary_raw_unchanged q.validation_gates_report;
  block_export = resolve_block (λ r. r.block_export) q.validation_gates_report;
  block_model_evaluation = resolve_block (λ r. r.block_model_evaluation) q.validation_gates_report;
  block_training = resolve_block (λ r. r.block_training) q.validation_gates_report;
  blocker_reason_codes = resolve_blocker_reason_codes q.validation_gates_report;
  action_plan_steps = map summarize_step q.action_plan.steps;
  synthetic_metadata = metadata;
}

-- The DATASET_VERSION_PROPOSED event, with what identifies the candidate
pub record PlatformAuditEvent : Type 0 where
  pub candidate_status : CandidateVersionStatus
  pub proposed_version_name : Text
  pub block_export : Bool

-- `_emit_audit_event`, on the events that a platform client has recorded
abbrev pub emit_audit_event :
    CandidateDatasetVersion → Option (List PlatformAuditEvent) → Option (List PlatformAuditEvent)
emit_audit_event candidate none = none
emit_audit_event candidate (some events) = some (
    events
    ++ record {
      candidate_status = candidate.status;
      proposed_version_name = candidate.proposed_version_name;
      block_export = candidate.block_export;
    }
      ∷ [])

-- `build_candidate_dataset_version`: the version that is saved, and the platform after it.
unfoldable pub build_candidate_dataset_version :
    BuildCandidateVersionRequest
    → Option (List PlatformAuditEvent)
    → Result CandidateVersionBuilderError
        (CandidateDatasetVersion × Option (List PlatformAuditEvent))
unfolding build_synthetic_metadata resolve_status resolve_blocker_reason_codes
build_candidate_dataset_version q platform = do
  metadata ← build_synthetic_metadata q (resolve_status q.validation_gates_report)
  let candidate = candidate_of q metadata
  ok (candidate, emit_audit_event candidate platform)
