-- ===== src/Runs/Events.antt =====
-- The events of a run: app/orchestration/job_event.py and app/orchestration/status_bridge.py, with
-- the stages of app/orchestration/assets.py and app/orchestration/apply_assets.py.
use dataforge_ai_ml_service.Prelude.{
  ℕ, Bool, true, false, Option, none, List, [], ◌∷◌, ◌++◌, map, if◌then◌else◌,
}
use dataforge_ai_ml_service.Prelude.Texts.{Text}
use dataforge_ai_ml_service.Validation.Gates.Csv.{ArtifactRef}
use dataforge_ai_ml_service.Cancellation.Reasons.{RunFailureReason}

pub data JobStage : Type 0 where
  queued ingesting building_manifest validating profiling_tabular building_evidence : JobStage
  running_decision_core completed failed cancelled : JobStage

pub data ComputeRunStatus : Type 0 where
  run_queued accepted running run_completed run_failed run_cancelled : ComputeRunStatus
  skipped waiting_approval : ComputeRunStatus

pub record RunContext : Type 0 where
  pub compute_run_id : Text
  pub platform_job_id : Text
  pub organization_id : Text
  pub project_id : Text
  pub dataset_id : Text
  pub dataset_version_id : Text

-- A PlatformJobEvent with its details; the progress is in hundredths.
pub record PlatformJobEvent : Type 0 where
  pub platform_job_id : Text
  pub organization_id : Text
  pub project_id : Text
  pub status : ComputeRunStatus
  pub stage : JobStage
  pub compute_run_id : Text
  pub dataset_id : Text
  pub dataset_version_id : Text
  pub progress : ℕ
  pub artifact_uris : List Text
  pub error_code : Option RunFailureReason

-- The event of `RunStatusBridge._emit`
abbrev pub event_of :
    RunContext
    → JobStage
    → ComputeRunStatus
    → ℕ
    → List ArtifactRef
    → Option RunFailureReason
    → PlatformJobEvent
event_of c stage status progress refs error = record {
  platform_job_id = c.platform_job_id;
  organization_id = c.organization_id;
  project_id = c.project_id;
  status = status;
  stage = stage;
  compute_run_id = c.compute_run_id;
  dataset_id = c.dataset_id;
  dataset_version_id = c.dataset_version_id;
  progress = progress;
  artifact_uris = map (λ a. a.uri) refs;
  error_code = error;
}

-- `RunStatusBridge._emit`, on the events that the platform has recorded
unfoldable pub emit : List PlatformJobEvent → PlatformJobEvent → List PlatformJobEvent
emit events event = events ++ event ∷ []

abbrev pub started_status : JobStage → ComputeRunStatus
started_status queued = run_queued
started_status _ = running

-- `RunStatusBridge.emit_started`
abbrev pub started_event : RunContext → JobStage → ℕ → PlatformJobEvent
started_event c stage progress = event_of c stage (started_status stage) progress [] none

-- `RunStatusBridge.emit_stage`
abbrev pub stage_event : RunContext → JobStage → ℕ → List ArtifactRef → PlatformJobEvent
stage_event c stage progress refs = event_of c stage running progress refs none

-- `RunStatusBridge.emit_completed`
abbrev pub completed_event : RunContext → List ArtifactRef → PlatformJobEvent
completed_event c refs = event_of c completed run_completed 100 refs none

-- `RunStatusBridge.emit_failed`
abbrev pub failed_event : RunContext → ℕ → Option RunFailureReason → PlatformJobEvent
failed_event c progress error = event_of c failed run_failed progress [] error

-- `RunStatusBridge.emit_cancelled`
abbrev pub cancelled_event : RunContext → ℕ → PlatformJobEvent
cancelled_event c progress = event_of c cancelled run_cancelled progress [] none

pub data AnalyzeAsset : Type 0 where
  raw_manifest validated_manifest tabular_profile_report object_analytics_passports : AnalyzeAsset
  evidence_bundle prediction_manifest prediction_validation_report : AnalyzeAsset
  model_error_analysis_report ambiguous_object_candidates probable_label_error_candidates :
      AnalyzeAsset
  decision_report recommended_actions review_queue : AnalyzeAsset

-- `_ANALYZE_STAGE_BY_ASSET`
abbrev pub analyze_stage_by_asset : AnalyzeAsset → JobStage × ℕ
analyze_stage_by_asset raw_manifest = (ingesting, 10)
analyze_stage_by_asset validated_manifest = (building_manifest, 25)
analyze_stage_by_asset tabular_profile_report = (profiling_tabular, 45)
analyze_stage_by_asset object_analytics_passports = (profiling_tabular, 55)
analyze_stage_by_asset evidence_bundle = (building_evidence, 70)
analyze_stage_by_asset prediction_manifest = (building_manifest, 35)
analyze_stage_by_asset prediction_validation_report = (building_evidence, 62)
analyze_stage_by_asset model_error_analysis_report = (building_evidence, 68)
analyze_stage_by_asset ambiguous_object_candidates = (building_evidence, 72)
analyze_stage_by_asset probable_label_error_candidates = (building_evidence, 74)
analyze_stage_by_asset decision_report = (running_decision_core, 80)
analyze_stage_by_asset recommended_actions = (running_decision_core, 90)
analyze_stage_by_asset review_queue = (running_decision_core, 95)

-- The event of `_materialize_analyze_asset`
abbrev pub analyze_event : RunContext → AnalyzeAsset → PlatformJobEvent
analyze_event c asset =
    let (stage, progress) = analyze_stage_by_asset asset in stage_event c stage progress []

pub data ApplyAsset : Type 0 where
  action_plan remediation_execution_report prepared_dataset : ApplyAsset
  synthetic_dataset model_impact_report export_package : ApplyAsset

-- `_APPLY_STAGE_BY_ASSET`
abbrev pub apply_stage_by_asset : ApplyAsset → JobStage × ℕ
apply_stage_by_asset action_plan = (running_decision_core, 30)
apply_stage_by_asset remediation_execution_report = (running_decision_core, 50)
apply_stage_by_asset prepared_dataset = (running_decision_core, 65)
apply_stage_by_asset synthetic_dataset = (running_decision_core, 75)
apply_stage_by_asset model_impact_report = (running_decision_core, 90)
apply_stage_by_asset export_package = (completed, 100)

abbrev pub is_completed : JobStage → Bool
is_completed completed = true
is_completed _ = false

-- The event of `_emit_and_result`
abbrev pub apply_event : RunContext → ApplyAsset × List ArtifactRef → PlatformJobEvent
apply_event c (asset, refs) =
    let (stage, progress) = apply_stage_by_asset asset in
    if is_completed stage then completed_event c refs else stage_event c stage progress refs
