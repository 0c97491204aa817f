-- ===== src/Runs/Endpoints.antt =====
-- The job endpoints of app/api/main.py, with the part of app/api/store.py that they use.
use dataforge_ai_ml_service.Prelude.{
  ℕ, Bool, true, false, not, none, some, List, if◌then◌else◌, nat_eq, list_eq, ◌==◌, Result, ok,
  raise,
}
use dataforge_ai_ml_service.Prelude.Texts.{Text, codes}
use dataforge_ai_ml_service.Json.{Json}
use dataforge_ai_ml_service.Plugins.Manifest.{PluginManifest}
use dataforge_ai_ml_service.ActionPlan.Model.{
  ActionPlan, analyze_only, apply_selected_actions, step_ids,
}
use dataforge_ai_ml_service.ActionPlan.Execution.{
  ActionPlanExecutionError, ValidateActionPlanExecutionRequest, validate_action_plan_execution,
}
use dataforge_ai_ml_service.Validation.Gates.Csv.{ArtifactRef}
use dataforge_ai_ml_service.Cancellation.Registry.{CancellationRegistry, register, cancel, discard}
use dataforge_ai_ml_service.Cancellation.Registry.Interleavings.{Section, after_all}
use dataforge_ai_ml_service.Runs.Events.{
  ComputeRunStatus, accepted, run_cancelled, skipped, AnalyzeAsset, ApplyAsset,
}
use dataforge_ai_ml_service.Runs.Launch.{World, RunError, Materialization, status_url}
use dataforge_ai_ml_service.Runs.Launch.Analyze.{
  ServiceConfig, AnalyzeDatasetRequest, AnalyzeMaterialized, AnalyzeWorkflowResult,
  launch_analyze_dataset_workflow,
}
use dataforge_ai_ml_service.Runs.Launch.Apply.{
  ActionPlanExecuteApprovedRequest, LaunchOptions, ApplyWorkflowResult,
  launch_apply_actions_workflow,
}
use dataforge_ai_ml_service.Runs.Launch.Outputs.{ApplyMaterialized}
use dataforge_ai_ml_service.Runs.Store.{
  ActionPlanRecord, ComputeResultStore, JobResultRecord, Service, analyzed, applied, get_job,
  record_action_plan, record_job,
}

-- What an endpoint raises
pub data EndpointError : Type 0 where
  rejected_plan : ActionPlanExecutionError → EndpointError
  failed_run : RunError → EndpointError
  job_not_found : EndpointError

-- `finally: registry.discard(platform_job_id=...)`
abbrev pub discarded : Text → World → World
discarded id w = record w { registry = discard id w.registry }

-- The world in which a launcher starts: the job is registered, and then other threads run.
abbrev pub registered_world : Text → List Section → World → World
registered_world id between w = record w { registry = after_all between (register id w.registry).0 }

-- The token of the job
abbrev pub token_of : Text → World → ℕ
token_of id w = (register id w.registry).1

abbrev pub analyze_record : AnalyzeWorkflowResult → JobResultRecord
analyze_record r = record {
  job_id = r.job_id;
  workflow_type = analyze_only;
  status = accepted;
  status_url = status_url r.job_id;
  mutates_dataset = false;
  result = analyzed r;
}

abbrev pub apply_record : ActionPlanExecuteApprovedRequest → ApplyWorkflowResult → JobResultRecord
apply_record q r = record {
  job_id = q.platform_job_id;
  workflow_type = apply_selected_actions;
  status = accepted;
  status_url = status_url r.job_id;
  mutates_dataset = true;
  result = applied r;
}

abbrev pub plan_record : ActionPlanExecuteApprovedRequest → ApplyWorkflowResult → ActionPlanRecord
plan_record q r = record {
  action_plan = q.action_plan;
  job_id = q.platform_job_id;
  action_plan_hash = r.action_plan_hash;
  accepted_step_ids = step_ids q.action_plan.steps;
  status_url = status_url r.job_id;
}

-- What the endpoint does with the launcher's outcome
abbrev pub keep_analyze :
    Text
    → Service
    → World × Result RunError AnalyzeWorkflowResult
    → Service × Result EndpointError AnalyzeWorkflowResult
keep_analyze id s (w, raise e) = (record s { world = discarded id w }, raise (failed_run e))
keep_analyze id s (w, ok r) =
    (record { world = discarded id w; store = record_job (analyze_record r) s.store }, ok r)

abbrev pub keep_apply :
    ActionPlanExecuteApprovedRequest
    → Service
    → World × Result RunError ApplyWorkflowResult
    → Service × Result EndpointError ApplyWorkflowResult
keep_apply q s (w, raise e) =
    (record s { world = discarded q.platform_job_id w }, raise (failed_run e))
keep_apply q s (w, ok r) = (
  record {
    world = discarded q.platform_job_id w;
    store = record_action_plan (plan_record q r) (record_job (apply_record q r) s.store);
  },
  ok r,
)

-- `cancel_job`, with its status, its reason code and whether it accepts
unfoldable pub cancel_job :
    Text
    → Text
    → Text
    → CancellationRegistry
    → CancellationRegistry × (ComputeRunStatus × (Text × Bool))
cancel_job path_id id reason s =
    if not (id == path_id)
    then (s, (skipped, (codes "platform_job_id_mismatch", false)))
    else (let (s', accepted_by) = cancel path_id reason s in
        (s', (if accepted_by then run_cancelled else skipped, (reason, accepted_by))))

-- `get_job_status`
unfoldable pub get_job_status : Text → ComputeResultStore → Result EndpointError JobResultRecord
get_job_status id s = elim (get_job id s) [ none ↦ raise job_not_found | some r ↦ ok r ]

abbrev pub execution_of : ActionPlanExecuteApprovedRequest → ValidateActionPlanExecutionRequest
execution_of q = record {
  action_plan = q.action_plan;
  source_dataset_version_id = q.source_dataset_version_id;
  approval_metadata = q.approval_metadata;
}

-- The launcher's options of the endpoint: its input artifacts, and the defaults
abbrev pub endpoint_options : ActionPlanExecuteApprovedRequest → LaunchOptions
endpoint_options q = record {
  proposed_version_name = none;
  config_hash = none;
  policy_versions = none;
  input_artifacts = q.source_artifacts;
  attempt_number = 1;
}

-- `stable_hash` and `dump` are those of the plan's checks, the others those of the launchers.
-- `between` are the locked sections of other threads from the registration to the launcher's first
-- look at the token.
module _ (stable_hash : Json → Text) (dump : ActionPlan → Json) (digest : Json → Text)
    (lower : Text → Text) (manifests : List PluginManifest) (config : ServiceConfig) where
  -- `analyze_dataset`
  unfoldable pub analyze_dataset :
      AnalyzeDatasetRequest
      → List Section
      → Materialization AnalyzeAsset AnalyzeMaterialized
      → List (Text × ArtifactRef)
      → Service
      → Service × Result EndpointError AnalyzeWorkflowResult
  analyze_dataset q between m artifacts s =
      let id = q.platform_job_id in
      keep_analyze id s (
        launch_analyze_dataset_workflow digest lower manifests config 1 q
          (some (token_of id s.world)) m artifacts (registered_world id between s.world))

  abbrev pub launch_apply :
      ActionPlanExecuteApprovedRequest
      → Text
      → List Section
      → Materialization (ApplyAsset × List ArtifactRef) ApplyMaterialized
      → World
      → World × Result RunError ApplyWorkflowResult
  launch_apply q action_plan_hash between m w =
      let id = q.platform_job_id in
      launch_apply_actions_workflow digest lower config q (endpoint_options q) action_plan_hash
        (some (token_of id w)) m (registered_world id between w)

  abbrev pub execute_validated :
      ActionPlanExecuteApprovedRequest
      → List Section
      → Materialization (ApplyAsset × List ArtifactRef) ApplyMaterialized
      → Service
      → Result ActionPlanExecutionError Text
      → Service × Result EndpointError ApplyWorkflowResult
  execute_validated q between m s (raise e) = (s, raise (rejected_plan e))
  execute_validated q between m s (ok action_plan_hash) =
      keep_apply q s (launch_apply q action_plan_hash between m s.world)

  -- `execute_approved_action_plan`
  unfoldable pub execute_approved_action_plan :
      ActionPlanExecuteApprovedRequest
      → List Section
      → Materialization (ApplyAsset × List ArtifactRef) ApplyMaterialized
      → Service
      → Service × Result EndpointError ApplyWorkflowResult
  unfolding record_job record_action_plan
  execute_approved_action_plan q between m s =
      execute_validated q between m s
        (validate_action_plan_execution stable_hash dump (execution_of q))
