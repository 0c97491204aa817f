-- ===== src/Runs/Samples.antt =====
-- A plan, requests and a run for the tests of the workflows of app/orchestration.
use dataforge_ai_ml_service.Prelude.{
  Bool, true, Option, none, some, List, [], ◌∷◌, nat_eq, list_eq, string_eq,
}
use dataforge_ai_ml_service.Prelude.Texts.{Text, codes}
use dataforge_ai_ml_service.Json.{Json, str}
use dataforge_ai_ml_service.ActionPlan.Model.{ActionPlan, ActionPlanStep, preview_action_plan}
use dataforge_ai_ml_service.ActionPlan.Steps.{candidate_only}
use dataforge_ai_ml_service.ActionPlan.Execution.{ActionPlanApprovalMetadata}
use dataforge_ai_ml_service.Validation.Gates.Csv.{ArtifactRef}
use dataforge_ai_ml_service.Cancellation.Registry.{empty_registry}
use dataforge_ai_ml_service.Cancellation.Registry.Interleavings.{Section}
use dataforge_ai_ml_service.Runs.Events.{ApplyAsset, action_plan, export_package}
use dataforge_ai_ml_service.Runs.Launch.{finished, Materialization}
use dataforge_ai_ml_service.Runs.Launch.Analyze.{ServiceConfig}
use dataforge_ai_ml_service.Runs.Launch.Outputs.{ApplyMaterialized}
use dataforge_ai_ml_service.Runs.Launch.Apply.{ActionPlanExecuteApprovedRequest}
use dataforge_ai_ml_service.Runs.Store.{Service}

-- A digest that only tells one plan
abbrev pub digest : Json → Text
digest payload = codes "h"

abbrev pub dump : ActionPlan → Json
dump plan = str plan.action_plan_id

abbrev pub step : ActionPlanStep
step = record {
  step_id = codes "s";
  type = codes "IMPUTE";
  depends_on = [];
  idempotency_key = codes "h";
  method_id = codes "median";
  plugin_id = codes "p";
  plugin_version = codes "1";
  config_hash = codes "c";
  policy_version = codes "v";
  validation_gates = [];
  preconditions = [];
  input_artifacts = [];
  output_artifact_kind = codes "k";
  config = [];
  random_seed = none;
  retry_policy = record { max_attempts = 1; retryable_errors = [] };
  on_failure = codes "stop";
  promotion_scope = candidate_only;
}

abbrev pub plan : Bool → ActionPlan
plan requires_approval = record {
  action_plan_id = codes "action_plan_a/b";
  plan_schema_version = codes "v";
  source_dataset_version_id = codes "v1";
  target_version_name = codes "v2";
  created_from_decision_report = codes "dr";
  selected_decision_ids = [];
  created_by_user_id = codes "u";
  policy_version = codes "p";
  requires_approval = requires_approval;
  approval_request_id = none;
  execution_mode = preview_action_plan;
  steps = step ∷ [];
  validation_gates = [];
  expected_outputs = [];
  created_at = codes "now";
}

abbrev pub approval : ActionPlanApprovalMetadata
approval = record {
  approval_id = codes "a";
  approval_request_id = codes "ar";
  approved_by_user_id = codes "u";
  approved_at = codes "then";
  action_plan_id = codes "action_plan_a/b";
  action_plan_hash = codes "h";
  decision_report_id = codes "dr";
  source_dataset_version_id = codes "v1";
}

abbrev pub request : Bool → Option ActionPlanApprovalMetadata → ActionPlanExecuteApprovedRequest
request requires_approval given = record {
  platform_job_id = codes "j";
  organization_id = codes "o";
  project_id = codes "p";
  dataset_id = codes "d";
  source_dataset_version_id = codes "v1";
  action_plan = plan requires_approval;
  approval_metadata = given;
  source_artifacts = [];
}

abbrev pub config : ServiceConfig
config = record { config_hash = codes "c"; contract_pack_version = codes "1" }

abbrev pub exported : ApplyMaterialized
exported = record {
  asset_name = export_package;
  artifact_uri = some (codes "package");
  asset_status = none;
  final_candidate_artifact_uri = some (codes "candidate");
  final_candidate_artifact_hash = some (codes "hash");
  final_export_package_uri = some (codes "package");
}

abbrev pub run : List Section → Materialization (ApplyAsset × List ArtifactRef) ApplyMaterialized
run meanwhile = record {
  emitted = (action_plan, []) ∷ (export_package, []) ∷ [];
  meanwhile = meanwhile;
  outcome = finished true (exported ∷ []);
}

abbrev pub service : Service
service = record {
  world = record { events = []; registry = empty_registry };
  store = record { jobs = []; action_plans = [] };
}
