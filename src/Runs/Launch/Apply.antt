-- ===== src/Runs/Launch/Apply.antt =====
-- `launch_apply_actions_workflow` of app/orchestration/apply_workflow.py.
use dataforge_ai_ml_service.Prelude.{
  ℕ, suc, zero, ◌-◌, Bool, true, false, ◌||◌, Option, none, some, List, [], ◌∷◌, ◌++◌, map, keep,
  take, length, if◌then◌else◌, nat_eq, list_eq, ◌==◌, Result, ok, raise,
}
use dataforge_ai_ml_service.Prelude.Dict.{Dict}
use dataforge_ai_ml_service.Prelude.Texts.{Text, codes, starts_with}
use dataforge_ai_ml_service.Json.{Json}
use dataforge_ai_ml_service.Idempotency.{
  plugin_footprints_from_action_plan, compute_apply_idempotency_key,
}
use dataforge_ai_ml_service.ActionPlan.Model.{ActionPlan, ActionPlanStep}
use dataforge_ai_ml_service.ActionPlan.Execution.{ActionPlanApprovalMetadata}
use dataforge_ai_ml_service.Validation.Gates.Csv.{ArtifactRef}
use dataforge_ai_ml_service.Cancellation.Reasons.{internal_error}
use dataforge_ai_ml_service.Runs.Events.{
  RunContext, queued, emit, started_event, ApplyAsset, apply_event,
}
use dataforge_ai_ml_service.Runs.Launch.{
  World, RunError, approval_metadata_required, materialization_raised, materialization_failed,
  Outcome, raised, finished, Materialization, cancelled_by, cancel_run, fail_run,
  materialized_world, failure_reason, compute_run_id,
}
use dataforge_ai_ml_service.Runs.Launch.Analyze.{ServiceConfig, hashes_of}
use dataforge_ai_ml_service.Runs.Launch.Outputs.{
  ApplyMaterialized, ApplyOutputs, take_events, first_outputs,
}

pub record ActionPlanExecuteApprovedRequest : Type 0 where
  pub platform_job_id : Text
  pub organization_id : Text
  pub project_id : Text
  pub dataset_id : Text
  pub source_dataset_version_id : Text
  pub action_plan : ActionPlan
  pub approval_metadata : Option ActionPlanApprovalMetadata
  pub source_artifacts : List ArtifactRef

pub record ApplyWorkflowResult : Type 0 where
  pub job_id : Text
  pub materialized_assets : List ApplyAsset
  pub action_plan_id : Text
  pub action_plan_hash : Text
  pub idempotency_key : Text
  pub attempt_number : ℕ
  pub outputs : ApplyOutputs

-- `text.replace(old, new)`, in a text whose next `skip` characters are replaced already
unfoldable pub replace_from : ℕ → Text → Text → Text → Text
replace_from skip old new [] = []
replace_from (suc skip) old new (c ∷ text) = replace_from skip old new text
replace_from zero old new (c ∷ text) =
    let replaced = replace_from (length old - 1) old new text in
    let kept = replace_from zero old new text in
    if starts_with (c ∷ text) old then new ++ replaced else c ∷ kept

-- `_default_proposed_version_name`
unfoldable pub default_proposed_version_name : Text → Text → Text
unfolding replace_from
default_proposed_version_name source id =
    let suffix =
      replace_from 0 (codes "/") (codes "_") (replace_from 0 (codes "action_plan_") [] id) in
    take 200 (source ++ codes "__candidate_" ++ suffix)

-- `a or b`, for a text that may be missing
abbrev pub or_default : Option Text → Text → Text
or_default none default = default
or_default (some []) default = default
or_default (some (c ∷ text)) default = c ∷ text

abbrev pub zero_hash : Text
zero_hash = codes "sha256:0000000000000000000000000000000000000000000000000000000000000000"

-- `_default_config_hash`
abbrev pub default_config_hash : List ActionPlanStep → Text
default_config_hash [] = zero_hash
default_config_hash (s ∷ steps) = s.config_hash

-- `_SYNTHETIC_ACTION_TYPES`
abbrev pub is_synthetic_action : Text → Bool
is_synthetic_action type =
    type == codes "AUGMENT_RARE_CLASS" || type == codes "GENERATE_SYNTHETIC_CANDIDATE"

-- `_collect_synthetic_step_ids`
abbrev pub synthetic_step_ids : ActionPlan → List Text
synthetic_step_ids plan = map (λ s. s.step_id) (keep (λ s. is_synthetic_action s.type) plan.steps)

-- The arguments of the launcher that may be left out. Its policy versions are a dictionary as the
-- key takes them.
pub record LaunchOptions : Type 0 where
  pub proposed_version_name : Option Text
  pub config_hash : Option Text
  pub policy_versions : Option (Dict Text Text)
  pub input_artifacts : List ArtifactRef
  pub attempt_number : ℕ

-- `_default_policy_versions`
abbrev pub default_policy_versions : Dict Text Text
default_policy_versions =
    (codes "profile", codes "demo_strict_v1")
    ∷ (codes "decision", codes "decision_policy_v0")
    ∷ (codes "score", codes "dataforge_score_v0")
    ∷ (codes "method", codes "method_policy_v0")
    ∷ (codes "validation_gates", codes "validation_gates_policy_v0")
    ∷ []

abbrev pub or_versions : Option (Dict Text Text) → Dict Text Text
or_versions none = default_policy_versions
or_versions (some versions) = versions

-- The version that `_build_apply_context` proposes
abbrev pub proposed_version : ActionPlanExecuteApprovedRequest → LaunchOptions → Text
proposed_version q o =
    or_default o.proposed_version_name
      (default_proposed_version_name q.source_dataset_version_id q.action_plan.action_plan_id)

abbrev pub apply_key :
    (Json → Text) → ServiceConfig → ActionPlanExecuteApprovedRequest → LaunchOptions → Text → Text
apply_key digest config q o action_plan_hash = compute_apply_idempotency_key digest (record {
  organization_id = q.organization_id;
  project_id = q.project_id;
  dataset_id = q.dataset_id;
  source_dataset_version_id = q.source_dataset_version_id;
  proposed_version_name = proposed_version q o;
  action_plan_hash = action_plan_hash;
  input_artifact_hashes = hashes_of o.input_artifacts;
  prediction_artifact_hashes = [];
  config_hash = or_default o.config_hash (default_config_hash q.action_plan.steps);
  contract_pack_version = config.contract_pack_version;
  policy_versions = or_versions o.policy_versions;
  step_idempotency_keys = map (λ s. s.idempotency_key) q.action_plan.steps;
  plugin_versions = plugin_footprints_from_action_plan q.action_plan;
})

abbrev pub apply_run_context : ActionPlanExecuteApprovedRequest → LaunchOptions → RunContext
apply_run_context q o = record {
  compute_run_id = compute_run_id q.platform_job_id;
  platform_job_id = q.platform_job_id;
  organization_id = q.organization_id;
  project_id = q.project_id;
  dataset_id = q.dataset_id;
  dataset_version_id = proposed_version q o;
}

-- The launcher refuses to start without an approval.
abbrev pub approved :
    Option ActionPlanApprovalMetadata
    → World
    → World × Result RunError ApplyWorkflowResult
    → World × Result RunError ApplyWorkflowResult
approved none w launched = (w, raise approval_metadata_required)
approved (some approval) w launched = launched

-- `digest` makes the keys and `lower` is `str.lower`. A token is a reference into the registry.
module _ (digest : Json → Text) (lower : Text → Text) (config : ServiceConfig) where
  abbrev pub apply_result :
      ActionPlanExecuteApprovedRequest
      → LaunchOptions
      → Text
      → List ApplyMaterialized
      → ApplyWorkflowResult
  apply_result q o action_plan_hash ms = record {
    job_id = q.platform_job_id;
    materialized_assets = map (λ m. m.asset_name) ms;
    action_plan_id = q.action_plan.action_plan_id;
    action_plan_hash = action_plan_hash;
    idempotency_key = apply_key digest config q o action_plan_hash;
    attempt_number = o.attempt_number;
    outputs = take_events ms (first_outputs (synthetic_step_ids q.action_plan));
  }

  -- What follows `materialize`: its outcome, and whether the token is cancelled by then
  abbrev pub finish_apply :
      ActionPlanExecuteApprovedRequest
      → LaunchOptions
      → Text
      → Outcome ApplyMaterialized
      → Option Text
      → World
      → World × Result RunError ApplyWorkflowResult
  finish_apply q o action_plan_hash (raised message) stop w =
      let reason = failure_reason lower message in
      fail_run (apply_run_context q o) reason (materialization_raised reason) w
  finish_apply q o action_plan_hash (finished success ms) (some reason) w =
      cancel_run (apply_run_context q o) 50
        (codes "APPLY_SELECTED_ACTIONS workflow cancelled after materialization: ") reason w
  finish_apply q o action_plan_hash (finished false ms) none w =
      fail_run (apply_run_context q o) internal_error materialization_failed w
  finish_apply q o action_plan_hash (finished true ms) none w =
      (w, ok (apply_result q o action_plan_hash ms))

  abbrev pub start_apply :
      ActionPlanExecuteApprovedRequest
      → LaunchOptions
      → Text
      → Option ℕ
      → Materialization (ApplyAsset × List ArtifactRef) ApplyMaterialized
      → Option Text
      → World
      → World × Result RunError ApplyWorkflowResult
  start_apply q o action_plan_hash token m (some reason) w =
      cancel_run (apply_run_context q o) 0
        (codes "APPLY_SELECTED_ACTIONS workflow cancelled before materialization: ") reason w
  start_apply q o action_plan_hash token m none w =
      let c = apply_run_context q o in
      let started = record w { events = emit w.events (started_event c queued 0) } in
      let w' = materialized_world (apply_event c) m started in
      finish_apply q o action_plan_hash m.outcome (cancelled_by token w'.registry) w'

  -- `launch_apply_actions_workflow`
  unfoldable pub launch_apply_actions_workflow :
      ActionPlanExecuteApprovedRequest
      → LaunchOptions
      → Text
      → Option ℕ
      → Materialization (ApplyAsset × List ArtifactRef) ApplyMaterialized
      → World
      → World × Result RunError ApplyWorkflowResult
  unfolding emit
  launch_apply_actions_workflow q o action_plan_hash token m w =
      approved q.approval_metadata w
        (start_apply q o action_plan_hash token m (cancelled_by token w.registry) w)
