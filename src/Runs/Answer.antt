-- ===== src/Runs/Answer.antt =====
-- What stands behind an answer of `execute_approved_action_plan` of app/api/main.py.
use dataforge_ai_ml_service.Prelude.{
  ℕ, true, false, Option, none, some, List, nat_eq, list_eq, list_beq_iff, Result, ok, raise, ◌≡◌,
  refl, sym, ap, ◌∙◌, arith,
}
use dataforge_ai_ml_service.Prelude.Dict
use dataforge_ai_ml_service.Prelude.Dict.{get-put, get-remove}
use dataforge_ai_ml_service.Prelude.Texts.{Text}
use dataforge_ai_ml_service.Json.{Json}
use dataforge_ai_ml_service.Plugins.Manifest.{PluginManifest}
use dataforge_ai_ml_service.ActionPlan.Model.{ActionPlan}
use dataforge_ai_ml_service.ActionPlan.Execution.{
  ActionPlanExecutionError, ActionPlanApprovalMetadata, action_plan_integrity_hash,
  validate_action_plan_execution,
}
use dataforge_ai_ml_service.ActionPlan.Execution.Acceptance.{
  IsExecutable, validate_action_plan_execution_iff,
}
use dataforge_ai_ml_service.Validation.Gates.Csv.{ArtifactRef}
use dataforge_ai_ml_service.Cancellation.Registry.{CancellationToken, CancellationRegistry, discard}
use dataforge_ai_ml_service.Cancellation.Registry.Interleavings.{Section, after_all}
use dataforge_ai_ml_service.Runs.Events.{ApplyAsset}
use dataforge_ai_ml_service.Runs.Launch.{
  World, RunError, Outcome, raised, finished, Materialization, cancelled_reason, cancelled_by,
}
use dataforge_ai_ml_service.Runs.Launch.Analyze.{ServiceConfig}
use dataforge_ai_ml_service.Runs.Launch.Apply.{
  ActionPlanExecuteApprovedRequest, LaunchOptions, ApplyWorkflowResult, synthetic_step_ids,
  apply_result, finish_apply, start_apply, approved, launch_apply_actions_workflow,
}
use dataforge_ai_ml_service.Runs.Launch.Outputs.{ApplyMaterialized}
use dataforge_ai_ml_service.Runs.Endpoints.{
  registered_world, token_of, apply_record, keep_apply, execution_of, endpoint_options,
  launch_apply, execute_validated, execute_approved_action_plan,
}
use dataforge_ai_ml_service.Runs.Store.{
  Service, JobResultRecord, record_job, record_action_plan, get_job,
}
use dataforge_ai_ml_service.Runs.Surfacing.{IsSurfaced, first_outputs-IsPaired}

-- What an answer of the endpoint tells of its request, of the run and of the service after it
pub record IsAnswered (stable_hash : Json → Text) (dump : ActionPlan → Json)
    (q : ActionPlanExecuteApprovedRequest) (between : List Section)
    (m : Materialization (ApplyAsset × List ArtifactRef) ApplyMaterialized) (before after : Service)
    (r : ApplyWorkflowResult) : Type 0 where
  pub executable : IsExecutable stable_hash dump (execution_of q)
  pub plan_hash : r.action_plan_hash ≡ action_plan_integrity_hash stable_hash dump q.action_plan
  pub approved_with : (a : ActionPlanApprovalMetadata) × (q.approval_metadata ≡ some a)
  pub not_cancelled :
      ((after_all m.meanwhile
          (registered_world q.platform_job_id between before.world).registry).heap
        (token_of q.platform_job_id before.world)).cancelled
      ≡ false
  pub made : List ApplyMaterialized
  pub succeeded : m.outcome ≡ finished true made
  pub candidate :
      (uri : Text)
      → r.outputs.candidate_artifact_uri ≡ some uri
      → (hash : Text) × (r.outputs.candidate_artifact_hash ≡ some hash) × IsSurfaced uri hash made
  pub stored : get_job q.platform_job_id after.store ≡ some (apply_record q r)
  pub token_dropped : Dict.get after.world.registry.tokens q.platform_job_id ≡ none

not_cancelled_by : (t : CancellationToken) → cancelled_reason t ≡ none → t.cancelled ≡ false
not_cancelled_by t h = ground arith

module _ (digest : Json → Text) (lower : Text → Text) (config : ServiceConfig)
    (q : ActionPlanExecuteApprovedRequest) (o : LaunchOptions) (hash : Text) where
  -- The launcher has returned this.
  record IsReturned (outcome : Outcome ApplyMaterialized) (stop : Option Text)
      (r : ApplyWorkflowResult) : Type 0 where
    made : List ApplyMaterialized
    succeeded : outcome ≡ finished true made
    not_stopped : stop ≡ none
    result : r ≡ apply_result digest lower config q o hash made

  finish_apply-IsReturned :
      (outcome : Outcome ApplyMaterialized) (stop : Option Text) (w : World)
      (r : ApplyWorkflowResult)
      → (finish_apply digest lower config q o hash outcome stop w).1 ≡ ok r
      → IsReturned outcome stop r
  finish_apply-IsReturned (raised message) stop w r h = cc h
  finish_apply-IsReturned (finished success ms) (some reason) w r h = cc h
  finish_apply-IsReturned (finished false ms) none w r h = cc h
  finish_apply-IsReturned (finished true ms) none w r h = record {
    made = ms;
    succeeded = refl;
    not_stopped = refl;
    result = cc h;
  }

  launch_apply-IsReturned :
      (token : ℕ) (m : Materialization (ApplyAsset × List ArtifactRef) ApplyMaterialized)
      (w : World) (approval : Option ActionPlanApprovalMetadata) (stop : Option Text)
      (r : ApplyWorkflowResult)
      → (approved approval w (start_apply digest lower config q o hash (some token) m stop w)).1
        ≡ ok r
      → ((a : ActionPlanApprovalMetadata) × (approval ≡ some a))
        × IsReturned m.outcome (cancelled_reason ((after_all m.meanwhile w.registry).heap token)) r
  launch_apply-IsReturned token m w none stop r h = cc h
  launch_apply-IsReturned token m w (some a) (some reason) r h = cc h
  launch_apply-IsReturned token m w (some a) none r h =
      ((a, refl), finish_apply-IsReturned m.outcome _ _ r h)

  launch_apply-answer :
      (token : ℕ) (m : Materialization (ApplyAsset × List ArtifactRef) ApplyMaterialized)
      (w : World) (r : ApplyWorkflowResult)
      → (launch_apply_actions_workflow digest lower config q o hash (some token) m w).1 ≡ ok r
      → ((a : ActionPlanApprovalMetadata) × (q.approval_metadata ≡ some a))
        × IsReturned m.outcome (cancelled_reason ((after_all m.meanwhile w.registry).heap token)) r
  unfolding launch_apply_actions_workflow
  launch_apply-answer token m w r h =
      launch_apply-IsReturned token m w q.approval_metadata (cancelled_by (some token) w.registry) r
        h

get-discard : (id : Text) (s : CancellationRegistry) → Dict.get (discard id s).tokens id ≡ none
unfolding discard
get-discard id s = ground (arith, get-remove s.tokens id id, list_beq_iff id id)

get-put_same :
    (d : Dict.Dict Text JobResultRecord) (id : Text) (r : JobResultRecord)
    → Dict.get (Dict.put d id r) id ≡ some r
get-put_same d id r = ground (arith, get-put d id id r, list_beq_iff id id)

keep_apply-stored :
    (q : ActionPlanExecuteApprovedRequest) (s : Service)
    (out : World × Result RunError ApplyWorkflowResult) (r : ApplyWorkflowResult)
    → (keep_apply q s out).1 ≡ ok r
    → (out.1 ≡ ok r)
      × (get_job q.platform_job_id (keep_apply q s out).0.store ≡ some (apply_record q r))
      × (Dict.get (keep_apply q s out).0.world.registry.tokens q.platform_job_id ≡ none)
unfolding get_job record_job record_action_plan
keep_apply-stored q s (w, raise e) r h = cc h
keep_apply-stored q s (w, ok r') r h =
    let same : r' ≡ r = cc h in
    (
      ap ok same,
      get-put_same s.store.jobs q.platform_job_id (apply_record q r')
          ∙ ap (λ x. some (apply_record q x)) same,
      get-discard q.platform_job_id w.registry,
    )

module _ (stable_hash : Json → Text) (dump : ActionPlan → Json) (digest : Json → Text)
    (lower : Text → Text) (manifests : List PluginManifest) (config : ServiceConfig) where
  -- An answer of the endpoint means that the plan was executable and came with an approval, that
  -- the token of its job was not cancelled when materialize ended, and that this succeeded; the
  -- answer names the plan's integrity hash, and a candidate only as the export_package asset names
  -- its final one, with its hash. The job is stored under its id with this answer, and its token is
  -- out of the registry.
  pub execute_approved_action_plan-IsAnswered :
      (q : ActionPlanExecuteApprovedRequest) (between : List Section)
      (m : Materialization (ApplyAsset × List ArtifactRef) ApplyMaterialized) (s : Service)
      (r : ApplyWorkflowResult)
      → let out =
          execute_approved_action_plan stable_hash dump digest lower manifests config q between m
            s in
        out.1 ≡ ok r → IsAnswered stable_hash dump q between m s out.0 r
  unfolding execute_approved_action_plan
  execute_approved_action_plan-IsAnswered q between m s r =
      when_validated (validate_action_plan_execution stable_hash dump (execution_of q)) refl
    where
      when_validated :
          (checked : Result ActionPlanExecutionError Text)
          → validate_action_plan_execution stable_hash dump (execution_of q) ≡ checked
          → let out =
              execute_validated stable_hash dump digest lower manifests config q between m s
                checked in
            out.1 ≡ ok r → IsAnswered stable_hash dump q between m s out.0 r
      when_validated (raise e) same h = cc h
      when_validated (ok hash) same h =
          let launched =
            launch_apply stable_hash dump digest lower manifests config q hash between m s.world in
          let (returned, stored, dropped) = keep_apply-stored q s launched r h in
          let w = registered_world q.platform_job_id between s.world in
          let token = token_of q.platform_job_id s.world in
          let (approval, run) =
            launch_apply-answer digest lower config q (endpoint_options q) hash token m w r
              returned in
          let (sound, _) =
            validate_action_plan_execution_iff stable_hash dump (execution_of q) hash in
          let (executable, is_hash) = sound same in
          record {
            executable = executable;
            plan_hash = ap (λ x. x.action_plan_hash) run.result ∙ is_hash;
            approved_with = approval;
            not_cancelled = not_cancelled_by _ run.not_stopped;
            made = run.made;
            succeeded = run.succeeded;
            candidate = λ uri h.
                let ids = synthetic_step_ids q.action_plan in
                let of_result = sym (ap (λ x. x.outputs.candidate_artifact_uri) run.result) ∙ h in
                let (named, hash_given, surfaced) =
                  first_outputs-IsPaired run.made ids uri of_result in
                (
                  named,
                  ap (λ x. x.outputs.candidate_artifact_hash) run.result ∙ hash_given,
                  surfaced,
                );
            stored = stored;
            token_dropped = dropped;
          }
