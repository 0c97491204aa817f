-- ===== src/Runs/Publishing.antt =====
-- What `execute_approved_action_plan` of app/api/main.py publishes, and that it does not for a
-- cancelled run.
use dataforge_ai_ml_service.Prelude.{
  ℕ, Bool, true, false, Option, none, some, List, [], ◌∷◌, ◌++◌, nat_eq, list_eq, Result, ok, raise,
  ◌≡◌, refl, sym, ap, ◌∙◌, arith,
}
use dataforge_ai_ml_service.Prelude.Texts.{Text}
use dataforge_ai_ml_service.Json.{Json}
use dataforge_ai_ml_service.Plugins.Manifest.{PluginManifest}
use dataforge_ai_ml_service.ActionPlan.Model.{ActionPlan}
use dataforge_ai_ml_service.ActionPlan.Execution.{
  ActionPlanExecutionError, ActionPlanApprovalMetadata, validate_action_plan_execution,
}
use dataforge_ai_ml_service.Validation.Gates.Csv.{ArtifactRef}
use dataforge_ai_ml_service.Cancellation.Registry.{
  CancellationToken, CancellationRegistry, register,
}
use dataforge_ai_ml_service.Cancellation.Registry.Interleavings.{
  Section, after, after_all, IsCancelledToken, after_all-IsCancelledToken,
}
use dataforge_ai_ml_service.Runs.Events.{queued, started_event, ApplyAsset, apply_event, emit}
use dataforge_ai_ml_service.Runs.Launch.{
  World, RunError, Outcome, raised, finished, Materialization, cancelled_reason, cancelled_by,
  materialized_world,
}
use dataforge_ai_ml_service.Runs.Launch.Analyze.{ServiceConfig}
use dataforge_ai_ml_service.Runs.Launch.Apply.{
  ActionPlanExecuteApprovedRequest, LaunchOptions, ApplyWorkflowResult, finish_apply, start_apply,
  approved, apply_run_context, launch_apply_actions_workflow,
}
use dataforge_ai_ml_service.Runs.Launch.Outputs.{ApplyMaterialized}
use dataforge_ai_ml_service.Runs.Endpoints.{
  registered_world, token_of, keep_apply, execution_of, endpoint_options, execute_validated,
  execute_approved_action_plan,
}
use dataforge_ai_ml_service.Runs.Store.{Service}

abbrev pub returns : {E A : Type 0} → Result E A → Bool
returns (ok a) = true
returns (raise e) = false

after_all-append :
    (xs ys : List Section) (s : CancellationRegistry)
    → after_all (xs ++ ys) s ≡ after_all ys (after_all xs s)
unfolding after_all
after_all-append [] ys s = refl
after_all-append (x ∷ xs) ys s = after_all-append xs ys (after x s)

given_reason :
    (t : CancellationToken) → t.cancelled ≡ true → cancelled_reason t ≡ some t.reason_code
given_reason t h = ground arith

module _ (digest : Json → Text) (lower : Text → Text) (config : ServiceConfig)
    (q : ActionPlanExecuteApprovedRequest) (o : LaunchOptions) (hash : Text) where
  finish_apply-stopped :
      (outcome : Outcome ApplyMaterialized) (reason : Text) (w : World)
      → returns (finish_apply digest lower config q o hash outcome (some reason) w).1 ≡ false
  finish_apply-stopped (raised message) reason w = refl
  finish_apply-stopped (finished success ms) reason w = refl

  start_apply-stopped :
      (r : ℕ) (m : Materialization (ApplyAsset × List ArtifactRef) ApplyMaterialized)
      (stop : Option Text) (w : World)
      → ((after_all m.meanwhile w.registry).heap r).cancelled ≡ true
      → returns (start_apply digest lower config q o hash (some r) m stop w).1 ≡ false
  start_apply-stopped r m (some reason) w h = refl
  start_apply-stopped r m none w h =
      let c = apply_run_context q o in
      let started = record w { events = emit w.events (started_event c queued 0) } in
      let w' = materialized_world (apply_event c) m started in
      let stop = given_reason ((after_all m.meanwhile w.registry).heap r) h in
      ap (λ x. returns (finish_apply digest lower config q o hash m.outcome x w').1) stop
      ∙ finish_apply-stopped m.outcome _ w'

  launch_apply-stopped :
      (r : ℕ) (m : Materialization (ApplyAsset × List ArtifactRef) ApplyMaterialized) (w : World)
      → ((after_all m.meanwhile w.registry).heap r).cancelled ≡ true
      → returns (launch_apply_actions_workflow digest lower config q o hash (some r) m w).1 ≡ false
  unfolding launch_apply_actions_workflow
  launch_apply-stopped r m w h = when_approved q.approval_metadata
    where
      when_approved :
          (approval : Option ActionPlanApprovalMetadata)
          → returns
              (approved approval w (
                start_apply digest lower config q o hash
                  (some r)
                  m
                  (cancelled_by (some r) w.registry)
                  w)).1
            ≡ false
      when_approved none = refl
      when_approved (some approval) = start_apply-stopped r m (cancelled_by (some r) w.registry) w h

keep_apply-stopped :
    (q : ActionPlanExecuteApprovedRequest) (s : Service)
    (out : World × Result RunError ApplyWorkflowResult)
    → returns out.1 ≡ false
    → ((keep_apply q s out).0.store ≡ s.store) × (returns (keep_apply q s out).1 ≡ false)
keep_apply-stopped q s (w, raise e) h = (refl, refl)
keep_apply-stopped q s (w, ok r) h = cc h

module _ (stable_hash : Json → Text) (dump : ActionPlan → Json) (digest : Json → Text)
    (lower : Text → Text) (manifests : List PluginManifest) (config : ServiceConfig) where
  -- A run that is cancelled publishes nothing: if the token of its job is cancelled after some of
  -- the locked sections that other threads run from its registration to the end of materialize,
  -- then whatever they do afterwards, and whatever the run makes, the endpoint raises and the store
  -- keeps its jobs and its action plans.
  pub execute_approved_action_plan-cancelled :
      (q : ActionPlanExecuteApprovedRequest) (between early late : List Section)
      (m : Materialization (ApplyAsset × List ArtifactRef) ApplyMaterialized) (s : Service)
      → between ++ m.meanwhile ≡ early ++ late
      → IsCancelledToken
          (token_of q.platform_job_id s.world)
          (after_all early (register q.platform_job_id s.world.registry).0)
      → let out =
          execute_approved_action_plan stable_hash dump digest lower manifests config q between m
            s in
        (out.0.store ≡ s.store) × (returns out.1 ≡ false)
  unfolding execute_approved_action_plan
  execute_approved_action_plan-cancelled q between early late m s order c =
      when_validated (validate_action_plan_execution stable_hash dump (execution_of q))
    where
      r : ℕ
      r = token_of q.platform_job_id s.world

      begun : CancellationRegistry
      begun = (register q.platform_job_id s.world.registry).0

      at_end : ((after_all m.meanwhile (after_all between begun)).heap r).cancelled ≡ true
      at_end =
          ap (λ x. (x.heap r).cancelled)
            (sym (after_all-append between m.meanwhile begun)
              ∙ ap (λ xs. after_all xs begun) order
              ∙ after_all-append early late begun)
          ∙ (after_all-IsCancelledToken late (after_all early begun) c).cancelled

      when_validated :
          (hash : Result ActionPlanExecutionError Text)
          → let out =
              execute_validated stable_hash dump digest lower manifests config q between m s hash in
            (out.0.store ≡ s.store) × (returns out.1 ≡ false)
      when_validated (raise e) = (refl, refl)
      when_validated (ok hash) = keep_apply-stopped q s _ (
          launch_apply-stopped digest lower config q (endpoint_options q) hash r m
            (registered_world q.platform_job_id between s.world) at_end)
