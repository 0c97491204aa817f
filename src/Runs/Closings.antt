-- ===== src/Runs/Closings.antt =====
-- The terminal events of a run of app/orchestration/apply_workflow.py.
use mathlib.Core.List.{append-nil, append_assoc}
use dataforge_ai_ml_service.Prelude.{
  ℕ, Bool, true, false, Option, none, some, List, [], ◌∷◌, ◌++◌, map, keep, if◌then◌else◌, Result,
  ok, raise, ◌≡◌, refl, sym, ap, ◌∙◌, arith,
}
use dataforge_ai_ml_service.Prelude.Texts.{Text}
use dataforge_ai_ml_service.Json.{Json}
use dataforge_ai_ml_service.ActionPlan.Execution.{ActionPlanApprovalMetadata}
use dataforge_ai_ml_service.Validation.Gates.Csv.{ArtifactRef}
use dataforge_ai_ml_service.Runs.Events.{
  RunContext, PlatformJobEvent, ComputeRunStatus, run_completed, run_failed, run_cancelled, emit,
  queued, started_event, ApplyAsset, action_plan, remediation_execution_report, prepared_dataset,
  synthetic_dataset, model_impact_report, export_package, apply_event,
}
use dataforge_ai_ml_service.Runs.Launch.{
  World, RunError, approval_metadata_required, cancelled_run, materialization_raised,
  materialization_failed, Outcome, raised, finished, Materialization, cancelled_by,
  materialized_world,
}
use dataforge_ai_ml_service.Runs.Launch.Analyze.{ServiceConfig}
use dataforge_ai_ml_service.Runs.Launch.Apply.{
  ActionPlanExecuteApprovedRequest, LaunchOptions, ApplyWorkflowResult, apply_run_context,
  finish_apply, start_apply, approved, launch_apply_actions_workflow,
}
use dataforge_ai_ml_service.Runs.Launch.Outputs.{ApplyMaterialized}

abbrev pub is_terminal : ComputeRunStatus → Bool
is_terminal run_completed = true
is_terminal run_failed = true
is_terminal run_cancelled = true
is_terminal _ = false

abbrev pub statuses : List PlatformJobEvent → List ComputeRunStatus
statuses events = keep is_terminal (map (λ e. e.status) events)

-- One COMPLETED for each time that export_package emits its event
abbrev pub completions : List (ApplyAsset × List ArtifactRef) → List ComputeRunStatus
completions [] = []
completions ((export_package, refs) ∷ rest) = run_completed ∷ completions rest
completions ((action_plan, refs) ∷ rest) = completions rest
completions ((remediation_execution_report, refs) ∷ rest) = completions rest
completions ((prepared_dataset, refs) ∷ rest) = completions rest
completions ((synthetic_dataset, refs) ∷ rest) = completions rest
completions ((model_impact_report, refs) ∷ rest) = completions rest

-- What the launcher itself says at the end
abbrev pub closing : {A : Type 0} → Result RunError A → List ComputeRunStatus
closing (ok a) = []
closing (raise approval_metadata_required) = []
closing (raise (cancelled_run e)) = run_cancelled ∷ []
closing (raise (materialization_raised reason)) = run_failed ∷ []
closing (raise materialization_failed) = run_failed ∷ []

-- Whether `materialize` is called
abbrev pub is_started : Option ActionPlanApprovalMetadata → Option Text → Bool
is_started none stop = false
is_started (some approval) (some reason) = false
is_started (some approval) none = true

statuses-append : (xs ys : List PlatformJobEvent) → statuses (xs ++ ys) ≡ statuses xs ++ statuses ys
statuses-append [] ys = refl
statuses-append (x ∷ xs) ys = ground (arith, statuses-append xs ys)

statuses-apply_event :
    (c : RunContext) (emitted : List (ApplyAsset × List ArtifactRef))
    → statuses (map (apply_event c) emitted) ≡ completions emitted
statuses-apply_event c [] = refl
statuses-apply_event c ((export_package, refs) ∷ rest) =
    ap (λ l. run_completed ∷ l) (statuses-apply_event c rest)
statuses-apply_event c ((action_plan, refs) ∷ rest) = statuses-apply_event c rest
statuses-apply_event c ((remediation_execution_report, refs) ∷ rest) = statuses-apply_event c rest
statuses-apply_event c ((prepared_dataset, refs) ∷ rest) = statuses-apply_event c rest
statuses-apply_event c ((synthetic_dataset, refs) ∷ rest) = statuses-apply_event c rest
statuses-apply_event c ((model_impact_report, refs) ∷ rest) = statuses-apply_event c rest

module _ (digest : Json → Text) (lower : Text → Text) (config : ServiceConfig) where
  finish_apply-statuses :
      (q : ActionPlanExecuteApprovedRequest) (o : LaunchOptions) (hash : Text)
      (outcome : Outcome ApplyMaterialized) (stop : Option Text) (w : World)
      → let out = finish_apply digest lower config q o hash outcome stop w in
        statuses out.0.events ≡ statuses w.events ++ closing out.1
  unfolding emit
  finish_apply-statuses q o hash (raised message) stop w = statuses-append w.events _
  finish_apply-statuses q o hash (finished success ms) (some reason) w = statuses-append w.events _
  finish_apply-statuses q o hash (finished false ms) none w = statuses-append w.events _
  finish_apply-statuses q o hash (finished true ms) none w = sym (append-nil _)

  -- The terminal statuses that an apply run reports are one COMPLETED for each event of
  -- export_package, if `materialize` was called, and after those CANCELLED if the launcher raises
  -- since the run is cancelled, FAILED if it raises since the run failed, and nothing of its own if
  -- it returns.
  pub launch_apply_actions_workflow-statuses :
      (q : ActionPlanExecuteApprovedRequest) (o : LaunchOptions) (hash : Text) (token : Option ℕ)
      (m : Materialization (ApplyAsset × List ArtifactRef) ApplyMaterialized) (w : World)
      → let out = launch_apply_actions_workflow digest lower config q o hash token m w in
        statuses out.0.events
        ≡ statuses w.events
          ++ ((if is_started q.approval_metadata (cancelled_by token w.registry)
                then completions m.emitted
                else [])
              ++ closing out.1)
  unfolding launch_apply_actions_workflow emit
  launch_apply_actions_workflow-statuses q o hash token m w =
      approved-statuses q.approval_metadata (cancelled_by token w.registry)
    where
      begun : Option Text → World × Result RunError ApplyWorkflowResult
      begun stop = start_apply digest lower config q o hash token m stop w

      approved-statuses :
          (approval : Option ActionPlanApprovalMetadata) (stop : Option Text)
          → let out = approved approval w (begun stop) in
            statuses out.0.events
            ≡ statuses w.events
              ++ ((if is_started approval stop then completions m.emitted else []) ++ closing out.1)
      approved-statuses none stop = sym (append-nil _)
      approved-statuses (some approval) (some reason) = statuses-append w.events _
      approved-statuses (some approval) none =
          let c = apply_run_context q o in
          let started = record w { events = emit w.events (started_event c queued 0) } in
          let w' = materialized_world (apply_event c) m started in
          let closed =
            finish_apply-statuses q o hash m.outcome (cancelled_by token w'.registry) w' in
          closed
          ∙ ap (λ l. l ++ closing (begun none).1)
              (statuses-append started.events (map (apply_event c) m.emitted)
                ∙ ap (λ l. l ++ statuses (map (apply_event c) m.emitted))
                    (statuses-append w.events (started_event c queued 0 ∷ []) ∙ append-nil _)
                ∙ ap (λ l. statuses w.events ++ l) (statuses-apply_event c m.emitted))
          ∙ append_assoc (statuses w.events) (completions m.emitted) (closing (begun none).1)
