-- ===== src/Runs/Tests.antt =====
-- Runs of the workflows of app/orchestration and of the job endpoints of app/api/main.py, and the
-- theorems about them at concrete inputs.
use dataforge_ai_ml_service.Prelude.{
  true, false, none, some, List, [], ◌∷◌, ◌++◌, nat_eq, list_eq, string_eq, ok, raise, ◌≡◌, refl,
  arith,
}
use dataforge_ai_ml_service.Prelude.Dict
use dataforge_ai_ml_service.Prelude.Texts.{codes, has, ascii_lower, starts_with}
use dataforge_ai_ml_service.ActionPlan.Execution.{
  validate_action_plan_execution, validate_step_integrity, validate_approval_metadata,
  mismatched_fields_of, action_plan_integrity_hash,
}
use dataforge_ai_ml_service.Validation.Gates.Csv.{ArtifactRef}
use dataforge_ai_ml_service.Cancellation.Reasons.{
  classify_failure, classify_lowered, transient_storage_error,
}
use dataforge_ai_ml_service.Cancellation.Registry.{
  empty_registry, register, allocate, cancel_token, token_cancelled,
}
use dataforge_ai_ml_service.Cancellation.Registry.Interleavings.{
  registering, cancelling, after_all, after, IsCancelledToken,
}
use dataforge_ai_ml_service.Runs.Events.{
  skipped, run_completed, run_cancelled, raw_manifest, decision_report, AnalyzeAsset, ApplyAsset,
  emit,
}
use dataforge_ai_ml_service.Runs.Launch.{
  World, approval_metadata_required, materialization_raised, raised, Materialization,
}
use dataforge_ai_ml_service.Runs.Launch.Analyze.{
  AnalyzeDatasetRequest, AnalyzeMaterialized, analyze_run_context, launch_analyze_dataset_workflow,
}
use dataforge_ai_ml_service.Runs.Launch.Outputs.{ApplyMaterialized, take_events}
use dataforge_ai_ml_service.Runs.Launch.Apply.{
  ApplyWorkflowResult, default_proposed_version_name, replace_from, launch_apply_actions_workflow,
}
use dataforge_ai_ml_service.Runs.Endings.{IsEnded, launch_analyze_dataset_workflow-IsEnded}
use dataforge_ai_ml_service.Runs.Closings.{
  statuses, completions, closing, launch_apply_actions_workflow-statuses,
}
use dataforge_ai_ml_service.Runs.Endpoints.{
  failed_run, execution_of, token_of, endpoint_options, execute_approved_action_plan, cancel_job,
}
use dataforge_ai_ml_service.Runs.Publishing.{returns, execute_approved_action_plan-cancelled}
use dataforge_ai_ml_service.Runs.Answer.{IsAnswered, execute_approved_action_plan-IsAnswered}
use dataforge_ai_ml_service.Runs.Samples.{approval, config, digest, dump, request, run, service}

answered :
    (r : ApplyWorkflowResult) × ((execute_approved_action_plan digest dump digest ascii_lower []
        config
        (request true (some approval))
        []
        (run [])
        service).1
      ≡ ok r)
    × (r.outputs.candidate_artifact_uri ≡ some (codes "candidate"))
unfolding execute_approved_action_plan validate_action_plan_execution validate_step_integrity
    validate_approval_metadata mismatched_fields_of action_plan_integrity_hash register allocate
    Dict.get Dict.put after_all launch_apply_actions_workflow take_events emit
answered = (_, refl, refl)

execute_approved_action_plan-IsAnswered_example :
    IsAnswered digest dump
      (request true (some approval))
      []
      (run [])
      service
      (execute_approved_action_plan digest dump digest ascii_lower [] config
        (request true (some approval))
        []
        (run [])
        service).0
      answered.0
execute_approved_action_plan-IsAnswered_example =
    execute_approved_action_plan-IsAnswered digest dump digest ascii_lower [] config
      (request true (some approval)) [] (run []) service answered.0 answered.1

-- A plan that needs no approval, and comes with none, passes its checks but not the launcher.
no_approval_needed :
    (validate_action_plan_execution digest dump (execution_of (request false none))
      ≡ ok (codes "h"))
    × ((execute_approved_action_plan digest dump digest ascii_lower [] config
          (request false none)
          []
          (run [])
          service).1
        ≡ raise (failed_run approval_metadata_required))
unfolding execute_approved_action_plan validate_action_plan_execution validate_step_integrity
    action_plan_integrity_hash launch_apply_actions_workflow
no_approval_needed = (refl, refl)

-- The platform cancels while the assets run, and another job registers.
abbrev cancelled_run_of : Materialization (ApplyAsset × List ArtifactRef) ApplyMaterialized
cancelled_run_of = run (cancelling 0 (some (codes "user")) ∷ registering (codes "k") ∷ [])

cancelled_token :
    IsCancelledToken
      (token_of (codes "j") service.world)
      (after_all (cancelling 0 (some (codes "user")) ∷ []) (register (codes "j") empty_registry).0)
unfolding register allocate Dict.get Dict.put after_all after cancel_token token_cancelled
cancelled_token = record { handed_out = omega arith; cancelled = refl }

execute_approved_action_plan-cancelled_example :
    ((execute_approved_action_plan digest dump digest ascii_lower [] config
        (request true (some approval))
        []
        cancelled_run_of
        service).0.store
      ≡ service.store)
    × (returns
          (execute_approved_action_plan digest dump digest ascii_lower [] config
            (request true (some approval))
            []
            cancelled_run_of
            service).1
        ≡ false)
execute_approved_action_plan-cancelled_example =
    execute_approved_action_plan-cancelled digest dump digest ascii_lower [] config
      (request true (some approval)) [] (cancelling 0 (some (codes "user")) ∷ [])
      (registering (codes "k") ∷ []) cancelled_run_of service refl cancelled_token

abbrev registered : World
registered = record { events = []; registry = (register (codes "j") empty_registry).0 }

-- The platform is told that the run is completed, and then that it is cancelled.
completed_then_cancelled :
    statuses
      (launch_apply_actions_workflow digest ascii_lower config
        (request true (some approval))
        (endpoint_options (request true (some approval)))
        (codes "h")
        (some 0)
        cancelled_run_of
        registered).0.events
    ≡ run_completed ∷ run_cancelled ∷ []
unfolding launch_apply_actions_workflow emit register allocate Dict.get Dict.put after_all after
    cancel_token token_cancelled
completed_then_cancelled = refl

launch_apply_actions_workflow-statuses_example :
    let q = request true (some approval) in
    let out =
      launch_apply_actions_workflow digest ascii_lower config q
        (endpoint_options q)
        (codes "h")
        none
        cancelled_run_of
        registered in
    statuses out.0.events ≡ [] ++ (completions cancelled_run_of.emitted ++ closing out.1)
launch_apply_actions_workflow-statuses_example =
    launch_apply_actions_workflow-statuses digest ascii_lower config (request true (some approval))
      (endpoint_options (request true (some approval))) (codes "h") none cancelled_run_of registered

abbrev analyzing : AnalyzeDatasetRequest
analyzing = record {
  platform_job_id = codes "j";
  organization_id = codes "o";
  project_id = codes "p";
  dataset_id = codes "d";
  dataset_version_id = codes "v1";
  dataset_object_refs = [];
  prediction_artifact_refs = [];
}

-- The storage fails.
abbrev storage_failure : Materialization AnalyzeAsset AnalyzeMaterialized
storage_failure = record {
  emitted = raw_manifest ∷ decision_report ∷ [];
  meanwhile = [];
  outcome = raised (codes "Storage error");
}

storage_failure_reported :
    (launch_analyze_dataset_workflow digest ascii_lower [] config 1 analyzing none storage_failure
      [] registered).1
    ≡ raise (materialization_raised transient_storage_error)
unfolding launch_analyze_dataset_workflow classify_failure classify_lowered has starts_with
    ascii_lower
storage_failure_reported = refl

launch_analyze_dataset_workflow-IsEnded_example :
    let out =
      launch_analyze_dataset_workflow digest ascii_lower [] config 1 analyzing none storage_failure
        [] registered in
    IsEnded (analyze_run_context analyzing) [] out.0.events out.1
launch_analyze_dataset_workflow-IsEnded_example =
    launch_analyze_dataset_workflow-IsEnded digest ascii_lower [] config 1 analyzing none
      storage_failure [] registered

version_name :
    default_proposed_version_name (codes "v1") (codes "action_plan_a/b") ≡ codes "v1__candidate_a_b"
unfolding default_proposed_version_name replace_from starts_with
version_name = refl

cancel_of_another_job :
    cancel_job (codes "j") (codes "k") (codes "user") empty_registry
    ≡ (empty_registry, (skipped, (codes "platform_job_id_mismatch", false)))
unfolding cancel_job
cancel_of_another_job = refl
