-- ===== src/Runs/Launch.antt =====
-- What the launchers of app/orchestration/analyze_workflow.py and
-- app/orchestration/apply_workflow.py share.
pub mod Analyze
pub mod Outputs
pub mod Apply
use dataforge_ai_ml_service.Prelude.{
  ℕ, Bool, true, false, Option, none, some, List, [], ◌∷◌, ◌++◌, map, if◌then◌else◌, Result, raise,
}
use dataforge_ai_ml_service.Prelude.Texts.{Text, codes}
use dataforge_ai_ml_service.Cancellation.Reasons.{RunFailureReason, classify_failure}
use dataforge_ai_ml_service.Cancellation.Registry.{
  CancellationToken, CancellationRegistry, RunCancelledError,
}
use dataforge_ai_ml_service.Cancellation.Registry.Interleavings.{Section, after_all}
use dataforge_ai_ml_service.Runs.Events.{
  RunContext, PlatformJobEvent, emit, failed_event, cancelled_event,
}

-- What a launcher changes and shares with other threads: the events that the platform has
-- recorded, and the registry with the tokens.
pub record World : Type 0 where
  pub events : List PlatformJobEvent
  pub registry : CancellationRegistry

pub data RunError : Type 0 where
  approval_metadata_required : RunError
  cancelled_run : RunCancelledError → RunError
  materialization_raised : RunFailureReason → RunError
  materialization_failed : RunError

-- How `materialize` ends: it raises, with a message, or returns whether it succeeded, and what it
-- materialized.
pub data Outcome (M : Type 0) : Type 0 where
  raised : Text → Outcome M
  finished : Bool → List M → Outcome M

-- A run of `materialize`: the assets that emit their event, in order, the locked sections of other
-- threads meanwhile, and the outcome.
pub record Materialization (E M : Type 0) : Type 0 where
  pub emitted : List E
  pub meanwhile : List Section
  pub outcome : Outcome M

abbrev pub cancelled_reason : CancellationToken → Option Text
cancelled_reason t = if t.cancelled then some t.reason_code else none

-- `cancellation_token is not None and cancellation_token.is_cancelled`, with the reason
abbrev pub cancelled_by : Option ℕ → CancellationRegistry → Option Text
cancelled_by none s = none
cancelled_by (some r) s = cancelled_reason (s.heap r)

-- The event and the error of a cancelled run
abbrev pub cancel_run :
    {A : Type 0} → RunContext → ℕ → Text → Text → World → World × Result RunError A
cancel_run c progress prefix reason w = (
  record w { events = emit w.events (cancelled_event c progress) },
  raise (cancelled_run (record { reason_code = reason; message = prefix ++ reason })),
)

-- The event and the error of a run that failed
abbrev pub fail_run :
    {A : Type 0} → RunContext → RunFailureReason → RunError → World → World × Result RunError A
fail_run c reason error w =
    (record w { events = emit w.events (failed_event c 0 (some reason)) }, raise error)

-- The world after `materialize`
abbrev pub materialized_world :
    {E M : Type 0} → (E → PlatformJobEvent) → Materialization E M → World → World
materialized_world event m w = record {
  events = w.events ++ map event m.emitted;
  registry = after_all m.meanwhile w.registry;
}

-- `classify_failure(str(exc))`
abbrev pub failure_reason : (Text → Text) → Text → RunFailureReason
failure_reason lower message = classify_failure lower (some message) none

-- `f"/api/v1/jobs/{platform_job_id}/status"`
abbrev pub status_url : Text → Text
status_url id = codes "/api/v1/jobs/" ++ id ++ codes "/status"

abbrev pub compute_run_id : Text → Text
compute_run_id id = codes "compute_" ++ id
