-- ===== src/Runs/Endings.antt =====
-- How runs of app/orchestration/analyze_workflow.py end, as the platform sees it.
use mathlib.Core.List.{append-nil, append_assoc}
use dataforge_ai_ml_service.Prelude.{
  sym, ℕ, Bool, true, false, Option, none, some, List, [], ◌∷◌, ◌++◌, map, all, Result, ok, raise,
  ◌≡◌, refl, ap, ◌∙◌, arith,
}
use dataforge_ai_ml_service.Prelude.Texts.{Text}
use dataforge_ai_ml_service.Json.{Json}
use dataforge_ai_ml_service.Plugins.Manifest.{PluginManifest}
use dataforge_ai_ml_service.Validation.Gates.Csv.{ArtifactRef}
use dataforge_ai_ml_service.Cancellation.Reasons.{RunFailureReason, internal_error}
use dataforge_ai_ml_service.Runs.Events.{
  RunContext, PlatformJobEvent, ComputeRunStatus, running, run_completed, run_failed, run_cancelled,
  emit, AnalyzeAsset, analyze_event,
}
use dataforge_ai_ml_service.Runs.Launch.{
  World, RunError, approval_metadata_required, cancelled_run, materialization_raised,
  materialization_failed, Outcome, raised, finished, Materialization, cancelled_by,
  materialized_world,
}
use dataforge_ai_ml_service.Runs.Launch.Analyze.{
  ServiceConfig, AnalyzeDatasetRequest, AnalyzeMaterialized, analyze_run_context, finish_analyze,
  start_analyze, launch_analyze_dataset_workflow,
}

abbrev pub is_running : ComputeRunStatus → Bool
is_running running = true
is_running _ = false

-- The status and the error code with which a run that was started ends
abbrev pub ending_of :
    {A : Type 0} → Result RunError A → Option (ComputeRunStatus × Option RunFailureReason)
ending_of (ok a) = some (run_completed, none)
ending_of (raise (cancelled_run e)) = some (run_cancelled, none)
ending_of (raise (materialization_raised reason)) = some (run_failed, some reason)
ending_of (raise materialization_failed) = some (run_failed, some internal_error)
ending_of (raise approval_metadata_required) = none

-- The events from `before` to `after` are of the run of `c`: those of its progress, and a last one,
-- which says how it ended.
pub record IsEnded {A : Type 0} (c : RunContext) (before after : List PlatformJobEvent)
    (r : Result RunError A) : Type 0 where
  pub progress : List PlatformJobEvent
  pub last : PlatformJobEvent
  pub made : after ≡ before ++ (progress ++ last ∷ [])
  pub still_running : all (λ e. is_running e.status) progress ≡ true
  pub ending : some (last.status, last.error_code) ≡ ending_of r
  pub of_job : last.platform_job_id ≡ c.platform_job_id

all-analyze_event :
    (c : RunContext) (assets : List AnalyzeAsset)
    → all (λ e. is_running e.status) (map (analyze_event c) assets) ≡ true
all-analyze_event c [] = refl
all-analyze_event c (a ∷ assets) = ground (arith, all-analyze_event c assets)

-- A run that adds a last event to those of its assets
closed_by-IsEnded :
    {A : Type 0} (c : RunContext) (assets : List AnalyzeAsset)
    (before middle : List PlatformJobEvent) (last : PlatformJobEvent) (r : Result RunError A)
    → middle ≡ before ++ map (analyze_event c) assets
    → some (last.status, last.error_code) ≡ ending_of r
    → last.platform_job_id ≡ c.platform_job_id
    → IsEnded c before (emit middle last) r
unfolding emit
closed_by-IsEnded c assets before middle last r h ending of_job = record {
  progress = map (analyze_event c) assets;
  last = last;
  made =
      ap (λ es. es ++ last ∷ []) h ∙ append_assoc before (map (analyze_event c) assets) (last ∷ []);
  still_running = all-analyze_event c assets;
  ending = ending;
  of_job = of_job;
}

module _ (digest : Json → Text) (lower : Text → Text) (manifests : List PluginManifest)
    (config : ServiceConfig) (attempt_number : ℕ) where
  finish_analyze-IsEnded :
      (q : AnalyzeDatasetRequest) (artifacts : List (Text × ArtifactRef))
      (assets : List AnalyzeAsset) (outcome : Outcome AnalyzeMaterialized) (stop : Option Text)
      (before : List PlatformJobEvent) (w : World)
      → w.events ≡ before ++ map (analyze_event (analyze_run_context q)) assets
      → let out =
          finish_analyze digest lower manifests config attempt_number q artifacts outcome stop w in
        IsEnded (analyze_run_context q) before out.0.events out.1
  finish_analyze-IsEnded q artifacts assets (raised message) stop before w h =
      closed_by-IsEnded (analyze_run_context q) assets before w.events _ _ h refl refl
  finish_analyze-IsEnded q artifacts assets (finished success ms) (some reason) before w h =
      closed_by-IsEnded (analyze_run_context q) assets before w.events _ _ h refl refl
  finish_analyze-IsEnded q artifacts assets (finished false ms) none before w h =
      closed_by-IsEnded (analyze_run_context q) assets before w.events _ _ h refl refl
  finish_analyze-IsEnded q artifacts assets (finished true ms) none before w h =
      closed_by-IsEnded (analyze_run_context q) assets before w.events _ _ h refl refl

  start_analyze-IsEnded :
      (q : AnalyzeDatasetRequest) (token : Option ℕ)
      (m : Materialization AnalyzeAsset AnalyzeMaterialized) (artifacts : List (Text × ArtifactRef))
      (stop : Option Text) (w : World)
      → let out =
          start_analyze digest lower manifests config attempt_number q token m artifacts stop w in
        IsEnded (analyze_run_context q) w.events out.0.events out.1
  start_analyze-IsEnded q token m artifacts (some reason) w =
      closed_by-IsEnded (analyze_run_context q) [] w.events w.events _ _ (sym (append-nil w.events))
        refl refl
  start_analyze-IsEnded q token m artifacts none w =
      let w' = materialized_world (analyze_event (analyze_run_context q)) m w in
      finish_analyze-IsEnded q artifacts m.emitted m.outcome (cancelled_by token w'.registry)
        w.events w' refl

  -- Every analyze run ends for the platform, whatever its assets, its token and other threads do:
  -- it adds events of progress and then one that says how it ended, COMPLETED exactly for a result,
  -- CANCELLED for a cancelled run, and FAILED with the reason of the failure otherwise.
  pub launch_analyze_dataset_workflow-IsEnded :
      (q : AnalyzeDatasetRequest) (token : Option ℕ)
      (m : Materialization AnalyzeAsset AnalyzeMaterialized) (artifacts : List (Text × ArtifactRef))
      (w : World)
      → let out =
          launch_analyze_dataset_workflow digest lower manifests config attempt_number q token m
            artifacts w in
        IsEnded (analyze_run_context q) w.events out.0.events out.1
  unfolding launch_analyze_dataset_workflow
  launch_analyze_dataset_workflow-IsEnded q token m artifacts w =
      start_analyze-IsEnded q token m artifacts (cancelled_by token w.registry) w
