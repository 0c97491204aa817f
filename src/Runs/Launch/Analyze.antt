-- ===== src/Runs/Launch/Analyze.antt =====
-- `launch_analyze_dataset_workflow` of app/orchestration/analyze_workflow.py.
use dataforge_ai_ml_service.Prelude.{
  ℕ, Bool, true, false, ◌&&◌, Option, none, some, List, [], ◌∷◌, ◌++◌, map, keep, flat_map, member,
  if◌then◌else◌, nat_eq, list_eq, string_eq, Result, ok,
}
use dataforge_ai_ml_service.Prelude.Dict
use dataforge_ai_ml_service.Prelude.Dict.{Dict}
use dataforge_ai_ml_service.Prelude.Texts.{Text, codes}
use dataforge_ai_ml_service.Json.{Json}
use dataforge_ai_ml_service.Idempotency.{
  PluginVersionFootprint, collect_artifact_hashes, compute_analyze_idempotency_key,
}
use dataforge_ai_ml_service.Plugins.Manifest.{CapabilityDescriptor, PluginManifest}
use dataforge_ai_ml_service.Validation.Gates.Csv.{ArtifactRef}
use dataforge_ai_ml_service.Cancellation.Reasons.{internal_error}
use dataforge_ai_ml_service.Runs.Events.{
  RunContext, emit, completed_event, AnalyzeAsset, raw_manifest, validated_manifest,
  tabular_profile_report, object_analytics_passports, evidence_bundle, prediction_manifest,
  prediction_validation_report, model_error_analysis_report, ambiguous_object_candidates,
  probable_label_error_candidates, decision_report, recommended_actions, review_queue,
  analyze_event,
}
use dataforge_ai_ml_service.Runs.Launch.{
  World, RunError, materialization_raised, materialization_failed, Outcome, raised, finished,
  Materialization, cancelled_by, cancel_run, fail_run, materialized_world, failure_reason,
  compute_run_id,
}

pub record AnalyzeDatasetRequest : Type 0 where
  pub platform_job_id : Text
  pub organization_id : Text
  pub project_id : Text
  pub dataset_id : Text
  pub dataset_version_id : Text
  pub dataset_object_refs : List ArtifactRef
  pub prediction_artifact_refs : List ArtifactRef

-- Of a ServiceConfig, what the keys are made of
pub record ServiceConfig : Type 0 where
  pub config_hash : Text
  pub contract_pack_version : Text

-- A materialization event, with the uri in its metadata
pub record AnalyzeMaterialized : Type 0 where
  pub asset_name : Text
  pub artifact_uri : Option Text

pub record AnalyzeWorkflowResult : Type 0 where
  pub job_id : Text
  pub expected_outputs : List Text
  pub materialized_assets : List Text
  pub artifact_uris : Dict Text Text
  pub idempotency_key : Text
  pub attempt_number : ℕ

abbrev pub analyze_asset_name : AnalyzeAsset → Text
analyze_asset_name raw_manifest = codes "raw_manifest"
analyze_asset_name validated_manifest = codes "validated_manifest"
analyze_asset_name tabular_profile_report = codes "tabular_profile_report"
analyze_asset_name object_analytics_passports = codes "object_analytics_passports"
analyze_asset_name evidence_bundle = codes "evidence_bundle"
analyze_asset_name prediction_manifest = codes "prediction_manifest"
analyze_asset_name prediction_validation_report = codes "prediction_validation_report"
analyze_asset_name model_error_analysis_report = codes "model_error_analysis_report"
analyze_asset_name ambiguous_object_candidates = codes "ambiguous_object_candidates"
analyze_asset_name probable_label_error_candidates = codes "probable_label_error_candidates"
analyze_asset_name decision_report = codes "decision_report"
analyze_asset_name recommended_actions = codes "recommended_actions"
analyze_asset_name review_queue = codes "review_queue"

abbrev pub base_analyze_assets : List AnalyzeAsset
base_analyze_assets =
    raw_manifest ∷ validated_manifest ∷ tabular_profile_report ∷ object_analytics_passports
    ∷ evidence_bundle ∷ decision_report ∷ recommended_actions ∷ review_queue ∷ []

abbrev pub prediction_analyze_assets : List AnalyzeAsset
prediction_analyze_assets =
    prediction_manifest ∷ prediction_validation_report ∷ model_error_analysis_report
    ∷ ambiguous_object_candidates ∷ probable_label_error_candidates ∷ []

-- `expected_analyze_outputs`
unfoldable pub expected_analyze_outputs : Bool → List Text
expected_analyze_outputs include_predictions =
    let base = map analyze_asset_name base_analyze_assets in
    if include_predictions then base ++ map analyze_asset_name prediction_analyze_assets else base

abbrev pub is_given {ℓ} : {A : Type ℓ} → List A → Bool
is_given [] = false
is_given (x ∷ xs) = true

abbrev pub footprint_of : PluginManifest → CapabilityDescriptor → PluginVersionFootprint
footprint_of m c = record {
  plugin_id = codes m.plugin_id;
  plugin_version = codes m.version;
  algorithm_name = codes c.capability_id;
  algorithm_version = codes m.version;
}

-- `_analyze_plugin_footprints`, of the manifests that are installed
unfoldable pub analyze_plugin_footprints : List PluginManifest → List PluginVersionFootprint
analyze_plugin_footprints manifests =
    flat_map
      (λ m.
        map (footprint_of m)
          (keep (λ c. member "ANALYZE_DATASET" c.task_types && c.enabled) m.capabilities))
      (keep (λ m. m.enabled) manifests)

abbrev pub hashes_of : List ArtifactRef → List Text
hashes_of refs = collect_artifact_hashes (map (λ a. a.hash) refs)

abbrev pub analyze_key :
    (Json → Text) → List PluginManifest → ServiceConfig → AnalyzeDatasetRequest → Text
analyze_key digest manifests config q = compute_analyze_idempotency_key digest (record {
  organization_id = q.organization_id;
  project_id = q.project_id;
  dataset_id = q.dataset_id;
  dataset_version_id = q.dataset_version_id;
  input_artifact_hashes = hashes_of q.dataset_object_refs;
  prediction_artifact_hashes = hashes_of q.prediction_artifact_refs;
  config_hash = config.config_hash;
  contract_pack_version = config.contract_pack_version;
  plugin_versions = analyze_plugin_footprints manifests;
})

abbrev pub analyze_run_context : AnalyzeDatasetRequest → RunContext
analyze_run_context q = record {
  compute_run_id = compute_run_id q.platform_job_id;
  platform_job_id = q.platform_job_id;
  organization_id = q.organization_id;
  project_id = q.project_id;
  dataset_id = q.dataset_id;
  dataset_version_id = q.dataset_version_id;
}

-- The loop over the materialization events, on the uris
abbrev pub uris_of : Dict Text Text → List AnalyzeMaterialized → Dict Text Text
uris_of found [] = found
uris_of found (m ∷ ms) = elim m.artifact_uri [
  | none ↦ uris_of found ms
  | some uri ↦ uris_of (Dict.put found m.asset_name uri) ms
]

-- The artifacts of the run whose assets were materialized
abbrev pub published : List (Text × ArtifactRef) → List AnalyzeMaterialized → List ArtifactRef
published artifacts ms =
    map (λ a. a.1) (keep (λ a. member a.0 (map (λ m. m.asset_name) ms)) artifacts)

-- `digest` makes the keys, `lower` is `str.lower` and `manifests` are those of the static registry.
-- A token is a reference into the registry.
module _ (digest : Json → Text) (lower : Text → Text) (manifests : List PluginManifest)
    (config : ServiceConfig) (attempt_number : ℕ) where
  abbrev pub analyze_result :
      AnalyzeDatasetRequest → List AnalyzeMaterialized → AnalyzeWorkflowResult
  analyze_result q ms = record {
    job_id = q.platform_job_id;
    expected_outputs = expected_analyze_outputs (is_given q.prediction_artifact_refs);
    materialized_assets = map (λ m. m.asset_name) ms;
    artifact_uris = uris_of [] ms;
    idempotency_key = analyze_key digest manifests config q;
    attempt_number = attempt_number;
  }

  -- What follows `materialize`: its outcome, and whether the token is cancelled by then
  abbrev pub finish_analyze :
      AnalyzeDatasetRequest
      → List (Text × ArtifactRef)
      → Outcome AnalyzeMaterialized
      → Option Text
      → World
      → World × Result RunError AnalyzeWorkflowResult
  finish_analyze q artifacts (raised message) stop w =
      let reason = failure_reason lower message in
      fail_run (analyze_run_context q) reason (materialization_raised reason) w
  finish_analyze q artifacts (finished success ms) (some reason) w =
      cancel_run (analyze_run_context q) 50
        (codes "ANALYZE_ONLY workflow cancelled after materialization: ") reason w
  finish_analyze q artifacts (finished false ms) none w =
      fail_run (analyze_run_context q) internal_error materialization_failed w
  finish_analyze q artifacts (finished true ms) none w = (
    record w {
      events = emit w.events (completed_event (analyze_run_context q) (published artifacts ms));
    },
    ok (analyze_result q ms),
  )

  abbrev pub start_analyze :
      AnalyzeDatasetRequest
      → Option ℕ
      → Materialization AnalyzeAsset AnalyzeMaterialized
      → List (Text × ArtifactRef)
      → Option Text
      → World
      → World × Result RunError AnalyzeWorkflowResult
  start_analyze q token m artifacts (some reason) w =
      cancel_run (analyze_run_context q) 0
        (codes "ANALYZE_ONLY workflow cancelled before materialization: ") reason w
  start_analyze q token m artifacts none w =
      let w' = materialized_world (analyze_event (analyze_run_context q)) m w in
      finish_analyze q artifacts m.outcome (cancelled_by token w'.registry) w'

  -- `launch_analyze_dataset_workflow`. `artifacts` are those that its assets leave in the run's
  -- state.
  unfoldable pub launch_analyze_dataset_workflow :
      AnalyzeDatasetRequest
      → Option ℕ
      → Materialization AnalyzeAsset AnalyzeMaterialized
      → List (Text × ArtifactRef)
      → World
      → World × Result RunError AnalyzeWorkflowResult
  unfolding emit
  launch_analyze_dataset_workflow q token m artifacts w =
      start_analyze q token m artifacts (cancelled_by token w.registry) w
