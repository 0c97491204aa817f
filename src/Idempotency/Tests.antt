-- ===== src/Idempotency/Tests.antt =====
-- Runs of app/kernel/idempotency.py, and its theorems at concrete inputs.
use dataforge_ai_ml_service.Prelude.{List, [], ◌∷◌, ◌≡◌, ◌↔◌, refl, unique_from}
use dataforge_ai_ml_service.Prelude.Dict
use dataforge_ai_ml_service.Prelude.Sorting.{sorted, insert}
use dataforge_ai_ml_service.Prelude.Texts.{Text, codes}
use dataforge_ai_ml_service.Json.{Json, obj, field, str}
use dataforge_ai_ml_service.Idempotency.{
  PluginVersionFootprint, AnalyzeIdempotencyInputs, ApplyIdempotencyInputs, sorted_unique,
  normalize_plugin_versions, ordered_dict, analyze_payload, apply_payload,
  compute_analyze_idempotency_key, compute_apply_idempotency_key, collect_artifact_hashes,
}
use dataforge_ai_ml_service.Idempotency.Invariance.{
  IsSameAnalyze, IsSameApply, compute_analyze_idempotency_key_iff,
  compute_apply_idempotency_key_iff,
}

-- A digest that reads the workflow alone.
abbrev workflow : Json → Text
workflow (obj (field k (str w) rest)) = w
workflow _ = []

abbrev footprint : Text → PluginVersionFootprint
footprint p = record {
  plugin_id = p;
  plugin_version = codes "1";
  algorithm_name = codes "a";
  algorithm_version = codes "1";
}

abbrev analysis : List Text → List PluginVersionFootprint → AnalyzeIdempotencyInputs
analysis hs fs = record {
  organization_id = codes "o";
  project_id = codes "p";
  dataset_id = codes "d";
  dataset_version_id = codes "v";
  input_artifact_hashes = hs;
  prediction_artifact_hashes = [];
  config_hash = codes "c";
  contract_pack_version = codes "1";
  plugin_versions = fs;
}

abbrev first_analysis : AnalyzeIdempotencyInputs
first_analysis =
    analysis (codes "b" ∷ codes "a" ∷ codes "b" ∷ [])
      (footprint (codes "x") ∷ footprint (codes "w") ∷ [])

abbrev second_analysis : AnalyzeIdempotencyInputs
second_analysis =
    analysis (codes "a" ∷ [] ∷ codes "b" ∷ []) (footprint (codes "w") ∷ footprint (codes "x") ∷ [])

abbrev application : Dict.Dict Text Text → List Text → ApplyIdempotencyInputs
application policies hs = record {
  organization_id = codes "o";
  project_id = codes "p";
  dataset_id = codes "d";
  source_dataset_version_id = codes "v";
  proposed_version_name = codes "n";
  action_plan_hash = codes "h";
  input_artifact_hashes = hs;
  prediction_artifact_hashes = [];
  config_hash = codes "c";
  contract_pack_version = codes "1";
  policy_versions = policies;
  step_idempotency_keys = codes "k" ∷ [];
  plugin_versions = [];
}

abbrev first_application : ApplyIdempotencyInputs
first_application =
    application ((codes "q", codes "2") ∷ (codes "m", codes "1") ∷ []) (codes "b" ∷ codes "a" ∷ [])

abbrev second_application : ApplyIdempotencyInputs
second_application =
    application ((codes "m", codes "1") ∷ (codes "q", codes "2") ∷ []) (codes "a" ∷ codes "b" ∷ [])

collected :
    collect_artifact_hashes (codes "b" ∷ [] ∷ codes "a" ∷ codes "b" ∷ [])
    ≡ codes "a" ∷ codes "b" ∷ []
unfolding collect_artifact_hashes sorted insert unique_from
collected = refl

same_analyze_payload : analyze_payload first_analysis ≡ analyze_payload second_analysis
unfolding analyze_payload sorted_unique normalize_plugin_versions sorted insert unique_from
same_analyze_payload = refl

same_apply_payload : apply_payload first_application ≡ apply_payload second_application
unfolding apply_payload sorted_unique normalize_plugin_versions ordered_dict sorted insert
    unique_from Dict.get
same_apply_payload = refl

compute_analyze_idempotency_key_iff_example :
    (compute_analyze_idempotency_key workflow first_analysis
      ≡ compute_analyze_idempotency_key workflow second_analysis)
    ↔ IsSameAnalyze first_analysis second_analysis
compute_analyze_idempotency_key_iff_example =
    compute_analyze_idempotency_key_iff workflow first_analysis second_analysis
      (λ h. same_analyze_payload)

compute_apply_idempotency_key_iff_example :
    (compute_apply_idempotency_key workflow first_application
      ≡ compute_apply_idempotency_key workflow second_application)
    ↔ IsSameApply first_application second_application
compute_apply_idempotency_key_iff_example =
    compute_apply_idempotency_key_iff workflow first_application second_application refl refl
      (λ h. same_apply_payload)
