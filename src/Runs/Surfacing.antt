-- ===== src/Runs/Surfacing.antt =====
-- Where the candidate of an apply run's answer comes from: the loop over the materialization events
-- in app/orchestration/apply_workflow.py.
use dataforge_ai_ml_service.Prelude.{
  Option, none, some, List, [], ◌∷◌, ◌≡◌, refl, ◌∙◌, ◌⊎◌, inl, inr, nat_eq, list_eq,
}
use dataforge_ai_ml_service.Prelude.Texts.{Text}
use dataforge_ai_ml_service.Runs.Events.{
  ApplyAsset, action_plan, remediation_execution_report, prepared_dataset, synthetic_dataset,
  model_impact_report, export_package,
}
use dataforge_ai_ml_service.Runs.Launch.Outputs.{
  ApplyMaterialized, ApplyOutputs, take_candidate, take_named, take_event, take_events,
  first_outputs,
}

-- The export_package asset names a final candidate of that uri and that hash.
pub record IsFinal (uri hash : Text) (m : ApplyMaterialized) : Type 0 where
  pub asset : m.asset_name ≡ export_package
  pub uri_given : m.final_candidate_artifact_uri ≡ some uri
  pub hash_given : m.final_candidate_artifact_hash ≡ some hash

abbrev pub IsSurfaced : Text → Text → List ApplyMaterialized → Type 0
IsSurfaced uri hash [] = ⊥
IsSurfaced uri hash (m ∷ ms) = IsFinal uri hash m ⊎ IsSurfaced uri hash ms

-- A candidate that is named has a hash, and the two are such as `Q` says.
abbrev pub IsPaired : (Text → Text → Type 0) → ApplyOutputs → Type 0
IsPaired Q o =
    (uri : Text)
    → o.candidate_artifact_uri ≡ some uri
    → (hash : Text) × (o.candidate_artifact_hash ≡ some hash) × Q uri hash

module _ (Q : Text → Text → Type 0) (m : ApplyMaterialized)
    (named : (uri hash : Text) → IsFinal uri hash m → Q uri hash) where
  take_candidate-IsPaired :
      (uri hash : Option Text) (o : ApplyOutputs)
      → m.asset_name ≡ export_package
      → m.final_candidate_artifact_uri ≡ uri
      → m.final_candidate_artifact_hash ≡ hash
      → IsPaired Q o
      → IsPaired Q (take_candidate uri hash o)
  take_candidate-IsPaired none hash o asset e f paired = paired
  take_candidate-IsPaired (some uri) none o asset e f paired = paired
  take_candidate-IsPaired (some uri) (some hash) o asset e f paired = λ x same.
      (hash, refl, named x hash (record { asset = asset; uri_given = e ∙ same; hash_given = f }))

  take_named-IsPaired :
      (a : ApplyAsset) (o : ApplyOutputs)
      → m.asset_name ≡ a
      → IsPaired Q o
      → IsPaired Q (take_named a m o)
  take_named-IsPaired export_package o asset paired =
      take_candidate-IsPaired m.final_candidate_artifact_uri m.final_candidate_artifact_hash o asset
        refl refl paired
  take_named-IsPaired synthetic_dataset o asset paired = paired
  take_named-IsPaired model_impact_report o asset paired = paired
  take_named-IsPaired action_plan o asset paired = paired
  take_named-IsPaired remediation_execution_report o asset paired = paired
  take_named-IsPaired prepared_dataset o asset paired = paired

take_events-IsPaired :
    (Q : Text → Text → Type 0) (ms : List ApplyMaterialized) (o : ApplyOutputs)
    → ((uri hash : Text) → IsSurfaced uri hash ms → Q uri hash)
    → IsPaired Q o
    → IsPaired Q (take_events ms o)
unfolding take_events
take_events-IsPaired Q [] o all paired = paired
take_events-IsPaired Q (m ∷ ms) o all paired =
    take_events-IsPaired Q ms (take_event m o) (λ uri hash h. all uri hash (inr h))
      (take_named-IsPaired Q m (λ uri hash h. all uri hash (inl h)) m.asset_name o refl paired)

pub first_outputs-IsPaired :
    (ms : List ApplyMaterialized) (ids : List Text)
    → IsPaired (λ uri hash. IsSurfaced uri hash ms) (take_events ms (first_outputs ids))
first_outputs-IsPaired ms ids =
    take_events-IsPaired (λ uri hash. IsSurfaced uri hash ms) ms (first_outputs ids)
      (λ uri hash h. h) (λ uri h. cc h)
