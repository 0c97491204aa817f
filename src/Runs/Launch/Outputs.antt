-- ===== src/Runs/Launch/Outputs.antt =====
-- The outputs that `launch_apply_actions_workflow` of app/orchestration/apply_workflow.py gathers
-- from its assets.
use dataforge_ai_ml_service.Prelude.{
  Option, none, some, List, [], ◌∷◌, if◌then◌else◌, nat_eq, list_eq, ◌==◌,
}
use dataforge_ai_ml_service.Prelude.Texts.{Text, codes}
use dataforge_ai_ml_service.Runs.Events.{
  ApplyAsset, action_plan, remediation_execution_report, prepared_dataset, synthetic_dataset,
  model_impact_report, export_package,
}

-- A materialization event, with the texts in its metadata that the launcher reads
pub record ApplyMaterialized : Type 0 where
  pub asset_name : ApplyAsset
  pub artifact_uri : Option Text
  pub asset_status : Option Text
  pub final_candidate_artifact_uri : Option Text
  pub final_candidate_artifact_hash : Option Text
  pub final_export_package_uri : Option Text

-- What the loop over the materialization events gathers
pub record ApplyOutputs : Type 0 where
  pub candidate_artifact_uri : Option Text
  pub candidate_artifact_hash : Option Text
  pub synthetic_artifact_uri : Option Text
  pub synthetic_status : Text
  pub model_impact_artifact_uri : Option Text
  pub export_package_artifact_uri : Option Text

abbrev pub or_kept : Option Text → Option Text → Option Text
or_kept none kept = kept
or_kept (some text) kept = some text

abbrev pub if_materialized : Text → Option Text → Option Text → Option Text
if_materialized status uri kept = if status == codes "materialized" then or_kept uri kept else kept

abbrev pub take_synthetic : ApplyMaterialized → ApplyOutputs → ApplyOutputs
take_synthetic m o =
    let status = or_kept_status m.asset_status o.synthetic_status in
    record o {
      synthetic_status = status;
      synthetic_artifact_uri = if_materialized status m.artifact_uri o.synthetic_artifact_uri;
    }
  where
    or_kept_status : Option Text → Text → Text
    or_kept_status none kept = kept
    or_kept_status (some status) kept = status

-- The candidate is taken if both its uri and its hash are there.
abbrev pub take_candidate : Option Text → Option Text → ApplyOutputs → ApplyOutputs
take_candidate (some uri) (some hash) o = record o {
  candidate_artifact_uri = some uri;
  candidate_artifact_hash = some hash;
}
take_candidate (some uri) none o = o
take_candidate none hash o = o

abbrev pub take_export : ApplyMaterialized → ApplyOutputs → ApplyOutputs
take_export m o =
    let o' = take_candidate m.final_candidate_artifact_uri m.final_candidate_artifact_hash o in
    record o' {
      export_package_artifact_uri =
          or_kept m.final_export_package_uri o'.export_package_artifact_uri;
    }

abbrev pub take_named : ApplyAsset → ApplyMaterialized → ApplyOutputs → ApplyOutputs
take_named synthetic_dataset m o = take_synthetic m o
take_named model_impact_report m o = record o {
  model_impact_artifact_uri = or_kept m.artifact_uri o.model_impact_artifact_uri;
}
take_named export_package m o = take_export m o
take_named action_plan m o = o
take_named remediation_execution_report m o = o
take_named prepared_dataset m o = o

-- One round of the loop over the materialization events
abbrev pub take_event : ApplyMaterialized → ApplyOutputs → ApplyOutputs
take_event m o = take_named m.asset_name m o

unfoldable pub take_events : List ApplyMaterialized → ApplyOutputs → ApplyOutputs
take_events [] o = o
take_events (m ∷ ms) o = take_events ms (take_event m o)

abbrev pub first_outputs : List Text → ApplyOutputs
first_outputs step_ids = record {
  candidate_artifact_uri = none;
  candidate_artifact_hash = none;
  synthetic_artifact_uri = none;
  synthetic_status = first_status step_ids;
  model_impact_artifact_uri = none;
  export_package_artifact_uri = none;
}
  where
    first_status : List Text → Text
    first_status [] = codes "not_applicable"
    first_status (id ∷ ids) = codes "pending"
