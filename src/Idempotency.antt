-- ===== src/Idempotency.antt =====
-- The keys by which a run is told from a rerun: app/kernel/idempotency.py.
pub mod Canonical
pub mod Invariance
mod Tests
use dataforge_ai_ml_service.Prelude.{
  ℕ, Bool, true, false, not, Option, none, some, List, [], ◌∷◌, map, keep, ordered_unique, nat_eq,
  ◌≡◌, list_eq, arith, if◌then◌else◌,
}
use dataforge_ai_ml_service.Prelude.Dict
use dataforge_ai_ml_service.Prelude.Dict.{Dict, keys}
use dataforge_ai_ml_service.Prelude.Sorting.{
  Order, sorted, nat_order, list_order, lex_le, lex_total, lex_trans, lex_antisymm,
}
use dataforge_ai_ml_service.Prelude.Texts.{Text, codes}
use dataforge_ai_ml_service.Json.{Json, str, arr, obj, Items, nil, cons, Fields, end, field, texts}
use dataforge_ai_ml_service.ActionPlan.Model.{ActionPlan}

pub record PluginVersionFootprint : Type 0 where
  pub plugin_id : Text
  pub plugin_version : Text
  pub algorithm_name : Text
  pub algorithm_version : Text

pub record AnalyzeIdempotencyInputs : Type 0 where
  pub organization_id : Text
  pub project_id : Text
  pub dataset_id : Text
  pub dataset_version_id : Text
  pub input_artifact_hashes : List Text
  pub prediction_artifact_hashes : List Text
  pub config_hash : Text
  pub contract_pack_version : Text
  pub plugin_versions : List PluginVersionFootprint

pub record ApplyIdempotencyInputs : Type 0 where
  pub organization_id : Text
  pub project_id : Text
  pub dataset_id : Text
  pub source_dataset_version_id : Text
  pub proposed_version_name : Text
  pub action_plan_hash : Text
  pub input_artifact_hashes : List Text
  pub prediction_artifact_hashes : List Text
  pub config_hash : Text
  pub contract_pack_version : Text
  pub policy_versions : Dict Text Text
  pub step_idempotency_keys : List Text
  pub plugin_versions : List PluginVersionFootprint

abbrev pub is_not_empty : Text → Bool
is_not_empty [] = false
is_not_empty (c ∷ text) = true

-- `_sorted_unique`: the order in which a set is walked does not matter to `sorted`.
unfoldable pub sorted_unique : List Text → List Text
sorted_unique values = sorted (ordered_unique (keep is_not_empty values))

-- The sort key of a footprint, its fields in the order of the code.
abbrev pub footprint_key : PluginVersionFootprint → List Text
footprint_key f = f.plugin_id ∷ f.algorithm_name ∷ f.plugin_version ∷ f.algorithm_version ∷ []

pub footprint_key_injective :
    (f g : PluginVersionFootprint) → footprint_key f ≡ footprint_key g → f ≡ g
footprint_key_injective f g h = ground arith

instance abbrev pub footprint_order : Order PluginVersionFootprint
footprint_order = record {
  le = λ f g. lex_le (footprint_key f) (footprint_key g);
  le_total = λ f g. lex_total (footprint_key f) (footprint_key g);
  le_trans = λ f g h. lex_trans (footprint_key f) (footprint_key g) (footprint_key h);
  le_antisymm =
      λ f g p q. footprint_key_injective f g (lex_antisymm (footprint_key f) (footprint_key g) p q);
}

abbrev pub footprint_json : PluginVersionFootprint → Json
footprint_json f = obj (
    field (codes "plugin_id") (str f.plugin_id) (
      field (codes "plugin_version") (str f.plugin_version) (
        field (codes "algorithm_name") (str f.algorithm_name)
          (field (codes "algorithm_version") (str f.algorithm_version) end))))

abbrev pub footprint_items : List PluginVersionFootprint → Items
footprint_items [] = nil
footprint_items (f ∷ fs) = cons (footprint_json f) (footprint_items fs)

-- `_normalize_plugin_versions`
unfoldable pub normalize_plugin_versions : List PluginVersionFootprint → List PluginVersionFootprint
normalize_plugin_versions fs = sorted fs

abbrev pub entries_of : Dict Text Text → List Text → Fields
entries_of d [] = end
entries_of d (k ∷ ks) = elim (Dict.get d k) [
  | none ↦ entries_of d ks
  | some v ↦ field k (str v) (entries_of d ks)
]

-- `_ordered_dict`
unfoldable pub ordered_dict : Dict Text Text → Fields
ordered_dict d = entries_of d (sorted (keys d))

abbrev pub hashes : List Text → Json
hashes values = arr (texts (sorted_unique values))

abbrev pub versions : List PluginVersionFootprint → Json
versions fs = arr (footprint_items (normalize_plugin_versions fs))

-- The payload of `compute_analyze_idempotency_key`
unfoldable pub analyze_payload : AnalyzeIdempotencyInputs → Json
analyze_payload i = obj (
    field (codes "workflow") (str (codes "ANALYZE_ONLY")) (
      field (codes "scope")
        (obj (
          field (codes "organization_id") (str i.organization_id) (
            field (codes "project_id") (str i.project_id) (
              field (codes "dataset_id") (str i.dataset_id)
                (field (codes "dataset_version_id") (str i.dataset_version_id) end)))))
        (field (codes "input_artifact_hashes") (hashes i.input_artifact_hashes) (
          field (codes "prediction_artifact_hashes") (hashes i.prediction_artifact_hashes) (
            field (codes "config_hash") (str i.config_hash) (
              field (codes "contract_pack_version") (str i.contract_pack_version)
                (field (codes "plugin_versions") (versions i.plugin_versions) end)))))))

-- The payload of `compute_apply_idempotency_key`
unfoldable pub apply_payload : ApplyIdempotencyInputs → Json
apply_payload i = obj (
    field (codes "workflow") (str (codes "APPLY_SELECTED_ACTIONS")) (
      field (codes "scope")
        (obj (
          field (codes "organization_id") (str i.organization_id) (
            field (codes "project_id") (str i.project_id) (
              field (codes "dataset_id") (str i.dataset_id) (
                field (codes "source_dataset_version_id") (str i.source_dataset_version_id)
                  (field (codes "proposed_version_name") (str i.proposed_version_name) end))))))
        (field (codes "action_plan_hash") (str i.action_plan_hash) (
          field (codes "input_artifact_hashes") (hashes i.input_artifact_hashes) (
            field (codes "prediction_artifact_hashes") (hashes i.prediction_artifact_hashes) (
              field (codes "config_hash") (str i.config_hash) (
                field (codes "contract_pack_version") (str i.contract_pack_version) (
                  field (codes "policy_versions") (obj (ordered_dict i.policy_versions)) (
                    field (codes "step_idempotency_keys") (arr (texts i.step_idempotency_keys))
                      (field (codes "plugin_versions") (versions i.plugin_versions) end))))))))))

-- `_digest`: the digest of the payload, its JSON with sorted keys.
module _ (digest : Json → Text) where
  unfoldable pub compute_analyze_idempotency_key : AnalyzeIdempotencyInputs → Text
  compute_analyze_idempotency_key i = digest (analyze_payload i)

  unfoldable pub compute_apply_idempotency_key : ApplyIdempotencyInputs → Text
  compute_apply_idempotency_key i = digest (apply_payload i)

-- `collect_artifact_hashes`, of the hashes of the refs
unfoldable pub collect_artifact_hashes : List Text → List Text
unfolding sorted_unique
collect_artifact_hashes hs = sorted_unique hs

-- `plugin_footprints_from_action_plan`
unfoldable pub plugin_footprints_from_action_plan : ActionPlan → List PluginVersionFootprint
plugin_footprints_from_action_plan plan =
    map
      (λ s. record {
        plugin_id = s.plugin_id;
        plugin_version = s.plugin_version;
        algorithm_name = s.method_id;
        algorithm_version = s.plugin_version;
      })
      plan.steps
