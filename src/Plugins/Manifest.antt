-- ===== src/Plugins/Manifest.antt =====
-- The plugin manifests of app/plugin_sdk/manifest.py, and their safety validator. The bounds that
-- pydantic checks on single fields are not modelled.
use dataforge_ai_ml_service.Prelude.{
  ℕ, Bool, not, ◌&&◌, List, String, Result, raise_if, ◌>>◌, any, map, distinct, string_eq,
}

pub data PluginReadiness : Type 0 where
  implemented proof contract_ready : PluginReadiness

pub data DataModality : Type 0 where
  tabular text image video audio document_ocr multimodal : DataModality

pub record CapabilityDescriptor : Type 0 where
  pub capability_id : String
  pub name : String
  pub task_types : List String
  pub modalities : List DataModality
  pub input_schema_refs : List String
  pub output_schema_refs : List String
  pub feeds : List String
  pub enabled : Bool
  pub compute_action : Bool
  pub requires_gpu : Bool
  pub requires_external_egress : Bool

pub record ResourceRequirements : Type 0 where
  pub cpu_cores : ℕ
  pub memory_mb : ℕ
  pub timeout_seconds : ℕ
  pub requires_gpu : Bool

pub record PluginRuntimePolicy : Type 0 where
  pub network_egress_allowed : Bool
  pub filesystem_read_scope : String
  pub filesystem_write_scope : String
  pub can_mutate_source_data : Bool
  pub logs_may_include_raw_payloads : Bool

pub record PluginManifest : Type 0 where
  pub plugin_id : String
  pub name : String
  pub version : String
  pub owner : String
  pub readiness : PluginReadiness
  pub enabled : Bool
  pub capabilities : List CapabilityDescriptor
  pub required_permissions : List String
  pub resource_requirements : ResourceRequirements
  pub runtime_policy : PluginRuntimePolicy
  pub deterministic : Bool

-- The texts of the `ValueError`s.
pub data ManifestError : Type 0 where
  capability_ids_not_unique mutates_source_data logs_raw_payloads : ManifestError
  egress_without_policy plugin_ids_not_unique : ManifestError

-- `PluginManifest.validate_manifest_safety`
unfoldable pub validate_manifest_safety : PluginManifest → Result ManifestError (Unit {0})
validate_manifest_safety m = do
  raise_if (not (distinct (map (λ c. c.capability_id) m.capabilities))) capability_ids_not_unique
  raise_if m.runtime_policy.can_mutate_source_data mutates_source_data
  raise_if m.runtime_policy.logs_may_include_raw_payloads logs_raw_payloads
  raise_if
      (any (λ c. c.requires_external_egress) m.capabilities
        && not m.runtime_policy.network_egress_allowed)
      egress_without_policy
