-- ===== src/Plugins/Registry.antt =====
-- CapabilityRegistry and PluginManager of app/plugin_sdk/manifest.py. The manager's methods are
-- calls of the registry's, so one definition stands for both.
pub mod Lookup
pub mod Execution
use dataforge_ai_ml_service.Prelude.{
  Bool, true, false, not, ◌&&◌, Option, none, some, List, [], ◌∷◌, String, if◌then◌else◌, Result,
  raise, ok, raise_if, ◌>>◌, ◌>>=◌, map, distinct, string_eq, ◌==◌,
}
use dataforge_ai_ml_service.Prelude.Dict
use dataforge_ai_ml_service.Prelude.Dict.{Dict}
use dataforge_ai_ml_service.ErrorCode.{ErrorCode, plugin_not_enabled, plugin_contract_failed}
use dataforge_ai_ml_service.Plugins.Manifest.{
  PluginReadiness, implemented, proof, contract_ready, CapabilityDescriptor, PluginManifest,
  ManifestError, plugin_ids_not_unique,
}

pub record PluginExecutionBlocked : Type 0 where
  pub code : ErrorCode
  pub reason_code : String

pub record CapabilityRegistry : Type 0 where
  pub manifests : List PluginManifest
  pub by_plugin_id : Dict String PluginManifest

-- `CapabilityRegistry.__init__`
unfoldable pub capability_registry : List PluginManifest → Result ManifestError CapabilityRegistry
capability_registry manifests = do
  raise_if (not (distinct (map (λ m. m.plugin_id) manifests))) plugin_ids_not_unique
  ok (record {
    manifests = manifests;
    by_plugin_id = Dict.index_from (λ m. m.plugin_id) [] manifests;
  })

-- `readiness is PluginReadiness.CONTRACT_READY`
abbrev pub is_contract_ready : PluginReadiness → Bool
is_contract_ready contract_ready = true
is_contract_ready implemented = false
is_contract_ready proof = false

abbrev pub found_manifest : Option PluginManifest → Result PluginExecutionBlocked PluginManifest
found_manifest (some m) = ok m
found_manifest none =
    raise (record { code = plugin_not_enabled; reason_code = "plugin_not_allowlisted" })

-- `CapabilityRegistry.manifest_for`
unfoldable pub manifest_for :
    CapabilityRegistry → String → Result PluginExecutionBlocked PluginManifest
manifest_for r plugin_id = found_manifest (Dict.get r.by_plugin_id plugin_id)

-- The loop of `_capability_for`
unfoldable pub capability_in :
    List CapabilityDescriptor → String → Result PluginExecutionBlocked CapabilityDescriptor
capability_in [] capability_id =
    raise (record { code = plugin_contract_failed; reason_code = "capability_not_declared" })
capability_in (c ∷ cs) capability_id =
    if c.capability_id == capability_id then ok c else capability_in cs capability_id

-- `_capability_for`
abbrev pub capability_for :
    PluginManifest → String → Result PluginExecutionBlocked CapabilityDescriptor
capability_for m = capability_in m.capabilities

-- `CapabilityRegistry.assert_can_execute`
unfoldable pub assert_can_execute :
    CapabilityRegistry → String → String → Result PluginExecutionBlocked (Unit {0})
unfolding manifest_for
assert_can_execute r plugin_id capability_id = do
  manifest ← manifest_for r plugin_id
  raise_if (not manifest.enabled)
      (record { code = plugin_not_enabled; reason_code = "plugin_disabled" })
  raise_if (is_contract_ready manifest.readiness)
      (record { code = plugin_not_enabled; reason_code = "contract_ready_only" })
  capability ← capability_for manifest capability_id
  raise_if (not capability.enabled)
      (record { code = plugin_not_enabled; reason_code = "capability_disabled" })
  raise_if (not capability.compute_action)
      (record { code = plugin_contract_failed; reason_code = "not_a_compute_action" })

abbrev pub succeeds {ℓ κ} : {E : Type ℓ} {A : Type κ} → Result E A → Bool
succeeds (ok a) = true
succeeds (raise x) = false

-- `CapabilityRegistry.can_execute`
unfoldable pub can_execute : CapabilityRegistry → String → String → Bool
unfolding assert_can_execute
can_execute r plugin_id capability_id = succeeds (assert_can_execute r plugin_id capability_id)

pub record CapabilitySummary : Type 0 where
  pub plugin_id : String
  pub name : String
  pub version : String
  pub readiness : PluginReadiness
  pub enabled : Bool
  pub executable : Bool
  pub blocked_reason : Option String
  pub capabilities : List CapabilityDescriptor

-- `_summary_for_manifest`
unfoldable pub summary_for_manifest : PluginManifest → CapabilitySummary
summary_for_manifest m = record {
  plugin_id = m.plugin_id;
  name = m.name;
  version = m.version;
  readiness = m.readiness;
  enabled = m.enabled;
  executable = m.enabled && not (is_contract_ready m.readiness);
  blocked_reason =
      if not m.enabled
      then some "plugin_disabled"
      else if is_contract_ready m.readiness
      then some "contract_ready_only"
      else none;
  capabilities = m.capabilities;
}

-- `CapabilityRegistry.capabilities`
unfoldable pub capabilities : CapabilityRegistry → List CapabilitySummary
unfolding summary_for_manifest
capabilities r = map summary_for_manifest r.manifests
