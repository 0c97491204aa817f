-- ===== src/Plugins/Tests.antt =====
-- Runs of app/plugin_sdk/manifest.py, and its theorems at concrete inputs.
use dataforge_ai_ml_service.Prelude.{
  Bool, true, false, not, ◌&&◌, ◌||◌, some, List, [], ◌∷◌, String, ◌≡◌, ◌↔◌, refl, ok, raise, All,
}
use dataforge_ai_ml_service.Prelude.Dict
use dataforge_ai_ml_service.ErrorCode.{plugin_not_enabled, plugin_contract_failed}
use dataforge_ai_ml_service.Plugins.Manifest.{
  PluginReadiness, implemented, contract_ready, tabular, CapabilityDescriptor, PluginManifest,
  validate_manifest_safety,
}
use dataforge_ai_ml_service.Plugins.Registry.{
  CapabilityRegistry, capability_registry, capability_in, assert_can_execute, can_execute,
  summary_for_manifest,
}
use dataforge_ai_ml_service.Plugins.Registry.Lookup.{declared}
use dataforge_ai_ml_service.Plugins.Registry.Execution.{
  Permits, can_execute_iff, can_execute-safe, runs, summary-can_execute,
}

abbrev capability : String → Bool → CapabilityDescriptor
capability id egress = record {
  capability_id = id;
  name = id;
  task_types = "profile" ∷ [];
  modalities = tabular ∷ [];
  input_schema_refs = "in" ∷ [];
  output_schema_refs = "out" ∷ [];
  feeds = "core" ∷ [];
  enabled = true;
  compute_action = true;
  requires_gpu = false;
  requires_external_egress = egress;
}

abbrev plugin : String → PluginReadiness → Bool → PluginManifest
plugin id readiness egress = record {
  plugin_id = id;
  name = id;
  version = "0.1.0";
  owner = "core";
  readiness = readiness;
  enabled = true;
  capabilities = capability "profile" false ∷ capability "lookup" egress ∷ [];
  required_permissions = [];
  resource_requirements = record {
    cpu_cores = 1;
    memory_mb = 256;
    timeout_seconds = 60;
    requires_gpu = false;
  };
  runtime_policy = record {
    network_egress_allowed = egress;
    filesystem_read_scope = "in";
    filesystem_write_scope = "out";
    can_mutate_source_data = false;
    logs_may_include_raw_payloads = false;
  };
  deterministic = true;
}

abbrev installed : List PluginManifest
installed = plugin "tabular" implemented true ∷ plugin "gpu" contract_ready false ∷ []

abbrev registry : CapabilityRegistry
registry = record {
  manifests = installed;
  by_plugin_id =
      ("tabular", plugin "tabular" implemented true)
      ∷ ("gpu", plugin "gpu" contract_ready false)
      ∷ [];
}

built : capability_registry installed ≡ ok registry
unfolding capability_registry Dict.index_from Dict.put
built = refl

runs_lookup : can_execute registry "tabular" "lookup" ≡ true
unfolding can_execute Dict.get capability_in
runs_lookup = refl

found_tabular : declared installed "tabular" ≡ some (plugin "tabular" implemented true)
unfolding declared
found_tabular = refl

can_execute_iff_example :
    (can_execute registry "tabular" "lookup" ≡ true) ↔ Permits installed "tabular" "lookup"
can_execute_iff_example = can_execute_iff built "tabular" "lookup"

installed_safe : All (λ m. validate_manifest_safety m ≡ ok tt) installed
unfolding validate_manifest_safety
installed_safe = (refl, (refl, tt))

can_execute-safe_example :
    (m : PluginManifest) × (c : CapabilityDescriptor) × (declared installed "tabular" ≡ some m)
    × (capability_in m.capabilities "lookup" ≡ ok c)
    × ((not c.requires_external_egress || m.runtime_policy.network_egress_allowed) ≡ true)
    × (m.runtime_policy.can_mutate_source_data ≡ false)
    × (m.runtime_policy.logs_may_include_raw_payloads ≡ false)
can_execute-safe_example =
    can_execute-safe installed "tabular" "lookup" installed_safe built runs_lookup

summary-can_execute_example : can_execute registry "tabular" "lookup" ≡ (
    (summary_for_manifest (plugin "tabular" implemented true)).executable
    && runs (
        capability_in
          (summary_for_manifest (plugin "tabular" implemented true)).capabilities
          "lookup"))
summary-can_execute_example = summary-can_execute installed "tabular" "lookup" built found_tabular

refusals :
    (assert_can_execute registry "gpu" "profile"
      ≡ raise (record { code = plugin_not_enabled; reason_code = "contract_ready_only" }))
    × (assert_can_execute registry "absent" "profile"
        ≡ raise (record { code = plugin_not_enabled; reason_code = "plugin_not_allowlisted" }))
    × (assert_can_execute registry "tabular" "absent"
        ≡ raise (record { code = plugin_contract_failed; reason_code = "capability_not_declared" }))
unfolding assert_can_execute Dict.get capability_in
refusals = (refl, refl, refl)
