-- ===== src/Plugins/Registry/Execution.antt =====
-- When a capability may run, by app/plugin_sdk/manifest.py.
use dataforge_ai_ml_service.Prelude.{
  Bool, true, false, not, ◌&&◌, ◌||◌, some, List, [], ◌∷◌, String, Result, raise, ok, any,
  string_eq, ◌==◌, ◌≡◌, ◌↔◌, arith, Result-cases, Option-cases, inl, inr, All, Bool-cases,
}
use mathlib.Core.Path.{subst}
use dataforge_ai_ml_service.Plugins.Manifest.{
  CapabilityDescriptor, PluginManifest, validate_manifest_safety,
}
use dataforge_ai_ml_service.Plugins.Registry.{
  PluginExecutionBlocked, CapabilityRegistry, capability_registry, is_contract_ready, capability_in,
  can_execute, summary_for_manifest,
}
use dataforge_ai_ml_service.Plugins.Registry.Lookup.{declared, get-capability_registry}

-- What lets a capability of a plugin run: an allowlisted, enabled plugin that is more than a
-- contract, and in it an enabled compute action, the first of its id.
pub record Permits (ms : List PluginManifest) (plugin_id capability_id : String) : Type 0 where
  pub manifest : PluginManifest
  pub allowlisted : declared ms plugin_id ≡ some manifest
  pub plugin_enabled : manifest.enabled ≡ true
  pub ready : is_contract_ready manifest.readiness ≡ false
  pub capability : CapabilityDescriptor
  pub offered : capability_in manifest.capabilities capability_id ≡ ok capability
  pub capability_enabled : capability.enabled ≡ true
  pub computes : capability.compute_action ≡ true

module _ {ms : List PluginManifest} {r : CapabilityRegistry} (built : capability_registry ms ≡ ok r)
    (plugin_id capability_id : String) where
  can_execute-Permits :
      can_execute r plugin_id capability_id ≡ true → Permits ms plugin_id capability_id
  unfolding can_execute
  can_execute-Permits h =
      let (found, _) = get-capability_registry ms plugin_id built in
      elim (Option-cases (declared ms plugin_id)) [
        | inl missing ↦ ground (arith, found)
        | inr (m, there) ↦ elim (Result-cases (capability_in m.capabilities capability_id)) [
          | inr (x, absent) ↦ ground (arith, found)
          | inl (c, offered) ↦ record {
            manifest = m;
            allowlisted = there;
            plugin_enabled = ground (arith, found);
            ready = ground (arith, found);
            capability = c;
            offered = offered;
            capability_enabled = ground (arith, found);
            computes = ground (arith, found);
          }
        ]
      ]

  Permits-can_execute :
      Permits ms plugin_id capability_id → can_execute r plugin_id capability_id ≡ true
  unfolding can_execute
  Permits-can_execute p =
      let (found, _) = get-capability_registry ms plugin_id built in ground (arith, found)

  -- `can_execute` answers yes exactly for what `Permits` describes.
  pub can_execute_iff :
      (can_execute r plugin_id capability_id ≡ true) ↔ Permits ms plugin_id capability_id
  can_execute_iff = (can_execute-Permits, Permits-can_execute)

-- The capability that is found carries the id that was asked for, and egress of it is egress of
-- one.
capability_in-egress :
    (cs : List CapabilityDescriptor) (id : String) {c : CapabilityDescriptor}
    → capability_in cs id ≡ ok c
    → c.requires_external_egress ≡ true
    → any (λ d. d.requires_external_egress) cs ≡ true
unfolding capability_in
capability_in-egress [] id h e = ground arith
capability_in-egress (d ∷ cs) id {c} h e = ground (arith, capability_in-egress cs id {c = c})

declared-All {κ} :
    (P : PluginManifest → Type κ) (ms : List PluginManifest) (id : String) {m : PluginManifest}
    → All P ms
    → declared ms id ≡ some m
    → P m
unfolding declared
declared-All P [] id a h = cc
declared-All P (x ∷ ms) id a h = elim (Bool-cases (x.plugin_id == id)) [
  | inl this ↦ subst P (ground arith) a.0
  | inr other ↦ declared-All P ms id a.1 (ground arith)
]

validate_manifest_safety_guards :
    (m : PluginManifest)
    → validate_manifest_safety m ≡ ok tt
    → (m.runtime_policy.can_mutate_source_data ≡ false)
      × (m.runtime_policy.logs_may_include_raw_payloads ≡ false)
      × ((not (any (λ c. c.requires_external_egress) m.capabilities)
            || m.runtime_policy.network_egress_allowed)
          ≡ true)
unfolding validate_manifest_safety
validate_manifest_safety_guards m h = ground arith

-- Where every manifest passed its validator, a capability that runs and that reaches out of the
-- network boundary belongs to a plugin whose runtime policy allows egress, and no plugin whose
-- capability runs may change source data or log raw payloads.
pub can_execute-safe :
    (ms : List PluginManifest) {r : CapabilityRegistry} (plugin_id capability_id : String)
    → All (λ m. validate_manifest_safety m ≡ ok tt) ms
    → capability_registry ms ≡ ok r
    → can_execute r plugin_id capability_id ≡ true
    → (m : PluginManifest) × (c : CapabilityDescriptor) × (declared ms plugin_id ≡ some m)
      × (capability_in m.capabilities capability_id ≡ ok c)
      × ((not c.requires_external_egress || m.runtime_policy.network_egress_allowed) ≡ true)
      × (m.runtime_policy.can_mutate_source_data ≡ false)
      × (m.runtime_policy.logs_may_include_raw_payloads ≡ false)
can_execute-safe ms plugin_id capability_id valid built allowed =
    let p = can_execute-Permits built plugin_id capability_id allowed in
    let m = p.manifest in
    let safe =
      declared-All (λ m. validate_manifest_safety m ≡ ok tt) ms plugin_id valid p.allowlisted in
    let (unmutated, unlogged, egress) = validate_manifest_safety_guards m safe in
    (
      m,
      p.capability,
      p.allowlisted,
      p.offered,
      ground (
        arith,
        egress,
        capability_in-egress m.capabilities capability_id {c = p.capability} p.offered,
      ),
      unmutated,
      unlogged,
    )

abbrev pub runs : Result PluginExecutionBlocked CapabilityDescriptor → Bool
runs (ok c) = c.enabled && c.compute_action
runs (raise x) = false

-- The summary that the API shows of a plugin agrees with what is enforced: where it says that the
-- plugin is not executable no capability of the plugin runs, and where it says that it is, exactly
-- the enabled compute actions that the plugin declares run.
pub summary-can_execute :
    (ms : List PluginManifest) {r : CapabilityRegistry} (plugin_id capability_id : String)
    {m : PluginManifest}
    → capability_registry ms ≡ ok r
    → declared ms plugin_id ≡ some m
    → can_execute r plugin_id capability_id ≡ (
        (summary_for_manifest m).executable
        && runs (capability_in (summary_for_manifest m).capabilities capability_id))
unfolding can_execute summary_for_manifest
summary-can_execute ms plugin_id capability_id built there =
    let (found, _) = get-capability_registry ms plugin_id built in ground (arith, found)
