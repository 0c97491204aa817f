-- ===== src/Idempotency/Invariance.antt =====
-- When two runs have the same key, by app/kernel/idempotency.py.
use mathlib.Core.List.{Perm}
use dataforge_ai_ml_service.Prelude.{true, nat_eq, list_eq, distinct, ◌≡◌, ◌↔◌, ap}
use dataforge_ai_ml_service.Prelude.Dict.{keys}
use dataforge_ai_ml_service.Prelude.Sorting.{nat_order, list_order}
use dataforge_ai_ml_service.Prelude.Texts.{Text}
use dataforge_ai_ml_service.Json.{Json}
use dataforge_ai_ml_service.Idempotency.{
  AnalyzeIdempotencyInputs, ApplyIdempotencyInputs, footprint_order, analyze_payload, apply_payload,
  compute_analyze_idempotency_key, compute_apply_idempotency_key,
}
use dataforge_ai_ml_service.Idempotency.Canonical.{
  SameHashes, SamePolicies, hashes_iff, versions_iff, texts_injective, ordered_dict_iff,
}

-- Two runs of ANALYZE_ONLY on the same scope, hashes, configuration and plugins.
pub record IsSameAnalyze (i j : AnalyzeIdempotencyInputs) : Type 0 where
  pub same_organization : i.organization_id ≡ j.organization_id
  pub same_project : i.project_id ≡ j.project_id
  pub same_dataset : i.dataset_id ≡ j.dataset_id
  pub same_version : i.dataset_version_id ≡ j.dataset_version_id
  pub same_inputs : SameHashes i.input_artifact_hashes j.input_artifact_hashes
  pub same_predictions : SameHashes i.prediction_artifact_hashes j.prediction_artifact_hashes
  pub same_config : i.config_hash ≡ j.config_hash
  pub same_pack : i.contract_pack_version ≡ j.contract_pack_version
  pub same_plugins : Perm i.plugin_versions j.plugin_versions

-- Two runs of APPLY_SELECTED_ACTIONS by the same plan, from the same version and the same inputs.
pub record IsSameApply (i j : ApplyIdempotencyInputs) : Type 0 where
  pub same_organization : i.organization_id ≡ j.organization_id
  pub same_project : i.project_id ≡ j.project_id
  pub same_dataset : i.dataset_id ≡ j.dataset_id
  pub same_version : i.source_dataset_version_id ≡ j.source_dataset_version_id
  pub same_name : i.proposed_version_name ≡ j.proposed_version_name
  pub same_plan : i.action_plan_hash ≡ j.action_plan_hash
  pub same_inputs : SameHashes i.input_artifact_hashes j.input_artifact_hashes
  pub same_predictions : SameHashes i.prediction_artifact_hashes j.prediction_artifact_hashes
  pub same_config : i.config_hash ≡ j.config_hash
  pub same_pack : i.contract_pack_version ≡ j.contract_pack_version
  pub same_policies : SamePolicies i.policy_versions j.policy_versions
  pub same_steps : i.step_idempotency_keys ≡ j.step_idempotency_keys
  pub same_plugins : Perm i.plugin_versions j.plugin_versions

analyze_payload_iff :
    (i j : AnalyzeIdempotencyInputs) → (analyze_payload i ≡ analyze_payload j) ↔ IsSameAnalyze i j
unfolding analyze_payload
analyze_payload_iff i j = (
  λ h. record {
    same_organization = cc h;
    same_project = cc h;
    same_dataset = cc h;
    same_version = cc h;
    same_inputs = (hashes_iff i.input_artifact_hashes j.input_artifact_hashes).0 (cc h);
    same_predictions =
        (hashes_iff i.prediction_artifact_hashes j.prediction_artifact_hashes).0 (cc h);
    same_config = cc h;
    same_pack = cc h;
    same_plugins = (versions_iff i.plugin_versions j.plugin_versions).0 (cc h);
  },
  λ s.
      let e₁ = s.same_organization in
      let e₂ = s.same_project in
      let e₃ = s.same_dataset in
      let e₄ = s.same_version in
      let e₅ = s.same_config in
      let e₆ = s.same_pack in
      let inputs = (hashes_iff i.input_artifact_hashes j.input_artifact_hashes).1 s.same_inputs in
      let predictions =
        (hashes_iff i.prediction_artifact_hashes j.prediction_artifact_hashes).1
          s.same_predictions in
      let plugins = (versions_iff i.plugin_versions j.plugin_versions).1 s.same_plugins in cc,
)

apply_payload_iff :
    (i j : ApplyIdempotencyInputs)
    → distinct (keys i.policy_versions) ≡ true
    → distinct (keys j.policy_versions) ≡ true
    → (apply_payload i ≡ apply_payload j) ↔ IsSameApply i j
unfolding apply_payload
apply_payload_iff i j u u' = (
  λ h. record {
    same_organization = cc h;
    same_project = cc h;
    same_dataset = cc h;
    same_version = cc h;
    same_name = cc h;
    same_plan = cc h;
    same_inputs = (hashes_iff i.input_artifact_hashes j.input_artifact_hashes).0 (cc h);
    same_predictions =
        (hashes_iff i.prediction_artifact_hashes j.prediction_artifact_hashes).0 (cc h);
    same_config = cc h;
    same_pack = cc h;
    same_policies = (ordered_dict_iff i.policy_versions j.policy_versions u u').0 (cc h);
    same_steps = texts_injective i.step_idempotency_keys j.step_idempotency_keys (cc h);
    same_plugins = (versions_iff i.plugin_versions j.plugin_versions).0 (cc h);
  },
  λ s.
      let e₁ = s.same_organization in
      let e₂ = s.same_project in
      let e₃ = s.same_dataset in
      let e₄ = s.same_version in
      let e₅ = s.same_config in
      let e₆ = s.same_pack in
      let e₇ = s.same_name in
      let e₈ = s.same_plan in
      let e₉ = s.same_steps in
      let inputs = (hashes_iff i.input_artifact_hashes j.input_artifact_hashes).1 s.same_inputs in
      let predictions =
        (hashes_iff i.prediction_artifact_hashes j.prediction_artifact_hashes).1
          s.same_predictions in
      let policies =
        (ordered_dict_iff i.policy_versions j.policy_versions u u').1 s.same_policies in
      let plugins = (versions_iff i.plugin_versions j.plugin_versions).1 s.same_plugins in cc,
)

module _ (digest : Json → Text) where
  -- Two analyze runs have the same key exactly if they agree on their scope, configuration and
  -- contract pack, on the sets of their non-empty hashes, and on their plugins in any order; given
  -- that the digest does not collide on their two payloads.
  pub compute_analyze_idempotency_key_iff :
      (i j : AnalyzeIdempotencyInputs)
      → (digest (analyze_payload i) ≡ digest (analyze_payload j)
          → analyze_payload i ≡ analyze_payload j)
      → (compute_analyze_idempotency_key digest i ≡ compute_analyze_idempotency_key digest j)
        ↔ IsSameAnalyze i j
  unfolding compute_analyze_idempotency_key
  compute_analyze_idempotency_key_iff i j no_collision = (
    λ h. (analyze_payload_iff i j).0 (no_collision h),
    λ s. ap digest ((analyze_payload_iff i j).1 s),
  )

  -- Two apply runs have the same key exactly if they agree on their scope, plan, configuration,
  -- contract pack and step keys in their order, on the sets of their non-empty hashes, on the
  -- policy version under each name, and on their plugins in any order; given that no policy is
  -- named twice in either, and that the digest does not collide on their two payloads.
  pub compute_apply_idempotency_key_iff :
      (i j : ApplyIdempotencyInputs)
      → distinct (keys i.policy_versions) ≡ true
      → distinct (keys j.policy_versions) ≡ true
      → (digest (apply_payload i) ≡ digest (apply_payload j) → apply_payload i ≡ apply_payload j)
      → (compute_apply_idempotency_key digest i ≡ compute_apply_idempotency_key digest j)
        ↔ IsSameApply i j
  unfolding compute_apply_idempotency_key
  compute_apply_idempotency_key_iff i j u u' no_collision = (
    λ h. (apply_payload_iff i j u u').0 (no_collision h),
    λ s. ap digest ((apply_payload_iff i j u u').1 s),
  )
