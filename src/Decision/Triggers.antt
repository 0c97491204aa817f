-- ===== src/Decision/Triggers.antt =====
-- What triggers a hard gate of app/kernel/decision_policy.py.
use dataforge_ai_ml_service.Prelude.{
  either_iff, Bool, true, List, [], ◌∷◌, any, string_eq, ◌==◌, ◌≡◌, ◌↔◌, ◌⊎◌, inl, inr, refl,
}
use dataforge_ai_ml_service.ActionPlan.Model.{
  MethodCandidateStatus, PolicyStatus, enabled, disabled_by_policy, disabled_by_readiness, blocked,
  recommended, available,
}
use dataforge_ai_ml_service.Decision.{
  HardGateId, PolicyInputEnvelope, gate_triggered, off_by_policy, off_by_readiness, pii_unmasked,
  target_column_missing, split_leakage, external_api_raw_pii, target_leakage_candidate,
  business_rule_failure, plugin_disabled, method_disabled_by_policy, method_disabled_by_readiness,
}

-- Some element of the list is such.
abbrev pub Some : {A : Type 0} → (A → Type 0) → List A → Type 0
Some P [] = ⊥
Some P (x ∷ xs) = P x ⊎ Some P xs

-- What triggers a gate
abbrev pub Triggers : PolicyInputEnvelope → HardGateId → Type 0
Triggers i pii_unmasked =
    (i.risk_profile "pii_unmasked" ≡ true) ⊎ (i.normalized_dataset_profile "pii_unmasked" ≡ true)
Triggers i target_column_missing = i.normalized_dataset_profile "target_column_missing" ≡ true
Triggers i split_leakage = i.split_leakage_report "split_leakage" ≡ true
Triggers i external_api_raw_pii = i.risk_profile "external_api_raw_pii" ≡ true
Triggers i target_leakage_candidate = i.normalized_dataset_profile "target_leakage_candidate" ≡ true
Triggers i business_rule_failure = i.normalized_dataset_profile "business_rule_failure" ≡ true
Triggers i plugin_disabled = Some (λ (plugin, status). status ≡ "disabled") i.plugin_readiness
Triggers i method_disabled_by_policy =
    Some (λ m. (m.policy_status ≡ disabled_by_policy) ⊎ (m.status ≡ disabled_by_policy))
      i.method_availability
Triggers i method_disabled_by_readiness =
    Some (λ m. (m.policy_status ≡ disabled_by_readiness) ⊎ (m.status ≡ disabled_by_readiness))
      i.method_availability

any_iff :
    {A : Type 0} (p : A → Bool) (P : A → Type 0)
    → ((x : A) → (p x ≡ true) ↔ P x)
    → (xs : List A) → (any p xs ≡ true) ↔ Some P xs
any_iff p P h [] = (λ e. cc e, λ e. absurd e)
any_iff p P h (x ∷ xs) = either_iff (h x) (any_iff p P h xs)

right_of : {a : Bool} {A B : Type 0} → ¬ A → (a ≡ true) ↔ B → (a ≡ true) ↔ (A ⊎ B)
right_of never f = (λ e. inr (f.0 e), λ x. elim x [ inl y ↦ absurd (never y) | inr y ↦ f.1 y ])

off_by_policy_status :
    (status : MethodCandidateStatus)
    → (off_by_policy (record { status = status; policy_status = enabled }) ≡ true)
      ↔ (status ≡ disabled_by_policy)
off_by_policy_status recommended = (λ e. cc e, λ e. cc e)
off_by_policy_status available = (λ e. cc e, λ e. cc e)
off_by_policy_status disabled_by_policy = (λ e. refl, λ e. refl)
off_by_policy_status disabled_by_readiness = (λ e. cc e, λ e. cc e)
off_by_policy_status blocked = (λ e. cc e, λ e. cc e)

off_by_policy_iff :
    (status : MethodCandidateStatus) (policy_status : PolicyStatus)
    → (off_by_policy (record { status = status; policy_status = policy_status }) ≡ true)
      ↔ ((policy_status ≡ disabled_by_policy) ⊎ (status ≡ disabled_by_policy))
off_by_policy_iff status enabled = right_of (λ e. cc e) (off_by_policy_status status)
off_by_policy_iff status disabled_by_policy = (λ e. inl refl, λ x. refl)
off_by_policy_iff status disabled_by_readiness = right_of (λ e. cc e) (off_by_policy_status status)
off_by_policy_iff status blocked = right_of (λ e. cc e) (off_by_policy_status status)

off_by_readiness_status :
    (status : MethodCandidateStatus)
    → (off_by_readiness (record { status = status; policy_status = enabled }) ≡ true)
      ↔ (status ≡ disabled_by_readiness)
off_by_readiness_status recommended = (λ e. cc e, λ e. cc e)
off_by_readiness_status available = (λ e. cc e, λ e. cc e)
off_by_readiness_status disabled_by_policy = (λ e. cc e, λ e. cc e)
off_by_readiness_status disabled_by_readiness = (λ e. refl, λ e. refl)
off_by_readiness_status blocked = (λ e. cc e, λ e. cc e)

off_by_readiness_iff :
    (status : MethodCandidateStatus) (policy_status : PolicyStatus)
    → (off_by_readiness (record { status = status; policy_status = policy_status }) ≡ true)
      ↔ ((policy_status ≡ disabled_by_readiness) ⊎ (status ≡ disabled_by_readiness))
off_by_readiness_iff status enabled = right_of (λ e. cc e) (off_by_readiness_status status)
off_by_readiness_iff status disabled_by_policy =
    right_of (λ e. cc e) (off_by_readiness_status status)
off_by_readiness_iff status disabled_by_readiness = (λ e. inl refl, λ x. refl)
off_by_readiness_iff status blocked = right_of (λ e. cc e) (off_by_readiness_status status)

-- A gate is triggered exactly by what belongs to it.
pub gate_triggered_iff :
    (i : PolicyInputEnvelope) (id : HardGateId) → (gate_triggered id i ≡ true) ↔ Triggers i id
unfolding gate_triggered
gate_triggered_iff i pii_unmasked = either_iff (λ e. e, λ e. e) (λ e. e, λ e. e)
gate_triggered_iff i target_column_missing = (λ e. e, λ e. e)
gate_triggered_iff i split_leakage = (λ e. e, λ e. e)
gate_triggered_iff i external_api_raw_pii = (λ e. e, λ e. e)
gate_triggered_iff i target_leakage_candidate = (λ e. e, λ e. e)
gate_triggered_iff i business_rule_failure = (λ e. e, λ e. e)
gate_triggered_iff i plugin_disabled =
    any_iff (λ (plugin, status). status == "disabled") (λ (plugin, status). status ≡ "disabled")
      (λ (plugin, status). string_eq.beq_iff status "disabled") i.plugin_readiness
gate_triggered_iff i method_disabled_by_policy =
    any_iff off_by_policy _ (λ m. off_by_policy_iff m.status m.policy_status) i.method_availability
gate_triggered_iff i method_disabled_by_readiness =
    any_iff off_by_readiness _ (λ m. off_by_readiness_iff m.status m.policy_status)
      i.method_availability
