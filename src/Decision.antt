-- ===== src/Decision.antt =====
-- The hard gates and the score of one object: app/kernel/decision_policy.py, with the signals of
-- app/domain/evidence.py.
pub mod Score
pub mod Triggers
pub mod Blocking
mod Tests
use dataforge_ai_ml_service.Prelude.{
  ℕ, Bool, true, false, not, ◌&&◌, ◌||◌, Option, none, some, String, List, [], ◌∷◌, ◌++◌, map, keep,
  any, if◌then◌else◌, Eq, string_eq, ◌==◌, ordered_unique, nat_eq, ◌≡◌, refl, sym, ap, ◌∙◌,
  unique_from,
}
use dataforge_ai_ml_service.Prelude.Dict
use dataforge_ai_ml_service.Prelude.Dict.{Dict}
use dataforge_ai_ml_service.ActionPlan.Model.{
  MethodCandidateStatus, PolicyStatus, enabled, disabled_by_policy, disabled_by_readiness, blocked,
  recommended, available,
}

pub data HardGateId : Type 0 where
  pii_unmasked target_column_missing split_leakage external_api_raw_pii : HardGateId
  target_leakage_candidate business_rule_failure plugin_disabled : HardGateId
  method_disabled_by_policy method_disabled_by_readiness : HardGateId

abbrev pub gate_number : HardGateId → ℕ
gate_number pii_unmasked = 0
gate_number target_column_missing = 1
gate_number split_leakage = 2
gate_number external_api_raw_pii = 3
gate_number target_leakage_candidate = 4
gate_number business_rule_failure = 5
gate_number plugin_disabled = 6
gate_number method_disabled_by_policy = 7
gate_number method_disabled_by_readiness = 8

abbrev pub numbered_gate : ℕ → HardGateId
numbered_gate n =
    if n == 0
    then pii_unmasked
    else if n == 1
    then target_column_missing
    else if n == 2
    then split_leakage
    else if n == 3
    then external_api_raw_pii
    else if n == 4
    then target_leakage_candidate
    else if n == 5
    then business_rule_failure
    else if n == 6
    then plugin_disabled
    else if n == 7
    then method_disabled_by_policy
    else method_disabled_by_readiness

pub numbered_gate-gate_number : (g : HardGateId) → numbered_gate (gate_number g) ≡ g
numbered_gate-gate_number pii_unmasked = refl
numbered_gate-gate_number target_column_missing = refl
numbered_gate-gate_number split_leakage = refl
numbered_gate-gate_number external_api_raw_pii = refl
numbered_gate-gate_number target_leakage_candidate = refl
numbered_gate-gate_number business_rule_failure = refl
numbered_gate-gate_number plugin_disabled = refl
numbered_gate-gate_number method_disabled_by_policy = refl
numbered_gate-gate_number method_disabled_by_readiness = refl

-- `is` on the members of the enumeration
instance abbrev pub gate_eq : Eq HardGateId
gate_eq = record {
  beq = λ g h. gate_number g == gate_number h;
  beq_iff = λ g h.
      let (same, test) = nat_eq.beq_iff (gate_number g) (gate_number h) in
      (
        λ e.
            sym (numbered_gate-gate_number g)
            ∙ ap numbered_gate (same e)
            ∙ numbered_gate-gate_number h,
        λ e. test (ap gate_number e),
      );
}

pub record HardGateRule : Type 0 where
  pub gate_id : HardGateId
  pub reason_code : String
  pub action : String
  pub is_enabled : Bool

pub record HardGateEvaluation : Type 0 where
  pub gate_id : HardGateId
  pub triggered : Bool
  pub action : String
  pub reason_code : String

pub record MethodAvailability : Type 0 where
  pub status : MethodCandidateStatus
  pub policy_status : PolicyStatus

-- Of a PolicyInputEnvelope, what the gates read; a dictionary is the truth of its `get`.
pub record PolicyInputEnvelope : Type 0 where
  pub normalized_dataset_profile : String → Bool
  pub risk_profile : String → Bool
  pub split_leakage_report : String → Bool
  pub plugin_readiness : Dict String String
  pub method_availability : List MethodAvailability

abbrev pub off_by_policy : MethodAvailability → Bool
off_by_policy m = policy_off m.policy_status || status_off m.status
  where
    policy_off : PolicyStatus → Bool
    policy_off disabled_by_policy = true
    policy_off _ = false

    status_off : MethodCandidateStatus → Bool
    status_off disabled_by_policy = true
    status_off _ = false

abbrev pub off_by_readiness : MethodAvailability → Bool
off_by_readiness m = policy_off m.policy_status || status_off m.status
  where
    policy_off : PolicyStatus → Bool
    policy_off disabled_by_readiness = true
    policy_off _ = false

    status_off : MethodCandidateStatus → Bool
    status_off disabled_by_readiness = true
    status_off _ = false

-- `_gate_triggered`
unfoldable pub gate_triggered : HardGateId → PolicyInputEnvelope → Bool
gate_triggered pii_unmasked i =
    i.risk_profile "pii_unmasked" || i.normalized_dataset_profile "pii_unmasked"
gate_triggered target_column_missing i = i.normalized_dataset_profile "target_column_missing"
gate_triggered split_leakage i = i.split_leakage_report "split_leakage"
gate_triggered external_api_raw_pii i = i.risk_profile "external_api_raw_pii"
gate_triggered target_leakage_candidate i = i.normalized_dataset_profile "target_leakage_candidate"
gate_triggered business_rule_failure i = i.normalized_dataset_profile "business_rule_failure"
gate_triggered plugin_disabled i = any (λ (plugin, status). status == "disabled") i.plugin_readiness
gate_triggered method_disabled_by_policy i = any off_by_policy i.method_availability
gate_triggered method_disabled_by_readiness i = any off_by_readiness i.method_availability

abbrev pub evaluation_of : HardGateRule → Bool → HardGateEvaluation
evaluation_of rule triggered = record {
  gate_id = rule.gate_id;
  triggered = triggered;
  action = rule.action;
  reason_code = rule.reason_code;
}

-- `evaluate_hard_gates`
unfoldable pub evaluate_hard_gates :
    List HardGateRule → PolicyInputEnvelope → List HardGateEvaluation
evaluate_hard_gates [] i = []
evaluate_hard_gates (rule ∷ rules) i =
    let rest = evaluate_hard_gates rules i in
    if rule.is_enabled then evaluation_of rule (gate_triggered rule.gate_id i) ∷ rest else rest

-- Python's floats, and the thresholds and weights that the code writes
pub record Floats (F : Type 0) : Type 0 where
  pub zero : F
  pub one : F
  pub half : F
  pub rare_threshold : F
  pub severe_threshold : F
  pub privacy_threshold : F
  pub add : F → F → F
  pub sub : F → F → F
  pub mul : F → F → F
  pub lt : F → F → Bool
  -- `a >= b`
  pub ge : F → F → Bool

pub data SignalStatus : Type 0 where
  signal_available signal_not_applicable signal_unavailable : SignalStatus

pub record NormalizedSignal (F : Type 0) : Type 0 where
  pub value : Option F
  pub status : SignalStatus

pub record EvidenceSignals (F : Type 0) : Type 0 where
  pub technical_quality : NormalizedSignal F
  pub duplicate_score : NormalizedSignal F
  pub privacy_risk : NormalizedSignal F
  pub label_issue_score : NormalizedSignal F
  pub rare_segment_score : NormalizedSignal F
  pub business_importance : NormalizedSignal F
  pub model_uncertainty : NormalizedSignal F
  pub prediction_confidence : NormalizedSignal F
  pub prediction_entropy : NormalizedSignal F
  pub ambiguous_object_score : NormalizedSignal F
  pub probable_label_error_score : NormalizedSignal F

-- ObjectValueWeights, the components of a score, and their products
pub record Components (F : Type 0) : Type 0 where
  pub learning_value : F
  pub rarity : F
  pub uncertainty : F
  pub diversity : F
  pub business_importance : F
  pub duplicate_penalty : F
  pub quality_penalty : F
  pub privacy_risk_penalty : F
  pub label_risk_penalty : F

pub record ObjectValueScore (F : Type 0) : Type 0 where
  pub value : F
  pub raw_value : F
  pub components : Components F
  pub weighted_components : Components F
  pub hard_blocked : Bool
  pub blocker_actions : List String
  pub reason_codes : List String

pub record ObjectDecisionEvaluation (F : Type 0) : Type 0 where
  pub hard_gates : List HardGateEvaluation
  pub object_value_score : ObjectValueScore F
  pub hard_blocked : Bool
  pub action : Option String
  pub reason_codes : List String

abbrev pub is_some_gate : List HardGateEvaluation → Bool
is_some_gate [] = false
is_some_gate (g ∷ gates) = true

abbrev pub first_action : List HardGateEvaluation → Option String
first_action [] = none
first_action (g ∷ gates) = some g.action

abbrev pub triggered_gates : List HardGateEvaluation → List HardGateEvaluation
triggered_gates gates = keep (λ g. g.triggered) gates

abbrev pub codes_if : String → Bool → List String
codes_if code true = code ∷ []
codes_if code false = []

abbrev pub triggered_or_false : Option HardGateEvaluation → Bool
triggered_or_false none = false
triggered_or_false (some g) = g.triggered
