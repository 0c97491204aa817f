-- ===== src/Decision/Tests.antt =====
-- Decisions of app/kernel/decision_policy.py on one object, and the theorems about them.
use Prim.Native.Nat.{◌/◌}
use dataforge_ai_ml_service.Prelude.{
  ℕ, ◌+◌, ◌-◌, ◌*◌, true, false, none, some, List, [], ◌∷◌, ltb, leb, nat_eq, string_eq,
  unique_from, ◌≡◌, refl,
}
use dataforge_ai_ml_service.Prelude.Dict
use dataforge_ai_ml_service.ActionPlan.Model.{disabled_by_policy, recommended}
use dataforge_ai_ml_service.Decision.{
  pii_unmasked, method_disabled_by_policy, gate_eq, HardGateRule, PolicyInputEnvelope,
  gate_triggered, evaluate_hard_gates, Floats, signal_available, signal_unavailable,
  NormalizedSignal, EvidenceSignals, Components,
}
use dataforge_ai_ml_service.Decision.Score.{
  clamped, compute_object_value_score, object_gates_from, object_hard_gates,
  evaluate_object_decision,
}
use dataforge_ai_ml_service.Decision.Blocking.{
  IsDecision, IsUnit, evaluate_object_decision-IsDecision, compute_object_value_score-IsUnit,
}

-- Counts of hundredths
abbrev hundredths : Floats ℕ
hundredths = record {
  zero = 0;
  one = 100;
  half = 50;
  rare_threshold = 70;
  severe_threshold = 75;
  privacy_threshold = 80;
  add = λ a b. a + b;
  sub = λ a b. a - b;
  mul = λ a b. a * b / 100;
  lt = ltb;
  ge = λ a b. leb b a;
}

abbrev signal : ℕ → NormalizedSignal ℕ
signal v = record { value = some v; status = signal_available }

abbrev no_signal : NormalizedSignal ℕ
no_signal = record { value = none; status = signal_unavailable }

abbrev signals : EvidenceSignals ℕ
signals = record {
  technical_quality = no_signal;
  duplicate_score = signal 60;
  privacy_risk = signal 90;
  label_issue_score = no_signal;
  rare_segment_score = signal 80;
  business_importance = no_signal;
  model_uncertainty = no_signal;
  prediction_confidence = signal 30;
  prediction_entropy = no_signal;
  ambiguous_object_score = no_signal;
  probable_label_error_score = no_signal;
}

abbrev weights : Components ℕ
weights = record {
  learning_value = 100;
  rarity = 100;
  uncertainty = 100;
  diversity = 0;
  business_importance = 0;
  duplicate_penalty = 0;
  quality_penalty = 0;
  privacy_risk_penalty = 0;
  label_risk_penalty = 0;
}

abbrev inputs : PolicyInputEnvelope
inputs = record {
  normalized_dataset_profile = λ k. false;
  risk_profile = λ k. false;
  split_leakage_report = λ k. false;
  plugin_readiness = [];
  method_availability = record { status = recommended; policy_status = disabled_by_policy } ∷ [];
}

abbrev rules : List HardGateRule
rules =
    record {
      gate_id = pii_unmasked;
      reason_code = "pii_unmasked";
      action = "BLOCK_PRIVACY_REVIEW";
      is_enabled = false;
    }
    ∷ record {
      gate_id = method_disabled_by_policy;
      reason_code = "method_disabled_by_policy";
      action = "BLOCK_METHOD";
      is_enabled = true;
    }
    ∷ []

-- The gate on personal data is disabled, and blocks all the same.
blocked_by_a_disabled_gate :
    let d = evaluate_object_decision hundredths rules weights signals inputs in
    (d.hard_blocked ≡ true)
    × (d.action ≡ some "BLOCK_PRIVACY_REVIEW")
    × (d.reason_codes ≡ "pii_unmasked" ∷ "method_disabled_by_policy" ∷ [])
    × (d.object_value_score.value ≡ 100)
    × (d.object_value_score.reason_codes
        ≡ "exact_duplicate" ∷ "rare_class_underrepresented" ∷ "text_pii_detected"
          ∷ "ambiguous_object" ∷ "pii_unmasked" ∷ "method_disabled_by_policy" ∷ [])
unfolding evaluate_object_decision object_hard_gates object_gates_from compute_object_value_score
    clamped evaluate_hard_gates gate_triggered Dict.index_from Dict.get Dict.put unique_from
blocked_by_a_disabled_gate = (refl, refl, refl, refl, refl)

evaluate_object_decision-IsDecision_example :
    IsDecision hundredths signals inputs rules
      (evaluate_object_decision hundredths rules weights signals inputs)
evaluate_object_decision-IsDecision_example =
    evaluate_object_decision-IsDecision hundredths signals inputs rules weights

compute_object_value_score-IsUnit_example :
    IsUnit hundredths (compute_object_value_score hundredths weights signals []).value
compute_object_value_score-IsUnit_example =
    compute_object_value_score-IsUnit hundredths weights signals []
