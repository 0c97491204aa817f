-- ===== src/Decision/Score.antt =====
-- `compute_object_value_score` and `evaluate_object_decision` of app/kernel/decision_policy.py.
use dataforge_ai_ml_service.Prelude.{
  Bool, true, false, ◌&&◌, ◌||◌, Option, none, some, String, List, [], ◌∷◌, ◌++◌, map,
  if◌then◌else◌, string_eq, ◌==◌, ordered_unique, nat_eq,
}
use dataforge_ai_ml_service.Prelude.Dict
use dataforge_ai_ml_service.Decision.{
  HardGateId, pii_unmasked, gate_eq, HardGateRule, HardGateEvaluation, PolicyInputEnvelope,
  evaluation_of, evaluate_hard_gates, Floats, SignalStatus, signal_available, signal_not_applicable,
  signal_unavailable, NormalizedSignal, EvidenceSignals, Components, ObjectValueScore,
  ObjectDecisionEvaluation, is_some_gate, first_action, triggered_gates, codes_if,
  triggered_or_false,
}

abbrev pub is_available : SignalStatus → Bool
is_available signal_available = true
is_available signal_not_applicable = false
is_available signal_unavailable = false

abbrev pub available_value {ℓ} : {F : Type ℓ} → SignalStatus → Option F → Option F
available_value signal_available value = value
available_value signal_not_applicable value = none
available_value signal_unavailable value = none

abbrev pub value_or {ℓ} : {F : Type ℓ} → Option F → F → F
value_or none default = default
value_or (some v) default = v

module _ {F : Type 0} (f : Floats F) where
  -- `_signal_value`
  abbrev pub signal_value : NormalizedSignal F → F → F
  signal_value s default = value_or (available_value s.status s.value) default

  abbrev pub value_at_least : Option F → F → Bool
  value_at_least none threshold = false
  value_at_least (some v) threshold = f.ge v threshold

  -- `_signal_at_least`
  abbrev pub signal_at_least : NormalizedSignal F → F → Bool
  signal_at_least s threshold = value_at_least (available_value s.status s.value) threshold

  -- `max(a, b)` and `min(a, b)`, which keep the first unless the second is larger, or smaller
  abbrev pub larger : F → F → F
  larger a b = if f.lt a b then b else a

  abbrev pub smaller : F → F → F
  smaller a b = if f.lt b a then b else a

  -- `_uncertainty_component`
  abbrev pub uncertainty_component : EvidenceSignals F → F
  uncertainty_component s =
      if is_available s.model_uncertainty.status
      then signal_value s.model_uncertainty f.zero
      else if is_available s.prediction_entropy.status
      then signal_value s.prediction_entropy f.zero
      else if is_available s.ambiguous_object_score.status
      then signal_value s.ambiguous_object_score f.zero
      else if is_available s.prediction_confidence.status
      then f.sub f.one (signal_value s.prediction_confidence f.zero)
      else f.zero

  -- `_object_value_components`
  abbrev pub object_value_components : EvidenceSignals F → Components F
  object_value_components s =
      let rare = signal_value s.rare_segment_score f.zero in
      let uncertainty = uncertainty_component s in
      let label_risk = signal_value s.label_issue_score f.zero in
      let probable_label_error = signal_value s.probable_label_error_score f.zero in
      let ambiguous = signal_value s.ambiguous_object_score f.zero in
      record {
        learning_value =
            larger (larger (larger (larger rare uncertainty) ambiguous) probable_label_error)
              label_risk;
        rarity = rare;
        uncertainty = uncertainty;
        diversity = f.zero;
        business_importance = signal_value s.business_importance f.zero;
        duplicate_penalty = signal_value s.duplicate_score f.zero;
        quality_penalty = f.sub f.one (signal_value s.technical_quality f.one);
        privacy_risk_penalty = signal_value s.privacy_risk f.zero;
        label_risk_penalty = larger label_risk probable_label_error;
      }

  -- `weighted`
  abbrev pub weigh : Components F → Components F → Components F
  weigh c w = record {
    learning_value = f.mul c.learning_value w.learning_value;
    rarity = f.mul c.rarity w.rarity;
    uncertainty = f.mul c.uncertainty w.uncertainty;
    diversity = f.mul c.diversity w.diversity;
    business_importance = f.mul c.business_importance w.business_importance;
    duplicate_penalty = f.mul c.duplicate_penalty w.duplicate_penalty;
    quality_penalty = f.mul c.quality_penalty w.quality_penalty;
    privacy_risk_penalty = f.mul c.privacy_risk_penalty w.privacy_risk_penalty;
    label_risk_penalty = f.mul c.label_risk_penalty w.label_risk_penalty;
  }

  abbrev pub sum_from : F → List F → F
  sum_from total [] = total
  sum_from total (v ∷ vs) = sum_from (f.add total v) vs

  -- `sum(weighted.values())`
  abbrev pub raw_of : Components F → F
  raw_of c = sum_from f.zero (
      c.learning_value ∷ c.rarity ∷ c.uncertainty ∷ c.diversity ∷ c.business_importance
      ∷ c.duplicate_penalty ∷ c.quality_penalty ∷ c.privacy_risk_penalty ∷ c.label_risk_penalty
      ∷ [])

  -- `min(1.0, max(0.0, raw))`
  unfoldable pub clamped : F → F
  clamped raw = smaller f.one (larger f.zero raw)

  -- `_component_reason_codes`, those that hold
  abbrev pub component_reason_codes : Components F → List String
  component_reason_codes c =
      codes_if "exact_duplicate" (f.ge c.duplicate_penalty f.half)
      ++ codes_if "rare_class_underrepresented" (f.ge c.rarity f.rare_threshold)
      ++ codes_if "text_pii_detected" (f.lt f.zero c.privacy_risk_penalty)
      ++ codes_if "severe_outlier" (f.ge c.quality_penalty f.severe_threshold)
      ++ codes_if "ambiguous_object" (f.ge c.uncertainty f.half)
      ++ codes_if "probable_label_error" (f.ge c.label_risk_penalty f.half)

  -- `compute_object_value_score`
  unfoldable pub compute_object_value_score :
      Components F → EvidenceSignals F → List HardGateEvaluation → ObjectValueScore F
  unfolding clamped
  compute_object_value_score weights s gates =
      let components = object_value_components s in
      let weighted = weigh components weights in
      let triggered = triggered_gates gates in
      record {
        value = clamped (raw_of weighted);
        raw_value = raw_of weighted;
        components = components;
        weighted_components = weighted;
        hard_blocked = is_some_gate triggered;
        blocker_actions = ordered_unique (map (λ g. g.action) triggered);
        reason_codes =
            ordered_unique
              (component_reason_codes components ++ map (λ g. g.reason_code) triggered);
      }

  abbrev pub pii_by_evidence : HardGateId → EvidenceSignals F → Bool
  pii_by_evidence id s = (id == pii_unmasked) && signal_at_least s.privacy_risk f.privacy_threshold

  -- The loop of `_object_hard_gates`, on the evaluations of the inputs by gate
  unfoldable pub object_gates_from :
      Dict.Dict HardGateId HardGateEvaluation
      → List HardGateRule
      → EvidenceSignals F
      → List HardGateEvaluation
  object_gates_from found [] s = []
  object_gates_from found (rule ∷ rules) s =
      evaluation_of rule
        (triggered_or_false (Dict.get found rule.gate_id) || pii_by_evidence rule.gate_id s)
      ∷ object_gates_from found rules s

  -- `_object_hard_gates`
  unfoldable pub object_hard_gates :
      List HardGateRule → EvidenceSignals F → PolicyInputEnvelope → List HardGateEvaluation
  unfolding object_gates_from
  object_hard_gates rules s i =
      object_gates_from (Dict.index_from (λ g. g.gate_id) [] (evaluate_hard_gates rules i)) rules s

  -- `evaluate_object_decision`, of the policy's hard gates and weights
  unfoldable pub evaluate_object_decision :
      List HardGateRule
      → Components F
      → EvidenceSignals F
      → PolicyInputEnvelope
      → ObjectDecisionEvaluation F
  unfolding object_hard_gates compute_object_value_score
  evaluate_object_decision rules weights s i =
      let gates = object_hard_gates rules s i in
      let triggered = triggered_gates gates in
      record {
        hard_gates = gates;
        object_value_score = compute_object_value_score weights s gates;
        hard_blocked = is_some_gate triggered;
        action = first_action triggered;
        reason_codes = ordered_unique (map (λ g. g.reason_code) triggered);
      }
