-- ===== src/Decision/Blocking.antt =====
-- When app/kernel/decision_policy.py blocks an object, and the bounds of its score.
use dataforge_ai_ml_service.Prelude.{
  either_iff, both_of, both_iff, Bool, true, false, ◌&&◌, ◌||◌, Option, none, some, String, List,
  [], ◌∷◌, map, any, if◌then◌else◌, nat_eq, ◌==◌, ◌≡◌, ◌↔◌, ◌⊎◌, inl, inr, refl, ap, ◌∙◌, arith,
  Bool-cases,
}
use dataforge_ai_ml_service.Prelude.Dict
use dataforge_ai_ml_service.Prelude.Dict.{Dict, get-put}
use dataforge_ai_ml_service.Decision.{
  HardGateId, pii_unmasked, gate_eq, SignalStatus, signal_available, signal_not_applicable,
  signal_unavailable, HardGateRule, HardGateEvaluation, PolicyInputEnvelope, gate_triggered,
  evaluation_of, evaluate_hard_gates, Floats, EvidenceSignals, Components, ObjectDecisionEvaluation,
  is_some_gate, first_action, triggered_gates, triggered_or_false,
}
use dataforge_ai_ml_service.Decision.Triggers.{Triggers, gate_triggered_iff}
use dataforge_ai_ml_service.Decision.Score.{
  signal_at_least, larger, smaller, clamped, compute_object_value_score, pii_by_evidence,
  object_gates_from, object_hard_gates, evaluate_object_decision,
}

-- Some rule of the gate is enabled.
abbrev pub is_in_force : List HardGateRule → HardGateId → Bool
is_in_force rules id = any (λ r. r.is_enabled && (r.gate_id == id)) rules

gate_of_index :
    (rules : List HardGateRule) (i : PolicyInputEnvelope) (d : Dict HardGateId HardGateEvaluation)
    (id : HardGateId)
    → triggered_or_false
        (Dict.get (Dict.index_from (λ g. g.gate_id) d (evaluate_hard_gates rules i)) id)
      ≡ (if is_in_force rules id then gate_triggered id i else triggered_or_false (Dict.get d id))
unfolding evaluate_hard_gates Dict.index_from
gate_of_index [] i d id = refl
gate_of_index (rule ∷ rules) i d id =
    let e = evaluation_of rule (gate_triggered rule.gate_id i) in
    elim (Bool-cases rule.is_enabled) [
      | inl on ↦ ground (
        arith,
        gate_of_index rules i (Dict.put d rule.gate_id e) id,
        get-put d rule.gate_id id e,
        gate_eq.beq_iff rule.gate_id id,
      )
      | inr off ↦ ground (arith, gate_of_index rules i d id)
    ]

and_of_if : (a b : Bool) → (if a then b else false) ≡ (a && b)
and_of_if true b = refl
and_of_if false b = refl

cons_eq :
    {a b : HardGateEvaluation} {gs hs : List HardGateEvaluation} → a ≡ b → gs ≡ hs → a ∷ gs ≡ b ∷ hs
cons_eq h k = cc (h, k)

module _ {F : Type 0} (f : Floats F) (s : EvidenceSignals F) (i : PolicyInputEnvelope) where
  -- A rule fires on an object: its gate is triggered by the inputs, and in force, or it is the gate
  -- on personal data and the evidence alone is strong enough.
  abbrev pub fires : List HardGateRule → HardGateRule → Bool
  fires all rule =
      (is_in_force all rule.gate_id && gate_triggered rule.gate_id i)
      || pii_by_evidence f rule.gate_id s

  -- The evidence alone is strong enough: the privacy risk is available, and its value is at least
  -- the threshold, which is 0.80.
  pub record IsRisky : Type 0 where
    pub value : F
    pub available : s.privacy_risk.status ≡ signal_available
    pub has_value : s.privacy_risk.value ≡ some value
    pub at_least : f.ge value f.privacy_threshold ≡ true

  -- What `fires` says, spelled out on the inputs and the evidence
  abbrev pub Fires : List HardGateRule → HardGateRule → Type 0
  Fires all rule =
      ((is_in_force all rule.gate_id ≡ true) × Triggers i rule.gate_id)
      ⊎ ((rule.gate_id ≡ pii_unmasked) × IsRisky)

  at_least_iff : (signal_at_least f s.privacy_risk f.privacy_threshold ≡ true) ↔ IsRisky
  at_least_iff = risky_iff s.privacy_risk.status s.privacy_risk.value refl refl
    where
      risky_iff :
          (status : SignalStatus) (value : Option F)
          → s.privacy_risk.status ≡ status
          → s.privacy_risk.value ≡ value
          → (signal_at_least f s.privacy_risk f.privacy_threshold ≡ true) ↔ IsRisky
      risky_iff signal_available none e h = (λ t. ground arith, λ r. cc (r.has_value, h))
      risky_iff signal_available (some v) e h = (
        λ t. record { value = v; available = e; has_value = h; at_least = ground arith },
        λ r. let here = r.at_least in let value = r.has_value in ground arith,
      )
      risky_iff signal_not_applicable value e h = (λ t. ground arith, λ r. cc (r.available, e))
      risky_iff signal_unavailable value e h = (λ t. ground arith, λ r. cc (r.available, e))

  fires_iff :
      (all : List HardGateRule) (rule : HardGateRule) → (fires all rule ≡ true) ↔ Fires all rule
  fires_iff all rule =
      either_iff (both_iff (gate_triggered_iff i rule.gate_id))
        (both_of (gate_eq.beq_iff rule.gate_id pii_unmasked) at_least_iff)

  abbrev pub fired_action : List HardGateRule → List HardGateRule → Option String
  fired_action all [] = none
  fired_action all (rule ∷ rules) =
      let rest = fired_action all rules in if fires all rule then some rule.action else rest

  -- What a decision says, whatever the weights and the score
  pub record IsDecision (rules : List HardGateRule) (d : ObjectDecisionEvaluation F) : Type 0 where
    pub when : (rule : HardGateRule) → (fires rules rule ≡ true) ↔ Fires rules rule
    pub gates : d.hard_gates ≡ map (λ rule. evaluation_of rule (fires rules rule)) rules
    pub blocked : d.hard_blocked ≡ any (fires rules) rules
    pub acts : d.action ≡ fired_action rules rules
    pub score_agrees : d.object_value_score.hard_blocked ≡ d.hard_blocked

  object_gates_from-fires :
      (all rules : List HardGateRule)
      → object_gates_from f
          (Dict.index_from (λ g. g.gate_id) [] (evaluate_hard_gates all i))
          rules
          s
        ≡ map (λ rule. evaluation_of rule (fires all rule)) rules
  unfolding object_gates_from Dict.get
  object_gates_from-fires all [] = refl
  object_gates_from-fires all (rule ∷ rules) =
      let found = gate_of_index all i [] rule.gate_id in
      let rest = object_gates_from-fires all rules in
      let holds : Bool → HardGateEvaluation =
        λ b. evaluation_of rule (b || pii_by_evidence f rule.gate_id s) in
      cons_eq
        (ap holds
          (found ∙ and_of_if (is_in_force all rule.gate_id) (gate_triggered rule.gate_id i)))
        rest

  is_some_gate-fires :
      (all rules : List HardGateRule)
      → is_some_gate (triggered_gates (map (λ rule. evaluation_of rule (fires all rule)) rules))
        ≡ any (fires all) rules
  is_some_gate-fires all [] = refl
  is_some_gate-fires all (rule ∷ rules) = ground (arith, is_some_gate-fires all rules)

  first_action-fires :
      (all rules : List HardGateRule)
      → first_action (triggered_gates (map (λ rule. evaluation_of rule (fires all rule)) rules))
        ≡ fired_action all rules
  first_action-fires all [] = refl
  first_action-fires all (rule ∷ rules) = ground (arith, first_action-fires all rules)

  -- An object is blocked exactly if a rule fires on it, and the action is that of the first rule
  -- that does, whatever the weights of the score are: a high score overrides no blocker. The answer
  -- lists one evaluation for each rule, and the score carries the same verdict. A rule fires exactly
  -- if the inputs trigger its gate and a rule of that gate is enabled, or its gate is the one on
  -- personal data and the privacy risk is available and at least the threshold, 0.80; the inputs
  -- trigger a gate exactly by the flags, the plugins and the methods that belong to it.
  pub evaluate_object_decision-IsDecision :
      (rules : List HardGateRule) (weights : Components F)
      → IsDecision rules (evaluate_object_decision f rules weights s i)
  unfolding evaluate_object_decision object_hard_gates compute_object_value_score
  evaluate_object_decision-IsDecision rules weights =
      let same = object_gates_from-fires rules rules in
      record {
        when = fires_iff rules;
        gates = same;
        blocked = ap (λ g. is_some_gate (triggered_gates g)) same ∙ is_some_gate-fires rules rules;
        acts = ap (λ g. first_action (triggered_gates g)) same ∙ first_action-fires rules rules;
        score_agrees = refl;
      }

module _ {F : Type 0} (f : Floats F) where
  -- Zero, one, or strictly between them
  abbrev pub IsUnit : F → Type 0
  IsUnit v = (v ≡ f.zero) ⊎ ((v ≡ f.one) ⊎ ((f.lt f.zero v ≡ true) × (f.lt v f.one ≡ true)))

  larger_zero :
      (raw : F) → (larger f f.zero raw ≡ f.zero) ⊎ (f.lt f.zero (larger f f.zero raw) ≡ true)
  larger_zero raw = elim (Bool-cases (f.lt f.zero raw)) [
    | inl positive ↦ inr (ground arith)
    | inr negative ↦ inl (ground arith)
  ]

  smaller_one :
      (v : F) → (smaller f f.one v ≡ f.one) ⊎ ((smaller f f.one v ≡ v) × (f.lt v f.one ≡ true))
  smaller_one v = elim (Bool-cases (f.lt v f.one)) [
    | inl below ↦ inr (ground arith, below)
    | inr above ↦ inl (ground arith)
  ]

  clamped-IsUnit : (raw : F) → IsUnit (clamped f raw)
  unfolding clamped
  clamped-IsUnit raw = elim (smaller_one (larger f f.zero raw)) [
    | inl is_one ↦ inr (inl is_one)
    | inr (same, below) ↦ elim (larger_zero raw) [
      | inl is_zero ↦ inl (same ∙ is_zero)
      | inr positive ↦
          inr (inr (ap (f.lt f.zero) same ∙ positive, ap (λ v. f.lt v f.one) same ∙ below))
    ]
  ]

  -- The score of an object is zero, one or strictly between them, also where the sum of its
  -- weighted components is infinite or not a number.
  pub compute_object_value_score-IsUnit :
      (weights : Components F) (s : EvidenceSignals F) (gates : List HardGateEvaluation)
      → IsUnit (compute_object_value_score f weights s gates).value
  unfolding compute_object_value_score
  compute_object_value_score-IsUnit weights s gates = clamped-IsUnit _
