-- ===== src/Validation/Gates/Flags.antt =====
-- Which gates of app/plugins/validation/gates.py keep a candidate from training and evaluation.
use mathlib.Core.Path.{subst}
use dataforge_ai_ml_service.Prelude.{
  ℕ, Bool, true, false, not, ◌&&◌, Option, none, some, List, [], ◌∷◌, ◌++◌, all, nat_eq, list_eq,
  ◌==◌, ok, >>=-eq-ok, ◌≡◌, refl, sym, ap, ◌∙◌, arith, Bool-cases, inl, inr, any-append,
}
use dataforge_ai_ml_service.Prelude.Texts.{Text}
use dataforge_ai_ml_service.Json.{Json}
use dataforge_ai_ml_service.Validation.Numbers.{Numbers}
use dataforge_ai_ml_service.Validation.RuleModel.{Row, BusinessRule, BusinessRulesReport}
use dataforge_ai_ml_service.Validation.Rules.{business_rule_evaluator, build_report}
use dataforge_ai_ml_service.Validation.Rules.Counting.{observe_rows}
use dataforge_ai_ml_service.Validation.Gates.{
  BlockAction, block_export, block_model_evaluation, block_training, CandidateValidationGate,
}
use dataforge_ai_ml_service.Validation.Gates.Csv.{Storage}
use dataforge_ai_ml_service.Validation.Gates.Checks.{
  SplitLeakageReport, source_verdict, raw_artifact_immutability_gate, split_leakage_gate,
  schema_gate, business_rules_gate, rules_verdict, lift_rule_error, sample_limit, privacy_gate,
}
use dataforge_ai_ml_service.Validation.Gates.Synthetic.{
  DcrThresholds, resolve_dcr_reference_rows, dcr_gate, synthetic_exact_duplicate_gate,
  synthetic_nearest_neighbor_privacy_gate,
}
use dataforge_ai_ml_service.Validation.Gates.Report.{
  RunValidationGatesRequest, ValidationGatesReport, gate_is_blocking, has_action, blocks, report_of,
  pending_gates, synthetic_gates, compared_gates, compared_columns, run_validation_gates,
}
use dataforge_ai_ml_service.Validation.Gates.Verdict.{
  IsRun, run_validation_gates-IsRun, checks_of, source_of,
}

-- A gate that blocks nothing but the export.
abbrev exports_only : CandidateValidationGate → Bool
exports_only g = elim g.block_action [
  | none ↦ true
  | some block_export ↦ true
  | some block_model_evaluation ↦ false
  | some block_training ↦ false
]

-- The two actions that are about learning.
abbrev pub is_learning : BlockAction → Bool
is_learning block_export = false
is_learning block_model_evaluation = true
is_learning block_training = true

exports_only-has_action :
    (a : BlockAction) (g : CandidateValidationGate)
    → is_learning a ≡ true
    → exports_only g ≡ true
    → has_action a g.block_action ≡ false
exports_only-has_action block_export g h k = cc h
exports_only-has_action block_model_evaluation g h k = ground arith
exports_only-has_action block_training g h k = ground arith

exports_only-blocks :
    (a : BlockAction) (gates : List CandidateValidationGate)
    → is_learning a ≡ true
    → all exports_only gates ≡ true
    → blocks a gates ≡ false
exports_only-blocks a [] h k = refl
exports_only-blocks a (g ∷ gates) h k =
    ground (arith, exports_only-blocks a gates h, exports_only-has_action a g h)

rules_verdict-exports : (r : BusinessRulesReport) → exports_only (rules_verdict r) ≡ true
rules_verdict-exports r = ground arith

module _ {N F : Type 0} (n : Numbers N F) where
  schema_gate-exports :
      (declared numeric actual : List Text) (rows : List Row)
      → exports_only (schema_gate n declared numeric actual rows) ≡ true
  unfolding schema_gate
  schema_gate-exports declared numeric actual rows = ground arith

  business_rules_gate-exports :
      (hash : List (BusinessRule N) → Text) (rules : List (BusinessRule N)) (version : Text)
      (config_hash : Option Text) (rows : List Row) (g : CandidateValidationGate)
      → business_rules_gate n hash rules version config_hash rows ≡ ok g
      → exports_only g ≡ true
  unfolding business_rules_gate
  business_rules_gate-exports hash [] version config_hash rows g h = ground arith
  business_rules_gate-exports hash (rule ∷ rules) version config_hash rows g h =
      let (e, observed, h') =
        >>=-eq-ok
          (lift_rule_error (
            observe_rows n
              (business_rule_evaluator hash (rule ∷ rules) version config_hash sample_limit) rows))
          _ h in
      let made : rules_verdict (build_report e) ≡ g = cc h' in
      subst (λ x. exports_only x ≡ true) made (rules_verdict-exports (build_report e))

  module _ (s : Storage) (digest : Json → Text) where
    compared_gates-exports :
        (t : DcrThresholds F) (columns : List Text) (rows : List Row) (reference : List Row × Text)
        → all exports_only (compared_gates n s digest t columns rows reference) ≡ true
    unfolding dcr_gate synthetic_exact_duplicate_gate synthetic_nearest_neighbor_privacy_gate
    compared_gates-exports t columns rows (reals, scope) = ground arith

    synthetic_gates-exports :
        (q : RunValidationGatesRequest N F) (features : Option (List Text)) (rows reals : List Row)
        (gates : List CandidateValidationGate)
        → synthetic_gates n s digest q features rows reals ≡ ok gates
        → all exports_only gates ≡ true
    synthetic_gates-exports q none rows reals gates h = ground arith
    synthetic_gates-exports q (some features) [] reals gates h = ground arith
    synthetic_gates-exports q (some features) (row ∷ rows) reals gates h =
        let (reference, resolved, h') =
          >>=-eq-ok (resolve_dcr_reference_rows s q.source_artifact reals) _ h in
        let columns = compared_columns features q.numeric_columns in
        let made : compared_gates n s digest q.dcr_thresholds columns (row ∷ rows) reference
            ≡ gates =
          cc h' in
        subst (λ x. all exports_only x ≡ true) made
          (compared_gates-exports q.dcr_thresholds columns (row ∷ rows) reference)

privacy_gate-exports :
    (patterns : List (Text × (Text → Bool))) (rows : List Row) (columns : List Text)
    (restricted : Bool) (numeric : List Text)
    → exports_only (privacy_gate patterns rows columns restricted numeric) ≡ true
unfolding privacy_gate
privacy_gate-exports patterns rows columns restricted numeric = ground arith

source_verdict-exports :
    (sha256 : List ℕ → Text) (hash : Text) (stored : Option (List ℕ))
    → exports_only (source_verdict sha256 hash stored).0 ≡ true
source_verdict-exports sha256 hash none = refl
source_verdict-exports sha256 hash (some stored) = elim (Bool-cases (sha256 stored == hash)) [
  | inl same ↦ ground arith
  | inr other ↦ ground arith
]

-- What the leakage report asks to block.
abbrev pub trains_not : Option SplitLeakageReport → Bool
trains_not none = false
trains_not (some l) = l.leakage_detected && l.block_training

abbrev pub evaluates_not : Option SplitLeakageReport → Bool
evaluates_not none = false
evaluates_not (some l) = l.leakage_detected && l.block_model_evaluation && not l.block_training

split_leakage_gate-blocks :
    (l : Option SplitLeakageReport)
    → (blocks block_training (split_leakage_gate l ∷ []) ≡ trains_not l)
      × (blocks block_model_evaluation (split_leakage_gate l ∷ []) ≡ evaluates_not l)
unfolding split_leakage_gate
split_leakage_gate-blocks none = (refl, refl)
split_leakage_gate-blocks (some l) = (ground arith, ground arith)

blocks-append :
    (a : BlockAction) (xs ys : List CandidateValidationGate)
    → is_learning a ≡ true
    → all exports_only ys ≡ true
    → blocks a (xs ++ ys) ≡ blocks a xs
blocks-append a xs ys h k = ground (
  arith,
  any-append (λ g. gate_is_blocking g && has_action a g.block_action) xs ys,
  exports_only-blocks a ys h k,
)

module _ {N F : Type 0} (n : Numbers N F) (s : Storage) (digest : Json → Text)
    (hash : List (BusinessRule N) → Text) (patterns : List (Text × (Text → Bool)))
    (q : RunValidationGatesRequest N F) where
  checks_of-blocks :
      (a : BlockAction) (rows : List Row) (columns : List Text)
      (rules_check : CandidateValidationGate)
      → is_learning a ≡ true
      → exports_only rules_check ≡ true
      → blocks a (checks_of n s digest hash patterns q rows columns rules_check)
        ≡ blocks a (split_leakage_gate q.split_leakage_report ∷ [])
  checks_of-blocks a rows columns rules_check h k = ground (
    arith,
    exports_only-has_action a (schema_gate n q.schema_columns q.numeric_columns columns rows) h
        (schema_gate-exports n q.schema_columns q.numeric_columns columns rows),
    exports_only-has_action a rules_check h k,
    exports_only-has_action a
        (privacy_gate patterns rows columns q.pii_restricted q.numeric_columns) h
        (privacy_gate-exports patterns rows columns q.pii_restricted q.numeric_columns),
  )

  source_exports : exports_only (source_of n s digest hash patterns q).0 ≡ true
  unfolding raw_artifact_immutability_gate
  source_exports =
      source_verdict-exports s.sha256 q.source_artifact.hash (s.get q.source_artifact.uri)

  run-blocks :
      (a : BlockAction) (r : ValidationGatesReport)
      → is_learning a ≡ true
      → IsRun n s digest hash patterns q r
      → blocks a r.gates ≡ blocks a (split_leakage_gate q.split_leakage_report ∷ [])
  unfolding report_of
  run-blocks a r h run =
      let checks = checks_of n s digest hash patterns q run.rows run.columns run.rules_check in
      let source = (source_of n s digest hash patterns q).0 in
      ap (λ x. blocks a x.gates) run.made
      ∙ blocks-append a (checks ++ run.synthetic ++ pending_gates) (source ∷ []) h
          (ground (arith, source_exports))
      ∙ blocks-append a (checks ++ run.synthetic) pending_gates h refl
      ∙ blocks-append a checks run.synthetic h
          (synthetic_gates-exports n s digest q _ _ _ _ run.compared)
      ∙ checks_of-blocks a run.rows run.columns run.rules_check h
          (business_rules_gate-exports n hash _ _ _ _ _ run.rules_checked)

  -- A report blocks the training exactly if a leakage report was given that detected leakage and
  -- blocks the training; it blocks the evaluation of models exactly if a leakage report was given
  -- that detected leakage and blocks that evaluation, but not the training.
  pub run_validation_gates-learning :
      (r : ValidationGatesReport)
      → run_validation_gates n s digest hash patterns q ≡ ok r
      → (r.block_training ≡ trains_not q.split_leakage_report)
        × (r.block_model_evaluation ≡ evaluates_not q.split_leakage_report)
  unfolding report_of
  run_validation_gates-learning r h =
      let run = run_validation_gates-IsRun n s digest hash patterns q r h in
      let leak = split_leakage_gate-blocks q.split_leakage_report in
      let as_built =
        subst
          (λ x.
            (x.block_training ≡ blocks block_training x.gates)
            × (x.block_model_evaluation ≡ blocks block_model_evaluation x.gates))
          (sym run.made) (refl, refl) in
      (
        as_built.0 ∙ run-blocks block_training r refl run ∙ leak.0,
        as_built.1 ∙ run-blocks block_model_evaluation r refl run ∙ leak.1,
      )
