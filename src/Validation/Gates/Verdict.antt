-- ===== src/Validation/Gates/Verdict.antt =====
-- How the verdict of `run_validation_gates` in app/plugins/validation/gates.py follows from the
-- gates.
use dataforge_ai_ml_service.Prelude.{
  ℕ, Bool, true, false, ◌&&◌, Option, none, some, List, [], ◌∷◌, ◌++◌, any, nat_eq, list_eq, ◌==◌,
  ok, >>=-eq-ok, ◌≡◌, ◌↔◌, refl, sym, arith, Bool-cases, inl, inr, any-append, any_mono,
  is_empty-keep,
}
use mathlib.Core.Path.{subst}
use dataforge_ai_ml_service.Prelude.Texts.{Text, codes}
use dataforge_ai_ml_service.Json.{Json}
use dataforge_ai_ml_service.Validation.Numbers.{Numbers}
use dataforge_ai_ml_service.Validation.RuleModel.{Row, BusinessRule}
use dataforge_ai_ml_service.Validation.Gates
use dataforge_ai_ml_service.Validation.Gates.{
  BlockAction, block_export, block_model_evaluation, block_training, passed, failed, not_applicable,
  CandidateArtifactStatus, validation_failed, review_required, CandidateValidationGate, is_failed,
  is_blocker_severity,
}
use dataforge_ai_ml_service.Validation.Gates.Csv.{Storage, read_csv}
use dataforge_ai_ml_service.Validation.Gates.Checks.{
  source_verdict, raw_artifact_immutability_gate, split_leakage_gate, schema_gate,
  business_rules_gate, privacy_gate,
}
use dataforge_ai_ml_service.Validation.Gates.Synthetic.{split_real_and_synthetic_rows}
use dataforge_ai_ml_service.Validation.Gates.Report.{
  RunValidationGatesRequest, ValidationGatesReport, is_applicable, overall_status_of,
  gate_is_blocking, has_action, blocks, report_of, pending_gates, synthetic_gates,
  run_validation_gates,
}

abbrev has_failed : List CandidateValidationGate → Bool
has_failed gates = any (λ g. is_failed g.status) gates

failed_applies : (g : CandidateValidationGate) → is_failed g.status ≡ true → is_applicable g ≡ true
failed_applies g h = ground arith

overall_status_of-failed :
    (gates : List CandidateValidationGate) → is_failed (overall_status_of gates) ≡ has_failed gates
unfolding overall_status_of
overall_status_of-failed gates = elim (Bool-cases (has_failed gates)) [
  | inl some_failed ↦
      ground
        (arith, any_mono (λ g. is_failed g.status) is_applicable failed_applies gates some_failed)
  | inr none_failed ↦ ground arith
]

-- The verdicts of a report, from whether a gate failed and whether one blocks.
pub record HasVerdict (r : ValidationGatesReport) : Type 0 where
  pub fails : (r.candidate_status ≡ validation_failed) ↔ (any gate_is_blocking r.gates ≡ true)
  pub passes : (r.candidate_status ≡ Gates.ok) ↔ (any (λ g. is_failed g.status) r.gates ≡ false)
  pub reviews :
      (r.candidate_status ≡ review_required)
      ↔ ((any (λ g. is_failed g.status) r.gates ≡ true) × (any gate_is_blocking r.gates ≡ false))
  pub export_blocked : r.block_export ≡ any gate_is_blocking r.gates
  pub blocker_noted : r.blocker_present ≡ any gate_is_blocking r.gates

blocking_failed :
    (gates : List CandidateValidationGate)
    → any gate_is_blocking gates ≡ true
    → has_failed gates ≡ true
blocking_failed gates h =
    any_mono gate_is_blocking (λ g. is_failed g.status) (λ g b. ground arith) gates h

blocks-blocking :
    (a : BlockAction) (gates : List CandidateValidationGate)
    → blocks a gates ≡ true
    → any gate_is_blocking gates ≡ true
blocks-blocking a gates h =
    any_mono (λ g. gate_is_blocking g && has_action a g.block_action) gate_is_blocking
      (λ g b. ground arith) gates h

report_of-HasVerdict :
    (gates : List CandidateValidationGate) (raw_unchanged : Bool)
    → (raw_unchanged ≡ false → any gate_is_blocking gates ≡ true)
    → HasVerdict (report_of gates raw_unchanged)
unfolding report_of
report_of-HasVerdict gates raw_unchanged raw =
    let failed_iff = overall_status_of-failed gates in
    let none_block = is_empty-keep gate_is_blocking gates in
    let blocking = blocking_failed gates in
    let exporting = blocks-blocking block_export gates in
    record {
      fails = ground arith;
      passes = ground arith;
      reviews = ground arith;
      export_blocked = ground arith;
      blocker_noted = ground arith;
    }

source_verdict-blocking :
    (sha256 : List ℕ → Text) (hash : Text) (stored : Option (List ℕ))
    → (source_verdict sha256 hash stored).1 ≡ false
    → gate_is_blocking (source_verdict sha256 hash stored).0 ≡ true
source_verdict-blocking sha256 hash none h = refl
source_verdict-blocking sha256 hash (some stored) h = elim (Bool-cases (sha256 stored == hash)) [
  | inl same ↦ ground arith
  | inr other ↦ ground arith
]

-- The parts of a run that answers.
module _ {N F : Type 0} (n : Numbers N F) (s : Storage) (digest : Json → Text)
    (hash : List (BusinessRule N) → Text) (patterns : List (Text × (Text → Bool)))
    (q : RunValidationGatesRequest N F) where
  abbrev pub checks_of :
      List Row → List Text → CandidateValidationGate → List CandidateValidationGate
  checks_of rows columns rules_check =
      schema_gate n q.schema_columns q.numeric_columns columns rows
      ∷ rules_check
      ∷ privacy_gate patterns rows columns q.pii_restricted q.numeric_columns
      ∷ split_leakage_gate q.split_leakage_report
      ∷ []

  abbrev pub source_of : CandidateValidationGate × Bool
  source_of = raw_artifact_immutability_gate s q.source_artifact

  pub record IsRun (r : ValidationGatesReport) : Type 0 where
    pub rows : List Row
    pub columns : List Text
    pub rules_check : CandidateValidationGate
    pub synthetic : List CandidateValidationGate
    pub read : read_csv s q.candidate_artifact (codes "candidate") ≡ ok (rows, columns)
    pub rules_checked :
        business_rules_gate n hash q.business_rules q.rules_version q.rules_config_hash rows
        ≡ ok rules_check
    pub compared :
        synthetic_gates n s digest q q.synthetic_feature_columns
          (split_real_and_synthetic_rows rows).0
          (split_real_and_synthetic_rows rows).1
        ≡ ok synthetic
    pub made :
        r
        ≡ report_of
            (checks_of rows columns rules_check ++ synthetic ++ pending_gates ++ source_of.0 ∷ [])
            source_of.1

  pub run_validation_gates-IsRun :
      (r : ValidationGatesReport) → run_validation_gates n s digest hash patterns q ≡ ok r → IsRun r
  unfolding run_validation_gates
  run_validation_gates-IsRun r h =
      let (read, e₁, h₁) = >>=-eq-ok (read_csv s q.candidate_artifact (codes "candidate")) _ h in
      let (rules_check, e₂, h₂) =
        >>=-eq-ok
          (business_rules_gate n hash q.business_rules q.rules_version q.rules_config_hash read.0) _
          h₁ in
      let (synthetic, e₃, h₃) =
        >>=-eq-ok
          (synthetic_gates n s digest q q.synthetic_feature_columns
            (split_real_and_synthetic_rows read.0).0 (split_real_and_synthetic_rows read.0).1)
          _ h₂ in
      record {
        rows = read.0;
        columns = read.1;
        rules_check = rules_check;
        synthetic = synthetic;
        read = e₁;
        rules_checked = e₂;
        compared = e₃;
        made = cc h₃;
      }

  source_blocks : source_of.1 ≡ false → gate_is_blocking source_of.0 ≡ true
  unfolding raw_artifact_immutability_gate
  source_blocks h =
      source_verdict-blocking s.sha256 q.source_artifact.hash (s.get q.source_artifact.uri) h

  any_last :
      (p : CandidateValidationGate → Bool) (xs : List CandidateValidationGate)
      (g : CandidateValidationGate)
      → p g ≡ true
      → any p (xs ++ g ∷ []) ≡ true
  any_last p xs g h = ground (arith, any-append p xs (g ∷ []))

  -- Validation failed exactly if a gate failed as a blocker; the candidate is ok exactly if no gate
  -- failed, and it is to be reviewed exactly if a gate failed and none as a blocker. The export is
  -- blocked, and a blocker noted, exactly if a gate failed as a blocker. With a changed or unreadable
  -- source validation failed.
  pub run_validation_gates-HasVerdict :
      (r : ValidationGatesReport)
      → run_validation_gates n s digest hash patterns q ≡ ok r
      → HasVerdict r × (r.raw_artifact_unchanged ≡ false → r.candidate_status ≡ validation_failed)
  unfolding report_of
  run_validation_gates-HasVerdict r h =
      let run = run_validation_gates-IsRun r h in
      let front =
        checks_of run.rows run.columns run.rules_check ++ run.synthetic ++ pending_gates in
      let gates = front ++ source_of.0 ∷ [] in
      let raw : source_of.1 ≡ false → any gate_is_blocking gates ≡ true =
        λ changed. any_last gate_is_blocking front source_of.0 (source_blocks changed) in
      let verdict = report_of-HasVerdict gates source_of.1 raw in
      subst
        (λ x.
          HasVerdict x
          × (x.raw_artifact_unchanged ≡ false → x.candidate_status ≡ validation_failed))
        (sym run.made) (verdict, λ changed. verdict.fails.1 (raw changed))
