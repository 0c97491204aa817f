-- ===== src/Validation/Gates.antt =====
-- The gates of app/plugins/validation/gates.py, with their contracts of
-- app/domain/validation_gates.py.
pub mod Csv
pub mod Checks
pub mod Distances
pub mod Synthetic
pub mod Report
pub mod Verdict
pub mod Flags
pub mod Passing
pub mod Acceptance
use dataforge_ai_ml_service.Prelude.{ℕ, Bool, true, false, Option, none, some, List, [], String}
use dataforge_ai_ml_service.Prelude.Texts.{Text}

pub data ValidationGateType : Type 0 where
  schema_validation business_rules privacy_check split_leakage_check synthetic_dcr_check
        synthetic_exact_duplicate_to_real synthetic_nearest_neighbor_privacy
        synthetic_distribution_similarity synthetic_correlation_preservation
        synthetic_missingness_comparison synthetic_tstr synthetic_trts synthetic_shap_consistency
        synthetic_tabsyndex raw_artifact_immutability :
      ValidationGateType

pub data ValidationGateStatus : Type 0 where
  passed failed not_applicable : ValidationGateStatus

pub data ValidationGateSeverity : Type 0 where
  info warning blocker : ValidationGateSeverity

pub data BlockAction : Type 0 where
  block_export block_model_evaluation block_training : BlockAction

-- A finding without the texts and numbers that only describe it.
pub record ValidationGateFinding : Type 0 where
  pub object_ids : List Text
  pub columns : List Text

-- A gate without its metrics and notes.
pub record CandidateValidationGate : Type 0 where
  pub gate_type : ValidationGateType
  pub status : ValidationGateStatus
  pub severity : ValidationGateSeverity
  pub reason_code : String
  pub block_action : Option BlockAction
  pub findings_count : ℕ
  pub findings : List ValidationGateFinding

pub data CandidateArtifactStatus : Type 0 where
  ok validation_failed review_required : CandidateArtifactStatus

abbrev pub gate :
    ValidationGateType
    → ValidationGateStatus
    → ValidationGateSeverity
    → String
    → CandidateValidationGate
gate type status severity reason = record {
  gate_type = type;
  status = status;
  severity = severity;
  reason_code = reason;
  block_action = none;
  findings_count = 0;
  findings = [];
}

abbrev pub passed_gate : ValidationGateType → String → CandidateValidationGate
passed_gate type reason = gate type passed info reason

-- `_synthetic_not_applicable_gate`, and the other gates that do not apply
abbrev pub not_applicable_gate : ValidationGateType → String → CandidateValidationGate
not_applicable_gate type reason = gate type not_applicable info reason

abbrev pub failed_gate :
    ValidationGateType
    → ValidationGateSeverity
    → String
    → Option BlockAction
    → ℕ
    → List ValidationGateFinding
    → CandidateValidationGate
failed_gate type severity reason action count findings = record {
  gate_type = type;
  status = failed;
  severity = severity;
  reason_code = reason;
  block_action = action;
  findings_count = count;
  findings = findings;
}

abbrev pub is_failed : ValidationGateStatus → Bool
is_failed failed = true
is_failed passed = false
is_failed not_applicable = false

abbrev pub is_blocker_severity : ValidationGateSeverity → Bool
is_blocker_severity blocker = true
is_blocker_severity info = false
is_blocker_severity warning = false
