-- ===== src/Release/Gates.antt =====
-- The gates of an export package: `_evaluate_export_gates` of app/kernel/export_package.py.
use dataforge_ai_ml_service.Prelude.{
  ℕ, ◌-◌, Bool, true, false, Option, none, some, List, [], ◌∷◌, ◌++◌, map, if◌then◌else◌, ltb,
  nat_eq, list_eq, string_eq, String,
}
use dataforge_ai_ml_service.Prelude.Texts.{Text}
use dataforge_ai_ml_service.Validation.Gates.{
  ValidationGateType, schema_validation, business_rules, privacy_check, split_leakage_check,
  synthetic_dcr_check, synthetic_exact_duplicate_to_real, synthetic_nearest_neighbor_privacy,
  synthetic_distribution_similarity, synthetic_correlation_preservation,
  synthetic_missingness_comparison, synthetic_tstr, synthetic_trts, synthetic_shap_consistency,
  synthetic_tabsyndex, raw_artifact_immutability,
}
use dataforge_ai_ml_service.Validation.Gates.Csv.{ArtifactRef}
use dataforge_ai_ml_service.Validation.Gates.Report.{ValidationGatesReport}
use dataforge_ai_ml_service.Release.Version.{CandidateDatasetVersion}

pub data GateStatus : Type 0 where
  gate_passed gate_failed gate_not_applicable : GateStatus

pub record ValidationGateResult : Type 0 where
  pub name : String
  pub status : GateStatus
  pub reason_codes : List String

pub data ExportPackageStatus : Type 0 where
  ready export_blocked : ExportPackageStatus

pub data ModelImpactVerdict : Type 0 where
  improved requires_review degraded rejected : ModelImpactVerdict

-- Of a TextOcrReport, the counts that the privacy gate reads
pub record TextOcrReport : Type 0 where
  pub total_pii_record_count : ℕ
  pub total_redacted_record_count : ℕ

pub record BuildExportPackageRequest : Type 0 where
  pub candidate_dataset_version : CandidateDatasetVersion
  pub validation_gates_report : Option ValidationGatesReport
  pub model_impact_verdict : Option ModelImpactVerdict
  pub text_ocr_report : Option TextOcrReport
  pub export_manifest_artifact : ArtifactRef
  pub tabular_artifacts : List ArtifactRef
  pub text_artifacts : List ArtifactRef
  pub dataset_card_artifact : Option ArtifactRef
  pub lineage_artifact : Option ArtifactRef
  pub dataforge_report_artifact : Option ArtifactRef
  pub review_queue_artifact : Option ArtifactRef
  pub extra_artifacts : List ArtifactRef
  pub included_object_count : ℕ
  pub blocked_object_count : ℕ
  pub excluded_object_count : ℕ
  pub require_model_impact_eligibility : Bool
  pub require_dataset_card : Bool
  pub require_lineage_artifact : Bool

pub record ExportPackage : Type 0 where
  pub status : ExportPackageStatus
  pub version_id : Text
  pub source_version_id : Text
  pub artifacts : List ArtifactRef
  pub validation_gates : List ValidationGateResult
  pub included : ℕ
  pub blocked_objects : ℕ
  pub excluded : ℕ
  pub blocked_reason_codes : List String

-- `gate_type.value`
abbrev pub gate_type_value : ValidationGateType → String
gate_type_value schema_validation = "schema_validation"
gate_type_value business_rules = "business_rules"
gate_type_value privacy_check = "privacy_check"
gate_type_value split_leakage_check = "split_leakage_check"
gate_type_value synthetic_dcr_check = "synthetic_dcr_check"
gate_type_value synthetic_exact_duplicate_to_real = "synthetic_exact_duplicate_to_real"
gate_type_value synthetic_nearest_neighbor_privacy = "synthetic_nearest_neighbor_privacy"
gate_type_value synthetic_distribution_similarity = "synthetic_distribution_similarity"
gate_type_value synthetic_correlation_preservation = "synthetic_correlation_preservation"
gate_type_value synthetic_missingness_comparison = "synthetic_missingness_comparison"
gate_type_value synthetic_tstr = "synthetic_tstr"
gate_type_value synthetic_trts = "synthetic_trts"
gate_type_value synthetic_shap_consistency = "synthetic_shap_consistency"
gate_type_value synthetic_tabsyndex = "synthetic_tabsyndex"
gate_type_value raw_artifact_immutability = "raw_artifact_immutability"

abbrev pub passes : String → ValidationGateResult
passes name = record { name = name; status = gate_passed; reason_codes = [] }

abbrev pub fails : String → List String → ValidationGateResult
fails name reasons = record { name = name; status = gate_failed; reason_codes = reasons }

abbrev pub skips : String → String → ValidationGateResult
skips name reason = record { name = name; status = gate_not_applicable; reason_codes = reason ∷ [] }

-- `codes or (default,)`
abbrev pub or_code : List String → String → List String
or_code [] default = default ∷ []
or_code (c ∷ cs) default = c ∷ cs

-- Gate 1
abbrev pub candidate_gate : CandidateDatasetVersion → ValidationGateResult
candidate_gate c =
    if c.block_export
    then fails "candidate_validation_passed"
        (or_code c.blocker_reason_codes "candidate_block_export_flag")
    else passes "candidate_validation_passed"

-- `_raw_artifact_unchanged`
abbrev pub raw_artifact_unchanged : Option ValidationGatesReport → Option Bool → Option Bool
raw_artifact_unchanged none summary = summary
raw_artifact_unchanged (some report) summary = some report.raw_artifact_unchanged

-- Gate 2
abbrev pub raw_gate : Option Bool → ValidationGateResult
raw_gate none = skips "raw_artifact_immutability" "raw_artifact_unchanged_unknown"
raw_gate (some true) = passes "raw_artifact_immutability"
raw_gate (some false) = fails "raw_artifact_immutability" ("raw_artifact_changed" ∷ [])

-- Gate 3
abbrev pub validation_gate : Option ValidationGatesReport → ValidationGateResult
validation_gate none = skips "validation_gates_blocker_check" "validation_gates_report_not_provided"
validation_gate (some report) =
    if report.blocker_present
    then fails "validation_gates_blocker_check"
        (or_code (map gate_type_value report.blocker_gate_types) "validation_gates_blocker_present")
    else passes "validation_gates_blocker_check"

-- Gate 4, `_privacy_gate`
abbrev pub privacy_gate : Option TextOcrReport → ValidationGateResult
privacy_gate none = skips "privacy_check" "text_ocr_report_not_provided"
privacy_gate (some r) =
    if ltb 0 (r.total_pii_record_count - r.total_redacted_record_count)
    then fails "privacy_check" ("pii_unmasked" ∷ [])
    else passes "privacy_check"

-- Gate 5
abbrev pub blocked_objects_gate : ℕ → ValidationGateResult
blocked_objects_gate count =
    if ltb 0 count
    then fails "blocked_objects_excluded" ("blocked_objects_present" ∷ [])
    else passes "blocked_objects_excluded"

-- Gate 6, `_model_impact_gate`
abbrev pub model_impact_gate : Option ModelImpactVerdict → Bool → ValidationGateResult
model_impact_gate none true = fails "model_impact_eligibility" ("model_impact_report_required" ∷ [])
model_impact_gate none false = skips "model_impact_eligibility" "model_impact_report_not_provided"
model_impact_gate (some rejected) required =
    fails "model_impact_eligibility" ("model_impact_rejected" ∷ [])
model_impact_gate (some degraded) required =
    fails "model_impact_eligibility" ("model_impact_degraded" ∷ [])
model_impact_gate (some improved) required = record {
  name = "model_impact_eligibility";
  status = gate_passed;
  reason_codes = "improved" ∷ [];
}
model_impact_gate (some requires_review) required = record {
  name = "model_impact_eligibility";
  status = gate_passed;
  reason_codes = "requires_review" ∷ [];
}

abbrev pub missing_unless : Bool → Option ArtifactRef → String → List String
missing_unless true none code = code ∷ []
missing_unless true (some a) code = []
missing_unless false a code = []

-- `_missing_required_artifacts`
abbrev pub missing_required_artifacts : BuildExportPackageRequest → List String
missing_required_artifacts q =
    missing_unless q.require_dataset_card q.dataset_card_artifact "dataset_card_artifact_missing"
    ++ missing_unless q.require_lineage_artifact q.lineage_artifact "lineage_artifact_missing"

-- Gate 7
abbrev pub required_artifacts_gate : List String → ValidationGateResult
required_artifacts_gate [] = passes "required_artifacts_present"
required_artifacts_gate (c ∷ cs) = fails "required_artifacts_present" (c ∷ cs)

unfoldable pub export_gates : BuildExportPackageRequest → List ValidationGateResult
export_gates q =
    candidate_gate q.candidate_dataset_version
    ∷ raw_gate (
        raw_artifact_unchanged q.validation_gates_report
          q.candidate_dataset_version.raw_artifact_unchanged)
    ∷ validation_gate q.validation_gates_report
    ∷ privacy_gate q.text_ocr_report
    ∷ blocked_objects_gate q.blocked_object_count
    ∷ model_impact_gate q.model_impact_verdict q.require_model_impact_eligibility
    ∷ required_artifacts_gate (missing_required_artifacts q)
    ∷ []
