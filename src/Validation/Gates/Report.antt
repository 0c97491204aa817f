-- ===== src/Validation/Gates/Report.antt =====
-- `run_validation_gates` of app/plugins/validation/gates.py. The report is the value that the code
-- saves through its ArtifactRegistry.
use dataforge_ai_ml_service.Prelude.{
  Bool, true, false, not, ◌&&◌, ◌||◌, Option, none, some, List, [], ◌∷◌, ◌++◌, String, map, keep,
  any, member, if◌then◌else◌, nat_eq, list_eq, Result, ok, ◌>>=◌, is_empty,
}
use dataforge_ai_ml_service.Prelude.Texts.{Text, codes}
use dataforge_ai_ml_service.Json.{Json}
use dataforge_ai_ml_service.Validation.Numbers.{Numbers}
use dataforge_ai_ml_service.Validation.RuleModel.{Row, BusinessRule}
use dataforge_ai_ml_service.Validation.Gates
use dataforge_ai_ml_service.Validation.Gates.{
  ValidationGateType, synthetic_dcr_check, synthetic_exact_duplicate_to_real,
  synthetic_nearest_neighbor_privacy, synthetic_distribution_similarity,
  synthetic_correlation_preservation, synthetic_missingness_comparison, synthetic_tstr,
  synthetic_trts, synthetic_shap_consistency, synthetic_tabsyndex, ValidationGateStatus, passed,
  failed, not_applicable, BlockAction, block_export, block_model_evaluation, block_training,
  CandidateArtifactStatus, validation_failed, review_required, CandidateValidationGate,
  not_applicable_gate, is_failed, is_blocker_severity,
}
use dataforge_ai_ml_service.Validation.Gates.Csv.{GatesError, Storage, ArtifactRef, read_csv}
use dataforge_ai_ml_service.Validation.Gates.Checks.{
  SplitLeakageReport, schema_gate, business_rules_gate, privacy_gate, split_leakage_gate,
  raw_artifact_immutability_gate,
}
use dataforge_ai_ml_service.Validation.Gates.Distances.{compute_dcr}
use dataforge_ai_ml_service.Validation.Gates.Synthetic.{
  DcrThresholds, split_real_and_synthetic_rows, resolve_dcr_reference_rows, dcr_gate,
  synthetic_exact_duplicate_gate, synthetic_nearest_neighbor_privacy_gate,
}

-- The request, without the identifiers that only go through to the report. Of a
-- SyntheticDatasetReport the executor reads the feature columns.
pub record RunValidationGatesRequest (N F : Type 0) : Type 0 where
  pub candidate_artifact : ArtifactRef
  pub source_artifact : ArtifactRef
  pub schema_columns : List Text
  pub numeric_columns : List Text
  pub business_rules : List (BusinessRule N)
  pub rules_version : Text
  pub rules_config_hash : Option Text
  pub pii_restricted : Bool
  pub split_leakage_report : Option SplitLeakageReport
  pub synthetic_feature_columns : Option (List Text)
  pub dcr_thresholds : DcrThresholds F

pub record ValidationGatesReport : Type 0 where
  pub overall_status : ValidationGateStatus
  pub candidate_status : CandidateArtifactStatus
  pub raw_artifact_unchanged : Bool
  pub block_export : Bool
  pub block_model_evaluation : Bool
  pub block_training : Bool
  pub blocker_present : Bool
  pub blocker_gate_types : List ValidationGateType
  pub gates : List CandidateValidationGate

abbrev pub is_applicable : CandidateValidationGate → Bool
is_applicable g = elim g.status [ not_applicable ↦ false | passed ↦ true | failed ↦ true ]

-- `_overall_status`
unfoldable pub overall_status_of : List CandidateValidationGate → ValidationGateStatus
overall_status_of gates =
    if not (any is_applicable gates)
    then not_applicable
    else if any (λ g. is_failed g.status) gates
    then failed
    else passed

-- `_gate_is_blocking`
abbrev pub gate_is_blocking : CandidateValidationGate → Bool
gate_is_blocking g = is_failed g.status && is_blocker_severity g.severity

abbrev pub is_action : BlockAction → BlockAction → Bool
is_action block_export block_export = true
is_action block_model_evaluation block_model_evaluation = true
is_action block_training block_training = true
is_action _ _ = false

abbrev pub has_action : BlockAction → Option BlockAction → Bool
has_action a none = false
has_action a (some b) = is_action a b

abbrev pub blocks : BlockAction → List CandidateValidationGate → Bool
blocks a gates = any (λ g. gate_is_blocking g && has_action a g.block_action) gates

abbrev pub is_validation_failed : CandidateArtifactStatus → Bool
is_validation_failed validation_failed = true
is_validation_failed Gates.ok = false
is_validation_failed review_required = false

abbrev pub candidate_status_of : List CandidateValidationGate → Bool → CandidateArtifactStatus
candidate_status_of gates raw_unchanged =
    let blockers = keep gate_is_blocking gates in
    let status =
      if not (is_failed (overall_status_of gates)) && is_empty blockers
      then Gates.ok
      else if is_empty blockers
      then review_required
      else validation_failed in
    if raw_unchanged then status else validation_failed

-- The report from the gates, and whether the source is unchanged.
unfoldable pub report_of : List CandidateValidationGate → Bool → ValidationGatesReport
unfolding overall_status_of
report_of gates raw_unchanged =
    let blockers = keep gate_is_blocking gates in
    let status = candidate_status_of gates raw_unchanged in
    record {
      overall_status = overall_status_of gates;
      candidate_status = status;
      raw_artifact_unchanged = raw_unchanged;
      block_export = blocks block_export gates || is_validation_failed status;
      block_model_evaluation = blocks block_model_evaluation gates;
      block_training = blocks block_training gates;
      blocker_present = not (is_empty blockers);
      blocker_gate_types = map (λ g. g.gate_type) blockers;
      gates = gates;
    }

-- The gates that wait for pipelines of their own.
abbrev pub pending_gates : List CandidateValidationGate
pending_gates =
    not_applicable_gate synthetic_distribution_similarity
      "distribution_similarity_pipeline_not_available"
    ∷ not_applicable_gate synthetic_correlation_preservation
        "correlation_preservation_pipeline_not_available"
    ∷ not_applicable_gate synthetic_missingness_comparison
        "missingness_comparison_pipeline_not_available"
    ∷ not_applicable_gate synthetic_tstr "model_impact_pipeline_not_available"
    ∷ not_applicable_gate synthetic_trts "model_impact_pipeline_not_available"
    ∷ not_applicable_gate synthetic_shap_consistency "shap_pipeline_not_available"
    ∷ not_applicable_gate synthetic_tabsyndex "tabsyndex_pipeline_not_available"
    ∷ []

abbrev pub no_synthetic_gates : String → List CandidateValidationGate
no_synthetic_gates reason =
    not_applicable_gate synthetic_dcr_check reason
    ∷ not_applicable_gate synthetic_exact_duplicate_to_real reason
    ∷ not_applicable_gate synthetic_nearest_neighbor_privacy reason
    ∷ []

abbrev pub or_all : List Text → List Text → List Text
or_all [] other = other
or_all (x ∷ xs) other = x ∷ xs

-- The feature columns that are compared: the numeric ones, if any are named and any are left.
abbrev pub compared_columns : List Text → List Text → List Text
compared_columns features [] = features
compared_columns features (c ∷ numeric) =
    or_all (keep (λ column. member column (c ∷ numeric)) features) features

module _ {N F : Type 0} (n : Numbers N F) (s : Storage) (digest : Json → Text) where
  abbrev pub compared_gates :
      DcrThresholds F → List Text → List Row → List Row × Text → List CandidateValidationGate
  compared_gates t columns synthetic_rows (reals, scope) =
      let metrics = compute_dcr n synthetic_rows reals columns scope in
      dcr_gate n metrics t
      ∷ synthetic_exact_duplicate_gate digest synthetic_rows reals columns
      ∷ synthetic_nearest_neighbor_privacy_gate n metrics synthetic_rows t
      ∷ []

  -- The three gates on synthetic rows.
  abbrev pub synthetic_gates :
      RunValidationGatesRequest N F
      → Option (List Text)
      → List Row
      → List Row
      → Result GatesError (List CandidateValidationGate)
  synthetic_gates q none synthetic_rows real_rows =
      ok (no_synthetic_gates "synthetic_artifact_not_provided")
  synthetic_gates q (some features) [] real_rows =
      ok (no_synthetic_gates "candidate_has_no_synthetic_rows")
  synthetic_gates q (some features) (row ∷ synthetic_rows) real_rows = do
    reference ← resolve_dcr_reference_rows s q.source_artifact real_rows
    let columns = compared_columns features q.numeric_columns
    ok (compared_gates q.dcr_thresholds columns (row ∷ synthetic_rows) reference)

  -- `run_validation_gates`
  unfoldable pub run_validation_gates :
      (List (BusinessRule N) → Text)
      → List (Text × (Text → Bool))
      → RunValidationGatesRequest N F
      → Result GatesError ValidationGatesReport
  run_validation_gates hash patterns q = do
    read ← read_csv s q.candidate_artifact (codes "candidate")
    let rows = read.0
    let columns = read.1
    let source = raw_artifact_immutability_gate s q.source_artifact
    rules_check ←
        business_rules_gate n hash q.business_rules q.rules_version q.rules_config_hash rows
    let split = split_real_and_synthetic_rows rows
    synthetic ← synthetic_gates q q.synthetic_feature_columns split.0 split.1
    let checks =
        schema_gate n q.schema_columns q.numeric_columns columns rows
        ∷ rules_check
        ∷ privacy_gate patterns rows columns q.pii_restricted q.numeric_columns
        ∷ split_leakage_gate q.split_leakage_report
        ∷ []
    ok (report_of (checks ++ synthetic ++ pending_gates ++ source.0 ∷ []) source.1)
