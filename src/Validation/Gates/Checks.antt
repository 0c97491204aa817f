-- ===== src/Validation/Gates/Checks.antt =====
-- The gates of app/plugins/validation/gates.py that every candidate goes through.
use dataforge_ai_ml_service.Prelude.{
  ℕ, Bool, true, false, not, ◌&&◌, ◌||◌, Option, none, some, List, [], ◌∷◌, map, keep, take, length,
  sum_of, flat_map, ordered_unique, member, if◌then◌else◌, nat_eq, list_eq, ◌==◌, Result, ok, raise,
  ◌>>=◌, is_empty,
}
use dataforge_ai_ml_service.Prelude.Sorting.{sorted, nat_order, list_order}
use dataforge_ai_ml_service.Prelude.Texts.{Text}
use dataforge_ai_ml_service.Validation.Numbers.{Numbers}
use dataforge_ai_ml_service.Validation.RuleModel.{
  Row, BusinessRule, BusinessRulesReport, BusinessRuleViolation, RuleError, cell, is_blank,
}
use dataforge_ai_ml_service.Validation.Rules.{business_rule_evaluator, build_report}
use dataforge_ai_ml_service.Validation.Rules.Counting.{observe_rows}
use dataforge_ai_ml_service.Validation.Gates.{
  schema_validation, business_rules, privacy_check, split_leakage_check, raw_artifact_immutability,
  warning, blocker, BlockAction, block_export, block_training, block_model_evaluation,
  ValidationGateSeverity, ValidationGateFinding, CandidateValidationGate, passed_gate,
  not_applicable_gate, failed_gate,
}
use dataforge_ai_ml_service.Validation.Gates.Csv.{
  GatesError, rule_error, Storage, ArtifactRef, object_id,
}

-- `(row.get("object_id"),) if row.get("object_id") else ()`
abbrev pub id_of : Row → List Text
id_of row = if is_blank (cell row object_id) then [] else cell row object_id ∷ []

abbrev pub cell_finding : Row → Text → ValidationGateFinding
cell_finding row column = record { object_ids = id_of row; columns = column ∷ [] }

-- `sorted(set(declared) - set(actual))`
abbrev pub missing_columns : List Text → List Text → List Text
missing_columns declared actual =
    sorted (ordered_unique (keep (λ c. not (member c actual)) declared))

abbrev pub id_list : Option Text → List Text
id_list none = []
id_list (some t) = t ∷ []

abbrev pub violation_finding : BusinessRuleViolation → ValidationGateFinding
violation_finding v = record { object_ids = id_list v.object_id; columns = id_list v.column }

-- The part of `_business_rules_gate` after the report is built.
abbrev pub rules_verdict : BusinessRulesReport → CandidateValidationGate
rules_verdict report =
    let findings_count = sum_of (λ r. r.violation_count) report.rules in
    let findings = map violation_finding (take 10 report.sample_violations) in
    if findings_count == 0
    then passed_gate business_rules "business_rules_passed"
    else if is_empty report.blocker_candidate_rule_ids
    then failed_gate business_rules warning "business_rule_warning" none findings_count findings
    else failed_gate business_rules blocker "business_rule_failure" (some block_export)
        findings_count findings

abbrev pub sample_limit : ℕ
sample_limit = 50

abbrev pub lift_rule_error {ℓ} : {A : Type ℓ} → Result RuleError A → Result GatesError A
lift_rule_error (ok a) = ok a
lift_rule_error (raise x) = raise (rule_error x)

module _ {N F : Type 0} (n : Numbers N F) where
  abbrev pub is_float : Text → Bool
  is_float value = elim (n.parse value) [ none ↦ false | some x ↦ true ]

  -- The rows with a value in a numeric column that is no number.
  abbrev pub non_numeric : Text → List Row → List Row
  non_numeric column rows =
      keep (λ row. not (is_blank (cell row column)) && not (is_float (cell row column))) rows

  abbrev pub numeric_findings : List Text → List Text → List Row → List ValidationGateFinding
  numeric_findings numeric_columns actual rows =
      flat_map (λ column. map (λ row. cell_finding row column) (non_numeric column rows))
        (keep (λ column. member column actual) numeric_columns)

  -- `_schema_gate`
  unfoldable pub schema_gate :
      List Text → List Text → List Text → List Row → CandidateValidationGate
  schema_gate schema_columns numeric_columns actual rows =
      let missing = missing_columns schema_columns actual in
      let findings = numeric_findings numeric_columns actual rows in
      if not (is_empty missing)
      then failed_gate schema_validation blocker "schema_columns_missing" (some block_export)
          (length missing) ((record { object_ids = []; columns = missing }) ∷ [])
      else if not (is_empty findings)
      then failed_gate schema_validation warning "non_numeric_values_in_numeric_columns" none
          (length findings) (take 5 findings)
      else passed_gate schema_validation "schema_match"

  -- `_business_rules_gate`; the texts are the version and the hash of the rules.
  unfoldable pub business_rules_gate :
      (List (BusinessRule N) → Text)
      → List (BusinessRule N)
      → Text
      → Option Text
      → List Row
      → Result GatesError CandidateValidationGate
  business_rules_gate hash [] version config_hash rows =
      ok (not_applicable_gate business_rules "no_business_rules_configured")
  business_rules_gate hash (rule ∷ rules) version config_hash rows = do
    let evaluator = business_rule_evaluator hash (rule ∷ rules) version config_hash sample_limit
    observed ← lift_rule_error (observe_rows n evaluator rows)
    ok (rules_verdict (build_report observed))

-- A cell that shows one of the patterns, each given by its search in a text.
abbrev pub shows_any : List (Text × (Text → Bool)) → Text → Bool
shows_any [] value = false
shows_any ((category, search) ∷ patterns) value = search value || shows_any patterns value

-- A blank cell is passed over, and one match in a cell is enough.
abbrev pub pii_findings_in :
    List (Text × (Text → Bool)) → List Text → Row → List ValidationGateFinding
pii_findings_in patterns columns row = map (cell_finding row) (
    keep (λ column. not (is_blank (cell row column)) && shows_any patterns (cell row column))
      columns)

-- `_privacy_gate`
unfoldable pub privacy_gate :
    List (Text × (Text → Bool)) → List Row → List Text → Bool → List Text → CandidateValidationGate
privacy_gate patterns rows columns pii_restricted numeric_columns =
    let searched = keep (λ column. not (member column numeric_columns)) columns in
    let findings = flat_map (pii_findings_in patterns searched) rows in
    if is_empty findings
    then passed_gate privacy_check "no_pii_detected"
    else if pii_restricted
    then failed_gate privacy_check blocker "pii_in_restricted_candidate" (some block_export)
        (length findings) (take 5 findings)
    else failed_gate privacy_check warning "pii_detected" none (length findings) (take 5 findings)

-- What the gate reads of a SplitLeakageReport; the counts are those of its checks.
pub record SplitLeakageReport : Type 0 where
  pub leakage_detected : Bool
  pub block_training : Bool
  pub block_model_evaluation : Bool
  pub findings_counts : List ℕ

abbrev pub leakage_action : SplitLeakageReport → Option BlockAction
leakage_action r =
    if r.block_training
    then some block_training
    else if r.block_model_evaluation
    then some block_model_evaluation
    else none

abbrev pub severity_of : Option BlockAction → ValidationGateSeverity
severity_of none = warning
severity_of (some a) = blocker

-- `_split_leakage_gate`
unfoldable pub split_leakage_gate : Option SplitLeakageReport → CandidateValidationGate
split_leakage_gate none =
    not_applicable_gate split_leakage_check "split_leakage_report_not_provided"
split_leakage_gate (some r) =
    if not r.leakage_detected
    then passed_gate split_leakage_check "no_split_leakage"
    else failed_gate split_leakage_check (severity_of (leakage_action r)) "split_leakage_detected"
        (leakage_action r) (sum_of (λ c. c) r.findings_counts) []

-- `_raw_artifact_immutability_gate`, with whether the source is unchanged
abbrev pub source_verdict :
    (List ℕ → Text) → Text → Option (List ℕ) → CandidateValidationGate × Bool
source_verdict sha256 hash none = (
  failed_gate raw_artifact_immutability blocker "source_artifact_unreadable" (some block_export) 1
      [],
  false,
)
source_verdict sha256 hash (some stored) =
    if sha256 stored == hash
    then (passed_gate raw_artifact_immutability "raw_artifact_unchanged", true)
    else (
      failed_gate raw_artifact_immutability blocker "raw_artifact_mutated" (some block_export) 1 [],
      false,
    )

unfoldable pub raw_artifact_immutability_gate :
    Storage → ArtifactRef → CandidateValidationGate × Bool
raw_artifact_immutability_gate s source = source_verdict s.sha256 source.hash (s.get source.uri)
