-- ===== src/Release/Stops.antt =====
-- When each gate of app/kernel/export_package.py stops a package.
use dataforge_ai_ml_service.Prelude.{
  ℕ, ◌≤◌, Bool, true, false, not, ◌&&◌, ◌||◌, Option, none, some, List, [], ◌∷◌, map, keep,
  flat_map, any, all, nat_eq, list_eq, string_eq, ◌==◌, unique_from, String, ◌≡◌, ◌↔◌, refl, ap,
  ◌∙◌, arith, any-append, is_empty, is_empty-keep,
}
use dataforge_ai_ml_service.Validation.Gates.{
  ValidationGateType, schema_validation, business_rules, privacy_check, split_leakage_check,
  synthetic_dcr_check, synthetic_exact_duplicate_to_real, synthetic_nearest_neighbor_privacy,
  synthetic_distribution_similarity, synthetic_correlation_preservation,
  synthetic_missingness_comparison, synthetic_tstr, synthetic_trts, synthetic_shap_consistency,
  synthetic_tabsyndex, raw_artifact_immutability,
}
use dataforge_ai_ml_service.Validation.Gates.Csv.{ArtifactRef}
use dataforge_ai_ml_service.Validation.Gates.Report.{ValidationGatesReport}
use dataforge_ai_ml_service.Release.Version.{CandidateDatasetVersion}
use dataforge_ai_ml_service.Release.Export.{blocker_codes, ordered_codes}
use dataforge_ai_ml_service.Release.Gates.{
  ValidationGateResult, ModelImpactVerdict, improved, requires_review, degraded, rejected,
  TextOcrReport, BuildExportPackageRequest, gate_type_value, or_code, candidate_gate,
  raw_artifact_unchanged, raw_gate, validation_gate, privacy_gate, blocked_objects_gate,
  model_impact_gate, missing_unless, missing_required_artifacts, required_artifacts_gate,
}

abbrev pub has_blocker : Option ValidationGatesReport → Bool
has_blocker none = false
has_blocker (some report) = report.blocker_present

-- Every record with personal data is redacted, as far as the counts of the report say.
abbrev pub IsRedacted : Option TextOcrReport → Type 0
IsRedacted none = Unit
IsRedacted (some r) = r.total_pii_record_count ≤ r.total_redacted_record_count

-- The model impact allows the export.
abbrev pub MayExport : Option ModelImpactVerdict → Bool → Type 0
MayExport none true = ⊥
MayExport none false = Unit
MayExport (some improved) required = Unit
MayExport (some requires_review) required = Unit
MayExport (some degraded) required = ⊥
MayExport (some rejected) required = ⊥

abbrev pub is_missing : Bool → Option ArtifactRef → Bool
is_missing required none = required
is_missing required (some a) = false

-- Whether the source is known to be changed.
abbrev pub is_changed : Option Bool → Bool
is_changed none = false
is_changed (some true) = false
is_changed (some false) = true

pub record IsReady (q : BuildExportPackageRequest) : Type 0 where
  pub may_leave : q.candidate_dataset_version.block_export ≡ false
  pub unchanged :
      is_changed (
        raw_artifact_unchanged q.validation_gates_report
          q.candidate_dataset_version.raw_artifact_unchanged)
      ≡ false
  pub no_blocker : has_blocker q.validation_gates_report ≡ false
  pub redacted : IsRedacted q.text_ocr_report
  pub no_blocked_objects : q.blocked_object_count ≡ 0
  pub impact : MayExport q.model_impact_verdict q.require_model_impact_eligibility
  pub card : is_missing q.require_dataset_card q.dataset_card_artifact ≡ false
  pub lineage : is_missing q.require_lineage_artifact q.lineage_artifact ≡ false

abbrev pub is_code : String → Bool
is_code c = not (c == "")

abbrev pub stops : ValidationGateResult → Bool
stops g = any is_code (blocker_codes g)

pub is_empty-unique_from : (cs : List String) → is_empty (unique_from [] cs) ≡ is_empty cs
unfolding unique_from
is_empty-unique_from [] = refl
is_empty-unique_from (c ∷ cs) = refl

pub any-flat_map :
    (gates : List ValidationGateResult)
    → any is_code (flat_map blocker_codes gates) ≡ any stops gates
any-flat_map [] = refl
any-flat_map (g ∷ gates) =
    ground (
      arith,
      any-append is_code (blocker_codes g) (flat_map blocker_codes gates),
      any-flat_map gates,
    )

pub is_empty-ordered_codes :
    (gates : List ValidationGateResult)
    → is_empty (ordered_codes (flat_map blocker_codes gates)) ≡ not (any stops gates)
is_empty-ordered_codes gates =
    is_empty-unique_from (keep is_code (flat_map blocker_codes gates))
    ∙ is_empty-keep is_code (flat_map blocker_codes gates)
    ∙ ap not (any-flat_map gates)

pub any_code :
    (cs : List String) (default : String)
    → is_code default ≡ true
    → all is_code cs ≡ true
    → any is_code (or_code cs default) ≡ true
any_code [] default d h = ground (arith)
any_code (c ∷ cs) default d h = ground (arith)

pub candidate_gate_lem :
    (c : CandidateDatasetVersion)
    → all is_code c.blocker_reason_codes ≡ true
    → stops (candidate_gate c) ≡ c.block_export
candidate_gate_lem c h =
    ground (arith, any_code c.blocker_reason_codes "candidate_block_export_flag" refl h)

pub is_code-gate_type_value : (t : ValidationGateType) → is_code (gate_type_value t) ≡ true
is_code-gate_type_value schema_validation = refl
is_code-gate_type_value business_rules = refl
is_code-gate_type_value privacy_check = refl
is_code-gate_type_value split_leakage_check = refl
is_code-gate_type_value synthetic_dcr_check = refl
is_code-gate_type_value synthetic_exact_duplicate_to_real = refl
is_code-gate_type_value synthetic_nearest_neighbor_privacy = refl
is_code-gate_type_value synthetic_distribution_similarity = refl
is_code-gate_type_value synthetic_correlation_preservation = refl
is_code-gate_type_value synthetic_missingness_comparison = refl
is_code-gate_type_value synthetic_tstr = refl
is_code-gate_type_value synthetic_trts = refl
is_code-gate_type_value synthetic_shap_consistency = refl
is_code-gate_type_value synthetic_tabsyndex = refl
is_code-gate_type_value raw_artifact_immutability = refl

pub all-gate_type_value :
    (ts : List ValidationGateType) → all is_code (map gate_type_value ts) ≡ true
all-gate_type_value [] = refl
all-gate_type_value (t ∷ ts) = ground (arith, is_code-gate_type_value t, all-gate_type_value ts)

pub validation_gate_lem :
    (r : Option ValidationGatesReport) → stops (validation_gate r) ≡ has_blocker r
validation_gate_lem none = refl
validation_gate_lem (some r) = ground (
  arith,
  any_code (map gate_type_value r.blocker_gate_types) "validation_gates_blocker_present" refl
      (all-gate_type_value r.blocker_gate_types),
)

pub raw_gate_lem : (u : Option Bool) → stops (raw_gate u) ≡ is_changed u
raw_gate_lem none = refl
raw_gate_lem (some true) = refl
raw_gate_lem (some false) = refl

pub privacy_gate_lem : (r : Option TextOcrReport) → (stops (privacy_gate r) ≡ false) ↔ IsRedacted r
privacy_gate_lem none = (λ h. tt, λ h. refl)
privacy_gate_lem (some r) = (λ h. ground arith, λ h. ground arith)

pub blocked_objects_gate_lem : (n : ℕ) → (stops (blocked_objects_gate n) ≡ false) ↔ (n ≡ 0)
blocked_objects_gate_lem n = (λ h. ground arith, λ h. ground arith)

pub model_impact_gate_lem :
    (v : Option ModelImpactVerdict) (required : Bool)
    → (stops (model_impact_gate v required) ≡ false) ↔ MayExport v required
model_impact_gate_lem none true = (λ h. cc h, λ h. elim h [ ])
model_impact_gate_lem none false = (λ h. tt, λ h. refl)
model_impact_gate_lem (some improved) required = (λ h. tt, λ h. refl)
model_impact_gate_lem (some requires_review) required = (λ h. tt, λ h. refl)
model_impact_gate_lem (some degraded) required = (λ h. cc h, λ h. elim h [ ])
model_impact_gate_lem (some rejected) required = (λ h. cc h, λ h. elim h [ ])

pub any-missing_unless :
    (required : Bool) (a : Option ArtifactRef) (code : String)
    → any is_code (missing_unless required a code) ≡ (is_missing required a && is_code code)
any-missing_unless true none code = ground arith
any-missing_unless true (some a) code = refl
any-missing_unless false none code = refl
any-missing_unless false (some a) code = refl

pub stops-required : (cs : List String) → stops (required_artifacts_gate cs) ≡ any is_code cs
stops-required [] = refl
stops-required (c ∷ cs) = refl

pub required_artifacts_gate_lem :
    (q : BuildExportPackageRequest)
    → stops (required_artifacts_gate (missing_required_artifacts q)) ≡ (
        is_missing q.require_dataset_card q.dataset_card_artifact
        || is_missing q.require_lineage_artifact q.lineage_artifact)
required_artifacts_gate_lem q =
    let card =
      missing_unless q.require_dataset_card q.dataset_card_artifact
        "dataset_card_artifact_missing" in
    let lineage =
      missing_unless q.require_lineage_artifact q.lineage_artifact "lineage_artifact_missing" in
    ground (
      arith,
      stops-required (missing_required_artifacts q),
      any-append is_code card lineage,
      any-missing_unless q.require_dataset_card q.dataset_card_artifact
          "dataset_card_artifact_missing",
      any-missing_unless q.require_lineage_artifact q.lineage_artifact "lineage_artifact_missing",
    )
