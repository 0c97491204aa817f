-- ===== src/Release/Tests.antt =====
-- Runs of app/kernel/candidate_version.py and app/kernel/export_package.py, and the theorems about
-- them at concrete inputs.
use dataforge_ai_ml_service.Prelude.{
  true, Option, none, some, [], ◌∷◌, map, all, nat_eq, list_eq, string_eq, unique_from, ok, raise,
  ◌≡◌, refl, ap, arith, ◌≤◌,
}
use dataforge_ai_ml_service.Prelude.Texts.{Text, codes}
use dataforge_ai_ml_service.ActionPlan.Model.{ActionPlan, apply_selected_actions}
use dataforge_ai_ml_service.Validation.Samples.{
  digits, storage, payload_text, hash_rules, at_sign, request, run_ok,
}
use dataforge_ai_ml_service.Validation.Gates.Csv.{ArtifactRef}
use dataforge_ai_ml_service.Validation.Gates.Report.{ValidationGatesReport, run_validation_gates}
use dataforge_ai_ml_service.Release.Candidate.{
  resolve_status, resolve_blocker_reason_codes, build_synthetic_metadata,
  build_candidate_dataset_version, candidate_of,
}
use dataforge_ai_ml_service.Release.Version.{
  BuildCandidateVersionRequest, CandidateDatasetVersion, SyntheticDatasetReport, proposed, failed,
  synthetic_candidate_has_no_generated_rows,
}
use dataforge_ai_ml_service.Release.Export.{
  evaluate_export_gates, resolve_artifacts, build_export_package,
}
use dataforge_ai_ml_service.Release.Gates.{
  BuildExportPackageRequest, ready, export_blocked, improved, export_gates,
}
use dataforge_ai_ml_service.Release.Stops.{is_code, is_changed}
use dataforge_ai_ml_service.Release.Package.{IsSettled, build_export_package-IsSettled}
use dataforge_ai_ml_service.Release.Chain.{IsReleased, build_export_package-gated}

abbrev artifact : Text → ArtifactRef
artifact name = record { uri = name; hash = name }

abbrev plan : ActionPlan
plan = record {
  action_plan_id = codes "plan-1";
  plan_schema_version = codes "v";
  source_dataset_version_id = codes "v1";
  target_version_name = codes "v2";
  created_from_decision_report = codes "dr";
  selected_decision_ids = [];
  created_by_user_id = codes "u";
  policy_version = codes "p";
  requires_approval = true;
  approval_request_id = none;
  execution_mode = apply_selected_actions;
  steps = [];
  validation_gates = [];
  expected_outputs = [];
  created_at = codes "now";
}

abbrev building : Option ValidationGatesReport → BuildCandidateVersionRequest
building report = record {
  parent_version_id = codes "v1";
  proposed_version_name = codes "v2";
  action_plan = plan;
  source_artifacts = artifact (codes "source") ∷ [];
  candidate_artifacts = artifact (codes "candidate") ∷ artifact (codes "candidate") ∷ [];
  primary_dataset_artifact = artifact (codes "candidate");
  validation_gates_report = report;
  validation_gates_report_artifact = none;
  synthetic_dataset_report = none;
  synthetic_dataset_report_artifact = none;
  synthetic_validation_report_artifact = none;
  model_impact_report_artifact = none;
}

abbrev candidate : CandidateDatasetVersion
candidate = candidate_of (building (some run_ok.0)) none

candidate_built :
    build_candidate_dataset_version (building (some run_ok.0)) none ≡ ok (candidate, none)
unfolding build_candidate_dataset_version build_synthetic_metadata
candidate_built = refl

abbrev exporting :
    CandidateDatasetVersion → Option ValidationGatesReport → BuildExportPackageRequest
exporting c report = record {
  candidate_dataset_version = c;
  validation_gates_report = report;
  model_impact_verdict = some improved;
  text_ocr_report = some (record { total_pii_record_count = 2; total_redacted_record_count = 3 });
  export_manifest_artifact = artifact (codes "manifest");
  tabular_artifacts = artifact (codes "candidate") ∷ artifact (codes "manifest") ∷ [];
  text_artifacts = [];
  dataset_card_artifact = some (artifact (codes "card"));
  lineage_artifact = some (artifact (codes "candidate"));
  dataforge_report_artifact = none;
  review_queue_artifact = none;
  extra_artifacts = [];
  included_object_count = 10;
  blocked_object_count = 0;
  excluded_object_count = 1;
  require_model_impact_eligibility = true;
  require_dataset_card = true;
  require_lineage_artifact = true;
}

no_blocking_codes : all is_code candidate.blocker_reason_codes ≡ true
unfolding resolve_blocker_reason_codes
no_blocking_codes =
    let (_, _, _, none_blocks, _, _, _) = run_ok in
    ap (λ gates. all is_code (map (λ g. g.reason_code) gates)) none_blocks

package_ready : (build_export_package (exporting candidate (some run_ok.0))).status ≡ ready
package_ready =
    let (_, _, _, _, no_blocker, may_leave, unchanged) = run_ok in
    (build_export_package-IsSettled (exporting candidate (some run_ok.0))
        no_blocking_codes).ready_iff.1
      (record {
        may_leave = may_leave;
        unchanged = ap (λ b. is_changed (some b)) unchanged;
        no_blocker = no_blocker;
        redacted = redacted_of_three;
        no_blocked_objects = refl;
        impact = tt;
        card = refl;
        lineage = refl;
      })
  where
    redacted_of_three : 2 ≤ 3
    redacted_of_three = omega arith

-- Without a report the candidate has failed, and its package is held back.
abbrev unchecked : CandidateDatasetVersion
unchecked = candidate_of (building none) none

package_held_back :
    ((build_export_package (exporting unchecked none)).status ≡ export_blocked)
    × ((build_export_package (exporting unchecked none)).artifacts
        ≡ artifact (codes "manifest") ∷ [])
    × ((build_export_package (exporting unchecked none)).blocked_reason_codes
        ≡ "candidate_block_export_flag" ∷ [])
    × (unchecked.status ≡ failed)
unfolding build_export_package evaluate_export_gates export_gates resolve_artifacts unique_from
    resolve_status resolve_blocker_reason_codes
package_held_back = (refl, refl, refl, refl)

no_codes : all is_code unchecked.blocker_reason_codes ≡ true
unfolding resolve_blocker_reason_codes
no_codes = refl

build_export_package-IsSettled_example : IsSettled (exporting unchecked none)
build_export_package-IsSettled_example =
    build_export_package-IsSettled (exporting unchecked none) no_codes

build_export_package-gated_example : IsReleased (building (some run_ok.0)) candidate
build_export_package-gated_example =
    build_export_package-gated digits storage payload_text hash_rules at_sign (request 1 (2 ∷ []))
      (building (some run_ok.0)) none none candidate (exporting candidate (some run_ok.0))
      (λ r given. made given) candidate_built refl refl package_ready
  where
    made :
        {r : ValidationGatesReport}
        → some run_ok.0 ≡ some r
        → run_validation_gates digits storage payload_text hash_rules at_sign (request 1 (2 ∷ []))
          ≡ ok r
    made given = cc (run_ok.1, given)

abbrev no_rows : SyntheticDatasetReport
no_rows = record {
  method = codes "smote";
  method_version = codes "1";
  rare_class_label = none;
  source_split = codes "train";
  random_seed = 7;
  generated_count = 0;
  seed_object_ids = [];
}

empty_synthetic_report :
    build_synthetic_metadata
      (record (building none) {
        synthetic_dataset_report = some no_rows;
        synthetic_dataset_report_artifact = some (artifact (codes "report"));
        validation_gates_report_artifact = some (artifact (codes "gates"));
      })
      proposed
    ≡ raise synthetic_candidate_has_no_generated_rows
unfolding build_synthetic_metadata
empty_synthetic_report = refl
