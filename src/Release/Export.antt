-- ===== src/Release/Export.antt =====
-- `build_export_package` of app/kernel/export_package.py, and what
-- app/orchestration/apply_runtime.py surfaces of its outcome.
use dataforge_ai_ml_service.Prelude.{
  Bool, not, Option, none, some, List, [], ◌∷◌, ◌++◌, keep, flat_map, member, if◌then◌else◌, nat_eq,
  list_eq, string_eq, ◌==◌, ordered_unique, unique_from, String, is_empty,
}
use dataforge_ai_ml_service.Prelude.Texts.{Text}
use dataforge_ai_ml_service.Validation.Gates.Csv.{ArtifactRef}
use dataforge_ai_ml_service.Release.Version.{
  CandidateVersionStatus, proposed, needs_review, blocked, failed,
}
use dataforge_ai_ml_service.Release.Gates.{
  BuildExportPackageRequest, ExportPackage, ExportPackageStatus, ValidationGateResult,
  export_blocked, export_gates, gate_failed, gate_not_applicable, gate_passed, ready,
}

-- The codes that a gate adds to the blockers: those of its failure
abbrev pub blocker_codes : ValidationGateResult → List String
blocker_codes g = elim g.status [
  | gate_passed ↦ []
  | gate_failed ↦ g.reason_codes
  | gate_not_applicable ↦ []
]

-- `_ordered_unique`
abbrev pub ordered_codes : List String → List String
ordered_codes codes = ordered_unique (keep (λ c. not (c == "")) codes)

-- `_evaluate_export_gates`: the gates and the codes that block
unfoldable pub evaluate_export_gates :
    BuildExportPackageRequest → List ValidationGateResult × List String
unfolding export_gates unique_from
evaluate_export_gates q = (export_gates q, ordered_codes (flat_map blocker_codes (export_gates q)))

abbrev pub if_given {ℓ} : {A : Type ℓ} → Option A → List A
if_given none = []
if_given (some a) = a ∷ []

abbrev pub requested_artifacts : BuildExportPackageRequest → List ArtifactRef
requested_artifacts q =
    q.export_manifest_artifact
    ∷ (q.tabular_artifacts
        ++ q.text_artifacts
        ++ if_given q.dataset_card_artifact
        ++ if_given q.lineage_artifact
        ++ if_given q.dataforge_report_artifact
        ++ if_given q.review_queue_artifact
        ++ q.extra_artifacts)

-- The loop over the artifacts: the first of each uri
unfoldable pub first_of_uri : List Text → List ArtifactRef → List ArtifactRef
first_of_uri seen [] = []
first_of_uri seen (a ∷ rest) =
    let skipped = first_of_uri seen rest in
    let kept = first_of_uri (a.uri ∷ seen) rest in if member a.uri seen then skipped else a ∷ kept

-- `_resolve_artifacts`
unfoldable pub resolve_artifacts : BuildExportPackageRequest → Bool → List ArtifactRef
unfolding first_of_uri
resolve_artifacts q stopped =
    if stopped then q.export_manifest_artifact ∷ [] else first_of_uri [] (requested_artifacts q)

abbrev pub package_of :
    BuildExportPackageRequest → List ValidationGateResult → List String → ExportPackage
package_of q gates codes = record {
  status = if is_empty codes then ready else export_blocked;
  version_id = q.candidate_dataset_version.proposed_version_name;
  source_version_id = q.candidate_dataset_version.parent_version_id;
  artifacts = resolve_artifacts q (not (is_empty codes));
  validation_gates = gates;
  included = if is_empty codes then q.included_object_count else 0;
  blocked_objects = q.blocked_object_count;
  excluded = q.excluded_object_count;
  blocked_reason_codes = codes;
}

-- `build_export_package`: the package that is saved
unfoldable pub build_export_package : BuildExportPackageRequest → ExportPackage
unfolding evaluate_export_gates resolve_artifacts
build_export_package q = let gates = evaluate_export_gates q in package_of q gates.0 gates.1

-- `final_candidate_ref`, of a version and its artifact
unfoldable pub final_candidate_ref : CandidateVersionStatus → ArtifactRef → Option ArtifactRef
final_candidate_ref proposed a = some a
final_candidate_ref needs_review a = some a
final_candidate_ref blocked a = none
final_candidate_ref failed a = none

-- `final_export_ref`, of a package and its artifact
unfoldable pub final_export_ref : ExportPackageStatus → ArtifactRef → Option ArtifactRef
final_export_ref ready a = some a
final_export_ref export_blocked a = none
