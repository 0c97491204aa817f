-- ===== src/Release/Chain.antt =====
-- The gates' report, the candidate and the package of one apply run: how
-- app/orchestration/apply_runtime.py hands each to the next.
use dataforge_ai_ml_service.Prelude.{
  Bool, true, false, Option, none, some, List, [], any, ok, >>=-eq-ok, ◌≡◌, refl, sym, ap, ◌∙◌,
  arith, Bool-cases, inl, inr,
}
use dataforge_ai_ml_service.Prelude.Texts.{Text}
use dataforge_ai_ml_service.Json.{Json}
use dataforge_ai_ml_service.Validation.Numbers.{Numbers}
use dataforge_ai_ml_service.Validation.RuleModel.{BusinessRule}
use dataforge_ai_ml_service.Validation.Gates
use dataforge_ai_ml_service.Validation.Gates.{
  CandidateArtifactStatus, validation_failed, review_required,
}
use dataforge_ai_ml_service.Validation.Gates.Csv.{Storage, ArtifactRef}
use dataforge_ai_ml_service.Validation.Gates.Report.{
  RunValidationGatesRequest, ValidationGatesReport, gate_is_blocking, run_validation_gates,
}
use dataforge_ai_ml_service.Validation.Gates.Verdict.{HasVerdict, run_validation_gates-HasVerdict}
use dataforge_ai_ml_service.Release.Candidate.{
  PlatformAuditEvent, build_synthetic_metadata, resolve_status, resolve_block,
  resolve_blocker_reason_codes, status_of, candidate_of, build_candidate_dataset_version,
}
use dataforge_ai_ml_service.Release.Version.{BuildCandidateVersionRequest, CandidateDatasetVersion}
use dataforge_ai_ml_service.Release.Export.{build_export_package, final_candidate_ref}
use dataforge_ai_ml_service.Release.Gates.{
  ready, BuildExportPackageRequest, candidate_gate, export_gates,
}
use dataforge_ai_ml_service.Release.Ready.{none_stops-blocker, none_stops-candidate}
use dataforge_ai_ml_service.Release.Stops.{has_blocker, stops, is_empty-ordered_codes}

-- What stands behind a package that is ready: the report of the candidate's gates
pub record IsReleased (b : BuildCandidateVersionRequest) (c : CandidateDatasetVersion)
    : Type 0 where
  pub report : ValidationGatesReport
  pub checked : b.validation_gates_report ≡ some report
  pub no_blocker : any gate_is_blocking report.gates ≡ false
  pub unchanged : report.raw_artifact_unchanged ≡ true
  pub may_leave : c.block_export ≡ false
  pub surfaced : (a : ArtifactRef) → final_candidate_ref c.status a ≡ some a

ready_none_stops :
    (q : BuildExportPackageRequest)
    → (build_export_package q).status ≡ ready
    → any stops (export_gates q) ≡ false
unfolding build_export_package
ready_none_stops q h = let codes = is_empty-ordered_codes (export_gates q) in ground (arith, codes)

surfaced_unless_failed :
    (status : CandidateArtifactStatus)
    → ¬ (status ≡ validation_failed)
    → (a : ArtifactRef) → final_candidate_ref (status_of status) a ≡ some a
unfolding final_candidate_ref
surfaced_unless_failed validation_failed h a = elim (h refl) [ ]
surfaced_unless_failed review_required h a = refl
surfaced_unless_failed Gates.ok h a = refl

build_candidate-made :
    (b : BuildCandidateVersionRequest) (platform out : Option (List PlatformAuditEvent))
    (c : CandidateDatasetVersion)
    → build_candidate_dataset_version b platform ≡ ok (c, out)
    → (c.status ≡ resolve_status b.validation_gates_report)
      × (c.blocker_reason_codes ≡ resolve_blocker_reason_codes b.validation_gates_report)
      × (c.block_export ≡ resolve_block (λ r. r.block_export) b.validation_gates_report)
unfolding build_candidate_dataset_version
build_candidate-made b platform out c h =
    let (metadata, _, made) =
      >>=-eq-ok (build_synthetic_metadata b (resolve_status b.validation_gates_report)) _ h in
    let same : candidate_of b metadata ≡ c = cc made in
    (
      sym (ap (λ x. x.status) same),
      sym (ap (λ x. x.blocker_reason_codes) same),
      sym (ap (λ x. x.block_export) same),
    )

no_report_stops :
    (c : CandidateDatasetVersion)
    → c.blocker_reason_codes ≡ []
    → c.block_export ≡ true
    → stops (candidate_gate c) ≡ true
no_report_stops c no_codes blocks = ground arith

same_report-IsReleased :
    (b : BuildCandidateVersionRequest) (c : CandidateDatasetVersion) (q : BuildExportPackageRequest)
    (report : Option ValidationGatesReport)
    → b.validation_gates_report ≡ report
    → q.validation_gates_report ≡ report
    → q.candidate_dataset_version ≡ c
    → (c.status ≡ resolve_status report)
      × (c.blocker_reason_codes ≡ resolve_blocker_reason_codes report)
      × (c.block_export ≡ resolve_block (λ r. r.block_export) report)
    → any stops (export_gates q) ≡ false
    → ((r : ValidationGatesReport)
        → report ≡ some r
        → HasVerdict r
          × (r.raw_artifact_unchanged ≡ false → r.candidate_status ≡ validation_failed))
    → IsReleased b c
unfolding resolve_status resolve_blocker_reason_codes
same_report-IsReleased b c q none same_b same_q same_c (status, no_codes, blocks) none_stops
      checked =
    let stopped = ap (λ x. stops (candidate_gate x)) same_c ∙ no_report_stops c no_codes blocks in
    let passed = none_stops-candidate q none_stops in cc (stopped, passed)
same_report-IsReleased b c q (some r) same_b same_q same_c (status, codes, blocks) none_stops
      checked =
    let (verdict, raw) = checked r refl in
    let noted : r.blocker_present ≡ false =
      sym (ap has_blocker same_q) ∙ none_stops-blocker q none_stops in
    let clear : any gate_is_blocking r.gates ≡ false = sym verdict.blocker_noted ∙ noted in
    let not_failed : ¬ (r.candidate_status ≡ validation_failed) =
      λ failed. cc (clear, verdict.fails.0 failed) in
    record {
      report = r;
      checked = same_b;
      no_blocker = clear;
      unchanged = elim (Bool-cases r.raw_artifact_unchanged) [
        | inl same ↦ same
        | inr changed ↦ elim (not_failed (raw changed)) [ ]
      ];
      may_leave = blocks ∙ verdict.export_blocked ∙ clear;
      surfaced = λ a.
          ap (λ x. final_candidate_ref x a) status
          ∙ surfaced_unless_failed r.candidate_status not_failed a;
    }

module _ {N F : Type 0} (n : Numbers N F) (s : Storage) (digest : Json → Text)
    (hash : List (BusinessRule N) → Text) (patterns : List (Text × (Text → Bool)))
    (g : RunValidationGatesRequest N F) where
  -- A package is ready only behind gates: where its candidate and the package are made from one
  -- report, or from none, and a report is what run_validation_gates returned, a ready package has a
  -- report, in which no gate failed as a blocker and the source is unchanged; its candidate does
  -- not block the export and is itself surfaced as final.
  pub build_export_package-gated :
      (b : BuildCandidateVersionRequest) (platform after : Option (List PlatformAuditEvent))
      (c : CandidateDatasetVersion) (q : BuildExportPackageRequest)
      → ((r : ValidationGatesReport)
          → b.validation_gates_report ≡ some r
          → run_validation_gates n s digest hash patterns g ≡ ok r)
      → build_candidate_dataset_version b platform ≡ ok (c, after)
      → q.candidate_dataset_version ≡ c
      → q.validation_gates_report ≡ b.validation_gates_report
      → (build_export_package q).status ≡ ready
      → IsReleased b c
  build_export_package-gated b platform after c q run built same_c same_report is_ready =
      same_report-IsReleased b c q b.validation_gates_report refl same_report same_c
        (build_candidate-made b platform after c built) (ready_none_stops q is_ready)
        (λ r given. run_validation_gates-HasVerdict n s digest hash patterns g r (run r given))
