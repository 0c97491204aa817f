-- ===== src/Release/Ready.antt =====
-- When `build_export_package` of app/kernel/export_package.py makes a package that is ready.
use dataforge_ai_ml_service.Prelude.{
  Bool, true, false, ◌||◌, any, all, nat_eq, list_eq, string_eq, ◌≡◌, ◌↔◌, refl, sym, ◌∙◌,
}
use dataforge_ai_ml_service.Release.Gates.{
  BuildExportPackageRequest, candidate_gate, raw_artifact_unchanged, export_gates,
}
use dataforge_ai_ml_service.Release.Stops.{
  IsReady, blocked_objects_gate_lem, candidate_gate_lem, has_blocker, is_code,
  model_impact_gate_lem, privacy_gate_lem, raw_gate_lem, required_artifacts_gate_lem, stops,
  validation_gate_lem,
}

neither : (a b : Bool) → (a || b) ≡ false → (a ≡ false) × (b ≡ false)
neither true b h = cc h
neither false b h = (refl, h)

none_of : (a b : Bool) → a ≡ false → b ≡ false → (a || b) ≡ false
none_of true b h k = cc h
none_of false b h k = k

-- If no gate stops, then neither the gate of the candidate nor that of the report does.
pub none_stops-candidate :
    (q : BuildExportPackageRequest)
    → any stops (export_gates q) ≡ false
    → stops (candidate_gate q.candidate_dataset_version) ≡ false
unfolding export_gates
none_stops-candidate q h = (neither _ _ h).0

pub none_stops-blocker :
    (q : BuildExportPackageRequest)
    → any stops (export_gates q) ≡ false
    → has_blocker q.validation_gates_report ≡ false
unfolding export_gates
none_stops-blocker q h =
    let (_, r1) = neither _ _ h in
    let (_, r2) = neither _ _ r1 in
    let (h3, _) = neither _ _ r2 in sym (validation_gate_lem q.validation_gates_report) ∙ h3

pub export_gates_iff :
    (q : BuildExportPackageRequest)
    → all is_code q.candidate_dataset_version.blocker_reason_codes ≡ true
    → (any stops (export_gates q) ≡ false) ↔ IsReady q
unfolding export_gates
export_gates_iff q named =
    let c = q.candidate_dataset_version in
    let candidate = candidate_gate_lem c named in
    let raw =
      raw_gate_lem (raw_artifact_unchanged q.validation_gates_report c.raw_artifact_unchanged) in
    let gates = validation_gate_lem q.validation_gates_report in
    let privacy = privacy_gate_lem q.text_ocr_report in
    let objects = blocked_objects_gate_lem q.blocked_object_count in
    let impact = model_impact_gate_lem q.model_impact_verdict q.require_model_impact_eligibility in
    let required = required_artifacts_gate_lem q in
    (
      λ h.
          let (h1, r1) = neither _ _ h in
          let (h2, r2) = neither _ _ r1 in
          let (h3, r3) = neither _ _ r2 in
          let (h4, r4) = neither _ _ r3 in
          let (h5, r5) = neither _ _ r4 in
          let (h6, r6) = neither _ _ r5 in
          let (h7, _) = neither _ _ r6 in
          let (no_card, no_lineage) = neither _ _ (sym required ∙ h7) in
          record {
            may_leave = sym candidate ∙ h1;
            unchanged = sym raw ∙ h2;
            no_blocker = sym gates ∙ h3;
            redacted = privacy.0 h4;
            no_blocked_objects = objects.0 h5;
            impact = impact.0 h6;
            card = no_card;
            lineage = no_lineage;
          },
      λ r. none_of _ _ (candidate ∙ r.may_leave) (
          none_of _ _ (raw ∙ r.unchanged) (
            none_of _ _ (gates ∙ r.no_blocker) (
              none_of _ _ (privacy.1 r.redacted) (
                none_of _ _ (objects.1 r.no_blocked_objects) (
                  none_of _ _ (impact.1 r.impact)
                    (none_of _ _ (required ∙ none_of _ _ r.card r.lineage) refl)))))),
    )
