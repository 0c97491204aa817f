-- ===== src/Release/Package.antt =====
-- What the package of app/kernel/export_package.py holds.
use dataforge_ai_ml_service.Prelude.{
  Bool, true, false, ◌&&◌, List, [], ◌∷◌, map, all, member, distinct, nat_eq, list_eq, unique_from,
  member-unique_from, distinct-unique_from, ◌≡◌, ◌↔◌, ◌⊎◌, refl, sym, ap, String, ◌∙◌, arith, inl,
  inr, is_empty,
}
use dataforge_ai_ml_service.Prelude.Texts.{Text}
use dataforge_ai_ml_service.Validation.Gates.Csv.{ArtifactRef}
use dataforge_ai_ml_service.Release.Export.{
  evaluate_export_gates, requested_artifacts, first_of_uri, resolve_artifacts, package_of,
  build_export_package,
}
use dataforge_ai_ml_service.Release.Gates.{
  ready, BuildExportPackageRequest, export_gates, ValidationGateResult,
}
use dataforge_ai_ml_service.Release.Ready.{export_gates_iff}
use dataforge_ai_ml_service.Release.Stops.{is_code, IsReady, is_empty-ordered_codes}

abbrev pub uris : List ArtifactRef → List Text
uris refs = map (λ a. a.uri) refs

uris-first_of_uri :
    (seen : List Text) (refs : List ArtifactRef)
    → uris (first_of_uri seen refs) ≡ unique_from seen (uris refs)
unfolding first_of_uri unique_from
uris-first_of_uri seen [] = refl
uris-first_of_uri seen (a ∷ refs) =
    ground (arith, uris-first_of_uri seen refs, uris-first_of_uri (a.uri ∷ seen) refs)

distinct-resolve_artifacts :
    (q : BuildExportPackageRequest) (stopped : Bool)
    → distinct (uris (resolve_artifacts q stopped)) ≡ true
unfolding resolve_artifacts
distinct-resolve_artifacts q true = refl
distinct-resolve_artifacts q false =
    ap distinct (uris-first_of_uri [] (requested_artifacts q))
    ∙ distinct-unique_from [] (uris (requested_artifacts q))

member-resolve_artifacts :
    (q : BuildExportPackageRequest) (u : Text)
    → member u (uris (resolve_artifacts q false)) ≡ member u (uris (requested_artifacts q))
unfolding resolve_artifacts
member-resolve_artifacts q u =
    ap (member u) (uris-first_of_uri [] (requested_artifacts q))
    ∙ member-unique_from u [] (uris (requested_artifacts q))
    ∙ and_true (member u (uris (requested_artifacts q)))
  where
    and_true : (b : Bool) → (b && true) ≡ b
    and_true true = refl
    and_true false = refl

held_back-package_of :
    (q : BuildExportPackageRequest) (gates : List ValidationGateResult) (codes : List String)
    → ((package_of q gates codes).status ≡ ready)
      ⊎ ((is_empty (package_of q gates codes).blocked_reason_codes ≡ false)
          × ((package_of q gates codes).included ≡ 0)
          × ((package_of q gates codes).artifacts ≡ q.export_manifest_artifact ∷ []))
unfolding resolve_artifacts
held_back-package_of q gates [] = inl refl
held_back-package_of q gates (c ∷ cs) = inr (refl, refl, refl)

requested-resolve_artifacts :
    (q : BuildExportPackageRequest) (stopped : Bool) (u : Text)
    → member u (uris (resolve_artifacts q stopped)) ≡ true
    → member u (uris (requested_artifacts q)) ≡ true
unfolding resolve_artifacts
requested-resolve_artifacts q true u h = ground arith
requested-resolve_artifacts q false u h = sym (member-resolve_artifacts q u) ∙ h

-- What a package holds, ready or not
pub record IsSettled (q : BuildExportPackageRequest) : Type 0 where
  pub ready_iff : ((build_export_package q).status ≡ ready) ↔ IsReady q
  pub held_back :
      ((build_export_package q).status ≡ ready)
      ⊎ ((is_empty (build_export_package q).blocked_reason_codes ≡ false)
          × ((build_export_package q).included ≡ 0)
          × ((build_export_package q).artifacts ≡ q.export_manifest_artifact ∷ []))
  pub once : distinct (uris (build_export_package q).artifacts) ≡ true
  pub only_requested :
      (u : Text)
      → member u (uris (build_export_package q).artifacts) ≡ true
      → member u (uris (requested_artifacts q)) ≡ true

-- A package is ready exactly if its candidate may leave, the source is not known to be changed, no
-- gate blocks, each record with personal data is counted as redacted, no object is blocked, the
-- model impact allows it and the artifacts that are required are there; otherwise it has a reason,
-- counts no object as included and holds the export manifest alone. It holds no uri twice, and none
-- that was not requested. The reason codes of the candidate are not empty texts, as its contract
-- says.
pub build_export_package-IsSettled :
    (q : BuildExportPackageRequest)
    → all is_code q.candidate_dataset_version.blocker_reason_codes ≡ true
    → IsSettled q
unfolding build_export_package
build_export_package-IsSettled q named =
    let (sound, complete) = export_gates_iff q named in
    let codes = is_empty-ordered_codes (export_gates q) in
    record {
      ready_iff = (λ h. sound (ground (arith, codes)), λ r. ground (arith, codes, complete r));
      held_back = held_back-package_of q (evaluate_export_gates q).0 (evaluate_export_gates q).1;
      once = distinct-resolve_artifacts q _;
      only_requested = requested-resolve_artifacts q _;
    }
