-- ===== src/Validation/Gates/Acceptance.antt =====
-- What a candidate is like that app/plugins/validation/gates.py finds in order.
use mathlib.Core.Path.{subst}
use dataforge_ai_ml_service.Prelude.{
  ℕ, Bool, true, false, not, ◌&&◌, ◌||◌, Option, none, some, List, [], ◌∷◌, ◌++◌, map, keep, any,
  length, member, ltb, nat_eq, list_eq, ok, >>=-eq-ok, ◌≡◌, refl, sym, ap, ◌∙◌, arith, any-append,
  is_empty, is_empty-keep,
}
use dataforge_ai_ml_service.Prelude.Texts.{Text, codes}
use dataforge_ai_ml_service.Json.{Json}
use dataforge_ai_ml_service.Validation.Numbers.{Numbers}
use dataforge_ai_ml_service.Validation.RuleModel.{Row, BusinessRule}
use dataforge_ai_ml_service.Validation.Rules.Counting.{violates}
use dataforge_ai_ml_service.Validation.Gates
use dataforge_ai_ml_service.Validation.Gates.{CandidateArtifactStatus, CandidateValidationGate}
use dataforge_ai_ml_service.Validation.Gates.Csv.{Storage, read_csv}
use dataforge_ai_ml_service.Validation.Gates.Checks.{raw_artifact_immutability_gate}
use dataforge_ai_ml_service.Validation.Gates.Distances.{
  row_vector, distance_to_closest, minimum_of, compute_dcr,
}
use dataforge_ai_ml_service.Validation.Gates.Synthetic.{
  DcrThresholds, split_real_and_synthetic_rows, resolve_dcr_reference_rows, signature_payload,
  synthetic_exact_duplicate_gate, dcr_gate, too_close, synthetic_nearest_neighbor_privacy_gate,
}
use dataforge_ai_ml_service.Validation.Gates.Report.{
  RunValidationGatesRequest, ValidationGatesReport, report_of, pending_gates, compared_columns,
  compared_gates, synthetic_gates, run_validation_gates,
}
use dataforge_ai_ml_service.Validation.Gates.Verdict.{
  IsRun, checks_of, source_of, run_validation_gates-IsRun, run_validation_gates-HasVerdict,
}
use dataforge_ai_ml_service.Validation.Gates.Passing.{
  fails, leaks, shows_pii, is_bad_number, split_leakage_gate-fails, source_verdict-passes,
  privacy_gate-passes, schema_gate-passes, business_rules_gate-passes,
}

length-is_empty {ℓ} : {A : Type ℓ} (xs : List A) → ltb 0 (length xs) ≡ not (is_empty xs)
length-is_empty [] = refl
length-is_empty (x ∷ xs) = ground arith

any-map {ℓ κ} :
    {A : Type ℓ} {B : Type κ} (f : A → B) (p : B → Bool) (xs : List A)
    → any p (map f xs) ≡ any (λ x. p (f x)) xs
any-map f p [] = refl
any-map f p (x ∷ xs) = ap (λ b. p (f x) || b) (any-map f p xs)

module _ {N F : Type 0} (n : Numbers N F) (digest : Json → Text) (columns : List Text)
    (reals : List Row) where
  -- The distance of a row to its closest real row.
  abbrev pub closest : Row → F
  closest row =
      distance_to_closest n (map (λ real. row_vector n real columns) reals)
        (row_vector n row columns)

  abbrev signature : Row → Text
  signature row = digest (signature_payload columns row)

  -- Rows that copy no real row and keep their distance.
  pub record AreSeparate (t : DcrThresholds F) (rows : List Row) : Type 0 where
    pub no_copies : any (λ row. member (signature row) (map signature reals)) rows ≡ false
    pub none_close : any (λ row. n.le (closest row) t.nearest_neighbor_epsilon) rows ≡ false
    pub no_collisions : any (λ row. n.le (closest row) n.collision) rows ≡ false
    pub far_enough : n.lt (minimum_of n (map closest rows)) t.minimum_dcr_threshold ≡ false

  is_empty-too_close :
      (epsilon : F) (rows : List Row)
      → is_empty (too_close n epsilon (map closest rows) rows)
        ≡ not (any (λ row. n.le (closest row) epsilon) rows)
  is_empty-too_close epsilon [] = refl
  is_empty-too_close epsilon (row ∷ rows) = ground (arith, is_empty-too_close epsilon rows)

  compared-AreSeparate :
      (s : Storage) (t : DcrThresholds F) (rows : List Row) (scope : Text)
      → any fails (compared_gates n s digest t columns rows (reals, scope)) ≡ false
      → AreSeparate t rows
  unfolding compute_dcr dcr_gate synthetic_exact_duplicate_gate
      synthetic_nearest_neighbor_privacy_gate
  compared-AreSeparate s t rows scope h = record {
    no_copies =
        ground (arith, is_empty-keep (λ row. member (signature row) (map signature reals)) rows);
    none_close = ground (arith, is_empty-too_close t.nearest_neighbor_epsilon rows);
    no_collisions = ground (
      arith,
      length-is_empty (keep (λ d. n.le d n.collision) (map closest rows)),
      is_empty-keep (λ d. n.le d n.collision) (map closest rows),
      any-map closest (λ d. n.le d n.collision) rows,
    );
    far_enough = ground arith;
  }

module _ {N F : Type 0} (n : Numbers N F) (s : Storage) (digest : Json → Text)
    (hash : List (BusinessRule N) → Text) (patterns : List (Text × (Text → Bool)))
    (q : RunValidationGatesRequest N F) where
  -- The synthetic rows of a candidate, where it is a synthetic dataset and has any, are separate
  -- from the real rows that they are compared to.
  abbrev pub IsNovel : Option (List Text) → List Row → List Row → Type 0
  IsNovel none rows reals = Unit
  IsNovel (some features) [] reals = Unit
  IsNovel (some features) (row ∷ rows) reals =
      (reference : List Row × Text) × (resolve_dcr_reference_rows s q.source_artifact reals
        ≡ ok reference)
      × AreSeparate n digest (compared_columns features q.numeric_columns) reference.0
          q.dcr_thresholds (row ∷ rows)

  synthetic_gates-IsNovel :
      (features : Option (List Text)) (rows reals : List Row) (gates : List CandidateValidationGate)
      → synthetic_gates n s digest q features rows reals ≡ ok gates
      → any fails gates ≡ false
      → IsNovel features rows reals
  synthetic_gates-IsNovel none rows reals gates h k = tt
  synthetic_gates-IsNovel (some features) [] reals gates h k = tt
  synthetic_gates-IsNovel (some features) (row ∷ rows) reals gates h k =
      let (reference, resolved, h') =
        >>=-eq-ok (resolve_dcr_reference_rows s q.source_artifact reals) _ h in
      let columns = compared_columns features q.numeric_columns in
      let made : compared_gates n s digest q.dcr_thresholds columns (row ∷ rows) reference ≡ gates =
        cc h' in
      (
        reference,
        resolved,
        compared-AreSeparate n digest columns reference.0 s q.dcr_thresholds (row ∷ rows)
            reference.1 (subst (λ x. any fails x ≡ false) (sym made) k),
      )

  -- A candidate as the gates want it.
  pub record IsInOrder : Type 0 where
    pub rows : List Row
    pub columns : List Text
    pub read : read_csv s q.candidate_artifact (codes "candidate") ≡ ok (rows, columns)
    pub declared : (c : Text) → member c q.schema_columns ≡ true → member c columns ≡ true
    pub numbers :
        any (λ column. member column columns && any (is_bad_number n column) rows) q.numeric_columns
        ≡ false
    pub rules_kept : any (λ row. any (violates n row) q.business_rules) rows ≡ false
    pub no_pii : any (λ row. any (shows_pii patterns q.numeric_columns row) columns) rows ≡ false
    pub no_leakage : leaks q.split_leakage_report ≡ false
    pub source_kept :
        (bytes : List ℕ) × (s.get q.source_artifact.uri ≡ some bytes)
        × (s.sha256 bytes ≡ q.source_artifact.hash)
    pub novel :
        IsNovel q.synthetic_feature_columns
          (split_real_and_synthetic_rows rows).0
          (split_real_and_synthetic_rows rows).1

  none_fails :
      (r : ValidationGatesReport) (run : IsRun n s digest hash patterns q r)
      → any fails r.gates ≡ false
      → (any fails (checks_of n s digest hash patterns q run.rows run.columns run.rules_check)
          ≡ false)
        × (any fails run.synthetic ≡ false)
        × (fails (source_of n s digest hash patterns q).0 ≡ false)
  unfolding report_of
  none_fails r run h =
      let checks = checks_of n s digest hash patterns q run.rows run.columns run.rules_check in
      let source = (source_of n s digest hash patterns q).0 in
      let all_gates : any fails (checks ++ run.synthetic ++ pending_gates ++ source ∷ []) ≡ false =
        subst (λ x. any fails x.gates ≡ false) run.made h in
      let a = any-append fails (checks ++ run.synthetic ++ pending_gates) (source ∷ []) in
      let b = any-append fails (checks ++ run.synthetic) pending_gates in
      let c = any-append fails checks run.synthetic in (ground arith, ground arith, ground arith)

  -- A candidate with the status ok has every declared column; in the numeric ones each text is a
  -- number; its rows violate no business rule and show no personal data outside the numeric
  -- columns; no leakage was detected between its splits; the source is still stored with its
  -- digest; and its synthetic rows copy no real row and keep their distance.
  pub run_validation_gates-IsInOrder :
      (r : ValidationGatesReport)
      → run_validation_gates n s digest hash patterns q ≡ ok r
      → r.candidate_status ≡ Gates.ok
      → IsInOrder
  unfolding raw_artifact_immutability_gate
  run_validation_gates-IsInOrder r h status =
      let run = run_validation_gates-IsRun n s digest hash patterns q r h in
      let verdict = (run_validation_gates-HasVerdict n s digest hash patterns q r h).0 in
      let (checks, synthetic, source) = none_fails r run (verdict.passes.0 status) in
      let schema =
        schema_gate-passes n q.schema_columns q.numeric_columns run.columns run.rows
          (ground arith) in
      record {
        rows = run.rows;
        columns = run.columns;
        read = run.read;
        declared = schema.0;
        numbers = schema.1;
        rules_kept =
            business_rules_gate-passes n hash q.business_rules q.rules_version q.rules_config_hash
              run.rows run.rules_check run.rules_checked (ground arith);
        no_pii =
            privacy_gate-passes patterns run.rows run.columns q.pii_restricted q.numeric_columns
              (ground arith);
        no_leakage = sym (split_leakage_gate-fails q.split_leakage_report) ∙ ground arith;
        source_kept =
            source_verdict-passes s.sha256 q.source_artifact.hash (s.get q.source_artifact.uri)
              source;
        novel =
            synthetic_gates-IsNovel q.synthetic_feature_columns _ _ run.synthetic run.compared
              synthetic;
      }
