-- ===== src/Validation/Gates/Synthetic.antt =====
-- The gates of app/plugins/validation/gates.py for the synthetic rows of a candidate.
use dataforge_ai_ml_service.Prelude.{
  ℕ, zero, suc, Bool, not, ◌||◌, some, List, [], ◌∷◌, map, keep, take, length, member,
  ordered_unique, if◌then◌else◌, ltb, nat_eq, list_eq, ◌==◌, Result, ok, ◌>>=◌, is_empty,
}
use dataforge_ai_ml_service.Prelude.Sorting.{sorted, nat_order, list_order}
use dataforge_ai_ml_service.Prelude.Texts.{Text, codes}
use dataforge_ai_ml_service.Json.{Json, str, obj, Fields, end, field}
use dataforge_ai_ml_service.Validation.Numbers.{Numbers}
use dataforge_ai_ml_service.Validation.RuleModel.{Row, cell}
use dataforge_ai_ml_service.Validation.Gates.{
  synthetic_dcr_check, synthetic_exact_duplicate_to_real, synthetic_nearest_neighbor_privacy,
  blocker, block_export, CandidateValidationGate, passed_gate, failed_gate,
}
use dataforge_ai_ml_service.Validation.Gates.Csv.{GatesError, Storage, ArtifactRef, read_csv}
use dataforge_ai_ml_service.Validation.Gates.Checks.{id_of}
use dataforge_ai_ml_service.Validation.Gates.Distances.{DcrMetrics}

-- `row.get("is_synthetic") == "1"`
abbrev pub is_synthetic : Row → Bool
is_synthetic row = cell row (codes "is_synthetic") == codes "1"

-- `_split_real_and_synthetic_rows`
unfoldable pub split_real_and_synthetic_rows : List Row → List Row × List Row
split_real_and_synthetic_rows rows =
    (keep is_synthetic rows, keep (λ row. not (is_synthetic row)) rows)

abbrev pub reference_of : List Row → List Row → List Row × Text
reference_of [] candidate_real_rows = (candidate_real_rows, codes "candidate_real_rows_fallback")
reference_of (row ∷ rows) candidate_real_rows = (row ∷ rows, codes "source_artifact")

-- `_resolve_dcr_reference_rows`
unfoldable pub resolve_dcr_reference_rows :
    Storage → ArtifactRef → List Row → Result GatesError (List Row × Text)
unfolding read_csv
resolve_dcr_reference_rows s source candidate_real_rows = do
  read ← read_csv s source (codes "source_dcr_reference")
  ok (reference_of (keep (λ row. not (is_synthetic row)) read.0) candidate_real_rows)

-- The payload of `_row_signature`: a dict has each column once.
abbrev pub signature_fields : Row → List Text → Fields
signature_fields row [] = end
signature_fields row (column ∷ columns) =
    field column (str (cell row column)) (signature_fields row columns)

unfoldable pub signature_payload : List Text → Row → Json
signature_payload columns row = obj (signature_fields row (sorted (ordered_unique columns)))

-- `_synthetic_exact_duplicate_gate`; `digest` is the one of `_row_signature`.
unfoldable pub synthetic_exact_duplicate_gate :
    (Json → Text) → List Row → List Row → List Text → CandidateValidationGate
synthetic_exact_duplicate_gate digest synthetic_rows real_rows feature_columns =
    let signature = λ (row : Row). digest (signature_payload feature_columns row) in
    let real_signatures = map signature real_rows in
    let copies = keep (λ row. member (signature row) real_signatures) synthetic_rows in
    if is_empty copies
    then passed_gate synthetic_exact_duplicate_to_real "no_exact_duplicate_to_real"
    else failed_gate synthetic_exact_duplicate_to_real blocker "synthetic_exact_duplicate_to_real"
        (some block_export) (length copies)
        (take 10 (map (λ row. record { object_ids = id_of row; columns = [] }) copies))

pub record DcrThresholds (F : Type 0) : Type 0 where
  pub nearest_neighbor_epsilon : F
  pub minimum_dcr_threshold : F

module _ {N F : Type 0} (n : Numbers N F) where
  abbrev pub at_least_one : ℕ → ℕ
  at_least_one zero = 1
  at_least_one (suc k) = suc k

  -- `_dcr_gate`
  unfoldable pub dcr_gate : DcrMetrics F → DcrThresholds F → CandidateValidationGate
  dcr_gate m t =
      if n.lt m.minimum t.minimum_dcr_threshold || ltb 0 m.below_epsilon
      then failed_gate synthetic_dcr_check blocker "dcr_threshold_violated" (some block_export)
          (at_least_one m.below_epsilon) []
      else passed_gate synthetic_dcr_check "dcr_passed"

  -- The rows whose distance is within epsilon; the distances are as many as the rows.
  abbrev pub too_close : F → List F → List Row → List Row
  too_close epsilon [] rows = []
  too_close epsilon (d ∷ ds) [] = []
  too_close epsilon (d ∷ ds) (row ∷ rows) =
      let rest = too_close epsilon ds rows in if n.le d epsilon then row ∷ rest else rest

  -- `_synthetic_nearest_neighbor_privacy_gate`
  unfoldable pub synthetic_nearest_neighbor_privacy_gate :
      DcrMetrics F → List Row → DcrThresholds F → CandidateValidationGate
  synthetic_nearest_neighbor_privacy_gate m synthetic_rows t =
      let close = too_close t.nearest_neighbor_epsilon m.distances synthetic_rows in
      if is_empty close
      then passed_gate synthetic_nearest_neighbor_privacy "nearest_neighbor_privacy_ok"
      else failed_gate synthetic_nearest_neighbor_privacy blocker "synthetic_too_close_to_real"
          (some block_export) (length close)
          (take 5 (map (λ row. record { object_ids = id_of row; columns = [] }) close))
