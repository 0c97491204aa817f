-- ===== src/Leakage/Checks.antt =====
-- The three checks of app/plugins/tabular/leakage_checks.py, and `run_split_leakage_checks`.
use dataforge_ai_ml_service.Prelude.{
  ℕ, Bool, not, ◌&&◌, Option, none, some, List, [], ◌∷◌, ◌++◌, map, flat_map, keep, any, take,
  length, leb, if◌then◌else◌, nat_eq, list_eq, string_eq, option_eq, ◌==◌, member, ordered_unique,
  String, Result, ok, raise_if, ◌>>=◌, ◌>>◌, is_empty,
}
use dataforge_ai_ml_service.Prelude.Dict
use dataforge_ai_ml_service.Prelude.Dict.{Dict, keys}
use dataforge_ai_ml_service.Prelude.Sorting.{sorted, nat_order, list_order, lex_le}
use dataforge_ai_ml_service.Prelude.Texts.{Text, codes}
use dataforge_ai_ml_service.Splits.Groups.{insert_by, sort_by}
use dataforge_ai_ml_service.Json.{Json}
use dataforge_ai_ml_service.Validation.RuleModel.{Row, cell, is_blank}
use dataforge_ai_ml_service.Leakage.Model.{
  LeakageCheckType, exact_hash, group_key, target_leakage_candidate, LeakageCheckStatus, passed,
  failed, not_applicable, LeakageCheckSeverity, info, warning, blocker, LeakageCrossSplitFinding,
  LeakageCheckResult, SplitLeakageReport, SplitAssignment, SplitManifest, LeakageCandidate, Profile,
  SplitLeakageCheckError, empty_split_manifest, object_ids_missing_in_source, is_failed, is_blocker,
}
use dataforge_ai_ml_service.Leakage.Table.{Table, object_id_of, read_rows, row_signature}

-- The objects of each split, for each key
abbrev pub BySplit : Type 0
BySplit = Dict Text (List Text)

-- `_index_assignments`, onto what is indexed so far
unfoldable pub index_assignments : Dict Text Text → List SplitAssignment → Dict Text Text
index_assignments d [] = d
index_assignments d (a ∷ rest) = index_assignments (Dict.put d a.object_id a.split) rest

abbrev pub or_empty {ℓ} : {A : Type ℓ} → Option (List A) → List A
or_empty none = []
or_empty (some xs) = xs

-- `by_key[key][split].append(object_id)`
abbrev pub add_object : Dict Text BySplit → Text → Text → Text → Dict Text BySplit
add_object d key split object_id =
    let by_split = or_empty (Dict.get d key) in
    Dict.put d key (Dict.put by_split split (or_empty (Dict.get by_split split) ++ object_id ∷ []))

abbrev pub add_row : Dict Text BySplit → Option Text → Option Text → Text → Dict Text BySplit
add_row d none key object_id = d
add_row d (some split) none object_id = d
add_row d (some split) (some key) object_id = add_object d key split object_id

-- The loop over the rows; a row has no key where the loop passes it over.
unfoldable pub collect :
    (Row → Option Text) → Dict Text Text → Dict Text BySplit → List Row → Dict Text BySplit
collect key_of assignments d [] = d
collect key_of assignments d (row ∷ rows) =
    collect key_of assignments
      (add_row d (Dict.get assignments (object_id_of row)) (key_of row) (object_id_of row)) rows

abbrev pub spans_splits : Text × BySplit → Bool
spans_splits entry = leb 2 (length entry.1)

abbrev pub key_first : Text × BySplit → Text × BySplit → Bool
key_first a b = lex_le a.0 b.0

-- The entries that the second loop makes findings of, by key
unfoldable pub crossings : Dict Text BySplit → List (Text × BySplit)
unfolding sort_by insert_by
crossings d = keep spans_splits (sort_by key_first d)

abbrev pub objects_of : BySplit → List Text
objects_of by_split = sorted (flat_map (λ entry. entry.1) by_split)

abbrev pub finding_of :
    Option Text → (Text → Option Text) → Text × BySplit → LeakageCrossSplitFinding
finding_of column group_value (key, by_split) = record {
  splits = sorted (keys by_split);
  object_ids = objects_of by_split;
  group_value = group_value key;
  column = column;
}

abbrev pub quiet : LeakageCheckType → LeakageCheckStatus → String → List Text → LeakageCheckResult
quiet check_type status reason columns = record {
  check_type = check_type;
  status = status;
  severity = info;
  reason_code = reason;
  block_action = none;
  findings_count = 0;
  affected_object_ids = [];
  affected_groups = [];
  affected_columns = columns;
  findings = [];
}

-- The result of a check whose findings block the evaluation of models
abbrev pub crossing_result :
    LeakageCheckType
    → String
    → List Text
    → List Text
    → List LeakageCrossSplitFinding
    → LeakageCheckResult
crossing_result check_type reason columns groups [] = quiet check_type passed reason columns
crossing_result check_type reason columns groups (f ∷ fs) = record {
  check_type = check_type;
  status = failed;
  severity = blocker;
  reason_code = "split_leakage";
  block_action = some "BLOCK_MODEL_EVALUATION";
  findings_count = length (f ∷ fs);
  affected_object_ids = sorted (ordered_unique (flat_map (λ x. x.object_ids) (f ∷ fs)));
  affected_groups = groups;
  affected_columns = columns;
  findings = f ∷ fs;
}

-- `_exact_hash_check`
unfoldable pub exact_hash_check : (Json → Text) → List Row → Dict Text Text → LeakageCheckResult
unfolding crossings collect
exact_hash_check digest rows assignments =
    let found = crossings (collect (λ row. some (row_signature digest row)) assignments [] rows) in
    crossing_result exact_hash "no_exact_hash_leakage" [] []
      (map (finding_of none (λ key. none)) found)

abbrev pub value_in : Text → Row → Option Text
value_in column row = if is_blank (cell row column) then none else some (cell row column)

-- `_group_key_check`
unfoldable pub group_key_check : List Row → Dict Text Text → Option Text → LeakageCheckResult
unfolding crossings collect
group_key_check rows assignments none = quiet group_key not_applicable "group_key_not_configured" []
group_key_check rows assignments (some column) =
    let found = crossings (collect (value_in column) assignments [] rows) in
    crossing_result group_key "no_group_key_leakage" (column ∷ [])
      (sorted (ordered_unique (map (λ entry. entry.0) found)))
      (map (finding_of (some column) some) found)

-- `_splits_in_manifest`, with the two splits that stand for none
abbrev pub splits_in : SplitManifest → List Text
splits_in manifest = sorted (ordered_unique (map (λ a. a.split) manifest.assignments))

abbrev pub or_two : List Text → List Text
or_two [] = codes "train" ∷ codes "test" ∷ []
or_two (s ∷ ss) = s ∷ ss

abbrev pub is_confirmed : LeakageCandidate → Bool
is_confirmed c = c.reason_code == "high_target_match_rate"

abbrev pub candidate_result :
    List Text → LeakageCheckSeverity → Option String → List LeakageCandidate → LeakageCheckResult
candidate_result splits severity action candidates = record {
  check_type = target_leakage_candidate;
  status = failed;
  severity = severity;
  reason_code = "target_leakage_candidate";
  block_action = action;
  findings_count = length candidates;
  affected_object_ids = [];
  affected_groups = [];
  affected_columns = sorted (ordered_unique (map (λ c. c.column) candidates));
  findings =
      map
        (λ c. record {
          splits = splits;
          object_ids = [];
          group_value = none;
          column = some c.column;
        })
        candidates;
}

-- The result where there are candidates: those with a confirmed match block training.
abbrev pub judged : List Text → List LeakageCandidate → List LeakageCandidate → LeakageCheckResult
judged splits [] [] = quiet target_leakage_candidate passed "no_target_leakage_candidate" []
judged splits [] (w ∷ ws) = candidate_result splits warning none (w ∷ ws)
judged splits (b ∷ bs) ws = candidate_result splits blocker (some "BLOCK_TRAINING") (b ∷ bs)

-- `_target_leakage_candidate_check`
unfoldable pub target_leakage_candidate_check : Option Profile → SplitManifest → LeakageCheckResult
target_leakage_candidate_check none manifest =
    quiet target_leakage_candidate not_applicable "tabular_profile_report_not_provided" []
target_leakage_candidate_check (some profile) manifest =
    let candidates = or_empty profile.candidates in
    judged (or_two (splits_in manifest)) (keep is_confirmed candidates)
      (keep (λ c. not (is_confirmed c)) candidates)

-- The score in quarters of the code's.
abbrev pub score_of : LeakageCheckSeverity → ℕ
score_of info = 1
score_of warning = 2
score_of blocker = 4

abbrev pub greater : ℕ → ℕ → ℕ
greater a b = if leb a b then b else a

abbrev pub is_blocking : LeakageCheckResult → Bool
is_blocking c = is_failed c.status && is_blocker c.severity

-- `_leakage_risk_score`
unfoldable pub leakage_risk_score : ℕ → List LeakageCheckResult → ℕ
leakage_risk_score score [] = score
leakage_risk_score score (c ∷ cs) =
    let rest = leakage_risk_score score cs in
    let raised = leakage_risk_score (greater score (score_of c.severity)) cs in
    if not (is_failed c.status) then rest else if is_blocker c.severity then 4 else raised

-- The report on three checks
unfoldable pub report_of : List LeakageCheckResult → SplitLeakageReport
unfolding leakage_risk_score
report_of checks = record {
  leakage_detected = any is_blocking checks;
  leakage_risk_score = leakage_risk_score 0 checks;
  block_model_evaluation =
      any (λ c. is_blocking c && (c.block_action == some "BLOCK_MODEL_EVALUATION")) checks;
  block_training = any (λ c. is_blocking c && (c.block_action == some "BLOCK_TRAINING")) checks;
  checks = checks;
}

-- `_verify_assignments_match_rows`: the ids that are in no row, in order
abbrev pub missing_in_rows : Dict Text Text → List Row → List Text
missing_in_rows assignments rows =
    sorted (keep (λ id. not (member id (map object_id_of rows))) (keys assignments))

-- `run_split_leakage_checks`, of the table at the source artifact
unfoldable pub run_split_leakage_checks :
    (Json → Text)
    → (ℕ → Text)
    → Option Profile
    → SplitManifest
    → Table
    → Result SplitLeakageCheckError SplitLeakageReport
unfolding exact_hash_check group_key_check target_leakage_candidate_check report_of
    index_assignments
run_split_leakage_checks digest row_id profile manifest table = do
  raise_if (is_empty manifest.assignments) empty_split_manifest
  rows ← read_rows row_id manifest.target_column table
  let assignments = index_assignments [] manifest.assignments
  let missing = missing_in_rows assignments rows
  raise_if (not (is_empty missing)) (object_ids_missing_in_source (take 5 missing))
  ok (
      report_of (
        exact_hash_check digest rows assignments
        ∷ group_key_check rows assignments manifest.group_key
        ∷ target_leakage_candidate_check profile manifest
        ∷ []))
