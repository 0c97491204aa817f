-- ===== src/Leakage/Tests.antt =====
-- Runs of app/plugins/tabular/leakage_checks.py, and its theorems at concrete inputs.
use dataforge_ai_ml_service.Prelude.{
  ℕ, ◌+◌, true, false, none, some, List, [], ◌∷◌, ◌++◌, map, nat_eq, list_eq, ok, raise, ◌≡◌, refl,
  ◌↔◌, ◌∙◌, sym, ap, inl, inr, ◌==◌, if◌then◌else◌,
}
use dataforge_ai_ml_service.Prelude.Dict
use dataforge_ai_ml_service.Prelude.Sorting.{sorted, insert, nat_order, list_order}
use dataforge_ai_ml_service.Prelude.Texts.{Text, codes, starts_with}
use dataforge_ai_ml_service.Splits.Groups.{insert_by, sort_by}
use dataforge_ai_ml_service.Validation.RuleModel.{Row}
use dataforge_ai_ml_service.Leakage.Model.{
  SplitAssignment, SplitManifest, Profile, SplitLeakageReport, passed, empty_split_manifest,
  empty_tabular_source, target_column_not_found, object_ids_missing_in_source,
}
use dataforge_ai_ml_service.Leakage.Table.{
  Table, named_rows, rows_of, read_cells, read_rows, row_payload, row_signature,
}
use dataforge_ai_ml_service.Leakage.Checks.{
  collect, crossings, exact_hash_check, group_key_check, target_leakage_candidate_check,
  leakage_risk_score, report_of, index_assignments, run_split_leakage_checks,
}
use dataforge_ai_ml_service.Leakage.Verdict.{IsVerdict, run_split_leakage_checks-IsVerdict}
use dataforge_ai_ml_service.Splits.Groups.{
  TabularRow, count_labels, groups_of, grouped_from, ordered_groups, primary_label,
}
use dataforge_ai_ml_service.Splits.Targets.{train, validation, rebalance_targets, lower, lift}
use dataforge_ai_ml_service.Splits.Assign
use dataforge_ai_ml_service.Splits.Assign.{
  assignment, assign_splits, place_groups, best_split, place, assign_rows,
}
use dataforge_ai_ml_service.Splits.Rows.{
  to_tabular_rows, missing_target_label, resolve_group_key, absent, named, group_key_not_found,
}
use dataforge_ai_ml_service.Splits.Samples.{hundredths, ratio, row_name, in_order}
use dataforge_ai_ml_service.Leakage.Splitter.{assign_splits-group_key_check}
use dataforge_ai_ml_service.Leakage.Reading.{recorded}
use dataforge_ai_ml_service.Leakage.Acceptance.{CanCheck, run_split_leakage_checks_iff}
use dataforge_ai_ml_service.Leakage.Duplicates.{IsIn, IsCollisionFree}
use dataforge_ai_ml_service.Json.{Json, null, bool, num, str, arr, obj, Fields, end, field}
use mathlib.Core.Path.{subst}

abbrev row : Text → Text → Text → Row
row id group amount =
    (codes "object_id", id) ∷ (codes "case_id", group) ∷ (codes "amount", amount) ∷ []

abbrev row_id : ℕ → Text
row_id i = codes "row_" ++ (48 + i) ∷ []

-- The last row has no id, and the last column no name.
abbrev source : Table
source = record {
  fieldnames = codes "object_id" ∷ codes "case_id" ∷ codes "amount" ∷ [] ∷ [];
  raw_rows =
      row (codes "a") (codes "x") (codes "1")
      ∷ row (codes "b") (codes "x") (codes "1")
      ∷ row [] [] (codes "3")
      ∷ [];
}

abbrev rows : List Row
rows =
    row (codes "a") (codes "x") (codes "1")
    ∷ row (codes "b") (codes "x") (codes "1")
    ∷ row (codes "row_2") [] (codes "3")
    ∷ []

source_is_read : read_rows row_id (codes "amount") source ≡ ok rows
unfolding read_rows read_cells Dict.get Dict.put
source_is_read = refl

not_read :
    (read_rows row_id (codes "price") source ≡ raise (target_column_not_found (codes "price")))
    × (read_rows row_id (codes "amount") (record { fieldnames = [] ∷ []; raw_rows = rows })
        ≡ raise empty_tabular_source)
    × (read_rows row_id (codes "amount") (record source { raw_rows = [] })
        ≡ raise empty_tabular_source)
unfolding read_rows read_cells Dict.get Dict.put
not_read = (refl, refl, refl)

-- A digest of the texts of an object, in order.
abbrev values_of : Fields → Text
values_of end = []
values_of (field name (str value) rest) = value ++ 44 ∷ values_of rest
values_of (field name null rest) = []
values_of (field name (bool b) rest) = []
values_of (field name (num n) rest) = []
values_of (field name (arr items) rest) = []
values_of (field name (obj more) rest) = []

abbrev digest : Json → Text
digest (obj fs) = values_of fs
digest null = []
digest (bool b) = []
digest (num n) = []
digest (str t) = []
digest (arr items) = []

-- The contents of the rows, by their digests.
abbrev content : Text → Text → Json
content amount case =
    obj (field (codes "amount") (str amount) (field (codes "case_id") (str case) end))

abbrev content_of : Text → Json
content_of t = if t == codes "1,x," then content (codes "1") (codes "x") else content (codes "3") []

content_of-digest :
    (r : Row) → IsIn r (rows_of row_id source) → content_of (row_signature digest r) ≡ row_payload r
unfolding row_payload sorted insert read_cells Dict.get Dict.put
content_of-digest r at = elim at [
  | inl e ↦ subst (λ x. content_of (row_signature digest x) ≡ row_payload x) e refl
  | inr at' ↦ elim at' [
    | inl e ↦ subst (λ x. content_of (row_signature digest x) ≡ row_payload x) e refl
    | inr at'' ↦ elim at'' [
      | inl e ↦ subst (λ x. content_of (row_signature digest x) ≡ row_payload x) e refl
      | inr none_left ↦ absurd none_left
    ]
  ]
]

digest-IsCollisionFree : IsCollisionFree digest (rows_of row_id source)
digest-IsCollisionFree a b a_in b_in h =
    sym (content_of-digest a a_in) ∙ ap content_of h ∙ content_of-digest b b_in

abbrev assigned : Text → Text → SplitAssignment
assigned id split = record { object_id = id; split = split }

abbrev manifest : Text → SplitManifest
manifest split = record {
  target_column = codes "amount";
  group_key = some (codes "case_id");
  assignments =
      assigned (codes "a") (codes "train")
      ∷ assigned (codes "b") split
      ∷ assigned (codes "row_2") (codes "test")
      ∷ [];
}

abbrev profile : Profile
profile = record {
  candidates =
      some (record { column = codes "amount"; reason_code = "high_target_match_rate" } ∷ []);
}

abbrev report : Profile → Text → SplitLeakageReport
report p split = report_of (
    exact_hash_check digest rows (index_assignments [] (manifest split).assignments)
    ∷ group_key_check rows (index_assignments [] (manifest split).assignments)
        (some (codes "case_id"))
    ∷ target_leakage_candidate_check (some p) (manifest split)
    ∷ [])

-- One content and one case in two splits block the evaluation, a column that matches the target the training.
crossed :
    ((report profile (codes "test")).block_model_evaluation ≡ true)
    × ((report profile (codes "test")).block_training ≡ true)
    × ((report profile (codes "test")).leakage_risk_score ≡ 4)
unfolding row_payload report_of exact_hash_check group_key_check target_leakage_candidate_check
    leakage_risk_score collect crossings sort_by insert_by index_assignments sorted insert Dict.get
    Dict.put
crossed = (refl, refl, refl)

abbrev no_candidates : Profile
no_candidates = record { candidates = none }

kept_apart :
    ((report no_candidates (codes "train")).leakage_detected ≡ false)
    × ((report no_candidates (codes "train")).leakage_risk_score ≡ 0)
unfolding row_payload report_of exact_hash_check group_key_check target_leakage_candidate_check
    leakage_risk_score collect crossings sort_by insert_by index_assignments sorted insert Dict.get
    Dict.put
kept_apart = (refl, refl)

made :
    run_split_leakage_checks digest row_id (some profile) (manifest (codes "test")) source
    ≡ ok (report profile (codes "test"))
unfolding run_split_leakage_checks read_rows read_cells index_assignments sorted insert Dict.get
    Dict.put
made = refl

refused :
    (run_split_leakage_checks digest row_id none (record (manifest []) { assignments = [] }) source
      ≡ raise empty_split_manifest)
    × (run_split_leakage_checks digest row_id none
          (record (manifest []) { assignments = assigned (codes "z") (codes "train") ∷ [] })
          source
        ≡ raise (object_ids_missing_in_source (codes "z" ∷ [])))
unfolding run_split_leakage_checks read_rows read_cells index_assignments sorted insert Dict.get
    Dict.put
refused = (refl, refl)

run_split_leakage_checks-IsVerdict_example :
    IsVerdict
      (some profile)
      (manifest (codes "test"))
      (rows_of row_id source)
      (report profile (codes "test"))
run_split_leakage_checks-IsVerdict_example =
    run_split_leakage_checks-IsVerdict digest row_id (some profile) (manifest (codes "test")) source
      (report profile (codes "test")) digest-IsCollisionFree made

run_split_leakage_checks_iff_example :
    ((r : SplitLeakageReport) × (run_split_leakage_checks digest row_id none
          (manifest (codes "test"))
          source
        ≡ ok r))
    ↔ CanCheck row_id (manifest (codes "test")) source
run_split_leakage_checks_iff_example =
    run_split_leakage_checks_iff digest row_id none (manifest (codes "test")) source

source-CanCheck : CanCheck row_id (manifest (codes "test")) source
unfolding Dict.get
source-CanCheck = record {
  some_assigned = refl;
  some_target = refl;
  has_target = refl;
  some_row = refl;
  of_rows = refl;
}

-- The rows of a table that the splitter assigns
abbrev table : List Row
table =
    ((codes "case_id", codes "x") ∷ (codes "churn", codes "0") ∷ [])
    ∷ ((codes "case_id", codes "y") ∷ (codes "churn", codes "1") ∷ [])
    ∷ ((codes "case_id", codes "x") ∷ (codes "churn", codes "0") ∷ [])
    ∷ ((codes "case_id", codes "z") ∷ (codes "churn", codes "0") ∷ [])
    ∷ []

abbrev read_row : ℕ → Text → Text → TabularRow
read_row i group label = record { object_id = row_id i; label = label; group_value = some group }

abbrev tabular_rows : List TabularRow
tabular_rows =
    read_row 0 (codes "x") (codes "0")
    ∷ read_row 1 (codes "y") (codes "1")
    ∷ read_row 2 (codes "x") (codes "0")
    ∷ read_row 3 (codes "z") (codes "0")
    ∷ []

table_is_read :
    to_tabular_rows row_id (codes "churn") (some (codes "case_id")) 0 table ≡ ok tabular_rows
unfolding to_tabular_rows Dict.get
table_is_read = refl

abbrev split_rows : List Assign.SplitAssignment
split_rows =
    assignment (read_row 0 (codes "x") (codes "0")) train
    ∷ assignment (read_row 1 (codes "y") (codes "1")) train
    ∷ assignment (read_row 2 (codes "x") (codes "0")) train
    ∷ assignment (read_row 3 (codes "z") (codes "0")) validation
    ∷ []

rows_are_split : assign_splits hundredths ratio row_name in_order tabular_rows ≡ ok split_rows
unfolding assign_splits place_groups best_split place assign_rows count_labels groups_of
    grouped_from ordered_groups sort_by insert_by primary_label rebalance_targets lower lift
    Dict.get Dict.put starts_with
rows_are_split = refl

assign_splits-group_key_check_example :
    (group_key_check
      (named_rows row_id 0 table)
      (index_assignments [] (map recorded split_rows))
      (some (codes "case_id"))).status
    ≡ passed
assign_splits-group_key_check_example =
    assign_splits-group_key_check hundredths ratio row_name row_id in_order (codes "churn")
      (codes "case_id") table table_is_read rows_are_split refl refl

key_choices :
    (resolve_group_key absent (codes "case_id" ∷ codes "churn" ∷ []) ≡ ok (some (codes "case_id")))
    × (resolve_group_key (named (codes "x")) (codes "churn" ∷ [])
        ≡ raise (group_key_not_found (some (codes "x"))))
unfolding resolve_group_key
key_choices = (refl, refl)

unlabelled :
    to_tabular_rows row_id (codes "churn") none 7 (((codes "churn", []) ∷ []) ∷ [])
    ≡ raise (missing_target_label (row_id 7))
unfolding to_tabular_rows Dict.get
unlabelled = refl
