-- ===== src/Leakage/Splitter.antt =====
-- What the group key check of app/plugins/tabular/leakage_checks.py says of the assignments of
-- app/plugins/tabular/splits.py.
use dataforge_ai_ml_service.Prelude.{
  ℕ, suc, true, false, String, some, List, [], ◌∷◌, map, any, nat_eq, list_eq, list_beq_iff,
  option_eq, ◌==◌, distinct, ok, ◌≡◌, refl, sym, ap, ◌∙◌, arith, Bool-cases, inl, inr, is_empty,
}
use dataforge_ai_ml_service.Prelude.Dict
use dataforge_ai_ml_service.Prelude.Dict.{Dict, get-put}
use dataforge_ai_ml_service.Prelude.Texts.{Text, codes}
use dataforge_ai_ml_service.Validation.RuleModel.{Row}
use dataforge_ai_ml_service.Splits.Groups.{TabularRow, Group}
use dataforge_ai_ml_service.Splits.Targets.{DataSplit}
use dataforge_ai_ml_service.Splits.Assign.{SplitAssignment, Floats, assign_splits}
use dataforge_ai_ml_service.Splits.Rows.{to_tabular_rows}
use dataforge_ai_ml_service.Splits.Integrity.{
  get_elem?, map-row_of-assign_splits, assign_splits-by_group,
}
use dataforge_ai_ml_service.Leakage.Model
use dataforge_ai_ml_service.Leakage.Table.{named_rows}
use dataforge_ai_ml_service.Leakage.Checks.{
  index_assignments, value_in, collect, crossings, finding_of, crossing_result, group_key_check,
}
use dataforge_ai_ml_service.Leakage.Crossing.{is_row_of, Crosses, crossings_iff}
use dataforge_ai_ml_service.Leakage.Verdict.{is_empty-map}
use dataforge_ai_ml_service.Leakage.Reading.{
  Reads, get-index_of_assigned, ids, is_row_of_parts, recorded, recorded_index, split_value,
  to_tabular_rows-Reads,
}

-- The assignment of a row
record IsFound (placed : Dict Text Text) (out : List SplitAssignment) (key split : Text)
    : Type 0 where
  index : ℕ
  found : SplitAssignment
  here : get_elem? out index ≡ some found
  group : found.group_value ≡ some key
  in_split : Dict.get placed found.object_id ≡ some split

any-IsFound :
    (placed : Dict Text Text) (column key split : Text) (rows : List Row)
    (out : List SplitAssignment)
    → Reads column rows out
    → any (is_row_of (value_in column) placed key split) rows ≡ true
    → IsFound placed out key split
any-IsFound placed column key split [] out r h = cc h
any-IsFound placed column key split (row ∷ rows) [] r h = elim r [ ]
any-IsFound placed column key split (row ∷ rows) (a ∷ out) r h =
    elim (Bool-cases (is_row_of (value_in column) placed key split row)) [
      | inl this ↦ record {
        index = 0;
        found = a;
        here = refl;
        group = sym r.1 ∙ (is_row_of_parts (value_in column) placed key split row this).1;
        in_split =
            ap (Dict.get placed) (sym r.0)
            ∙ (is_row_of_parts (value_in column) placed key split row this).0;
      }
      | inr other ↦
          let f = any-IsFound placed column key split rows out r.2 (ground arith) in
          record {
            index = suc f.index;
            found = f.found;
            here = f.here;
            group = f.group;
            in_split = f.in_split;
          }
    ]

assign_splits-keeps_groups :
    {F : Type 0} (f : Floats F) (ratio : DataSplit → F) (row_name row_id : ℕ → Text)
    (shuffle : List Group → List Group) (target column : Text) (rows : List Row)
    {read : List TabularRow} {out : List SplitAssignment}
    → to_tabular_rows row_id target (some column) 0 rows ≡ ok read
    → assign_splits f ratio row_name shuffle read ≡ ok out
    → (codes "object_id" == column) ≡ false
    → distinct (ids out) ≡ true
    → ¬ (Crosses (value_in column) (recorded_index [] out) (named_rows row_id 0 rows))
assign_splits-keeps_groups f ratio row_name row_id shuffle target column rows {read = read}
      {out = out} e h other u c =
    let order = map-row_of-assign_splits f ratio row_name shuffle read h in
    let reads = to_tabular_rows-Reads row_id target column 0 rows out other e order in
    let placed = recorded_index [] out in
    let a =
      any-IsFound placed column c.key c.first (named_rows row_id 0 rows) out reads c.in_first in
    let b =
      any-IsFound placed column c.key c.second (named_rows row_id 0 rows) out reads c.in_second in
    let (_, one) =
      assign_splits-by_group f ratio row_name shuffle read h a.index b.index a.here b.here
        (a.group ∙ sym b.group) in
    let first_at = get-index_of_assigned [] out a.index u a.here in
    let second_at = get-index_of_assigned [] out b.index u b.here in
    let equal : some c.first ≡ some c.second =
      sym a.in_split ∙ first_at ∙ ap (λ d. some (split_value d)) one ∙ sym second_at ∙ b.in_split in
    ground (arith, equal, list_beq_iff c.first c.second)

crossing_result-passed :
    (t : Model.LeakageCheckType) (reason : String) (columns groups : List Text)
    (fs : List Model.LeakageCrossSplitFinding)
    → is_empty fs ≡ true
    → (crossing_result t reason columns groups fs).status ≡ Model.passed
crossing_result-passed t reason columns groups [] h = refl
crossing_result-passed t reason columns groups (f ∷ fs) h = cc h

group_key_check-passed :
    (rows : List Row) (placed : Dict Text Text) (column : Text)
    → ¬ (Crosses (value_in column) placed rows)
    → (group_key_check rows placed (some column)).status ≡ Model.passed
unfolding group_key_check
group_key_check-passed rows placed column apart =
    let found = crossings (collect (value_in column) placed [] rows) in
    crossing_result-passed _ _ _ _ (map (finding_of (some column) some) found)
      (elim (Bool-cases (is_empty found)) [
        | inl none_found ↦ is_empty-map (finding_of (some column) some) found ∙ none_found
        | inr some_found ↦
            absurd (apart ((crossings_iff (value_in column) placed rows).0 some_found))
      ])

-- The group key check passes on the assignments that the splitter makes of a table, whatever the
-- floats, the seed and the rows, where no object id is assigned twice and the group key is not the
-- column of the ids.
pub assign_splits-group_key_check :
    {F : Type 0} (f : Floats F) (ratio : DataSplit → F) (row_name row_id : ℕ → Text)
    (shuffle : List Group → List Group) (target column : Text) (rows : List Row)
    {read : List TabularRow} {out : List SplitAssignment}
    → to_tabular_rows row_id target (some column) 0 rows ≡ ok read
    → assign_splits f ratio row_name shuffle read ≡ ok out
    → (codes "object_id" == column) ≡ false
    → distinct (ids out) ≡ true
    → (group_key_check
        (named_rows row_id 0 rows)
        (index_assignments [] (map recorded out))
        (some column)).status
      ≡ Model.passed
assign_splits-group_key_check f ratio row_name row_id shuffle target column rows {out = out} e h
      other u =
    group_key_check-passed (named_rows row_id 0 rows) (recorded_index [] out) column
      (assign_splits-keeps_groups f ratio row_name row_id shuffle target column rows e h other u)
