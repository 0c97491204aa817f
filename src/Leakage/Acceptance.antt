-- ===== src/Leakage/Acceptance.antt =====
-- When `run_split_leakage_checks` of app/plugins/tabular/leakage_checks.py makes a report.
use dataforge_ai_ml_service.Prelude.{
  ℕ, true, false, not, ◌&&◌, List, [], ◌∷◌, map, all, nat_eq, list_eq, member, member-keep, Option,
  ok, raise_if, >>=-eq-ok, ◌≡◌, ◌↔◌, refl, sym, ap, ◌∙◌, arith, is_empty, take,
}
use dataforge_ai_ml_service.Prelude.Sorting.{nat_order, list_order}
use dataforge_ai_ml_service.Prelude.Texts.{Text}
use dataforge_ai_ml_service.Json.{Json}
use dataforge_ai_ml_service.Validation.RuleModel.{Row, is_blank}
use dataforge_ai_ml_service.Leakage.Model.{
  SplitManifest, Profile, SplitLeakageReport, target_column_not_found, empty_tabular_source,
  empty_split_manifest, object_ids_missing_in_source,
}
use dataforge_ai_ml_service.Leakage.Table.{
  Table, columns_of, read_cells, named_rows, rows_of, read_rows,
}
use dataforge_ai_ml_service.Leakage.Checks.{
  index_assignments, missing_in_rows, exact_hash_check, group_key_check,
  target_leakage_candidate_check, report_of, run_split_leakage_checks,
}
use dataforge_ai_ml_service.Leakage.Ids.{object_ids, object_ids_read, is_empty-missing_in_rows}

-- The manifest and the table can be checked: there is an assignment, the header has the target
-- column, there is a row, and each assignment is of a row.
pub record CanCheck (row_id : ℕ → Text) (manifest : SplitManifest) (table : Table) : Type 0 where
  pub some_assigned : is_empty manifest.assignments ≡ false
  pub some_target : is_blank manifest.target_column ≡ false
  pub has_target : member manifest.target_column table.fieldnames ≡ true
  pub some_row : is_empty table.raw_rows ≡ false
  pub of_rows :
      all
        (λ a. member a.object_id (object_ids row_id table.fieldnames 0 table.raw_rows))
        manifest.assignments
      ≡ true

member-some : (a : Text) (xs : List Text) → member a xs ≡ true → is_empty xs ≡ false
member-some a [] h = cc h
member-some a (x ∷ xs) h = refl

is_empty-named :
    (row_id : ℕ → Text) (read : Row → Row) (raws : List Row)
    → is_empty (named_rows row_id 0 (map read raws)) ≡ is_empty raws
is_empty-named row_id read [] = refl
is_empty-named row_id read (raw ∷ raws) = refl

module _ (row_id : ℕ → Text) (target : Text) (table : Table) where
  is_empty-rows_of : is_empty (rows_of row_id table) ≡ is_empty table.raw_rows
  is_empty-rows_of = is_empty-named row_id (read_cells [] (columns_of table)) table.raw_rows

  has_column :
      member target (columns_of table) ≡ (not (is_blank target) && member target table.fieldnames)
  has_column = member-keep (λ name. not (is_blank name)) target table.fieldnames

  read_rows-ok :
      (rows : List Row)
      → read_rows row_id target table ≡ ok rows
      → (is_blank target ≡ false)
        × (member target table.fieldnames ≡ true)
        × (is_empty table.raw_rows ≡ false)
        × (rows_of row_id table ≡ rows)
  unfolding read_rows
  read_rows-ok rows h =
      let (_, some_column, h₁) =
        >>=-eq-ok (raise_if (is_empty (columns_of table)) empty_tabular_source) _ h in
      let (_, found, h₂) =
        >>=-eq-ok
          (raise_if (not (member target (columns_of table))) (target_column_not_found target)) _
          h₁ in
      let (_, some_row, last) =
        >>=-eq-ok (raise_if (is_empty (rows_of row_id table)) empty_tabular_source) _ h₂ in
      (
        ground (arith, has_column),
        ground (arith, has_column),
        ground (arith, is_empty-rows_of),
        cc last,
      )

  ok-read_rows :
      is_blank target ≡ false
      → member target table.fieldnames ≡ true
      → is_empty table.raw_rows ≡ false
      → read_rows row_id target table ≡ ok (rows_of row_id table)
  unfolding read_rows
  ok-read_rows some_target found some_row =
      let there : member target (columns_of table) ≡ true = ground (arith, has_column) in
      let columns = member-some target (columns_of table) there in
      let rows : is_empty (rows_of row_id table) ≡ false = ground (arith, is_empty-rows_of) in
      rw (columns, there, rows) refl

module _ (digest : Json → Text) (row_id : ℕ → Text) (profile : Option Profile)
    (manifest : SplitManifest) (table : Table) where
  -- The report on the rows that are read
  abbrev pub report_on : List Row → SplitLeakageReport
  report_on rows =
      let assignments = index_assignments [] manifest.assignments in
      report_of (
        exact_hash_check digest rows assignments
        ∷ group_key_check rows assignments manifest.group_key
        ∷ target_leakage_candidate_check profile manifest
        ∷ [])

  is_empty-missing :
      is_empty (missing_in_rows (index_assignments [] manifest.assignments) (rows_of row_id table))
      ≡ all
          (λ a. member a.object_id (object_ids row_id table.fieldnames 0 table.raw_rows))
          manifest.assignments
  is_empty-missing =
      is_empty-missing_in_rows (rows_of row_id table) manifest.assignments
      ∙ ap (λ ids. all (λ a. member a.object_id ids) manifest.assignments)
          (object_ids_read row_id table 0 table.raw_rows)

  pub run_split_leakage_checks-CanCheck :
      (r : SplitLeakageReport)
      → run_split_leakage_checks digest row_id profile manifest table ≡ ok r
      → CanCheck row_id manifest table × (report_on (rows_of row_id table) ≡ r)
  unfolding run_split_leakage_checks
  run_split_leakage_checks-CanCheck r h =
      let (_, some_assigned, h₁) =
        >>=-eq-ok (raise_if (is_empty manifest.assignments) empty_split_manifest) _ h in
      let (rows, read, h₂) = >>=-eq-ok (read_rows row_id manifest.target_column table) _ h₁ in
      let (some_target, has_target, some_row, same) =
        read_rows-ok row_id manifest.target_column table rows read in
      let missing = missing_in_rows (index_assignments [] manifest.assignments) rows in
      let (_, in_rows, last) =
        >>=-eq-ok
          (raise_if (not (is_empty missing)) (object_ids_missing_in_source (take 5 missing))) _
          h₂ in
      let none_missing : is_empty missing ≡ true = ground arith in
      (
        record {
          some_assigned = ground arith;
          some_target = some_target;
          has_target = has_target;
          some_row = some_row;
          of_rows =
              sym is_empty-missing
              ∙ ap (λ x. is_empty (missing_in_rows (index_assignments [] manifest.assignments) x))
                  same
              ∙ none_missing;
        },
        ap report_on same ∙ cc last,
      )

  CanCheck-run_split_leakage_checks :
      CanCheck row_id manifest table
      → run_split_leakage_checks digest row_id profile manifest table
        ≡ ok (report_on (rows_of row_id table))
  unfolding run_split_leakage_checks
  CanCheck-run_split_leakage_checks c =
      rw
        (
          c.some_assigned,
          ok-read_rows row_id manifest.target_column table c.some_target c.has_target c.some_row,
          is_empty-missing ∙ c.of_rows,
        )
        refl

  -- A report is made exactly if the manifest has an assignment, its target column is in the header
  -- of the table and not blank, the table has a row, and each assignment is of a row, by the cell of
  -- the column of the ids or, where that is missing or blank, by the name of the row's place;
  -- whatever the digests and the profile are.
  pub run_split_leakage_checks_iff :
      ((r : SplitLeakageReport) × (run_split_leakage_checks digest row_id profile manifest table
          ≡ ok r))
      ↔ CanCheck row_id manifest table
  run_split_leakage_checks_iff = (
    λ (r, made). (run_split_leakage_checks-CanCheck r made).0,
    λ c. (report_on (rows_of row_id table), CanCheck-run_split_leakage_checks c),
  )
