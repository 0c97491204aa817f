-- ===== src/Leakage/Ids.antt =====
-- The ids of the rows of app/plugins/tabular/leakage_checks.py, and the assignments that are of none.
use dataforge_ai_ml_service.Prelude.{
  ℕ, suc, Bool, false, not, ◌||◌, List, [], ◌∷◌, map, keep, any, all, nat_eq, list_eq, list_beq_iff,
  if◌then◌else◌, ◌==◌, member, member-keep, ◌≡◌, refl, ap, ◌∙◌, arith, Bool-cases, inl, inr,
  is_empty, is_empty-keep,
}
use mathlib.Core.Path.{ap₂}
use dataforge_ai_ml_service.Prelude.Dict
use dataforge_ai_ml_service.Prelude.Dict.{Dict, keys, get-put}
use dataforge_ai_ml_service.Prelude.Sorting.{sorted, insert, nat_order, list_order}
use dataforge_ai_ml_service.Prelude.Texts.{Text}
use dataforge_ai_ml_service.Validation.RuleModel.{Row, cell, is_blank}
use dataforge_ai_ml_service.Splits.Rows.{or_text}
use dataforge_ai_ml_service.Leakage.Model.{SplitAssignment}
use dataforge_ai_ml_service.Leakage.Table.{
  Table, object_id_column, object_id_of, columns_of, read_cells, named_rows,
}
use dataforge_ai_ml_service.Leakage.Checks.{index_assignments, missing_in_rows}
use dataforge_ai_ml_service.Leakage.Reading.{cell-put, object_id_of-name_row}

module _ (p : Text → Bool) where
  any-keys-put :
      (d : Dict Text Text) (k v : Text) → any p (keys (Dict.put d k v)) ≡ (p k || any p (keys d))
  unfolding Dict.put
  any-keys-put [] k v = refl
  any-keys-put ((j, w) ∷ d) k v =
      let rest = any-keys-put d k v in
      elim (Bool-cases (j == k)) [
        | inl same ↦ let at : p j ≡ p k = ap p ((list_beq_iff j k).0 same) in ground arith
        | inr other ↦ ground arith
      ]

  any-index_assignments :
      (d : Dict Text Text) (assignments : List SplitAssignment)
      → any p (keys (index_assignments d assignments))
        ≡ (any p (keys d) || any (λ a. p a.object_id) assignments)
  unfolding index_assignments
  any-index_assignments d [] = ground arith
  any-index_assignments d (a ∷ rest) = ground (
    arith,
    any-index_assignments (Dict.put d a.object_id a.split) rest,
    any-keys-put d a.object_id a.split,
  )

not-any :
    (q : Text → Bool) (assignments : List SplitAssignment)
    → not (any (λ a. not (q a.object_id)) assignments) ≡ all (λ a. q a.object_id) assignments
not-any q [] = refl
not-any q (a ∷ rest) = ground (arith, not-any q rest)

is_empty-insert : (x : Text) (xs : List Text) → is_empty (insert x xs) ≡ false
unfolding insert
is_empty-insert x [] = refl
is_empty-insert x (y ∷ xs) = ground arith

is_empty-sorted : (xs : List Text) → is_empty (sorted xs) ≡ is_empty xs
unfolding sorted
is_empty-sorted [] = refl
is_empty-sorted (x ∷ xs) = is_empty-insert x (sorted xs)

-- No id is missing exactly if each assignment is of a row.
pub is_empty-missing_in_rows :
    (rows : List Row) (assignments : List SplitAssignment)
    → is_empty (missing_in_rows (index_assignments [] assignments) rows)
      ≡ all (λ a. member a.object_id (map object_id_of rows)) assignments
is_empty-missing_in_rows rows assignments =
    let is_missing : Text → Bool = λ id. not (member id (map object_id_of rows)) in
    is_empty-sorted (keep is_missing (keys (index_assignments [] assignments)))
    ∙ is_empty-keep is_missing (keys (index_assignments [] assignments))
    ∙ ap not (any-index_assignments is_missing [] assignments)
    ∙ not-any (λ id. member id (map object_id_of rows)) assignments

module _ (row_id : ℕ → Text) (names : List Text) where
  -- The id of a row: its cell of the column of the ids, or the name of its place.
  abbrev pub id_of : ℕ → Row → Text
  id_of index raw =
      or_text (if member object_id_column names then cell raw object_id_column else [])
        (row_id index)

  abbrev pub object_ids : ℕ → List Row → List Text
  object_ids index [] = []
  object_ids index (raw ∷ raws) = id_of index raw ∷ object_ids (suc index) raws

cell-read_cells :
    (row : Row) (columns : List Text) (raw : Row) (column : Text)
    → cell (read_cells row columns raw) column
      ≡ (if member column columns then cell raw column else cell row column)
unfolding read_cells
cell-read_cells row [] raw column = refl
cell-read_cells row (c ∷ columns) raw column =
    let rest = cell-read_cells (Dict.put row c (cell raw c)) columns raw column in
    let first = cell-put row c column (cell raw c) in
    elim (Bool-cases (c == column)) [
      | inl same ↦ let at = ap (cell raw) ((list_beq_iff c column).0 same) in ground arith
      | inr other ↦ ground arith
    ]

module _ (row_id : ℕ → Text) (table : Table) where
  object_id_of-read :
      (raw : Row)
      → object_id_of (read_cells [] (columns_of table) raw)
        ≡ (if member object_id_column table.fieldnames then cell raw object_id_column else [])
  unfolding Dict.get
  object_id_of-read raw = ground (
    arith,
    cell-read_cells [] (columns_of table) raw object_id_column,
    member-keep (λ name. not (is_blank name)) object_id_column table.fieldnames,
  )

  pub object_ids_read :
      (index : ℕ) (raws : List Row)
      → map object_id_of (named_rows row_id index (map (read_cells [] (columns_of table)) raws))
        ≡ object_ids row_id table.fieldnames index raws
  object_ids_read index [] = refl
  object_ids_read index (raw ∷ raws) =
      ap₂ (λ x xs. x ∷ xs)
        (object_id_of-name_row row_id index (read_cells [] (columns_of table) raw)
          ∙ ap (λ t. or_text t (row_id index)) (object_id_of-read raw))
        (object_ids_read (suc index) raws)
