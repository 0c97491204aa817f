-- ===== src/Leakage/Table.antt =====
-- The rows that `_read_rows` of app/plugins/tabular/leakage_checks.py makes of a table, and the
-- content of a row that `_row_signature` digests. The table is what csv.DictReader gives: a row has
-- no entry where the reader has None.
use dataforge_ai_ml_service.Prelude.{
  ℕ, suc, Bool, not, List, [], ◌∷◌, map, keep, if◌then◌else◌, nat_eq, list_eq, ◌==◌, member, Result,
  ok, raise_if, ◌>>◌, is_empty,
}
use dataforge_ai_ml_service.Prelude.Dict
use dataforge_ai_ml_service.Prelude.Dict.{keys}
use dataforge_ai_ml_service.Prelude.Sorting.{sorted, nat_order, list_order}
use dataforge_ai_ml_service.Prelude.Texts.{Text, codes}
use dataforge_ai_ml_service.Json.{Json, str, obj, Fields, end, field}
use dataforge_ai_ml_service.Validation.RuleModel.{Row, cell, is_blank}
use dataforge_ai_ml_service.Leakage.Model.{
  SplitLeakageCheckError, empty_tabular_source, target_column_not_found,
}

pub record Table : Type 0 where
  pub fieldnames : List Text
  pub raw_rows : List Row

abbrev pub object_id_column : Text
object_id_column = codes "object_id"

abbrev pub object_id_of : Row → Text
object_id_of row = cell row object_id_column

-- `tuple(name for name in (reader.fieldnames or ()) if name)`
abbrev pub columns_of : Table → List Text
columns_of table = keep (λ name. not (is_blank name)) table.fieldnames

-- `{column: ... for column in columns}` of a raw row, onto what is read so far
unfoldable pub read_cells : Row → List Text → Row → Row
read_cells row [] raw = row
read_cells row (column ∷ columns) raw =
    read_cells (Dict.put row column (cell raw column)) columns raw

-- A row gets an id where it has none; `row_id` is the text `row_{index:06d}`.
abbrev pub name_row : (ℕ → Text) → ℕ → Row → Row
name_row row_id index row =
    if is_blank (object_id_of row) then Dict.put row object_id_column (row_id index) else row

abbrev pub named_rows : (ℕ → Text) → ℕ → List Row → List Row
named_rows row_id index [] = []
named_rows row_id index (row ∷ rows) =
    name_row row_id index row ∷ named_rows row_id (suc index) rows

-- The rows of a table that is read
abbrev pub rows_of : (ℕ → Text) → Table → List Row
rows_of row_id table = named_rows row_id 0 (map (read_cells [] (columns_of table)) table.raw_rows)

-- `_read_rows`
unfoldable pub read_rows : (ℕ → Text) → Text → Table → Result SplitLeakageCheckError (List Row)
read_rows row_id target_column table = do
  raise_if (is_empty (columns_of table)) empty_tabular_source
  raise_if (not (member target_column (columns_of table))) (target_column_not_found target_column)
  let rows = rows_of row_id table
  raise_if (is_empty rows) empty_tabular_source
  ok rows

-- `column != "object_id"`
abbrev pub is_content : Text → Bool
is_content column = not (object_id_column == column)

abbrev pub content_fields : Row → List Text → Fields
content_fields row [] = end
content_fields row (column ∷ columns) =
    field column (str (cell row column)) (content_fields row columns)

-- The payload of `_row_signature`
unfoldable pub row_payload : Row → Json
row_payload row = obj (content_fields row (keep is_content (sorted (keys row))))

-- `_row_signature`; `digest` is the SHA-256 of the JSON text.
abbrev pub row_signature : (Json → Text) → Row → Text
row_signature digest row = digest (row_payload row)
