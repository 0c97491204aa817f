-- ===== src/Splits/Rows.antt =====
-- How app/plugins/tabular/splits.py reads its rows: `_resolve_group_key` and `_to_tabular_rows`.
use dataforge_ai_ml_service.Prelude.{
  ℕ, suc, Option, none, some, List, [], ◌∷◌, if◌then◌else◌, nat_eq, list_eq, member, Result, ok,
  raise, raise_if, ◌>>=◌, ◌>>◌,
}
use dataforge_ai_ml_service.Prelude.Texts.{Text, codes}
use dataforge_ai_ml_service.Validation.RuleModel.{Row, cell, is_blank, text_or_none}
use dataforge_ai_ml_service.Splits.Groups.{TabularRow}

-- The SplitCreationErrors of these two functions
pub data RowError : Type 0 where
  group_key_not_found : Option Text → RowError
  missing_target_label : Text → RowError

-- `config.get("group_key")`
pub data ConfiguredKey : Type 0 where
  absent not_text : ConfiguredKey
  named : Text → ConfiguredKey

abbrev pub default_group_key_candidates : List Text
default_group_key_candidates = codes "customer_id_hash" ∷ codes "case_id" ∷ []

abbrev pub first_among : List Text → List Text → Option Text
first_among columns [] = none
first_among columns (candidate ∷ rest) =
    if member candidate columns then some candidate else first_among columns rest

-- `_resolve_group_key`
unfoldable pub resolve_group_key : ConfiguredKey → List Text → Result RowError (Option Text)
resolve_group_key absent columns = ok (first_among columns default_group_key_candidates)
resolve_group_key not_text columns = raise (group_key_not_found none)
resolve_group_key (named key) columns =
    if member key columns then ok (some key) else raise (group_key_not_found (some key))

-- `value or default`
abbrev pub or_text : Text → Text → Text
or_text [] default = default
or_text (c ∷ t) default = c ∷ t

-- `row[group_key] if group_key is not None and row.get(group_key) else None`
abbrev pub group_value_of : Option Text → Row → Option Text
group_value_of none row = none
group_value_of (some key) row = text_or_none (cell row key)

-- One row; `row_id` is the text `row_{index:06d}`.
abbrev pub tabular_row : (ℕ → Text) → Text → Option Text → ℕ → Row → TabularRow
tabular_row row_id target_column group_key index row = record {
  object_id = or_text (cell row (codes "object_id")) (row_id index);
  label = cell row target_column;
  group_value = group_value_of group_key row;
}

-- `_to_tabular_rows`, from an index on
unfoldable pub to_tabular_rows :
    (ℕ → Text) → Text → Option Text → ℕ → List Row → Result RowError (List TabularRow)
to_tabular_rows row_id target_column group_key index [] = ok []
to_tabular_rows row_id target_column group_key index (row ∷ rows) = do
  let read = tabular_row row_id target_column group_key index row
  let rest = to_tabular_rows row_id target_column group_key (suc index) rows
  raise_if (is_blank read.label) (missing_target_label read.object_id)
  later ← rest
  ok (read ∷ later)
