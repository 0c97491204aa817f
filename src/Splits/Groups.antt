-- ===== src/Splits/Groups.antt =====
-- Rows, their groups and the order of the groups, by app/plugins/tabular/splits.py.
use dataforge_ai_ml_service.Prelude.{
  ℕ, suc, Bool, true, false, Option, none, some, List, [], ◌∷◌, ◌++◌, map, length, if◌then◌else◌,
  ltb, leb, nat_eq, list_eq, ◌==◌, member,
}
use dataforge_ai_ml_service.Prelude.Dict
use dataforge_ai_ml_service.Prelude.Dict.{Dict, keys}
use dataforge_ai_ml_service.Prelude.Sorting.{nat_order, list_order, lex_le}
use dataforge_ai_ml_service.Prelude.Texts.{Text, codes, starts_with}

pub record TabularRow : Type 0 where
  pub object_id : Text
  pub label : Text
  pub group_value : Option Text

pub record Group : Type 0 where
  pub group_value : Option Text
  pub rows : List TabularRow
  pub label_counts : Dict Text ℕ

abbrev pub count_or_zero : Option ℕ → ℕ
count_or_zero none = 0
count_or_zero (some k) = k

-- `counter.update(labels)`
unfoldable pub count_labels : Dict Text ℕ → List TabularRow → Dict Text ℕ
count_labels counts [] = counts
count_labels counts (row ∷ rows) =
    count_labels (Dict.put counts row.label (suc (count_or_zero (Dict.get counts row.label)))) rows

-- `_Group.size`
abbrev pub size : Group → ℕ
size group = length group.rows

abbrev pub one : Text
one = codes "1"

-- The order of `(-count, label)`.
abbrev pub comes_first : Text × ℕ → Text × ℕ → Bool
comes_first (l, c) (m, d) = if c == d then lex_le l m else ltb d c

abbrev pub first_label : Text × ℕ → Dict Text ℕ → Text
first_label best [] = best.0
first_label best (entry ∷ entries) =
    first_label (if comes_first best entry then best else entry) entries

abbrev pub leading_label : Dict Text ℕ → Text
leading_label [] = []
leading_label (entry ∷ entries) = first_label entry entries

-- `_Group.primary_label`
unfoldable pub primary_label : Group → Text
primary_label group =
    if member one (keys group.label_counts) then one else leading_label group.label_counts

-- The key of `grouped`; `row_name` is the text `__row_{index:06d}`.
abbrev pub stored_key : (ℕ → Text) → ℕ → Option Text → Text
stored_key row_name index none = row_name index
stored_key row_name index (some value) = value

abbrev pub rows_or_none : Option (List TabularRow) → List TabularRow
rows_or_none none = []
rows_or_none (some rows) = rows

-- The first loop of `_groups`
unfoldable pub grouped_from :
    (ℕ → Text) → ℕ → Dict Text (List TabularRow) → List TabularRow → Dict Text (List TabularRow)
grouped_from row_name index grouped [] = grouped
grouped_from row_name index grouped (row ∷ rows) =
    let key = stored_key row_name index row.group_value in
    grouped_from row_name (suc index)
      (Dict.put grouped key (rows_or_none (Dict.get grouped key) ++ row ∷ [])) rows

-- `None if str(stored_key).startswith("__row_") else stored_key`
abbrev pub value_of_key : Text → Option Text
value_of_key key = if starts_with key (codes "__row_") then none else some key

abbrev pub group_of : Text × List TabularRow → Group
group_of (key, rows) = record {
  group_value = value_of_key key;
  rows = rows;
  label_counts = count_labels [] rows;
}

-- `_groups`
unfoldable pub groups_of : (ℕ → Text) → List TabularRow → List Group
groups_of row_name rows = map group_of (grouped_from row_name 0 [] rows)

-- A stable sort by a test on the elements.
module _ {ℓ} {A : Type ℓ} (precedes : A → A → Bool) where
  unfoldable pub insert_by : A → List A → List A
  insert_by a [] = a ∷ []
  insert_by a (x ∷ xs) = let rest = insert_by a xs in if precedes a x then a ∷ x ∷ xs else x ∷ rest

  unfoldable pub sort_by : List A → List A
  unfolding insert_by
  sort_by [] = []
  sort_by (x ∷ xs) = insert_by x (sort_by xs)

abbrev pub is_rare : Group → Bool
is_rare group = primary_label group == one

abbrev pub text_or_blank : Option Text → Text
text_or_blank none = []
text_or_blank (some t) = t

-- Groups whose primary label is "1" come first; among alike ones the test decides.
abbrev pub rare_first : Group → Group → Bool → Bool
rare_first g h test =
    if is_rare g then (if is_rare h then test else true) else if is_rare h then false else test

-- The order of `(primary_label != "1", group_value or "")`
abbrev pub by_value : Group → Group → Bool
by_value g h = rare_first g h (lex_le (text_or_blank g.group_value) (text_or_blank h.group_value))

-- The order of `(primary_label != "1", -size)`
abbrev pub by_size : Group → Group → Bool
by_size g h = rare_first g h (leb (size h) (size g))

-- The order in which groups are assigned; `shuffle` is that of `random.Random(seed)`.
unfoldable pub ordered_groups : (List Group → List Group) → List Group → List Group
ordered_groups shuffle groups = sort_by by_size (shuffle (sort_by by_value groups))
