-- ===== src/Splits/Assign.antt =====
-- `_assign_splits` and `_best_split` of app/plugins/tabular/splits.py.
use dataforge_ai_ml_service.Prelude.{
  ℕ, zero, suc, ◌+◌, ◌-◌, Bool, Option, none, some, List, [], ◌∷◌, length, if◌then◌else◌, nat_eq,
  list_eq, option_eq, Result, ok, raise, ◌>>=◌,
}
use dataforge_ai_ml_service.Prelude.Dict
use dataforge_ai_ml_service.Prelude.Dict.{Dict}
use dataforge_ai_ml_service.Prelude.Texts.{Text}
use dataforge_ai_ml_service.Splits.Groups.{
  TabularRow, Group, count_or_zero, count_labels, size, groups_of, ordered_groups,
}
use dataforge_ai_ml_service.Splits.Targets.{
  DataSplit, train, validation, test, Targets, at, rebalance_targets,
}

-- The floats of the score, with the operations that the code makes of them.
pub record Floats (F : Type 0) : Type 0 where
  pub of_count : ℕ → F
  pub add : F → F → F
  pub mul : F → F → F
  pub div : F → F → F
  pub abs_diff : F → F → F
  pub at_least_one : F → F
  pub lt : F → F → Bool
  pub round : F → ℕ

-- The counts of the rows and of the labels that each split has.
pub record SplitState : Type 0 where
  pub assignments_by_group : Dict (Option Text) DataSplit
  pub split_counts : Targets
  pub train_labels : Dict Text ℕ
  pub validation_labels : Dict Text ℕ
  pub test_labels : Dict Text ℕ

abbrev pub labels_of : SplitState → DataSplit → Dict Text ℕ
labels_of s train = s.train_labels
labels_of s validation = s.validation_labels
labels_of s test = s.test_labels

pub record SplitAssignment : Type 0 where
  pub object_id : Text
  pub split : DataSplit
  pub label : Text
  pub group_value : Option Text

-- The KeyError of a group value that no group has
pub data AssignError : Type 0 where
  no_such_group : Option Text → AssignError

-- `counter.update(counter)`
abbrev pub add_labels : Dict Text ℕ → Dict Text ℕ → Dict Text ℕ
add_labels counts [] = counts
add_labels counts ((label, k) ∷ more) =
    add_labels (Dict.put counts label (count_or_zero (Dict.get counts label) + k)) more

abbrev pub distance : ℕ → ℕ → ℕ
distance a b = a - b + (b - a)

abbrev pub max_one : ℕ → ℕ
max_one zero = 1
max_one (suc k) = suc k

abbrev pub add_count : Targets → DataSplit → ℕ → Targets
add_count t train k = record t { train_part = t.train_part + k }
add_count t validation k = record t { validation_part = t.validation_part + k }
add_count t test k = record t { test_part = t.test_part + k }

abbrev pub fresh_state : SplitState
fresh_state = record {
  assignments_by_group = [];
  split_counts = record { train_part = 0; validation_part = 0; test_part = 0 };
  train_labels = [];
  validation_labels = [];
  test_labels = [];
}

-- What the loop over the groups does once the split is chosen.
unfoldable pub place : SplitState → Group → DataSplit → SplitState
place s group split = record {
  assignments_by_group = Dict.put s.assignments_by_group group.group_value split;
  split_counts = add_count s.split_counts split (size group);
  train_labels = elim split [
    | train ↦ add_labels s.train_labels group.label_counts
    | validation ↦ s.train_labels
    | test ↦ s.train_labels
  ];
  validation_labels = elim split [
    | train ↦ s.validation_labels
    | validation ↦ add_labels s.validation_labels group.label_counts
    | test ↦ s.validation_labels
  ];
  test_labels = elim split [
    | train ↦ s.test_labels
    | validation ↦ s.test_labels
    | test ↦ add_labels s.test_labels group.label_counts
  ];
}

-- `assignments_by_group[row.group_value]`
abbrev pub found_split : Option Text → Option DataSplit → Result AssignError DataSplit
found_split value none = raise (no_such_group value)
found_split value (some split) = ok split

abbrev pub assignment : TabularRow → DataSplit → SplitAssignment
assignment row split = record {
  object_id = row.object_id;
  split = split;
  label = row.label;
  group_value = row.group_value;
}

-- A row goes where its group value went.
unfoldable pub assign_rows :
    Dict (Option Text) DataSplit → List TabularRow → Result AssignError (List SplitAssignment)
assign_rows placed [] = ok []
assign_rows placed (row ∷ rows) = do
  let rest = assign_rows placed rows
  split ← found_split row.group_value (Dict.get placed row.group_value)
  later ← rest
  ok (assignment row split ∷ later)

module _ {F : Type 0} (f : Floats F) (ratio : DataSplit → F) where
  abbrev pub label_penalty : (Text → ℕ) → DataSplit → Dict Text ℕ → F → Dict Text ℕ → F
  label_penalty total split placed penalty [] = penalty
  label_penalty total split placed penalty ((label, count) ∷ more) =
      let expected = f.mul (f.of_count (total label)) (ratio split) in
      let next = f.of_count (count_or_zero (Dict.get placed label) + count) in
      label_penalty total split placed
        (f.add penalty (f.div (f.abs_diff expected next) (f.at_least_one expected))) more

  -- `score`, without the index of the split that breaks ties
  abbrev pub score : (Text → ℕ) → Targets → SplitState → Group → DataSplit → F
  score total targets s group split =
      let next = at s.split_counts split + size group in
      let target = at targets split in
      f.add (f.div (f.of_count (distance target next)) (f.of_count (max_one target)))
        (label_penalty total split (labels_of s split) (f.of_count 0) group.label_counts)

  abbrev pub better : (DataSplit → F) → DataSplit → DataSplit → DataSplit
  better value best other = if f.lt (value other) (value best) then other else best

  -- `_best_split`: the least score, and among equal ones the first split
  unfoldable pub best_split : (Text → ℕ) → Targets → SplitState → Group → DataSplit
  best_split total targets s group =
      let value = score total targets s group in better value (better value train validation) test

  -- The loop over the groups
  unfoldable pub place_groups : (Text → ℕ) → Targets → SplitState → List Group → SplitState
  place_groups total targets s [] = s
  place_groups total targets s (group ∷ groups) =
      place_groups total targets (place s group (best_split total targets s group)) groups

  abbrev pub target_of : ℕ → DataSplit → ℕ
  target_of total split = max_one (f.round (f.mul (f.of_count total) (ratio split)))

  abbrev pub targets_of : ℕ → Targets
  targets_of total =
      rebalance_targets
        (record {
          train_part = target_of total train;
          validation_part = target_of total validation;
          test_part = target_of total test;
        })
        total

  -- `_assign_splits`
  unfoldable pub assign_splits :
      (ℕ → Text)
      → (List Group → List Group)
      → List TabularRow
      → Result AssignError (List SplitAssignment)
  unfolding place_groups best_split place
  assign_splits row_name shuffle rows =
      let total_labels = count_labels [] rows in
      let total = λ (label : Text). count_or_zero (Dict.get total_labels label) in
      let placed =
        place_groups total (targets_of (length rows)) fresh_state
          (ordered_groups shuffle (groups_of row_name rows)) in
      assign_rows placed.assignments_by_group rows
