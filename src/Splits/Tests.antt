-- ===== src/Splits/Tests.antt =====
-- Runs of app/plugins/tabular/splits.py, and its theorems at concrete inputs.
use dataforge_ai_ml_service.Prelude.{
  Option, none, some, List, [], ◌∷◌, map, length, nat_eq, list_eq, option_eq, ok, raise, ◌≡◌, refl,
  All, sum_of,
}
use dataforge_ai_ml_service.Prelude.Dict
use dataforge_ai_ml_service.Prelude.Texts.{Text, codes, starts_with}
use dataforge_ai_ml_service.Splits.Groups.{
  TabularRow, count_labels, primary_label, grouped_from, groups_of, insert_by, sort_by,
  ordered_groups,
}
use dataforge_ai_ml_service.Splits.Targets.{
  DataSplit, train, validation, test, Targets, total_target, lower, lift, rebalance_targets,
  rebalance_targets_exact,
}
use dataforge_ai_ml_service.Splits.Assign.{
  SplitAssignment, no_such_group, place, assign_rows, best_split, place_groups, assign_splits,
  assignment,
}
use dataforge_ai_ml_service.Splits.Samples.{hundredths, ratio, row_name, in_order}
use dataforge_ai_ml_service.Splits.Integrity.{row_of, assign_splits-by_group}
use dataforge_ai_ml_service.Splits.Distribution.{
  count_texts, distribution_of, class_distribution, IsExact, class_distribution-IsExact,
}
use dataforge_ai_ml_service.Splits.Success.{assign_splits_total}

abbrev row : Text → Text → Option Text → TabularRow
row object_id label group_value = record {
  object_id = object_id;
  label = label;
  group_value = group_value;
}

abbrev grouped : List TabularRow
grouped =
    row (codes "a") (codes "0") (some (codes "x"))
    ∷ row (codes "b") (codes "1") (some (codes "y"))
    ∷ row (codes "c") (codes "0") (some (codes "x"))
    ∷ row (codes "d") (codes "0") (some (codes "z"))
    ∷ []

abbrev ungrouped : List TabularRow
ungrouped =
    row (codes "a") (codes "0") none
    ∷ row (codes "b") (codes "1") none
    ∷ row (codes "c") (codes "0") none
    ∷ row (codes "d") (codes "0") none
    ∷ []

groups_are_three : length (groups_of row_name grouped) ≡ 3
unfolding groups_of grouped_from count_labels Dict.put
groups_are_three = refl

abbrev outcome : List DataSplit → List TabularRow → List SplitAssignment
outcome (s ∷ ss) (r ∷ rs) = assignment r s ∷ outcome ss rs
outcome ss rs = []

grouped_run :
    assign_splits hundredths ratio row_name in_order grouped
    ≡ ok (outcome (train ∷ train ∷ train ∷ validation ∷ []) grouped)
unfolding assign_splits place_groups best_split place assign_rows count_labels groups_of
    grouped_from ordered_groups sort_by insert_by primary_label rebalance_targets lower lift
    Dict.get Dict.put starts_with
grouped_run = refl

-- Rows without a group value all end in the split of the last of them.
ungrouped_run :
    assign_splits hundredths ratio row_name in_order ungrouped
    ≡ ok (outcome (validation ∷ validation ∷ validation ∷ validation ∷ []) ungrouped)
unfolding assign_splits place_groups best_split place assign_rows count_labels groups_of
    grouped_from ordered_groups sort_by insert_by primary_label rebalance_targets lower lift
    Dict.get Dict.put starts_with
ungrouped_run = refl

-- A group value that looks like the name of a row is not found.
row_like_run :
    assign_splits hundredths ratio row_name in_order
      (row (codes "a") (codes "0") (some (codes "__row_x")) ∷ [])
    ≡ raise (no_such_group (some (codes "__row_x")))
unfolding assign_splits place_groups best_split place assign_rows count_labels groups_of
    grouped_from ordered_groups sort_by insert_by primary_label rebalance_targets lower lift
    Dict.get Dict.put starts_with
row_like_run = refl

abbrev targets : Targets
targets = record { train_part = 3; validation_part = 1; test_part = 1 }

rebalance_targets_exact_example : total_target (rebalance_targets targets 4) ≡ 4
rebalance_targets_exact_example = rebalance_targets_exact targets 4

assign_splits-by_group_example :
    (map row_of (outcome (train ∷ train ∷ train ∷ validation ∷ []) grouped) ≡ grouped)
    × (train ≡ train)
assign_splits-by_group_example =
    assign_splits-by_group hundredths ratio row_name in_order grouped grouped_run 0 2 refl refl refl

assign_splits_total_example :
    (out : List SplitAssignment) × (assign_splits hundredths ratio row_name in_order grouped
      ≡ ok out)
unfolding starts_with
assign_splits_total_example =
    assign_splits_total hundredths ratio row_name in_order grouped (λ i. refl) (λ p gs. refl)
      (refl, (refl, (refl, (refl, tt))))

abbrev assigned : List SplitAssignment
assigned = outcome (train ∷ train ∷ train ∷ validation ∷ []) grouped

distribution_run :
    class_distribution hundredths assigned
    ≡ record {
      split = train;
      total_count = 3;
      class_counts = (codes "0", 2) ∷ (codes "1", 1) ∷ [];
      class_ratios = (codes "0", 66) ∷ (codes "1", 33) ∷ [];
    }
      ∷ record {
        split = validation;
        total_count = 1;
        class_counts = (codes "0", 1) ∷ [];
        class_ratios = (codes "0", 100) ∷ [];
      }
      ∷ record { split = test; total_count = 0; class_counts = []; class_ratios = [] }
      ∷ []
unfolding class_distribution distribution_of count_texts sort_by insert_by Dict.put Dict.get
distribution_run = refl

class_distribution-IsExact_example :
    All (IsExact assigned) (class_distribution hundredths assigned)
    × (map (λ d. d.split) (class_distribution hundredths assigned) ≡ train ∷ validation ∷ test ∷ [])
    × (sum_of (λ d. d.total_count) (class_distribution hundredths assigned) ≡ length assigned)
class_distribution-IsExact_example = class_distribution-IsExact hundredths assigned
