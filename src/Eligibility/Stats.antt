-- ===== src/Eligibility/Stats.antt =====
-- What app/kernel/model_impact_eligibility.py gathers from the profile and the split manifest.
use dataforge_ai_ml_service.Prelude.{
  ℕ, suc, Bool, true, false, ◌&&◌, ◌||◌, Option, none, some, List, [], ◌∷◌, map, length, sum_of,
  ordered_unique, if◌then◌else◌, ltb, leb, nat_eq, list_eq, ◌==◌,
}
use dataforge_ai_ml_service.Prelude.Dict
use dataforge_ai_ml_service.Prelude.Dict.{Dict, keys}
use dataforge_ai_ml_service.Prelude.Sorting.{sorted, nat_order, list_order}
use dataforge_ai_ml_service.Prelude.Texts.{Text}
use dataforge_ai_ml_service.Eligibility.Model.{
  ClassCount, ClassImbalance, Profile, SplitAssignment, SplitManifest, LeakageReport, Share,
  ModelImpactCohortStats, ModelImpactSplitStats,
}

-- A text that is there and not empty.
abbrev pub given : Option Text → Option Text
given none = none
given (some []) = none
given (some (c ∷ t)) = some (c ∷ t)

abbrev pub or_else {ℓ} : {A : Type ℓ} → Option A → Option A → Option A
or_else none other = other
or_else (some a) other = some a

abbrev pub profile_target : Option Profile → Option Text
profile_target none = none
profile_target (some p) = given p.target_column

abbrev pub manifest_target : Option SplitManifest → Option Text
manifest_target none = none
manifest_target (some m) = given (some m.target_column)

-- `_resolve_target_column`
unfoldable pub resolve_target_column : Option Profile → Option SplitManifest → Option Text
resolve_target_column p m = or_else (profile_target p) (manifest_target m)

abbrev pub or_false : Option Bool → Bool
or_false none = false
or_false (some b) = b

-- `_has_target_missing_values`
unfoldable pub has_target_missing_values : Option Profile → Bool
has_target_missing_values none = false
has_target_missing_values (some p) = or_false p.target_column_missing

-- `_class_imbalance`
abbrev pub class_imbalance_of : Option Profile → Option ClassImbalance
class_imbalance_of none = none
class_imbalance_of (some p) = p.class_imbalance

-- The ratio, held between 0 and 1; it is 0 where there are no samples.
abbrev pub ratio_of : ℕ → ℕ → Share
ratio_of count total =
    if total == 0
    then record { part = 0; whole = 1 }
    else if ltb total count
    then record { part = 1; whole = 1 }
    else record { part = count; whole = total }

abbrev pub cohort_of : ClassImbalance → ClassCount → ModelImpactCohortStats
cohort_of d entry = record {
  label = entry.label;
  count = entry.count;
  ratio = ratio_of entry.count d.total_samples;
  is_rare_class = entry.label == d.rare_class_label;
}

-- `_resolve_cohort_stats`
abbrev pub cohorts_in : Option ClassImbalance → List ModelImpactCohortStats
cohorts_in none = []
cohorts_in (some d) = map (cohort_of d) d.class_counts

unfoldable pub resolve_cohort_stats : Option Profile → List ModelImpactCohortStats
resolve_cohort_stats p = cohorts_in (class_imbalance_of p)

-- `min(cohorts, key=count).label`, the first of the least
abbrev pub least_from : ModelImpactCohortStats → List ModelImpactCohortStats → Text
least_from c [] = c.label
least_from c (d ∷ ds) = least_from (if ltb d.count c.count then d else c) ds

abbrev pub least_label : List ModelImpactCohortStats → Option Text
least_label [] = none
least_label (c ∷ cs) = some (least_from c cs)

-- `_resolve_rare_class_label`
abbrev pub rare_label_in : Option ClassImbalance → List ModelImpactCohortStats → Option Text
rare_label_in (some d) cohorts = some d.rare_class_label
rare_label_in none cohorts = least_label cohorts

unfoldable pub resolve_rare_class_label : Option Profile → List ModelImpactCohortStats → Option Text
resolve_rare_class_label p cohorts = rare_label_in (class_imbalance_of p) cohorts

abbrev pub samples_in : Option ClassImbalance → ℕ
samples_in none = 0
samples_in (some d) = d.total_samples

-- `_resolve_total_labeled`
unfoldable pub resolve_total_labeled : List ModelImpactCohortStats → Option Profile → ℕ
resolve_total_labeled [] p = samples_in (class_imbalance_of p)
resolve_total_labeled (c ∷ cs) p = sum_of (λ x. x.count) (c ∷ cs)

abbrev pub count_of : Text → List ModelImpactCohortStats → ℕ
count_of label [] = 0
count_of label (c ∷ cs) = let rest = count_of label cs in if c.label == label then c.count else rest

-- `_resolve_rare_class_count`
unfoldable pub resolve_rare_class_count : List ModelImpactCohortStats → Option Text → ℕ
resolve_rare_class_count cohorts none = 0
resolve_rare_class_count cohorts (some label) = count_of label cohorts

abbrev pub is_label : Option Text → Text → Bool
is_label none label = false
is_label (some rare) label = label == rare

-- A bucket of `counts`: the total and the rare ones.
abbrev pub bucket : Option (ℕ × ℕ) → ℕ × ℕ
bucket none = (0, 0)
bucket (some b) = b

abbrev pub bump : Bool → ℕ × ℕ → ℕ × ℕ
bump rare (total, count) = (suc total, if rare then suc count else count)

-- The loop of `_resolve_split_stats`
unfoldable pub split_counts :
    Option Text → Dict Text (ℕ × ℕ) → List SplitAssignment → Dict Text (ℕ × ℕ)
split_counts rare counts [] = counts
split_counts rare counts (a ∷ assignments) =
    split_counts rare
      (Dict.put counts a.split (bump (is_label rare a.label) (bucket (Dict.get counts a.split))))
      assignments

abbrev pub split_stat : Dict Text (ℕ × ℕ) → Text → ModelImpactSplitStats
split_stat counts split = record {
  split = split;
  total_count = (bucket (Dict.get counts split)).0;
  rare_class_count = (bucket (Dict.get counts split)).1;
}

-- `_resolve_split_stats`: the items are sorted by their keys, which are distinct.
unfoldable pub resolve_split_stats : Option SplitManifest → Option Text → List ModelImpactSplitStats
unfolding split_counts
resolve_split_stats none rare = []
resolve_split_stats (some m) rare =
    let counts = split_counts rare [] m.assignments in
    map (split_stat counts) (sorted (keys counts))

abbrev pub splits_in : SplitManifest → List Text
splits_in m = map (λ a. a.split) m.assignments

abbrev pub has_assignments : List SplitAssignment → Bool
has_assignments [] = false
has_assignments (a ∷ assignments) = true

-- `_has_valid_split`
unfoldable pub has_valid_split : Option SplitManifest → ℕ → Bool
has_valid_split none minimum = false
has_valid_split (some m) minimum =
    has_assignments m.assignments && leb minimum (length (ordered_unique (splits_in m)))

-- `_has_leakage_blocker`
unfoldable pub has_leakage_blocker : Option LeakageReport → Bool
has_leakage_blocker none = false
has_leakage_blocker (some r) =
    if r.block_training || r.block_model_evaluation then true else r.leakage_detected
