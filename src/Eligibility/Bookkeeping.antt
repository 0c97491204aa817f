-- ===== src/Eligibility/Bookkeeping.antt =====
-- What the split statistics of app/kernel/model_impact_eligibility.py count.
use mathlib.Core.Path.{ap₂}
use dataforge_ai_ml_service.Prelude.{
  ℕ, ◌+◌, true, ◌&&◌, ◌||◌, Option, some, List, [], ◌∷◌, map, sum_of, member, distinct,
  ordered_unique, member-unique_from, distinct-unique_from, if◌then◌else◌, nat_eq, list_eq,
  list_beq_iff, ◌==◌, ◌≡◌, refl, ap, ◌∙◌, arith,
}
use dataforge_ai_ml_service.Prelude.Dict
use dataforge_ai_ml_service.Prelude.Dict.{Dict, keys, get-put, keys-put, distinct-put}
use dataforge_ai_ml_service.Prelude.Sorting.{sorted, sorted-IsSorted, nat_order, list_order}
use dataforge_ai_ml_service.Prelude.Sorting.Sets.{member-sorted, distinct-sorted, sorted_ext}
use dataforge_ai_ml_service.Prelude.Texts.{Text}
use dataforge_ai_ml_service.Eligibility.Model.{
  SplitAssignment, SplitManifest, ModelImpactSplitStats,
}
use dataforge_ai_ml_service.Eligibility.Stats.{
  is_label, bucket, bump, split_counts, split_stat, resolve_split_stats, splits_in,
}

-- The assignments to a split, and those of them with the rare label.
abbrev pub in_split : Text → List SplitAssignment → ℕ
in_split split assignments = sum_of (λ a. if a.split == split then 1 else 0) assignments

abbrev pub rare_in_split : Option Text → Text → List SplitAssignment → ℕ
rare_in_split rare split assignments =
    sum_of (λ a. if (a.split == split) && is_label rare a.label then 1 else 0) assignments

module _ (rare : Option Text) where
  split_counts-get :
      (d : Dict Text (ℕ × ℕ)) (assignments : List SplitAssignment) (split : Text)
      → let b = bucket (Dict.get d split) in
        let c = bucket (Dict.get (split_counts rare d assignments) split) in
        (c.0 ≡ b.0 + in_split split assignments)
        × (c.1 ≡ b.1 + rare_in_split rare split assignments)
  unfolding split_counts
  split_counts-get d [] split = (omega arith, omega arith)
  split_counts-get d (a ∷ assignments) split =
      let v = bump (is_label rare a.label) (bucket (Dict.get d a.split)) in
      let (total, rares) = split_counts-get (Dict.put d a.split v) assignments split in
      let put = get-put d a.split split v in
      let same = λ (e : a.split ≡ split). ap (λ k. bucket (Dict.get d k)) e in
      (
        ground (arith, list_beq_iff a.split split, same),
        ground (arith, list_beq_iff a.split split, same),
      )

  split_counts-keys :
      (d : Dict Text (ℕ × ℕ)) (assignments : List SplitAssignment) (s : Text)
      → member s (keys (split_counts rare d assignments))
        ≡ (member s (keys d) || member s (map (λ a. a.split) assignments))
  unfolding split_counts
  split_counts-keys d [] s = ground arith
  split_counts-keys d (a ∷ assignments) s =
      let v = bump (is_label rare a.label) (bucket (Dict.get d a.split)) in
      ground (arith, split_counts-keys (Dict.put d a.split v) assignments s, keys-put d a.split v s)

  split_counts-distinct :
      (d : Dict Text (ℕ × ℕ)) (assignments : List SplitAssignment)
      → distinct (keys d) ≡ true
      → distinct (keys (split_counts rare d assignments)) ≡ true
  unfolding split_counts
  split_counts-distinct d [] h = h
  split_counts-distinct d (a ∷ assignments) h =
      let v = bump (is_label rare a.label) (bucket (Dict.get d a.split)) in
      split_counts-distinct (Dict.put d a.split v) assignments (distinct-put d a.split v h)

-- What the statistics of one split should be.
abbrev pub true_stat : List SplitAssignment → Option Text → Text → ModelImpactSplitStats
true_stat assignments rare split = record {
  split = split;
  total_count = in_split split assignments;
  rare_class_count = rare_in_split rare split assignments;
}

module _ (m : SplitManifest) (rare : Option Text) where
  abbrev counts : Dict Text (ℕ × ℕ)
  counts = split_counts rare [] m.assignments

  split_stat-true : (split : Text) → split_stat counts split ≡ true_stat m.assignments rare split
  unfolding Dict.get
  split_stat-true split =
      let (total, rares) = split_counts-get rare [] m.assignments split in
      ap₂ (λ t r. record { split = split; total_count = t; rare_class_count = r })
        (omega (arith, total)) (omega (arith, rares))

  map-true :
      (splits : List Text)
      → map (split_stat counts) splits ≡ map (true_stat m.assignments rare) splits
  map-true [] = refl
  map-true (split ∷ splits) = ap₂ (λ x xs. x ∷ xs) (split_stat-true split) (map-true splits)

  splits_listed : sorted (keys counts) ≡ sorted (ordered_unique (splits_in m))
  splits_listed =
      sorted_ext (sorted (keys counts)) (sorted (ordered_unique (splits_in m)))
        (sorted-IsSorted (keys counts)) (sorted-IsSorted (ordered_unique (splits_in m)))
        (distinct-sorted (keys counts) ∙ split_counts-distinct rare [] m.assignments refl)
        (distinct-sorted (ordered_unique (splits_in m)) ∙ distinct-unique_from [] (splits_in m))
        (λ s. ground (
          arith,
          member-sorted s (keys counts),
          member-sorted s (ordered_unique (splits_in m)),
          split_counts-keys rare [] m.assignments s,
          member-unique_from s [] (splits_in m),
        ))

  -- The split statistics list each split that an object is assigned to, once and in order, with the
  -- number of its assignments and the number of those with the rare label.
  pub resolve_split_stats_exact :
      resolve_split_stats (some m) rare
      ≡ map (true_stat m.assignments rare) (sorted (ordered_unique (splits_in m)))
  unfolding resolve_split_stats
  resolve_split_stats_exact =
      map-true (sorted (keys counts)) ∙ ap (map (true_stat m.assignments rare)) splits_listed
