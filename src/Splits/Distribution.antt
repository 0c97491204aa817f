-- ===== src/Splits/Distribution.antt =====
-- `_class_distribution` of app/plugins/tabular/splits.py.
use dataforge_ai_ml_service.Prelude.{
  ℕ, zero, suc, ◌+◌, Bool, true, false, ◌&&◌, ◌||◌, some, List, [], ◌∷◌, map, keep, length, sum_of,
  if◌then◌else◌, nat_eq, list_eq, list_beq_iff, ◌==◌, member, distinct, ◌≡◌, refl, ap, ◌∙◌, arith,
  All,
}
use dataforge_ai_ml_service.Prelude.Dict
use dataforge_ai_ml_service.Prelude.Dict.{Dict, keys, get-put, keys-put, distinct-put}
use dataforge_ai_ml_service.Prelude.Sorting.{nat_order, list_order, lex_le}
use dataforge_ai_ml_service.Prelude.Texts.{Text}
use dataforge_ai_ml_service.Splits.Groups.{count_or_zero, insert_by, sort_by}
use dataforge_ai_ml_service.Splits.Targets.{DataSplit, train, validation, test}
use dataforge_ai_ml_service.Splits.Assign.{SplitAssignment, Floats}

pub record SplitClassDistribution (F : Type 0) : Type 0 where
  pub split : DataSplit
  pub total_count : ℕ
  pub class_counts : Dict Text ℕ
  pub class_ratios : Dict Text F

abbrev pub is_in_split : DataSplit → DataSplit → Bool
is_in_split train train = true
is_in_split validation validation = true
is_in_split test test = true
is_in_split s t = false

-- `Counter(labels)`, onto what is counted so far
unfoldable pub count_texts : Dict Text ℕ → List Text → Dict Text ℕ
count_texts counts [] = counts
count_texts counts (t ∷ ts) =
    count_texts (Dict.put counts t (suc (count_or_zero (Dict.get counts t)))) ts

abbrev pub labels_in : DataSplit → List SplitAssignment → List Text
labels_in split out = map (λ a. a.label) (keep (λ a. is_in_split a.split split) out)

-- The order of the items; a label stands in one item alone, so the counts never decide.
abbrev pub label_first : Text × ℕ → Text × ℕ → Bool
label_first a b = lex_le a.0 b.0

-- `count / total if total else 0.0`
abbrev pub ratio_of : {F : Type 0} → Floats F → ℕ → ℕ → F
ratio_of f count zero = f.of_count 0
ratio_of f count (suc k) = f.div (f.of_count count) (f.of_count (suc k))

-- A round of the loop of `_class_distribution`
unfoldable pub distribution_of :
    {F : Type 0} → Floats F → List SplitAssignment → DataSplit → SplitClassDistribution F
unfolding count_texts sort_by insert_by
distribution_of f out split =
    let labels = count_texts [] (labels_in split out) in
    let total = sum_of (λ entry. entry.1) labels in
    let counts = sort_by label_first labels in
    record {
      split = split;
      total_count = total;
      class_counts = counts;
      class_ratios = map (λ entry. (entry.0, ratio_of f entry.1 total)) counts;
    }

-- `_class_distribution`
unfoldable pub class_distribution :
    {F : Type 0} → Floats F → List SplitAssignment → List (SplitClassDistribution F)
unfolding distribution_of
class_distribution f out =
    distribution_of f out train ∷ distribution_of f out validation ∷ distribution_of f out test ∷ []

sum-put :
    (d : Dict Text ℕ) (t : Text)
    → sum_of (λ entry. entry.1) (Dict.put d t (suc (count_or_zero (Dict.get d t))))
      ≡ suc (sum_of (λ entry. entry.1) d)
unfolding Dict.put Dict.get
sum-put [] t = omega arith
sum-put ((k, n) ∷ d) t = ground (arith, sum-put d t)

sum-count_texts :
    (d : Dict Text ℕ) (ts : List Text)
    → sum_of (λ entry. entry.1) (count_texts d ts) ≡ sum_of (λ entry. entry.1) d + length ts
unfolding count_texts
sum-count_texts d [] = omega arith
sum-count_texts d (t ∷ ts) =
    let next = Dict.put d t (suc (count_or_zero (Dict.get d t))) in
    omega (arith, sum-put d t, sum-count_texts next ts)

-- How often a text stands in a list.
abbrev pub occurrences : Text → List Text → ℕ
occurrences t [] = 0
occurrences t (x ∷ xs) = let rest = occurrences t xs in if x == t then suc rest else rest

get-count_texts :
    (d : Dict Text ℕ) (ts : List Text) (t : Text)
    → count_or_zero (Dict.get (count_texts d ts) t)
      ≡ count_or_zero (Dict.get d t) + occurrences t ts
unfolding count_texts
get-count_texts d [] t = omega arith
get-count_texts d (x ∷ ts) t =
    let next = Dict.put d x (suc (count_or_zero (Dict.get d x))) in
    ground (
      arith,
      get-count_texts next ts t,
      get-put d x t (suc (count_or_zero (Dict.get d x))),
      list_beq_iff x t,
    )

distinct-count_texts :
    (d : Dict Text ℕ) (ts : List Text)
    → distinct (keys d) ≡ true
    → distinct (keys (count_texts d ts)) ≡ true
unfolding count_texts
distinct-count_texts d [] h = h
distinct-count_texts d (t ∷ ts) h =
    let n = suc (count_or_zero (Dict.get d t)) in
    distinct-count_texts (Dict.put d t n) ts (distinct-put d t n h)

keys-insert_by :
    (e : Text × ℕ) (d : Dict Text ℕ) (t : Text)
    → member t (keys (insert_by label_first e d)) ≡ ((e.0 == t) || member t (keys d))
unfolding insert_by
keys-insert_by e [] t = refl
keys-insert_by e (x ∷ d) t = ground (arith, keys-insert_by e d t)

get-insert_by :
    (e : Text × ℕ) (d : Dict Text ℕ) (t : Text)
    → member e.0 (keys d) ≡ false
    → Dict.get (insert_by label_first e d) t ≡ (if e.0 == t then some e.1 else Dict.get d t)
unfolding insert_by Dict.get
get-insert_by e [] t h = refl
get-insert_by e (x ∷ d) t h =
    ground
      (arith, get-insert_by e d t, list_beq_iff e.0 t, list_beq_iff x.0 t, list_beq_iff x.0 e.0)

keys-sort_by :
    (d : Dict Text ℕ) (t : Text) → member t (keys (sort_by label_first d)) ≡ member t (keys d)
unfolding sort_by
keys-sort_by [] t = refl
keys-sort_by (x ∷ d) t =
    ground (arith, keys-sort_by d t, keys-insert_by x (sort_by label_first d) t)

get-sort_by :
    (d : Dict Text ℕ) (t : Text)
    → distinct (keys d) ≡ true
    → Dict.get (sort_by label_first d) t ≡ Dict.get d t
unfolding sort_by Dict.get
get-sort_by [] t h = refl
get-sort_by (x ∷ d) t h =
    ground (arith, get-sort_by d t, get-insert_by x (sort_by label_first d) t, keys-sort_by d x.0)

-- How many assignments pass a test.
abbrev pub count_where : (SplitAssignment → Bool) → List SplitAssignment → ℕ
count_where p [] = 0
count_where p (a ∷ out) = let rest = count_where p out in if p a then suc rest else rest

abbrev pub is_of : DataSplit → Text → SplitAssignment → Bool
is_of split label a = is_in_split a.split split && (a.label == label)

length-labels_in :
    (split : DataSplit) (out : List SplitAssignment)
    → length (labels_in split out) ≡ count_where (λ a. is_in_split a.split split) out
length-labels_in split [] = refl
length-labels_in split (a ∷ out) = ground (arith, length-labels_in split out)

occurrences-labels_in :
    (split : DataSplit) (label : Text) (out : List SplitAssignment)
    → occurrences label (labels_in split out) ≡ count_where (is_of split label) out
occurrences-labels_in split label [] = refl
occurrences-labels_in split label (a ∷ out) = ground (arith, occurrences-labels_in split label out)

-- A distribution counts the assignments of its split, and those of each label.
pub record IsExact {F : Type 0} (out : List SplitAssignment) (d : SplitClassDistribution F)
    : Type 0 where
  pub counted : d.total_count ≡ count_where (λ a. is_in_split a.split d.split) out
  pub classes :
      (label : Text)
      → count_or_zero (Dict.get d.class_counts label) ≡ count_where (is_of d.split label) out

one_split :
    (s : DataSplit)
    → (if is_in_split s train then 1 else 0)
        + ((if is_in_split s validation then 1 else 0) + (if is_in_split s test then 1 else 0))
      ≡ 1
one_split train = omega arith
one_split validation = omega arith
one_split test = omega arith

parts_of_all :
    (out : List SplitAssignment)
    → length (labels_in train out)
        + (length (labels_in validation out) + length (labels_in test out))
      ≡ length out
parts_of_all [] = omega arith
parts_of_all (a ∷ out) = ground (arith, parts_of_all out, one_split a.split)

module _ {F : Type 0} (f : Floats F) (out : List SplitAssignment) where
  distribution_of-IsExact : (split : DataSplit) → IsExact out (distribution_of f out split)
  unfolding distribution_of Dict.get
  distribution_of-IsExact split =
      let ts = labels_in split out in
      let labels = count_texts [] ts in
      record {
        counted = omega (arith, sum-count_texts [] ts, length-labels_in split out);
        classes = λ t.
            ap count_or_zero (get-sort_by labels t (distinct-count_texts [] ts refl))
            ∙ omega (arith, get-count_texts [] ts t, occurrences-labels_in split t out);
      }

  -- There is a distribution of each of the three splits; it counts the assignments of its split and
  -- those of each label, and together they count every assignment once.
  pub class_distribution-IsExact :
      All (IsExact out) (class_distribution f out)
      × (map (λ d. d.split) (class_distribution f out) ≡ train ∷ validation ∷ test ∷ [])
      × (sum_of (λ d. d.total_count) (class_distribution f out) ≡ length out)
  unfolding class_distribution distribution_of
  class_distribution-IsExact = (
    (
      distribution_of-IsExact train,
      (distribution_of-IsExact validation, (distribution_of-IsExact test, tt)),
    ),
    refl,
    omega (
      arith,
      parts_of_all out,
      sum-count_texts [] (labels_in train out),
      sum-count_texts [] (labels_in validation out),
      sum-count_texts [] (labels_in test out),
    ),
  )
