-- ===== src/Leakage/Crossing.antt =====
-- When the checks of app/plugins/tabular/leakage_checks.py find a key in two splits.
use dataforge_ai_ml_service.Prelude.{
  Bool, true, false, not, ◌&&◌, ◌||◌, Option, none, some, List, [], ◌∷◌, ◌++◌, any, length, leb,
  nat_eq, list_eq, list_beq_iff, option_eq, ◌==◌, member, distinct, ◌≡◌, ◌↔◌, refl, arith,
  Bool-cases, Option-cases, inl, inr, is_empty, is_empty-keep,
}
use mathlib.Core.Path.{ap₂}
use dataforge_ai_ml_service.Prelude.Dict
use dataforge_ai_ml_service.Prelude.Dict.{Dict, keys, get-put, keys-put, distinct-put}
use dataforge_ai_ml_service.Prelude.Texts.{Text}
use dataforge_ai_ml_service.Splits.Groups.{sort_by}
use dataforge_ai_ml_service.Splits.Success.{any-sort_by}
use dataforge_ai_ml_service.Validation.RuleModel.{Row}
use dataforge_ai_ml_service.Leakage.Table.{object_id_of}
use dataforge_ai_ml_service.Leakage.Checks.{
  BySplit, or_empty, add_object, add_row, collect, spans_splits, key_first, crossings,
}

-- Whether a key has objects in a split.
abbrev has_split : Dict Text BySplit → Text → Text → Bool
has_split d k s = member s (keys (or_empty (Dict.get d k)))

-- Whether a row of this key is assigned to the split.
abbrev pub is_row_of : (Row → Option Text) → Dict Text Text → Text → Text → Row → Bool
is_row_of key_of assignments k s row =
    (Dict.get assignments (object_id_of row) == some s) && (key_of row == some k)

has_split-add_object :
    (d : Dict Text BySplit) (key split id k s : Text)
    → has_split (add_object d key split id) k s ≡ (has_split d k s || ((split == s) && (key == k)))
has_split-add_object d key split id k s =
    let b = or_empty (Dict.get d key) in
    let ids = or_empty (Dict.get b split) ++ id ∷ [] in
    ground
      (arith, get-put d key k (Dict.put b split ids), keys-put b split ids s, list_beq_iff key k)

has_split-add_row :
    (d : Dict Text BySplit) (split key : Option Text) (id k s : Text)
    → has_split (add_row d split key id) k s
      ≡ (has_split d k s || ((split == some s) && (key == some k)))
has_split-add_row d none key id k s = ground arith
has_split-add_row d (some split) none id k s = ground arith
has_split-add_row d (some split) (some key) id k s = has_split-add_object d key split id k s

module _ (key_of : Row → Option Text) (assignments : Dict Text Text) where
  has_split-collect :
      (d : Dict Text BySplit) (rows : List Row) (k s : Text)
      → has_split (collect key_of assignments d rows) k s
        ≡ (has_split d k s || any (is_row_of key_of assignments k s) rows)
  unfolding collect
  has_split-collect d [] k s = ground arith
  has_split-collect d (row ∷ rows) k s =
      let split = Dict.get assignments (object_id_of row) in
      let next = add_row d split (key_of row) (object_id_of row) in
      ground (
        arith,
        has_split-collect next rows k s,
        has_split-add_row d split (key_of row) (object_id_of row) k s,
      )

-- A dictionary of dictionaries has no key twice.
record IsDict (d : Dict Text BySplit) : Type 0 where
  outer : distinct (keys d) ≡ true
  inner : (k : Text) → distinct (keys (or_empty (Dict.get d k))) ≡ true

add_row-IsDict :
    (d : Dict Text BySplit) (split key : Option Text) (id : Text)
    → IsDict d
    → IsDict (add_row d split key id)
add_row-IsDict d none key id h = h
add_row-IsDict d (some split) none id h = h
add_row-IsDict d (some split) (some key) id h =
    let b = or_empty (Dict.get d key) in
    let ids = or_empty (Dict.get b split) ++ id ∷ [] in
    record {
      outer = distinct-put d key (Dict.put b split ids) h.outer;
      inner = λ k. ground (
        arith,
        get-put d key k (Dict.put b split ids),
        h.inner k,
        h.inner key,
        distinct-put b split ids,
      );
    }

collect-IsDict :
    (key_of : Row → Option Text) (assignments : Dict Text Text) (d : Dict Text BySplit)
    (rows : List Row)
    → IsDict d
    → IsDict (collect key_of assignments d rows)
unfolding collect
collect-IsDict key_of assignments d [] h = h
collect-IsDict key_of assignments d (row ∷ rows) h =
    let split = Dict.get assignments (object_id_of row) in
    collect-IsDict key_of assignments (add_row d split (key_of row) (object_id_of row)) rows
      (add_row-IsDict d split (key_of row) (object_id_of row) h)

member-get :
    {V : Type 0} (d : Dict Text V) (k : Text) (v : V)
    → Dict.get d k ≡ some v
    → member k (keys d) ≡ true
unfolding Dict.get
member-get [] k v h = cc h
member-get ((j, w) ∷ d) k v h = ground (arith, member-get d k v)

module _ {V : Type 0} (p : Text × V → Bool) where
  any-get :
      (d : Dict Text V) (k : Text) (v : V)
      → Dict.get d k ≡ some v
      → p (k, v) ≡ true
      → any p d ≡ true
  unfolding Dict.get
  any-get [] k v h t = cc h
  any-get ((j, w) ∷ d) k v h t = elim (Bool-cases (j == k)) [
    | inl same ↦
        let key : j ≡ k = (list_beq_iff j k).0 same in
        let value : w ≡ v = ground arith in
        let both = ap₂ (λ a b. p (a, b)) key value in ground arith
    | inr other ↦ ground (arith, any-get d k v)
  ]

  get-any :
      (d : Dict Text V)
      → distinct (keys d) ≡ true
      → any p d ≡ true
      → (k : Text) × (v : V) × (Dict.get d k ≡ some v) × (p (k, v) ≡ true)
  unfolding Dict.get
  get-any [] h t = cc t
  get-any ((j, w) ∷ d) h t = elim (Bool-cases (p (j, w))) [
    | inl here ↦ (j, w, ground (arith, list_beq_iff j j), here)
    | inr there ↦
        let (k, v, found, q) = get-any d (ground arith) (ground arith) in
        (k, v, ground (arith, list_beq_iff j k, member-get d k v), q)
  ]

-- Two different keys
record AreTwo (b : BySplit) : Type 0 where
  first : Text
  second : Text
  different : (first == second) ≡ false
  has_first : member first (keys b) ≡ true
  has_second : member second (keys b) ≡ true

spans-AreTwo : (b : BySplit) → leb 2 (length b) ≡ true → distinct (keys b) ≡ true → AreTwo b
spans-AreTwo [] h d = ground arith
spans-AreTwo (x ∷ []) h d = ground arith
spans-AreTwo ((s, xs) ∷ (t, ys) ∷ b) h d = record {
  first = s;
  second = t;
  different = ground (arith, list_beq_iff s t, list_beq_iff t s);
  has_first = ground (arith, list_beq_iff s s);
  has_second = ground (arith, list_beq_iff t t);
}

AreTwo-spans : (b : BySplit) → AreTwo b → leb 2 (length b) ≡ true
AreTwo-spans [] w = cc w.has_first
AreTwo-spans ((s, xs) ∷ []) w = ground (
  arith,
  w.different,
  w.has_first,
  w.has_second,
  list_beq_iff s w.first,
  list_beq_iff s w.second,
  list_beq_iff w.first w.second,
)
AreTwo-spans (x ∷ y ∷ b) w = ground arith

is_empty-crossings : (d : Dict Text BySplit) → is_empty (crossings d) ≡ not (any spans_splits d)
unfolding crossings
is_empty-crossings d =
    ground (
      arith,
      is_empty-keep spans_splits (sort_by key_first d),
      any-sort_by key_first spans_splits d,
    )

-- Two rows of one key in different splits
pub record Crosses (key_of : Row → Option Text) (assignments : Dict Text Text) (rows : List Row)
    : Type 0 where
  pub key : Text
  pub first : Text
  pub second : Text
  pub different : (first == second) ≡ false
  pub in_first : any (is_row_of key_of assignments key first) rows ≡ true
  pub in_second : any (is_row_of key_of assignments key second) rows ≡ true

module _ (key_of : Row → Option Text) (assignments : Dict Text Text) (rows : List Row) where
  abbrev collected : Dict Text BySplit
  collected = collect key_of assignments [] rows

  collected-IsDict : IsDict collected
  unfolding Dict.get
  collected-IsDict =
      collect-IsDict key_of assignments [] rows (record { outer = refl; inner = λ k. refl })

  has_split-collected :
      (k s : Text) → has_split collected k s ≡ any (is_row_of key_of assignments k s) rows
  unfolding Dict.get
  has_split-collected k s = has_split-collect key_of assignments [] rows k s

  crossing_sound : any spans_splits collected ≡ true → Crosses key_of assignments rows
  crossing_sound h =
      let (k, b, found, spans) = get-any spans_splits collected collected-IsDict.outer h in
      let two = spans-AreTwo b spans (ground (arith, collected-IsDict.inner k)) in
      record {
        key = k;
        first = two.first;
        second = two.second;
        different = two.different;
        in_first = ground (arith, has_split-collected k two.first, two.has_first);
        in_second = ground (arith, has_split-collected k two.second, two.has_second);
      }

  crossing_complete : Crosses key_of assignments rows → any spans_splits collected ≡ true
  crossing_complete c = elim (Option-cases (Dict.get collected c.key)) [
    | inl missing ↦ ground (arith, has_split-collected c.key c.first, c.in_first)
    | inr (b, found) ↦ any-get spans_splits collected c.key b found (
        AreTwo-spans b (record {
          first = c.first;
          second = c.second;
          different = c.different;
          has_first = ground (arith, has_split-collected c.key c.first, c.in_first);
          has_second = ground (arith, has_split-collected c.key c.second, c.in_second);
        }))
  ]

  -- There is a finding exactly if two rows of one key are in different splits.
  pub crossings_iff : (is_empty (crossings collected) ≡ false) ↔ Crosses key_of assignments rows
  crossings_iff = (
    λ h. crossing_sound (ground (arith, is_empty-crossings collected)),
    λ c. ground (arith, is_empty-crossings collected, crossing_complete c),
  )
