-- ===== src/Splits/Success.antt =====
-- That `_assign_splits` of app/plugins/tabular/splits.py finds a split for each row.
use dataforge_ai_ml_service.Prelude.{
  ℕ, suc, Bool, true, false, ◌||◌, Option, none, some, List, [], ◌∷◌, ◌++◌, map, any, nat_eq,
  list_eq, option_eq, ◌==◌, member, ok, ◌≡◌, refl, ap, ◌∙◌, arith, All, All-map, list_beq_iff,
  option_beq_iff,
}
use dataforge_ai_ml_service.Prelude.Dict
use dataforge_ai_ml_service.Prelude.Dict.{Dict, keys, keys-put, get-member}
use dataforge_ai_ml_service.Prelude.Texts.{Text, codes, starts_with}
use dataforge_ai_ml_service.Splits.Groups.{
  TabularRow, Group, insert_by, sort_by, ordered_groups, group_of, groups_of, grouped_from,
  stored_key, value_of_key, rows_or_none, by_size, by_value,
}
use dataforge_ai_ml_service.Splits.Targets.{DataSplit, Targets}
use dataforge_ai_ml_service.Splits.Assign.{
  SplitState, SplitAssignment, Floats, assignment, assign_rows, assign_splits, place, place_groups,
  best_split, fresh_state,
}

-- Whether a group has the value.
abbrev pub is_group_of : Option Text → Group → Bool
is_group_of value group = group.group_value == value

module _ {ℓ} {A : Type ℓ} (precedes : A → A → Bool) (p : A → Bool) where
  any-insert_by : (x : A) (xs : List A) → any p (insert_by precedes x xs) ≡ (p x || any p xs)
  unfolding insert_by
  any-insert_by x [] = refl
  any-insert_by x (y ∷ ys) = ground (arith, any-insert_by x ys)

  pub any-sort_by : (xs : List A) → any p (sort_by precedes xs) ≡ any p xs
  unfolding sort_by
  any-sort_by [] = refl
  any-sort_by (x ∷ xs) = ground (arith, any-sort_by xs, any-insert_by x (sort_by precedes xs))

any-ordered_groups :
    (shuffle : List Group → List Group)
    → ((p : Group → Bool) (gs : List Group) → any p (shuffle gs) ≡ any p gs)
    → (p : Group → Bool) (gs : List Group) → any p (ordered_groups shuffle gs) ≡ any p gs
unfolding ordered_groups
any-ordered_groups shuffle keeps p gs =
    any-sort_by by_size p (shuffle (sort_by by_value gs))
    ∙ keeps p (sort_by by_value gs)
    ∙ any-sort_by by_value p gs

abbrev has_place : Option Text → SplitState → Bool
has_place value s = member value (keys s.assignments_by_group)

module _ {F : Type 0} (f : Floats F) (ratio : DataSplit → F) (total : Text → ℕ)
    (targets : Targets) where
  has_place-place_groups :
      (value : Option Text) (s : SplitState) (gs : List Group)
      → has_place value (place_groups f ratio total targets s gs)
        ≡ (any (is_group_of value) gs || has_place value s)
  unfolding place_groups place
  has_place-place_groups value s [] = refl
  has_place-place_groups value s (g ∷ gs) =
      let split = best_split f ratio total targets s g in
      ground (
        arith,
        has_place-place_groups value (place s g split) gs,
        keys-put s.assignments_by_group g.group_value split value,
      )

any-group_of :
    (value : Option Text) (key : Text) (d : Dict Text (List TabularRow))
    → value_of_key key ≡ value
    → member key (keys d) ≡ true
    → any (is_group_of value) (map group_of d) ≡ true
any-group_of value key [] e h = cc h
any-group_of value key ((k, rows) ∷ d) e h =
    let reading = ap value_of_key {x = k} {y = key} in
    ground (
      arith,
      any-group_of value key d e,
      list_beq_iff k key,
      reading,
      option_beq_iff (value_of_key k) value,
    )

member-grouped_from :
    (row_name : ℕ → Text) (key : Text) (index : ℕ) (grouped : Dict Text (List TabularRow))
    (rows : List TabularRow)
    → member key (keys grouped) ≡ true
    → member key (keys (grouped_from row_name index grouped rows)) ≡ true
unfolding grouped_from
member-grouped_from row_name key index grouped [] h = h
member-grouped_from row_name key index grouped (row ∷ rows) h =
    let k = stored_key row_name index row.group_value in
    let more = rows_or_none (Dict.get grouped k) ++ row ∷ [] in
    member-grouped_from row_name key (suc index) (Dict.put grouped k more) rows
      (ground (arith, keys-put grouped k more key))

-- Whether a group value looks like the name of a row.
abbrev pub is_row_like : Option Text → Bool
is_row_like none = false
is_row_like (some t) = starts_with t (codes "__row_")

abbrev pub IsOrdinary : TabularRow → Type 0
IsOrdinary row = is_row_like row.group_value ≡ false

module _ (row_name : ℕ → Text)
    (names_rows : (i : ℕ) → starts_with (row_name i) (codes "__row_") ≡ true) where
  value_of_key-stored_key :
      (index : ℕ) (value : Option Text)
      → is_row_like value ≡ false
      → value_of_key (stored_key row_name index value) ≡ value
  value_of_key-stored_key index none o = rw (names_rows index) refl
  value_of_key-stored_key index (some t) o = rw o refl

  abbrev HasGroup : List Group → TabularRow → Type 0
  HasGroup gs row = any (is_group_of row.group_value) gs ≡ true

  grouped_from-HasGroup :
      (index : ℕ) (grouped : Dict Text (List TabularRow)) (rows : List TabularRow)
      → All IsOrdinary rows
      → All (HasGroup (map group_of (grouped_from row_name index grouped rows))) rows
  unfolding grouped_from
  grouped_from-HasGroup index grouped [] o = tt
  grouped_from-HasGroup index grouped (row ∷ rows) o =
      let k = stored_key row_name index row.group_value in
      let more = rows_or_none (Dict.get grouped k) ++ row ∷ [] in
      let next = Dict.put grouped k more in
      (
        any-group_of row.group_value k (grouped_from row_name (suc index) next rows)
            (value_of_key-stored_key index row.group_value o.0)
            (member-grouped_from row_name k (suc index) next rows
              (ground (arith, keys-put grouped k more k, list_beq_iff k k))),
        grouped_from-HasGroup (suc index) next rows o.1,
      )

abbrev HasPlace : Dict (Option Text) DataSplit → TabularRow → Type 0
HasPlace placed row = member row.group_value (keys placed) ≡ true

assign_rows_total :
    (placed : Dict (Option Text) DataSplit) (rows : List TabularRow)
    → All (HasPlace placed) rows
    → (out : List SplitAssignment) × (assign_rows placed rows ≡ ok out)
unfolding assign_rows
assign_rows_total placed [] h = ([], refl)
assign_rows_total placed (row ∷ rows) h =
    let (split, found) = get-member placed row.group_value h.0 in
    let (later, rest) = assign_rows_total placed rows h.1 in
    (assignment row split ∷ later, rw (found, rest) refl)

-- Where no group value begins as the names of rows do, the names of rows begin so, and the shuffle
-- keeps the elements of a list, the assignment of any rows succeeds.
pub assign_splits_total :
    {F : Type 0} (f : Floats F) (ratio : DataSplit → F) (row_name : ℕ → Text)
    (shuffle : List Group → List Group) (rows : List TabularRow)
    → ((i : ℕ) → starts_with (row_name i) (codes "__row_") ≡ true)
    → ((p : Group → Bool) (gs : List Group) → any p (shuffle gs) ≡ any p gs)
    → All IsOrdinary rows
    → (out : List SplitAssignment) × (assign_splits f ratio row_name shuffle rows ≡ ok out)
unfolding assign_splits groups_of
assign_splits_total f ratio row_name shuffle rows names keeps o = assign_rows_total _ rows (
    All-map
      (λ row h.
        rw
          (
            has_place-place_groups f ratio _ _ row.group_value fresh_state _,
            any-ordered_groups shuffle keeps (is_group_of row.group_value)
                (groups_of row_name rows),
            h,
          )
          refl)
      rows (grouped_from-HasGroup row_name names 0 [] rows o))
