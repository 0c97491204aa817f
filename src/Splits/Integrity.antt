-- ===== src/Splits/Integrity.antt =====
-- What the assignments of app/plugins/tabular/splits.py keep together.
use dataforge_ai_ml_service.Prelude.{
  ℕ, zero, suc, Option, none, some, List, [], ◌∷◌, map, nat_eq, list_eq, option_eq, ok, >>=-eq-ok,
  ◌≡◌, refl, sym, ap, ◌∙◌, All,
}
use mathlib.Core.Path.{subst}
use dataforge_ai_ml_service.Prelude.Dict
use dataforge_ai_ml_service.Prelude.Dict.{Dict}
use dataforge_ai_ml_service.Prelude.Texts.{Text}
use dataforge_ai_ml_service.Splits.Groups.{TabularRow, Group}
use dataforge_ai_ml_service.Splits.Targets.{DataSplit}
use dataforge_ai_ml_service.Splits.Assign.{
  SplitAssignment, Floats, found_split, assignment, assign_rows, assign_splits,
}

-- The row that an assignment is for.
abbrev pub row_of : SplitAssignment → TabularRow
row_of a = record { object_id = a.object_id; label = a.label; group_value = a.group_value }

abbrev IsPlaced : Dict (Option Text) DataSplit → SplitAssignment → Type 0
IsPlaced placed a = Dict.get placed a.group_value ≡ some a.split

found_split-ok :
    (value : Option Text) (found : Option DataSplit) {split : DataSplit}
    → found_split value found ≡ ok split
    → found ≡ some split
found_split-ok value none h = cc
found_split-ok value (some x) h = cc

abbrev AreAssigned : Dict (Option Text) DataSplit → List TabularRow → List SplitAssignment → Type 0
AreAssigned placed rows out = (map row_of out ≡ rows) × All (IsPlaced placed) out

assign_rows-AreAssigned :
    (placed : Dict (Option Text) DataSplit) (rows : List TabularRow) {out : List SplitAssignment}
    → assign_rows placed rows ≡ ok out
    → AreAssigned placed rows out
unfolding assign_rows
assign_rows-AreAssigned placed [] {out = []} h = (refl, tt)
assign_rows-AreAssigned placed [] {out = a ∷ out} h = cc
assign_rows-AreAssigned placed (row ∷ rows) {out = out} h =
    let value = row.group_value in
    let (split, found, h₁) = >>=-eq-ok (found_split value (Dict.get placed value)) _ h in
    let (later, rest, last) = >>=-eq-ok (assign_rows placed rows) _ h₁ in
    let made : assignment row split ∷ later ≡ out = cc last in
    let (same, placed_later) = assign_rows-AreAssigned placed rows rest in
    subst (AreAssigned placed (row ∷ rows)) made
      (ap (λ xs. row ∷ xs) same, (found_split-ok value (Dict.get placed value) found, placed_later))

-- The assignment at an index.
abbrev pub get_elem? : List SplitAssignment → ℕ → Option SplitAssignment
get_elem? [] i = none
get_elem? (a ∷ out) zero = some a
get_elem? (a ∷ out) (suc i) = get_elem? out i

get_elem?-All :
    (P : SplitAssignment → Type 0) (out : List SplitAssignment) (i : ℕ) {a : SplitAssignment}
    → All P out
    → get_elem? out i ≡ some a
    → P a
get_elem?-All P [] i h e = cc
get_elem?-All P (x ∷ out) zero {a = a} h e = let same : x ≡ a = cc e in subst P same h.0
get_elem?-All P (x ∷ out) (suc i) h e = get_elem?-All P out i h.1 e

same_split :
    (placed : Dict (Option Text) DataSplit) (a b : SplitAssignment)
    → IsPlaced placed a
    → IsPlaced placed b
    → a.group_value ≡ b.group_value
    → a.split ≡ b.split
same_split placed a b p q e =
    let both : some a.split ≡ some b.split = sym p ∙ ap (Dict.get placed) e ∙ q in cc both

pub map-row_of-assign_splits :
    {F : Type 0} (f : Floats F) (ratio : DataSplit → F) (row_name : ℕ → Text)
    (shuffle : List Group → List Group) (rows : List TabularRow) {out : List SplitAssignment}
    → assign_splits f ratio row_name shuffle rows ≡ ok out
    → map row_of out ≡ rows
unfolding assign_splits
map-row_of-assign_splits f ratio row_name shuffle rows h = (assign_rows-AreAssigned _ rows h).0

-- The assignments are of the rows, in order; and whatever the floats, the seed and the rows, two
-- assignments of one group value, which may be the absent one, are in one split.
pub assign_splits-by_group :
    {F : Type 0} (f : Floats F) (ratio : DataSplit → F) (row_name : ℕ → Text)
    (shuffle : List Group → List Group) (rows : List TabularRow) {out : List SplitAssignment}
    → assign_splits f ratio row_name shuffle rows ≡ ok out
    → (i j : ℕ) {a b : SplitAssignment} → get_elem? out i ≡ some a
    → get_elem? out j ≡ some b
    → a.group_value ≡ b.group_value
    → (map row_of out ≡ rows) × (a.split ≡ b.split)
unfolding assign_splits
assign_splits-by_group f ratio row_name shuffle rows {out = out} h i j {a = a} {b = b} ea eb same =
    let (in_order, placed) = assign_rows-AreAssigned _ rows h in
    (
      in_order,
      same_split _ a b (get_elem?-All _ out i placed ea) (get_elem?-All _ out j placed eb) same,
    )
