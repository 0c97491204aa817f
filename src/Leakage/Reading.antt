-- ===== src/Leakage/Reading.antt =====
-- How app/plugins/tabular/leakage_checks.py reads the rows and the assignments that
-- app/plugins/tabular/splits.py makes.
use dataforge_ai_ml_service.Prelude.{
  ℕ, zero, suc, true, false, Option, none, some, List, [], ◌∷◌, map, if◌then◌else◌, nat_eq, list_eq,
  list_beq_iff, option_eq, option_beq_iff, ◌==◌, member, distinct, raise_if, ok, >>=-eq-ok, ◌≡◌,
  refl, sym, ap, ◌∙◌, arith, Bool-cases, inl, inr,
}
use mathlib.Core.Path.{subst}
use dataforge_ai_ml_service.Prelude.Dict
use dataforge_ai_ml_service.Prelude.Dict.{Dict, get-put}
use dataforge_ai_ml_service.Prelude.Texts.{Text, codes}
use dataforge_ai_ml_service.Validation.RuleModel.{Row, cell, is_blank, text_or_none}
use dataforge_ai_ml_service.Splits.Groups.{TabularRow}
use dataforge_ai_ml_service.Splits.Targets.{DataSplit, train, validation, test}
use dataforge_ai_ml_service.Splits.Assign.{SplitAssignment}
use dataforge_ai_ml_service.Splits.Rows.{
  or_text, tabular_row, missing_target_label, to_tabular_rows,
}
use dataforge_ai_ml_service.Splits.Integrity.{row_of, get_elem?}
use dataforge_ai_ml_service.Leakage.Model
use dataforge_ai_ml_service.Leakage.Table.{object_id_of, name_row, named_rows}
use dataforge_ai_ml_service.Leakage.Checks.{index_assignments, value_in}
use dataforge_ai_ml_service.Leakage.Crossing.{is_row_of}

-- The value of a split, as a manifest keeps it
abbrev pub split_value : DataSplit → Text
split_value train = codes "train"
split_value validation = codes "validation"
split_value test = codes "test"

-- An assignment as the checks read it from the manifest
abbrev pub recorded : SplitAssignment → Model.SplitAssignment
recorded a = record { object_id = a.object_id; split = split_value a.split }

abbrev pub ids : List SplitAssignment → List Text
ids [] = []
ids (a ∷ out) = a.object_id ∷ ids out

abbrev pub recorded_index : Dict Text Text → List SplitAssignment → Dict Text Text
recorded_index d out = index_assignments d (map recorded out)

pub get-index_of_absent :
    (d : Dict Text Text) (out : List SplitAssignment) (id : Text)
    → member id (ids out) ≡ false
    → Dict.get (recorded_index d out) id ≡ Dict.get d id
unfolding index_assignments
get-index_of_absent d [] id h = refl
get-index_of_absent d (a ∷ out) id h = ground (
  arith,
  get-index_of_absent (Dict.put d a.object_id (split_value a.split)) out id,
  get-put d a.object_id id (split_value a.split),
)

pub get_elem?-member :
    (out : List SplitAssignment) (i : ℕ) {a : SplitAssignment}
    → get_elem? out i ≡ some a
    → member a.object_id (ids out) ≡ true
get_elem?-member [] i e = cc
get_elem?-member (x ∷ out) zero {a = a} e = ground (arith, list_beq_iff x.object_id a.object_id)
get_elem?-member (x ∷ out) (suc i) {a = a} e = ground (arith, get_elem?-member out i e)

-- Where no id is assigned twice, each object is found in its split.
pub get-index_of_assigned :
    (d : Dict Text Text) (out : List SplitAssignment) (i : ℕ) {a : SplitAssignment}
    → distinct (ids out) ≡ true
    → get_elem? out i ≡ some a
    → Dict.get (recorded_index d out) a.object_id ≡ some (split_value a.split)
unfolding index_assignments
get-index_of_assigned d [] i u e = cc
get-index_of_assigned d (x ∷ out) zero {a = a} u e =
    let same : x ≡ a = cc e in
    let next = Dict.put d x.object_id (split_value x.split) in
    subst (λ b. Dict.get (recorded_index d (x ∷ out)) b.object_id ≡ some (split_value b.split)) same
      (ground (
        arith,
        get-index_of_absent next out x.object_id,
        get-put d x.object_id x.object_id (split_value x.split),
        list_beq_iff x.object_id x.object_id,
      ))
get-index_of_assigned d (x ∷ out) (suc i) u e =
    get-index_of_assigned (Dict.put d x.object_id (split_value x.split)) out i (ground arith) e

-- The rows of the table are the objects that are assigned, with their groups.
abbrev pub Reads : Text → List Row → List SplitAssignment → Type 0
Reads column [] [] = Unit
Reads column [] (a ∷ out) = ⊥
Reads column (row ∷ rows) [] = ⊥
Reads column (row ∷ rows) (a ∷ out) =
    (object_id_of row ≡ a.object_id) × (value_in column row ≡ a.group_value) × Reads column rows out

pub or_text-blank : (t default : Text) → is_blank t ≡ true → or_text t default ≡ default
or_text-blank [] default h = refl
or_text-blank (c ∷ t) default h = cc

pub or_text-given : (t default : Text) → is_blank t ≡ false → or_text t default ≡ t
or_text-given [] default h = cc
or_text-given (c ∷ t) default h = refl

pub unless_blank : (t : Text) → (if is_blank t then none else some t) ≡ text_or_none t
unless_blank [] = refl
unless_blank (c ∷ t) = refl

pub cell-put :
    (row : Row) (key column value : Text)
    → cell (Dict.put row key value) column ≡ (if key == column then value else cell row column)
cell-put row key column value = ground (arith, get-put row key column value)

module _ (row_id : ℕ → Text) (index : ℕ) (row : Row) where
  pub object_id_of-name_row :
      object_id_of (name_row row_id index row) ≡ or_text (object_id_of row) (row_id index)
  object_id_of-name_row = elim (Bool-cases (is_blank (object_id_of row))) [
    | inl blank ↦
        rw (blank, cell-put row (codes "object_id") (codes "object_id") (row_id index))
          (sym (or_text-blank (object_id_of row) (row_id index) blank))
    | inr given ↦ rw given (sym (or_text-given (object_id_of row) (row_id index) given))
  ]

  cell-name_row :
      (column : Text)
      → (codes "object_id" == column) ≡ false
      → cell (name_row row_id index row) column ≡ cell row column
  cell-name_row column h = elim (Bool-cases (is_blank (object_id_of row))) [
    | inl blank ↦ rw (blank, cell-put row (codes "object_id") column (row_id index), h) refl
    | inr given ↦ rw given refl
  ]

  value_in-name_row :
      (column : Text)
      → (codes "object_id" == column) ≡ false
      → value_in column (name_row row_id index row) ≡ text_or_none (cell row column)
  value_in-name_row column h =
      unless_blank (cell (name_row row_id index row) column)
      ∙ ap text_or_none (cell-name_row column h)

pub to_tabular_rows-Reads :
    (row_id : ℕ → Text) (target column : Text) (index : ℕ) (rows : List Row)
    (out : List SplitAssignment) {read : List TabularRow}
    → (codes "object_id" == column) ≡ false
    → to_tabular_rows row_id target (some column) index rows ≡ ok read
    → map row_of out ≡ read
    → Reads column (named_rows row_id index rows) out
unfolding to_tabular_rows
to_tabular_rows-Reads row_id target column index [] [] h e m = tt
to_tabular_rows-Reads row_id target column index [] (a ∷ out) h e m = cc
to_tabular_rows-Reads row_id target column index (row ∷ rows) [] h e m =
    let first = tabular_row row_id target (some column) index row in
    let (_, labelled, e₁) =
      >>=-eq-ok (raise_if (is_blank first.label) (missing_target_label first.object_id)) _ e in
    let (later, rest, last) =
      >>=-eq-ok (to_tabular_rows row_id target (some column) (suc index) rows) _ e₁ in
    cc (last, m)
to_tabular_rows-Reads row_id target column index (row ∷ rows) (a ∷ out) h e m =
    let first = tabular_row row_id target (some column) index row in
    let (_, labelled, e₁) =
      >>=-eq-ok (raise_if (is_blank first.label) (missing_target_label first.object_id)) _ e in
    let (later, rest, last) =
      >>=-eq-ok (to_tabular_rows row_id target (some column) (suc index) rows) _ e₁ in
    let same : row_of a ≡ first = cc (last, m) in
    let others : map row_of out ≡ later = cc (last, m) in
    (
      object_id_of-name_row row_id index row ∙ sym (ap (λ r. r.object_id) same),
      value_in-name_row row_id index row column h ∙ sym (ap (λ r. r.group_value) same),
      to_tabular_rows-Reads row_id target column (suc index) rows out h rest others,
    )

pub is_row_of_parts :
    (key_of : Row → Option Text) (placed : Dict Text Text) (key split : Text) (row : Row)
    → is_row_of key_of placed key split row ≡ true
    → (Dict.get placed (object_id_of row) ≡ some split) × (key_of row ≡ some key)
is_row_of_parts key_of placed key split row h = (
  (option_beq_iff (Dict.get placed (object_id_of row)) (some split)).0 (ground arith),
  (option_beq_iff (key_of row) (some key)).0 (ground arith),
)
