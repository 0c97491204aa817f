-- ===== src/Leakage/Content.antt =====
-- When two rows of app/plugins/tabular/leakage_checks.py have one content, by `_row_signature`.
use dataforge_ai_ml_service.Prelude.{
  true, false, List, [], ◌∷◌, keep, nat_eq, list_eq, list_beq_iff, option_eq, ◌==◌, member,
  member-keep, ◌≡◌, refl, sym, ap, ◌∙◌, arith, Bool-cases, inl, inr,
}
use mathlib.Core.Path.{subst}
use dataforge_ai_ml_service.Prelude.Dict
use dataforge_ai_ml_service.Prelude.Dict.{Dict, keys}
use dataforge_ai_ml_service.Prelude.Sorting.{sorted, nat_order, list_order}
use dataforge_ai_ml_service.Prelude.Sorting.Sets.{member-sorted}
use dataforge_ai_ml_service.Prelude.Texts.{Text}
use dataforge_ai_ml_service.Validation.RuleModel.{Row, cell}
use dataforge_ai_ml_service.Leakage.Table.{
  object_id_column, is_content, content_fields, row_payload,
}

-- Two rows have the same value in every column other than the one of the ids.
abbrev pub SameContent : Row → Row → Type 0
SameContent a b =
    (column : Text) → (object_id_column == column) ≡ false → cell a column ≡ cell b column

pub cell_missing :
    (row : Row) (column : Text) → member column (keys row) ≡ false → cell row column ≡ []
unfolding Dict.get
cell_missing [] column h = refl
cell_missing ((k, v) ∷ row) column h = ground (arith, cell_missing row column)

content_fields_columns :
    (a b : Row) (cs ds : List Text) → content_fields a cs ≡ content_fields b ds → cs ≡ ds
content_fields_columns a b [] [] h = refl
content_fields_columns a b [] (d ∷ ds) h = cc h
content_fields_columns a b (c ∷ cs) [] h = cc h
content_fields_columns a b (c ∷ cs) (d ∷ ds) h =
    let rest = content_fields_columns a b cs ds (cc h) in cc (h, rest)

content_fields_cells :
    (a b : Row) (cs : List Text) (column : Text)
    → content_fields a cs ≡ content_fields b cs
    → member column cs ≡ true
    → cell a column ≡ cell b column
content_fields_cells a b [] column h m = cc m
content_fields_cells a b (c ∷ cs) column h m = elim (Bool-cases (c == column)) [
  | inl same ↦
      let at : c ≡ column = (list_beq_iff c column).0 same in
      let here : cell a c ≡ cell b c = cc h in subst (λ x. cell a x ≡ cell b x) at here
  | inr other ↦ content_fields_cells a b cs column (cc h) (ground arith)
]

content_fields_ext :
    (a b : Row) (cs : List Text)
    → SameContent a b
    → content_fields a (keep is_content cs) ≡ content_fields b (keep is_content cs)
content_fields_ext a b [] same = refl
content_fields_ext a b (c ∷ cs) same = elim (Bool-cases (object_id_column == c)) [
  | inl id ↦ rw id (content_fields_ext a b cs same)
  | inr content ↦
      let rest = content_fields_ext a b cs same in let here = same c content in ground arith
]

abbrev content_columns : Row → List Text
content_columns row = keep is_content (sorted (keys row))

member-content_columns :
    (row : Row) (column : Text)
    → (object_id_column == column) ≡ false
    → member column (content_columns row) ≡ member column (keys row)
member-content_columns row column h =
    ground
      (arith, member-keep is_content column (sorted (keys row)), member-sorted column (keys row))

pub payload_same : (a b : Row) → row_payload a ≡ row_payload b → SameContent a b
unfolding row_payload
payload_same a b h column content =
    let fields_same : content_fields a (content_columns a) ≡ content_fields b (content_columns b) =
      cc h in
    let columns = content_fields_columns a b (content_columns a) (content_columns b) fields_same in
    elim (Bool-cases (member column (keys a))) [
      | inl there ↦
          content_fields_cells a b (content_columns a) column
            (subst (λ cs. content_fields a (content_columns a) ≡ content_fields b cs) (sym columns)
              fields_same)
            (member-content_columns a column content ∙ there)
      | inr missing ↦
          let missing' =
            sym (member-content_columns b column content)
            ∙ sym (ap (member column) columns)
            ∙ member-content_columns a column content
            ∙ missing in
          cell_missing a column missing ∙ sym (cell_missing b column missing')
    ]

pub same_payload : (a b : Row) → keys a ≡ keys b → SameContent a b → row_payload a ≡ row_payload b
unfolding row_payload
same_payload a b columns same =
    let fields_same = content_fields_ext a b (sorted (keys a)) same in
    let there = ap (λ ks. content_fields b (keep is_content (sorted ks))) columns in
    cc (fields_same, there)
