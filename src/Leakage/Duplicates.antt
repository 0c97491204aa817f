-- ===== src/Leakage/Duplicates.antt =====
-- When two rows of one content are in different splits, by app/plugins/tabular/leakage_checks.py.
use dataforge_ai_ml_service.Prelude.{
  ℕ, suc, Bool, true, false, some, List, [], ◌∷◌, map, any, nat_eq, list_eq, list_beq_iff,
  option_eq, option_beq_iff, ◌==◌, member, ◌≡◌, ◌↔◌, ◌⊎◌, refl, sym, ap, ◌∙◌, arith, Bool-cases,
  inl, inr,
}
use dataforge_ai_ml_service.Prelude.Dict
use dataforge_ai_ml_service.Prelude.Dict.{Dict, keys}
use dataforge_ai_ml_service.Prelude.Texts.{Text}
use dataforge_ai_ml_service.Json.{Json}
use dataforge_ai_ml_service.Validation.RuleModel.{Row, cell, is_blank}
use dataforge_ai_ml_service.Leakage.Table.{
  Table, object_id_column, object_id_of, columns_of, read_cells, name_row, named_rows, rows_of,
  row_payload, row_signature,
}
use dataforge_ai_ml_service.Leakage.Content.{SameContent, cell_missing, payload_same, same_payload}
use dataforge_ai_ml_service.Leakage.Crossing.{Crosses, is_row_of}

abbrev pub IsIn : Row → List Row → Type 0
IsIn row [] = ⊥
IsIn row (x ∷ rows) = (x ≡ row) ⊎ IsIn row rows

keys-put_ext :
    (a b : Row) (column v w : Text)
    → keys a ≡ keys b
    → keys (Dict.put a column v) ≡ keys (Dict.put b column w)
unfolding Dict.put
keys-put_ext [] [] column v w h = refl
keys-put_ext [] (y ∷ b) column v w h = cc h
keys-put_ext (x ∷ a) [] column v w h = cc h
keys-put_ext ((j, x) ∷ a) ((k, y) ∷ b) column v w h =
    let same : j ≡ k = cc h in
    let rest = keys-put_ext a b column v w (cc h) in
    let test = ap (λ i. i == column) same in
    elim (Bool-cases (j == column)) [
      | inl here ↦ rw (here, sym test ∙ here) h
      | inr other ↦ rw (other, sym test ∙ other) (cc (same, rest))
    ]

keys-put_present :
    (row : Row) (column v : Text)
    → member column (keys row) ≡ true
    → keys (Dict.put row column v) ≡ keys row
unfolding Dict.put
keys-put_present [] column v h = cc h
keys-put_present ((j, x) ∷ row) column v h = ground (arith, keys-put_present row column v)

keys-read_cells :
    (a b : Row) (columns : List Text) (raw raw' : Row)
    → keys a ≡ keys b
    → keys (read_cells a columns raw) ≡ keys (read_cells b columns raw')
unfolding read_cells
keys-read_cells a b [] raw raw' h = h
keys-read_cells a b (column ∷ columns) raw raw' h =
    keys-read_cells (Dict.put a column (cell raw column)) (Dict.put b column (cell raw' column))
      columns raw raw' (keys-put_ext a b column (cell raw column) (cell raw' column) h)

has_object_id :
    (row : Row) → is_blank (object_id_of row) ≡ false → member object_id_column (keys row) ≡ true
has_object_id row h = elim (Bool-cases (member object_id_column (keys row))) [
  | inl there ↦ there
  | inr missing ↦ cc (h, ap is_blank (cell_missing row object_id_column missing))
]

named_as_blank :
    (row_id : ℕ → Text) (i : ℕ) (a b : Row)
    → keys a ≡ keys b
    → is_blank (object_id_of a) ≡ true
    → is_blank (object_id_of b) ≡ false
    → keys (Dict.put a object_id_column (row_id i)) ≡ keys b
named_as_blank row_id i a b h blank given =
    keys-put_present a object_id_column (row_id i)
      (ap (member object_id_column) h ∙ has_object_id b given)
    ∙ h

keys-name_row :
    (row_id : ℕ → Text) (i j : ℕ) (a b : Row)
    → keys a ≡ keys b
    → keys (name_row row_id i a) ≡ keys (name_row row_id j b)
keys-name_row row_id i j a b h = elim (Bool-cases (is_blank (object_id_of a))) [
  | inl blank ↦ elim (Bool-cases (is_blank (object_id_of b))) [
    | inl blank' ↦ rw (blank, blank') (keys-put_ext a b object_id_column (row_id i) (row_id j) h)
    | inr given' ↦ rw (blank, given') (named_as_blank row_id i a b h blank given')
  ]
  | inr given ↦ elim (Bool-cases (is_blank (object_id_of b))) [
    | inl blank' ↦ rw (given, blank') (sym (named_as_blank row_id j b a (sym h) blank' given))
    | inr given' ↦ rw (given, given') h
  ]
]

module _ (row_id : ℕ → Text) (columns : List Text) where
  abbrev read_from : ℕ → List Row → List Row
  read_from i raws = named_rows row_id i (map (read_cells [] columns) raws)

  IsIn-read_from :
      (i : ℕ) (raws : List Row) (row : Row)
      → IsIn row (read_from i raws)
      → (j : ℕ) × (raw : Row) × (name_row row_id j (read_cells [] columns raw) ≡ row)
  IsIn-read_from i [] row h = absurd h
  IsIn-read_from i (raw ∷ raws) row h = elim h [
    | inl here ↦ (i, raw, here)
    | inr there ↦ IsIn-read_from (suc i) raws row there
  ]

  same_keys :
      (i : ℕ) (raws : List Row) (a b : Row)
      → IsIn a (read_from i raws)
      → IsIn b (read_from i raws)
      → keys a ≡ keys b
  same_keys i raws a b at at' =
      let (j, raw, e) = IsIn-read_from i raws a at in
      let (k, raw', e') = IsIn-read_from i raws b at' in
      ap keys (sym e)
      ∙ keys-name_row row_id j k (read_cells [] columns raw) (read_cells [] columns raw')
          (keys-read_cells [] [] columns raw raw' refl)
      ∙ ap keys e'

any-IsIn :
    (p : Row → Bool) (rows : List Row)
    → any p rows ≡ true
    → (row : Row) × IsIn row rows × (p row ≡ true)
any-IsIn p [] h = cc h
any-IsIn p (x ∷ rows) h = elim (Bool-cases (p x)) [
  | inl here ↦ (x, inl refl, here)
  | inr other ↦ let (row, at, holds) = any-IsIn p rows (ground arith) in (row, inr at, holds)
]

IsIn-any :
    (p : Row → Bool) (rows : List Row) (row : Row)
    → IsIn row rows
    → p row ≡ true
    → any p rows ≡ true
IsIn-any p [] row at h = absurd at
IsIn-any p (x ∷ rows) row at h = elim at [
  | inl here ↦ let same = ap p here in ground arith
  | inr there ↦ let rest = IsIn-any p rows row there h in ground arith
]

-- Two rows of one content that are assigned to different splits
pub record ContentCrosses (assignments : Dict Text Text) (rows : List Row) : Type 0 where
  pub first : Row
  pub second : Row
  pub first_split : Text
  pub second_split : Text
  pub first_in : IsIn first rows
  pub second_in : IsIn second rows
  pub first_assigned : Dict.get assignments (object_id_of first) ≡ some first_split
  pub second_assigned : Dict.get assignments (object_id_of second) ≡ some second_split
  pub different : (first_split == second_split) ≡ false
  pub same_content : SameContent first second

-- The digest does not collide on the contents of these rows.
abbrev pub IsCollisionFree : (Json → Text) → List Row → Type 0
IsCollisionFree digest rows =
    (a b : Row)
    → IsIn a rows
    → IsIn b rows
    → row_signature digest a ≡ row_signature digest b
    → row_payload a ≡ row_payload b

module _ (digest : Json → Text) (row_id : ℕ → Text) (table : Table)
    (assignments : Dict Text Text) where
  abbrev rows : List Row
  rows = rows_of row_id table

  abbrev is_row : Text → Text → Row → Bool
  is_row = is_row_of (λ row. some (row_signature digest row)) assignments

  is_row_parts :
      (key split : Text) (row : Row)
      → is_row key split row ≡ true
      → (Dict.get assignments (object_id_of row) ≡ some split) × (row_signature digest row ≡ key)
  is_row_parts key split row h = (
    (option_beq_iff (Dict.get assignments (object_id_of row)) (some split)).0 (ground arith),
    (list_beq_iff (row_signature digest row) key).0 (ground arith),
  )

  parts_is_row :
      (key split : Text) (row : Row)
      → Dict.get assignments (object_id_of row) ≡ some split
      → row_signature digest row ≡ key
      → is_row key split row ≡ true
  parts_is_row key split row assigned signed = ground (
    arith,
    (option_beq_iff (Dict.get assignments (object_id_of row)) (some split)).1 assigned,
    (list_beq_iff (row_signature digest row) key).1 signed,
  )

  -- A signature is in two splits exactly if a content is, where the digest does not collide.
  pub ContentCrosses-Crosses :
      IsCollisionFree digest rows
      → Crosses (λ row. some (row_signature digest row)) assignments rows
        ↔ ContentCrosses assignments rows
  ContentCrosses-Crosses free = (
    λ c.
        let (a, a_in, holds) = any-IsIn (is_row c.key c.first) rows c.in_first in
        let (b, b_in, holds') = any-IsIn (is_row c.key c.second) rows c.in_second in
        let (a_assigned, a_signed) = is_row_parts c.key c.first a holds in
        let (b_assigned, b_signed) = is_row_parts c.key c.second b holds' in
        record {
          first = a;
          second = b;
          first_split = c.first;
          second_split = c.second;
          first_in = a_in;
          second_in = b_in;
          first_assigned = a_assigned;
          second_assigned = b_assigned;
          different = c.different;
          same_content = payload_same a b (free a b a_in b_in (a_signed ∙ sym b_signed));
        },
    λ c.
        let columns =
          same_keys row_id (columns_of table) 0 table.raw_rows c.first c.second c.first_in
            c.second_in in
        let signed = ap digest (same_payload c.first c.second columns c.same_content) in
        let key = row_signature digest c.first in
        record {
          key = key;
          first = c.first_split;
          second = c.second_split;
          different = c.different;
          in_first =
              IsIn-any (is_row key c.first_split) rows c.first c.first_in
                (parts_is_row key c.first_split c.first c.first_assigned refl);
          in_second =
              IsIn-any (is_row key c.second_split) rows c.second c.second_in
                (parts_is_row key c.second_split c.second c.second_assigned (sym signed));
        },
  )
