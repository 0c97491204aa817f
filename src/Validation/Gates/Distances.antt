-- ===== src/Validation/Gates/Distances.antt =====
-- `_compute_dcr` of app/plugins/validation/gates.py, without the mean and the median, which it only
-- reports.
use dataforge_ai_ml_service.Prelude.{
  ℕ, Bool, true, false, ◌&&◌, Option, none, some, List, [], ◌∷◌, map, length, keep, if◌then◌else◌,
}
use dataforge_ai_ml_service.Prelude.Texts.{Text}
use dataforge_ai_ml_service.Validation.Numbers.{Numbers}
use dataforge_ai_ml_service.Validation.RuleModel.{Row, cell}

pub record DcrMetrics (F : Type 0) : Type 0 where
  pub distances : List F
  pub minimum : F
  pub below_epsilon : ℕ
  pub real_reference_count : ℕ
  pub reference_scope : Text

module _ {N F : Type 0} (n : Numbers N F) where
  abbrev pub coordinate : Text → F
  coordinate value = elim (n.parse value) [ none ↦ n.zero | some x ↦ x ]

  -- `_row_vector`
  unfoldable pub row_vector : Row → List Text → List F
  row_vector row columns = map (λ column. coordinate (cell row column)) columns

  -- The sum of the squares, or none for vectors of other lengths.
  abbrev pub squares : F → List F → List F → Option F
  squares total [] [] = some total
  squares total [] (y ∷ ys) = none
  squares total (x ∷ xs) [] = none
  squares total (x ∷ xs) (y ∷ ys) = squares (n.add total (n.mul (n.sub x y) (n.sub x y))) xs ys

  -- `_euclidean`
  unfoldable pub euclidean : List F → List F → F
  euclidean a b = elim (squares n.zero a b) [ none ↦ n.zero | some total ↦ n.sqrt total ]

  abbrev pub is_zero : F → Bool
  is_zero x = n.le x n.zero && n.le n.zero x

  -- The loop over the real rows, which stops at a distance of zero.
  unfoldable pub nearest_from : List F → F → List (List F) → F
  unfolding euclidean
  nearest_from vector nearest [] = nearest
  nearest_from vector nearest (real ∷ reals) =
      let distance = euclidean vector real in
      elim (n.lt distance nearest) [
        | false ↦ nearest_from vector nearest reals
        | true ↦ elim (is_zero distance) [
          | true ↦ distance
          | false ↦ nearest_from vector distance reals
        ]
      ]

  abbrev pub or_zero : F → F
  or_zero x = if n.is_inf x then n.zero else x

  abbrev pub distance_to_closest : List (List F) → List F → F
  distance_to_closest reals vector = or_zero (nearest_from vector n.infinity reals)

  -- `min`, which keeps the first of equal values
  abbrev pub minimum_from : F → List F → F
  minimum_from least [] = least
  minimum_from least (x ∷ xs) = minimum_from (if n.lt x least then x else least) xs

  abbrev pub minimum_of : List F → F
  minimum_of [] = n.zero
  minimum_of (x ∷ xs) = minimum_from x xs

  -- `_compute_dcr`
  unfoldable pub compute_dcr : List Row → List Row → List Text → Text → DcrMetrics F
  compute_dcr synthetic_rows real_rows feature_columns reference_scope =
      let reals = map (λ row. row_vector row feature_columns) real_rows in
      let distances =
        map (λ row. distance_to_closest reals (row_vector row feature_columns)) synthetic_rows in
      record {
        distances = distances;
        minimum = minimum_of distances;
        below_epsilon = length (keep (λ d. n.le d n.collision) distances);
        real_reference_count = length reals;
        reference_scope = reference_scope;
      }
