-- ===== src/Validation/Gates/Csv.antt =====
-- `_read_csv` of app/plugins/validation/gates.py.
use dataforge_ai_ml_service.Prelude.{
  ℕ, suc, Bool, true, false, not, Option, none, some, List, [], ◌∷◌, keep, if◌then◌else◌, nat_eq,
  list_eq, Result, ok, raise, raise_if, ◌>>=◌, ◌>>◌,
}
use dataforge_ai_ml_service.Prelude.Dict
use dataforge_ai_ml_service.Prelude.Dict.{Dict}
use dataforge_ai_ml_service.Prelude.Texts.{Text, codes}
use dataforge_ai_ml_service.Validation.RuleModel.{Row, RuleError, cell, is_blank}

-- What leaves the executor: ValidationGatesError by its reason, or the evaluator's ValueError.
pub data GatesError : Type 0 where
  unreadable : Text → GatesError
  empty_csv : Text → GatesError
  rule_error : RuleError → GatesError

-- The object storage, the CSV reader and the digest that the executor is given. `dict_reader` are
-- the field names and the rows of `csv.DictReader` over the decoded bytes, and `row_name` is the
-- text `row_{index:06d}`.
pub record Storage : Type 0 where
  pub get : Text → Option (List ℕ)
  pub dict_reader : List ℕ → List Text × List (Dict Text (Option Text))
  pub sha256 : List ℕ → Text
  pub row_name : ℕ → Text

pub record ArtifactRef : Type 0 where
  pub uri : Text
  pub hash : Text

abbrev pub object_id : Text
object_id = codes "object_id"

abbrev pub value_or_blank : Option (Option Text) → Text
value_or_blank none = []
value_or_blank (some none) = []
value_or_blank (some (some value)) = value

abbrev pub row_of : List Text → Dict Text (Option Text) → Row → Row
row_of [] raw row = row
row_of (column ∷ columns) raw row =
    row_of columns raw (Dict.put row column (value_or_blank (Dict.get raw column)))

abbrev pub with_object_id : Text → Row → Row
with_object_id name row = if is_blank (cell row object_id) then Dict.put row object_id name else row

unfoldable pub rows_from : (ℕ → Text) → List Text → ℕ → List (Dict Text (Option Text)) → List Row
rows_from row_name columns index [] = []
rows_from row_name columns index (raw ∷ raws) =
    with_object_id (row_name index) (row_of columns raw [])
    ∷ rows_from row_name columns (suc index) raws

abbrev pub found_data : Option (List ℕ) → Text → Result GatesError (List ℕ)
found_data none role = raise (unreadable role)
found_data (some data_) role = ok data_

abbrev pub has_no_columns : List Text → Bool
has_no_columns [] = true
has_no_columns (c ∷ cs) = false

-- `_read_csv`
unfoldable pub read_csv : Storage → ArtifactRef → Text → Result GatesError (List Row × List Text)
read_csv s artifact role = do
  stored ← found_data (s.get artifact.uri) role
  let names = (s.dict_reader stored).0
  let columns = keep (λ name. not (is_blank name)) names
  raise_if (has_no_columns columns) (empty_csv role)
  ok (rows_from s.row_name columns 0 (s.dict_reader stored).1, columns)
