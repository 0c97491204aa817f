-- ===== src/Splits/Samples.antt =====
-- Floats, ratios and an order of groups for the runs of app/plugins/tabular/splits.py.
use Prim.Native.Nat.{◌/◌}
use dataforge_ai_ml_service.Prelude.{if◌then◌else◌, ℕ, ◌+◌, ◌-◌, ◌*◌, List, [], ◌∷◌, ◌++◌, ltb}
use dataforge_ai_ml_service.Prelude.Texts.{Text, codes}
use dataforge_ai_ml_service.Splits.Groups.{Group}
use dataforge_ai_ml_service.Splits.Targets.{DataSplit, train, validation, test}
use dataforge_ai_ml_service.Splits.Assign.{Floats}

-- Numbers as counts of hundredths.
abbrev pub hundredths : Floats ℕ
hundredths = record {
  of_count = λ n. n * 100;
  add = λ a b. a + b;
  mul = λ a b. a * b / 100;
  div = λ a b. a * 100 / b;
  abs_diff = λ a b. a - b + (b - a);
  at_least_one = λ a. if ltb a 100 then 100 else a;
  lt = ltb;
  round = λ a. (a + 50) / 100;
}

abbrev pub ratio : DataSplit → ℕ
ratio train = 70
ratio validation = 15
ratio test = 15

abbrev pub row_name : ℕ → Text
row_name i = codes "__row_" ++ (48 + i) ∷ []

abbrev pub in_order : List Group → List Group
in_order groups = groups
