-- ===== src/Validation/Numbers.antt =====
-- Python's numbers, as app/plugins/tabular/rules.py and app/plugins/validation/gates.py use them.
use dataforge_ai_ml_service.Prelude.{Bool, Option, List}
use dataforge_ai_ml_service.Prelude.Texts.{Text}

-- `N` are the numbers of a configuration (int, float or bool), and `F` the floats.
pub record Numbers (N F : Type 0) : Type 0 where
  pub to_float : N → F
  pub show : N → Text
  pub show_tuple : List Text → Text
  -- `float(text)`, or none for its ValueError
  pub parse : Text → Option F
  pub le : F → F → Bool
  pub lt : F → F → Bool
  pub is_inf : F → Bool
  pub zero : F
  pub infinity : F
  pub add : F → F → F
  pub sub : F → F → F
  pub mul : F → F → F
  pub sqrt : F → F
  -- `1e-9`
  pub collision : F
