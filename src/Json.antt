-- ===== src/Json.antt =====
-- The JSON payloads that the code hashes, and Python's `dict[str, Any]`. The encoding by
-- `json.dumps` and the digest by `hashlib` are parameters of what uses them: no property rests on
-- their bytes.
use dataforge_ai_ml_service.Prelude.{ℕ, Bool, Option, none, some, List, [], ◌∷◌}
use dataforge_ai_ml_service.Prelude.Dict.{Dict}
use dataforge_ai_ml_service.Prelude.Texts.{Text}

mutual
  pub data Json : Type 0 where
    null : Json
    bool : Bool → Json
    num : ℕ → Json
    str : Text → Json
    arr : Items → Json
    obj : Fields → Json

  pub data Items : Type 0 where
    nil : Items
    cons : Json → Items → Items

  pub data Fields : Type 0 where
    end : Fields
    field : Text → Json → Fields → Fields

abbrev pub Config : Type 0
Config = Dict Text Json

abbrev pub fields : Config → Fields
fields [] = end
fields ((k, v) ∷ config) = field k v (fields config)

abbrev pub texts : List Text → Items
texts [] = nil
texts (x ∷ xs) = cons (str x) (texts xs)

-- A value that may be None.
abbrev pub or_null : Option Json → Json
or_null none = null
or_null (some j) = j
