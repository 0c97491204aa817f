-- ===== src/Archive/Paths.antt =====
-- Entry paths of app/ingestion/archive_safety.py, with the `posixpath.normpath` that they go by.
pub mod Containment
use dataforge_ai_ml_service.Prelude.{
  ℕ, suc, Bool, true, false, not, ◌&&◌, ◌||◌, List, [], ◌∷◌, ◌++◌, String, if◌then◌else◌, nat_eq,
  list_eq, ◌==◌, Result, ok, raise, raise_if, ◌>>◌, ◌>>=◌, leb, length, is_empty,
}
use dataforge_ai_ml_service.Prelude.Texts.{
  Text, codes, Unicode, starts_with, has, split, join, ends_with, after_last,
}
use mathlib.Core.List.{reverse}
use dataforge_ai_ml_service.ErrorCode.{
  ErrorCode, archive_safety_violation, invalid_archive_structure,
}

pub record ArchiveSafetyError : Type 0 where
  pub code : ErrorCode
  pub reason_code : String

abbrev pub violation : String → ArchiveSafetyError
violation reason = record { code = archive_safety_violation; reason_code = reason }

abbrev pub slash : ℕ
slash = 47

abbrev pub dot : ℕ
dot = 46

abbrev pub dots : Text
dots = dot ∷ dot ∷ []

-- `new_comps and new_comps[-1] == ".."`, on a stack whose top is the last component
abbrev pub top_is_dots : List Text → Bool
top_is_dots [] = false
top_is_dots (top ∷ stack) = top == dots

abbrev pub pop {ℓ} : {A : Type ℓ} → List A → List A
pop [] = []
pop (x ∷ xs) = xs

-- One round of the loop of `posixpath.normpath`.
unfoldable pub push_component : Bool → List Text → Text → List Text
push_component rooted stack comp =
    if (comp == []) || (comp == dot ∷ [])
    then stack
    else if not (comp == dots) || (not rooted && is_empty stack) || top_is_dots stack
    then comp ∷ stack
    else pop stack

unfoldable pub push_components : Bool → List Text → List Text → List Text
push_components rooted stack [] = stack
push_components rooted stack (comp ∷ comps) =
    push_components rooted (push_component rooted stack comp) comps

-- The slashes that a path keeps in front.
abbrev pub initial_slashes : Text → Text
initial_slashes path =
    if starts_with path (slash ∷ [])
    then (if starts_with path (slash ∷ slash ∷ [])
          && not (starts_with path (slash ∷ slash ∷ slash ∷ []))
        then slash ∷ slash ∷ []
        else slash ∷ [])
    else []

abbrev pub or_dot : Text → Text
or_dot [] = dot ∷ []
or_dot (c ∷ cs) = c ∷ cs

-- `posixpath.normpath`
unfoldable pub normpath : Text → Text
unfolding push_components push_component
normpath [] = dot ∷ []
normpath (c ∷ cs) =
    let path = c ∷ cs in
    let stack = push_components (starts_with path (slash ∷ [])) [] (split slash path) in
    or_dot (initial_slashes path ++ join slash (reverse stack))

-- `len(name) >= 3 and name[1] == ":" and name[0].isalpha()`
unfoldable pub is_windows_drive : Unicode → Text → Bool
is_windows_drive u (a ∷ b ∷ c ∷ rest) = (b == 58) && u.is_alpha a
is_windows_drive u _ = false

-- `_validate_entry_path`
unfoldable pub validate_entry_path : Unicode → Text → Result ArchiveSafetyError (Unit {0})
validate_entry_path u name = do
  raise_if (is_empty name)
      (record { code = invalid_archive_structure; reason_code = "empty_entry_name" })
  raise_if (has name (0 ∷ [])) (violation "nul_byte_in_entry")
  raise_if (starts_with name (slash ∷ [])) (violation "absolute_path")
  raise_if (is_windows_drive u name) (violation "windows_drive_path")
  let normalized = normpath name
  raise_if
      (starts_with normalized dots
        || has (slash ∷ normalized ++ slash ∷ []) (slash ∷ dot ∷ dot ∷ slash ∷ []))
      (violation "path_traversal")
