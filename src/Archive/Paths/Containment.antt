-- ===== src/Archive/Paths/Containment.antt =====
-- What `_validate_entry_path` of app/ingestion/archive_safety.py keeps out.
use mathlib.Core.List.{reverse, reverse-append}
use dataforge_ai_ml_service.Prelude.{
  Bool, true, false, not, ◌||◌, Option, none, some, List, [], ◌∷◌, ◌++◌, if◌then◌else◌, nat_eq,
  list_eq, ◌==◌, list_beq_iff, ◌≡◌, ◌≢◌, refl, ap, ◌∙◌, arith, all, ok, Option-cases, inl, inr,
}
use dataforge_ai_ml_service.Prelude.Texts.{
  Text, Unicode, starts_with, split, join, starts_with-join,
}
use dataforge_ai_ml_service.Archive.Paths.{
  slash, dot, dots, push_component, push_components, normpath, or_dot, validate_entry_path,
}

-- A walk through the components of a path from the root, by names of directories: `none` is a step
-- above the root, at any point of the path.
abbrev pub parent : List Text → Option (List Text)
parent [] = none
parent (top ∷ stack) = some stack

abbrev pub enter : List Text → Text → Option (List Text)
enter stack comp =
    if (comp == []) || (comp == dot ∷ [])
    then some stack
    else if comp == dots
    then parent stack
    else some (comp ∷ stack)

unfoldable pub walk : List Text → List Text → Option (List Text)
walk stack [] = some stack
walk stack (comp ∷ comps) = elim (enter stack comp) [
  | none ↦ none
  | some stack' ↦ walk stack' comps
]

-- No component is "..".
abbrev pub is_plain : Text → Bool
is_plain comp = not (comp == dots)

push_component-enter :
    (stack : List Text) (comp : Text) {stack' : List Text}
    → all is_plain stack ≡ true
    → enter stack comp ≡ some stack'
    → (push_component false stack comp ≡ stack') × (all is_plain stack' ≡ true)
unfolding push_component
push_component-enter [] comp plain e = ground arith
push_component-enter (top ∷ stack) comp plain e = ground arith

push_component-escape :
    (stack : List Text) (comp : Text)
    → enter stack comp ≡ none
    → push_component false stack comp ≡ dots ∷ []
unfolding push_component
push_component-escape [] comp e = ground (arith, list_beq_iff comp dots)
push_component-escape (top ∷ stack) comp e = ground arith

-- The first component, the last of the stack, is "..".
abbrev starts_above : List Text → Bool
starts_above [] = false
starts_above (x ∷ []) = x == dots
starts_above (x ∷ y ∷ stack) = starts_above (y ∷ stack)

-- Once above the root, the first component stays "..".
push_component-starts_above :
    (stack : List Text) (comp : Text)
    → starts_above stack ≡ true
    → starts_above (push_component false stack comp) ≡ true
unfolding push_component
push_component-starts_above [] comp h = ground arith
push_component-starts_above (x ∷ []) comp h = ground arith
push_component-starts_above (x ∷ y ∷ stack) comp h = ground arith

push_components-starts_above :
    (stack comps : List Text)
    → starts_above stack ≡ true
    → starts_above (push_components false stack comps) ≡ true
unfolding push_components
push_components-starts_above stack [] h = h
push_components-starts_above stack (comp ∷ comps) h =
    push_components-starts_above (push_component false stack comp) comps
      (push_component-starts_above stack comp h)

reverse-starts_above :
    (stack : List Text)
    → starts_above stack ≡ true
    → (rest : List Text) × (reverse stack ≡ dots ∷ rest)
reverse-starts_above [] h = cc
reverse-starts_above (x ∷ []) h = ([], ap (λ y. y ∷ []) ((list_beq_iff x dots).0 h))
reverse-starts_above (x ∷ y ∷ stack) h =
    let (rest, e) = reverse-starts_above (y ∷ stack) h in
    (rest ++ x ∷ [], reverse-append (x ∷ []) (y ∷ stack) ∙ ap (λ l. l ++ x ∷ []) e)

-- The loop of `normpath` follows the walk while the walk stays inside.
push_components-inside :
    (stack comps : List Text) {out : List Text}
    → all is_plain stack ≡ true
    → walk stack comps ≡ some out
    → (push_components false stack comps ≡ out) × (all is_plain out ≡ true)
unfolding walk push_components
push_components-inside stack [] plain e = ground arith
push_components-inside stack (comp ∷ comps) plain e = elim (Option-cases (enter stack comp)) [
  | inl outside ↦ ground arith
  | inr (stack', inside) ↦
      let (same, plain') = push_component-enter stack comp plain inside in
      rw (same, push_components) (push_components-inside stack' comps plain' (ground arith))
]

-- It ends above the root once the walk has left.
push_components-outside :
    (stack comps : List Text)
    → all is_plain stack ≡ true
    → walk stack comps ≡ none
    → starts_above (push_components false stack comps) ≡ true
unfolding walk push_components
push_components-outside stack [] plain e = ground arith
push_components-outside stack (comp ∷ comps) plain e = elim (Option-cases (enter stack comp)) [
  | inl outside ↦
      push_components-starts_above (push_component false stack comp) comps
        (rw (push_component-escape stack comp outside))
  | inr (stack', inside) ↦
      let (same, plain') = push_component-enter stack comp plain inside in
      rw (same, push_components) (push_components-outside stack' comps plain' (ground arith))
]

abbrev pub render : List Text → Text
render stack = or_dot (join slash (reverse stack))

normpath_relative :
    (name : Text)
    → name ≢ []
    → starts_with name (slash ∷ []) ≡ false
    → normpath name ≡ render (push_components false [] (split slash name))
unfolding normpath
normpath_relative [] h e = absurd (h refl)
normpath_relative (c ∷ cs) h e = rw e

starts_with-or_dot :
    (text : Text) → starts_with text dots ≡ true → starts_with (or_dot text) dots ≡ true
unfolding starts_with
starts_with-or_dot [] h = cc
starts_with-or_dot (c ∷ cs) h = h

render-starts_above :
    (stack : List Text) → starts_above stack ≡ true → starts_with (render stack) dots ≡ true
render-starts_above stack h =
    let (rest, e) = reverse-starts_above stack h in
    starts_with-or_dot (join slash (reverse stack))
      (rw (ap (join slash) e) (starts_with-join slash dots rest))

validate_entry_path_guards :
    (u : Unicode) (name : Text)
    → validate_entry_path u name ≡ ok tt
    → (name ≢ [])
      × (starts_with name (slash ∷ []) ≡ false)
      × (starts_with (normpath name) dots ≡ false)
unfolding validate_entry_path
validate_entry_path_guards u [] h = cc
validate_entry_path_guards u (c ∷ cs) h = (λ e. cc e, ground arith, ground arith)

-- A name that is accepted leads nowhere outside: at no point of the path does the walk step above
-- the root, and the normalised name is the path of the directory where the walk ends, which holds
-- no "..".
pub validate_entry_path-stays_inside :
    (u : Unicode) (name : Text)
    → validate_entry_path u name ≡ ok tt
    → (out : List Text) × (walk [] (split slash name) ≡ some out)
      × (normpath name ≡ render out)
      × (all is_plain out ≡ true)
validate_entry_path-stays_inside u name h =
    let (named, relative, below) = validate_entry_path_guards u name h in
    let same = normpath_relative name named relative in
    elim (Option-cases (walk [] (split slash name))) [
      | inl outside ↦
          let above = push_components-outside [] (split slash name) refl outside in
          let lead = render-starts_above (push_components false [] (split slash name)) above in
          cc (ap (λ t. starts_with t dots) same, lead, below)
      | inr (out, inside) ↦
          let (ends, plain) = push_components-inside [] (split slash name) refl inside in
          (out, inside, same ∙ ap render ends, plain)
    ]
