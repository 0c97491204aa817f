-- ===== src/Prelude/Texts.antt =====
-- Text that the code walks: its code points.
use Prim.Native.Nat.{ℕ, ◌+◌}
use Prim.Native.Char.{code}
use Prim.Native.String.{String}
use mathlib.Core.Bool.{Bool, true, false, ◌&&◌, ◌||◌}
use mathlib.Core.List.{List, [], ◌∷◌, ◌++◌}
use mathlib.Core.Path.{◌≡◌, refl}
use native.Mathlib.Omega.{arith}
use dataforge_ai_ml_service.Prelude.Tests.{if◌then◌else◌, leb}
use dataforge_ai_ml_service.Prelude.Lists.{length, drop}
use dataforge_ai_ml_service.Prelude.Equality.{◌==◌, nat_eq}

abbrev pub Text : Type 0
Text = List ℕ

abbrev pub codes : String → Text
codes String.[] = []
codes (String.◌∷◌ c s) = code c ∷ codes s

-- `text.startswith(p)`
unfoldable pub starts_with : Text → Text → Bool
starts_with text [] = true
starts_with [] (c ∷ p) = false
starts_with (d ∷ text) (c ∷ p) = (d == c) && starts_with text p

-- `p in text`
unfoldable pub has : Text → Text → Bool
unfolding starts_with
has [] p = starts_with [] p
has (d ∷ text) p = starts_with (d ∷ text) p || has text p

-- `text.lower()` on ASCII, an instance of what the code is given
unfoldable pub ascii_lower : Text → Text
ascii_lower [] = []
ascii_lower (c ∷ s) = (if leb 65 c && leb c 90 then c + 32 else c) ∷ ascii_lower s

-- The parts of `str` that go by Unicode tables.
pub record Unicode : Type 0 where
  pub is_alpha : ℕ → Bool
  pub lower : Text → Text

-- `text.split(c)`: there is always a first piece.
abbrev pub cons_first : ℕ → List Text → List Text
cons_first d [] = (d ∷ []) ∷ []
cons_first d (piece ∷ pieces) = (d ∷ piece) ∷ pieces

unfoldable pub split : ℕ → Text → List Text
split c [] = [] ∷ []
split c (d ∷ text) = let rest = split c text in if d == c then [] ∷ rest else cons_first d rest

-- `c.join(pieces)`
unfoldable pub join : ℕ → List Text → Text
join c [] = []
join c (piece ∷ []) = piece
join c (piece ∷ next ∷ pieces) = piece ++ c ∷ join c (next ∷ pieces)

-- `text.endswith(c)`
unfoldable pub ends_with : Text → ℕ → Bool
ends_with [] c = false
ends_with (d ∷ []) c = d == c
ends_with (d ∷ e ∷ text) c = ends_with (e ∷ text) c

-- `text.rsplit(c, 1)[1]`, or the whole text where `c` is not in it
unfoldable pub after_last : ℕ → Text → Text → Text
after_last c [] found = found
after_last c (d ∷ text) found = after_last c text (if d == c then text else found)

pub starts_with-append : (p text : Text) → starts_with (p ++ text) p ≡ true
unfolding starts_with
starts_with-append [] [] = refl
starts_with-append [] (c ∷ text) = refl
starts_with-append (c ∷ p) text = ground (arith, starts_with-append p text)

pub starts_with_self : (p : Text) → starts_with p p ≡ true
unfolding starts_with
starts_with_self [] = refl
starts_with_self (c ∷ p) = ground (arith, starts_with_self p)

-- What is joined begins with the first piece.
pub starts_with-join :
    (c : ℕ) (piece : Text) (pieces : List Text) → starts_with (join c (piece ∷ pieces)) piece ≡ true
unfolding join
starts_with-join c piece [] = starts_with_self piece
starts_with-join c piece (next ∷ pieces) = starts_with-append piece _

-- `text.removeprefix(p)`
unfoldable pub remove_prefix : Text → Text → Text
remove_prefix text p = if starts_with text p then drop (length p) text else text

abbrev pub ascii : Unicode
ascii = record {
  is_alpha = λ c. leb 65 c && leb c 90 || leb 97 c && leb c 122;
  lower = ascii_lower;
}
