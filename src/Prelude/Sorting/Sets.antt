-- ===== src/Prelude/Sorting/Sets.antt =====
-- Sorting forgets the order of a list, and with repetitions gone a list is known by its members.
use mathlib.Core.Path.{◌≡◌, refl, ap₂, sym, subst}
use mathlib.Core.Logic.{◌↔◌, ∥∥₁_elim}
use mathlib.Core.Bool.{Bool-set, true, not, ◌&&◌, ◌||◌}
use mathlib.Core.List.{List, [], ◌∷◌, Perm}
use mathlib.Core.List.Perm
use native.Mathlib.Omega.{arith}
use dataforge_ai_ml_service.Prelude.Equality.{Eq, ◌==◌, beq_refl, list_beq, list_beq_iff}
use dataforge_ai_ml_service.Prelude.Lists.{member, distinct}
use dataforge_ai_ml_service.Prelude.Sorting.{
  Order, insert, sorted, IsBelow, IsSorted, sorted-perm, sorted-Permᴰ,
}

module _ {ℓ} {A : Type ℓ} ⦃o : Order A⦄ ⦃e : Eq A⦄ where
  member-insert : (a b : A) (xs : List A) → member a (insert b xs) ≡ ((b == a) || member a xs)
  unfolding insert
  member-insert a b [] = refl
  member-insert a b (x ∷ xs) = ground (arith, member-insert a b xs)

  distinct-insert :
      (b : A) (xs : List A) → distinct (insert b xs) ≡ (not (member b xs) && distinct xs)
  unfolding insert
  distinct-insert b [] = refl
  distinct-insert b (x ∷ xs) =
      ground (arith, distinct-insert b xs, member-insert x b xs, e.beq_iff x b, e.beq_iff b x)

  pub member-sorted : (a : A) (xs : List A) → member a (sorted xs) ≡ member a xs
  unfolding sorted
  member-sorted a [] = refl
  member-sorted a (x ∷ xs) = ground (arith, member-insert a x (sorted xs), member-sorted a xs)

  pub distinct-sorted : (xs : List A) → distinct (sorted xs) ≡ distinct xs
  unfolding sorted
  distinct-sorted [] = refl
  distinct-sorted (x ∷ xs) =
      ground (arith, distinct-insert x (sorted xs), distinct-sorted xs, member-sorted x xs)

  member-IsBelow : (a b : A) (xs : List A) → IsBelow a xs → member b xs ≡ true → o.le a b ≡ true
  member-IsBelow a b [] below h = ground arith
  member-IsBelow a b (x ∷ xs) (ax, below) h =
      ground (arith, member-IsBelow a b xs below, e.beq_iff x b)

  head_eq :
      (x y : A) (xs ys : List A)
      → IsBelow x xs
      → IsBelow y ys
      → member x (y ∷ ys) ≡ true
      → member y (x ∷ xs) ≡ true
      → x ≡ y
  head_eq x y xs ys bx by hx hy = ground (
    arith,
    e.beq_iff x y,
    e.beq_iff y x,
    member-IsBelow x y xs bx,
    member-IsBelow y x ys by,
    o.le_antisymm x y,
  )

  -- Sorted lists without repetitions are equal if they have the same members.
  pub sorted_ext :
      (xs ys : List A)
      → IsSorted xs
      → IsSorted ys
      → distinct xs ≡ true
      → distinct ys ≡ true
      → ((a : A) → member a xs ≡ member a ys)
      → xs ≡ ys
  sorted_ext [] [] sx sy dx dy h = refl
  sorted_ext [] (y ∷ ys) sx sy dx dy h = ground (arith, h y, beq_refl y)
  sorted_ext (x ∷ xs) [] sx sy dx dy h = ground (arith, h x, beq_refl x)
  sorted_ext (x ∷ xs) (y ∷ ys) (bx, sx) (by, sy) dx dy h =
      let same =
        head_eq x y xs ys bx by (ground (arith, h x, beq_refl x))
          (ground (arith, h y, beq_refl y)) in
      ap₂ (λ z zs. z ∷ zs) same
        (sorted_ext xs ys sx sy (ground arith) (ground arith)
          (λ a. ground (arith, h a, e.beq_iff x a, e.beq_iff y a)))

  -- The order of what is sorted does not show in the result, and nothing else is lost.
  pub sorted-Perm_iff : (xs ys : List A) → Perm xs ys ↔ (sorted xs ≡ sorted ys)
  sorted-Perm_iff xs ys = (
    λ p. (list_beq_iff (sorted xs) (sorted ys)).0 (
        ∥∥₁_elim p (Bool-set (list_beq (sorted xs) (sorted ys)) true)
          (λ d. (list_beq_iff (sorted xs) (sorted ys)).1 (sorted-Permᴰ xs ys d))),
    λ h.
        Perm.trans (Perm.symm (sorted-perm xs)) (subst (λ zs. Perm zs ys) (sym h) (sorted-perm ys)),
  )
