-- ===== src/Prelude/Sorting.antt =====
-- Python's `sorted` by a key's order, as an insertion sort: the stable sorting function is unique.
pub mod Sets
use Prim.Native.Nat.{ℕ}
use mathlib.Core.Path.{◌≡◌, refl, ap₂, ◌∙◌}
use mathlib.Core.Logic.{inl, inr}
use mathlib.Core.Bool.{Bool, true, false}
use mathlib.Core.List.{List, [], ◌∷◌, Perm, Permᴰ}
use mathlib.Core.List.Perm
use native.Mathlib.Omega.{arith}
use dataforge_ai_ml_service.Prelude.Tests.{if◌then◌else◌, leb, Bool-cases}
use dataforge_ai_ml_service.Prelude.Equality.{Eq, ◌==◌, nat_eq}

-- A total order on the values that are sorted.
pub record Order {ℓ} (A : Type ℓ) : Type ℓ where
  pub le : A → A → Bool
  pub le_total : (a b : A) → le a b ≡ false → le b a ≡ true
  pub le_trans : (a b c : A) → le a b ≡ true → le b c ≡ true → le a c ≡ true
  pub le_antisymm : (a b : A) → le a b ≡ true → le b a ≡ true → a ≡ b

module _ {ℓ} {A : Type ℓ} ⦃o : Order A⦄ where
  unfoldable pub insert : A → List A → List A
  insert a [] = a ∷ []
  insert a (x ∷ xs) = let rest = insert a xs in if o.le a x then a ∷ x ∷ xs else x ∷ rest

  unfoldable pub sorted : List A → List A
  unfolding insert
  sorted [] = []
  sorted (x ∷ xs) = insert x (sorted xs)

  -- Each element stands before what it is at most.
  abbrev pub IsBelow : A → List A → Type 0
  IsBelow a [] = Unit
  IsBelow a (x ∷ xs) = (o.le a x ≡ true) × IsBelow a xs

  abbrev pub IsSorted : List A → Type 0
  IsSorted [] = Unit
  IsSorted (x ∷ xs) = IsBelow x xs × IsSorted xs

  IsBelow-trans : (a b : A) (xs : List A) → o.le a b ≡ true → IsBelow b xs → IsBelow a xs
  IsBelow-trans a b [] h below = tt
  IsBelow-trans a b (x ∷ xs) h (bx, below) = (o.le_trans a b x h bx, IsBelow-trans a b xs h below)

  IsBelow-insert :
      (a b : A) (xs : List A) → o.le a b ≡ true → IsBelow a xs → IsBelow a (insert b xs)
  unfolding insert
  IsBelow-insert a b [] h below = (h, tt)
  IsBelow-insert a b (x ∷ xs) h (ax, below) = elim (Bool-cases (o.le b x)) [
    | inl first ↦ rw first (h, (ax, below))
    | inr later ↦ rw later (ax, IsBelow-insert a b xs h below)
  ]

  insert-IsSorted : (a : A) (xs : List A) → IsSorted xs → IsSorted (insert a xs)
  unfolding insert
  insert-IsSorted a [] h = (tt, tt)
  insert-IsSorted a (x ∷ xs) (below, h) = elim (Bool-cases (o.le a x)) [
    | inl first ↦ rw first ((first, IsBelow-trans a x xs first below), (below, h))
    | inr later ↦
        rw later (IsBelow-insert x a xs (o.le_total a x later) below, insert-IsSorted a xs h)
  ]

  pub sorted-IsSorted : (xs : List A) → IsSorted (sorted xs)
  unfolding sorted
  sorted-IsSorted [] = tt
  sorted-IsSorted (x ∷ xs) = insert-IsSorted x (sorted xs) (sorted-IsSorted xs)

  insert-perm : (a : A) (xs : List A) → Perm (insert a xs) (a ∷ xs)
  unfolding insert
  insert-perm a [] = Perm.refl _
  insert-perm a (x ∷ xs) = elim (Bool-cases (o.le a x)) [
    | inl first ↦ rw first (Perm.refl _)
    | inr later ↦ rw later (Perm.trans (Perm.cons x (insert-perm a xs)) (Perm.swap a x xs))
  ]

  pub sorted-perm : (xs : List A) → Perm (sorted xs) xs
  unfolding sorted
  sorted-perm [] = Perm.refl _
  sorted-perm (x ∷ xs) = Perm.trans (insert-perm x (sorted xs)) (Perm.cons x (sorted-perm xs))

  -- Two values go in in either order.
  pub insert_comm : (a b : A) (xs : List A) → insert a (insert b xs) ≡ insert b (insert a xs)
  unfolding insert
  insert_comm a b [] = ground (arith, o.le_total a b, o.le_antisymm a b, o.le_total b a)
  insert_comm a b (x ∷ xs) = ground (
    arith,
    insert_comm a b xs,
    o.le_total a b,
    o.le_antisymm a b,
    o.le_total b a,
    o.le_total a x,
    o.le_total b x,
    o.le_trans a b x,
    o.le_trans b a x,
    o.le_trans a x b,
    o.le_trans b x a,
    o.le_antisymm b a,
  )

  -- The order of what is sorted does not show in the result.
  pub sorted-Permᴰ : (xs ys : List A) → Permᴰ xs ys → sorted xs ≡ sorted ys
  unfolding sorted
  sorted-Permᴰ xs ys Permᴰ.nil = refl
  sorted-Permᴰ _ _ (Permᴰ.cons {l₁ = l} {l₂ = m} e p) = ap₂ insert e (sorted-Permᴰ l m p)
  sorted-Permᴰ _ _ (Permᴰ.swap {a = a} {b = b} {l = l} e f) =
      insert_comm a b (sorted l) ∙ ap₂ (λ x y. insert x (insert y (sorted l))) f e
  sorted-Permᴰ xs ys (Permᴰ.trans {l₂ = zs} p q) = sorted-Permᴰ xs zs p ∙ sorted-Permᴰ zs ys q

  sorted-head : (a : A) (xs : List A) → IsBelow a xs → sorted xs ≡ xs → sorted (a ∷ xs) ≡ a ∷ xs
  unfolding sorted insert
  sorted-head a [] h e = refl
  sorted-head a (x ∷ xs) h e = rw e (ground arith)

  -- A sorted list stays as it is.
  pub sorted_fixed : (xs : List A) → IsSorted xs → sorted xs ≡ xs
  unfolding sorted
  sorted_fixed [] h = refl
  sorted_fixed (x ∷ xs) (below, h) = sorted-head x xs below (sorted_fixed xs h)

-- Python compares texts by code points, from the left.
module _ {ℓ} {A : Type ℓ} ⦃o : Order A⦄ ⦃e : Eq A⦄ where
  abbrev pub lex_le : List A → List A → Bool
  lex_le [] ys = true
  lex_le (x ∷ xs) [] = false
  lex_le (x ∷ xs) (y ∷ ys) = let rest = lex_le xs ys in if x == y then rest else o.le x y

  pub lex_total : (a b : List A) → lex_le a b ≡ false → lex_le b a ≡ true
  lex_total [] b h = ground arith
  lex_total (x ∷ xs) [] h = refl
  lex_total (x ∷ xs) (y ∷ ys) h =
      ground (arith, lex_total xs ys, e.beq_iff x y, e.beq_iff y x, o.le_total x y)

  pub lex_trans : (a b c : List A) → lex_le a b ≡ true → lex_le b c ≡ true → lex_le a c ≡ true
  lex_trans [] b c h k = refl
  lex_trans (x ∷ xs) [] c h k = ground arith
  lex_trans (x ∷ xs) (y ∷ ys) [] h k = k
  lex_trans (x ∷ xs) (y ∷ ys) (z ∷ zs) h k = ground (
    arith,
    lex_trans xs ys zs,
    e.beq_iff x y,
    e.beq_iff y z,
    e.beq_iff x z,
    o.le_trans x y z,
    o.le_antisymm x y,
    o.le_antisymm y z,
  )

  pub lex_antisymm : (a b : List A) → lex_le a b ≡ true → lex_le b a ≡ true → a ≡ b
  lex_antisymm [] [] h k = refl
  lex_antisymm [] (y ∷ ys) h k = ground arith
  lex_antisymm (x ∷ xs) [] h k = ground arith
  lex_antisymm (x ∷ xs) (y ∷ ys) h k =
      ground (arith, lex_antisymm xs ys, e.beq_iff x y, e.beq_iff y x, o.le_antisymm x y)

pub leb_total : (a b : ℕ) → leb a b ≡ false → leb b a ≡ true
leb_total a b h = ground arith

pub leb_trans : (a b c : ℕ) → leb a b ≡ true → leb b c ≡ true → leb a c ≡ true
leb_trans a b c h k = ground arith

pub leb_antisymm : (a b : ℕ) → leb a b ≡ true → leb b a ≡ true → a ≡ b
leb_antisymm a b h k = ground arith

instance abbrev pub nat_order : Order ℕ
nat_order = record {
  le = leb;
  le_total = leb_total;
  le_trans = leb_trans;
  le_antisymm = leb_antisymm;
}

instance abbrev pub list_order {ℓ} : {A : Type ℓ} ⦃o : Order A⦄ ⦃e : Eq A⦄ → Order (List A)
list_order = record {
  le = lex_le;
  le_total = lex_total;
  le_trans = lex_trans;
  le_antisymm = lex_antisymm;
}
