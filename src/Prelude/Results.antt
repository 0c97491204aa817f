-- ===== src/Prelude/Results.antt =====
-- Python code that returns a value or raises, and the chains of such calls.
use mathlib.Core.Path.{◌≡◌, refl}
use mathlib.Core.Bool.{Bool, true, false}
use mathlib.Core.Logic.{◌⊎◌, inl, inr}

-- `E` is the exception of the component.
pub data Result {ℓ κ} (E : Type ℓ) (A : Type κ) : Type (ℓ ⊔ κ) where
  ok : A → Result E A
  raise : E → Result E A

infixl 5 ◌>>◌
infixl 5 ◌>>=◌
abbrev pub ◌>>=◌ {ℓ κ μ} :
    {X : Type ℓ} {A : Type κ} {B : Type μ} → Result X A → (A → Result X B) → Result X B
raise x >>= next = raise x
ok a >>= next = next a

abbrev pub ◌>>◌ {ℓ κ} : {X : Type ℓ} {B : Type κ} → Result X (Unit {0}) → Result X B → Result X B
first >> rest = first >>= λ _. rest

-- `if test: raise x`
abbrev pub raise_if {ℓ} : {E : Type ℓ} → Bool → E → Result E (Unit {0})
raise_if true x = raise x
raise_if false x = ok tt

-- A chain that returns: its first call returned, and so did the rest.
pub >>=-eq-ok {ℓ κ μ} :
    {X : Type ℓ} {A : Type κ} {B : Type μ} (first : Result X A) (next : A → Result X B) {out : B}
    → (first >>= next) ≡ ok out
    → (mid : A) × (first ≡ ok mid) × (next mid ≡ ok out)
>>=-eq-ok (raise x) next returned = cc
>>=-eq-ok (ok mid) next returned = (mid, refl, returned)

pub Result-cases {ℓ κ} :
    {E : Type ℓ} {A : Type κ} (r : Result E A) → ((a : A) × (r ≡ ok a)) ⊎ ((x : E) × (r ≡ raise x))
Result-cases (ok a) = inl (a, refl)
Result-cases (raise x) = inr (x, refl)
