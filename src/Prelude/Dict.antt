-- ===== src/Prelude/Dict.antt =====
-- Python's `dict`: an association list in insertion order, with one entry for each key.
use mathlib.Core.Path.{◌≡◌, refl}
use mathlib.Core.Option.{Option, none, some}
use mathlib.Core.List.{List, [], ◌∷◌}
use native.Mathlib.Omega.{arith}
use dataforge_ai_ml_service.Prelude.Tests.{if◌then◌else◌, Bool-cases}
use dataforge_ai_ml_service.Prelude.Equality.{Eq, ◌==◌}
use dataforge_ai_ml_service.Prelude.Lists.{member, distinct}
use mathlib.Core.Bool.{true, ◌||◌}
use mathlib.Core.Logic.{inl, inr}

abbrev pub Dict {ℓ κ} : Type ℓ → Type κ → Type (ℓ ⊔ κ)
Dict K V = List (K × V)

module _ {ℓ κ} {K : Type ℓ} {V : Type κ} ⦃e : Eq K⦄ where
  -- `d.get(k)`
  unfoldable pub get : Dict K V → K → Option V
  get [] k = none
  get ((j, v) ∷ d) k = if j == k then some v else get d k

  -- `d[k] = v`: an old key keeps its place, a new one goes to the end.
  unfoldable pub put : Dict K V → K → V → Dict K V
  put [] k v = (k, v) ∷ []
  put ((j, w) ∷ d) k v = if j == k then (j, v) ∷ d else (j, w) ∷ put d k v

  -- `d.pop(k, None)`
  unfoldable pub remove : Dict K V → K → Dict K V
  remove [] k = []
  remove ((j, w) ∷ d) k = let rest = remove d k in if j == k then rest else (j, w) ∷ rest

  abbrev pub keys : Dict K V → List K
  keys [] = []
  keys ((k, v) ∷ d) = k ∷ keys d

  -- `{key(v): v for v in values}`, onto what `d` already has
  unfoldable pub index_from : (V → K) → Dict K V → List V → Dict K V
  index_from key d [] = d
  index_from key d (v ∷ vs) = index_from key (put d (key v) v) vs

  pub get-put :
      (d : Dict K V) (k j : K) (v : V) → get (put d k v) j ≡ (if k == j then some v else get d j)
  unfolding get put
  get-put [] k j v = refl
  get-put ((i, w) ∷ d) k j v =
      ground (arith, get-put d k j v, e.beq_iff i k, e.beq_iff i j, e.beq_iff k j)

  pub get-remove :
      (d : Dict K V) (k j : K) → get (remove d k) j ≡ (if k == j then none else get d j)
  unfolding get remove
  get-remove [] k j = ground arith
  get-remove ((i, w) ∷ d) k j =
      ground (arith, get-remove d k j, e.beq_iff i k, e.beq_iff i j, e.beq_iff k j)

  -- An index finds a value only under its own key.
  pub index_from_key :
      (key : V → K) (d : Dict K V) (vs : List V)
      → ((j : K) (w : V) → get d j ≡ some w → key w ≡ j)
      → (k : K) (v : V) → get (index_from key d vs) k ≡ some v
      → key v ≡ k
  unfolding index_from
  index_from_key key d [] fits k v h = fits k v h
  index_from_key key d (x ∷ vs) fits k v h =
      index_from_key key (put d (key x) x) vs
        (λ j w there. ground (arith, get-put d (key x) j x, fits j w, e.beq_iff (key x) j)) k v h

  pub get-index :
      (key : V → K) (vs : List V) (k : K) (v : V)
      → get (index_from key [] vs) k ≡ some v
      → key v ≡ k
  unfolding get
  get-index key vs k v h = index_from_key key [] vs (λ j w there. cc there) k v h

  -- A key that is put is there, and the others are as before.
  pub keys-put :
      (d : Dict K V) (k : K) (v : V) (s : K)
      → member s (keys (put d k v)) ≡ ((k == s) || member s (keys d))
  unfolding put
  keys-put [] k v s = refl
  keys-put ((j, w) ∷ d) k v s =
      ground (arith, keys-put d k v s, e.beq_iff j k, e.beq_iff j s, e.beq_iff k s)

  pub distinct-put :
      (d : Dict K V) (k : K) (v : V) → distinct (keys d) ≡ true → distinct (keys (put d k v)) ≡ true
  unfolding put
  distinct-put [] k v h = refl
  distinct-put ((j, w) ∷ d) k v h =
      ground (arith, distinct-put d k v, keys-put d k v j, e.beq_iff j k, e.beq_iff k j)

  -- A key that is there has a value.
  pub get-member : (d : Dict K V) (k : K) → member k (keys d) ≡ true → (v : V) × (get d k ≡ some v)
  unfolding get
  get-member [] k h = cc h
  get-member ((j, w) ∷ d) k h = elim (Bool-cases (j == k)) [
    | inl same ↦ (w, ground arith)
    | inr other ↦ let (v, found) = get-member d k (ground (arith)) in (v, ground (arith))
  ]
