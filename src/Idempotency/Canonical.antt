-- ===== src/Idempotency/Canonical.antt =====
-- What the parts of a payload of app/kernel/idempotency.py keep of the lists they are made from.
use mathlib.Core.List.{Perm}
use dataforge_ai_ml_service.Prelude.{
  Eq, Bool, true, false, ◌&&◌, Option, none, some, List, [], ◌∷◌, nat_eq, list_eq, list_beq_iff,
  ◌==◌, if◌then◌else◌, member, distinct, keep, ordered_unique, member-keep, member-unique_from,
  distinct-unique_from, ◌≡◌, ◌↔◌, refl, sym, ap, ◌∙◌, arith, Option-cases, inl, inr,
}
use dataforge_ai_ml_service.Prelude.Dict
use dataforge_ai_ml_service.Prelude.Dict.{Dict, keys}
use dataforge_ai_ml_service.Prelude.Sorting.{nat_order, list_order, sorted, sorted-IsSorted}
use dataforge_ai_ml_service.Prelude.Sorting.Sets.{
  member-sorted, distinct-sorted, sorted_ext, sorted-Perm_iff,
}
use dataforge_ai_ml_service.Prelude.Texts.{Text}
use dataforge_ai_ml_service.Json.{Json, str, arr, Fields, end, field, texts}
use dataforge_ai_ml_service.Idempotency.{
  PluginVersionFootprint, is_not_empty, sorted_unique, footprint_key, footprint_key_injective,
  footprint_order, footprint_items, normalize_plugin_versions, entries_of, ordered_dict, hashes,
  versions,
}

-- The same hashes, whatever their order, their repetitions and the empty ones.
abbrev pub SameHashes : List Text → List Text → Type 0
SameHashes xs ys = (h : Text) → is_not_empty h ≡ true → member h xs ≡ member h ys

member-sorted_unique :
    (h : Text) (xs : List Text) → member h (sorted_unique xs) ≡ (is_not_empty h && member h xs)
unfolding sorted_unique
member-sorted_unique h xs = ground (
  arith,
  member-sorted h (ordered_unique (keep is_not_empty xs)),
  member-unique_from h [] (keep is_not_empty xs),
  member-keep is_not_empty h xs,
)

sorted_unique-distinct : (zs : List Text) → distinct (sorted_unique zs) ≡ true
unfolding sorted_unique
sorted_unique-distinct zs =
    distinct-sorted (ordered_unique (keep is_not_empty zs))
    ∙ distinct-unique_from [] (keep is_not_empty zs)

sorted_unique_ext : (xs ys : List Text) → SameHashes xs ys → sorted_unique xs ≡ sorted_unique ys
unfolding sorted_unique
sorted_unique_ext xs ys same =
    sorted_ext (sorted_unique xs) (sorted_unique ys)
      (sorted-IsSorted (ordered_unique (keep is_not_empty xs)))
      (sorted-IsSorted (ordered_unique (keep is_not_empty ys))) (sorted_unique-distinct xs)
      (sorted_unique-distinct ys)
      (λ h. ground (arith, member-sorted_unique h xs, member-sorted_unique h ys, same h))

sorted_unique_iff : (xs ys : List Text) → (sorted_unique xs ≡ sorted_unique ys) ↔ SameHashes xs ys
sorted_unique_iff xs ys = (
  λ same h some_hash.
      ground (arith, member-sorted_unique h xs, member-sorted_unique h ys, ap (member h) same),
  λ same. sorted_unique_ext xs ys same,
)

pub texts_injective : (xs ys : List Text) → texts xs ≡ texts ys → xs ≡ ys
texts_injective [] [] h = refl
texts_injective [] (y ∷ ys) h = cc h
texts_injective (x ∷ xs) [] h = cc h
texts_injective (x ∷ xs) (y ∷ ys) h = ground (arith, texts_injective xs ys)

footprint_items_injective :
    (fs gs : List PluginVersionFootprint) → footprint_items fs ≡ footprint_items gs → fs ≡ gs
footprint_items_injective [] [] h = refl
footprint_items_injective [] (g ∷ gs) h = cc h
footprint_items_injective (f ∷ fs) [] h = cc h
footprint_items_injective (f ∷ fs) (g ∷ gs) h =
    ground (arith, footprint_items_injective fs gs, footprint_key_injective f g)

instance abbrev footprint_eq : Eq PluginVersionFootprint
footprint_eq = record {
  beq = λ f g. footprint_key f == footprint_key g;
  beq_iff = λ f g. (
    λ h. footprint_key_injective f g ((list_beq_iff (footprint_key f) (footprint_key g)).0 h),
    λ h. (list_beq_iff (footprint_key f) (footprint_key g)).1 (ap footprint_key h),
  );
}

normalize_plugin_versions_iff :
    (fs gs : List PluginVersionFootprint)
    → (normalize_plugin_versions fs ≡ normalize_plugin_versions gs) ↔ Perm fs gs
unfolding normalize_plugin_versions
normalize_plugin_versions_iff fs gs = ((sorted-Perm_iff fs gs).1, (sorted-Perm_iff fs gs).0)

-- The same value, or none, under each key.
abbrev pub SamePolicies : Dict Text Text → Dict Text Text → Type 0
SamePolicies d d' = (k : Text) → Dict.get d k ≡ Dict.get d' k

abbrev is_some {ℓ} : {A : Type ℓ} → Option A → Bool
is_some none = false
is_some (some a) = true

member-keys : (d : Dict Text Text) (k : Text) → member k (keys d) ≡ is_some (Dict.get d k)
unfolding Dict.get
member-keys [] k = refl
member-keys ((j, v) ∷ d) k = ground (arith, member-keys d k)

abbrev field_get : Fields → Text → Option Json
field_get end k = none
field_get (field j v fs) k = let rest = field_get fs k in if j == k then some v else rest

field_get-entries_of :
    (d : Dict Text Text) (ks : List Text) (k : Text) (v : Text)
    → (field_get (entries_of d ks) k ≡ some (str v))
      ↔ ((member k ks ≡ true) × (Dict.get d k ≡ some v))
field_get-entries_of d [] k v = ground arith
field_get-entries_of d (j ∷ ks) k v = elim (Option-cases (Dict.get d j)) [
  | inl missing ↦
      rw (missing, entries_of) (ground (arith, field_get-entries_of d ks k v, list_beq_iff j k))
  | inr (w, found) ↦
      rw (found, entries_of) (ground (arith, field_get-entries_of d ks k v, list_beq_iff j k))
]

entries_of_ext :
    (d d' : Dict Text Text) (ks : List Text)
    → SamePolicies d d'
    → entries_of d ks ≡ entries_of d' ks
entries_of_ext d d' [] same = refl
entries_of_ext d d' (k ∷ ks) same =
    rw (same k, entries_of) (ground (arith, entries_of_ext d d' ks same))

keys_same :
    (d d' : Dict Text Text)
    → distinct (keys d) ≡ true
    → distinct (keys d') ≡ true
    → SamePolicies d d'
    → sorted (keys d) ≡ sorted (keys d')
keys_same d d' u u' same =
    sorted_ext (sorted (keys d)) (sorted (keys d')) (sorted-IsSorted (keys d))
      (sorted-IsSorted (keys d')) (distinct-sorted (keys d) ∙ u) (distinct-sorted (keys d') ∙ u')
      (λ k.
        member-sorted k (keys d)
        ∙ member-keys d k
        ∙ ap is_some (same k)
        ∙ sym (member-keys d' k)
        ∙ sym (member-sorted k (keys d')))

ordered_dict_finds :
    (d : Dict Text Text) (k v : Text)
    → (field_get (ordered_dict d) k ≡ some (str v)) ↔ (Dict.get d k ≡ some v)
unfolding ordered_dict
ordered_dict_finds d k v =
    let found = field_get-entries_of d (sorted (keys d)) k v in
    (
      λ h. (found.0 h).1,
      λ h. found.1 (member-sorted k (keys d) ∙ member-keys d k ∙ ap is_some h, h),
    )

-- Two options are equal if the same values are found in both.
option_ext : (a b : Option Text) → ((v : Text) → (a ≡ some v) ↔ (b ≡ some v)) → a ≡ b
option_ext none none h = refl
option_ext none (some w) h = (h w).1 refl
option_ext (some w) b h = sym ((h w).0 refl)

pub ordered_dict_iff :
    (d d' : Dict Text Text)
    → distinct (keys d) ≡ true
    → distinct (keys d') ≡ true
    → (ordered_dict d ≡ ordered_dict d') ↔ SamePolicies d d'
unfolding ordered_dict
ordered_dict_iff d d' u u' = (
  λ h k. option_ext (Dict.get d k) (Dict.get d' k) (λ v. (
    λ there.
        (ordered_dict_finds d' k v).0
          (ap (λ fs. field_get fs k) (sym h) ∙ (ordered_dict_finds d k v).1 there),
    λ there.
        (ordered_dict_finds d k v).0
          (ap (λ fs. field_get fs k) h ∙ (ordered_dict_finds d' k v).1 there),
  )),
  λ same.
      ap (entries_of d) (keys_same d d' u u' same) ∙ entries_of_ext d d' (sorted (keys d')) same,
)

pub hashes_iff : (xs ys : List Text) → (hashes xs ≡ hashes ys) ↔ SameHashes xs ys
hashes_iff xs ys = (
  λ h. (sorted_unique_iff xs ys).0 (texts_injective (sorted_unique xs) (sorted_unique ys) (cc h)),
  λ same. ap (λ zs. arr (texts zs)) ((sorted_unique_iff xs ys).1 same),
)

pub versions_iff : (fs gs : List PluginVersionFootprint) → (versions fs ≡ versions gs) ↔ Perm fs gs
versions_iff fs gs = (
  λ h. (normalize_plugin_versions_iff fs gs).0 (
      footprint_items_injective (normalize_plugin_versions fs) (normalize_plugin_versions gs)
        (cc h)),
  λ p. ap (λ zs. arr (footprint_items zs)) ((normalize_plugin_versions_iff fs gs).1 p),
)
