-- ===== src/Plugins/Registry/Lookup.antt =====
-- The index of app/plugin_sdk/manifest.py finds the manifest of each plugin id.
use dataforge_ai_ml_service.Prelude.{
  true, false, Option, none, some, List, [], ◌∷◌, String, if◌then◌else◌, ok, map, distinct, member,
  string_eq, ◌==◌, ◌≡◌, refl, arith, Bool-cases, inl, inr,
}
use text.Mathlib.TextEquality.{eq_iff}
use dataforge_ai_ml_service.Prelude.Dict
use dataforge_ai_ml_service.Prelude.Dict.{Dict, get-put}
use dataforge_ai_ml_service.Plugins.Manifest.{PluginManifest}
use dataforge_ai_ml_service.Plugins.Registry.{CapabilityRegistry, capability_registry}

-- The first manifest with the id.
unfoldable pub declared : List PluginManifest → String → Option PluginManifest
declared [] id = none
declared (m ∷ ms) id = if m.plugin_id == id then some m else declared ms id

abbrev or_else {ℓ} : {A : Type ℓ} → Option A → Option A → Option A
or_else (some a) b = some a
or_else none b = b

or_else-none {ℓ} : {A : Type ℓ} (a : Option A) → or_else a none ≡ a
or_else-none none = refl
or_else-none (some a) = refl

abbrev ids : List PluginManifest → List String
ids ms = map (λ m. m.plugin_id) ms

declared-not_member :
    (ms : List PluginManifest) (id : String) → member id (ids ms) ≡ false → declared ms id ≡ none
unfolding declared
declared-not_member [] id h = refl
declared-not_member (m ∷ ms) id h = ground (arith, declared-not_member ms id)

get-index_from :
    (d : Dict String PluginManifest) (ms : List PluginManifest) (id : String)
    → distinct (ids ms) ≡ true
    → Dict.get (Dict.index_from (λ m. m.plugin_id) d ms) id
      ≡ or_else (declared ms id) (Dict.get d id)
unfolding declared Dict.index_from
get-index_from d [] id h = refl
get-index_from d (m ∷ ms) id h = ground (
  arith,
  get-index_from (Dict.put d m.plugin_id m) ms id,
  get-put d m.plugin_id id m,
  declared-not_member ms id,
  eq_iff m.plugin_id id,
)

-- A registry that was built looks up the first manifest of each id, and its ids are distinct.
pub get-capability_registry :
    (ms : List PluginManifest) {r : CapabilityRegistry} (id : String)
    → capability_registry ms ≡ ok r
    → (Dict.get r.by_plugin_id id ≡ declared ms id) × (r.manifests ≡ ms)
unfolding capability_registry Dict.get
get-capability_registry ms id h = elim (Bool-cases (distinct (ids ms))) [
  | inl d ↦
      let found = get-index_from [] ms id d in
      (ground (arith, found, or_else-none (declared ms id)), ground arith)
  | inr shared ↦ ground arith
]
