-- ===== src/Routing/Paths.antt =====
-- lib/registry.js, class PlaceRegistry: routing without touching the disk. What it calls of
-- node:path is a record of operations.
use shared_memory_fs.Prelude.{
  ℕ, Bool, false, ◌&&◌, ◌||◌, not, [], ◌∷◌, ◌++◌, none, some, ◌==◌, nat_eq, if◌then◌else◌, map,
}
use shared_memory_fs.Prelude.JsMap
use shared_memory_fs.Prelude.JsMap.{JsMap}
use shared_memory_fs.Prelude.Text.{Str, str, str_eq}
use shared_memory_fs.Routing.Keys.{slash, starts_with, before, from}
use shared_memory_fs.Routing.Places.{Place}

pub record NodePath : Type 0 where
  pub resolve : Str → Str
  pub relative : Str → Str → Str
  pub is_absolute : Str → Bool
  pub windows : Bool

abbrev pub backslash : ℕ
backslash = 92

abbrev pub separator : NodePath → ℕ
separator os = if os.windows then backslash else slash

unfoldable pub to_key : NodePath → Str → Str
to_key os rel = if os.windows then map (λ c. if c == backslash then slash else c) rel else rel

-- The test of `TRAILING`.
unfoldable pub names_directory : NodePath → Str → Bool
names_directory os [] = false
names_directory os (c ∷ []) = c == slash || os.windows && c == backslash
names_directory os (c ∷ d ∷ s) = names_directory os (d ∷ s)

unfoldable pub outside : NodePath → Str → Bool
outside os rel =
    rel == str ".." || starts_with rel (str ".." ++ (separator os ∷ [])) || os.is_absolute rel

pub record PlaceRegistry : Type 0 where
  pub app_root : Str
  pub places : JsMap Str Place

unfoldable pub new_place_registry : NodePath → Str → PlaceRegistry
new_place_registry os app_root = record { app_root = os.resolve app_root; places = [] }

unfoldable pub register_place : PlaceRegistry → Place → PlaceRegistry
register_place r p = record r { places = JsMap.set r.places p.name p }

-- The routing decision: null, appRoot itself, under it but nobody's, or a place and a key.
pub data Route : Type 0 where
  elsewhere : Route
  at_root : Route
  unmanaged : Route
  owned_by : Place → Str → Route

unfoldable pub route_key : PlaceRegistry → Str → Route
route_key r normalized = elim (JsMap.get r.places (before slash normalized)) [
  | none ↦ unmanaged
  | some p ↦ owned_by p (from slash normalized)
]

unfoldable pub route : NodePath → PlaceRegistry → Str → Route
unfolding outside to_key route_key
route os r file_path =
    let rel = os.relative r.app_root (os.resolve file_path) in
    if outside os rel then elsewhere else if rel == [] then at_root else route_key r (to_key os rel)

unfoldable pub encloses : NodePath → PlaceRegistry → Str → Bool
encloses os r file_path =
    let rel = os.relative (os.resolve file_path) r.app_root in rel == [] || not (outside os rel)
