-- ===== src/Directories.antt =====
-- lib/place.js, class PlaceFiles: the projection of a place with the directories that its source
-- keys imply. `entries` is the Map itself, `dirs` is #dirs; an entry may be of any type.
pub mod Chains
pub mod Index
pub mod Below
pub mod Listing
use shared_memory_fs.Prelude.{
  ℕ, zero, suc, Bool, false, true, ◌&&◌, ◌||◌, not, List, [], ◌∷◌, ◌++◌, Option, none, some, ◌==◌,
  nat_eq, if◌then◌else◌, length, ltb,
}
use shared_memory_fs.Prelude.JsMap
use shared_memory_fs.Prelude.JsMap.{JsMap}
use shared_memory_fs.Prelude.JsSet
use shared_memory_fs.Prelude.Text.{Str, str_eq}
use shared_memory_fs.Routing.Keys.{slash, is_companion_key}

abbrev pub Dirs : Type 0
Dirs = JsMap Str (List Str)

pub record PlaceFiles (V : Type 0) : Type 0 where
  pub entries : JsMap Str V
  pub dirs : Dirs

-- The loop of `#link` from a position on: `dir` is key.slice(0, at), `sep` the code unit at `at`, and
-- `name` what follows it up to the position. All the pairs that it hands to `#name`.
unfoldable pub walk : ℕ → Str → Str → Str → List (Str × Str)
walk sep dir name [] = (dir, name) ∷ []
walk sep dir name (c ∷ s) = elim (c == slash) [
  | true ↦ (dir, name) ∷ walk slash (dir ++ (sep ∷ name)) [] s
  | false ↦ walk sep dir (name ++ (c ∷ [])) s
]

-- The search for slashes starts at index 1.
unfoldable pub parts : Str → List (Str × Str)
parts [] = ([], []) ∷ []
parts (c ∷ s) = walk c [] [] s

-- `#name`
unfoldable pub add_name : Dirs → Str → Str → Dirs
add_name dirs dir name = elim (JsMap.get dirs dir) [
  | some names ↦ JsMap.set dirs dir (JsSet.add names name)
  | none ↦ JsMap.set dirs dir (name ∷ [])
]

unfoldable pub add_names : Dirs → List (Str × Str) → Dirs
add_names dirs [] = dirs
add_names dirs ((dir, name) ∷ ps) = add_names (add_name dirs dir name) ps

-- `s.slice(0, s.lastIndexOf('/'))` and `s.slice(s.lastIndexOf('/') + 1)`, where there is a slash.
unfoldable pub last_slash : Str → Option (Str × Str)
last_slash [] = none
last_slash (c ∷ s) = elim (last_slash s) [
  | some (d, n) ↦ some (c ∷ d, n)
  | none ↦ if c == slash then some ([], s) else none
]

-- `s.slice(0, -1)`, of a text without a slash.
unfoldable pub drop_last : Str → Str
drop_last [] = []
drop_last (c ∷ []) = []
drop_last (c ∷ d ∷ s) = c ∷ drop_last (d ∷ s)

unfoldable pub split_child : Str → Str × Str
split_child child = elim (last_slash child) [ some p ↦ p | none ↦ (drop_last child, child) ]

abbrev pub is_nil {ℓ} : {A : Type ℓ} → List A → Bool
is_nil [] = true
is_nil (c ∷ s) = false

-- `#unlink`: the loop takes a step to a shorter key, so the length of the key is fuel enough.
unfoldable pub unlink : {V : Type 0} → ℕ → JsMap Str V → Dirs → Str → Dirs
unlink zero entries dirs child = dirs
unlink (suc fuel) entries dirs child =
    if is_nil child || JsMap.has entries child || JsMap.has dirs child
    then dirs
    else (let (dir, base) = split_child child in
        elim (JsMap.get dirs dir) [
          | none ↦ dirs
          | some names ↦
              if not (JsSet.contains names base)
              then dirs
              else if not (is_nil (JsSet.remove names base))
              then JsMap.set dirs dir (JsSet.remove names base)
              else unlink fuel entries (JsMap.delete dirs dir) dir
        ])

-- Each pair, and after a directory what `go` finds below it.
unfoldable pub expand : (Str → List (Str × Bool)) → List (Str × Bool) → List (Str × Bool)
expand go [] = []
expand go ((key, is_dir) ∷ ks) =
    let rest = expand go ks in (key, is_dir) ∷ (if is_dir then go key ++ rest else rest)

-- The keys that are not directories.
unfoldable pub files_of : List (Str × Bool) → List Str
files_of [] = []
files_of ((key, is_dir) ∷ ks) = if is_dir then files_of ks else key ∷ files_of ks

module _ {V : Type 0} where
  unfoldable pub set_file : PlaceFiles V → Str → V → PlaceFiles V
  unfolding add_names parts
  set_file f key entry = record {
    entries = JsMap.set f.entries key entry;
    dirs =
        if not (is_companion_key key) && not (JsMap.has f.entries key)
        then add_names f.dirs (parts key)
        else f.dirs;
  }

  unfoldable pub delete_file : PlaceFiles V → Str → PlaceFiles V × Bool
  unfolding unlink
  delete_file f key =
      if not (JsMap.has f.entries key)
      then (f, false)
      else (let entries = JsMap.delete f.entries key in
          (
            record {
              entries = entries;
              dirs =
                  if is_companion_key key then f.dirs else unlink (length key) entries f.dirs key;
            },
            true,
          ))

  unfoldable pub clear : PlaceFiles V → PlaceFiles V
  clear f = record { entries = []; dirs = [] }

  abbrev pub has_directory : PlaceFiles V → Str → Bool
  has_directory f dir = JsMap.has f.dirs dir

  -- What `dir` holds directly, with whether it is a directory.
  unfoldable pub children_of : PlaceFiles V → Str → List Str → List (Str × Bool)
  children_of f dir [] = []
  children_of f dir (name ∷ names) =
      let key = dir ++ (slash ∷ name) in
      let rest = children_of f dir names in
      let below = if JsMap.has f.dirs key then (key, true) ∷ rest else rest in
      if JsMap.has f.entries key then (key, false) ∷ below else below

  unfoldable pub children : PlaceFiles V → Str → List (Str × Bool)
  unfolding children_of
  children f dir = elim (JsMap.get f.dirs dir) [ none ↦ [] | some names ↦ children_of f dir names ]

  -- `below`, depth first. A child is longer than its directory and no longer than a key, so the length
  -- of the longest key is fuel enough.
  unfoldable pub below : ℕ → PlaceFiles V → Str → List (Str × Bool)
  unfolding expand children
  below zero f dir = []
  below (suc fuel) f dir = expand (below fuel f) (children f dir)

  unfoldable pub longest : JsMap Str V → ℕ
  longest [] = 0
  longest ((k, v) ∷ es) = let n = longest es in if ltb n (length k) then length k else n

  -- `keysUnder` of a directory's key.
  unfoldable pub keys_below : PlaceFiles V → Str → List Str
  unfolding below files_of
  keys_below f dir = files_of (below (suc (longest f.entries)) f dir)
