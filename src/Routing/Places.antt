-- ===== src/Routing/Places.antt =====
-- lib/place.js, class Place: what its configuration says of a key.
use shared_memory_fs.Prelude.{
  ℕ, ◌||◌, ◌≡◌, arith, inl, inr, Option-cases, Bool, false, true, ◌&&◌, not, List, [], ◌∷◌, ◌++◌,
  if◌then◌else◌, Option, none, some,
}
use shared_memory_fs.Prelude.JsMap
use shared_memory_fs.Prelude.JsMap.{JsMap, has-eq-get, is_some}
use shared_memory_fs.Prelude.JsSet.{contains}
use shared_memory_fs.Prelude.Text.{Str, str, str_eq}
use shared_memory_fs.Routing.Keys.{
  slash, starts_with, is_companion_key, dir_of, bytecode_key, compressed_key,
}
use shared_memory_fs.Directories.{PlaceFiles, has_directory}

-- `provider`; `map` is `in_map` here.
pub data Provider : Type 0 where
  sab : Provider
  in_map : Provider
  sea : Provider
  on_disk : Provider
  node_default : Provider

-- `fs.fallback`, absent as `unset`.
pub data Fallback : Type 0 where
  denies : Fallback
  to_disk : Fallback
  unset : Fallback

-- `fs.script`, and the `require` domain.
pub record ScriptDomain : Type 0 where
  pub ext : List Str
  pub compile : Bool

pub record RequireDomain : Type 0 where
  pub ext : Option (List Str)
  pub compile : Bool

pub record FsDomain : Type 0 where
  pub ext : Option (List Str)
  pub writable : Bool
  pub fallback : Fallback
  pub script : Option ScriptDomain
  pub codecs : List Str

-- A projected file: its bytes, none for an entry that is read from disk, and the frozen objects that
-- travel along, as their identities.
pub record Version : Type 0 where
  pub bytes : Option (List ℕ)
  pub size : ℕ
  pub mtime_ms : ℕ
  pub script_options : Option ℕ
  pub meta : Option ℕ

-- `preparers` maps an extension to a callback, as its identity.
pub record Place : Type 0 where
  pub name : Str
  pub root : Str
  pub provider : Provider
  pub is_virtual : Bool
  pub fs : Option FsDomain
  pub require : Option RequireDomain
  pub scan_ext : Option (List Str)
  pub prepare : Option (JsMap Str Str)
  pub preparers : Option (JsMap Str ℕ)
  pub files : PlaceFiles Version

unfoldable pub indexed : Provider → Bool
indexed sab = true
indexed in_map = true
indexed sea = true
indexed on_disk = false
indexed node_default = false

abbrev pub is_sea : Provider → Bool
is_sea sea = true
is_sea _ = false

-- `fileExt` of metautil is the section's parameter.
module _ (file_ext : Str → Str) where
  -- `!list || list.includes(fileExt(key))`
  abbrev listed : Option (List Str) → Str → Bool
  listed none key = true
  listed (some exts) key = contains exts (file_ext key)

  -- `visible('fs', key)`
  unfoldable pub visible : Place → Str → Bool
  visible p key = elim p.fs [
    | none ↦ false
    | some fs ↦ not (is_companion_key key) && listed fs.ext key
  ]

  -- `visible('require', key)`
  unfoldable pub visible_require : Place → Str → Bool
  visible_require p key = elim p.require [
    | none ↦ false
    | some domain ↦ not (is_companion_key key) && listed domain.ext key
  ]

  unfoldable pub scripted : Place → Str → Bool
  scripted p key = elim p.fs [
    | none ↦ false
    | some fs ↦ elim fs.script [
      | none ↦ false
      | some script ↦ not (is_companion_key key) && contains script.ext (file_ext key)
    ]
  ]

  unfoldable pub preparer_of : Place → Str → Option ℕ
  preparer_of p key = elim p.preparers [
    | none ↦ none
    | some fns ↦ if is_companion_key key then none else JsMap.get fns (file_ext key)
  ]

  unfoldable pub cached : Place → Str → Bool
  cached p key = listed p.scan_ext key

  unfoldable pub prepared : Place → Str → Bool
  prepared p key = elim p.prepare [
    | none ↦ false
    | some names ↦ not (is_companion_key key) && JsMap.has names (file_ext key)
  ]

unfoldable pub is_directory : Place → Str → Bool
is_directory p key = elim (dir_of key) [ [] ↦ true | c ∷ s ↦ has_directory p.files (c ∷ s) ]

-- The companion of an encoding for each codec, in order.
unfoldable pub compressed_keys : List Str → Str → List Str
compressed_keys [] key = []
compressed_keys (encoding ∷ codecs) key = compressed_key key encoding ∷ compressed_keys codecs key

unfoldable pub require_keys : Option RequireDomain → Str → List Str
require_keys none key = []
require_keys (some domain) key =
    if domain.compile then bytecode_key key (str "require") ∷ [] else []

unfoldable pub script_keys : Option ScriptDomain → Str → List Str
script_keys none key = []
script_keys (some script) key = if script.compile then bytecode_key key (str "script") ∷ [] else []

unfoldable pub fs_keys : Option FsDomain → Str → List Str
unfolding script_keys compressed_keys
fs_keys none key = []
fs_keys (some fs) key = script_keys fs.script key ++ compressed_keys fs.codecs key

-- Every companion key that the place may hold for a source key.
unfoldable pub companions : Place → Str → List Str
unfolding require_keys fs_keys
companions p key = require_keys p.require key ++ fs_keys p.fs key

-- A source by its key, or by its key without the leading slash; never a companion.
unfoldable pub entry : Place → Str → Option Version
entry p key = if is_companion_key key then none else (elim (JsMap.get p.files.entries key) [
  | some file ↦ some file
  | none ↦ if starts_with key (slash ∷ []) then none else JsMap.get p.files.entries (slash ∷ key)
])

unfoldable pub key_of : Place → Str → Str
key_of p key =
    if JsMap.has p.files.entries key || starts_with key (slash ∷ []) then key else slash ∷ key

-- The bytes of a derivative, or the derivative.
unfoldable pub bytecode : Place → Str → Str → Option (List ℕ)
bytecode p key domain = elim (JsMap.get p.files.entries (bytecode_key key domain)) [
  | none ↦ none
  | some version ↦ version.bytes
]

unfoldable pub compressed : Place → Str → Str → Option Version
compressed p key encoding = JsMap.get p.files.entries (compressed_key key encoding)

-- What a source lookup finds, it finds under the key that keyOf gives.
pub entry-key_of :
    (p : Place) (key : Str) (v : Version)
    → entry p key ≡ some v
    → JsMap.get p.files.entries (key_of p key) ≡ some v
unfolding entry key_of
entry-key_of p key v h = elim (Option-cases (JsMap.get p.files.entries key)) [
  | inl e ↦ ground (arith, has-eq-get p.files.entries key)
  | inr (file, e) ↦ ground (arith, has-eq-get p.files.entries key)
]
