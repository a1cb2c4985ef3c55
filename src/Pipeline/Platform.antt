-- ===== src/Pipeline/Platform.antt =====
-- What lib/pipeline.js and lib/map-store.js call of Node and of the application: parameters of the
-- model, in one record.
use shared_memory_fs.Prelude.{ℕ, [], ◌∷◌, List, Option, ◌==◌, nat_eq, ◌||◌, if◌then◌else◌}
use shared_memory_fs.Prelude.Text.{Str, str_eq}
use shared_memory_fs.Routing.Keys.{slash}
use shared_memory_fs.Routing.Places.{Place}

-- `source` of a preparer's result: a string, the raw input itself, other bytes, or neither.
pub data Source : Type 0 where
  text : Str → Source
  raw_input : Source
  octets : List ℕ → Source
  no_source : Source

-- A field of a preparer's result: undefined or null, not an object, an object that structuredClone
-- refuses, or an object, as its identity, with the names that `in` finds in it.
pub data Field : Type 0 where
  absent : Field
  scalar : Field
  unclonable : Field
  object : ℕ → List Str → Field

-- A preparer's result: null or undefined, a thenable, a bare source, neither that nor an object, or
-- `{ source, scriptOptions, meta }`.
pub data Prepared : Type 0 where
  unchanged : Prepared
  thenable : Prepared
  bare : Source → Prepared
  no_object : Prepared
  bundle : Source → Field → Field → Prepared

-- The `file` that a preparer is given.
pub record PreparedFile : Type 0 where
  pub place : Str
  pub key : Str
  pub path : Str
  pub ext : Str
  pub size : ℕ
  pub mtime_ms : ℕ

-- The options of vm.Script: a file name, or the preparer's own.
pub data CompileOptions : Type 0 where
  named : Str → CompileOptions
  given : Option ℕ → CompileOptions

-- `fileExt` of metautil, `path.join`, UTF-8, `Module.wrap`, the cached data of vm.Script (none where the
-- source does not parse) and the preparers.
pub record Platform : Type 0 where
  pub file_ext : Str → Str
  pub path_join : Str → Str → Str
  pub encode : Str → List ℕ
  pub decode : List ℕ → Str
  pub wrap : Str → Str
  pub compile : Str → CompileOptions → Option (List ℕ)
  pub prepare : ℕ → List ℕ → PreparedFile → Prepared

-- `place.pathOf`
unfoldable pub path_of : Platform → Place → Str → Str
path_of os p key = if key == [] || key == slash ∷ [] then p.root else os.path_join p.root key
