-- ===== src/Pipeline/Prepare.antt =====
-- lib/pipeline.js, prepareInput: the canonical content that a preparer makes of raw bytes.
use shared_memory_fs.Prelude.{
  ℕ, List, [], ◌∷◌, ◌++◌, Option, none, some, length, if◌then◌else◌, Result, ok, err, ◌>>=◌,
}
use shared_memory_fs.Prelude.JsSet.{contains}
use shared_memory_fs.Prelude.Text.{Str, str, str_eq}
use shared_memory_fs.Errors.{Failure, type_error, clone_error}
use shared_memory_fs.Routing.Places.{Place}
use shared_memory_fs.Pipeline.Platform.{
  Platform, Prepared, unchanged, thenable, bare, no_object, bundle, Source, text, raw_input, octets,
  no_source, Field, absent, scalar, unclonable, object, path_of,
}

-- The input to publish.
pub record FileInput : Type 0 where
  pub bytes : List ℕ
  pub size : ℕ
  pub mtime_ms : ℕ
  pub script_options : Option ℕ
  pub meta : Option ℕ

-- `{ bytes, stat }`
abbrev pub plain : List ℕ → ℕ → ℕ → FileInput
plain bytes size mtime_ms = record {
  bytes = bytes;
  size = size;
  mtime_ms = mtime_ms;
  script_options = none;
  meta = none;
}

unfoldable pub bytes_of : Platform → Source → List ℕ → Str → Result Failure (List ℕ)
bytes_of os (text s) raw where_text = ok (os.encode s)
bytes_of os raw_input raw where_text = ok raw
bytes_of os (octets bs) raw where_text = ok bs
bytes_of os no_source raw where_text =
    err (type_error (where_text ++ str ": source must be a string or Uint8Array"))

abbrev pub reserved_script_options : List Str
reserved_script_options =
    str "cachedData" ∷ str "produceCachedData" ∷ str "importModuleDynamically" ∷ []

-- The object, a clone of it in the source, with its names.
unfoldable pub clone_field : Field → Str → Str → Result Failure (Option (ℕ × List Str))
clone_field absent where_text name = ok none
clone_field scalar where_text name =
    err (type_error (where_text ++ (str ": " ++ (name ++ str " must be an object"))))
clone_field unclonable where_text name = err clone_error
clone_field (object id names) where_text name = ok (some (id, names))

-- The first of the reserved names that is there.
unfoldable pub refuse_names : List Str → List Str → Str → ℕ → Result Failure (Option ℕ)
refuse_names [] names where_text id = ok (some id)
refuse_names (r ∷ rs) names where_text id =
    let rest = refuse_names rs names where_text id in
    if contains names r
    then err (type_error (where_text ++ (str ": scriptOptions." ++ (r ++ str " is reserved"))))
    else rest

unfoldable pub script_options_of : Field → Str → Result Failure (Option ℕ)
unfolding clone_field refuse_names
script_options_of value where_text = do
  found ← clone_field value where_text (str "scriptOptions")
  elim found [
    | none ↦ ok none
    | some (id, names) ↦ refuse_names reserved_script_options names where_text id
  ]

unfoldable pub meta_of : Field → Str → Result Failure (Option ℕ)
unfolding clone_field
meta_of value where_text = do
  found ← clone_field value where_text (str "meta")
  elim found [ none ↦ ok none | some (id, names) ↦ ok (some id) ]

unfoldable pub prepare_result :
    Platform → Str → List ℕ → ℕ → ℕ → Prepared → Result Failure FileInput
unfolding bytes_of script_options_of meta_of
prepare_result os where_text raw size mtime_ms unchanged = ok (plain raw size mtime_ms)
prepare_result os where_text raw size mtime_ms thenable =
    err (type_error (where_text ++ str ": preparers must be synchronous"))
prepare_result os where_text raw size mtime_ms no_object =
    err (type_error (where_text ++ str ": result must be a string, a Uint8Array or { source }"))
prepare_result os where_text raw size mtime_ms (bare source) = do
  bytes ← bytes_of os source raw where_text
  ok (plain bytes (length bytes) mtime_ms)
prepare_result os where_text raw size mtime_ms (bundle source options meta) = do
  bytes ← bytes_of os source raw where_text
  script_options ← script_options_of options where_text
  found ← meta_of meta where_text
  ok (record {
    bytes = bytes;
    size = length bytes;
    mtime_ms = mtime_ms;
    script_options = script_options;
    meta = found;
  })

unfoldable pub prepare_input :
    Platform → Place → Str → ℕ → ℕ → List ℕ → ℕ → Result Failure FileInput
unfolding prepare_result path_of
prepare_input os p key size mtime_ms raw fn =
    let where_text =
      str "[vfs] place \"" ++ (p.name ++ (str "\": prepare \"" ++ (key ++ str "\""))) in
    prepare_result os where_text raw size mtime_ms (
      os.prepare fn raw (record {
        place = p.name;
        key = key;
        path = path_of os p key;
        ext = os.file_ext key;
        size = size;
        mtime_ms = mtime_ms;
      }))
