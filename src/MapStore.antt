-- ===== src/MapStore.antt =====
-- lib/map-store.js, class MapStore: the mutations of a place that one thread holds in a Map. An operation
-- gives the place that it leaves, or what it throws; nothing is changed before a throw.
pub mod Keeping
pub mod Placed
pub mod Tree
pub mod Moved
pub mod Steps
pub mod Contents
pub mod Operations
use shared_memory_fs.Prelude.{
  ℕ, Bool, false, true, ◌&&◌, not, List, [], ◌∷◌, ◌++◌, Option, none, some, length, if◌then◌else◌,
  ◌==◌, Result, ok, err, ◌>>=◌, ◌>>◌, pass,
}
use shared_memory_fs.Prelude.JsMap
use shared_memory_fs.Prelude.JsMap.{is_some}
use shared_memory_fs.Prelude.Text.{Str, str, str_eq}
use shared_memory_fs.Errors.{
  Errno, enotdir, eisdir, enoent, enotsup, Failure, fs_failure, fs_error, system_failure,
  is_directory_error,
}
use shared_memory_fs.Routing.Places.{
  Place, Version, prepared, preparer_of, is_directory, companions,
}
use shared_memory_fs.Directories.{PlaceFiles, set_file, delete_file, is_nil}
use shared_memory_fs.Pipeline.Platform.{Platform, path_of}
use shared_memory_fs.Pipeline.Prepare.{FileInput, plain, prepare_input}
use shared_memory_fs.Pipeline.Bytecode.{Flavor, for_require, for_script, Compiled, bytecode_for}
use shared_memory_fs.Pipeline.Hierarchy.{check_hierarchy, check_exclusive, check_mkdir, absent_code}
use shared_memory_fs.Pipeline.Subtree.{keys_under, subtree_moves, rename_failure}

-- The changes of the projection that the operations make.
unfoldable pub delete_all : PlaceFiles Version → List Str → PlaceFiles Version
delete_all f [] = f
delete_all f (key ∷ keys) = delete_all (delete_file f key).0 keys

unfoldable pub set_all : PlaceFiles Version → List (Str × Version) → PlaceFiles Version
set_all f [] = f
set_all f ((key, version) ∷ entries) = set_all (set_file f key version) entries

-- The codes that compiled, as entries.
unfoldable pub code_entries : ℕ → List Compiled → List (Str × Version)
code_entries mtime_ms [] = []
code_entries mtime_ms (code ∷ codes) =
    let rest = code_entries mtime_ms codes in
    elim code.bytes [
      | none ↦ rest
      | some bytes ↦
          (
            code.key,
            record {
              bytes = some bytes;
              size = length bytes;
              mtime_ms = mtime_ms;
              script_options = none;
              meta = none;
            },
          )
          ∷ rest
    ]

-- A script flavor that does not compile.
unfoldable pub script_fails : List Compiled → Bool
script_fails [] = false
script_fails (code ∷ codes) =
    let rest = script_fails codes in
    elim code.bytes [
      | some bytes ↦ rest
      | none ↦ elim code.flavor [ for_script ↦ true | for_require ↦ rest ]
    ]

abbrev pub version_of : FileInput → Version
version_of input = record {
  bytes = some input.bytes;
  size = input.size;
  mtime_ms = input.mtime_ms;
  script_options = input.script_options;
  meta = input.meta;
}

-- The bytes of an entry: a map place holds them all.
abbrev pub content : Version → List ℕ
content version = elim version.bytes [ none ↦ [] | some bytes ↦ bytes ]

abbrev pub joined : Option Version → List ℕ → List ℕ
joined none chunk = chunk
joined (some version) chunk = content version ++ chunk

-- `#moveTree`: the entries of the moved keys, under the new ones. A plan has keys that are there only.
unfoldable pub moved_entries : PlaceFiles Version → List (Str × Str) → List (Str × Version)
moved_entries f [] = []
moved_entries f ((key, new_key) ∷ moves) =
    let rest = moved_entries f moves in
    elim (JsMap.get f.entries key) [ none ↦ rest | some version ↦ (new_key, version) ∷ rest ]

unfoldable pub old_keys : List (Str × Str) → List Str
old_keys [] = []
old_keys ((key, new_key) ∷ moves) = key ∷ old_keys moves

module _ (os : Platform) where
  -- An error of a key.
  abbrev pub failure : Place → Str → Str → Option Str → Errno → Failure
  failure p key syscall detail code =
      fs_failure (fs_error code syscall (some (path_of os p key)) detail none)

  -- `#input`
  unfoldable pub input_of : Place → Str → List ℕ → Str → ℕ → Result Failure FileInput
  unfolding prepared preparer_of prepare_input
  input_of p key raw syscall mtime_ms =
      if not (prepared os.file_ext p key)
      then ok (plain raw (length raw) mtime_ms)
      else (elim (preparer_of os.file_ext p key) [
        | none ↦ err (failure p key syscall (some (missing p key)) enotsup)
        | some fn ↦ prepare_input os p key (length raw) mtime_ms raw fn
      ])
    where
      -- The name of the preparer of the key.
      name : Place → Str → Str
      name p key = elim p.prepare [
        | none ↦ []
        | some names ↦ elim (JsMap.get names (os.file_ext key)) [ none ↦ [] | some n ↦ n ]
      ]

      missing : Place → Str → Str
      missing p key =
          str "preparer \""
          ++ (name p key ++ str "\" is not registered in this thread (attach({ preparers }))")

  unfoldable pub publish : Place → Str → FileInput → Result Failure Place
  unfolding bytecode_for set_file delete_all companions set_all code_entries script_fails
  publish p key input =
      let codes = bytecode_for os p key input.bytes input.script_options in
      if script_fails codes
      then err (failure p key (str "open") (some (str "source does not compile")) enotsup)
      else ok (record p {
        files =
            set_all (delete_all (set_file p.files key (version_of input)) (companions p key))
              (code_entries input.mtime_ms codes);
      })

  -- The place without the source and its companions, and whether the source was there.
  unfoldable pub remove : Place → Str → Place × Bool
  unfolding delete_file delete_all companions
  remove p key =
      let (files, found) = delete_file p.files key in
      if found then (record p { files = delete_all files (companions p key) }, true) else (p, false)

  unfoldable pub remove_all : Place → List Str → Place
  remove_all p [] = p
  remove_all p (key ∷ keys) = remove_all (remove p key).0 keys

  -- `now` is what Date.now() gives.
  unfoldable pub write : ℕ → Place → Str → List ℕ → Bool → Result Failure Place
  unfolding check_exclusive check_hierarchy input_of publish
  write now p key bytes exclusive = do
    pass (if exclusive then check_exclusive p key (failure p key (str "open") none) else none)
    pass (check_hierarchy p key (failure p key (str "open") none) [])
    input ← input_of p key bytes (str "open") now
    publish p key input

  unfoldable pub append : ℕ → Place → Str → List ℕ → Result Failure Place
  unfolding prepared check_hierarchy input_of publish
  append now p key bytes =
      if prepared os.file_ext p key
      then err (failure p key (str "open") (some (str "prepared source")) enotsup)
      else (do
        pass (check_hierarchy p key (failure p key (str "open") none) [])
        input ← input_of p key (joined (JsMap.get p.files.entries key) bytes) (str "open") now
        publish p key input)

  unfoldable pub unlink : Place → Str → Bool → Result Failure Place
  unfolding remove absent_code
  unlink p key directory =
      let (removed, found) = remove p key in
      if not directory && found
      then ok removed
      else err (
          failure p key (str "unlink") none
            (if is_directory p key then eisdir else absent_code p key))

  unfoldable pub mkdir : Place → Str → Bool → Result Failure Place
  unfolding check_mkdir
  mkdir p key recursive = do
    pass (check_mkdir p key recursive (failure p key (str "mkdir") none) [])
    ok p

  unfoldable pub rm : Place → Str → Bool → Bool → Bool → Result Failure Place
  unfolding remove remove_all keys_under absent_code
  rm p key directory recursive force =
      let (removed, found) = remove p key in
      if not directory && found
      then ok removed
      else if is_nil (keys_under p key)
      then if force then ok p else err (failure p key (str "rm") none (absent_code p key))
      else if not recursive
      then err (system_failure (is_directory_error (str "rm") (path_of os p key)))
      else ok (remove_all p (keys_under p key))

  unfoldable pub move_tree : Place → Str → Str → Result Failure Place
  unfolding subtree_moves delete_all set_all moved_entries old_keys
  move_tree p source target = do
    moves ← subtree_moves os p source target []
    ok (record p {
      files = set_all (delete_all p.files (old_keys moves)) (moved_entries p.files moves);
    })

  -- The rename of a file.
  unfoldable pub move_file : Place → Str → Str → Version → Result Failure Place
  unfolding check_hierarchy input_of publish remove
  move_file p source target current = if source == target then ok p else (do
    pass (check_hierarchy p target (λ code. rename_failure os p source target code none) [])
    input ← input_of p target (content current) (str "rename") current.mtime_ms
    published ← publish p target input
    ok (remove published source).0)

  unfoldable pub rename : Place → Str → Str → Bool → Result Failure Place
  unfolding move_tree move_file prepared
  rename p source target directory =
      let current = JsMap.get p.files.entries source in
      let fail = rename_failure os p source target in
      if not (is_some current) && is_directory p source
      then move_tree p source target
      else if is_some current && directory
      then err (fail enotdir none)
      else if prepared os.file_ext p source
      then err (fail enotsup (some (str "prepared source")))
      else (elim current [
        | none ↦ err (fail enoent none)
        | some version ↦ move_file p source target version
      ])
