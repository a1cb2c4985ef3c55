-- ===== src/Pipeline/Subtree.antt =====
-- lib/pipeline.js, subtreeMoves: the plan of a directory's rename inside a virtual place.
use shared_memory_fs.Prelude.{
  not, ◌||◌, List, [], ◌∷◌, ◌++◌, Option, none, some, length, drop, if◌then◌else◌, ◌==◌, Result, ok,
  err, ◌>>=◌, ◌>>◌, pass,
}
use shared_memory_fs.Prelude.JsMap
use shared_memory_fs.Prelude.JsMap.{is_some}
use shared_memory_fs.Prelude.Text.{Str, str, str_eq}
use shared_memory_fs.Errors.{
  Errno, enoent, enotdir, enotempty, enotsup, einval, Failure, fs_failure, fs_error,
}
use shared_memory_fs.Routing.Keys.{dir_of}
use shared_memory_fs.Routing.Places.{Place, prepared, is_directory, companions}
use shared_memory_fs.Directories.{keys_below, is_nil}
use shared_memory_fs.Directories.Below.{is_below}
use shared_memory_fs.Pipeline.Platform.{Platform, path_of}
use shared_memory_fs.Pipeline.Bytecode.{bytecode_domains}
use shared_memory_fs.Pipeline.Hierarchy.{has_file, check_hierarchy}

-- `place.keysUnder`
unfoldable pub keys_under : Place → Str → List Str
keys_under p dir = keys_below p.files (dir_of dir)

-- The companions of a source that are there, under the new key.
unfoldable pub companion_moves : Place → Str → Str → List Str → List (Str × Str)
companion_moves p key new_key [] = []
companion_moves p key new_key (companion ∷ rest) =
    let moves = companion_moves p key new_key rest in
    if has_file p companion
    then (companion, new_key ++ drop (length key) companion) ∷ moves
    else moves

module _ (os : Platform) (p : Place) where
  -- Why a source cannot move as it is.
  unfoldable pub immovable : Str → Option Str
  immovable key =
      if prepared os.file_ext p key
      then some (str "prepared source")
      else if not (is_nil (bytecode_domains os p key))
      then some (str "compiled source")
      else (elim (JsMap.get p.files.entries key) [
        | none ↦ none
        | some file ↦
            if is_some file.script_options || is_some file.meta
            then some (str "path-dependent metadata")
            else none
      ])

  -- The loop over the sources.
  unfoldable pub source_moves :
      (Errno → Option Str → Failure) → Str → Str → List Str → Result Failure (List (Str × Str))
  unfolding immovable companion_moves
  source_moves fail source target [] = ok []
  source_moves fail source target (key ∷ keys) =
      let rest = source_moves fail source target keys in
      elim (immovable key) [
        | some reason ↦ err (fail enotsup (some (reason ++ (str " " ++ key))))
        | none ↦
            let new_key = target ++ drop (length source) key in
            (do
              moves ← rest
              ok ((key, new_key) ∷ companion_moves p key new_key (companions p key) ++ moves))
      ]

  -- The failure of a rename.
  abbrev pub rename_failure : Str → Str → Errno → Option Str → Failure
  rename_failure source target code detail = fs_failure (
      fs_error code (str "rename") (some (path_of os p source)) detail (some (path_of os p target)))

  unfoldable pub subtree_moves : Str → Str → List Str → Result Failure (List (Str × Str))
  unfolding source_moves keys_under check_hierarchy
  subtree_moves source target creating =
      let fail = rename_failure source target in
      let sources = keys_under p source in
      if is_nil sources
      then err (fail enoent none)
      else if target == source
      then ok []
      else if is_below target source
      then err (fail einval (some (str "a directory into itself")))
      else if has_file p target
      then err (fail enotdir none)
      else if is_directory p target
      then err (fail enotempty none)
      else pass (check_hierarchy p target (λ code. fail code none) creating)
        >> source_moves fail source target sources
