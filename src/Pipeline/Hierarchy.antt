-- ===== src/Pipeline/Hierarchy.antt =====
-- lib/pipeline.js, the checks of the hierarchy: a path is a file or a directory, never both. A check
-- gives what it throws, or nothing; `creating` holds the keys whose publication has begun.
use shared_memory_fs.Prelude.{
  ℕ, zero, suc, Bool, false, ◌&&◌, ◌||◌, not, List, Option, none, some, length, any, if◌then◌else◌,
}
use shared_memory_fs.Prelude.JsMap
use shared_memory_fs.Prelude.JsSet.{contains}
use shared_memory_fs.Prelude.Text.{Str, str_eq}
use shared_memory_fs.Errors.{Errno, enoent, enotdir, eisdir, eexist}
use shared_memory_fs.Routing.Places.{Place, is_directory}
use shared_memory_fs.Directories.{last_slash, is_nil}
use shared_memory_fs.Directories.Below.{is_below}

abbrev pub has_file : Place → Str → Bool
has_file p key = JsMap.has p.files.entries key

-- The loop goes from a slash to the one before it, so the length of the key is fuel enough.
unfoldable pub above_from : ℕ → Place → Str → List Str → Bool
above_from zero p key creating = false
above_from (suc fuel) p key creating = elim (last_slash key) [
  | none ↦ false
  | some (parent, name) ↦
      not (is_nil parent)
      && (has_file p parent || contains creating parent || above_from fuel p parent creating)
]

unfoldable pub file_above : Place → Str → List Str → Bool
unfolding above_from
file_above p key creating = above_from (length key) p key creating

module _ {E : Type 0} where
  unfoldable pub check_hierarchy : Place → Str → (Errno → E) → List Str → Option E
  check_hierarchy p key fail creating =
      if file_above p key creating
      then some (fail enotdir)
      else if has_file p key
      then none
      else if is_directory p key
      then some (fail eisdir)
      else if any (λ other. is_below other key) creating
      then some (fail eisdir)
      else none

  unfoldable pub check_exclusive : Place → Str → (Errno → E) → Option E
  check_exclusive p key fail =
      if has_file p key || is_directory p key then some (fail eexist) else none

  unfoldable pub check_mkdir : Place → Str → Bool → (Errno → E) → List Str → Option E
  check_mkdir p key recursive fail creating =
      if has_file p key || contains creating key
      then some (fail eexist)
      else if file_above p key creating
      then some (fail enotdir)
      else if not recursive && is_directory p key
      then some (fail eexist)
      else none

unfoldable pub absent_code : Place → Str → Errno
absent_code p key = if has_file p key then enotdir else enoent
