-- ===== src/SabStore.antt =====
-- lib/sab-store.js, class SabStore: the mutations of a shared virtual place on the main thread, and the
-- epochs that the kernel publishes for them (lib/kernel.js, publishVirtual and what stands by it).
pub mod Turns
pub mod Steps
pub mod Orders
use shared_memory_fs.Prelude.{
  ℕ, Bool, false, true, ◌&&◌, ◌||◌, not, List, [], ◌∷◌, ◌++◌, Option, none, some, ◌==◌, keep,
  if◌then◌else◌, Result, ok, err, ◌>>=◌, ◌>>◌, pass,
}
use shared_memory_fs.Prelude.JsMap
use shared_memory_fs.Prelude.JsSet
use shared_memory_fs.Prelude.Text.{Str, str, str_eq}
use shared_memory_fs.Errors.{
  Errno, enotdir, eisdir, enoent, enotsup, Failure, fs_failure, fs_error, system_failure,
  is_directory_error,
}
use shared_memory_fs.Routing.Places.{Place, Version, prepared, is_directory, companions}
use shared_memory_fs.Directories.{is_nil}
use shared_memory_fs.Pipeline.Platform.{Platform, path_of}
use shared_memory_fs.Pipeline.Hierarchy.{
  has_file, check_hierarchy, check_exclusive, check_mkdir, absent_code,
}
use shared_memory_fs.Pipeline.Subtree.{keys_under, subtree_moves, rename_failure}
use shared_memory_fs.MapStore.{joined, content, delete_all, set_all, moved_entries, old_keys}

-- `creating` is #creating: keys whose publication has begun and not committed.
pub record SabStore : Type 0 where
  pub place : Place
  pub creating : List Str

-- What a task has come to in its turn: it is done, it publishes raw bytes under a key, with the source
-- that they move from, or it moves a tree.
pub data Turn : Type 0 where
  finished : SabStore → Turn
  publishing : SabStore → Str → List ℕ → Option Str → Turn

-- The sources, each with its companions.
unfoldable pub with_companions : Place → List Str → List Str
with_companions p [] = []
with_companions p (key ∷ keys) = key ∷ companions p key ++ with_companions p keys

-- kernel.unpublishVirtual: sources and their companions leave the projection in one update.
unfoldable pub unpublish_virtual : SabStore → List Str → SabStore
unfolding delete_all with_companions
unpublish_virtual s keys = record s {
  place = record (s.place) { files = delete_all s.place.files (with_companions s.place keys) };
}

-- kernel.renameVirtualTree, for a plan: the moved versions keep their bytes, stat and time.
unfoldable pub rename_tree : SabStore → List (Str × Str) → SabStore
unfolding delete_all set_all moved_entries old_keys
rename_tree s moves = record s {
  place = record (s.place) {
    files = set_all (delete_all s.place.files (old_keys moves)) (moved_entries s.place.files moves);
  };
}

-- The bytes of the source that a rename republishes.
abbrev pub bytes_at : Option Version → List ℕ
bytes_at none = []
bytes_at (some version) = content version

module _ (os : Platform) where
  -- `#fail`
  abbrev pub fail_of : SabStore → Str → Str → Errno → Failure
  fail_of s syscall key code =
      fs_failure (fs_error code syscall (some (path_of os s.place key)) none none)

  -- `#create`, up to the await.
  unfoldable pub create :
      SabStore → Str → (Errno → Failure) → List ℕ → Option Str → Result Failure Turn
  unfolding check_hierarchy
  create s key fail raw source = do
    pass (check_hierarchy s.place key fail s.creating)
    ok (publishing (record s { creating = JsSet.add s.creating key }) key raw source)

  unfoldable pub write : SabStore → Str → List ℕ → Bool → Result Failure Turn
  unfolding create check_exclusive
  write s key raw exclusive = do
    pass (if exclusive then check_exclusive s.place key (fail_of s (str "open") key) else none)
    create s key (fail_of s (str "open") key) raw none

  unfoldable pub append : SabStore → Str → List ℕ → Result Failure Turn
  unfolding create
  append s key chunk =
      if prepared os.file_ext s.place key
      then err (
          fs_failure (
            fs_error enotsup (str "open") (some (path_of os s.place key))
              (some (str "prepared source")) none))
      else create s key (fail_of s (str "open") key)
          (joined (JsMap.get s.place.files.entries key) chunk) none

  unfoldable pub unlink : SabStore → Str → Bool → Result Failure Turn
  unfolding unpublish_virtual
  unlink s key directory =
      if not directory && has_file s.place key
      then ok (finished (unpublish_virtual s (key ∷ [])))
      else err (
          fail_of s (str "unlink") key
            (if is_directory s.place key then eisdir else absent_code s.place key))

  unfoldable pub mkdir : SabStore → Str → Bool → Result Failure Turn
  unfolding check_mkdir
  mkdir s key recursive = do
    pass (check_mkdir s.place key recursive (fail_of s (str "mkdir") key) s.creating)
    ok (finished s)

  unfoldable pub rm : SabStore → Str → Bool → Bool → Bool → Result Failure Turn
  unfolding unpublish_virtual
  rm s key directory recursive force =
      if not directory && has_file s.place key
      then ok (finished (unpublish_virtual s (key ∷ [])))
      else if is_nil (keys_under s.place key)
      then if force
        then ok (finished s)
        else err (fail_of s (str "rm") key (absent_code s.place key))
      else if not recursive
      then err (system_failure (is_directory_error (str "rm") (path_of os s.place key)))
      else ok (finished (unpublish_virtual s (keys_under s.place key)))

  -- The turn of a rename; `locked` tells that it was queued for its two keys, as a file's.
  unfoldable pub rename : SabStore → Str → Str → Bool → Bool → Result Failure Turn
  unfolding create rename_tree subtree_moves
  rename s source target directory locked =
      let found = has_file s.place source in
      let fail = rename_failure os s.place source target in
      if not found && (not locked && is_directory s.place source)
      then (do
        moves ← subtree_moves os s.place source target s.creating
        ok (finished (rename_tree s moves)))
      else if found && directory
      then err (fail enotdir none)
      else if prepared os.file_ext s.place source
      then err (fail enotsup (some (str "prepared source")))
      else if not found
      then err (fail enoent none)
      else create s target (λ code. fail code none)
          (bytes_at (JsMap.get s.place.files.entries source)) (some source)

-- The keys that the epoch of a rename stages as removed.
unfoldable pub unstaged : Place → Option Str → List Str
unstaged p none = []
unstaged p (some source) = source ∷ companions p source

-- The commit of a publication: the source with the companions that were stored, without those dropped
-- and without the source that moved; a key staged again is not removed.
unfoldable pub commit :
    SabStore → Str → Version → List (Str × Version) → List Str → Option Str → SabStore
unfolding set_all delete_all unstaged
commit s key version stored dropped source =
    let entries = (key, version) ∷ stored in
    record s {
      place = record (s.place) {
        files =
            delete_all (set_all s.place.files entries)
              (keep (λ k. not (JsMap.has entries k)) (unstaged s.place source ++ dropped));
      };
    }

-- The `finally` of `#create`.
unfoldable pub settle : SabStore → Str → SabStore
settle s key = record s { creating = JsSet.remove s.creating key }
