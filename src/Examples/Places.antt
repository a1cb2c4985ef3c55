-- ===== src/Examples/Places.antt =====
-- A map place with one file, /a/b (lib/place.js, lib/pipeline.js, lib/map-store.js).
use shared_memory_fs.Prelude.{
  ℕ, false, true, ◌≡◌, ◌⊎◌, ◌↔◌, [], ◌∷◌, ◌++◌, none, some, length, refl, inr, arith, ok, err,
  if◌then◌else◌, ◌==◌, nat_eq,
}
use shared_memory_fs.Prelude.JsMap
use shared_memory_fs.Prelude.JsSet
use shared_memory_fs.Prelude.JsSet.{contains}
use shared_memory_fs.Prelude.Text.{Str, str, str_beq, str_eq}
use shared_memory_fs.Errors.{enotdir, eisdir}
use shared_memory_fs.Routing.Keys.{slash, starts_with, is_companion_key, trim_end, dir_of}
use shared_memory_fs.Routing.Places.{
  Place, Version, FsDomain, in_map, unset, prepared, companions, require_keys, fs_keys, script_keys,
  compressed_keys, is_directory,
}
use shared_memory_fs.Routing.Canonical.{Canonical, canonical_key, split, canonical_key-Canonical}
use shared_memory_fs.Directories.{
  PlaceFiles, set_file, delete_file, has_directory, keys_below, add_name, add_names, parts, walk,
  unlink, split_child, last_slash, clear,
}
use shared_memory_fs.Directories.Index.{Indexed, in_dirs, listed, set_file-Indexed}
use shared_memory_fs.Directories.Index.Removal.{delete_file-Indexed}
use shared_memory_fs.Directories.Below.{SourceBelow, has_directory-SourceBelow}
use shared_memory_fs.Directories.Listing.{Below, keys_below-Below}
use shared_memory_fs.Pipeline.Platform.{Platform, unchanged}
use shared_memory_fs.Pipeline.Preparers.{bind_all, bind_all-binds}
use shared_memory_fs.Prelude.JsMap.{JsMap}
use shared_memory_fs.Pipeline.Prepare.{FileInput, plain}
use shared_memory_fs.Pipeline.Bytecode.{bytecode_for, bytecode_domains, compile_all}
use shared_memory_fs.Pipeline.Hierarchy.{has_file, file_above, above_from, check_hierarchy}
use shared_memory_fs.Pipeline.Ancestors.{Above, file_above-Above}
use shared_memory_fs.MapStore
use shared_memory_fs.MapStore.{
  write, append, move_file, publish, input_of, remove, delete_all, set_all, code_entries,
  script_fails, version_of, failure, content, joined,
}
use shared_memory_fs.MapStore.Keeping.{file_at}
use shared_memory_fs.MapStore.Placed.{Placed}
use shared_memory_fs.MapStore.Operations.{write-Placed}
use shared_memory_fs.MapStore.Steps.{Reachable-Placed, writes, written, start, step}
use shared_memory_fs.MapStore.Contents.{
  Updates, write-Updates, append-Updates, unlink-Updates, rename-Updates, write-answer,
}

abbrev pub os : Platform
os = record {
  file_ext = λ s. str "js";
  path_join = λ a b. a ++ b;
  encode = λ s. s;
  decode = λ s. s;
  wrap = λ s. s;
  compile = λ s o. some s;
  prepare = λ n bytes file. unchanged;
}

abbrev whole_fs : FsDomain
whole_fs = record { ext = none; writable = true; fallback = unset; script = none; codecs = [] }

abbrev no_files : PlaceFiles Version
no_files = record { entries = []; dirs = [] }

abbrev pub store : Place
store = record {
  name = str "m";
  root = str "/m";
  provider = in_map;
  is_virtual = true;
  fs = some whole_fs;
  require = none;
  scan_ext = none;
  prepare = none;
  preparers = none;
  files = no_files;
}

abbrev pub one_byte : Version
one_byte = record {
  bytes = some (1 ∷ []);
  size = 1;
  mtime_ms = 5;
  script_options = none;
  meta = none;
}

abbrev with_file : Place
with_file = record store {
  files = record {
    entries = (str "/a/b", one_byte) ∷ [];
    dirs = (str "", str "a" ∷ []) ∷ (str "/a", str "b" ∷ []) ∷ [];
  };
}

abbrev moved_file : Place
moved_file = record store {
  files = record { entries = (str "/c", one_byte) ∷ []; dirs = (str "", str "c" ∷ []) ∷ [] };
}

no_files-Indexed : Indexed no_files
unfolding in_dirs listed JsMap.has JsMap.get
no_files-Indexed = record {
  index = λ x m. refl;
  full = λ x h. absurd (ground arith);
  rooted = λ k h s. absurd (ground arith);
}

a_b : Canonical (str "/a/b")
unfolding trim_end is_companion_key contains
a_b = record { rooted = (str "a/b", refl); trimmed = refl; source = refl }

wrote : write os 5 store (str "/a/b") (1 ∷ []) false ≡ ok with_file
unfolding write check_hierarchy file_above above_from last_slash is_directory dir_of trim_end
    starts_with prepared input_of publish bytecode_for bytecode_domains compile_all script_fails
    code_entries set_file delete_all companions require_keys fs_keys script_keys compressed_keys
    set_all JsMap.get JsMap.has JsMap.set add_names add_name parts walk JsSet.add contains str_beq
    is_companion_key
wrote = refl

set_file-Indexed_example : Indexed (set_file no_files (str "/a/b") one_byte)
set_file-Indexed_example =
    set_file-Indexed no_files (str "/a/b") one_byte no_files-Indexed (inr (str "a/b", refl))

with_file-Placed : Placed with_file.files
with_file-Placed =
    write-Placed os 5 store with_file (str "/a/b") (1 ∷ []) false a_b
      (record {
        indexed = no_files-Indexed;
        flat = λ k j a b c d. absurd (unfold JsMap.has in ground arith);
      })
      wrote

delete_file-Indexed_example : Indexed (delete_file with_file.files (str "/a/b")).0
delete_file-Indexed_example =
    delete_file-Indexed with_file.files (str "/a/b") with_file-Placed.indexed

has_directory-SourceBelow_example :
    (has_directory with_file.files (str "/a") ≡ true) ↔ SourceBelow with_file.files (str "/a")
has_directory-SourceBelow_example =
    has_directory-SourceBelow with_file.files (str "/a") with_file-Placed.indexed

keys_below-Below_example :
    (contains (keys_below with_file.files (str "/a")) (str "/a/b") ≡ true)
    ↔ Below with_file.files (str "/a/b") (str "/a")
keys_below-Below_example =
    keys_below-Below with_file.files with_file-Placed.indexed (str "/a") (str "/a/b")

canonical_key-Canonical_example :
    Canonical (str "/a/b")
    × (canonical_key (str "/a/b") ≡ some (str "/a/b"))
    × ((str "/a/b" ≡ str "a/b") ⊎ (str "/a/b" ≡ slash ∷ str "a/b"))
unfolding canonical_key split contains starts_with str_beq
canonical_key-Canonical_example = canonical_key-Canonical (str "a/b") (str "/a/b") refl

file_above-Above_example :
    (file_above with_file (str "/a/b/c") [] ≡ true) ↔ Above with_file (str "/a/b/c") []
file_above-Above_example = file_above-Above with_file [] (str "/a/b/c") (str "a/b/c", refl)

Reachable-Placed_example : Placed with_file.files
unfolding clear
Reachable-Placed_example =
    Reachable-Placed os store with_file refl
      (step (writes 5 (str "/a/b") (1 ∷ []) false a_b) start (written wrote))

write-Updates_example :
    (input : FileInput) × (input_of os store (str "/a/b") (1 ∷ []) (str "open") 5 ≡ ok input)
    × Updates store (str "/a/b") (some (version_of input)) with_file
write-Updates_example = write-Updates os 5 store with_file (str "/a/b") (1 ∷ []) false wrote

abbrev longer : Version
longer = record {
  bytes = some (1 ∷ 2 ∷ []);
  size = 2;
  mtime_ms = 6;
  script_options = none;
  meta = none;
}

abbrev with_longer : Place
with_longer = record store {
  files = record {
    entries = (str "/a/b", longer) ∷ [];
    dirs = (str "", str "a" ∷ []) ∷ (str "/a", str "b" ∷ []) ∷ [];
  };
}

append-Updates_example :
    Updates with_file
      (str "/a/b")
      (some (
        version_of (
          plain
            (joined (file_at with_file.files (str "/a/b")) (2 ∷ []))
            (length (joined (file_at with_file.files (str "/a/b")) (2 ∷ [])))
            6)))
      with_longer
unfolding append check_hierarchy file_above above_from last_slash is_directory dir_of trim_end
    starts_with prepared input_of publish bytecode_for bytecode_domains compile_all script_fails
    code_entries set_file delete_all companions require_keys fs_keys script_keys compressed_keys
    set_all JsMap.get JsMap.has JsMap.set JsSet.add contains str_beq is_companion_key
append-Updates_example = append-Updates os 6 with_file with_longer (str "/a/b") (2 ∷ []) refl

unlink-Updates_example :
    (false ≡ false)
    × (has_file with_file (str "/a/b") ≡ true)
    × Updates with_file (str "/a/b") none store
unfolding MapStore.unlink remove delete_file delete_all unlink split_child last_slash companions
    require_keys fs_keys script_keys compressed_keys JsMap.get JsMap.has JsMap.delete JsSet.remove
    contains str_beq is_companion_key
unlink-Updates_example = unlink-Updates os with_file store (str "/a/b") false refl

rename-Updates_example : file_at moved_file.files (str "/c") ≡ (
    if str "/a/b" == str "/c"
    then none
    else if str "/c" == str "/c"
    then some (version_of (plain (content one_byte) (length (content one_byte)) 5))
    else file_at with_file.files (str "/c"))
unfolding MapStore.rename move_file check_hierarchy file_above above_from last_slash is_directory
    dir_of trim_end starts_with prepared input_of publish bytecode_for bytecode_domains compile_all
    script_fails code_entries set_file delete_all companions require_keys fs_keys script_keys
    compressed_keys set_all JsMap.get JsMap.has JsMap.set add_names add_name parts walk JsSet.add
    contains str_beq is_companion_key remove delete_file unlink split_child JsMap.delete
    JsSet.remove
rename-Updates_example =
    rename-Updates os with_file moved_file (str "/a/b") (str "/c") one_byte false refl refl refl
      refl (str "/c") refl

write-answer_example :
    (Above store (str "/a/b") []
      × (write os 5 store (str "/a/b") (1 ∷ []) false
          ≡ err (failure os store (str "/a/b") (str "open") none enotdir)))
    ⊎ (((has_file store (str "/a/b") ≡ false)
          × SourceBelow store.files (str "/a/b")
          × (write os 5 store (str "/a/b") (1 ∷ []) false
              ≡ err (failure os store (str "/a/b") (str "open") none eisdir)))
        ⊎ ((Above store (str "/a/b") [] → ⊥)
            × ((has_file store (str "/a/b") ≡ true) ⊎ (SourceBelow store.files (str "/a/b") → ⊥))
            × ((q : Place) × (write os 5 store (str "/a/b") (1 ∷ []) false ≡ ok q))))
unfolding prepared bytecode_for bytecode_domains compile_all script_fails is_companion_key contains
write-answer_example = write-answer os 5 store (str "/a/b") (1 ∷ []) a_b no_files-Indexed refl refl

-- One registered callback, and an index that names it.
abbrev minify : JsMap Str ℕ
minify = (str "minify", 7) ∷ []

abbrev for_js : JsMap Str Str
for_js = (str "js", str "minify") ∷ []

bind_all-binds_example :
    (fn : ℕ) × (JsMap.get minify (str "minify") ≡ some fn)
    × (JsMap.get {K = Str} {V = ℕ} ((str "js", 7) ∷ []) (str "js") ≡ some fn)
unfolding bind_all JsMap.get JsMap.set str_beq
bind_all-binds_example =
    bind_all-binds minify (str "m") for_js [] ((str "js", 7) ∷ []) (str "js") (str "minify")
      (refl, tt) refl refl
