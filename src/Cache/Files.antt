-- ===== src/Cache/Files.antt =====
-- lib/cache.js, class FilesystemCache: placing the bytes of a file, publishing entries under their
-- keys, and giving bytes back.
pub mod Views
pub mod Freeing
pub mod Place
use shared_memory_fs.Prelude.{
  ℕ, zero, suc, ◌+◌, ◌*◌, ◌-◌, Bool, false, true, ◌&&◌, ◌||◌, not, List, [], ◌∷◌, ◌++◌, Option,
  none, some, ltb, leb, nat_eq, ◌==◌, if◌then◌else◌, length,
}
use shared_memory_fs.Prelude.Text.{Str, str_eq}
use shared_memory_fs.Prelude.JsMap
use shared_memory_fs.Prelude.JsMap.{JsMap, is_some}
use shared_memory_fs.Prelude.JsSet
use shared_memory_fs.Cache.Pool.{Pool, Sab, new_pool, free_segment}
use shared_memory_fs.Cache.Registry.{
  Registry, Outcome, range_error, no_room, placed, new_registry, unregister, release, used,
  allocate,
}
use shared_memory_fs.Cache.Bytes.{write_sab, read_sab}

-- `{ size, mtimeMs }`, and `sourceSize`, `encoding` of a compressed companion.
pub record Stat : Type 0 where
  pub size : ℕ
  pub mtime_ms : ℕ
  pub of_source : Option (ℕ × Str)

-- `meta` and `scriptOptions`: frozen objects that travel along; an object is its identity.
pub record Extras : Type 0 where
  pub meta : Option ℕ
  pub script_options : Option ℕ

pub record Slot : Type 0 where
  pub segment_id : ℕ
  pub offset : ℕ
  pub length : ℕ

pub data Entry : Type 0 where
  shared : Slot → Stat → Extras → Entry
  disk : Option Str → Stat → Extras → Entry

-- The FileInput that `allocate` is handed.
pub record File : Type 0 where
  pub bytes : Option (List ℕ)
  pub path : Option Str
  pub stat : Stat
  pub extras : Extras

abbrev pub Index : Type 0
Index = JsMap Str Entry

pub record Cache : Type 0 where
  pub max_file_size : ℕ
  pub registry : Registry
  pub indexes : JsMap Str Index

unfoldable pub new_cache : ℕ → ℕ → ℕ → Cache
unfolding new_registry new_pool
new_cache limit segment_size max_file_size = record {
  max_file_size = max_file_size;
  registry = new_registry (new_pool limit segment_size);
  indexes = [];
}

pub disk_entry : File → Entry
disk_entry file = disk file.path file.stat file.extras

unfoldable pub empty_entry : File → Entry
empty_entry file = shared (record { segment_id = 0; offset = 0; length = 0 }) file.stat file.extras

-- `view.set(data)` in the segment `id`.
unfoldable pub write_segment : Registry → ℕ → ℕ → List ℕ → Registry
write_segment r id offset bytes = elim (JsMap.get r.pool.segments id) [
  | none ↦ r
  | some sab ↦ record r {
    pool = record (r.pool) { segments = JsMap.set r.pool.segments id (write_sab sab offset bytes) };
  }
]

-- The private `#release` of the cache.
pub release_block : Registry → ℕ → ℕ → ℕ → Registry
release_block r id offset length =
    if is_some (JsMap.get r.pool.segments id)
    then (let s = release r id offset length in
        if used s id == 0
        then (let t = unregister s id in record t { pool = free_segment t.pool id })
        else s)
    else r

-- What placing a file comes to: an error thrown, null, or an entry.
pub data Placing : Type 0 where
  threw : Placing
  refused : Placing
  stored : Entry → Placing

-- The size that `#place` asks for.
pub size_of : File → ℕ
size_of file = elim file.bytes [ none ↦ file.stat.size | some data' ↦ length data' ]

-- `stat.size` beside `data` that disagrees.
pub mismatch : File → Bool
mismatch file = elim file.bytes [ none ↦ false | some data' ↦ not (file.stat.size == length data') ]

-- What `#place` has come to by its first wait: an outcome, or a block whose view its reader is to
-- fill.
pub data Started : Type 0 where
  ended : Placing → Started
  reading : Slot → Started

-- The view is set to the data at once, or handed to the reader.
pub fill : Registry → Slot → File → Option (List ℕ) → Registry × Started
unfolding write_segment
fill r slot file none = (r, reading slot)
fill r slot file (some bytes) = (
  write_segment r slot.segment_id slot.offset bytes,
  ended (stored (shared slot file.stat file.extras)),
)

-- What `#place` makes of the registry's answer.
pub finish : Registry → File → Registry × Outcome → Registry × Started
unfolding fill size_of
finish r file (s, range_error) = (r, ended threw)
finish r file (s, no_room) = (s, ended refused)
finish r file (s, placed id offset) =
    fill s (record { segment_id = id; offset = offset; length = size_of file }) file file.bytes

-- `#place` up to `await this.reader(file, view)`; whether the cache has a reader is an argument.
unfoldable pub place_start : Registry → Bool → File → ℕ → Registry × Started
unfolding size_of mismatch finish empty_entry
place_start r has_reader file max_file_size =
    if mismatch file
    then (r, ended threw)
    else if ltb max_file_size (size_of file)
    then (r, ended refused)
    else if not (is_some file.bytes) && not has_reader
    then (r, ended refused)
    else if size_of file == 0
    then (r, ended (stored (empty_entry file)))
    else finish r file (allocate r (size_of file) false)

-- The rest of `#place`, once the reader has returned (`filled`) or has thrown.
unfoldable pub place_end : Registry → File → Slot → Bool → Registry × Placing
unfolding release_block
place_end r file slot filled =
    if filled
    then (r, stored (shared slot file.stat file.extras))
    else (release_block r slot.segment_id slot.offset slot.length, threw)

pub record AllocateOptions : Type 0 where
  pub max_file_size : ℕ
  pub fallback : Bool
  pub on_disk : Bool

pub or_disk : File → Bool → Registry × Started → Registry × Started
unfolding disk_entry
or_disk file fallback (r, ended refused) =
    if fallback then (r, ended (stored (disk_entry file))) else (r, ended refused)
or_disk file fallback (r, t) = (r, t)

-- `allocate(file, options)` of the cache, up to the wait for the reader; from there on it returns
-- and throws what `#place` does.
unfoldable pub allocate_start : Registry → Bool → File → AllocateOptions → Registry × Started
unfolding place_start or_disk
allocate_start r has_reader file options = or_disk file options.fallback (
    if options.on_disk
    then (r, ended refused)
    else place_start r has_reader file options.max_file_size)

-- The entries of a namespace, none as the empty index.
unfoldable pub entries_of : Cache → Str → Index
entries_of c name = elim (JsMap.get c.indexes name) [ none ↦ [] | some index ↦ index ]

unfoldable pub entry : Cache → Str → Str → Option Entry
unfolding entries_of
entry c name key = JsMap.get (entries_of c name) key

-- A published entry keeps its segment open.
unfoldable pub reopen : Registry → Entry → Registry
reopen r (shared slot stat extras) = record r { closed = JsSet.remove r.closed slot.segment_id }
reopen r (disk path stat extras) = r

unfoldable pub put : Cache → Str → Str → Entry → Cache × Option Entry
unfolding entries_of reopen
put c name key e =
    let index = entries_of c name in
    (
      record c {
        registry = reopen c.registry e;
        indexes = JsMap.set c.indexes name (JsMap.set index key e);
      },
      JsMap.get index key,
    )

unfoldable pub remove : Cache → Str → Str → Cache × Option Entry
remove c name key = elim (JsMap.get c.indexes name) [
  | none ↦ (c, none)
  | some index ↦ elim (JsMap.get index key) [
    | none ↦ (c, none)
    | some e ↦ (record c { indexes = JsMap.set c.indexes name (JsMap.delete index key) }, some e)
  ]
]

unfoldable pub free_entry : Registry → Entry → Registry
unfolding release_block
free_entry r (disk path stat extras) = r
free_entry r (shared slot stat extras) =
    if slot.length == 0 then r else release_block r slot.segment_id slot.offset slot.length
