-- ===== src/Publication/Projection.antt =====
-- lib/kernel.js, #apply, and projectEntry of lib/cache.js: the projection of a thread, and the update
-- that it applies.
use shared_memory_fs.Prelude.{
  ℕ, ◌+◌, List, [], ◌∷◌, ◌++◌, Option, none, some, ◌==◌, nat_eq, if◌then◌else◌,
}
use shared_memory_fs.Prelude.JsMap
use shared_memory_fs.Prelude.JsMap.{JsMap}
use shared_memory_fs.Prelude.Text.{Str, str_eq}
use shared_memory_fs.Directories.{PlaceFiles, set_file, delete_file}
use shared_memory_fs.Cache.Files.{Entry, shared, disk, Stat, Extras}
use shared_memory_fs.Pins.{Pins, retain}
use shared_memory_fs.Publication.{PlaceUpdate, Flushed, new_segments, is_nil}

-- `data` of a projected file, and `path` of a disk entry: a window is `Buffer.from(sab, offset, length)`.
pub data FileData : Type 0 where
  kept_at : Option Str → FileData
  no_data : FileData
  window : ℕ → ℕ → ℕ → FileData

pub record FileView : Type 0 where
  pub contents : FileData
  pub stat : Stat
  pub extras : Extras

-- A projected file is an object, with its identity.
pub record Projected : Type 0 where
  pub object : ℕ
  pub view : FileView

-- A thread, with the next identity of an object.
pub record Thread : Type 0 where
  pub segments_map : JsMap ℕ ℕ
  pub places : JsMap Str (PlaceFiles Projected)
  pub pins : Pins
  pub next_object : ℕ

-- `projectEntry`; a view over a segment that the thread does not know throws.
unfoldable pub project_entry : JsMap ℕ ℕ → Entry → Option FileView
project_entry segments (disk path stat extras) =
    some (record { contents = kept_at path; stat = stat; extras = extras })
project_entry segments (shared slot stat extras) =
    if slot.length == 0
    then some (record { contents = no_data; stat = stat; extras = extras })
    else (elim (JsMap.get segments slot.segment_id) [
      | none ↦ none
      | some sab ↦
          some
            (record { contents = window sab slot.offset slot.length; stat = stat; extras = extras })
    ])

-- The loop over `entries`: the files, and the next identity.
unfoldable pub set_entries :
    JsMap ℕ ℕ → PlaceFiles Projected → ℕ → List (Str × Entry) → Option (PlaceFiles Projected × ℕ)
unfolding set_file
set_entries segments files next [] = some (files, next)
set_entries segments files next ((key, e) ∷ entries) = elim (project_entry segments e) [
  | none ↦ none
  | some v ↦
      set_entries segments (set_file files key (record { object = next; view = v })) (next + 1)
        entries
]

unfoldable pub delete_keys : PlaceFiles Projected → List Str → PlaceFiles Projected
unfolding delete_file
delete_keys files [] = files
delete_keys files (key ∷ keys) = delete_keys (delete_file files key).0 keys

abbrev object_at : PlaceFiles Projected → Str → Option ℕ
object_at files key = elim (JsMap.get files.entries key) [ none ↦ none | some f ↦ some f.object ]

-- The loop over `retired`: the retireIds that a consumer of this thread still reads.
unfoldable pub retain_all : Pins → PlaceFiles Projected → List (Str × ℕ) → Pins × List ℕ
unfolding retain
retain_all p files [] = (p, [])
retain_all p files ((key, id) ∷ retired) =
    let (q, held) = retain p (object_at files key) id in
    let (rest, ids) = retain_all q files retired in (rest, if held then id ∷ ids else ids)

-- One round of the outer loop of `#apply`; none where it throws.
unfoldable pub apply_place : Thread → Str → PlaceUpdate → Option (Thread × List ℕ)
unfolding set_entries delete_keys retain_all
apply_place t name u = elim (JsMap.get t.places name) [
  | none ↦ some (t, [])
  | some files ↦
      let (pins, retained) = retain_all t.pins files u.retired in
      elim (set_entries t.segments_map files t.next_object u.entries) [
        | none ↦ none
        | some (set_files, next) ↦ some (
          record t {
            pins = pins;
            next_object = next;
            places = JsMap.set t.places name (delete_keys set_files u.removals);
          },
          retained,
        )
      ]
]

unfoldable pub apply_places : Thread → List (Str × PlaceUpdate) → Option (Thread × List ℕ)
unfolding apply_place
apply_places t [] = some (t, [])
apply_places t ((name, u) ∷ us) = elim (apply_place t name u) [
  | none ↦ none
  | some (after, retained) ↦ elim (apply_places after us) [
    | none ↦ none
    | some (last, more) ↦ some (last, retained ++ more)
  ]
]

unfoldable pub set_segments : JsMap ℕ ℕ → List (ℕ × ℕ) → JsMap ℕ ℕ
set_segments m [] = m
set_segments m ((id, sab) ∷ more) = set_segments (JsMap.set m id sab) more

-- `#apply`, with the retireIds that it returns.
unfoldable pub apply : Thread → List (ℕ × ℕ) → List (Str × PlaceUpdate) → Option (Thread × List ℕ)
unfolding apply_places set_segments
apply t segments places =
    apply_places (record t { segments_map = set_segments t.segments_map segments }) places

-- The end of `#flush` on the main thread: nothing is told of an epoch that changes nothing.
unfoldable pub tell : Flushed → Thread → Option (Thread × List ℕ)
unfolding new_segments apply
tell f t = if is_nil f.places then some (t, []) else (elim (new_segments f.cache f.segments) [
  | none ↦ none
  | some segments ↦ apply t segments f.places
])
