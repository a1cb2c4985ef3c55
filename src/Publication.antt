-- ===== src/Publication.antt =====
-- lib/kernel.js, publication: the changes of an epoch, their commit to the index, and the message that
-- tells the threads.
pub mod Projection
pub mod Index
pub mod Mirror
pub mod Commits
pub mod Parts
pub mod Epochs
use shared_memory_fs.Prelude.{
  ℕ, zero, suc, ◌+◌, Bool, false, true, ◌&&◌, ◌||◌, not, List, [], ◌∷◌, ◌++◌, Option, none, some,
  ◌==◌, nat_eq, if◌then◌else◌, length,
}
use shared_memory_fs.Prelude.JsMap
use shared_memory_fs.Prelude.JsMap.{JsMap, is_some}
use shared_memory_fs.Prelude.JsSet
use shared_memory_fs.Prelude.Text.{Str, str_eq}
use shared_memory_fs.Routing.Places.{Place, companions}
use shared_memory_fs.Cache.Files.{Cache, Entry, shared, disk, Stat, Extras, put, remove, free_entry}

-- The changes of a place: an entry to publish, or null to unpublish.
abbrev pub Changes : Type 0
Changes = JsMap Str (Option Entry)

abbrev pub Epoch : Type 0
Epoch = JsMap Str Changes

unfoldable pub changes_of : Epoch → Str → Changes
changes_of ep name = elim (JsMap.get ep name) [ none ↦ [] | some changes ↦ changes ]

-- The entry that a change had staged.
unfoldable pub superseded : Option (Option Entry) → Cache → Cache
superseded none c = c
superseded (some none) c = c
superseded (some (some e)) c = record c { registry = free_entry c.registry e }

-- `#stage`
unfoldable pub stage : Cache → Epoch → Str → Str → Option Entry → Cache × Epoch
unfolding changes_of superseded
stage c ep name key change =
    let changes = changes_of ep name in
    (superseded (JsMap.get changes key) c, JsMap.set ep name (JsMap.set changes key change))

unfoldable pub unstage_all : Cache → Epoch → Str → List Str → Cache × Epoch
unfolding stage
unstage_all c ep name [] = (c, ep)
unstage_all c ep name (key ∷ keys) =
    let (d, ep') = stage c ep name key none in unstage_all d ep' name keys

-- `#unstage`
unfoldable pub unstage : Cache → Epoch → Place → Str → Cache × Epoch
unfolding unstage_all companions
unstage c ep p key = unstage_all c ep p.name (key ∷ companions p key)

-- A version that takes bytes of a segment.
abbrev pub holds_bytes : Entry → Bool
holds_bytes (shared slot stat extras) = not (slot.length == 0)
holds_bytes (disk path stat extras) = false

pub record Replaced : Type 0 where
  pub id : ℕ
  pub place : Str
  pub key : Str
  pub entry : Entry

-- What the commit of a place's changes has built up, with the segments of the epoch.
pub record Commit : Type 0 where
  pub cache : Cache
  pub next_retire_id : ℕ
  pub segments : List ℕ
  pub entries : List (Str × Entry)
  pub removals : List Str
  pub retiring : List (Str × ℕ)
  pub retired : List Replaced

abbrev pub start : Cache → ℕ → List ℕ → Commit
start c next segments = record {
  cache = c;
  next_retire_id = next;
  segments = segments;
  entries = [];
  removals = [];
  retiring = [];
  retired = [];
}

-- `segments.add(entry.segmentId)`, of an entry with bytes.
unfoldable pub add_segment : List ℕ → Entry → List ℕ
add_segment segments (shared slot stat extras) =
    if slot.length == 0 then segments else JsSet.add segments slot.segment_id
add_segment segments (disk path stat extras) = segments

unfoldable pub commit_entry : Commit → Str → Str → Option Entry → Commit × Option Entry
unfolding put remove add_segment
commit_entry m name key (some e) =
    let (c, old) = put m.cache name key e in
    (
      record m {
        cache = c;
        entries = m.entries ++ ((key, e) ∷ []);
        segments = add_segment m.segments e;
      },
      old,
    )
commit_entry m name key none =
    let (c, old) = remove m.cache name key in
    (
      record m {
        cache = c;
        removals = if is_some old then m.removals ++ (key ∷ []) else m.removals;
      },
      old,
    )

-- A replaced or removed version with bytes gets a fresh retireId.
unfoldable pub retire_old : Commit → Str → Str → Option Entry → Commit
retire_old m name key none = m
retire_old m name key (some old) =
    if holds_bytes old
    then record m {
      next_retire_id = m.next_retire_id + 1;
      retiring = m.retiring ++ ((key, m.next_retire_id + 1) ∷ []);
      retired =
          m.retired
          ++ (record { id = m.next_retire_id + 1; place = name; key = key; entry = old } ∷ []);
    }
    else m

-- One round of the inner loop of `#flush`.
unfoldable pub commit_change : Commit → Str → Str → Option Entry → Commit
unfolding commit_entry retire_old
commit_change m name key change =
    let (n, old) = commit_entry m name key change in retire_old n name key old

unfoldable pub commit_changes : Commit → Str → Changes → Commit
commit_changes m name [] = m
commit_changes m name ((key, change) ∷ changes) =
    commit_changes (commit_change m name key change) name changes

-- One place's part of the message.
pub record PlaceUpdate : Type 0 where
  pub entries : List (Str × Entry)
  pub removals : List Str
  pub retired : List (Str × ℕ)

pub record Flushed : Type 0 where
  pub cache : Cache
  pub next_retire_id : ℕ
  pub segments : List ℕ
  pub places : List (Str × PlaceUpdate)
  pub retired : List Replaced

abbrev pub is_nil {ℓ} : {A : Type ℓ} → List A → Bool
is_nil [] = true
is_nil (x ∷ xs) = false

abbrev pub part_of : Commit → PlaceUpdate
part_of m = record { entries = m.entries; removals = m.removals; retired = m.retiring }

-- The outer loop of `#flush`: a place with neither entries nor removals has no part.
unfoldable pub flush_epoch : Cache → ℕ → List ℕ → Epoch → Flushed
unfolding commit_changes
flush_epoch c next segments [] = record {
  cache = c;
  next_retire_id = next;
  segments = segments;
  places = [];
  retired = [];
}
flush_epoch c next segments ((name, changes) ∷ ep) =
    let m = commit_changes (start c next segments) name changes in
    let rest = flush_epoch m.cache m.next_retire_id m.segments ep in
    record rest {
      places =
          if is_nil m.entries && is_nil m.removals
          then rest.places
          else (name, part_of m) ∷ rest.places;
      retired = m.retired ++ rest.retired;
    }

-- `newSegments` of the message; `getSegment(id).sab` throws without the segment. The
-- SharedArrayBuffer of a segment stands as the id of the segment.
unfoldable pub new_segments : Cache → List ℕ → Option (List (ℕ × ℕ))
new_segments c [] = some []
new_segments c (id ∷ ids) =
    let rest = new_segments c ids in
    if is_some (JsMap.get c.registry.pool.segments id)
    then (elim rest [ none ↦ none | some more ↦ some ((id, id) ∷ more) ])
    else none
