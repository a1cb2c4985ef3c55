-- ===== src/Examples/Shared.antt =====
-- A shared virtual place in which /a/b is written (lib/sab-store.js), and one epoch (lib/kernel.js).
use shared_memory_fs.Prelude.{false, [], ◌∷◌, none, some, refl, inr, arith, nat_eq}
use shared_memory_fs.Prelude.JsMap
use shared_memory_fs.Prelude.JsSet
use shared_memory_fs.Prelude.JsSet.{contains}
use shared_memory_fs.Prelude.Text.{str, str_beq, str_eq}
use shared_memory_fs.Routing.Keys.{starts_with, is_companion_key, trim_end, dir_of}
use shared_memory_fs.Routing.Places.{is_directory}
use shared_memory_fs.Routing.Canonical.{Canonical}
use shared_memory_fs.Directories.{last_slash, clear}
use shared_memory_fs.Pipeline.Hierarchy.{above_from, file_above, check_hierarchy}
use shared_memory_fs.Cache.Files.{Cache, Entry, shared, disk, entries_of}
use shared_memory_fs.Publication.{Epoch, flush_epoch}
use shared_memory_fs.Publication.Projection.{Thread}
use shared_memory_fs.Pins.{no_pins}
use shared_memory_fs.Publication.Epochs.{Tells, tell-Mirrors}
use shared_memory_fs.Publication.Parts.{Mirrors}
use shared_memory_fs.SabStore.{SabStore, publishing, write, create, commit}
use shared_memory_fs.SabStore.Turns.{Sound}
use shared_memory_fs.SabStore.Orders.{writes, commits, start, step, Reachable-Sound}
use shared_memory_fs.Examples.Places.{os, store, one_byte}

abbrev empty_store : SabStore
empty_store = record { place = store; creating = [] }

abbrev open_store : SabStore
open_store = record { place = store; creating = str "/a/b" ∷ [] }

a_b : Canonical (str "/a/b")
unfolding trim_end is_companion_key contains
a_b = record { rooted = (str "a/b", refl); trimmed = refl; source = refl }

Reachable-Sound_example : Sound (commit open_store (str "/a/b") one_byte [] [] none)
unfolding write create check_hierarchy file_above above_from last_slash is_directory dir_of trim_end
    starts_with JsMap.has JsSet.add contains str_beq clear
Reachable-Sound_example =
    Reachable-Sound os empty_store (commit open_store (str "/a/b") one_byte [] [] none) refl refl (
      step
        (step start (
          writes (str "/a/b") (1 ∷ []) false (publishing open_store (str "/a/b") (1 ∷ []) none) a_b
            refl))
        (commits (str "/a/b") one_byte [] [] none refl tt))

abbrev big_file : Entry
big_file =
    disk (some (str "/m/big")) (record { size = 9; mtime_ms = 0; of_source = none })
      (record { meta = none; script_options = none })

abbrev small_file : Entry
small_file =
    shared (record { segment_id = 1; offset = 0; length = 3 })
      (record { size = 3; mtime_ms = 0; of_source = none })
      (record { meta = none; script_options = none })

abbrev one_segment : Cache
one_segment = record {
  max_file_size = 512;
  registry = record {
    pool = record {
      limit = 1024;
      segment_size = 64;
      segments = (1, λ x. 0) ∷ [];
      empty_segment_ids = [];
      total_used = 64;
      next_segment_id = 1;
    };
    free = [];
    tail = [];
    closed = [];
  };
  indexes = [];
}

abbrev one_epoch : Epoch
one_epoch =
    (
      str "m",
      (str "/big", some big_file) ∷ (str "/small", some small_file) ∷ (str "/gone", none) ∷ [],
    )
    ∷ []

abbrev one_place : Thread
one_place = record {
  segments_map = [];
  places = (str "m", record { entries = []; dirs = [] }) ∷ [];
  pins = no_pins;
  next_object = 0;
}

one_place-Mirrors : Mirrors one_segment one_place
unfolding JsMap.get entries_of str_beq
one_place-Mirrors name files e j = ground arith

tell-Mirrors_example : Tells (flush_epoch one_segment 0 [] one_epoch) one_place
unfolding JsMap.get str_beq
tell-Mirrors_example =
    tell-Mirrors one_place one_segment 0 one_epoch
      ((refl, (refl, (refl, tt))), (tt, ((λ nz. refl), tt)), tt) (λ x. inr refl) one_place-Mirrors
