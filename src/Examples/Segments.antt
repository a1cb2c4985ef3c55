-- ===== src/Examples/Segments.antt =====
-- A pool of two segments of ten bytes (lib/cache.js).
use shared_memory_fs.Prelude.{
  ℕ, ◌+◌, ◌<◌, ◌≡◌, false, true, List, [], ◌∷◌, none, some, refl, arith, inl, inr, ◌⊎◌, nat_eq,
}
use shared_memory_fs.Cache.Extents.{Extent, carve, give_back}
use shared_memory_fs.Cache.Extents.Layout.{Layout}
use shared_memory_fs.Cache.Extents.Release.{Frees, give_back-Frees}
use shared_memory_fs.Cache.Extents.Carve.{Takes, carve-Takes}
use shared_memory_fs.Cache.Pool.{Pool, new_pool, create_segment}
use shared_memory_fs.Cache.Pool.Valid.{
  Creates, create_segment-Creates, create_segment-none, new_pool-PoolValid,
}
use shared_memory_fs.Cache.Registry.{
  Registry, placed, no_room, allocate, new_registry, best_fit, fit_tail, allocate_fit,
  allocate_tail, grow, register,
}
use shared_memory_fs.Cache.Registry.Valid.{IsValid, Grants}
use shared_memory_fs.Cache.Registry.Allocate.{allocate-Grants}
use shared_memory_fs.Cache.Registry.Refusal.{allocate_refused, Full}
use shared_memory_fs.Cache.Registry.Release.{Held, TakesBack}
use shared_memory_fs.Cache.Files.{File, Stat, Extras, Slot, place_start, free_entry, shared}
use shared_memory_fs.Cache.Files.Freeing.{free_entry-TakesBack}
use shared_memory_fs.Cache.Files.Place.{Placed, place_start-Placed}
use shared_memory_fs.Cache.Heap.{Call, places, reads, reader_ends, reader_throws, frees, run}
use shared_memory_fs.Cache.Heap.Intact.{Inv}
use shared_memory_fs.Cache.Heap.Invariant.{new_heap, new_heap-Inv, run-Inv}

abbrev extent : ℕ → ℕ → Extent
extent o n = record { offset = o; length = n }

-- Bytes 0..2 and 6..7 are free below a tail of 10.
abbrev two_free : List Extent
two_free = extent 0 2 ∷ extent 6 2 ∷ []

two_free-Layout : Layout 0 10 two_free
two_free-Layout = (omega arith, omega arith, (omega arith, omega arith, omega arith))

give_back-Frees_example : Frees 0 10 2 4 two_free (give_back two_free 2 4)
give_back-Frees_example =
    give_back-Frees 0 10 2 4 two_free two_free-Layout (inl (omega arith), (inr (omega arith), tt))
      (omega arith) (omega arith) (omega arith)

carve-Takes_example : Takes 0 10 6 1 two_free (carve two_free 1 1)
carve-Takes_example =
    carve-Takes 0 10 1 1 (extent 6 2) two_free two_free-Layout refl (omega arith) (omega arith)

abbrev two_segments : Pool
two_segments = new_pool 20 10

create_segment-Creates_example : Creates two_segments (create_segment two_segments).0 1
unfolding create_segment new_pool
create_segment-Creates_example =
    create_segment-Creates two_segments (new_pool-PoolValid 20 10) (create_segment two_segments).0 1
      first
  where
    first : create_segment two_segments ≡ ((create_segment two_segments).0, some 1)
    first = refl

create_segment-none_example :
    (new_pool 5 10 ≡ new_pool 5 10)
    × ((new_pool 5 10).limit < (new_pool 5 10).total_used + (new_pool 5 10).segment_size)
    × ((new_pool 5 10).empty_segment_ids ≡ [])
unfolding create_segment new_pool
create_segment-none_example =
    create_segment-none (new_pool 5 10) (new_pool-PoolValid 5 10) (new_pool 5 10) full
  where
    full : create_segment (new_pool 5 10) ≡ (new_pool 5 10, none)
    full = refl

abbrev fresh : Registry
fresh = new_registry two_segments

fresh-IsValid : IsValid fresh
fresh-IsValid = (new_heap-Inv 20 10).valid

abbrev taken : Registry
taken = (allocate fresh 4 false).0

takes_first : allocate fresh 4 false ≡ (taken, placed 1 0)
unfolding allocate allocate_fit allocate_tail best_fit fit_tail grow create_segment new_registry
    new_pool register
takes_first = refl

allocate-Grants_example : Grants fresh taken 4 1 0
allocate-Grants_example = allocate-Grants fresh taken 4 1 0 false fresh-IsValid takes_first

allocate_refused_example : (fresh ≡ fresh) × ((fresh.pool.segment_size < 11) ⊎ Full fresh 11 false)
unfolding allocate new_registry new_pool
allocate_refused_example = allocate_refused fresh fresh 11 false fresh-IsValid too_big
  where
    too_big : allocate fresh 11 false ≡ (fresh, no_room)
    too_big = refl

abbrev plain : Stat
plain = record { size = 4; mtime_ms = 0; of_source = none }

abbrev no_extras : Extras
no_extras = record { meta = none; script_options = none }

abbrev slot_of_four : Slot
slot_of_four = record { segment_id = 1; offset = 0; length = 4 }

free_entry-TakesBack_example :
    TakesBack taken (free_entry taken (shared slot_of_four plain no_extras)) 1 0 4
free_entry-TakesBack_example =
    free_entry-TakesBack taken slot_of_four plain no_extras
      (allocate-Grants fresh taken 4 1 0 false fresh-IsValid takes_first).valid (omega arith) held
  where
    held : Held taken 1 0 4
    held x w =
        ground (
          arith,
          (allocate-Grants fresh taken 4 1 0 false fresh-IsValid takes_first).owned_after 1 x,
        )

abbrev on_disk_file : File
on_disk_file = record { bytes = none; path = none; stat = plain; extras = no_extras }

abbrev in_memory_file : File
in_memory_file = record {
  bytes = some (1 ∷ 2 ∷ 3 ∷ []);
  path = none;
  stat = record plain { size = 3 };
  extras = no_extras;
}

place_start-Placed_example :
    Placed fresh true on_disk_file 8
      (place_start fresh true on_disk_file 8).0
      (place_start fresh true on_disk_file 8).1
place_start-Placed_example = place_start-Placed fresh true on_disk_file 8 fresh-IsValid

-- Two files are placed at a time; the reader of one fills its view in two reads, that of the other
-- throws after it has written a part.
abbrev calls : List Call
calls =
    places on_disk_file 8
    ∷ places on_disk_file 8
    ∷ reads 0 (5 ∷ [])
    ∷ reads 1 (6 ∷ 7 ∷ [])
    ∷ reads 0 (8 ∷ 9 ∷ [])
    ∷ reader_throws 1
    ∷ reader_ends 0
    ∷ places in_memory_file 8
    ∷ frees 1
    ∷ []

run-Inv_example : Inv (run true (new_heap 20 10) calls)
run-Inv_example = run-Inv true (new_heap 20 10) calls (new_heap-Inv 20 10)
