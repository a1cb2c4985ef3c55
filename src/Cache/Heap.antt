-- ===== src/Cache/Heap.antt =====
-- lib/cache.js, class FilesystemCache, between calls: the bytes that are handed out, to entries and to
-- files that are being placed. `#place` waits for its reader between its two halves, and several
-- files are placed at a time (lib/kernel.js, initConcurrency), so that a history interleaves the
-- halves of all of them with what their readers write.
pub mod Blocks
pub mod Intact
pub mod Invariant
use shared_memory_fs.Prelude.{
  ℕ, zero, suc, ◌+◌, Bool, false, true, List, [], ◌∷◌, ◌++◌, Option, none, some, ◌==◌, nat_eq, leb,
  if◌then◌else◌, length,
}
use shared_memory_fs.Cache.Files.{
  File, Slot, Entry, shared, disk, Placing, threw, refused, stored, Started, ended, reading,
  place_start, place_end, write_segment, free_entry,
}
use shared_memory_fs.Cache.Registry.{Registry}

-- A block that is handed out: to a file whose reader still fills it, or to an entry; and the bytes
-- that were set or read so far, from its start.
pub record Block : Type 0 where
  pub slot : Slot
  pub bytes : List ℕ
  pub waits_for : Option File

pub record Heap : Type 0 where
  pub registry : Registry
  pub blocks : List Block

pub data Call : Type 0 where
  places : File → ℕ → Call
  reads : ℕ → List ℕ → Call
  reader_ends : ℕ → Call
  reader_throws : ℕ → Call
  frees : ℕ → Call

-- The block at an index, and the others.
pub take_out : ℕ → List Block → Option (Block × List Block)
take_out i [] = none
take_out zero (b ∷ bs) = some (b, bs)
take_out (suc i) (b ∷ bs) = elim (take_out i bs) [ none ↦ none | some (c, cs) ↦ some (c, b ∷ cs) ]

abbrev pub data_of : File → List ℕ
data_of file = elim file.bytes [ none ↦ [] | some bytes ↦ bytes ]

-- What the first half of `#place` adds to the blocks: an entry of no bytes owns none.
pub hold : List Block → File → Started → List Block
hold bs file (reading slot) = record { slot = slot; bytes = []; waits_for = some file } ∷ bs
hold bs file (ended (stored (shared slot stat extras))) =
    if slot.length == 0
    then bs
    else record { slot = slot; bytes = data_of file; waits_for = none } ∷ bs
hold bs file t = bs

-- One round of the loop of `readInto`, which reads into the view behind the bytes read so far, at
-- most as many as the view has left.
unfoldable pub read_chunk : Heap → Block → List Block → List ℕ → Heap
unfolding write_segment
read_chunk h b bs chunk =
    if leb (length b.bytes + length chunk) b.slot.length
    then record {
      registry = write_segment h.registry b.slot.segment_id (b.slot.offset + length b.bytes) chunk;
      blocks = record b { bytes = b.bytes ++ chunk } ∷ bs;
    }
    else h

-- The second half of `#place`.
unfoldable pub end_reading : Heap → Block → List Block → File → Bool → Heap
unfolding place_end
end_reading h b bs file filled =
    let (r, p) = place_end h.registry file b.slot filled in
    record { registry = r; blocks = if filled then record b { waits_for = none } ∷ bs else bs }

free_block : Registry → Block → Registry
free_block r b = free_entry r (
    shared b.slot (record { size = b.slot.length; mtime_ms = 0; of_source = none })
      (record { meta = none; script_options = none }))

-- A reader reads, ends once its view is full, or throws at any time; an entry is freed once.
-- Anything else does not happen, and changes nothing.
pub on_block : Heap → Call → Block → List Block → Heap
unfolding read_chunk end_reading free_block
on_block h (places file max_file_size) b bs = h
on_block h (reads i chunk) b bs = elim b.waits_for [
  | none ↦ h
  | some file ↦ read_chunk h b bs chunk
]
on_block h (reader_ends i) b bs = elim b.waits_for [
  | none ↦ h
  | some file ↦ if length b.bytes == b.slot.length then end_reading h b bs file true else h
]
on_block h (reader_throws i) b bs = elim b.waits_for [
  | none ↦ h
  | some file ↦ end_reading h b bs file false
]
on_block h (frees i) b bs = elim b.waits_for [
  | none ↦ record { registry = free_block h.registry b; blocks = bs }
  | some file ↦ h
]

abbrev pub index_of : Call → ℕ
index_of (places file max_file_size) = 0
index_of (reads i chunk) = i
index_of (reader_ends i) = i
index_of (reader_throws i) = i
index_of (frees i) = i

abbrev pub at_block : Heap → Call → Heap
at_block h c = elim (take_out (index_of c) h.blocks) [ none ↦ h | some (b, bs) ↦ on_block h c b bs ]

pub step : Bool → Heap → Call → Heap
unfolding hold place_start
step has_reader h (places file max_file_size) =
    let (r, t) = place_start h.registry has_reader file max_file_size in
    record { registry = r; blocks = hold h.blocks file t }
step has_reader h (reads i chunk) = at_block h (reads i chunk)
step has_reader h (reader_ends i) = at_block h (reader_ends i)
step has_reader h (reader_throws i) = at_block h (reader_throws i)
step has_reader h (frees i) = at_block h (frees i)

pub run : Bool → Heap → List Call → Heap
unfolding step
run has_reader h [] = h
run has_reader h (c ∷ cs) = run has_reader (step has_reader h c) cs
