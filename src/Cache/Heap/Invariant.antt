-- ===== src/Cache/Heap/Invariant.antt =====
-- The blocks of the heap through each call (lib/cache.js, #place and free; lib/kernel.js, readInto).
use shared_memory_fs.Prelude.{
  ℕ, ◌≡◌, ◌≤◌, ◌+◌, length, length-append, leb, Bool, false, true, List, [], ◌∷◌, ◌++◌, none, some,
  ◌==◌, nat_eq, arith, refl, All, Option-cases, Bool-cases, inl, inr, ◌∙◌,
}
use shared_memory_fs.Prelude.JsMap
use shared_memory_fs.Prelude.JsMap.{is_some}
use shared_memory_fs.Cache.Pool.{new_pool}
use shared_memory_fs.Cache.Pool.Valid.{new_pool-PoolValid}
use shared_memory_fs.Cache.Registry.{Registry, new_registry}
use shared_memory_fs.Cache.Registry.Valid.{owned}
use shared_memory_fs.Cache.Registry.Release.{Held, TakesBack}
use shared_memory_fs.Cache.Files.{File, place_end, write_segment}
use shared_memory_fs.Cache.Files.Views.{view, view_same, view-append, Writes, write_segment-Writes}
use shared_memory_fs.Cache.Files.Freeing.{free_entry-TakesBack, release_block-TakesBack}
use shared_memory_fs.Cache.Files.Place.{place_start-Placed}
use shared_memory_fs.Cache.Heap.{
  Block, Heap, Call, places, reads, reader_ends, reader_throws, frees, take_out, free_block,
  read_chunk, end_reading, on_block, at_block, index_of, step, run,
}
use shared_memory_fs.Cache.Heap.Blocks.{has, covers, Splits, take_out-Splits, take_out-All}
use shared_memory_fs.Cache.Heap.Intact.{
  Intact, Inv, Held-there, covers-Held, Intact-kept, split-exact, Placed-Inv,
}

-- A block of the heap, with the others.
module _ (r : Registry) (all : List Block) (inv : Inv (record { registry = r; blocks = all }))
    (i : ℕ) (b : Block) (bs : List Block) (e : take_out i all ≡ some (b, bs)) where
  splits : Splits all b bs
  splits = take_out-Splits i all b bs inv.apart e

  parts : Intact r b × All (Intact r) bs
  parts = take_out-All (Intact r) i all b bs inv.intact e

  block-Held : Held r b.slot.segment_id b.slot.offset b.slot.length
  block-Held = covers-Held r b (λ j x w. ground (arith, inv.exact j x, splits.covered j x))

  rest-owned : (j x : ℕ) → covers bs j x ≡ true → owned r j x ≡ true
  rest-owned j x c = ground (arith, inv.exact j x, splits.covered j x)

  -- The block is given back.
  taken-Inv :
      (s : Registry)
      → TakesBack r s b.slot.segment_id b.slot.offset b.slot.length
      → Inv (record { registry = s; blocks = bs })
  taken-Inv s k = record {
    valid = k.valid;
    exact = λ j x.
        split-exact b bs j x (owned r j x) _ (k.owned_after j x)
          (inv.exact j x ∙ splits.covered j x) (splits.alone j x);
    apart = splits.apart;
    intact =
        Intact-kept r s bs inv.valid (λ j p n _ _. view_same r s j p n (rw k.segments refl))
          rest-owned parts.1;
  }

  freed-Inv : Inv (record { registry = free_block r b; blocks = bs })
  unfolding free_block
  freed-Inv = taken-Inv _ (free_entry-TakesBack r b.slot _ _ inv.valid parts.0.0 block-Held)

  -- The reader reads behind what it has read.
  module _ (file : File) (waiting : b.waits_for ≡ some file) (chunk : List ℕ)
      (fits : length b.bytes + length chunk ≤ b.slot.length) where
    abbrev filled : Registry
    filled = write_segment r b.slot.segment_id (b.slot.offset + length b.bytes) chunk

    there : is_some (JsMap.get r.pool.segments b.slot.segment_id) ≡ true
    there = Held-there r _ _ _ inv.valid parts.0.0 block-Held

    chunk-Writes : Writes r filled b.slot.segment_id (b.slot.offset + length b.bytes) chunk
    chunk-Writes =
        write_segment-Writes r b.slot.segment_id (b.slot.offset + length b.bytes) chunk inv.valid
          there

    view-chunk :
        view filled b.slot.segment_id b.slot.offset (length (b.bytes ++ chunk)) ≡ b.bytes ++ chunk
    view-chunk =
        let before =
          chunk-Writes.other b.slot.segment_id b.slot.offset (length b.bytes)
            (λ same x inside. ground arith) in
        rw
          (
            length-append b.bytes chunk,
            view-append filled b.slot.segment_id b.slot.offset (length b.bytes) (length chunk),
            before,
            parts.0.2,
            chunk-Writes.self,
          )
          refl

    read-Inv :
        Inv (record { registry = filled; blocks = record b { bytes = b.bytes ++ chunk } ∷ bs })
    unfolding covers has
    read-Inv = record {
      valid = chunk-Writes.valid;
      exact = λ j x. chunk-Writes.owned_same j x ∙ (inv.exact j x ∙ splits.covered j x);
      apart = (splits.alone, splits.apart);
      intact = (
        (parts.0.0, omega (arith, length-append b.bytes chunk, fits), view-chunk, λ w. absurd (cc)),
        Intact-kept r filled bs inv.valid
            (λ j p n w t.
              chunk-Writes.other j p n
                (λ same x inside. ground (arith, w x inside, splits.alone j x)))
            rest-owned parts.1,
      );
    }

  chunk-Inv :
      (file : File)
      → b.waits_for ≡ some file
      → (chunk : List ℕ) → Inv (read_chunk (record { registry = r; blocks = all }) b bs chunk)
  unfolding read_chunk
  chunk-Inv file w chunk = elim (Bool-cases (leb (length b.bytes + length chunk) b.slot.length)) [
    | inl fits ↦ rw (fits, read_chunk) (read-Inv file w chunk (ground arith))
    | inr over ↦ rw (over, read_chunk) inv
  ]

  -- The reader has filled the view: the block is an entry's.
  filled-Inv :
      length b.bytes ≡ b.slot.length
      → Inv (record { registry = r; blocks = record b { waits_for = none } ∷ bs })
  unfolding covers has
  filled-Inv whole = record {
    valid = inv.valid;
    exact = λ j x. inv.exact j x ∙ splits.covered j x;
    apart = (splits.alone, splits.apart);
    intact = ((parts.0.0, parts.0.1, parts.0.2, λ w. whole), parts.1);
  }

  end-Inv :
      (file : File) (filled : Bool)
      → (filled ≡ true → length b.bytes ≡ b.slot.length)
      → Inv (end_reading (record { registry = r; blocks = all }) b bs file filled)
  unfolding end_reading place_end
  end-Inv file true whole = filled-Inv (whole refl)
  end-Inv file false whole = taken-Inv _ (
      release_block-TakesBack r b.slot.segment_id b.slot.offset b.slot.length inv.valid parts.0.0
        block-Held)

  on_block-Inv : (c : Call) → Inv (on_block (record { registry = r; blocks = all }) c b bs)
  unfolding on_block
  on_block-Inv (places file max_file_size) = inv
  on_block-Inv (reads k chunk) = elim (Option-cases b.waits_for) [
    | inl w ↦ rw (w, on_block) inv
    | inr (file, w) ↦ rw (w, on_block) (chunk-Inv file w chunk)
  ]
  on_block-Inv (reader_ends k) = elim (Option-cases b.waits_for) [
    | inl w ↦ rw (w, on_block) inv
    | inr (file, w) ↦ elim (Bool-cases (length b.bytes == b.slot.length)) [
      | inl whole ↦ rw (w, whole, on_block) (end-Inv file true (λ t. ground arith))
      | inr part ↦ rw (w, part, on_block) inv
    ]
  ]
  on_block-Inv (reader_throws k) = elim (Option-cases b.waits_for) [
    | inl w ↦ rw (w, on_block) inv
    | inr (file, w) ↦ rw (w, on_block) (end-Inv file false (λ t. absurd (cc)))
  ]
  on_block-Inv (frees k) = elim (Option-cases b.waits_for) [
    | inl w ↦ rw (w, on_block) freed-Inv
    | inr (file, w) ↦ rw (w, on_block) inv
  ]

at_block-Inv : (h : Heap) (c : Call) → Inv h → Inv (at_block h c)
at_block-Inv h c inv = elim (Option-cases (take_out (index_of c) h.blocks)) [
  | inl e ↦ rw (e, at_block) inv
  | inr ((b, bs), e) ↦ rw (e, at_block) (on_block-Inv h.registry h.blocks inv (index_of c) b bs e c)
]

step-Inv : (has_reader : Bool) (h : Heap) (c : Call) → Inv h → Inv (step has_reader h c)
unfolding step
step-Inv has_reader h (places file max_file_size) inv =
    Placed-Inv h.registry h.blocks inv has_reader file max_file_size _ _
      (place_start-Placed h.registry has_reader file max_file_size inv.valid)
step-Inv has_reader h (reads i chunk) inv = at_block-Inv h (reads i chunk) inv
step-Inv has_reader h (reader_ends i) inv = at_block-Inv h (reader_ends i) inv
step-Inv has_reader h (reader_throws i) inv = at_block-Inv h (reader_throws i) inv
step-Inv has_reader h (frees i) inv = at_block-Inv h (frees i) inv

-- After any sequence of calls, from any state with the invariant, where the two halves of several
-- `#place` calls, what their readers write meanwhile, readers that throw and freed entries are
-- interleaved in any order: the registry is valid, no two blocks share a byte, the bytes handed
-- out are exactly those of the entries and of the files that still wait for their readers, and the
-- view of each block shows what was set or read into it, which for an entry is the whole block.
pub run-Inv : (has_reader : Bool) (h : Heap) (cs : List Call) → Inv h → Inv (run has_reader h cs)
unfolding run
run-Inv has_reader h [] inv = inv
run-Inv has_reader h (c ∷ cs) inv =
    run-Inv has_reader (step has_reader h c) cs (step-Inv has_reader h c inv)

abbrev pub new_heap : ℕ → ℕ → Heap
new_heap limit segment_size = record {
  registry = new_registry (new_pool limit segment_size);
  blocks = [];
}

pub new_heap-Inv : (limit segment_size : ℕ) → Inv (new_heap limit segment_size)
unfolding new_registry new_pool owned JsMap.get covers
new_heap-Inv limit segment_size = record {
  valid = record {
    pool = new_pool-PoolValid limit segment_size;
    segment = λ id t h. absurd (cc);
    unlisted = λ id h. refl;
    free_map = tt;
    tail_map = tt;
  };
  exact = λ j x. refl;
  apart = tt;
  intact = tt;
}
