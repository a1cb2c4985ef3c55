-- ===== src/Cache/Heap/Intact.antt =====
-- What holds of the blocks between calls, and the block that placing a file adds.
use shared_memory_fs.Prelude.{
  ℕ, ◌≡◌, ◌<◌, ◌≤◌, sym, length, Bool, false, true, ◌&&◌, ◌||◌, not, List, [], ◌∷◌, none, some,
  ◌==◌, nat_eq, arith, All, ◌∙◌, eq_of_beq,
}
use shared_memory_fs.Prelude.JsMap
use shared_memory_fs.Prelude.JsMap.{is_some}
use shared_memory_fs.Cache.Extents.Layout.{within}
use shared_memory_fs.Cache.Registry.{Registry}
use shared_memory_fs.Cache.Registry.Valid.{IsValid, owned}
use shared_memory_fs.Cache.Registry.Release.{Held, owned-tail}
use shared_memory_fs.Cache.Files.{File, Started, empty_entry}
use shared_memory_fs.Cache.Files.Views.{view, view_none}
use shared_memory_fs.Cache.Files.Place.{
  Placed, mismatched, too_big, no_source, no_bytes, bad_size, full, in_memory, waits, Reserves,
  size_of-length,
}
use shared_memory_fs.Cache.Heap.{Block, Heap, hold}
use shared_memory_fs.Cache.Heap.Blocks.{has, covers, Apart}

-- The view of a block shows the bytes set or read so far; an entry's block is full.
abbrev pub Intact : Registry → Block → Type 0
Intact r b =
    (0 < b.slot.length)
    × (length b.bytes ≤ b.slot.length)
    × (view r b.slot.segment_id b.slot.offset (length b.bytes) ≡ b.bytes)
    × (b.waits_for ≡ none → length b.bytes ≡ b.slot.length)

pub record Inv (h : Heap) : Type 0 where
  pub valid : IsValid h.registry
  pub exact : (j x : ℕ) → owned h.registry j x ≡ covers h.blocks j x
  pub apart : Apart h.blocks
  pub intact : All (Intact h.registry) h.blocks

-- A block that is handed out lies in a segment of the pool.
pub Held-there :
    (r : Registry) (id o n : ℕ)
    → IsValid r
    → 0 < n
    → Held r id o n
    → is_some (JsMap.get r.pool.segments id) ≡ true
Held-there r id o n v pos held =
    let (t, h) = owned-tail r id o (held o (ground arith)) in (v.segment id t h).there

pub covers-Held :
    (r : Registry) (b : Block)
    → ((j x : ℕ) → has b j x ≡ true → owned r j x ≡ true)
    → Held r b.slot.segment_id b.slot.offset b.slot.length
unfolding has
covers-Held r b h x w = h b.slot.segment_id x (ground arith)

-- The views inside the blocks of a list are kept.
abbrev KeepsBlocks : Registry → Registry → List Block → Type 0
KeepsBlocks r s bs =
    (j p n : ℕ)
    → ((x : ℕ) → within p n x ≡ true → covers bs j x ≡ true)
    → is_some (JsMap.get r.pool.segments j) ≡ true
    → view s j p n ≡ view r j p n

-- Blocks stay intact where the views inside them are kept.
pub Intact-kept :
    (r s : Registry) (bs : List Block)
    → IsValid r
    → KeepsBlocks r s bs
    → ((j x : ℕ) → covers bs j x ≡ true → owned r j x ≡ true)
    → All (Intact r) bs
    → All (Intact s) bs
unfolding covers has
Intact-kept r s [] v keep c a = tt
Intact-kept r s (b ∷ bs) v keep c a =
    let held = covers-Held r b (λ j x w. c j x (ground arith)) in
    let there = Held-there r _ _ _ v a.0.0 held in
    (
      (a.0.0, a.0.1, keep _ _ _ (λ x w. ground (arith, a.0.1)) there ∙ a.0.2, a.0.3),
      Intact-kept r s bs v (λ j p n w t. keep j p n (λ x i. ground (arith, w x i)) t)
          (λ j x w. c j x (ground arith)) a.1,
    )

-- A block's bytes leave the covered set with it.
pub split-exact :
    (b : Block) (bs : List Block) (j x : ℕ) (before after : Bool)
    → after ≡ (before && not (b.slot.segment_id == j && within b.slot.offset b.slot.length x))
    → before ≡ (has b j x || covers bs j x)
    → (has b j x ≡ true → covers bs j x ≡ false)
    → after ≡ covers bs j x
unfolding has
split-exact b bs j x before after o c a = ground arith

-- A block that is handed out to a file.
module _ (r : Registry) (bs : List Block) (inv : Inv (record { registry = r; blocks = bs })) where
  reserved-Inv :
      (s : Registry) (b : Block)
      → Reserves r s b.slot
      → Intact s b
      → Inv (record { registry = s; blocks = b ∷ bs })
  unfolding covers has
  reserved-Inv s b k new = record {
    valid = k.valid;
    exact = λ j x. ground (arith, k.owned_after j x, inv.exact j x);
    apart = (
      (λ j x w. ground (arith, k.spare x, inv.exact j x, eq_of_beq b.slot.segment_id j)),
      inv.apart,
    );
    intact = (
      new,
      Intact-kept r s bs inv.valid (λ j p n w t. k.others j p n (λ x i. inv.exact j x ∙ w x i) t)
          (λ j x c. inv.exact j x ∙ c) inv.intact,
    );
  }

  pub Placed-Inv :
      (has_reader : Bool) (file : File) (max_file_size : ℕ) (s : Registry) (t : Started)
      → Placed r has_reader file max_file_size s t
      → Inv (record { registry = s; blocks = hold bs file t })
  unfolding hold view
  Placed-Inv has_reader file max_file_size s t (mismatched e) = inv
  Placed-Inv has_reader file max_file_size s t (too_big e f) = inv
  Placed-Inv has_reader file max_file_size s t (no_source e f g u) = inv
  Placed-Inv has_reader file max_file_size s t (no_bytes e f z) = unfold empty_entry in inv
  Placed-Inv has_reader file max_file_size s t (bad_size a e) = inv
  Placed-Inv has_reader file max_file_size s t (full a e) = inv
  Placed-Inv has_reader file max_file_size s t (in_memory slot bytes a e k len shows) =
      let nz : (slot.length == 0) ≡ false =
        ground (arith, size_of-length file bytes e, a.some_bytes) in
      rw (nz, e)
        (reserved-Inv s (record { slot = slot; bytes = bytes; waits_for = none }) k
          (ground arith, omega arith, rw (← len) shows, λ w. sym len))
  Placed-Inv has_reader file max_file_size s t (waits slot a e k len) =
      reserved-Inv s (record { slot = slot; bytes = []; waits_for = some file }) k
        (
          omega (arith, a.some_bytes),
          omega arith,
          view_none s slot.segment_id slot.offset,
          λ w. absurd (cc),
        )
