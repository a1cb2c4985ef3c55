-- ===== src/Cache/Extents/Carve.antt =====
-- `carve` keeps the layout, takes exactly the block it hands out, and subtracts its size.
use shared_memory_fs.Prelude.{
  ℕ, zero, suc, ◌+◌, ◌≤◌, ◌<◌, ◌≡◌, ◌&&◌, not, List, [], ◌∷◌, arith, true, get_elem?, some,
}
use shared_memory_fs.Cache.Extents.{Extent, total_free, carve}
use shared_memory_fs.Cache.Extents.Layout.{Layout, in_free, within, Layout-mono, in_free-bounds}

pub record Takes (p tail o n : ℕ) (es fs : List Extent) : Type 0 where
  pub layout : Layout p tail fs
  pub total : total_free fs + n ≡ total_free es
  pub was_free : (x : ℕ) → within o n x ≡ true → in_free x es ≡ true
  pub members : (x : ℕ) → in_free x fs ≡ (in_free x es && not (within o n x))

-- Cutting a block from the front of a free extent that is long enough keeps the free list in order
-- and coalesced, takes exactly the bytes of the block, which were free, and subtracts its length
-- from what is free.
pub carve-Takes :
    (p tail i n : ℕ) (e : Extent) (es : List Extent)
    → Layout p tail es
    → get_elem? es i ≡ some e
    → 0 < n
    → n ≤ e.length
    → Takes p tail e.offset n es (carve es i n)
unfolding carve total_free in_free
carve-Takes p tail i n e [] l g pos h = cc
carve-Takes p tail zero n e (f ∷ es) l g pos h = record {
  layout = ground (arith, Layout-mono p (f.offset + f.length + 1) tail es);
  total = ground arith;
  was_free = λ x w. ground arith;
  members = λ x. ground (arith, in_free-bounds (f.offset + f.length + 1) tail x es);
}
carve-Takes p tail (suc i) n e (f ∷ es) l g pos h =
    let rest = carve-Takes (f.offset + f.length + 1) tail i n e es l.2 g pos h in
    record {
      layout = (l.0, l.1, rest.layout);
      total = omega (arith, rest.total);
      was_free = λ x w. ground (arith, rest.was_free x);
      members = λ x. ground (
        arith,
        rest.members x,
        rest.was_free x,
        in_free-bounds (f.offset + f.length + 1) tail x es,
      );
    }
