-- ===== src/Cache/Heap/Blocks.antt =====
-- The set of bytes that a list of blocks covers.
use shared_memory_fs.Prelude.{
  ℕ, zero, suc, ◌≡◌, Bool, false, true, ◌&&◌, ◌||◌, List, [], ◌∷◌, some, ◌==◌, nat_eq, arith, refl,
  All, Option-cases, inl, inr,
}
use shared_memory_fs.Cache.Extents.Layout.{within}
use shared_memory_fs.Cache.Heap.{Block, take_out}

unfoldable pub has : Block → ℕ → ℕ → Bool
has b j x = b.slot.segment_id == j && within b.slot.offset b.slot.length x

unfoldable pub covers : List Block → ℕ → ℕ → Bool
covers [] j x = false
covers (b ∷ bs) j x = has b j x || covers bs j x

-- No two blocks share a byte.
abbrev pub Apart : List Block → Type 0
Apart [] = Unit {0}
Apart (b ∷ bs) = ((j x : ℕ) → has b j x ≡ true → covers bs j x ≡ false) × Apart bs

-- Taking a block out of a list.
pub record Splits (live : List Block) (b : Block) (bs : List Block) : Type 0 where
  pub covered : (j x : ℕ) → covers live j x ≡ (has b j x || covers bs j x)
  pub alone : (j x : ℕ) → has b j x ≡ true → covers bs j x ≡ false
  pub apart : Apart bs

pub take_out-Splits :
    (i : ℕ) (live : List Block) (b : Block) (bs : List Block)
    → Apart live
    → take_out i live ≡ some (b, bs)
    → Splits live b bs
unfolding take_out covers
take_out-Splits i [] b bs a h = absurd (ground arith)
take_out-Splits zero (c ∷ live) b bs a h =
    let e : (b ≡ c) × (bs ≡ live) = ground arith in
    rw (e.0, e.1) (record { covered = λ j x. refl; alone = a.0; apart = a.1 })
take_out-Splits (suc i) (c ∷ live) b bs a h = elim (Option-cases (take_out i live)) [
  | inl e ↦ absurd (ground arith)
  | inr ((d, ds), e) ↦
      let k = take_out-Splits i live d ds a.1 e in
      let q : (b ≡ d) × (bs ≡ c ∷ ds) = ground arith in
      rw (q.0, q.1)
        (record {
          covered = λ j x. ground (arith, k.covered j x);
          alone = λ j x w. ground (arith, k.alone j x w, a.0 j x, k.covered j x);
          apart = ((λ j x w. ground (arith, a.0 j x w, k.covered j x)), k.apart);
        })
]

pub take_out-All {κ} :
    (P : Block → Type κ) (i : ℕ) (live : List Block) (b : Block) (bs : List Block)
    → All P live
    → take_out i live ≡ some (b, bs)
    → P b × All P bs
unfolding take_out
take_out-All P i [] b bs a h = absurd (ground arith)
take_out-All P zero (c ∷ live) b bs a h =
    let e : (b ≡ c) × (bs ≡ live) = ground arith in rw (e.0, e.1) a
take_out-All P (suc i) (c ∷ live) b bs a h = elim (Option-cases (take_out i live)) [
  | inl e ↦ absurd (ground arith)
  | inr ((d, ds), e) ↦
      let k = take_out-All P i live d ds a.1 e in
      let q : (b ≡ d) × (bs ≡ c ∷ ds) = ground arith in rw (q.0, q.1) (k.0, (a.0, k.1))
]
