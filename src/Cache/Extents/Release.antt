-- ===== src/Cache/Extents/Release.antt =====
-- `give_back` keeps the layout, frees exactly the block, and adds its length to the free total.
use shared_memory_fs.Prelude.{
  ℕ, zero, suc, ◌+◌, ◌≤◌, ◌<◌, ◌≡◌, false, ◌||◌, List, [], ◌∷◌, ltb, ◌⊎◌, inl, inr, arith, refl,
  Bool-cases,
}
use shared_memory_fs.Cache.Extents.{Extent, total_free, give_back, find_index, join}
use shared_memory_fs.Cache.Extents.Layout.{Layout, Apart, in_free, within, Layout-mono}

-- A block of an extent list, as a pair of numbers.
abbrev block : ℕ → ℕ → Extent
block o n = record { offset = o; length = n }

-- The block goes before the first extent, right after it, or deeper.
give_back_front :
    (o n : ℕ) (es : List Extent) → find_index o es ≡ 0 → give_back es o n ≡ join (block o n) es
unfolding give_back
give_back_front o n es h = rw h

give_back_after :
    (o n : ℕ) (e : Extent) (es : List Extent)
    → ltb o e.offset ≡ false
    → find_index o es ≡ 0
    → give_back (e ∷ es) o n ≡ join e (join (block o n) es)
unfolding give_back
give_back_after o n e es h k = rw (h, k)

give_back_deep :
    (o n k : ℕ) (e : Extent) (es : List Extent)
    → ltb o e.offset ≡ false
    → find_index o es ≡ suc k
    → give_back (e ∷ es) o n ≡ e ∷ give_back es o n
unfolding give_back
give_back_deep o n k e es h i = rw (h, i)

-- What one release does to a free list.
pub record Frees (p tail o n : ℕ) (es fs : List Extent) : Type 0 where
  pub layout : Layout p tail fs
  pub total : total_free fs ≡ total_free es + n
  pub members : (x : ℕ) → in_free x fs ≡ (in_free x es || within o n x)

join-Frees :
    (p tail o n : ℕ) (es : List Extent)
    → Layout p tail es
    → Apart o n es
    → p ≤ o
    → o + n ≤ tail
    → 0 < n
    → find_index o es ≡ 0
    → Frees p tail o n es (join (block o n) es)
unfolding join total_free in_free find_index
join-Frees p tail o n [] l a po on pos z = record {
  layout = ground arith;
  total = omega arith;
  members = λ x. ground arith;
}
join-Frees p tail o n (e ∷ es) l a po on pos z = record {
  layout = ground (arith, Layout-mono (o + n + 1) (e.offset + 1) tail es);
  total = ground arith;
  members = λ x. ground arith;
}

-- An extent joined with what follows it, from its own end on.
join_cons :
    (p tail : ℕ) (e : Extent) (fs : List Extent)
    → p ≤ e.offset
    → 0 < e.length
    → e.offset + e.length ≤ tail
    → Layout (e.offset + e.length) tail fs
    → Layout p tail (join e fs)
      × (total_free (join e fs) ≡ e.length + total_free fs)
      × ((x : ℕ) → in_free x (join e fs) ≡ (within e.offset e.length x || in_free x fs))
unfolding join total_free in_free
join_cons p tail e [] h pos b l = (ground arith, ground arith, λ x. ground arith)
join_cons p tail e (c ∷ fs) h pos b l = (ground arith, ground arith, λ x. ground arith)

-- Past no extent, the block may be the lower bound.
Layout-from :
    (q tail o : ℕ) (es : List Extent)
    → Layout q tail es
    → o ≤ tail
    → find_index o es ≡ 0
    → Layout o tail es
unfolding find_index
Layout-from q tail o [] l h z = omega arith
Layout-from q tail o (e ∷ es) l h z = ground arith

find_index-suc :
    (q tail o k : ℕ) (es : List Extent) → Layout q tail es → find_index o es ≡ suc k → q ≤ o
unfolding find_index
find_index-suc q tail o k [] l h = absurd (grind arith)
find_index-suc q tail o k (e ∷ es) l h = ground arith

ℕ-cases : (n : ℕ) → (n ≡ 0) ⊎ ((k : ℕ) × (n ≡ suc k))
ℕ-cases zero = inl refl
ℕ-cases (suc k) = inr (k, refl)

after-Frees :
    (p tail o n : ℕ) (e : Extent) (es : List Extent)
    → Layout p tail (e ∷ es)
    → Apart o n es
    → e.offset + e.length ≤ o
    → o + n ≤ tail
    → 0 < n
    → find_index o es ≡ 0
    → Frees p tail o n (e ∷ es) (join e (join (block o n) es))
unfolding total_free in_free
after-Frees p tail o n e es l a eo on pos z =
    let inner =
      join-Frees o tail o n es (Layout-from _ tail o es l.2 (omega arith) z) a (omega arith) on pos
        z in
    let fs = join (block o n) es in
    let outer =
      join_cons p tail e fs l.0 l.1 (omega arith) (Layout-mono _ o tail fs eo inner.layout) in
    record {
      layout = outer.0;
      total = omega (arith, outer.1, inner.total);
      members = λ x. ground (arith, outer.2 x, inner.members x);
    }

-- Releasing a block that meets no free extent keeps the free list in order and coalesced, frees
-- exactly the bytes of the block and adds its length to what is free.
pub give_back-Frees :
    (p tail o n : ℕ) (es : List Extent)
    → Layout p tail es
    → Apart o n es
    → p ≤ o
    → o + n ≤ tail
    → 0 < n
    → Frees p tail o n es (give_back es o n)
unfolding total_free in_free find_index
give_back-Frees p tail o n [] l a po on pos =
    rw (give_back_front o n [] refl) (join-Frees p tail o n [] l a po on pos refl)
give_back-Frees p tail o n (e ∷ es) l a po on pos = elim (Bool-cases (ltb o e.offset)) [
  | inl before ↦
      let z : find_index o (e ∷ es) ≡ 0 = rw before in
      rw (give_back_front o n (e ∷ es) z) (join-Frees p tail o n (e ∷ es) l a po on pos z)
  | inr after ↦ elim (ℕ-cases (find_index o es)) [
    | inl z ↦
        rw (give_back_after o n e es after z)
          (after-Frees p tail o n e es l a.1 (ground arith) on pos z)
    | inr (k, i) ↦
        let deep =
          give_back-Frees (e.offset + e.length + 1) tail o n es l.2 a.1
            (find_index-suc _ tail o k es l.2 i) on pos in
        rw (give_back_deep o n k e es after i) (record {
          layout = (l.0, l.1, deep.layout);
          total = omega (arith, deep.total);
          members = λ x. ground (arith, deep.members x);
        })
  ]
]
