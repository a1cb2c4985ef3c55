-- ===== src/Cache/Extents/Layout.antt =====
-- The shape of a free list, and the set of offsets that it holds.
use shared_memory_fs.Prelude.{
  ℕ, ◌+◌, ◌≤◌, ◌<◌, ◌≡◌, Bool, false, ◌&&◌, ◌||◌, List, [], ◌∷◌, ltb, leb, ◌⊎◌, inr, arith, true,
}
use shared_memory_fs.Cache.Extents.{Extent, total_free}

-- Extents from `p` on below `tail`: not empty, in order, and a gap between any two.
abbrev pub Layout : ℕ → ℕ → List Extent → Type 0
Layout p tail [] = p ≤ tail + 1
Layout p tail (e ∷ es) = (p ≤ e.offset) × (0 < e.length) × Layout (e.offset + e.length + 1) tail es

-- x lies in [offset, offset + length).
abbrev pub within : ℕ → ℕ → ℕ → Bool
within offset length x = leb offset x && ltb x (offset + length)

unfoldable pub in_free : ℕ → List Extent → Bool
in_free x [] = false
in_free x (e ∷ es) = within e.offset e.length x || in_free x es

pub Layout-mono : (p q tail : ℕ) (es : List Extent) → p ≤ q → Layout q tail es → Layout p tail es
Layout-mono p q tail [] h l = omega arith
Layout-mono p q tail (e ∷ es) h l = (omega arith, l.1, l.2)

pub Layout-grow : (p t u : ℕ) (es : List Extent) → t ≤ u → Layout p t es → Layout p u es
Layout-grow p t u [] h l = omega arith
Layout-grow p t u (e ∷ es) h l = (l.0, l.1, Layout-grow (e.offset + e.length + 1) t u es h l.2)

-- The free extents fit between the bounds.
pub total_free-le :
    (p tail : ℕ) (es : List Extent) → Layout p tail es → p + total_free es ≤ tail + 1
unfolding total_free
total_free-le p tail [] l = omega arith
total_free-le p tail (e ∷ es) l = omega (arith, total_free-le (e.offset + e.length + 1) tail es l.2)

-- What is free lies between the bounds.
pub in_free-bounds :
    (p tail x : ℕ) (es : List Extent)
    → Layout p tail es
    → in_free x es ≡ true
    → (p ≤ x) × (x < tail)
unfolding in_free
in_free-bounds p tail x [] l h = absurd (grind arith)
in_free-bounds p tail x (e ∷ es) l h = ground (
  arith,
  in_free-bounds (e.offset + e.length + 1) tail x es l.2,
  total_free-le (e.offset + e.length + 1) tail es l.2,
)

-- A block that meets no free extent.
abbrev pub Apart : ℕ → ℕ → List Extent → Type 0
Apart o n [] = Unit {0}
Apart o n (e ∷ es) = ((e.offset + e.length ≤ o) ⊎ (o + n ≤ e.offset)) × Apart o n es

-- A block that starts before every extent of a list, and meets none.
pub Apart-below : (p tail o n : ℕ) (es : List Extent) → Layout p tail es → o + n ≤ p → Apart o n es
Apart-below p tail o n [] l h = tt
Apart-below p tail o n (e ∷ es) l h =
    (inr (omega arith), Apart-below (e.offset + e.length + 1) tail o n es l.2 (omega arith))

-- Where no offset of a block is free, it meets no free extent.
pub Apart-of_taken :
    (p tail o n : ℕ) (es : List Extent)
    → Layout p tail es
    → 0 < n
    → ((x : ℕ) → within o n x ≡ true → in_free x es ≡ false)
    → Apart o n es
unfolding in_free
Apart-of_taken p tail o n [] l pos h = tt
Apart-of_taken p tail o n (e ∷ es) l pos h = (
  ground (arith, h o, h e.offset),
  Apart-of_taken (e.offset + e.length + 1) tail o n es l.2 pos (λ x i. ground (arith, h x)),
)
