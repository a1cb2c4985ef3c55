-- ===== src/Cache/Extents.antt =====
-- The free extents of one segment (lib/cache.js, class SegmentRegistry): the insertion and
-- coalescing of `release` and `mergeSiblings`, and the cut that `allocate` makes in an extent.
pub mod Layout
pub mod Release
pub mod Carve
use shared_memory_fs.Prelude.{
  ℕ, zero, suc, ◌+◌, ◌-◌, Bool, false, ◌&&◌, ◌||◌, List, [], ◌∷◌, ltb, leb, ◌==◌, nat_eq,
  if◌then◌else◌,
}

pub record Extent : Type 0 where
  pub offset : ℕ
  pub length : ℕ

-- `extents.findIndex((e) => e.offset > offset)`, or the number of extents.
find_index : ℕ → List Extent → ℕ
find_index offset [] = 0
find_index offset (e ∷ es) = if ltb offset e.offset then 0 else suc (find_index offset es)

-- `extents.splice(index, 0, { offset, length })`
insert_at : ℕ → Extent → List Extent → List Extent
insert_at zero x es = x ∷ es
insert_at (suc i) x [] = x ∷ []
insert_at (suc i) x (e ∷ es) = e ∷ insert_at i x es

-- An extent takes in the one after it if they touch.
join : Extent → List Extent → List Extent
join c [] = c ∷ []
join c (n ∷ es) =
    if c.offset + c.length == n.offset
    then record c { length = c.length + n.length } ∷ es
    else c ∷ n ∷ es

-- The first test of `mergeSiblings`: `extents[index]` with the extent after it.
merge_next : List Extent → ℕ → List Extent
unfolding join
merge_next [] i = []
merge_next (c ∷ es) zero = join c es
merge_next (c ∷ es) (suc i) = c ∷ merge_next es i

-- The second test: the extent before `extents[index]`, if any, with that one.
merge_prev : List Extent → ℕ → List Extent
unfolding join
merge_prev es zero = es
merge_prev [] (suc i) = []
merge_prev (p ∷ es) (suc zero) = join p es
merge_prev (p ∷ es) (suc (suc i)) = p ∷ merge_prev es (suc i)

pub merge_siblings : List Extent → ℕ → List Extent
unfolding merge_next merge_prev
merge_siblings es index = merge_prev (merge_next es index) index

-- The list part of `release`.
unfoldable pub give_back : List Extent → ℕ → ℕ → List Extent
unfolding find_index insert_at merge_siblings
give_back es offset length =
    let index = find_index offset es in
    merge_siblings (insert_at index (record { offset = offset; length = length }) es) index

-- The cut that `allocate` makes in the extent at `index`: all of it, or its front.
unfoldable pub carve : List Extent → ℕ → ℕ → List Extent
carve [] index size = []
carve (e ∷ es) zero size =
    if e.length == size
    then es
    else record { offset = e.offset + size; length = e.length - size } ∷ es
carve (e ∷ es) (suc index) size = e ∷ carve es index size

-- The sum in `used`.
unfoldable pub total_free : List Extent → ℕ
total_free [] = 0
total_free (e ∷ es) = e.length + total_free es
