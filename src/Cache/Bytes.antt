-- ===== src/Cache/Bytes.antt =====
-- The bytes of a SharedArrayBuffer: a Uint8Array view over it, read and set.
use shared_memory_fs.Prelude.{
  ℕ, zero, suc, ◌+◌, ◌≤◌, ◌<◌, ◌≡◌, false, true, ◌&&◌, List, [], ◌∷◌, ◌++◌, leb, arith, refl, ap,
  if◌then◌else◌, length,
}
use shared_memory_fs.Cache.Pool.{Sab}
use shared_memory_fs.Cache.Extents.Layout.{within}

-- `view.set(data)` of a view at `offset`.
unfoldable pub write_sab : Sab → ℕ → List ℕ → Sab
write_sab sab offset [] = sab
write_sab sab offset (b ∷ bs) =
    let rest = write_sab sab (suc offset) bs in
    λ x. if leb x offset && leb offset x then b else rest x

-- The bytes of `Buffer.from(sab, offset, length)`.
unfoldable pub read_sab : Sab → ℕ → ℕ → List ℕ
read_sab sab offset zero = []
read_sab sab offset (suc n) = sab offset ∷ read_sab sab (suc offset) n

pub write_sab-outside :
    (sab : Sab) (o x : ℕ) (bs : List ℕ)
    → within o (length bs) x ≡ false
    → write_sab sab o bs x ≡ sab x
unfolding write_sab
write_sab-outside sab o x [] h = refl
write_sab-outside sab o x (b ∷ bs) h = ground (arith, write_sab-outside sab (suc o) x bs)

read_sab-same :
    (s t : Sab) (o n : ℕ)
    → ((x : ℕ) → o ≤ x → x < o + n → s x ≡ t x)
    → read_sab s o n ≡ read_sab t o n
unfolding read_sab
read_sab-same s t o zero h = refl
read_sab-same s t o (suc n) h =
    ground (arith, h o, read_sab-same s t (suc o) n (λ x a b. h x (omega arith) (omega arith)))

-- A view reads back what was set in it.
pub read-write :
    (sab : Sab) (o : ℕ) (bs : List ℕ) → read_sab (write_sab sab o bs) o (length bs) ≡ bs
unfolding read_sab write_sab
read-write sab o [] = refl
read-write sab o (b ∷ bs) =
    let tail =
      read_sab-same (write_sab sab o (b ∷ bs)) (write_sab sab (suc o) bs) (suc o) (length bs)
        (λ x l u. ground arith) in
    ground (arith, tail, read-write sab (suc o) bs)

-- Setting one view of a segment leaves a view that shares no byte with it as it was.
pub read-write_apart :
    (sab : Sab) (o p n : ℕ) (bs : List ℕ)
    → ((x : ℕ) → within p n x ≡ true → within o (length bs) x ≡ false)
    → read_sab (write_sab sab o bs) p n ≡ read_sab sab p n
read-write_apart sab o p n bs h =
    read_sab-same (write_sab sab o bs) sab p n
      (λ x l u. write_sab-outside sab o x bs (h x (ground arith)))

-- A view is its first part followed by the rest.
pub read_sab-append :
    (sab : Sab) (o m n : ℕ) → read_sab sab o (m + n) ≡ read_sab sab o m ++ read_sab sab (o + m) n
unfolding read_sab
read_sab-append sab o zero n = ground arith
read_sab-append sab o (suc m) n =
    let sum : suc m + n ≡ suc (m + n) = omega arith in
    let start : o + suc m ≡ suc o + m = omega arith in
    rw (sum, start) (ap (λ bytes. sab o ∷ bytes) (read_sab-append sab (suc o) m n))
