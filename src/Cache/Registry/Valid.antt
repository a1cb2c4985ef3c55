-- ===== src/Cache/Registry/Valid.antt =====
-- The invariant of the registry, and the bytes that it has handed out.
use shared_memory_fs.Prelude.{
  ℕ, ◌+◌, ◌≤◌, ◌≡◌, Bool, false, true, ◌&&◌, ◌||◌, not, List, none, some, ltb, nat_eq, ◌==◌,
  Bool-cases, inl, inr, subst, eq_of_beq, beq_refl, ◌∙◌, arith,
}
use shared_memory_fs.Prelude.JsMap
use shared_memory_fs.Prelude.JsMap.{IsMap, is_some}
use shared_memory_fs.Prelude.JsSet.{contains}
use shared_memory_fs.Cache.Extents.{Extent}
use shared_memory_fs.Cache.Extents.Layout.{Layout, in_free, within}
use shared_memory_fs.Cache.Pool.{Sab}
use shared_memory_fs.Cache.Pool.Valid.{PoolValid}
use shared_memory_fs.Cache.Registry.{Registry, extents}

-- A registered segment with its tail: its free list, in order below the tail, and its room.
pub record SegmentValid (r : Registry) (id t : ℕ) : Type 0 where
  pub es : List Extent
  pub listed : JsMap.get r.free id ≡ some es
  pub layout : Layout 0 t es
  pub in_size : t ≤ r.pool.segment_size
  pub there : is_some (JsMap.get r.pool.segments id) ≡ true
  pub not_empty : contains r.pool.empty_segment_ids id ≡ false

pub record IsValid (r : Registry) : Type 0 where
  pub pool : PoolValid r.pool
  pub segment : (id t : ℕ) → JsMap.get r.tail id ≡ some t → SegmentValid r id t
  pub unlisted : (id : ℕ) → JsMap.get r.tail id ≡ none → JsMap.get r.free id ≡ none
  pub free_map : IsMap r.free
  pub tail_map : IsMap r.tail

-- The byte at `x` of segment `id` is handed out: below the tail, and in no free extent.
unfoldable pub owned : Registry → ℕ → ℕ → Bool
owned r id x = elim (JsMap.get r.tail id) [
  | none ↦ false
  | some t ↦ ltb x t && not (in_free x (extents r id))
]

-- What a granted block changes: its bytes were nobody's, lie inside a segment of the pool, and
-- are the only ones handed out; no byte of any segment is written.
pub record Grants (r s : Registry) (size id offset : ℕ) : Type 0 where
  pub valid : IsValid s
  pub inside : offset + size ≤ r.pool.segment_size
  pub there : is_some (JsMap.get s.pool.segments id) ≡ true
  pub spare : (x : ℕ) → within offset size x ≡ true → owned r id x ≡ false
  pub owned_after : (j x : ℕ) → owned s j x ≡ (owned r j x || (id == j && within offset size x))
  pub bytes :
      (j : ℕ) (b : Sab)
      → JsMap.get r.pool.segments j ≡ some b
      → JsMap.get s.pool.segments j ≡ some b
  pub limit : s.pool.limit ≡ r.pool.limit
  pub segment_size : s.pool.segment_size ≡ r.pool.segment_size

pub owned-eval :
    (r : Registry) (id x t : ℕ) (es : List Extent)
    → JsMap.get r.tail id ≡ some t
    → JsMap.get r.free id ≡ some es
    → owned r id x ≡ (ltb x t && not (in_free x es))
unfolding owned
owned-eval r id x t es h k = ground arith

pub owned_same :
    (r s : Registry) (j x : ℕ)
    → JsMap.get s.tail j ≡ JsMap.get r.tail j
    → JsMap.get s.free j ≡ JsMap.get r.free j
    → owned s j x ≡ owned r j x
unfolding owned
owned_same r s j x h k = ground arith

pub SegmentValid-same :
    {r s : Registry} (j t : ℕ)
    → SegmentValid r j t
    → JsMap.get s.free j ≡ JsMap.get r.free j
    → s.pool ≡ r.pool
    → SegmentValid s j t
SegmentValid-same {r} {s} j t v h p = record {
  es = v.es;
  listed = h ∙ v.listed;
  layout = v.layout;
  in_size = rw p v.in_size;
  there = rw p v.there;
  not_empty = rw p v.not_empty;
}

-- A change of one segment's lists: what it does to the handed-out bytes of every segment.
pub owned_at :
    (r s : Registry) (id j x t u o n : ℕ) (es fs : List Extent)
    → JsMap.get r.tail id ≡ some t
    → JsMap.get r.free id ≡ some es
    → JsMap.get s.tail id ≡ some u
    → JsMap.get s.free id ≡ some fs
    → ((id == j) ≡ false → JsMap.get s.tail j ≡ JsMap.get r.tail j)
    → ((id == j) ≡ false → JsMap.get s.free j ≡ JsMap.get r.free j)
    → (ltb x u && not (in_free x fs)) ≡ (ltb x t && not (in_free x es) || within o n x)
    → owned s j x ≡ (owned r j x || (id == j && within o n x))
owned_at r s id j x t u o n es fs rt rf st sf ot of h = elim (Bool-cases (id == j)) [
  | inl e ↦
      subst (λ k. owned s k x ≡ (owned r k x || (id == k && within o n x))) (eq_of_beq id j e)
        (simp (owned-eval s id x u fs st sf, owned-eval r id x t es rt rf, beq_refl) h)
  | inr e ↦ rw (e, owned_same r s j x (ot e) (of e)) (or_false (owned r j x))
]
  where
    or_false : (b : Bool) → b ≡ (b || false)
    or_false b = ground arith
