-- ===== src/Cache/Files/Views.antt =====
-- The bytes of a block, and what writing another block does to them.
use shared_memory_fs.Prelude.{
  ℕ, ◌≡◌, ◌+◌, ◌++◌, false, true, List, [], ◌∷◌, none, some, nat_eq, ◌==◌, arith, refl, length,
  Bool-cases, Option-cases, inl, inr, eq_of_beq, subst, ◌∙◌,
}
use shared_memory_fs.Prelude.JsMap
use shared_memory_fs.Prelude.JsMap.{get-set, is_some, JsMap}
use shared_memory_fs.Cache.Extents.Layout.{within}
use shared_memory_fs.Cache.Bytes.{
  read_sab, write_sab, read-write, read-write_apart, read_sab-append,
}
use shared_memory_fs.Cache.Pool.{Sab}
use shared_memory_fs.Cache.Pool.Valid.{PoolValid}
use shared_memory_fs.Cache.Registry.{Registry}
use shared_memory_fs.Cache.Registry.Valid.{IsValid, owned}
use shared_memory_fs.Cache.Files.{write_segment}

-- The bytes of the view over a block, none of a segment that is not in the pool.
unfoldable pub view : Registry → ℕ → ℕ → ℕ → List ℕ
view r id o n = elim (JsMap.get r.pool.segments id) [ none ↦ [] | some sab ↦ read_sab sab o n ]

pub view-at :
    (r : Registry) (id o n : ℕ) (sab : Sab)
    → JsMap.get r.pool.segments id ≡ some sab
    → view r id o n ≡ read_sab sab o n
unfolding view
view-at r id o n sab h = ground arith

pub view-append :
    (r : Registry) (id o m n : ℕ) → view r id o (m + n) ≡ view r id o m ++ view r id (o + m) n
unfolding view
view-append r id o m n = elim (Option-cases (JsMap.get r.pool.segments id)) [
  | inl e ↦ ground arith
  | inr (sab, e) ↦ ground (arith, read_sab-append sab o m n)
]

pub view_none : (r : Registry) (id o : ℕ) → view r id o 0 ≡ []
unfolding view read_sab
view_none r id o = elim (Option-cases (JsMap.get r.pool.segments id)) [
  | inl e ↦ ground arith
  | inr (sab, e) ↦ ground arith
]

pub view_same :
    (r s : Registry) (id o n : ℕ)
    → JsMap.get s.pool.segments id ≡ JsMap.get r.pool.segments id
    → view s id o n ≡ view r id o n
unfolding view
view_same r s id o n h = ground arith

-- A block shares no byte with another one.
abbrev pub Disjoint : ℕ → ℕ → ℕ → ℕ → ℕ → ℕ → Type 0
Disjoint i o m j p n = (i == j) ≡ true → (x : ℕ) → within p n x ≡ true → within o m x ≡ false

length-set_old :
    (m : JsMap ℕ Sab) (k : ℕ) (v w : Sab)
    → JsMap.get m k ≡ some w
    → length (JsMap.set m k v) ≡ length m
unfolding JsMap.get JsMap.set
length-set_old [] k v w h = absurd (ground arith)
length-set_old ((j, u) ∷ m) k v w h = ground (arith, length-set_old m k v w)

module _ (r : Registry) (id o : ℕ) (bs : List ℕ) where
  -- The registry after the bytes are set.
  abbrev written : Sab → Registry
  written sab = record r {
    pool = record (r.pool) { segments = JsMap.set r.pool.segments id (write_sab sab o bs) };
  }

  write_segment-eq :
      (sab : Sab) → JsMap.get r.pool.segments id ≡ some sab → write_segment r id o bs ≡ written sab
  unfolding write_segment
  write_segment-eq sab h = ground arith

  module _ (sab : Sab) (h : JsMap.get r.pool.segments id ≡ some sab) where
    there_after :
        (j : ℕ)
        → is_some (JsMap.get (written sab).pool.segments j) ≡ is_some (JsMap.get r.pool.segments j)
    there_after j =
        ground (arith, get-set r.pool.segments id j (write_sab sab o bs), eq_of_beq id j)

    written-PoolValid : PoolValid r.pool → PoolValid (written sab).pool
    written-PoolValid v = record {
      distinct = v.distinct;
      kept = λ j k. there_after j ∙ v.kept j k;
      fresh = λ j k. ground (arith, v.fresh j k, there_after j);
      budget = rw (length-set_old r.pool.segments id (write_sab sab o bs) sab h) v.budget;
      within_limit = v.within_limit;
    }

    written-IsValid : IsValid r → IsValid (written sab)
    written-IsValid v = record {
      pool = written-PoolValid v.pool;
      segment = λ j t g.
          let s = v.segment j t g in
          record {
            es = s.es;
            listed = s.listed;
            layout = s.layout;
            in_size = s.in_size;
            there = there_after j ∙ s.there;
            not_empty = s.not_empty;
          };
      unlisted = v.unlisted;
      free_map = v.free_map;
      tail_map = v.tail_map;
    }

    -- The block holds the bytes, and every block apart from it what it held.
    self : JsMap.get (written sab).pool.segments id ≡ some (write_sab sab o bs)
    self = ground (arith, get-set r.pool.segments id id (write_sab sab o bs))

    written_self : view (written sab) id o (length bs) ≡ bs
    written_self = view-at (written sab) id o (length bs) _ self ∙ read-write sab o bs

    written-other :
        (j p n : ℕ) → Disjoint id o (length bs) j p n → view (written sab) j p n ≡ view r j p n
    written-other j p n d = elim (Bool-cases (id == j)) [
      | inl e ↦
          subst (λ k. view (written sab) k p n ≡ view r k p n) (eq_of_beq id j e)
            (rw (view-at (written sab) id p n _ self, view-at r id p n sab h)
              (read-write_apart sab o p n bs (d e)))
      | inr e ↦
          view_same r (written sab) j p n
            (ground (arith, get-set r.pool.segments id j (write_sab sab o bs)))
    ]

-- Setting the bytes of a block of a segment in the pool.
pub record Writes (r s : Registry) (id o : ℕ) (bs : List ℕ) : Type 0 where
  pub valid : IsValid s
  pub self : view s id o (length bs) ≡ bs
  pub other : (j p n : ℕ) → Disjoint id o (length bs) j p n → view s j p n ≡ view r j p n
  pub owned_same : (j x : ℕ) → owned s j x ≡ owned r j x
  pub limit : s.pool.limit ≡ r.pool.limit
  pub segment_size : s.pool.segment_size ≡ r.pool.segment_size
  pub there :
      (j : ℕ) → is_some (JsMap.get s.pool.segments j) ≡ is_some (JsMap.get r.pool.segments j)

pub write_segment-Writes :
    (r : Registry) (id o : ℕ) (bs : List ℕ)
    → IsValid r
    → is_some (JsMap.get r.pool.segments id) ≡ true
    → Writes r (write_segment r id o bs) id o bs
unfolding owned
write_segment-Writes r id o bs v there = elim (Option-cases (JsMap.get r.pool.segments id)) [
  | inl e ↦ absurd (cc)
  | inr (sab, e) ↦ rw (write_segment-eq r id o bs sab e) (record {
    valid = written-IsValid r id o bs sab e v;
    self = written_self r id o bs sab e;
    other = written-other r id o bs sab e;
    owned_same = λ j x. refl;
    limit = refl;
    segment_size = refl;
    there = there_after r id o bs sab e;
  })
]
