-- ===== src/Cache/Registry/Allocate.antt =====
-- `allocate` hands out bytes that nobody holds, and keeps the registry valid.
use shared_memory_fs.Prelude.{
  ℕ, ◌+◌, ◌≤◌, ◌<◌, ◌≡◌, Bool, false, true, ◌&&◌, not, List, [], none, some, ltb, nat_eq, ◌==◌,
  arith, refl, Bool-cases, Option-cases, inl, inr, subst, eq_of_beq, beq_refl, ◌-◌,
}
use shared_memory_fs.Prelude.JsMap
use shared_memory_fs.Prelude.JsMap.{IsMap, is_some, get-set, set-IsMap}
use shared_memory_fs.Cache.Extents.{Extent, carve}
use shared_memory_fs.Cache.Extents.Layout.{Layout, in_free, within, Layout-grow, in_free-bounds}
use shared_memory_fs.Cache.Extents.Carve.{Takes, carve-Takes}
use shared_memory_fs.Cache.Pool.{Pool, create_segment}
use shared_memory_fs.Cache.Pool.Valid.{Creates, create_segment-Creates}
use shared_memory_fs.Cache.Registry.{
  Registry, Best, placed, take_best, take_tail, grow, best_fit, fit_tail, allocate, allocate_tail,
  allocate_fit, register,
}
use shared_memory_fs.Cache.Registry.BestFit.{Found, best_fit-Found, fit_tail_lem}
use shared_memory_fs.Cache.Registry.Valid.{
  IsValid, owned, Grants, owned-eval, owned_at, SegmentValid-same,
}

-- A registered extent list belongs to a segment with a tail.
tail_of :
    (r : Registry) (id : ℕ) (es : List Extent)
    → IsValid r
    → JsMap.get r.free id ≡ some es
    → (t : ℕ) × (JsMap.get r.tail id ≡ some t)
tail_of r id es v h = elim (Option-cases (JsMap.get r.tail id)) [
  | inl e ↦ absurd (cc (v.unlisted id e))
  | inr found ↦ found
]

and_not : (b : Bool) → (b && not true) ≡ false
and_not b = ground arith

module _ (r : Registry) (v : IsValid r) (size : ℕ) (pos : 0 < size) where
  -- The state after a cut in a free extent.
  abbrev cut : Best → List Extent → Registry
  cut b es = record r { free = JsMap.set r.free b.segment_id (carve es b.index size) }

  cut-Takes :
      (b : Best) (f : Found r size b) (t : ℕ)
      → JsMap.get r.tail b.segment_id ≡ some t
      → Takes 0 t b.extent.offset size f.es (carve f.es b.index size)
  cut-Takes b f t h =
      let s = v.segment b.segment_id t h in
      carve-Takes 0 t b.index size b.extent f.es
        (subst (Layout 0 t) (ground (arith, s.listed, f.in_map)) s.layout) f.at_index pos f.fits

  Layout-of :
      (b : Best) (f : Found r size b) (t : ℕ)
      → JsMap.get r.tail b.segment_id ≡ some t
      → Layout 0 t f.es
  Layout-of b f t h =
      let s = v.segment b.segment_id t h in
      subst (Layout 0 t) (ground (arith, s.listed, f.in_map)) s.layout

  below :
      (t x : ℕ) (b : Best) (f : Found r size b)
      → JsMap.get r.tail b.segment_id ≡ some t
      → in_free x f.es ≡ true
      → (0 ≤ x) × (x < t)
  below t x b f h = in_free-bounds 0 t x f.es (Layout-of b f t h)

  block_inside :
      (t : ℕ) (b : Best) (f : Found r size b)
      → JsMap.get r.tail b.segment_id ≡ some t
      → ((x : ℕ) → within b.extent.offset size x ≡ true → in_free x f.es ≡ true)
      → b.extent.offset + size ≤ r.pool.segment_size
  block_inside t b f h free =
      let last = b.extent.offset + size - 1 in
      omega
        (arith, below t last b f h (free last (ground arith)), (v.segment b.segment_id t h).in_size)

  cut-Grants :
      (b : Best) (f : Found r size b) → Grants r (cut b f.es) size b.segment_id b.extent.offset
  cut-Grants b f =
      let th = tail_of r b.segment_id f.es v f.in_map in
      let t = th.0 in
      let h = th.1 in
      let s = v.segment b.segment_id t h in
      let k = cut-Takes b f t h in
      let gs = λ (j : ℕ). get-set r.free b.segment_id j (carve f.es b.index size) in
      let self : JsMap.get (cut b f.es).free b.segment_id ≡ some (carve f.es b.index size) =
        rw (gs b.segment_id, beq_refl) refl in
      record {
        valid = record {
          pool = v.pool;
          segment = λ j u g. elim (Bool-cases (b.segment_id == j)) [
            | inl e ↦
                let same = eq_of_beq b.segment_id j e in
                record {
                  es = carve f.es b.index size;
                  listed = rw (← same) self;
                  layout =
                      subst (λ w. Layout 0 w (carve f.es b.index size)) (ground (arith, same, h))
                        k.layout;
                  in_size = (v.segment j u g).in_size;
                  there = (v.segment j u g).there;
                  not_empty = (v.segment j u g).not_empty;
                }
            | inr e ↦ SegmentValid-same j u (v.segment j u g) (rw (gs j, e) refl) refl
          ];
          unlisted = λ j g. ground (arith, v.unlisted j g, gs j, h, eq_of_beq b.segment_id j);
          free_map = set-IsMap r.free _ _ v.free_map;
          tail_map = v.tail_map;
        };
        inside = block_inside t b f h (k.was_free);
        there = s.there;
        spare = λ x w.
            rw (owned-eval r b.segment_id x t f.es h f.in_map, k.was_free x w) (and_not (ltb x t));
        owned_after = λ j x.
            owned_at r (cut b f.es) b.segment_id j x t t b.extent.offset size f.es
              (carve f.es b.index size) h f.in_map h self (λ e. refl) (λ e. rw (gs j, e) refl)
              (ground (arith, k.members x, k.was_free x, below t x b f h));
        bytes = λ j b h. h;
        limit = refl;
        segment_size = refl;
      }

  -- The end of a partly used segment.
  abbrev extended : ℕ → ℕ → Registry
  extended id t = record r { tail = JsMap.set r.tail id (t + size) }

  extended-Grants :
      (id t : ℕ)
      → JsMap.get r.tail id ≡ some t
      → t + size ≤ r.pool.segment_size
      → Grants r (extended id t) size id t
  extended-Grants id t h room =
      let s = v.segment id t h in
      let gs = λ (j : ℕ). get-set r.tail id j (t + size) in
      let self : JsMap.get (extended id t).tail id ≡ some (t + size) = rw (gs id, beq_refl) refl in
      record {
        valid = record {
          pool = v.pool;
          segment = λ j u g. elim (Bool-cases (id == j)) [
            | inl e ↦
                let same = eq_of_beq id j e in
                let u_eq : t + size ≡ u = ground (arith, same, self, g) in
                record {
                  es = s.es;
                  listed = rw (← same) s.listed;
                  layout = rw (← u_eq) (Layout-grow 0 t (t + size) s.es (omega arith) s.layout);
                  in_size = rw (← u_eq) room;
                  there = rw (← same) s.there;
                  not_empty = rw (← same) s.not_empty;
                }
            | inr e ↦ SegmentValid-same j u (v.segment j u (ground (arith, gs j))) refl refl
          ];
          unlisted = λ j g. ground (arith, v.unlisted j, gs j);
          free_map = v.free_map;
          tail_map = set-IsMap r.tail _ _ v.tail_map;
        };
        inside = room;
        there = s.there;
        spare = λ x w. rw (owned-eval r id x t s.es h s.listed) (ground arith);
        owned_after = λ j x.
            owned_at r (extended id t) id j x t (t + size) t size s.es s.es h s.listed self s.listed
              (λ e. rw (gs j, e) refl) (λ e. refl)
              (ground (arith, in_free-bounds 0 t x s.es s.layout));
        bytes = λ j b h. h;
        limit = refl;
        segment_size = refl;
      }

  -- A segment that was not in the registry.
  abbrev grown : Pool → ℕ → Registry
  grown q id = record {
    pool = q;
    free = JsMap.set r.free id [];
    tail = JsMap.set (JsMap.set r.tail id 0) id size;
    closed = r.closed;
  }

  spare_tail : (q : Pool) (id : ℕ) → Creates r.pool q id → JsMap.get r.tail id ≡ none
  spare_tail q id c = elim (Option-cases (JsMap.get r.tail id)) [
    | inl e ↦ e
    | inr (t, h) ↦
        let s = v.segment id t h in absurd (ground (arith, s.there, s.not_empty, c.spare))
  ]

  still_there :
      {q : Pool} {id : ℕ} (j : ℕ)
      → Creates r.pool q id
      → is_some (JsMap.get r.pool.segments j) ≡ true
      → is_some (JsMap.get q.segments j) ≡ true
  still_there {q} j c h = elim (Option-cases (JsMap.get r.pool.segments j)) [
    | inl e ↦ absurd (cc)
    | inr (b, e) ↦ rw (c.bytes j b e) refl
  ]

  grown-Grants :
      (q : Pool) (id : ℕ)
      → Creates r.pool q id
      → size ≤ r.pool.segment_size
      → Grants r (grown q id) size id 0
  unfolding owned in_free
  grown-Grants q id c room =
      let no_tail = spare_tail q id c in
      let gf = λ (j : ℕ). get-set r.free id j [] in
      let gt = λ (j : ℕ). get-set (JsMap.set r.tail id 0) id j size in
      let gz = λ (j : ℕ). get-set r.tail id j 0 in
      let self : JsMap.get (grown q id).tail id ≡ some size = rw (gt id, beq_refl) refl in
      let listed : JsMap.get (grown q id).free id ≡ some [] = rw (gf id, beq_refl) refl in
      record {
        valid = record {
          pool = c.valid;
          segment = λ j u g. elim (Bool-cases (id == j)) [
            | inl e ↦
                let same = eq_of_beq id j e in
                let u_eq : size ≡ u = ground (arith, same, self, g) in
                record {
                  es = [];
                  listed = rw (← same) listed;
                  layout = omega arith;
                  in_size = rw (← u_eq, c.size) room;
                  there = rw (← same) c.there;
                  not_empty = rw (← same) c.unlisted;
                }
            | inr e ↦
                let s = v.segment j u (ground (arith, gt j, gz j)) in
                record {
                  es = s.es;
                  listed = rw (gf j, e) s.listed;
                  layout = s.layout;
                  in_size = rw c.size s.in_size;
                  there = still_there j c s.there;
                  not_empty = ground (arith, c.listed j, s.not_empty);
                }
          ];
          unlisted = λ j g. ground (arith, v.unlisted j, gt j, gz j, gf j);
          free_map = set-IsMap r.free _ _ v.free_map;
          tail_map = set-IsMap (JsMap.set r.tail id 0) _ _ (set-IsMap r.tail _ _ v.tail_map);
        };
        inside = omega arith;
        there = c.there;
        spare = λ x w. rw (no_tail, owned) refl;
        owned_after =
            λ j x. ground (arith, no_tail, self, listed, gt j, gz j, gf j, eq_of_beq id j);
        bytes = c.bytes;
        limit = c.limit;
        segment_size = c.size;
      }

  take_best-Grants :
      (b : Best) (s : Registry) (id o : ℕ)
      → Found r size b
      → take_best r size b ≡ (s, placed id o)
      → Grants r s size id o
  unfolding take_best
  take_best-Grants b s id o f h =
      let e : (s ≡ cut b f.es) × (id ≡ b.segment_id) × (o ≡ b.extent.offset) =
        ground (arith, f.in_map) in
      rw (e.0, e.1, e.2) (cut-Grants b f)

  take_tail-Grants :
      (s : Registry) (id t i o : ℕ)
      → JsMap.get r.tail id ≡ some t
      → t + size ≤ r.pool.segment_size
      → take_tail r size id t ≡ (s, placed i o)
      → Grants r s size i o
  unfolding take_tail
  take_tail-Grants s id t i o h room e =
      let e' : (s ≡ extended id t) × (i ≡ id) × (o ≡ t) = ground arith in
      rw (e'.0, e'.1, e'.2) (extended-Grants id t h room)

  grow-Grants :
      (s : Registry) (id o : ℕ)
      → size ≤ r.pool.segment_size
      → grow r size ≡ (s, placed id o)
      → Grants r s size id o
  unfolding grow register
  grow-Grants s id o room h = elim (Option-cases (create_segment r.pool).1) [
    | inl e ↦ absurd (ground arith)
    | inr (i, e) ↦
        let q = (create_segment r.pool).0 in
        let e' : (s ≡ grown q i) × (id ≡ i) × (o ≡ 0) = ground arith in
        rw (e'.0, e'.1, e'.2)
          (grown-Grants q i (create_segment-Creates r.pool v.pool q i (ground arith)) room)
  ]

  allocate_tail-Grants :
      (no_grow : Bool) (s : Registry) (id o : ℕ)
      → size ≤ r.pool.segment_size
      → allocate_tail r size no_grow ≡ (s, placed id o)
      → Grants r s size id o
  unfolding allocate_tail
  allocate_tail-Grants no_grow s id o room h = elim (Option-cases (fit_tail r size)) [
    | inl e ↦ grow-Grants s id o room (ground arith)
    | inr ((i, t), e) ↦
        let f = fit_tail_lem r size i t v.tail_map e in
        take_tail-Grants s i t id o f.0 f.1 (ground arith)
  ]

  allocate_fit-Grants :
      (no_grow : Bool) (s : Registry) (id o : ℕ)
      → size ≤ r.pool.segment_size
      → allocate_fit r size no_grow ≡ (s, placed id o)
      → Grants r s size id o
  unfolding allocate_fit
  allocate_fit-Grants no_grow s id o room h = elim (Option-cases (best_fit r size)) [
    | inl e ↦ allocate_tail-Grants no_grow s id o room (ground arith)
    | inr (b, e) ↦ take_best-Grants b s id o (best_fit-Found r size b v.free_map e) (ground arith)
  ]

-- A block that `allocate` of a valid registry returns lies inside a segment of the pool, holds no
-- byte that was handed out before and is all that is handed out besides; the registry stays valid
-- and no byte of a segment changes.
pub allocate-Grants :
    (r s : Registry) (size id o : ℕ) (no_grow : Bool)
    → IsValid r
    → allocate r size no_grow ≡ (s, placed id o)
    → Grants r s size id o
unfolding allocate
allocate-Grants r s size id o no_grow v h =
    allocate_fit-Grants r v size (ground arith) no_grow s id o (ground arith) (ground arith)
