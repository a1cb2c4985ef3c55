-- ===== src/Cache/Registry/Release.antt =====
-- `release` takes back exactly the block, and an unused segment can leave the registry.
use shared_memory_fs.Prelude.{
  ℕ, ◌+◌, ◌-◌, ◌≤◌, ◌<◌, ◌≡◌, Bool, false, true, ◌&&◌, not, List, [], ◌∷◌, some, ltb, nat_eq, ◌==◌,
  arith, refl, Bool-cases, Option-cases, inl, inr, subst, eq_of_beq, beq_refl, ◌∙◌,
}
use shared_memory_fs.Prelude.JsMap
use shared_memory_fs.Prelude.JsMap.{get-set, get-delete, set-IsMap, delete-IsMap, is_some}
use shared_memory_fs.Cache.Extents.{Extent, give_back, total_free}
use shared_memory_fs.Cache.Extents.Layout.{Layout, in_free, within, total_free-le, Apart-of_taken}
use shared_memory_fs.Cache.Extents.Release.{Frees, give_back-Frees}
use shared_memory_fs.Cache.Pool.{free_segment}
use shared_memory_fs.Cache.Pool.Valid.{free_segment-PoolValid, free_segment-Lists}
use shared_memory_fs.Cache.Registry.{Registry, release, used, unregister}
use shared_memory_fs.Cache.Registry.Valid.{
  IsValid, SegmentValid, owned, owned-eval, owned_same, SegmentValid-same,
}

-- Every byte of the block is handed out.
abbrev pub Held : Registry → ℕ → ℕ → ℕ → Type 0
Held r id o n = (x : ℕ) → within o n x ≡ true → owned r id x ≡ true

-- What taking a block back changes.
pub record TakesBack (r s : Registry) (id o n : ℕ) : Type 0 where
  pub valid : IsValid s
  pub owned_after : (j x : ℕ) → owned s j x ≡ (owned r j x && not (id == j && within o n x))
  pub limit : s.pool.limit ≡ r.pool.limit
  pub segment_size : s.pool.segment_size ≡ r.pool.segment_size
  pub segments : s.pool.segments ≡ r.pool.segments

-- A segment with a handed-out byte has a tail above it.
pub owned-tail :
    (r : Registry) (id x : ℕ) → owned r id x ≡ true → (t : ℕ) × (JsMap.get r.tail id ≡ some t)
unfolding owned
owned-tail r id x h = elim (Option-cases (JsMap.get r.tail id)) [
  | inl e ↦ absurd (ground arith)
  | inr found ↦ found
]

and_true : (b : Bool) → b ≡ (b && true)
and_true b = ground arith

module _ (r : Registry) (v : IsValid r) (id o n : ℕ) (pos : 0 < n) (held : Held r id o n) where
  first-tail : (t : ℕ) × (JsMap.get r.tail id ≡ some t)
  first-tail = owned-tail r id o (held o (ground arith))

  module _ (t : ℕ) (h : JsMap.get r.tail id ≡ some t) where
    held-below :
        (es : List Extent)
        → JsMap.get r.free id ≡ some es
        → (x : ℕ) → within o n x ≡ true
        → (x < t) × (in_free x es ≡ false)
    held-below es l x w =
        let e : (ltb x t && not (in_free x es)) ≡ true =
          rw (owned-eval r id x t es h l) at (held x w) in
        (ground arith, ground arith)

    release-Frees : (s : SegmentValid r id t) → Frees 0 t o n s.es (give_back s.es o n)
    release-Frees s =
        give_back-Frees 0 t o n s.es s.layout
          (Apart-of_taken 0 t o n s.es s.layout pos (λ x w. (held-below s.es s.listed x w).1))
          (omega arith) (omega (arith, (held-below s.es s.listed (o + n - 1) (ground arith)).0)) pos

  abbrev given : List Extent → Registry
  given es = record r { free = JsMap.set r.free id (give_back es o n) }

  release-eq : (es : List Extent) → JsMap.get r.free id ≡ some es → release r id o n ≡ given es
  unfolding release
  release-eq es h = ground arith

  module _ (t : ℕ) (h : JsMap.get r.tail id ≡ some t) where
    given-members :
        (s : SegmentValid r id t) (x : ℕ)
        → JsMap.get (given s.es).free id ≡ some (give_back s.es o n)
        → owned (given s.es) id x ≡ (owned r id x && not (within o n x))
    given-members s x self =
        rw
          (
            owned-eval (given s.es) id x t (give_back s.es o n) h self,
            owned-eval r id x t s.es h s.listed,
          )
          (ground (arith, (release-Frees t h s).members x, held-below t h s.es s.listed x))

    given-TakesBack : (s : SegmentValid r id t) → TakesBack r (given s.es) id o n
    given-TakesBack s =
        let f = release-Frees t h s in
        let gs = λ (j : ℕ). get-set r.free id j (give_back s.es o n) in
        let self : JsMap.get (given s.es).free id ≡ some (give_back s.es o n) =
          rw (gs id, beq_refl) refl in
        record {
          valid = record {
            pool = v.pool;
            segment = λ j u g. elim (Bool-cases (id == j)) [
              | inl e ↦
                  let same = eq_of_beq id j e in
                  record {
                    es = give_back s.es o n;
                    listed = rw (← same) self;
                    layout =
                        subst (λ w. Layout 0 w (give_back s.es o n)) (ground (arith, same, h))
                          f.layout;
                    in_size = (v.segment j u g).in_size;
                    there = (v.segment j u g).there;
                    not_empty = (v.segment j u g).not_empty;
                  }
              | inr e ↦ SegmentValid-same j u (v.segment j u g) (rw (gs j, e) refl) refl
            ];
            unlisted = λ j g. ground (arith, v.unlisted j g, gs j, h, eq_of_beq id j);
            free_map = set-IsMap r.free _ _ v.free_map;
            tail_map = v.tail_map;
          };
          owned_after = λ j x. elim (Bool-cases (id == j)) [
            | inl e ↦
                subst (λ k. owned (given s.es) k x ≡ (owned r k x && not (id == k && within o n x)))
                  (eq_of_beq id j e) (rw beq_refl (given-members s x self))
            | inr e ↦
                rw (e, owned_same r (given s.es) j x refl (rw (gs j, e) refl))
                  (and_true (owned r j x))
          ];
          limit = refl;
          segment_size = refl;
          segments = refl;
        }

  -- A block of handed-out bytes goes back whole, and nothing else does.
  pub release-TakesBack : TakesBack r (release r id o n) id o n
  release-TakesBack =
      let (t, h) = first-tail in
      let s = v.segment id t h in rw (release-eq s.es s.listed) (given-TakesBack t h s)

-- A free list whose total is its tail is that one extent.
all_free :
    (p t x : ℕ) (es : List Extent)
    → Layout p t es
    → t ≤ p + total_free es
    → p ≤ x
    → x < t
    → in_free x es ≡ true
unfolding total_free in_free
all_free p t x [] l h a b = absurd (omega arith)
all_free p t x (e ∷ []) l h a b = ground arith
all_free p t x (e ∷ f ∷ es) l h a b =
    absurd (omega (arith, total_free-le (f.offset + f.length + 1) t es l.2.2))

-- A registered segment with no used byte has handed out nothing.
pub used-zero :
    (r : Registry) (id t : ℕ)
    → IsValid r
    → JsMap.get r.tail id ≡ some t
    → used r id ≡ 0
    → (x : ℕ) → owned r id x ≡ false
unfolding used
used-zero r id t v h u x =
    let s = v.segment id t h in
    rw (owned-eval r id x t s.es h s.listed)
      (ground (arith, all_free 0 t x s.es s.layout, s.listed))

module _ (r : Registry) (v : IsValid r) (id t : ℕ) (h : JsMap.get r.tail id ≡ some t) where
  -- The segment leaves the registry and is listed as emptied in the pool.
  abbrev retired : Registry
  retired = let s = unregister r id in record s { pool = free_segment s.pool id }

  retired-IsValid : IsValid retired
  unfolding unregister
  retired-IsValid =
      let q = free_segment r.pool id in
      let k = free_segment-Lists r.pool id in
      let gf = λ (j : ℕ). get-delete r.free id j in
      let gt = λ (j : ℕ). get-delete r.tail id j in
      record {
        pool = free_segment-PoolValid r.pool v.pool id;
        segment = λ j u g.
            let ne : (id == j) ≡ false = ground (arith, gt j) in
            let s = v.segment j u (ground (arith, gt j)) in
            record {
              es = s.es;
              listed = rw (gf j, ne) s.listed;
              layout = s.layout;
              in_size = rw k.size s.in_size;
              there = rw k.segments s.there;
              not_empty = ground (arith, k.listed j, s.not_empty, ne);
            };
        unlisted = λ j g. ground (arith, v.unlisted j, gf j, gt j);
        free_map = delete-IsMap r.free id v.free_map;
        tail_map = delete-IsMap r.tail id v.tail_map;
      }

  -- Where nothing of the segment was handed out, nothing changes hands.
  retired-owned : ((x : ℕ) → owned r id x ≡ false) → (j x : ℕ) → owned retired j x ≡ owned r j x
  unfolding unregister owned
  retired-owned none_owned j x =
      ground (arith, none_owned x, eq_of_beq id j, get-delete r.free id j, get-delete r.tail id j)

  pub retire-TakesBack :
      (b : Registry) (o n : ℕ)
      → TakesBack b r id o n
      → ((x : ℕ) → owned r id x ≡ false)
      → TakesBack b retired id o n
  unfolding unregister
  retire-TakesBack b o n k none_owned =
      let f = free_segment-Lists r.pool id in
      record {
        valid = retired-IsValid;
        owned_after = λ j x. rw (retired-owned none_owned j x) (k.owned_after j x);
        limit = f.limit ∙ k.limit;
        segment_size = f.size ∙ k.segment_size;
        segments = f.segments ∙ k.segments;
      }
