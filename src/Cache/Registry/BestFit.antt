-- ===== src/Cache/Registry/BestFit.antt =====
-- The choice that `allocate` makes: the smallest open free extent that fits, the first of its size.
use shared_memory_fs.Prelude.{
  ℕ, suc, ◌+◌, ◌≤◌, ◌≡◌, false, true, List, [], ◌∷◌, Option, none, some, nat_eq, get_elem?, arith,
  inl, inr, Bool-cases, subst, ap, subst, ap,
}
use shared_memory_fs.Prelude.JsMap
use shared_memory_fs.Prelude.JsMap.{JsMap, IsMap, Agrees, Agrees-self}
use shared_memory_fs.Prelude.JsSet.{contains}
use shared_memory_fs.Cache.Extents.{Extent}
use shared_memory_fs.Cache.Registry.{
  Registry, Best, pick, pick_segment, best_fit, scan_extents, scan_segments, better, fit_tail,
  scan_tails,
}

module _ (size : ℕ) where
  -- No extent of a list fits better than `best`.
  abbrev pub NoBetter : Option Best → List Extent → Type 0
  NoBetter best [] = Unit {0}
  NoBetter best (e ∷ es) = (better size e best ≡ false) × NoBetter best es

  -- One candidate is at least as good as another.
  abbrev AsGood : Option Best → Option Best → Type 0
  AsGood none none = Unit {0}
  AsGood (some b) none = Unit {0}
  AsGood none (some a) = ⊥
  AsGood (some b) (some a) = b.extent.length ≤ a.extent.length

  AsGood-refl : (b : Option Best) → AsGood b b
  AsGood-refl none = tt
  AsGood-refl (some b) = omega arith

  AsGood-trans : (a b c : Option Best) → AsGood a b → AsGood b c → AsGood a c
  AsGood-trans none none c h k = k
  AsGood-trans none (some b) c h k = absurd h
  AsGood-trans (some a) none none h k = tt
  AsGood-trans (some a) none (some c) h k = absurd k
  AsGood-trans (some a) (some b) none h k = tt
  AsGood-trans (some a) (some b) (some c) h k = omega arith

  better-AsGood :
      (e : Extent) (a b : Option Best)
      → AsGood a b
      → better size e b ≡ false
      → better size e a ≡ false
  better-AsGood e none none h k = k
  better-AsGood e none (some b) h k = absurd h
  better-AsGood e (some a) none h k = ground arith
  better-AsGood e (some a) (some b) h k = ground arith

  NoBetter-AsGood :
      (es : List Extent) (a b : Option Best) → AsGood a b → NoBetter b es → NoBetter a es
  NoBetter-AsGood [] a b h n = tt
  NoBetter-AsGood (e ∷ es) a b h n = (better-AsGood e a b h n.0, NoBetter-AsGood es a b h n.1)

  pick-AsGood : (id i : ℕ) (e : Extent) (best : Option Best) → AsGood (pick size id i e best) best
  unfolding pick
  pick-AsGood id i e none = ground arith
  pick-AsGood id i e (some b) = ground arith

  pick-better :
      (id i : ℕ) (e : Extent) (best : Option Best) → better size e (pick size id i e best) ≡ false
  unfolding pick
  pick-better id i e none = ground arith
  pick-better id i e (some b) = ground arith

  scan_extents-AsGood :
      (id i : ℕ) (es : List Extent) (best : Option Best)
      → AsGood (scan_extents size id i es best) best
  unfolding scan_extents
  scan_extents-AsGood id i [] best = AsGood-refl best
  scan_extents-AsGood id i (e ∷ es) best =
      AsGood-trans _ _ best (scan_extents-AsGood id (suc i) es (pick size id i e best))
        (pick-AsGood id i e best)

  scan_extents-NoBetter :
      (id i : ℕ) (es : List Extent) (best : Option Best)
      → NoBetter (scan_extents size id i es best) es
  unfolding scan_extents
  scan_extents-NoBetter id i [] best = tt
  scan_extents-NoBetter id i (e ∷ es) best = (
    better-AsGood e _ _ (scan_extents-AsGood id (suc i) es (pick size id i e best))
        (pick-better id i e best),
    scan_extents-NoBetter id (suc i) es (pick size id i e best),
  )

  module _ (closed : List ℕ) where
    -- Of all open segments of a map.
    abbrev pub NoBetterOpen : Option Best → JsMap ℕ (List Extent) → Type 0
    NoBetterOpen best [] = Unit {0}
    NoBetterOpen best ((id, es) ∷ m) =
        (contains closed id ≡ false → NoBetter best es) × NoBetterOpen best m

    pick_segment-AsGood :
        (id : ℕ) (es : List Extent) (best : Option Best)
        → AsGood (pick_segment size closed id es best) best
    unfolding pick_segment
    pick_segment-AsGood id es best = elim (Bool-cases (contains closed id)) [
      | inl shut ↦ rw shut (AsGood-refl best)
      | inr open_ ↦ rw open_ (scan_extents-AsGood id 0 es best)
    ]

    scan_segments-AsGood :
        (m : JsMap ℕ (List Extent)) (best : Option Best)
        → AsGood (scan_segments size closed m best) best
    unfolding scan_segments
    scan_segments-AsGood [] best = AsGood-refl best
    scan_segments-AsGood ((id, es) ∷ m) best =
        AsGood-trans _ _ best (scan_segments-AsGood m (pick_segment size closed id es best))
          (pick_segment-AsGood id es best)

    pick_segment-NoBetter :
        (id : ℕ) (es : List Extent) (best : Option Best)
        → contains closed id ≡ false
        → NoBetter (pick_segment size closed id es best) es
    unfolding pick_segment
    pick_segment-NoBetter id es best o = rw o (scan_extents-NoBetter id 0 es best)

    scan_segments-NoBetter :
        (m : JsMap ℕ (List Extent)) (best : Option Best)
        → NoBetterOpen (scan_segments size closed m best) m
    unfolding scan_segments
    scan_segments-NoBetter [] best = tt
    scan_segments-NoBetter ((id, es) ∷ m) best = (
      (λ o.
          NoBetter-AsGood es _ _ (scan_segments-AsGood m (pick_segment size closed id es best))
            (pick_segment-NoBetter id es best o)),
      scan_segments-NoBetter m (pick_segment size closed id es best),
    )

-- Where a chosen extent stands: in an open segment, with room for `size` bytes.
pub record Found (r : Registry) (size : ℕ) (b : Best) : Type 0 where
  pub es : List Extent
  pub open_segment : contains r.closed b.segment_id ≡ false
  pub in_map : JsMap.get r.free b.segment_id ≡ some es
  pub at_index : get_elem? es b.index ≡ some b.extent
  pub fits : size ≤ b.extent.length

module _ (r : Registry) (size : ℕ) where
  abbrev FoundOpt : Option Best → Type 0
  FoundOpt none = Unit {0}
  FoundOpt (some b) = Found r size b

  -- `es` is what is left of `whole` from index `i` on.
  abbrev IsRest : ℕ → List Extent → List Extent → Type 0
  IsRest i whole es = (k : ℕ) → get_elem? whole (i + k) ≡ get_elem? es k

  pick-Found :
      (id i : ℕ) (whole es : List Extent) (e : Extent) (best : Option Best)
      → contains r.closed id ≡ false
      → JsMap.get r.free id ≡ some whole
      → IsRest i whole (e ∷ es)
      → FoundOpt best
      → FoundOpt (pick size id i e best)
  unfolding pick
  pick-Found id i whole es e best o g d f = elim (Bool-cases (better size e best)) [
    | inr worse ↦ rw worse f
    | inl fit ↦ rw fit (record {
      es = whole;
      open_segment = o;
      in_map = g;
      at_index = subst (λ k. get_elem? whole k ≡ some e) (omega arith) (d 0);
      fits = better-fits best fit;
    })
  ]
    where
      better-fits : (best : Option Best) → better size e best ≡ true → size ≤ e.length
      better-fits none h = ground arith
      better-fits (some b) h = ground arith

  scan_extents-Found :
      (id i : ℕ) (whole es : List Extent) (best : Option Best)
      → contains r.closed id ≡ false
      → JsMap.get r.free id ≡ some whole
      → IsRest i whole es
      → FoundOpt best
      → FoundOpt (scan_extents size id i es best)
  unfolding scan_extents
  scan_extents-Found id i whole [] best o g d f = f
  scan_extents-Found id i whole (e ∷ es) best o g d f =
      scan_extents-Found id (suc i) whole es (pick size id i e best) o g
        (λ k. subst (λ j. get_elem? whole j ≡ get_elem? es k) (omega arith) (d (suc k)))
        (pick-Found id i whole es e best o g d f)

  pick_segment-Found :
      (id : ℕ) (es : List Extent) (best : Option Best)
      → JsMap.get r.free id ≡ some es
      → FoundOpt best
      → FoundOpt (pick_segment size r.closed id es best)
  unfolding pick_segment
  pick_segment-Found id es best g f = elim (Bool-cases (contains r.closed id)) [
    | inl shut ↦ rw shut f
    | inr o ↦ rw o (scan_extents-Found id 0 es es best o g (λ k. ap (get_elem? es) (omega arith)) f)
  ]

  scan_segments-Found :
      (m : JsMap ℕ (List Extent)) (best : Option Best)
      → Agrees r.free m
      → FoundOpt best
      → FoundOpt (scan_segments size r.closed m best)
  unfolding scan_segments
  scan_segments-Found [] best a f = f
  scan_segments-Found ((id, es) ∷ m) best a f =
      scan_segments-Found m (pick_segment size r.closed id es best) a.1
        (pick_segment-Found id es best a.0 f)

  -- The chosen extent is a free extent of an open segment with room for the block.
  pub best_fit-Found : (b : Best) → IsMap r.free → best_fit r size ≡ some b → Found r size b
  unfolding best_fit
  best_fit-Found b m h =
      subst FoundOpt h (scan_segments-Found r.free none (Agrees-self r.free m) tt)

  -- No free extent of an open segment that has room is smaller; without a choice none has room.
  pub best_fit-NoBetter : NoBetterOpen size r.closed (best_fit r size) r.free
  unfolding best_fit
  best_fit-NoBetter = scan_segments-NoBetter size r.closed r.free none

  -- The segment that `fit_tail` picks is open and has room behind its tail.
  scan_tails_lem :
      (m : JsMap ℕ ℕ) (id t : ℕ)
      → Agrees r.tail m
      → scan_tails size r.pool.segment_size r.closed m ≡ some (id, t)
      → (JsMap.get r.tail id ≡ some t)
        × (t + size ≤ r.pool.segment_size)
        × (contains r.closed id ≡ false)
  unfolding scan_tails
  scan_tails_lem [] id t a h = absurd (ground arith)
  scan_tails_lem ((j, u) ∷ m) id t a h = ground (arith, scan_tails_lem m id t a.1)

  pub fit_tail_lem :
      (id t : ℕ)
      → IsMap r.tail
      → fit_tail r size ≡ some (id, t)
      → (JsMap.get r.tail id ≡ some t)
        × (t + size ≤ r.pool.segment_size)
        × (contains r.closed id ≡ false)
  unfolding fit_tail
  fit_tail_lem id t m h = scan_tails_lem r.tail id t (Agrees-self r.tail m) h
