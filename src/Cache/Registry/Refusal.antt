-- ===== src/Cache/Registry/Refusal.antt =====
-- When `allocate` returns null: nothing that it may use has room.
use shared_memory_fs.Prelude.{
  ℕ, ◌+◌, ◌<◌, ◌≡◌, Bool, false, true, List, [], ◌∷◌, none, ltb, nat_eq, arith, Bool-cases,
  Option-cases, ◌⊎◌, inl, inr,
}
use shared_memory_fs.Prelude.JsMap.{JsMap}
use shared_memory_fs.Prelude.JsSet.{contains}
use shared_memory_fs.Cache.Pool.{create_segment}
use shared_memory_fs.Cache.Pool.Valid.{create_segment-none}
use shared_memory_fs.Cache.Registry.{
  Registry, no_room, best_fit, fit_tail, allocate, allocate_tail, allocate_fit, grow, take_best,
  take_tail, scan_tails,
}
use shared_memory_fs.Cache.Registry.BestFit.{NoBetterOpen, best_fit-NoBetter}
use shared_memory_fs.Cache.Registry.Valid.{IsValid}

-- No open segment has room behind its tail.
abbrev pub TailsFull : ℕ → ℕ → List ℕ → JsMap ℕ ℕ → Type 0
TailsFull size segment_size closed [] = Unit {0}
TailsFull size segment_size closed ((id, t) ∷ m) =
    (contains closed id ≡ false → segment_size < t + size) × TailsFull size segment_size closed m

scan_tails-none :
    (size segment_size : ℕ) (closed : List ℕ) (m : JsMap ℕ ℕ)
    → scan_tails size segment_size closed m ≡ none
    → TailsFull size segment_size closed m
unfolding scan_tails
scan_tails-none size k closed [] h = tt
scan_tails-none size k closed ((id, t) ∷ m) h =
    ((λ o. ground arith), scan_tails-none size k closed m (ground arith))

-- Why a request is refused.
pub record Full (r : Registry) (size : ℕ) (no_grow : Bool) : Type 0 where
  pub extents : NoBetterOpen size r.closed none r.free
  pub tails : TailsFull size r.pool.segment_size r.closed r.tail
  pub budget :
      (no_grow ≡ true)
      ⊎ (r.pool.empty_segment_ids ≡ []) × (r.pool.limit < r.pool.total_used + r.pool.segment_size)

module _ (r s : Registry) (size : ℕ) (no_grow : Bool) (v : IsValid r) where
  grow-none :
      grow r size ≡ (s, no_room)
      → (r.pool.empty_segment_ids ≡ [])
        × (r.pool.limit < r.pool.total_used + r.pool.segment_size)
        × (s ≡ r)
  unfolding grow
  grow-none h = elim (Option-cases (create_segment r.pool).1) [
    | inl e ↦
        let c = create_segment-none r.pool v.pool (create_segment r.pool).0 (ground arith) in
        (c.2, c.1, ground (arith, c.0))
    | inr (i, e) ↦ absurd (ground arith)
  ]

  allocate_fit-Full : allocate_fit r size no_grow ≡ (s, no_room) → (s ≡ r) × Full r size no_grow
  unfolding allocate_fit allocate_tail take_best take_tail fit_tail
  allocate_fit-Full h = elim (Option-cases (best_fit r size)) [
    | inr (b, e) ↦ absurd (ground arith)
    | inl e ↦ elim (Option-cases (fit_tail r size)) [
      | inr (p, f) ↦ absurd (ground arith)
      | inl f ↦
          let extents : NoBetterOpen size r.closed none r.free =
            rw e at (best_fit-NoBetter r size) in
          let tails = scan_tails-none size r.pool.segment_size r.closed r.tail f in
          elim (Bool-cases no_grow) [
            | inl yes' ↦
                (ground arith, record { extents = extents; tails = tails; budget = inl yes' })
            | inr no' ↦
                let g = grow-none (ground arith) in
                (g.2, record { extents = extents; tails = tails; budget = inr (g.0, g.1) })
          ]
    ]
  ]

-- A refusal of `allocate` on a valid registry changes nothing, and comes of a block larger than a
-- segment, or of no open extent and no open tail with room while the registry may not grow or the
-- budget of the pool is spent.
pub allocate_refused :
    (r s : Registry) (size : ℕ) (no_grow : Bool)
    → IsValid r
    → allocate r size no_grow ≡ (s, no_room)
    → (s ≡ r) × ((r.pool.segment_size < size) ⊎ Full r size no_grow)
unfolding allocate
allocate_refused r s size no_grow v h = elim (Bool-cases (ltb r.pool.segment_size size)) [
  | inl big ↦ (ground arith, inl (ground arith))
  | inr fits ↦ let f = allocate_fit-Full r s size no_grow v (ground arith) in (f.0, inr f.1)
]
