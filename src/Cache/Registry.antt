-- ===== src/Cache/Registry.antt =====
-- lib/cache.js, class SegmentRegistry, together with its pool.
pub mod BestFit
pub mod Valid
pub mod Allocate
pub mod Release
pub mod Refusal
use shared_memory_fs.Prelude.{
  ℕ, zero, suc, ◌+◌, ◌-◌, ◌^◌, Bool, false, true, ◌&&◌, ◌||◌, List, [], ◌∷◌, ◌++◌, Option, none,
  some, ltb, leb, ◌==◌, nat_eq, if◌then◌else◌,
}
use shared_memory_fs.Prelude.JsMap
use shared_memory_fs.Prelude.JsMap.{JsMap, is_some}
use shared_memory_fs.Prelude.JsSet
use shared_memory_fs.Cache.Extents.{Extent, give_back, carve, total_free}
use shared_memory_fs.Cache.Pool.{Pool, create_segment}

pub record Registry : Type 0 where
  pub pool : Pool
  pub free : JsMap ℕ (List Extent)
  pub tail : JsMap ℕ ℕ
  pub closed : List ℕ

unfoldable pub new_registry : Pool → Registry
new_registry pool = record { pool = pool; free = []; tail = []; closed = [] }

unfoldable pub register : Registry → ℕ → Registry
register r id = record r { free = JsMap.set r.free id []; tail = JsMap.set r.tail id 0 }

unfoldable pub unregister : Registry → ℕ → Registry
unregister r id = record r {
  free = JsMap.delete r.free id;
  tail = JsMap.delete r.tail id;
  closed = JsSet.remove r.closed id;
}

-- The best free extent so far, as `best` of `allocate`.
pub record Best : Type 0 where
  pub segment_id : ℕ
  pub index : ℕ
  pub extent : Extent

abbrev pub better : ℕ → Extent → Option Best → Bool
better size e none = leb size e.length
better size e (some b) = leb size e.length && ltb e.length b.extent.length

-- One round of the loop over the extents of a segment.
pub pick : ℕ → ℕ → ℕ → Extent → Option Best → Option Best
pick size id i e best =
    if better size e best then some (record { segment_id = id; index = i; extent = e }) else best

pub scan_extents : ℕ → ℕ → ℕ → List Extent → Option Best → Option Best
unfolding pick
scan_extents size id i [] best = best
scan_extents size id i (e ∷ es) best = scan_extents size id (suc i) es (pick size id i e best)

-- One round of the loop over the segments.
pub pick_segment : ℕ → List ℕ → ℕ → List Extent → Option Best → Option Best
unfolding scan_extents
pick_segment size closed id es best =
    if JsSet.contains closed id then best else scan_extents size id 0 es best

pub scan_segments : ℕ → List ℕ → JsMap ℕ (List Extent) → Option Best → Option Best
unfolding pick_segment
scan_segments size closed [] best = best
scan_segments size closed ((id, es) ∷ m) best =
    scan_segments size closed m (pick_segment size closed id es best)

unfoldable pub best_fit : Registry → ℕ → Option Best
unfolding scan_segments
best_fit r size = scan_segments size r.closed r.free none

-- The first open segment whose unused end has room, with its tail.
pub scan_tails : ℕ → ℕ → List ℕ → JsMap ℕ ℕ → Option (ℕ × ℕ)
scan_tails size segment_size closed [] = none
scan_tails size segment_size closed ((id, t) ∷ m) =
    if JsSet.contains closed id
    then scan_tails size segment_size closed m
    else if leb (t + size) segment_size
    then some (id, t)
    else scan_tails size segment_size closed m

unfoldable pub fit_tail : Registry → ℕ → Option (ℕ × ℕ)
unfolding scan_tails
fit_tail r size = scan_tails size r.pool.segment_size r.closed r.tail

-- What `allocate` returns: a RangeError, null, or a block.
pub data Outcome : Type 0 where
  range_error : Outcome
  no_room : Outcome
  placed : ℕ → ℕ → Outcome

pub take_best : Registry → ℕ → Best → Registry × Outcome
take_best r size b = elim (JsMap.get r.free b.segment_id) [
  | none ↦ (r, placed b.segment_id b.extent.offset)
  | some es ↦ (
    record r { free = JsMap.set r.free b.segment_id (carve es b.index size) },
    placed b.segment_id b.extent.offset,
  )
]

pub take_tail : Registry → ℕ → ℕ → ℕ → Registry × Outcome
take_tail r size id t = (record r { tail = JsMap.set r.tail id (t + size) }, placed id t)

-- A segment new to the registry, from the pool.
unfoldable pub grow : Registry → ℕ → Registry × Outcome
grow r size =
    let (pool, found) = create_segment r.pool in
    elim found [
      | none ↦ (record r { pool = pool }, no_room)
      | some id ↦
          let s = register (record r { pool = pool }) id in
          (record s { tail = JsMap.set s.tail id size }, placed id 0)
    ]

-- `Number.MAX_SAFE_INTEGER`
abbrev pub max_safe : ℕ
max_safe = 2 ^ 53 - 1

abbrev pub invalid_size : ℕ → Bool
invalid_size size = size == 0 || ltb max_safe size

unfoldable pub allocate_tail : Registry → ℕ → Bool → Registry × Outcome
unfolding take_tail grow
allocate_tail r size no_grow = elim (fit_tail r size) [
  | some (id, t) ↦ take_tail r size id t
  | none ↦ if no_grow then (r, no_room) else grow r size
]

unfoldable pub allocate_fit : Registry → ℕ → Bool → Registry × Outcome
unfolding take_best allocate_tail
allocate_fit r size no_grow = elim (best_fit r size) [
  | some b ↦ take_best r size b
  | none ↦ allocate_tail r size no_grow
]

unfoldable pub allocate : Registry → ℕ → Bool → Registry × Outcome
unfolding allocate_fit
allocate r size no_grow =
    if invalid_size size
    then (r, range_error)
    else if ltb r.pool.segment_size size
    then (r, no_room)
    else allocate_fit r size no_grow

unfoldable pub release : Registry → ℕ → ℕ → ℕ → Registry
release r id offset length = elim (JsMap.get r.free id) [
  | none ↦ r
  | some es ↦ record r { free = JsMap.set r.free id (give_back es offset length) }
]

-- The extents of a segment that has any.
abbrev pub extents : Registry → ℕ → List Extent
extents r id = elim (JsMap.get r.free id) [ none ↦ [] | some es ↦ es ]

unfoldable pub used : Registry → ℕ → ℕ
used r id = elim (JsMap.get r.tail id) [ none ↦ 0 | some t ↦ t - total_free (extents r id) ]
