-- ===== src/Cache/Pool.antt =====
-- lib/cache.js, class Pool: shared segments of one size under a memory limit. Emptied segments are
-- kept for reuse. A SharedArrayBuffer is its bytes by offset; a new one holds zeros.
pub mod Valid
use shared_memory_fs.Prelude.{
  ℕ, ◌+◌, Bool, false, true, List, [], ◌∷◌, ◌++◌, Option, none, some, ltb, nat_eq, if◌then◌else◌,
  leb, ◌-◌, ◌&&◌,
}
use shared_memory_fs.Prelude.JsMap
use shared_memory_fs.Prelude.JsMap.{JsMap, is_some}
use shared_memory_fs.Prelude.JsSet

abbrev pub Sab : Type 0
Sab = ℕ → ℕ

pub record Pool : Type 0 where
  pub limit : ℕ
  pub segment_size : ℕ
  pub segments : JsMap ℕ Sab
  pub empty_segment_ids : List ℕ
  pub total_used : ℕ
  pub next_segment_id : ℕ

unfoldable pub new_pool : ℕ → ℕ → Pool
new_pool limit segment_size = record {
  limit = limit;
  segment_size = segment_size;
  segments = [];
  empty_segment_ids = [];
  total_used = 0;
  next_segment_id = 1;
}

-- `segments.get(id)` of `createSegment`, which returns the segment: here its id.
abbrev existing : Pool → ℕ → Option ℕ
existing p id = if is_some (JsMap.get p.segments id) then some id else none

pub add_segment : Pool → Pool
add_segment p = record p {
  next_segment_id = p.next_segment_id + 1;
  segments = JsMap.set p.segments p.next_segment_id (λ _. 0);
  total_used = p.total_used + p.segment_size;
}

create_new : Pool → Pool × Option ℕ
unfolding add_segment
create_new p =
    if ltb p.limit (p.total_used + p.segment_size)
    then (p, none)
    else (add_segment p, some p.next_segment_id)

-- The loop over `emptySegmentIds` returns in its first round.
pub create_from : List ℕ → Pool → Pool × Option ℕ
unfolding create_new
create_from [] p = create_new p
create_from (id ∷ ids) p = (record p { empty_segment_ids = ids }, existing p id)

unfoldable pub create_segment : Pool → Pool × Option ℕ
unfolding create_from
create_segment p = create_from p.empty_segment_ids p

unfoldable pub free_segment : Pool → ℕ → Pool
free_segment p id =
    if is_some (JsMap.get p.segments id)
    then record p { empty_segment_ids = JsSet.add p.empty_segment_ids id }
    else p
