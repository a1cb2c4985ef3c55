-- ===== src/Cache/Pool/Valid.antt =====
-- The invariant of a pool: the budget, the emptied segments and the ids given so far.
use shared_memory_fs.Prelude.{
  ℕ, ◌+◌, ◌*◌, ◌≤◌, ◌≡◌, false, true, List, [], ◌∷◌, none, some, nat_eq, length, arith, refl, ◌⊎◌,
  inl, inr, ◌==◌, ◌||◌, subst, beq_refl, Bool-cases, ◌<◌, eq_of_beq,
}
use shared_memory_fs.Prelude.JsMap
use shared_memory_fs.Prelude.JsMap.{JsMap, is_some, get-set}
use shared_memory_fs.Prelude.JsSet.{Distinct, contains, Distinct-add, contains-add}
use shared_memory_fs.Cache.Pool.{
  Pool, Sab, new_pool, create_segment, create_from, add_segment, free_segment,
}

pub record PoolValid (p : Pool) : Type 0 where
  pub distinct : Distinct p.empty_segment_ids
  pub kept :
      (id : ℕ) → contains p.empty_segment_ids id ≡ true → is_some (JsMap.get p.segments id) ≡ true
  pub fresh : (id : ℕ) → p.next_segment_id ≤ id → JsMap.get p.segments id ≡ none
  pub budget : p.total_used ≡ length p.segments * p.segment_size
  pub within_limit : p.total_used ≤ p.limit

pub new_pool-PoolValid : (limit size : ℕ) → PoolValid (new_pool limit size)
unfolding new_pool contains JsMap.get
new_pool-PoolValid limit size = record {
  distinct = tt;
  kept = λ id h. grind arith;
  fresh = λ id h. refl;
  budget = omega arith;
  within_limit = omega arith;
}

length-set_new :
    (m : JsMap ℕ Sab) (k : ℕ) (v : Sab)
    → JsMap.get m k ≡ none
    → length (JsMap.set m k v) ≡ length m + 1
unfolding JsMap.get JsMap.set
length-set_new [] k v h = omega arith
length-set_new ((j, w) ∷ m) k v h = ground (arith, length-set_new m k v)

-- What `createSegment` does to a valid pool when it returns a segment.
pub record Creates (p q : Pool) (id : ℕ) : Type 0 where
  pub valid : PoolValid q
  pub there : is_some (JsMap.get q.segments id) ≡ true
  pub unlisted : contains q.empty_segment_ids id ≡ false
  pub spare : (is_some (JsMap.get p.segments id) ≡ false) ⊎ (contains p.empty_segment_ids id ≡ true)
  pub bytes : (j : ℕ) (s : Sab) → JsMap.get p.segments j ≡ some s → JsMap.get q.segments j ≡ some s
  pub listed :
      (j : ℕ) → contains q.empty_segment_ids j ≡ true → contains p.empty_segment_ids j ≡ true
  pub limit : q.limit ≡ p.limit
  pub size : q.segment_size ≡ p.segment_size

module _ (p : Pool) (v : PoolValid p) where
  add_segment-Creates :
      p.empty_segment_ids ≡ []
      → p.total_used + p.segment_size ≤ p.limit
      → Creates p (add_segment p) p.next_segment_id
  unfolding add_segment contains
  add_segment-Creates none_empty room = record {
    valid = record {
      distinct = v.distinct;
      kept = λ id h. ground (arith, v.kept id, get-set p.segments p.next_segment_id id (λ _. 0));
      fresh = λ id h. ground (arith, v.fresh id, get-set p.segments p.next_segment_id id (λ _. 0));
      budget =
          rw (length-set_new p.segments p.next_segment_id (λ _. 0) (v.fresh _ (omega arith)))
            (omega (arith, v.budget));
      within_limit = room;
    };
    there = ground (arith, get-set p.segments p.next_segment_id p.next_segment_id (λ _. 0));
    unlisted = rw none_empty refl;
    spare = inl (rw (v.fresh p.next_segment_id (omega arith)) refl);
    bytes = λ j s h.
        ground (arith, v.fresh p.next_segment_id, get-set p.segments p.next_segment_id j (λ _. 0));
    listed = λ j h. h;
    limit = refl;
    size = refl;
  }

  reuse-Creates :
      (id : ℕ) (ids : List ℕ)
      → p.empty_segment_ids ≡ id ∷ ids
      → Creates p (record p { empty_segment_ids = ids }) id
  unfolding contains
  reuse-Creates id ids e =
      let listed : (j : ℕ) → contains p.empty_segment_ids j ≡ (id == j || contains ids j) =
        λ j. rw e refl in
      let d : Distinct (id ∷ ids) = rw e at v.distinct in
      record {
        valid = record {
          distinct = d.1;
          kept = λ j h. ground (arith, v.kept j, listed j);
          fresh = v.fresh;
          budget = v.budget;
          within_limit = v.within_limit;
        };
        there = ground (arith, v.kept id, listed id);
        unlisted = d.0;
        spare = inr (ground (arith, listed id));
        bytes = λ j s h. h;
        listed = λ j h. ground (arith, listed j);
        limit = refl;
        size = refl;
      }

  create_from-Creates :
      (ids : List ℕ)
      → p.empty_segment_ids ≡ ids
      → (q : Pool) (id : ℕ) → create_from ids p ≡ (q, some id)
      → Creates p q id
  unfolding create_from
  create_from-Creates [] e q id h =
      subst (λ (x : Pool × ℕ). Creates p x.0 x.1) (ground arith)
        (add_segment-Creates e (ground arith))
  create_from-Creates (i ∷ ids) e q id h =
      subst (λ (x : Pool × ℕ). Creates p x.0 x.1) (ground arith) (reuse-Creates i ids e)

  create_from-none :
      (ids : List ℕ)
      → p.empty_segment_ids ≡ ids
      → (q : Pool) → create_from ids p ≡ (q, none)
      → (q ≡ p) × (p.limit < p.total_used + p.segment_size) × (ids ≡ [])
  unfolding create_from contains
  create_from-none [] e q h = (ground arith, ground arith, refl)
  create_from-none (i ∷ ids) e q h =
      let listed : contains p.empty_segment_ids i ≡ true = rw (e, beq_refl) refl in
      absurd (ground (arith, v.kept i listed))

  -- A segment that `createSegment` of a valid pool returns is in the pool, was new or emptied, and
  -- is no longer listed as emptied; the pool stays valid (within its limit) and no other segment
  -- changes.
  pub create_segment-Creates :
      (q : Pool) (id : ℕ) → create_segment p ≡ (q, some id) → Creates p q id
  unfolding create_segment
  create_segment-Creates q id h = create_from-Creates p.empty_segment_ids refl q id h

  -- `createSegment` of a valid pool returns null only where no emptied segment is left and another
  -- would pass the limit, and then the pool is as it was.
  pub create_segment-none :
      (q : Pool)
      → create_segment p ≡ (q, none)
      → (q ≡ p) × (p.limit < p.total_used + p.segment_size) × (p.empty_segment_ids ≡ [])
  unfolding create_segment
  create_segment-none q h = create_from-none p.empty_segment_ids refl q h

  pub free_segment-PoolValid : (id : ℕ) → PoolValid (free_segment p id)
  unfolding free_segment
  free_segment-PoolValid id = elim (Bool-cases (is_some (JsMap.get p.segments id))) [
    | inr gone ↦ rw gone v
    | inl there ↦ rw there (record {
      distinct = Distinct-add p.empty_segment_ids id v.distinct;
      kept = λ j h. ground (arith, v.kept j, contains-add p.empty_segment_ids id j);
      fresh = v.fresh;
      budget = v.budget;
      within_limit = v.within_limit;
    })
  ]

-- `freeSegment` lists an id, and touches nothing else.
pub record Lists (p q : Pool) (id : ℕ) : Type 0 where
  pub segments : q.segments ≡ p.segments
  pub limit : q.limit ≡ p.limit
  pub size : q.segment_size ≡ p.segment_size
  pub listed :
      (j : ℕ)
      → contains q.empty_segment_ids j ≡ true
      → (contains p.empty_segment_ids j ≡ true) ⊎ (id ≡ j)

pub free_segment-Lists : (p : Pool) (id : ℕ) → Lists p (free_segment p id) id
unfolding free_segment
free_segment-Lists p id = elim (Bool-cases (is_some (JsMap.get p.segments id))) [
  | inr gone ↦
      rw gone (record { segments = refl; limit = refl; size = refl; listed = λ j h. inl h })
  | inl there ↦ rw there (record {
    segments = refl;
    limit = refl;
    size = refl;
    listed = λ j h. ground (arith, contains-add p.empty_segment_ids id j, eq_of_beq id j);
  })
]
