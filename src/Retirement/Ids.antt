-- ===== src/Retirement/Ids.antt =====
-- Update ids and retireIds are given out in order, and only an epoch gives any.
use shared_memory_fs.Prelude.{
  ℕ, ◌≤◌, ◌≡◌, ◌==◌, ◌⊎◌, ◌||◌, true, not, List, [], ◌∷◌, none, some, nat_eq, arith, refl, inl, inr,
  Option-cases, Bool-cases, eq_of_beq, ◌∙◌,
}
use shared_memory_fs.Prelude.JsMap
use shared_memory_fs.Prelude.JsMap.{JsMap, IsMap, get-set, get-delete, has-eq-get, is_some}
use shared_memory_fs.Prelude.JsSet
use shared_memory_fs.Prelude.JsSet.{contains, contains-add, contains-remove}
use shared_memory_fs.Retirement.{
  Kernel, Ack, is_empty, settle, hold, exit_acks, exit_holds, handle_worker_exit, settle_one,
  hold_one, unhold_one, unhold, handle_release, handle_ack, acked, drop_pending,
}
use shared_memory_fs.Retirement.Settle.{update_of, pends, was_freed, frees-append}
use shared_memory_fs.Retirement.Exit.{exit_holds-get}

-- Ids are given out in order: no record, and no update that waits, is past the counters, and a
-- freed version has no record.
pub record Bounded (k : Kernel) : Type 0 where
  pub records :
      (id u : ℕ) → update_of k id ≡ some u → (id ≤ k.next_retire_id) × (u ≤ k.next_update_id)
  pub updates : (u : ℕ) → JsMap.has k.acks u ≡ true → u ≤ k.next_update_id
  pub freed : (id : ℕ) → was_freed k id ≡ true → (id ≤ k.next_retire_id) × (update_of k id ≡ none)

-- An operation that makes no record and asks for no ACK, and drops the record of what it frees.
pub record NoNew (k j : Kernel) : Type 0 where
  pub records : (id u : ℕ) → update_of j id ≡ some u → update_of k id ≡ some u
  pub updates : (u : ℕ) → JsMap.has j.acks u ≡ true → JsMap.has k.acks u ≡ true
  pub freed :
      (id : ℕ)
      → was_freed j id ≡ true
      → (was_freed k id ≡ true) ⊎ (((u : ℕ) × (update_of k id ≡ some u)) × (update_of j id ≡ none))
  pub next_retire : j.next_retire_id ≡ k.next_retire_id
  pub next_update : j.next_update_id ≡ k.next_update_id

-- What has no record has none later.
NoNew-gone : {k j : Kernel} → NoNew k j → (id : ℕ) → update_of k id ≡ none → update_of j id ≡ none
NoNew-gone {k} {j} n id e = elim (Option-cases (update_of j id)) [
  | inl gone ↦ gone
  | inr (u, there) ↦ absurd (cc (n.records id u there))
]

pub NoNew-Bounded : {k j : Kernel} → NoNew k j → Bounded k → Bounded j
NoNew-Bounded {k} {j} n b = record {
  records =
      λ id u e. omega (arith, b.records id u (n.records id u e), n.next_retire, n.next_update);
  updates = λ u p. omega (arith, b.updates u (n.updates u p), n.next_update);
  freed = λ id f. by_freed id (n.freed id f);
}
  where
    by_freed :
        (id : ℕ)
        → (was_freed k id ≡ true)
          ⊎ (((u : ℕ) × (update_of k id ≡ some u)) × (update_of j id ≡ none))
        → (id ≤ j.next_retire_id) × (update_of j id ≡ none)
    by_freed id (inl f) =
        (omega (arith, (b.freed id f).0, n.next_retire), NoNew-gone n id (b.freed id f).1)
    by_freed id (inr ((u, e), gone)) = (omega (arith, (b.records id u e).0, n.next_retire), gone)

pub NoNew-refl : (k : Kernel) → NoNew k k
NoNew-refl k = record {
  records = λ i u e. e;
  updates = λ u p. p;
  freed = λ i f. inl f;
  next_retire = refl;
  next_update = refl;
}

NoNew-trans : (i j k : Kernel) → NoNew i j → NoNew j k → NoNew i k
NoNew-trans i j k a b = record {
  records = λ id u e. a.records id u (b.records id u e);
  updates = λ u p. a.updates u (b.updates u p);
  freed = λ id f. by_freed id (b.freed id f);
  next_retire = b.next_retire ∙ a.next_retire;
  next_update = b.next_update ∙ a.next_update;
}
  where
    earlier :
        (id : ℕ)
        → (was_freed i id ≡ true)
          ⊎ (((u : ℕ) × (update_of i id ≡ some u)) × (update_of j id ≡ none))
        → (was_freed i id ≡ true)
          ⊎ (((u : ℕ) × (update_of i id ≡ some u)) × (update_of k id ≡ none))
    earlier id (inl f) = inl f
    earlier id (inr (e, gone)) = inr (e, NoNew-gone b id gone)

    by_freed :
        (id : ℕ)
        → (was_freed j id ≡ true)
          ⊎ (((u : ℕ) × (update_of j id ≡ some u)) × (update_of k id ≡ none))
        → (was_freed i id ≡ true)
          ⊎ (((u : ℕ) × (update_of i id ≡ some u)) × (update_of k id ≡ none))
    by_freed id (inl f) = earlier id (a.freed id f)
    by_freed id (inr ((u, e), gone)) = inr ((u, a.records id u e), gone)

freed_one :
    (k : Kernel) (i id : ℕ)
    → was_freed (settle_one k i) id ≡ true
    → (was_freed k id ≡ true)
      ⊎ (((u : ℕ) × (update_of k id ≡ some u)) × (update_of (settle_one k i) id ≡ none))
unfolding settle_one update_of
freed_one k i id f = elim (Option-cases (JsMap.get k.retired i)) [
  | inl e ↦ inl (ground arith)
  | inr (r, e) ↦ elim (Bool-cases (i == id)) [
    | inl same ↦ elim (Bool-cases (not (is_empty r.holders) || JsMap.has k.acks r.update_id)) [
      | inl kept ↦ inl (ground arith)
      | inr done ↦
          inr (
            (r.update_id, ground (arith, eq_of_beq i id)),
            ground (arith, get-delete k.retired i id),
          )
    ]
    | inr other ↦ inl (ground (arith, frees-append k.freed i r.entry id))
  ]
]

settle_one-NoNew : (k : Kernel) (i : ℕ) → NoNew k (settle_one k i)
unfolding settle_one update_of pends
settle_one-NoNew k i = record {
  records = λ id u e. ground (arith, get-delete k.retired i id);
  updates = λ u p. ground arith;
  freed = λ id f. freed_one k i id f;
  next_retire = ground arith;
  next_update = ground arith;
}

pub settle-NoNew : (k : Kernel) (ids : List ℕ) → NoNew k (settle k ids)
unfolding settle
settle-NoNew k [] = NoNew-refl k
settle-NoNew k (i ∷ ids) =
    NoNew-trans k _ _ (settle_one-NoNew k i) (settle-NoNew (settle_one k i) ids)

hold_one-NoNew : (k : Kernel) (l i : ℕ) → NoNew k (hold_one k l i)
unfolding hold_one update_of pends
hold_one-NoNew k l i = elim (Option-cases (JsMap.get k.retired i)) [
  | inl e ↦ rw (e, hold_one) (NoNew-refl k)
  | inr (r, e) ↦
      rw (e, hold_one)
        (record {
          records = λ id u e'. ground (
            arith,
            get-set k.retired i id (record r { holders = JsSet.add r.holders l }),
            eq_of_beq i id,
          );
          updates = λ u p. p;
          freed = λ i f. inl f;
          next_retire = refl;
          next_update = refl;
        })
]

pub hold-NoNew : (k : Kernel) (l : ℕ) (ids : List ℕ) → NoNew k (hold k l ids)
unfolding hold
hold-NoNew k l [] = NoNew-refl k
hold-NoNew k l (i ∷ ids) =
    NoNew-trans k _ _ (hold_one-NoNew k l i) (hold-NoNew (hold_one k l i) l ids)

unhold_one-NoNew : (k : Kernel) (l i : ℕ) → NoNew k (unhold_one k l i).0
unfolding unhold_one update_of pends
unhold_one-NoNew k l i = elim (Option-cases (JsMap.get k.retired i)) [
  | inl e ↦ rw (e, unhold_one) (NoNew-refl k)
  | inr (r, e) ↦
      rw (e, unhold_one)
        (record {
          records = λ id u e'. ground (
            arith,
            get-set k.retired i id (record r { holders = JsSet.remove r.holders l }),
            eq_of_beq i id,
          );
          updates = λ u p. p;
          freed = λ i f. inl f;
          next_retire = refl;
          next_update = refl;
        })
]

unhold-NoNew : (k : Kernel) (l : ℕ) (ids : List ℕ) → NoNew k (unhold k l ids).0
unfolding unhold
unhold-NoNew k l [] = NoNew-refl k
unhold-NoNew k l (i ∷ ids) =
    NoNew-trans k (unhold_one k l i).0 _ (unhold_one-NoNew k l i)
      (unhold-NoNew (unhold_one k l i).0 l ids)

pub handle_release-NoNew : (k : Kernel) (l : ℕ) (ids : List ℕ) → NoNew k (handle_release k l ids)
unfolding handle_release
handle_release-NoNew k l ids =
    NoNew-trans k (unhold k l ids).0 _ (unhold-NoNew k l ids)
      (settle-NoNew (unhold k l ids).0 (unhold k l ids).1)

dropped-NoNew :
    (k : Kernel) (update link : ℕ) (a : Ack)
    → JsMap.get k.acks update ≡ some a
    → NoNew k (drop_pending k update link a)
unfolding drop_pending update_of pends
dropped-NoNew k update link a e = elim (Bool-cases (not (contains a.pending link))) [
  | inl absent ↦ rw (absent, drop_pending) (NoNew-refl k)
  | inr there ↦ elim (Bool-cases (is_empty (JsSet.remove a.pending link))) [
    | inl z ↦
        rw (there, z, drop_pending)
          (NoNew-trans k _ _
            (record {
              records = λ id u e. e;
              updates = λ u p. ground (
                arith,
                get-delete k.acks update u,
                has-eq-get k.acks u,
                has-eq-get (JsMap.delete k.acks update) u,
              );
              freed = λ i f. inl f;
              next_retire = refl;
              next_update = refl;
            })
            (settle-NoNew (record k { acks = JsMap.delete k.acks update }) a.retired))
    | inr some_left ↦
        rw (there, some_left, drop_pending)
          (record {
            records = λ id u e. e;
            updates = λ u p. ground (
              arith,
              get-set k.acks update u (record a { pending = JsSet.remove a.pending link }),
              eq_of_beq update u,
              has-eq-get k.acks u,
              has-eq-get
                  (JsMap.set k.acks update (record a { pending = JsSet.remove a.pending link })) u,
            );
            freed = λ i f. inl f;
            next_retire = refl;
            next_update = refl;
          })
  ]
]

pub handle_ack-NoNew :
    (k : Kernel) (update link : ℕ) (ids : List ℕ) → NoNew k (handle_ack k update link ids)
unfolding handle_ack acked
handle_ack-NoNew k update link ids =
    NoNew-trans k (hold k link ids) _ (hold-NoNew k link ids) (by_entry (hold k link ids))
  where
    by_entry : (j : Kernel) → NoNew j (acked j update link)
    by_entry j = elim (Option-cases (JsMap.get j.acks update)) [
      | inl e ↦ rw (e, acked) (NoNew-refl j)
      | inr (a, e) ↦ rw (e, acked) (dropped-NoNew j update link a e)
    ]

exit_acks-has :
    (m : JsMap ℕ Ack) (link u : ℕ) → JsMap.has (exit_acks m link).0 u ≡ true → JsMap.has m u ≡ true
unfolding exit_acks JsMap.has
exit_acks-has [] link u h = h
exit_acks-has ((v, a) ∷ m) link u h = ground (arith, exit_acks-has m link u)

pub handle_worker_exit-NoNew : (k : Kernel) (link : ℕ) → NoNew k (handle_worker_exit k link)
unfolding handle_worker_exit update_of
handle_worker_exit-NoNew k link = NoNew-trans k k1 _ left (settle-NoNew k1 _)
  where
    k1 : Kernel
    k1 = record k {
      links = JsSet.remove k.links link;
      acks = (exit_acks k.acks link).0;
      retired = (exit_holds k.retired link).0;
    }

    left : NoNew k k1
    left = record {
      records = λ id u e. ground (arith, exit_holds-get k.retired link id);
      updates = λ u p. exit_acks-has k.acks link u p;
      freed = λ i f. inl f;
      next_retire = refl;
      next_update = refl;
    }

pub pends-has : (k : Kernel) (u l : ℕ) → pends k u l ≡ true → JsMap.has k.acks u ≡ true
unfolding pends
pends-has k u l p = ground (arith, has-eq-get k.acks u)
