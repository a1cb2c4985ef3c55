-- ===== src/Retirement/Deliveries.antt =====
-- A worker's own events: its reports arrive, it applies an update, it finishes reading, one is posted.
use shared_memory_fs.Prelude.{
  ℕ, ◌≤◌, ◌<◌, ◌≡◌, false, true, List, [], ◌∷◌, ◌++◌, some, ◌==◌, nat_eq, arith, refl, All, ◌⊎◌,
  inl, inr, Bool-cases, eq_of_beq, subst,
}
use shared_memory_fs.Prelude.JsSet.{
  contains, contains-append, contains-remove, Distinct, Distinct-append,
}
use shared_memory_fs.Retirement.{Kernel, hold, handle_ack, handle_release}
use shared_memory_fs.Retirement.Settle.{
  update_of, holds, pends, Keeps, acked-Keeps, handle_ack-Keeps, handle_release-Keeps,
}
use shared_memory_fs.Retirement.Ids.{Bounded}
use shared_memory_fs.Retirement.System.{
  Update, Report, ack, released, Worker, apply_update, finish_reading,
}
use shared_memory_fs.Retirement.Ports.{
  waiting, acked_in, told, tags, waiting-append, waiting-ids, acked_in-ack, acked_in-released,
  told-ack, told-released, tags-ack, tags-released, tags-post, tags-head, waiting-tags,
  acked_in-tags,
}
use shared_memory_fs.Retirement.Workers.{Reads, Reads-update, WorkerOk, acking, held, hold-holds}

-- `handleAck` of the first report: the update waits no longer, and what is retained is held.
module _ (k : Kernel) (l u : ℕ) (vs : List ℕ) (rest : List Report) (ms : List Update)
    (d : Distinct (tags (ack u vs ∷ rest) ms)) where
  own_ack : Keeps (λ t. u == t) (λ _. false) k (handle_ack k u l vs) l
  own_ack = handle_ack-Keeps (λ t. u == t) (λ _. false) k u l vs l (inr (ground arith))

  now_held :
      (v t : ℕ)
      → update_of k v ≡ some t
      → contains vs v ≡ true
      → holds (handle_ack k u l vs) v l ≡ true
  unfolding handle_ack
  now_held v t e h =
      (acked-Keeps (λ t. u == t) (λ _. false) (hold k l vs) u l l (inr (ground arith))).held v refl
        (hold-holds k l v vs t e h)

  other_update : (t : ℕ) → contains (tags rest ms) t ≡ true → (u == t) ≡ false
  unfolding tags
  other_update t h = elim (Bool-cases (u == t)) [
    | inl same ↦ absurd (ground (arith, eq_of_beq u t same, d.0))
    | inr other ↦ other
  ]

  Reads-acked : (v : ℕ) → Reads k l (ack u vs ∷ rest) v → Reads (handle_ack k u l vs) l rest v
  Reads-acked v (held h) = held (own_ack.held v refl h)
  Reads-acked v (acking t e p a) = elim (Bool-cases (acked_in rest t v)) [
    | inl later ↦
        let ne = other_update t (acked_in-tags rest ms t v later) in
        acking t (own_ack.update v t e (inr (ne, p))) (own_ack.pending t ne p) later
    | inr now ↦ held (now_held v t e (retained now))
  ]
    where
      retained : acked_in rest t v ≡ false → contains vs v ≡ true
      retained now = unfold acked_in in ground arith

-- The counters are those of before.
abbrev SameIds : Kernel → Kernel → Type 0
SameIds k j = (j.next_update_id ≡ k.next_update_id) × (j.next_retire_id ≡ k.next_retire_id)

pub acks-WorkerOk :
    (k : Kernel) (l u : ℕ) (vs : List ℕ) (rest : List Report) (w : Worker)
    → w.outbox ≡ ack u vs ∷ rest
    → SameIds k (handle_ack k u l vs)
    → WorkerOk k l w
    → WorkerOk (handle_ack k u l vs) l (record w { outbox = rest })
unfolding tags told contains
acks-WorkerOk k l u vs rest w e s ok =
    let d : Distinct (tags (ack u vs ∷ rest) w.inbox) =
      subst (λ o. Distinct (tags o w.inbox)) e ok.once in
    record {
      inbox = λ t v h.
          let p = ok.inbox t v h in
          let k_ = own_ack k l u vs rest w.inbox d in
          let ne = other_update k l u vs rest w.inbox d t (waiting-tags rest w.inbox t v h) in
          (k_.update v t p.0 (inr (ne, p.1)), k_.pending t ne p.1);
      reading = λ v h.
          Reads-acked k l u vs rest w.inbox d v (subst (λ o. Reads k l o v) e (ok.reading v h));
      once = d.1;
      done = λ v h. ok.done v (rw e h);
      ahead = λ t v h. ((ok.ahead t v h).0, ground (arith, (ok.ahead t v h).1, e));
      tag_ids = λ t h. ground (arith, ok.tag_ids t, s.0, e);
      told_ids = λ v h. ground (arith, ok.told_ids v, s.1, e);
    }

All-contained :
    (vs xs : List ℕ)
    → ((v : ℕ) → contains xs v ≡ true → contains vs v ≡ true)
    → All (λ v. contains vs v ≡ true) xs
unfolding contains
All-contained vs [] h = tt
All-contained vs (x ∷ xs) h = (h x (ground arith), All-contained vs xs (λ v g. h v (ground arith)))

-- `handleRelease` of the first report: the versions that it names are read no more.
pub releases-WorkerOk :
    (k : Kernel) (l : ℕ) (vs : List ℕ) (rest : List Report) (w : Worker)
    → w.outbox ≡ released vs ∷ rest
    → SameIds k (handle_release k l vs)
    → WorkerOk k l w
    → WorkerOk (handle_release k l vs) l (record w { outbox = rest })
unfolding tags told acked_in
releases-WorkerOk k l vs rest w e s ok = record {
  inbox = λ t v h.
      let p = ok.inbox t v h in (own.update v t p.0 (inr (refl, p.1)), own.pending t refl p.1);
  reading = λ v h.
      left v (ground (arith, ok.done v, h, e)) (subst (λ o. Reads k l o v) e (ok.reading v h));
  once = subst (λ o. Distinct (tags o w.inbox)) e ok.once;
  done = λ v h. ok.done v (ground (arith, e));
  ahead = λ t v h. ((ok.ahead t v h).0, ground (arith, (ok.ahead t v h).1, e));
  tag_ids = λ t h. ground (arith, ok.tag_ids t, s.0, e);
  told_ids = λ v h. ground (arith, ok.told_ids v, s.1, e);
}
  where
    own : Keeps (λ _. false) (contains vs) k (handle_release k l vs) l
    own =
        handle_release-Keeps (λ _. false) (contains vs) k l vs l
          (inr (All-contained vs vs (λ v h. h)))

    left :
        (v : ℕ)
        → contains vs v ≡ false
        → Reads k l (released vs ∷ rest) v
        → Reads (handle_release k l vs) l rest v
    left v ne (held h) = held (own.held v ne h)
    left v ne (acking t f p a) =
        acking t (own.update v t f (inr (refl, p))) (own.pending t refl p) a

-- The worker applies its next update.
module _ (k : Kernel) (l : ℕ) (u : Update) (rest : List Update) (retained : List ℕ) where
  Reads-applied :
      (o : List Report) (v : ℕ) → Reads k l o v → Reads k l (o ++ (ack u.id retained ∷ [])) v
  Reads-applied o v (held h) = held h
  Reads-applied o v (acking t e p a) =
      acking t e p (ground (arith, acked_in-ack o u.id t v retained))

  pub applies-WorkerOk :
      (w : Worker)
      → w.inbox ≡ u ∷ rest
      → ((v : ℕ) → contains retained v ≡ true → contains u.retired v ≡ true)
      → WorkerOk k l w
      → WorkerOk k l (apply_update w u rest retained)
  unfolding apply_update waiting
  applies-WorkerOk w e sub ok = record {
    inbox = λ t v h. ok.inbox t v (later t v h);
    reading = λ v h. elim (Bool-cases (contains retained v)) [
      | inl new ↦
          let p = ok.inbox u.id v (first v new) in
          acking u.id p.0 p.1 (ground (arith, acked_in-ack w.outbox u.id u.id v retained))
      | inr old ↦
          Reads-applied w.outbox v
            (ok.reading v (ground (arith, contains-append retained w.reading v)))
    ];
    once = rw (tags-ack w.outbox u rest retained) once_before;
    done = λ v h. ground (
      arith,
      told-ack w.outbox u.id v retained,
      ok.done v,
      contains-append retained w.reading v,
      ok.ahead u.id v,
      first v,
    );
    ahead = λ t v h.
        let a = ok.ahead t v (later t v h) in
        (
          ground (arith, contains-append retained w.reading v, a.0, not_again t v h),
          ground (arith, told-ack w.outbox u.id v retained, a.1),
        );
    tag_ids = λ t h. ok.tag_ids t (rw e (rw (← tags-ack w.outbox u rest retained) h));
    told_ids = λ v h. ok.told_ids v (rw (← told-ack w.outbox u.id v retained) h);
  }
    where
      later : (t v : ℕ) → waiting rest t v ≡ true → waiting w.inbox t v ≡ true
      later t v h = rw e (ground arith)

      first : (v : ℕ) → contains retained v ≡ true → waiting w.inbox u.id v ≡ true
      first v h = rw e (ground (arith, sub v h))

      once_before : Distinct (tags w.outbox (u ∷ rest))
      once_before = subst (λ i. Distinct (tags w.outbox i)) e ok.once

      not_again : (t v : ℕ) → waiting rest t v ≡ true → contains retained v ≡ false
      not_again t v h = elim (Bool-cases (contains retained v)) [
        | inl new ↦ absurd (
            ground (
              arith,
              (ok.inbox u.id v (first v new)).0,
              (ok.inbox t v (later t v h)).0,
              waiting-ids rest t v h,
              tags-head w.outbox u rest once_before,
            ))
        | inr no' ↦ no'
      ]

pub Reads-bound :
    (k : Kernel) (l : ℕ) (o : List Report) (v : ℕ)
    → Bounded k
    → Reads k l o v
    → v ≤ k.next_retire_id
Reads-bound k l o v b r = let (u, e) = Reads-update k l o v r in (b.records v u e).0

-- Its last consumer of a version is done.
pub finishes-WorkerOk :
    (k : Kernel) (l id : ℕ) (w : Worker)
    → Bounded k
    → contains w.reading id ≡ true
    → WorkerOk k l w
    → WorkerOk k l (finish_reading w id)
unfolding finish_reading contains
finishes-WorkerOk k l id w b h ok = record {
  inbox = ok.inbox;
  reading = λ v g. same v (ok.reading v (ground (arith, contains-remove w.reading id v)));
  once = rw (tags-released w.outbox w.inbox (id ∷ [])) ok.once;
  done = λ v g.
      ground (arith, told-released w.outbox v (id ∷ []), contains-remove w.reading id v, ok.done v);
  ahead = λ t v g.
      let a = ok.ahead t v g in
      (
        ground (arith, contains-remove w.reading id v, a.0),
        ground (arith, told-released w.outbox v (id ∷ []), a.0, a.1, h, eq_of_beq id v),
      );
  tag_ids = λ t g. ok.tag_ids t (rw (← tags-released w.outbox w.inbox (id ∷ [])) g);
  told_ids = λ v g. ground (
    arith,
    told-released w.outbox v (id ∷ []),
    ok.told_ids v,
    eq_of_beq id v,
    Reads-bound k l w.outbox id b (ok.reading id h),
  );
}
  where
    same : (v : ℕ) → Reads k l w.outbox v → Reads k l (w.outbox ++ (released (id ∷ []) ∷ [])) v
    same v (held g) = held g
    same v (acking u e p a) = acking u e p (rw (acked_in-released w.outbox u v (id ∷ [])) a)

-- An update is posted: its versions are new, and are guarded.
pub posted-WorkerOk :
    (k j : Kernel) (l : ℕ) (m : Update) (w : Worker)
    → k.next_update_id < m.id
    → m.id ≤ j.next_update_id
    → Bounded k
    → ((v : ℕ)
        → contains m.retired v ≡ true
        → (k.next_retire_id < v) × (update_of j v ≡ some m.id) × (pends j m.id l ≡ true))
    → WorkerOk k l w
    → WorkerOk j l w
    → WorkerOk j l (record w { inbox = w.inbox ++ (m ∷ []) })
unfolding contains
posted-WorkerOk k j l m w fresh le b new before ok = record {
  inbox = λ u v h. by_place u v (Bool-cases (waiting w.inbox u v)) h;
  reading = ok.reading;
  once = rw (tags-post w.outbox w.inbox m) (
      Distinct-append (tags w.outbox w.inbox) m.id ok.once
        (not_tagged (Bool-cases (contains (tags w.outbox w.inbox) m.id))));
  done = ok.done;
  ahead = λ u v h. (
    elim (Bool-cases (contains w.reading v)) [
      | inl r ↦ absurd (
          ground (
            arith,
            waiting-append w.inbox m u v,
            ok.ahead u v,
            (new v),
            Reads-bound k l w.outbox v b (before.reading v r),
          ))
      | inr no' ↦ no'
    ],
    elim (Bool-cases (told w.outbox v)) [
      | inl r ↦
          absurd (
            ground
              (arith, waiting-append w.inbox m u v, ok.ahead u v, (new v), before.told_ids v r))
      | inr no' ↦ no'
    ],
  );
  tag_ids = λ u h. ground (
    arith,
    tags-post w.outbox w.inbox m,
    contains-append (tags w.outbox w.inbox) (m.id ∷ []) u,
    ok.tag_ids u,
    eq_of_beq m.id u,
  );
  told_ids = ok.told_ids;
}
  where
    by_place :
        (u v : ℕ)
        → (waiting w.inbox u v ≡ true) ⊎ (waiting w.inbox u v ≡ false)
        → waiting (w.inbox ++ (m ∷ [])) u v ≡ true
        → (update_of j v ≡ some u) × (pends j u l ≡ true)
    by_place u v (inl old) h = ok.inbox u v old
    by_place u v (inr no') h =
        let e : (m.id ≡ u) × (contains m.retired v ≡ true) =
          ground (arith, waiting-append w.inbox m u v, eq_of_beq m.id u) in
        let n = new v e.1 in rw (← e.0) (n.1, n.2)

    not_tagged :
        (contains (tags w.outbox w.inbox) m.id ≡ true)
          ⊎ (contains (tags w.outbox w.inbox) m.id ≡ false)
        → contains (tags w.outbox w.inbox) m.id ≡ false
    not_tagged (inl h) = absurd (omega (arith, before.tag_ids m.id h))
    not_tagged (inr h) = h
