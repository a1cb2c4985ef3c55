-- ===== src/Retirement/Events.antt =====
-- What each event of the system (Retirement/System.antt) leaves of the ACKs and holds that guard
-- what the workers read.
use shared_memory_fs.Prelude.{
  ℕ, ◌+◌, ◌≤◌, ◌<◌, ◌≡◌, Bool, false, true, some, List, [], ◌∷◌, ◌++◌, ◌==◌, nat_eq, arith, refl,
  All, keep, inl, inr, Bool-cases, Option-cases, eq_of_beq, subst, ◌∙◌,
}
use shared_memory_fs.Prelude.JsMap
use shared_memory_fs.Prelude.JsMap.{has-eq-get}
use shared_memory_fs.Prelude.JsSet.{contains, contains-append}
use shared_memory_fs.Retirement.{
  Kernel, main, flush, hold, unhold, unhold_one, acked, drop_pending, retire, track, handle_ack,
  handle_release,
}
use shared_memory_fs.Retirement.Settle.{
  settle-links, update_of, version-update, Keeps-refl, holds, pends, Keeps, handle_ack-Keeps,
  handle_release-Keeps,
}
use shared_memory_fs.Retirement.Ids.{
  Bounded, NoNew, NoNew-Bounded, handle_ack-NoNew, handle_release-NoNew, NoNew-refl, hold-NoNew,
  settle-NoNew,
}
use shared_memory_fs.Retirement.Epoch.{
  flush-Keeps, flush-Bounded, flush-links, flush-waits, Paired-All, hold-links, retire-Retires,
}
use shared_memory_fs.Retirement.System.{
  Update, Report, ack, released, Worker, System, idle, with_worker, post, Live, flushed,
}
use shared_memory_fs.Retirement.Ports.{waiting, told, tags, ids}
use shared_memory_fs.Retirement.Workers.{WorkerOk, WorkerOk-kept}
use shared_memory_fs.Retirement.Deliveries.{acks-WorkerOk, releases-WorkerOk, posted-WorkerOk}

pub record Safe (s : System) : Type 0 where
  pub bounded : Bounded s.kernel
  pub named : (l : ℕ) → Live s l → main < l
  pub workers : (l : ℕ) → Live s l → WorkerOk s.kernel l (s.worker l)

-- The links that a message leaves alone.
acked-links : (k : Kernel) (u l : ℕ) → (acked k u l).links ≡ k.links
unfolding acked drop_pending
acked-links k u l = elim (Option-cases (JsMap.get k.acks u)) [
  | inl e ↦ ground arith
  | inr (a, e) ↦ ground (arith, settle-links (record k { acks = JsMap.delete k.acks u }) a.retired)
]

handle_ack-links : (k : Kernel) (u l : ℕ) (vs : List ℕ) → (handle_ack k u l vs).links ≡ k.links
unfolding handle_ack
handle_ack-links k u l vs = acked-links (hold k l vs) u l ∙ hold-links k l vs

unhold-links : (k : Kernel) (l : ℕ) (vs : List ℕ) → (unhold k l vs).0.links ≡ k.links
unfolding unhold unhold_one
unhold-links k l [] = refl
unhold-links k l (v ∷ vs) = unhold-links (unhold_one k l v).0 l vs ∙ one
  where
    one : (unhold_one k l v).0.links ≡ k.links
    one = ground arith

pub handle_release-links :
    (k : Kernel) (l : ℕ) (vs : List ℕ) → (handle_release k l vs).links ≡ k.links
unfolding handle_release
handle_release-links k l vs = settle-links (unhold k l vs).0 (unhold k l vs).1 ∙ unhold-links k l vs

-- An event of the kernel that is about one worker `l`: the others, and that one.
module _ (s : System) (safe : Safe s) (l : ℕ) (w : Worker) (j : Kernel) where
  one-Safe :
      NoNew s.kernel j
      → j.links ≡ s.kernel.links
      → ((o : ℕ) → (l == o) ≡ false → Keeps (λ _. false) (λ _. false) s.kernel j o)
      → WorkerOk j l w
      → Safe (record { kernel = j; worker = with_worker s l w })
  one-Safe n links keeps ok = record {
    bounded = NoNew-Bounded n safe.bounded;
    named = λ o h. safe.named o (rw (← links) h);
    workers = λ o h. elim (Bool-cases (l == o)) [
      | inl same ↦ rw (same, ← eq_of_beq l o same) ok
      | inr other ↦ rw other (
          WorkerOk-kept s.kernel j o (keeps o other) (s.worker o) (omega (arith, n.next_update))
            (omega (arith, n.next_retire)) (safe.workers o (rw (← links) h)))
    ];
  }

-- A message of a worker, and an event of the worker alone.
module _ (s : System) (safe : Safe s) (l : ℕ) (live : Live s l) where
  pub acks-Safe :
      (u : ℕ) (vs : List ℕ) (rest : List Report)
      → (s.worker l).outbox ≡ ack u vs ∷ rest
      → Safe (record {
        kernel = handle_ack s.kernel u l vs;
        worker = with_worker s l (record (s.worker l) { outbox = rest });
      })
  acks-Safe u vs rest e =
      let n = handle_ack-NoNew s.kernel u l vs in
      one-Safe s safe l _ _ n (handle_ack-links s.kernel u l vs)
        (λ o ne. handle_ack-Keeps (λ _. false) (λ _. false) s.kernel u l vs o (inl ne))
        (acks-WorkerOk s.kernel l u vs rest (s.worker l) e (n.next_update, n.next_retire)
          (safe.workers l live))

  pub releases-Safe :
      (vs : List ℕ) (rest : List Report)
      → (s.worker l).outbox ≡ released vs ∷ rest
      → Safe (record {
        kernel = handle_release s.kernel l vs;
        worker = with_worker s l (record (s.worker l) { outbox = rest });
      })
  releases-Safe vs rest e =
      let n = handle_release-NoNew s.kernel l vs in
      one-Safe s safe l _ _ n (handle_release-links s.kernel l vs)
        (λ o ne. handle_release-Keeps (λ _. false) (λ _. false) s.kernel l vs o (inl ne))
        (releases-WorkerOk s.kernel l vs rest (s.worker l) e (n.next_update, n.next_retire)
          (safe.workers l live))

  pub alone-Safe :
      (w : Worker) → WorkerOk s.kernel l w → Safe (record s { worker = with_worker s l w })
  alone-Safe w ok =
      one-Safe s safe l w s.kernel (NoNew-refl s.kernel) refl
        (λ o ne. Keeps-refl (λ _. false) (λ _. false) s.kernel o) ok

-- An event of the kernel that is about no worker.
pub kernel-Safe :
    (s : System) (j : Kernel)
    → Safe s
    → NoNew s.kernel j
    → ((o : ℕ)
        → contains j.links o ≡ true
        → Live s o × Keeps (λ _. false) (λ _. false) s.kernel j o)
    → Safe (record s { kernel = j })
kernel-Safe s j safe n keeps = record {
  bounded = NoNew-Bounded n safe.bounded;
  named = λ o h. safe.named o (keeps o h).0;
  workers = λ o h.
      let p = keeps o h in
      WorkerOk-kept s.kernel j o p.1 (s.worker o) (omega (arith, n.next_update))
        (omega (arith, n.next_retire)) (safe.workers o p.0);
}

-- A worker that has just been linked.
pub links_up-Safe :
    (s : System) (l : ℕ)
    → Safe s
    → main < l
    → Safe (record {
      kernel = record (s.kernel) { links = s.kernel.links ++ (l ∷ []) };
      worker = with_worker s l idle;
    })
unfolding update_of holds pends contains
links_up-Safe s l safe pos = record {
  bounded = record {
    records = safe.bounded.records;
    updates = safe.bounded.updates;
    freed = safe.bounded.freed;
  };
  named =
      λ o h. ground (arith, contains-append s.kernel.links (l ∷ []) o, safe.named o, eq_of_beq l o);
  workers = λ o h. elim (Bool-cases (l == o)) [
    | inl same ↦ rw same nothing_yet
    | inr other ↦ rw other (
        WorkerOk-kept s.kernel (record (s.kernel) { links = s.kernel.links ++ (l ∷ []) }) o
          (record { pending = λ u x p. p; held = λ v x p. p; update = λ v u e g. e }) (s.worker o)
          (omega arith) (omega arith)
          (safe.workers o (ground (arith, contains-append s.kernel.links (l ∷ []) o))))
  ];
}
  where
    nothing_yet : {j : Kernel} {o : ℕ} → WorkerOk j o idle
    nothing_yet =
        unfold waiting told tags ids in
        record {
          inbox = λ u v h. absurd (ground arith);
          reading = λ v h. absurd (ground arith);
          once = tt;
          done = λ v h. refl;
          ahead = λ u v h. absurd (ground arith);
          tag_ids = λ u h. absurd (ground arith);
          told_ids = λ v h. absurd (ground arith);
        }

-- The counters after an epoch.
track-next :
    (k : Kernel) (u : ℕ) (vs : List ℕ)
    → ((track k u vs).next_update_id ≡ k.next_update_id)
      × ((track k u vs).next_retire_id ≡ k.next_retire_id)
unfolding track
track-next k u [] = (refl, refl)
track-next k u (v ∷ vs) =
    let n = settle-NoNew k (v ∷ vs) in
    (ground (arith, n.next_update), ground (arith, n.next_retire))

pub All-at : (P : ℕ → Type 0) (vs : List ℕ) (v : ℕ) → All P vs → contains vs v ≡ true → P v
unfolding contains
All-at P [] v a h = absurd (ground arith)
All-at P (x ∷ vs) v a h = elim (Bool-cases (x == v)) [
  | inl same ↦ subst P (eq_of_beq x v same) a.0
  | inr other ↦ All-at P vs v a.1 (ground arith)
]

module _ (s : System) (safe : Safe s) (entries : List ℕ) (main_reads : ℕ → Bool) where
  abbrev after : Kernel
  after = (flush s.kernel entries main_reads).0

  abbrev message : Update
  message = record {
    id = (flush s.kernel entries main_reads).1;
    retired = (flush s.kernel entries main_reads).2;
  }

  flush-next :
      (message.id ≡ s.kernel.next_update_id + 1)
      × (after.next_update_id ≡ message.id)
      × (s.kernel.next_retire_id ≤ after.next_retire_id)
  unfolding flush
  flush-next =
      let u = s.kernel.next_update_id + 1 in
      let k0 : Kernel = record (s.kernel) { next_update_id = u } in
      let t = retire k0 u entries in
      let r = retire-Retires u k0 entries in
      let n = hold-NoNew t.0 main (keep main_reads t.1) in
      let m = track-next (hold t.0 main (keep main_reads t.1)) u t.1 in
      (
        refl,
        m.0 ∙ (n.next_update ∙ r.next_update),
        omega (arith, m.1, n.next_retire, r.next_retire),
      )

  flush-WorkerOk : (o : ℕ) → Live s o → WorkerOk after o (post s after message o)
  flush-WorkerOk o h =
      let ok = safe.workers o h in
      let f = flush-next in
      let links = flush-links (λ _. false) (λ _. false) s.kernel safe.bounded entries main_reads in
      let kept =
        WorkerOk-kept s.kernel after o
          (flush-Keeps (λ _. false) (λ _. false) s.kernel safe.bounded entries main_reads o)
          (s.worker o) (omega (arith, f.0, f.1)) f.2 ok in
      let there : contains after.links o ≡ true = rw links h in
      rw there (
        posted-WorkerOk s.kernel after o message (s.worker o) (omega (arith, f.0))
          (omega (arith, f.1)) safe.bounded
          (λ v i.
            All-at _ message.retired v
              (Paired-All _
                (λ id.
                  (s.kernel.next_retire_id < id)
                  × (update_of after id ≡ some message.id)
                  × (pends after message.id o ≡ true))
                entries message.retired
                (λ entry id p. (p.0, version-update after id message.id entry p.1, p.2))
                (flush-waits (λ _. false) (λ _. false) s.kernel safe.bounded entries main_reads o
                  h))
              i)
          ok kept)

  pub flushes-Safe : Safe (flushed s entries main_reads)
  unfolding flushed
  flushes-Safe =
      let links = flush-links (λ _. false) (λ _. false) s.kernel safe.bounded entries main_reads in
      record {
        bounded = flush-Bounded s.kernel entries main_reads safe.bounded;
        named = λ o h. safe.named o (rw (← links) h);
        workers = λ o h. flush-WorkerOk o (rw (← links) h);
      }
