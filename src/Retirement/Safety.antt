-- ===== src/Retirement/Safety.antt =====
-- No version that a live worker may still read is freed, whatever the order of the messages.
use shared_memory_fs.Prelude.{
  ℕ, ◌≡◌, false, true, List, [], ◌++◌, some, ◌==◌, nat_eq, arith, All, inl, inr, none, Bool-cases,
}
use shared_memory_fs.Prelude.JsMap
use shared_memory_fs.Prelude.JsMap.{has-eq-get}
use shared_memory_fs.Prelude.JsSet
use shared_memory_fs.Prelude.JsSet.{contains, contains-append, contains-remove}
use shared_memory_fs.Retirement.{
  Kernel, main, exit_acks, exit_holds, handle_release, handle_worker_exit,
}
use shared_memory_fs.Retirement.Settle.{
  settle-links, update_of, frees, was_freed, handle_release-Keeps,
}
use shared_memory_fs.Retirement.Exit.{handle_worker_exit-Keeps}
use shared_memory_fs.Retirement.Ids.{handle_release-NoNew, handle_worker_exit-NoNew}
use shared_memory_fs.Retirement.System.{
  System, idle, apply_update, finish_reading, Live, Step, flushes, links_up, applies, finishes,
  acks, releases, main_releases, exits, Reach, here, next,
}
use shared_memory_fs.Retirement.Ports.{waiting}
use shared_memory_fs.Retirement.Workers.{WorkerOk, Reads-update}
use shared_memory_fs.Retirement.Deliveries.{applies-WorkerOk, finishes-WorkerOk}
use shared_memory_fs.Retirement.Events.{
  Safe, handle_release-links, alone-Safe, kernel-Safe, acks-Safe, releases-Safe, links_up-Safe,
  flushes-Safe, All-at,
}

exits-links :
    (k : Kernel) (l o : ℕ)
    → contains (handle_worker_exit k l).links o ≡ true
    → (contains k.links o ≡ true) × ((l == o) ≡ false)
unfolding handle_worker_exit
exits-links k l o h =
    let e =
      settle-links
        (record k {
          links = JsSet.remove k.links l;
          acks = (exit_acks k.acks l).0;
          retired = (exit_holds k.retired l).0;
        })
        ((exit_acks k.acks l).1 ++ (exit_holds k.retired l).1) in
    ground (arith, contains-remove k.links l o, e)

Step-Safe : (s t : System) → Step s t → Safe s → Safe t
Step-Safe s t (flushes entries main_reads) safe = flushes-Safe s safe entries main_reads
Step-Safe s t (links_up l pos new) safe = links_up-Safe s l safe pos
Step-Safe s t (applies l u rest retained live e sub) safe =
    alone-Safe s safe l live (apply_update (s.worker l) u rest retained) (
      applies-WorkerOk s.kernel l u rest retained (s.worker l) e (λ v h. All-in retained v sub h)
        (safe.workers l live))
  where
    All-in :
        (vs : List ℕ) (v : ℕ)
        → All (λ id. contains u.retired id ≡ true) vs
        → contains vs v ≡ true
        → contains u.retired v ≡ true
    All-in vs v a h = All-at (λ id. contains u.retired id ≡ true) vs v a h
Step-Safe s t (finishes l id live reads) safe =
    alone-Safe s safe l live (finish_reading (s.worker l) id)
      (finishes-WorkerOk s.kernel l id (s.worker l) safe.bounded reads (safe.workers l live))
Step-Safe s t (acks l u vs rest live e) safe = acks-Safe s safe l live u vs rest e
Step-Safe s t (releases l vs rest live e) safe = releases-Safe s safe l live vs rest e
Step-Safe s t (main_releases vs) safe =
    kernel-Safe s (handle_release s.kernel main vs) safe (handle_release-NoNew s.kernel main vs)
      (λ o h.
        let live : Live s o = rw (← handle_release-links s.kernel main vs) h in
        (
          live,
          handle_release-Keeps (λ _. false) (λ _. false) s.kernel main vs o
              (inl (ground (arith, safe.named o live))),
        ))
Step-Safe s t (exits l pos live) safe =
    kernel-Safe s (handle_worker_exit s.kernel l) safe (handle_worker_exit-NoNew s.kernel l) (λ o h.
      let p = exits-links s.kernel l o h in
      (p.0, handle_worker_exit-Keeps (λ _. false) (λ _. false) s.kernel l o p.1))

pub Reach-Safe : (s t : System) → Reach s t → Safe s → Safe t
Reach-Safe s t here safe = safe
Reach-Safe s t (next r step) safe = Step-Safe _ t step (Reach-Safe s _ r safe)

-- A version that a worker may still read: it is reading it, or an update that retires it is on its way.
pub data MayRead (s : System) (l id : ℕ) : Type 0 where
  reads : contains (s.worker l).reading id ≡ true → MayRead s l id
  unapplied : (u : ℕ) → waiting (s.worker l).inbox u id ≡ true → MayRead s l id

-- In every system that steps reach from one with the invariant `Safe`, whatever the order of
-- updates, ACKs, releases, links and exits: a retired version that a live worker may still read,
-- because it is reading it or has yet to apply the update that retires it, is still recorded as
-- retired, and `cache.free` was not called for its record.
pub Reach-recorded :
    (s t : System) (l id : ℕ)
    → Safe s
    → Reach s t
    → Live t l
    → MayRead t l id
    → (JsMap.has t.kernel.retired id ≡ true) × (was_freed t.kernel id ≡ false)
unfolding update_of
Reach-recorded s t l id safe r live m =
    let after = Reach-Safe s t r safe in
    let there = recorded (after.workers l live) m in
    (
      ground (arith, there.1, has-eq-get t.kernel.retired id),
      elim (Bool-cases (was_freed t.kernel id)) [
        | inl f ↦ absurd (not_both there.0 there.1 (after.bounded.freed id f).1)
        | inr kept ↦ kept
      ],
    )
  where
    not_both : (u : ℕ) → update_of t.kernel id ≡ some u → update_of t.kernel id ≡ none → ⊥
    not_both u a b = cc

    recorded :
        WorkerOk t.kernel l (t.worker l)
        → MayRead t l id
        → (u : ℕ) × (update_of t.kernel id ≡ some u)
    recorded ok (reads h) = Reads-update t.kernel l (t.worker l).outbox id (ok.reading id h)
    recorded ok (unapplied u h) = (u, (ok.inbox u id h).0)

abbrev pub new_kernel : Kernel
new_kernel = record {
  links = [];
  acks = [];
  retired = [];
  freed = [];
  next_update_id = 0;
  next_retire_id = 0;
}

abbrev pub new_system : System
new_system = record { kernel = new_kernel; worker = λ _. idle }

pub new_system-Safe : Safe new_system
unfolding update_of contains frees JsMap.get JsMap.has
new_system-Safe = record {
  bounded = record {
    records = λ id u e. absurd (ground arith);
    updates = λ u e. absurd (ground arith);
    freed = λ id f. absurd (ground arith);
  };
  named = λ l h. absurd (ground arith);
  workers = λ l h. absurd (ground arith);
}
