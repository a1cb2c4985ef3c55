-- ===== src/Queue/Fifo.antt =====
-- lib/mutation-queue.js: what every history of requests and settled tasks keeps.
use shared_memory_fs.Prelude.{
  ℕ, suc, ◌<◌, ◌≡◌, false, true, List, [], ◌∷◌, Option, some, ◌==◌, nat_eq, if◌then◌else◌, arith,
  refl, inl, inr, ◌⊎◌, Bool-cases, Option-cases, ◌∙◌, sym, ap, subst, eq_of_beq, beq_refl,
}
use shared_memory_fs.Prelude.JsMap
use shared_memory_fs.Prelude.JsMap.{JsMap, get-set, get-delete}
use shared_memory_fs.Prelude.JsSet.{contains}
use shared_memory_fs.Prelude.Text.{Str, str_eq}
use shared_memory_fs.Queue.{Locks, Task, locks_of, lock, run, unlocked, no_locks, release}
use shared_memory_fs.Queue.Order.{
  History, Settled, Runs, requests, settles, Reachable, start, step, Holds, Waits, itself, through,
  Covers, Closed, Closed-Settled, Waits-set, lock-prior, lock-leads, lock-other, run-get,
  locks_of-get, lock-shape, drop_tails-get,
}

abbrev Conflict : Task → Task → Str → Type 0
Conflict first second key = (first.name ≡ second.name) × Holds first key × Holds second key

pub record Inv (h : History) : Type 0 where
  pub fresh : (i : ℕ) (task : Task) → JsMap.get h.tasks i ≡ some task → i < h.next
  known : (i : ℕ) → Settled h i → i < h.next
  closed : Closed h
  covered :
      (i : ℕ) (task : Task) (key : Str)
      → JsMap.get h.tasks i ≡ some task
      → contains h.settled i ≡ false
      → Holds task key
      → (locks : Locks) × (JsMap.get h.queue.places task.name ≡ some locks)
        × (locks.ref ≡ task.ref)
        × Covers h.tasks locks key i
  ordered :
      (i j : ℕ) (first second : Task) (key : Str)
      → JsMap.get h.tasks i ≡ some first
      → JsMap.get h.tasks j ≡ some second
      → i < j
      → Conflict first second key
      → Settled h i ⊎ Waits h.tasks i j

module _ (h : History) (name : Str) (keys : Option (List Str)) (v : Inv h) where
  abbrev new : Task
  new = (run h.queue name keys h.next).1

  abbrev found : Locks
  found = (locks_of h.queue name).1

  abbrev after : History
  after = record {
    queue = (run h.queue name keys h.next).0;
    tasks = JsMap.set h.tasks h.next new;
    settled = h.settled;
    next = suc h.next;
  }

  new-lock : new ≡ (lock found name keys h.next).1
  new-lock = unfold run in refl

  task_at :
      (i : ℕ) (task : Task)
      → JsMap.get after.tasks i ≡ some task
      → ((h.next ≡ i) × (new ≡ task)) ⊎ (JsMap.get h.tasks i ≡ some task)
  task_at i task e = elim (Bool-cases (h.next == i)) [
    | inl same ↦ inl (eq_of_beq h.next i same, ground (arith, get-set h.tasks h.next i new))
    | inr other ↦ inr (ground (arith, get-set h.tasks h.next i new))
  ]

  waits : (i t : ℕ) → Waits h.tasks i t → Waits after.tasks i t
  waits i t w = Waits-set h.tasks h.next new i t v.fresh w

  covers :
      (locks : Locks) (key : Str) (i : ℕ)
      → Covers h.tasks locks key i
      → Covers after.tasks locks key i
  covers locks key i (inl (t, e, w)) = inl (t, e, waits i t w)
  covers locks key i (inr (t, e, w)) = inr (t, e, waits i t w)

  -- The new task waits for what covers one of its keys.
  new-Waits :
      (key : Str) (i : ℕ) → Covers h.tasks found key i → Holds new key → Waits after.tasks i h.next
  new-Waits key i c holds =
      let (p, member, w) =
        lock-prior found name keys h.next h.tasks key i c
          (subst (λ t. Holds t key) new-lock holds) in
      through new p (ground (arith, get-set h.tasks h.next h.next new, beq_refl h.next))
        (rw new-lock member) (waits i p w)

  leads :
      (key : Str) (i : ℕ)
      → Holds new key
      → Waits after.tasks i h.next
      → Covers after.tasks (lock found name keys h.next).0 key i
  leads key i holds w =
      elim (lock-leads found name keys h.next key (subst (λ t. Holds t key) new-lock holds)) [
        | inl e ↦ inl (h.next, e, w)
        | inr e ↦ inr (h.next, e, w)
      ]

  covered_after :
      (key : Str) (i : ℕ)
      → Covers h.tasks found key i
      → Covers after.tasks (lock found name keys h.next).0 key i
  covered_after key i c = elim (lock-other found name keys h.next h.tasks key i c) [
    | inl holds ↦
        let holds' : Holds new key = subst (λ t. Holds t key) (sym new-lock) holds in
        leads key i holds' (new-Waits key i c holds')
    | inr still ↦ covers (lock found name keys h.next).0 key i still
  ]

  new-name : new.name ≡ name
  new-name = rw new-lock ((lock-shape found name keys h.next).0)

  abbrev Covered : History → ℕ → Task → Str → Type 0
  Covered g i task key =
      (locks : Locks) × (JsMap.get g.queue.places task.name ≡ some locks)
      × (locks.ref ≡ task.ref)
      × Covers g.tasks locks key i

  places_self :
      (other : Str)
      → name ≡ other
      → JsMap.get after.queue.places other ≡ some (lock found name keys h.next).0
  places_self other e = run-get h.queue name other keys h.next ∙ rw (← e, beq_refl name) refl

  new-Covered : (key : Str) → Holds new key → Covered after h.next new key
  new-Covered key holds = (
    (lock found name keys h.next).0,
    places_self new.name (sym new-name),
    rw new-lock ((lock-shape found name keys h.next).1),
    leads key h.next holds itself,
  )

  old-Covered : (i : ℕ) (task : Task) (key : Str) → Covered h i task key → Covered after i task key
  old-Covered i task key (locks, e, r, c) = elim (Bool-cases (name == task.name)) [
    | inl same ↦
        let eq : name ≡ task.name = eq_of_beq name task.name same in
        let is : found ≡ locks = locks_of-get h.queue name locks (rw eq e) in
        (
          (lock found name keys h.next).0,
          places_self task.name eq,
          (lock-shape found name keys h.next).2 ∙ (ap (λ l. l.ref) is ∙ r),
          covered_after key i (rw is c),
        )
    | inr other ↦
        (locks, run-get h.queue name task.name keys h.next ∙ rw other e, r, covers locks key i c)
  ]

  -- What is requested later waits for what has not settled.
  new_ordered :
      (i : ℕ) (first : Task) (key : Str)
      → JsMap.get h.tasks i ≡ some first
      → Conflict first new key
      → Settled h i ⊎ Waits after.tasks i h.next
  new_ordered i first key e (same, holds, taken) = elim (Bool-cases (contains h.settled i)) [
    | inl s ↦ inl s
    | inr s ↦
        let (locks, g, r, c) = v.covered i first key e s holds in
        let is : found ≡ locks = locks_of-get h.queue name locks (rw (sym new-name ∙ sym same) g) in
        inr (new-Waits key i (rw is c) taken)
  ]

  requested-Inv : Inv after
  requested-Inv = record {
    fresh = λ i task e. elim (task_at i task e) [
      | inl (same, _) ↦ omega (arith, same)
      | inr old ↦ omega (arith, v.fresh i task old)
    ];
    known = λ i s. omega (arith, v.known i s);
    closed = λ i task s e. elim (task_at i task e) [
      | inl (same, _) ↦ absurd (omega (arith, same, v.known i s))
      | inr old ↦ v.closed i task s old
    ];
    covered = λ i task key e s holds. elim (task_at i task e) [
      | inl (same, is) ↦
          subst (λ j. Covered after j task key) same
            (subst (λ t. Covered after h.next t key) is (new-Covered key (rw is holds)))
      | inr old ↦ old-Covered i task key (v.covered i task key old s holds)
    ];
    ordered = λ i j first second key e g less c. elim (task_at i first e) [
      | inl (same, _) ↦ absurd (elim (task_at j second g) [
        | inl (same', _) ↦ omega (arith, same, same', less)
        | inr old ↦ omega (arith, same, less, v.fresh j second old)
      ])
      | inr old_i ↦ elim (task_at j second g) [
        | inl (same, is) ↦
            subst (λ k. Settled h i ⊎ Waits after.tasks i k) same
              (new_ordered i first key old_i (subst (λ t. Conflict first t key) (sym is) c))
        | inr old_j ↦ elim (v.ordered i j first second key old_i old_j less c) [
          | inl s ↦ inl s
          | inr w ↦ inr (waits i j w)
        ]
      ]
    ];
  }

-- A settled task's locks cover nothing that has not settled.
module _ (h : History) (i0 : ℕ) (t0 : Task) (v : Inv h) (here : JsMap.get h.tasks i0 ≡ some t0)
    (runs : Runs h t0) where
  abbrev later : History
  later = record h { queue = release h.queue t0 i0; settled = i0 ∷ h.settled }

  still-Settled : (i : ℕ) → Settled h i → Settled later i
  still-Settled i s = unfold contains in ground arith

  later-Closed : Closed later
  later-Closed i task s e p m = elim (Bool-cases (i0 == i)) [
    | inl same ↦
        let is : t0 ≡ task = ground (arith, here, e, eq_of_beq i0 i same) in
        still-Settled p (runs p (rw is m))
    | inr other ↦ still-Settled p (v.closed i task (unfold contains in ground arith) e p m)
  ]

  not_settled :
      (i : ℕ)
      → contains later.settled i ≡ false
      → (contains h.settled i ≡ false) × ((i0 == i) ≡ false)
  not_settled i s = unfold contains in ground arith

  Waits-else : (i t : ℕ) → contains later.settled i ≡ false → Waits h.tasks i t → (t == i0) ≡ false
  Waits-else i t s w = elim (Bool-cases (t == i0)) [
    | inr n ↦ n
    | inl e ↦
        let at : Settled later t =
          (unfold contains in ground (arith, eq_of_beq t i0 e, beq_refl i0)) in
        absurd (ground (arith, Closed-Settled later later-Closed i t w at))
  ]

  unlocked-barrier :
      (locks : Locks) (key : Str) (t : ℕ)
      → t0.exclusive ≡ true
      → JsMap.get locks.keys key ≡ some t
      → JsMap.get (unlocked locks t0 i0).keys key ≡ some t
  unfolding unlocked
  unlocked-barrier locks key t x e = rw (unlocked, x) e

  unlocked-keys :
      (locks : Locks) (key : Str) (t : ℕ)
      → t0.exclusive ≡ false
      → (t == i0) ≡ false
      → JsMap.get locks.keys key ≡ some t
      → JsMap.get (unlocked locks t0 i0).keys key ≡ some t
  unfolding unlocked
  unlocked-keys locks key t x n e =
      rw (unlocked, x) (drop_tails-get locks.keys t0.held key i0 t n e)

  unlocked-still :
      (locks : Locks) (b : ℕ)
      → (b == i0) ≡ false
      → locks.barrier ≡ some b
      → (unlocked locks t0 i0).barrier ≡ some b
  unfolding unlocked
  unlocked-still locks b n e = elim (Bool-cases t0.exclusive) [
    | inl x ↦ rw (unlocked, x, e, n) refl
    | inr x ↦ rw (unlocked, x) e
  ]

  unlocked-ref : (locks : Locks) → (unlocked locks t0 i0).ref ≡ locks.ref
  unfolding unlocked
  unlocked-ref locks = elim (Bool-cases t0.exclusive) [
    | inl x ↦ rw (unlocked, x) refl
    | inr x ↦ rw (unlocked, x) refl
  ]

  unlocked-Covers :
      (locks : Locks) (key : Str) (i : ℕ)
      → contains later.settled i ≡ false
      → Covers h.tasks locks key i
      → Covers h.tasks (unlocked locks t0 i0) key i
  unlocked-Covers locks key i s (inl (t, e, w)) = elim (Bool-cases t0.exclusive) [
    | inl x ↦ inl (t, unlocked-barrier locks key t x e, w)
    | inr x ↦ inl (t, unlocked-keys locks key t x (Waits-else i t s w) e, w)
  ]
  unlocked-Covers locks key i s (inr (b, e, w)) =
      inr (b, unlocked-still locks b (Waits-else i b s w) e, w)

  Covers-locks :
      (locks : Locks) (key : Str) (i : ℕ)
      → Covers h.tasks locks key i
      → no_locks locks.keys locks.barrier ≡ false
  Covers-locks locks key i (inl (t, e, w)) = some_key locks.keys locks.barrier e
    where
      some_key :
          (keys : JsMap Str ℕ) (barrier : Option ℕ)
          → JsMap.get keys key ≡ some t
          → no_locks keys barrier ≡ false
      some_key [] barrier e = absurd (unfold JsMap.get in ground arith)
      some_key (k ∷ ks) barrier e = refl
  Covers-locks locks key i (inr (b, e, w)) = rw e (some_barrier locks.keys)
    where
      some_barrier : (keys : JsMap Str ℕ) → no_locks keys (some b) ≡ false
      some_barrier [] = refl
      some_barrier (k ∷ ks) = refl

  release-other :
      (other : Str)
      → (t0.name == other) ≡ false
      → JsMap.get later.queue.places other ≡ JsMap.get h.queue.places other
  unfolding release
  release-other other n = elim (Option-cases (JsMap.get h.queue.places t0.name)) [
    | inl e ↦ rw (release, e) refl
    | inr (locks, e) ↦
        rw (release, e)
          (ground (
            arith,
            get-delete h.queue.places t0.name other,
            get-set h.queue.places t0.name other (unlocked locks t0 i0),
          ))
  ]

  release_self :
      (locks : Locks)
      → JsMap.get h.queue.places t0.name ≡ some locks
      → no_locks (unlocked locks t0 i0).keys (unlocked locks t0 i0).barrier ≡ false
      → JsMap.get later.queue.places t0.name
        ≡ some (if locks.ref == t0.ref then unlocked locks t0 i0 else locks)
  unfolding release
  release_self locks e n =
      rw (release, e)
        (ground
          (arith, get-set h.queue.places t0.name t0.name (unlocked locks t0 i0), beq_refl t0.name))

  abbrev Kept : ℕ → Task → Str → Type 0
  Kept i task key =
      (locks : Locks) × (JsMap.get later.queue.places task.name ≡ some locks)
      × (locks.ref ≡ task.ref)
      × Covers h.tasks locks key i

  kept :
      (i : ℕ) (task : Task) (key : Str) (locks : Locks)
      → contains later.settled i ≡ false
      → JsMap.get h.queue.places task.name ≡ some locks
      → locks.ref ≡ task.ref
      → Covers h.tasks locks key i
      → Kept i task key
  kept i task key locks s g r c = elim (Bool-cases (t0.name == task.name)) [
    | inr other ↦ (locks, release-other task.name other ∙ g, r, c)
    | inl same ↦
        let eq : t0.name ≡ task.name = eq_of_beq t0.name task.name same in
        let c' = unlocked-Covers locks key i s c in
        let at = release_self locks (rw eq g) (Covers-locks (unlocked locks t0 i0) key i c') in
        elim (Bool-cases (locks.ref == t0.ref)) [
          | inl mine ↦
              (unlocked locks t0 i0, rw (← eq) (at ∙ rw mine refl), unlocked-ref locks ∙ r, c')
          | inr theirs ↦ (locks, rw (← eq) (at ∙ rw theirs refl), r, c)
        ]
  ]

  settled-Inv : Inv later
  settled-Inv = record {
    fresh = v.fresh;
    known = λ i s. elim (Bool-cases (i0 == i)) [
      | inl same ↦ subst (λ j. j < h.next) (eq_of_beq i0 i same) (v.fresh i0 t0 here)
      | inr other ↦ v.known i (unfold contains in ground arith)
    ];
    closed = later-Closed;
    covered = λ i task key e s holds.
        let (unsettled, _) = not_settled i s in
        let (locks, g, r, c) = v.covered i task key e unsettled holds in
        kept i task key locks s g r c;
    ordered = λ i j first second key e g less c. elim (v.ordered i j first second key e g less c) [
      | inl s ↦ inl (still-Settled i s)
      | inr w ↦ inr w
    ];
  }

start-Inv :
    Inv
      (record { queue = record { places = []; next_ref = 0 }; tasks = []; settled = []; next = 0 })
unfolding JsMap.get contains
start-Inv = record {
  fresh = λ i task e. absurd (ground arith);
  known = λ i s. absurd (ground arith);
  closed = λ i task s e. absurd (ground arith);
  covered = λ i task key e s holds. absurd (ground arith);
  ordered = λ i j first second key e g less c. absurd (ground arith);
}

pub Reachable-Inv : (h : History) → Reachable h → Inv h
Reachable-Inv _ start = start-Inv
Reachable-Inv _ (step {g = g} before (requests name keys)) =
    requested-Inv g name keys (Reachable-Inv g before)
Reachable-Inv _ (step {g = g} before (settles i task e runs)) =
    settled-Inv g i task (Reachable-Inv g before) e runs

Waits-Settled :
    (h : History) (i j : ℕ) (second : Task)
    → Inv h
    → Waits h.tasks i j
    → JsMap.get h.tasks j ≡ some second
    → i < j
    → Runs h second
    → Settled h i
Waits-Settled h i _ second v itself g less runs = absurd (omega (arith, less))
Waits-Settled h i j second v (through task p k c w) g less runs =
    let is : second ≡ task = ground (arith, g, k) in
    Closed-Settled h v.closed i p w (runs p (rw is c))

-- In every history of requests and settled tasks of the mutation queue, whatever their order: of
-- two tasks of one place that share a key, or of which one or both hold the place barrier, the
-- later one runs only after the earlier one has settled.
pub Runs-Settled :
    (h : History) (i j : ℕ) (first second : Task) (key : Str)
    → Reachable h
    → JsMap.get h.tasks i ≡ some first
    → JsMap.get h.tasks j ≡ some second
    → i < j
    → first.name ≡ second.name
    → Holds first key
    → Holds second key
    → Runs h second
    → Settled h i
Runs-Settled h i j first second key r e g less same a b runs =
    let v = Reachable-Inv h r in
    elim (v.ordered i j first second key e g less (same, a, b)) [
      | inl s ↦ s
      | inr w ↦ Waits-Settled h i j second v w g less runs
    ]
