-- ===== src/Queue/Progress.antt =====
-- lib/mutation-queue.js: no request is stuck, as tasks wait for earlier ones only.
use shared_memory_fs.Prelude.{
  ℕ, zero, suc, ◌<◌, ◌≡◌, false, true, List, [], ◌∷◌, Option, none, some, ◌==◌, nat_eq,
  if◌then◌else◌, arith, refl, inl, inr, ◌⊎◌, Bool-cases, Option-cases, subst, All, eq_of_beq,
  beq_refl,
}
use shared_memory_fs.Prelude.JsMap
use shared_memory_fs.Prelude.JsMap.{JsMap, get-set, get-delete}
use shared_memory_fs.Prelude.JsSet.{contains, contains-append}
use shared_memory_fs.Prelude.Text.{Str, str_eq}
use shared_memory_fs.Queue.{
  Locks, MutationQueue, Task, locks_of, lock, values, tails, set_tails, drop_tails, sorted_set,
  of_barrier, run, unlocked, no_locks, release,
}
use shared_memory_fs.Queue.Order.{
  History, Runs, requests, settles, Reachable, start, step, run-get, locks_of-get,
}
use shared_memory_fs.Queue.Fifo.{Reachable-Inv}

-- Every tail is a task before `n`.
abbrev Low : ℕ → JsMap Str ℕ → Type 0
Low n keys = All (λ e. e.1 < n) keys

abbrev LowLocks : ℕ → Locks → Type 0
LowLocks n locks = Low n locks.keys × ((b : ℕ) → locks.barrier ≡ some b → b < n)

Low-set :
    (n : ℕ) (keys : JsMap Str ℕ) (key : Str) (t : ℕ)
    → t < n
    → Low n keys
    → Low n (JsMap.set keys key t)
unfolding JsMap.set
Low-set n [] key t l a = (l, tt)
Low-set n ((k, u) ∷ keys) key t l a = ground (arith, Low-set n keys key t l a.1)

Low-delete : (n : ℕ) (keys : JsMap Str ℕ) (key : Str) → Low n keys → Low n (JsMap.delete keys key)
unfolding JsMap.delete
Low-delete n [] key a = tt
Low-delete n ((k, u) ∷ keys) key a = ground (arith, Low-delete n keys key a.1)

Low-set_tails :
    (n : ℕ) (keys : JsMap Str ℕ) (held : List Str) (t : ℕ)
    → t < n
    → Low n keys
    → Low n (set_tails keys held t)
unfolding set_tails
Low-set_tails n keys [] t l a = a
Low-set_tails n keys (k ∷ held) t l a =
    Low-set_tails n (JsMap.set keys k t) held t l (Low-set n keys k t l a)

Low-drop_tails :
    (n : ℕ) (keys : JsMap Str ℕ) (held : List Str) (t : ℕ)
    → Low n keys
    → Low n (drop_tails keys held t)
unfolding drop_tails
Low-drop_tails n keys [] t a = a
Low-drop_tails n keys (k ∷ held) t a = elim (Option-cases (JsMap.get keys k)) [
  | inl g ↦ rw (drop_tails, g) (Low-drop_tails n keys held t a)
  | inr (w, g) ↦ elim (Bool-cases (w == t)) [
    | inl same ↦
        rw (drop_tails, g, same)
          (Low-drop_tails n (JsMap.delete keys k) held t (Low-delete n keys k a))
    | inr other ↦ rw (drop_tails, g, other) (Low-drop_tails n keys held t a)
  ]
]

Low-suc : (n : ℕ) (keys : JsMap Str ℕ) → Low n keys → Low (suc n) keys
Low-suc n [] a = tt
Low-suc n ((k, t) ∷ keys) a = (omega (arith, a.0), Low-suc n keys a.1)

Low-get :
    (n : ℕ) (keys : JsMap Str ℕ) (key : Str) (t : ℕ)
    → Low n keys
    → JsMap.get keys key ≡ some t
    → t < n
unfolding JsMap.get
Low-get n [] key t a e = absurd (ground arith)
Low-get n ((k, u) ∷ keys) key t a e = ground (arith, Low-get n keys key t a.1)

Low-values :
    (n : ℕ) (keys : JsMap Str ℕ) (t : ℕ) → Low n keys → contains (values keys) t ≡ true → t < n
unfolding values contains
Low-values n [] t a e = absurd (ground arith)
Low-values n ((k, u) ∷ keys) t a e = ground (arith, Low-values n keys t a.1, eq_of_beq u t)

Low-tails :
    (n : ℕ) (keys : JsMap Str ℕ) (held : List Str) (t : ℕ)
    → Low n keys
    → contains (tails keys held) t ≡ true
    → t < n
unfolding tails contains
Low-tails n keys [] t a e = absurd (ground arith)
Low-tails n keys (k ∷ held) t a e = elim (Option-cases (JsMap.get keys k)) [
  | inl g ↦ Low-tails n keys held t a (ground arith)
  | inr (w, g) ↦ ground (arith, Low-tails n keys held t a, Low-get n keys k w a g, eq_of_beq w t)
]

low_barrier :
    (n : ℕ) (barrier : Option ℕ) (t : ℕ)
    → ((b : ℕ) → barrier ≡ some b → b < n)
    → contains (of_barrier barrier) t ≡ true
    → t < n
unfolding contains
low_barrier n none t a e = absurd (ground arith)
low_barrier n (some b) t a e = ground (arith, a b refl, eq_of_beq b t)

-- What a task waits for was requested before, and the locks stay low.
lock-LowLocks :
    (locks : Locks) (name : Str) (keys : Option (List Str)) (n : ℕ)
    → LowLocks n locks
    → LowLocks (suc n) (lock locks name keys n).0
      × ((p : ℕ) → contains (lock locks name keys n).1.prior p ≡ true → p < n)
unfolding lock
lock-LowLocks locks name none n (a, b) = (
  (tt, λ c e. ground arith),
  λ p m. ground (
    arith,
    contains-append (of_barrier locks.barrier) (values locks.keys) p,
    low_barrier n locks.barrier p b,
    Low-values n locks.keys p a,
  ),
)
lock-LowLocks locks name (some keys) n (a, b) = (
  (
    Low-set_tails (suc n) locks.keys (sorted_set keys) n (omega arith) (Low-suc n locks.keys a),
    λ c e. omega (arith, b c e),
  ),
  λ p m. ground (
    arith,
    contains-append (of_barrier locks.barrier) (tails locks.keys (sorted_set keys)) p,
    low_barrier n locks.barrier p b,
    Low-tails n locks.keys (sorted_set keys) p a,
  ),
)

unlocked-LowLocks :
    (locks : Locks) (task : Task) (i n : ℕ) → LowLocks n locks → LowLocks n (unlocked locks task i)
unfolding unlocked
unlocked-LowLocks locks task i n (a, b) = elim (Bool-cases task.exclusive) [
  | inl x ↦ rw (unlocked, x) (a, λ c e. b c (kept locks.barrier c e))
  | inr x ↦ rw (unlocked, x) (Low-drop_tails n locks.keys task.held i a, b)
]
  where
    kept :
        (barrier : Option ℕ) (c : ℕ)
        → (elim barrier [ none ↦ none | some b ↦ if b == i then none else some b ]) ≡ some c
        → barrier ≡ some c
    kept none c e = absurd (ground arith)
    kept (some d) c e = ground arith

record Early (h : History) : Type 0 where
  low :
      (name : Str) (locks : Locks)
      → JsMap.get h.queue.places name ≡ some locks
      → LowLocks h.next locks
  prior :
      (i p : ℕ) (task : Task)
      → JsMap.get h.tasks i ≡ some task
      → contains task.prior p ≡ true
      → p < i
  whole : (p : ℕ) → p < h.next → (task : Task) × (JsMap.get h.tasks p ≡ some task)

LowLocks-suc : (n : ℕ) (locks : Locks) → LowLocks n locks → LowLocks (suc n) locks
LowLocks-suc n locks (a, b) = (Low-suc n locks.keys a, λ c e. omega (arith, b c e))

locks_of-new :
    (q : MutationQueue) (name : Str)
    → JsMap.get q.places name ≡ none
    → (locks_of q name).1 ≡ record { ref = q.next_ref; keys = []; barrier = none }
unfolding locks_of
locks_of-new q name e = rw (locks_of, e) refl

found-LowLocks : (h : History) (name : Str) → Early h → LowLocks h.next (locks_of h.queue name).1
found-LowLocks h name v = elim (Option-cases (JsMap.get h.queue.places name)) [
  | inl e ↦ rw (locks_of-new h.queue name e) (tt, λ c g. absurd (ground arith))
  | inr (locks, e) ↦ rw (locks_of-get h.queue name locks e) (v.low name locks e)
]

module _ (h : History) (name : Str) (keys : Option (List Str)) (v : Early h) where
  abbrev new : Task
  new = (run h.queue name keys h.next).1

  abbrev after : History
  after = record {
    queue = (run h.queue name keys h.next).0;
    tasks = JsMap.set h.tasks h.next new;
    settled = h.settled;
    next = suc h.next;
  }

  locked :
      LowLocks (suc h.next) (lock (locks_of h.queue name).1 name keys h.next).0
      × ((p : ℕ)
          → contains (lock (locks_of h.queue name).1 name keys h.next).1.prior p ≡ true
          → p < h.next)
  locked = lock-LowLocks (locks_of h.queue name).1 name keys h.next (found-LowLocks h name v)

  new-lock : new ≡ (lock (locks_of h.queue name).1 name keys h.next).1
  new-lock = unfold run in refl

  requested-Early : Early after
  requested-Early = record {
    low = λ other locks e. elim (Bool-cases (name == other)) [
      | inl same ↦
          let is : (lock (locks_of h.queue name).1 name keys h.next).0 ≡ locks =
            ground (arith, run-get h.queue name other keys h.next) in
          subst (λ l. LowLocks (suc h.next) l) is locked.0
      | inr differs ↦
          LowLocks-suc h.next locks
            (v.low other locks (ground (arith, run-get h.queue name other keys h.next)))
    ];
    prior = λ i p task e m. elim (Bool-cases (h.next == i)) [
      | inl same ↦
          let is : new ≡ task = ground (arith, get-set h.tasks h.next i new) in
          let before = locked.1 p (subst (λ t. contains t.prior p ≡ true) new-lock (rw is m)) in
          omega (arith, before, eq_of_beq h.next i same)
      | inr other ↦ v.prior i p task (ground (arith, get-set h.tasks h.next i new)) m
    ];
    whole = λ p l. elim (Bool-cases (h.next == p)) [
      | inl same ↦ (new, ground (arith, get-set h.tasks h.next p new))
      | inr other ↦
          let (task, e) = v.whole p (ground arith) in
          (task, ground (arith, get-set h.tasks h.next p new))
    ];
  }

module _ (q : MutationQueue) (task : Task) (i : ℕ) where
  abbrev rest : Locks → Locks
  rest old = unlocked old task i

  release-none : JsMap.get q.places task.name ≡ none → release q task i ≡ q
  unfolding release
  release-none e = rw (release, e) refl

  release_stale :
      (old : Locks)
      → JsMap.get q.places task.name ≡ some old
      → (old.ref == task.ref) ≡ false
      → release q task i ≡ q
  unfolding release
  release_stale old e n = rw (release, e, n) refl

  release_free :
      (old : Locks)
      → JsMap.get q.places task.name ≡ some old
      → (old.ref == task.ref) ≡ true
      → no_locks (rest old).keys (rest old).barrier ≡ true
      → (release q task i).places ≡ JsMap.delete q.places task.name
  unfolding release
  release_free old e n f = rw (release, e, n, f) refl

  release_busy :
      (old : Locks)
      → JsMap.get q.places task.name ≡ some old
      → (old.ref == task.ref) ≡ true
      → no_locks (rest old).keys (rest old).barrier ≡ false
      → (release q task i).places ≡ JsMap.set q.places task.name (rest old)
  unfolding release
  release_busy old e n f = rw (release, e, n, f) refl

release-low :
    (q : MutationQueue) (task : Task) (i n : ℕ)
    → ((name : Str) (locks : Locks) → JsMap.get q.places name ≡ some locks → LowLocks n locks)
    → (name : Str) (locks : Locks) → JsMap.get (release q task i).places name ≡ some locks
    → LowLocks n locks
release-low q task i n low name locks e = elim (Option-cases (JsMap.get q.places task.name)) [
  | inl none_there ↦ low name locks (ground (arith, release-none q task i none_there))
  | inr (old, there) ↦ elim (Bool-cases (old.ref == task.ref)) [
    | inr other ↦ low name locks (ground (arith, release_stale q task i old there other))
    | inl mine ↦
        elim (Bool-cases (no_locks (unlocked old task i).keys (unlocked old task i).barrier)) [
          | inl free ↦ low name locks (
              ground (
                arith,
                get-delete q.places task.name name,
                release_free q task i old there mine free,
              ))
          | inr busy ↦ elim (Bool-cases (task.name == name)) [
            | inl same ↦
                let is : unlocked old task i ≡ locks = ground (
                  arith,
                  get-set q.places task.name name (unlocked old task i),
                  release_busy q task i old there mine busy,
                ) in
                subst (λ l. LowLocks n l) is
                  (unlocked-LowLocks old task i n (low task.name old there))
            | inr differs ↦ low name locks (
                ground (
                  arith,
                  get-set q.places task.name name (unlocked old task i),
                  release_busy q task i old there mine busy,
                ))
          ]
        ]
  ]
]

settled-Early :
    (h : History) (i : ℕ) (task : Task)
    → Early h
    → Early (record h { queue = release h.queue task i; settled = i ∷ h.settled })
settled-Early h i task v = record {
  low = release-low h.queue task i h.next v.low;
  prior = v.prior;
  whole = v.whole;
}

Reachable-Early : (h : History) → Reachable h → Early h
unfolding JsMap.get
Reachable-Early _ start = record {
  low = λ name locks e. absurd (ground arith);
  prior = λ i p task e m. absurd (ground arith);
  whole = λ p l. absurd (omega (arith, l));
}
Reachable-Early _ (step {g = g} before (requests name keys)) =
    requested-Early g name keys (Reachable-Early g before)
Reachable-Early _ (step {g = g} before (settles i task e runs)) =
    settled-Early g i task (Reachable-Early g before)

prior-cases :
    (settled prior : List ℕ)
    → ((p : ℕ) → contains prior p ≡ true → contains settled p ≡ true)
      ⊎ ((p : ℕ) × (contains prior p ≡ true) × (contains settled p ≡ false))
unfolding contains
prior-cases settled [] = inl (λ p m. absurd (ground arith))
prior-cases settled (x ∷ prior) = elim (Bool-cases (contains settled x)) [
  | inr no_x ↦ inr (x, ground (arith, beq_refl x), no_x)
  | inl yes_x ↦ elim (prior-cases settled prior) [
    | inl all ↦ inl (λ p m. ground (arith, all p, eq_of_beq x p))
    | inr (p, m, s) ↦ inr (p, ground arith, s)
  ]
]

-- A task that runs and has not settled.
abbrev pub Running : History → ℕ → Type 0
Running h j =
    (second : Task) × (JsMap.get h.tasks j ≡ some second)
    × (contains h.settled j ≡ false)
    × Runs h second

search_down :
    (fuel : ℕ) (h : History) (i : ℕ) (task : Task)
    → Early h
    → i < fuel
    → i < h.next
    → JsMap.get h.tasks i ≡ some task
    → contains h.settled i ≡ false
    → (j : ℕ) × (j < suc i) × Running h j
search_down zero h i task v l k e s = absurd (omega (arith, l))
search_down (suc fuel) h i task v l k e s = elim (prior-cases h.settled task.prior) [
  | inl runs ↦ (i, omega arith, (task, e, s, runs))
  | inr (p, m, unsettled) ↦
      let less = v.prior i p task e m in
      let (other, g) = v.whole p (omega (arith, less, k)) in
      let (j, near, running) =
        search_down fuel h p other v (omega (arith, less, l)) (omega (arith, less, k)) g
          unsettled in
      (j, omega (arith, near, less), running)
]

-- In every history of requests and settled tasks of the mutation queue, if some task has not
-- settled, then it, or an earlier one that has not settled either, waits for no task that has not
-- settled, so that it runs.
pub Reachable-Running :
    (h : History) (i : ℕ) (task : Task)
    → Reachable h
    → JsMap.get h.tasks i ≡ some task
    → contains h.settled i ≡ false
    → (j : ℕ) × (j < suc i) × Running h j
Reachable-Running h i task r e s =
    search_down (suc i) h i task (Reachable-Early h r) (omega arith)
      ((Reachable-Inv h r).fresh i task e) e s
