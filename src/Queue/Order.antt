-- ===== src/Queue/Order.antt =====
-- lib/mutation-queue.js: mutations that share a lock run in the order of their requests.
use shared_memory_fs.Prelude.{
  ℕ, suc, ◌<◌, ◌≡◌, false, true, List, [], ◌∷◌, Option, none, some, ◌==◌, nat_eq, if◌then◌else◌,
  arith, refl, inl, inr, ◌⊎◌, Bool-cases, Option-cases, eq_of_beq, beq_refl,
}
use shared_memory_fs.Prelude.JsMap
use shared_memory_fs.Prelude.JsMap.{JsMap, get-set, get-delete}
use shared_memory_fs.Prelude.JsSet.{contains, contains-append}
use shared_memory_fs.Prelude.Text.{Str, str_eq}
use shared_memory_fs.Queue.{
  Locks, MutationQueue, Task, locks_of, lock, values, tails, set_tails, drop_tails, of_barrier, run,
  release, sorted_set,
}

-- The queue with the tasks that it was given, by number, and those that have settled.
pub record History : Type 0 where
  pub queue : MutationQueue
  pub tasks : JsMap ℕ Task
  pub settled : List ℕ
  pub next : ℕ

abbrev pub Settled : History → ℕ → Type 0
Settled h i = contains h.settled i ≡ true

-- Everything that a task waits for has settled, so that it runs.
abbrev pub Runs : History → Task → Type 0
Runs h task = (p : ℕ) → contains task.prior p ≡ true → Settled h p

-- A task is requested; or one that runs settles, and releases its locks.
pub data Step (h : History) : History → Type 0 where
  requests :
      (name : Str) (keys : Option (List Str))
      → Step h (record {
        queue = (run h.queue name keys h.next).0;
        tasks = JsMap.set h.tasks h.next (run h.queue name keys h.next).1;
        settled = h.settled;
        next = suc h.next;
      })
  settles :
      (i : ℕ) (task : Task)
      → JsMap.get h.tasks i ≡ some task
      → Runs h task
      → Step h (record h { queue = release h.queue task i; settled = i ∷ h.settled })

pub data Reachable : History → Type 0 where
  start :
      Reachable (record {
        queue = record { places = []; next_ref = 0 };
        tasks = [];
        settled = [];
        next = 0;
      })
  step : {g h : History} → Reachable g → Step g h → Reachable h

-- The barrier holds every key.
abbrev pub Holds : Task → Str → Type 0
Holds task key = (task.exclusive ≡ true) ⊎ (contains task.held key ≡ true)

-- A task waits, through others or not, for a task.
pub data Waits (tasks : JsMap ℕ Task) (i : ℕ) : ℕ → Type 0 where
  itself : Waits tasks i i
  through :
      {t : ℕ} (task : Task) (p : ℕ)
      → JsMap.get tasks t ≡ some task
      → contains task.prior p ≡ true
      → Waits tasks i p
      → Waits tasks i t

abbrev pub Covers : JsMap ℕ Task → Locks → Str → ℕ → Type 0
Covers tasks locks key i =
    ((t : ℕ) × (JsMap.get locks.keys key ≡ some t) × Waits tasks i t)
    ⊎ ((b : ℕ) × (locks.barrier ≡ some b) × Waits tasks i b)

-- What has settled waits for nothing that has not.
abbrev pub Closed : History → Type 0
Closed h = (i : ℕ) (task : Task) → Settled h i → JsMap.get h.tasks i ≡ some task → Runs h task

pub Closed-Settled :
    (h : History) → Closed h → (i t : ℕ) → Waits h.tasks i t → Settled h t → Settled h i
Closed-Settled h v i _ itself s = s
Closed-Settled h v i t (through task p e c w) s = Closed-Settled h v i p w (v t task s e p c)

tails-contains :
    (keys : JsMap Str ℕ) (held : List Str) (key : Str) (t : ℕ)
    → contains held key ≡ true
    → JsMap.get keys key ≡ some t
    → contains (tails keys held) t ≡ true
unfolding contains tails
tails-contains keys [] key t h e = absurd (ground arith)
tails-contains keys (k ∷ held) key t h e = elim (Option-cases (JsMap.get keys k)) [
  | inl g ↦ rw (tails, g) (ground (arith, tails-contains keys held key t, eq_of_beq k key))
  | inr (w, g) ↦
      rw (tails, g) (ground (arith, tails-contains keys held key t, eq_of_beq k key, beq_refl t))
]

values-contains :
    (keys : JsMap Str ℕ) (key : Str) (t : ℕ)
    → JsMap.get keys key ≡ some t
    → contains (values keys) t ≡ true
unfolding contains values JsMap.get
values-contains [] key t e = absurd (ground arith)
values-contains ((k, u) ∷ keys) key t e = ground (arith, values-contains keys key t, beq_refl u)

set_tails-get :
    (keys : JsMap Str ℕ) (held : List Str) (key : Str) (t : ℕ)
    → JsMap.get (set_tails keys held t) key
      ≡ (if contains held key then some t else JsMap.get keys key)
unfolding contains set_tails
set_tails-get keys [] key t = refl
set_tails-get keys (k ∷ held) key t =
    ground (arith, set_tails-get (JsMap.set keys k t) held key t, get-set keys k key t)

pub drop_tails-get :
    (keys : JsMap Str ℕ) (held : List Str) (key : Str) (t u : ℕ)
    → (u == t) ≡ false
    → JsMap.get keys key ≡ some u
    → JsMap.get (drop_tails keys held t) key ≡ some u
unfolding drop_tails
drop_tails-get keys [] key t u n e = e
drop_tails-get keys (k ∷ held) key t u n e = elim (Option-cases (JsMap.get keys k)) [
  | inl g ↦ rw (drop_tails, g) (drop_tails-get keys held key t u n e)
  | inr (w, g) ↦ elim (Bool-cases (w == t)) [
    | inl same ↦
        rw (drop_tails, g, same)
          (drop_tails-get (JsMap.delete keys k) held key t u n
            (ground (arith, get-delete keys k key, eq_of_beq k key)))
    | inr other ↦ rw (drop_tails, g, other) (drop_tails-get keys held key t u n e)
  ]
]

pub Waits-set :
    (tasks : JsMap ℕ Task) (n : ℕ) (new : Task) (i t : ℕ)
    → ((j : ℕ) (task : Task) → JsMap.get tasks j ≡ some task → j < n)
    → Waits tasks i t
    → Waits (JsMap.set tasks n new) i t
Waits-set tasks n new i _ fresh itself = itself
Waits-set tasks n new i t fresh (through task p e c w) =
    let old : t < n = fresh t task e in
    through task p (ground (arith, get-set tasks n t new, eq_of_beq n t)) c
      (Waits-set tasks n new i p fresh w)

contains_one : (b : ℕ) → contains (b ∷ []) b ≡ true
contains_one b = unfold contains in ground (arith, beq_refl b)

-- A task that is covered is waited for by what takes its key next.
pub lock-prior :
    (locks : Locks) (name : Str) (keys : Option (List Str)) (id : ℕ) (tasks : JsMap ℕ Task)
    (key : Str) (i : ℕ)
    → Covers tasks locks key i
    → Holds (lock locks name keys id).1 key
    → (p : ℕ) × (contains (lock locks name keys id).1.prior p ≡ true) × Waits tasks i p
unfolding lock
lock-prior locks name none id tasks key i (inl (t, g, w)) h = (
  t,
  ground (
    arith,
    contains-append (of_barrier locks.barrier) (values locks.keys) t,
    values-contains locks.keys key t g,
  ),
  w,
)
lock-prior locks name none id tasks key i (inr (b, g, w)) h = (
  b,
  rw g
      (ground (arith, contains-append (of_barrier (some b)) (values locks.keys) b, contains_one b)),
  w,
)
lock-prior locks name (some keys) id tasks key i (inl (t, g, w)) (inl x) = absurd (ground arith)
lock-prior locks name (some keys) id tasks key i (inl (t, g, w)) (inr x) = (
  t,
  ground (
    arith,
    contains-append (of_barrier locks.barrier) (tails locks.keys (sorted_set keys)) t,
    tails-contains locks.keys (sorted_set keys) key t x g,
  ),
  w,
)
lock-prior locks name (some keys) id tasks key i (inr (b, g, w)) h = (
  b,
  rw g (
      ground (
        arith,
        contains-append (of_barrier (some b)) (tails locks.keys (sorted_set keys)) b,
        contains_one b,
      )),
  w,
)

-- The locks then lead to the new task at its keys, and to what they led to at others.
pub lock-leads :
    (locks : Locks) (name : Str) (keys : Option (List Str)) (id : ℕ) (key : Str)
    → Holds (lock locks name keys id).1 key
    → (JsMap.get (lock locks name keys id).0.keys key ≡ some id)
      ⊎ ((lock locks name keys id).0.barrier ≡ some id)
unfolding lock
lock-leads locks name none id key h = inr refl
lock-leads locks name (some keys) id key (inl x) = absurd (ground arith)
lock-leads locks name (some keys) id key (inr x) =
    inl (rw (set_tails-get locks.keys (sorted_set keys) key id) (rw x refl))

pub lock-other :
    (locks : Locks) (name : Str) (keys : Option (List Str)) (id : ℕ) (tasks : JsMap ℕ Task)
    (key : Str) (i : ℕ)
    → Covers tasks locks key i
    → Holds (lock locks name keys id).1 key ⊎ Covers tasks (lock locks name keys id).0 key i
unfolding lock
lock-other locks name none id tasks key i c = inl (inl refl)
lock-other locks name (some keys) id tasks key i (inr b) = inr (inr b)
lock-other locks name (some keys) id tasks key i (inl (t, g, w)) =
    elim (Bool-cases (contains (sorted_set keys) key)) [
      | inl x ↦ inl (inr x)
      | inr x ↦ inr (inl (t, rw (set_tails-get locks.keys (sorted_set keys) key id) (rw x g), w))
    ]

-- The places after a request.
pub run-get :
    (q : MutationQueue) (name j : Str) (keys : Option (List Str)) (id : ℕ)
    → JsMap.get (run q name keys id).0.places j
      ≡ (if name == j then some (lock (locks_of q name).1 name keys id).0 else JsMap.get q.places j)
unfolding run locks_of
run-get q name j keys id = elim (Option-cases (JsMap.get q.places name)) [
  | inl e ↦
      let new : Locks = record { ref = q.next_ref; keys = []; barrier = none } in
      rw (run, locks_of, e)
        (ground (
          arith,
          get-set (JsMap.set q.places name new) name j (lock new name keys id).0,
          get-set q.places name j new,
        ))
  | inr (locks, e) ↦ rw (run, locks_of, e) (get-set q.places name j (lock locks name keys id).0)
]

pub locks_of-get :
    (q : MutationQueue) (name : Str) (locks : Locks)
    → JsMap.get q.places name ≡ some locks
    → (locks_of q name).1 ≡ locks
unfolding locks_of
locks_of-get q name locks e = rw (locks_of, e) refl

pub lock-shape :
    (locks : Locks) (name : Str) (keys : Option (List Str)) (id : ℕ)
    → ((lock locks name keys id).1.name ≡ name)
      × ((lock locks name keys id).0.ref ≡ (lock locks name keys id).1.ref)
      × ((lock locks name keys id).0.ref ≡ locks.ref)
unfolding lock
lock-shape locks name none id = (refl, refl, refl)
lock-shape locks name (some keys) id = (refl, refl, refl)
