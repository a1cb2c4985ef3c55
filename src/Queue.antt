-- ===== src/Queue.antt =====
-- lib/mutation-queue.js, class MutationQueue: the order of the mutations of virtual places. A promise is the
-- number of the task that it stands for; FREE, which is settled, is none.
pub mod Order
pub mod Fifo
pub mod Progress
use shared_memory_fs.Prelude.{
  ℕ, suc, ◌+◌, Bool, false, true, ◌&&◌, ◌||◌, not, List, [], ◌∷◌, ◌++◌, Option, none, some, ◌==◌,
  nat_eq, ltb, if◌then◌else◌, length,
}
use shared_memory_fs.Prelude.JsMap
use shared_memory_fs.Prelude.JsMap.{JsMap}
use shared_memory_fs.Prelude.JsSet
use shared_memory_fs.Prelude.Text.{Str, str_eq}

-- The locks of a place; `ref` tells one object from another.
pub record Locks : Type 0 where
  pub ref : ℕ
  pub keys : JsMap Str ℕ
  pub barrier : Option ℕ

pub record MutationQueue : Type 0 where
  pub places : JsMap Str Locks
  pub next_ref : ℕ

-- `#locks`
unfoldable pub locks_of : MutationQueue → Str → MutationQueue × Locks
locks_of q name = elim (JsMap.get q.places name) [
  | some locks ↦ (q, locks)
  | none ↦
      let locks : Locks = record { ref = q.next_ref; keys = []; barrier = none } in
      (record { places = JsMap.set q.places name locks; next_ref = q.next_ref + 1 }, locks)
]

-- The order of texts by code units.
unfoldable pub str_ltb : Str → Str → Bool
str_ltb s [] = false
str_ltb [] (d ∷ t) = true
str_ltb (c ∷ s) (d ∷ t) = ltb c d || (c == d && str_ltb s t)

unfoldable pub insert : Str → List Str → List Str
insert key [] = key ∷ []
insert key (k ∷ ks) = let rest = insert key ks in if str_ltb k key then k ∷ rest else key ∷ k ∷ ks

-- `[...new Set(keys)].sort()`
unfoldable pub sorted_set : List Str → List Str
unfolding insert
sorted_set [] = []
sorted_set (key ∷ keys) =
    let rest = sorted_set keys in if JsSet.contains rest key then rest else insert key rest

unfoldable pub values : JsMap Str ℕ → List ℕ
values [] = []
values ((key, tail) ∷ keys) = tail ∷ values keys

unfoldable pub tails : JsMap Str ℕ → List Str → List ℕ
tails keys [] = []
tails keys (key ∷ held) =
    let rest = tails keys held in
    elim (JsMap.get keys key) [ none ↦ rest | some tail ↦ tail ∷ rest ]

unfoldable pub set_tails : JsMap Str ℕ → List Str → ℕ → JsMap Str ℕ
set_tails keys [] tail = keys
set_tails keys (key ∷ held) tail = set_tails (JsMap.set keys key tail) held tail

abbrev pub of_barrier : Option ℕ → List ℕ
of_barrier none = []
of_barrier (some tail) = tail ∷ []

-- A task: the locks that it has taken, and the tasks that it waits for.
pub record Task : Type 0 where
  pub name : Str
  pub ref : ℕ
  pub held : List Str
  pub exclusive : Bool
  pub prior : List ℕ

-- What `run` does to the locks, where the task's promise is `id`; none for `keys` is the barrier.
unfoldable pub lock : Locks → Str → Option (List Str) → ℕ → Locks × Task
unfolding sorted_set tails values set_tails
lock locks name none id = (
  record locks { keys = []; barrier = some id },
  record {
    name = name;
    ref = locks.ref;
    held = [];
    exclusive = true;
    prior = of_barrier locks.barrier ++ values locks.keys;
  },
)
lock locks name (some keys) id = (
  record locks { keys = set_tails locks.keys (sorted_set keys) id },
  record {
    name = name;
    ref = locks.ref;
    held = sorted_set keys;
    exclusive = false;
    prior = of_barrier locks.barrier ++ tails locks.keys (sorted_set keys);
  },
)

unfoldable pub run : MutationQueue → Str → Option (List Str) → ℕ → MutationQueue × Task
unfolding locks_of lock
run q name keys id =
    let (r, found) = locks_of q name in
    let (locks, task) = lock found name keys id in
    (record r { places = JsMap.set r.places name locks }, task)

unfoldable pub drop_tails : JsMap Str ℕ → List Str → ℕ → JsMap Str ℕ
drop_tails keys [] tail = keys
drop_tails keys (key ∷ held) tail =
    drop_tails
      (elim (JsMap.get keys key) [
        | none ↦ keys
        | some t ↦ if t == tail then JsMap.delete keys key else keys
      ])
      held tail

-- The locks without those of a task.
unfoldable pub unlocked : Locks → Task → ℕ → Locks
unfolding drop_tails
unlocked locks task id =
    if task.exclusive
    then record locks {
      barrier = elim locks.barrier [ none ↦ none | some b ↦ if b == id then none else some b ];
    }
    else record locks { keys = drop_tails locks.keys task.held id }

-- No keys, and a free barrier.
abbrev pub no_locks : JsMap Str ℕ → Option ℕ → Bool
no_locks [] none = true
no_locks [] (some b) = false
no_locks (k ∷ ks) barrier = false

-- `#release`: locks that the queue has dropped meanwhile are nobody's.
unfoldable pub release : MutationQueue → Task → ℕ → MutationQueue
unfolding unlocked
release q task id = elim (JsMap.get q.places task.name) [
  | none ↦ q
  | some locks ↦
      if not (locks.ref == task.ref)
      then q
      else if no_locks (unlocked locks task id).keys (unlocked locks task id).barrier
      then record q { places = JsMap.delete q.places task.name }
      else record q { places = JsMap.set q.places task.name (unlocked locks task id) }
]

unfoldable pub clear : MutationQueue → MutationQueue
clear q = record q { places = [] }

unfoldable pub total : JsMap Str Locks → ℕ
total [] = 0
total ((name, locks) ∷ places) = length locks.keys + total places

unfoldable pub size : MutationQueue → ℕ
unfolding total
size q = total q.places
