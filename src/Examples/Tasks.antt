-- ===== src/Examples/Tasks.antt =====
-- Two writes of one key, and the first has settled (lib/mutation-queue.js).
use shared_memory_fs.Prelude.{◌<◌, ℕ, false, [], ◌∷◌, none, some, refl, inr, arith, nat_eq}
use shared_memory_fs.Prelude.JsMap
use shared_memory_fs.Prelude.JsSet
use shared_memory_fs.Prelude.JsSet.{contains}
use shared_memory_fs.Prelude.Text.{str, str_beq, str_eq}
use shared_memory_fs.Queue.{
  Task, locks_of, lock, run, sorted_set, insert, tails, set_tails, release, unlocked, drop_tails,
}
use shared_memory_fs.Queue.Order.{History, Settled, Runs, Reachable, requests, settles, start, step}
use shared_memory_fs.Queue.Fifo.{Runs-Settled}
use shared_memory_fs.Queue.Progress.{Running, Reachable-Running}

abbrev first_write : Task
first_write = record {
  name = str "m";
  ref = 0;
  held = str "/a" ∷ [];
  exclusive = false;
  prior = [];
}

abbrev second_write : Task
second_write = record {
  name = str "m";
  ref = 0;
  held = str "/a" ∷ [];
  exclusive = false;
  prior = 0 ∷ [];
}

abbrev both : History
both = record {
  queue = record {
    places = (str "m", record { ref = 0; keys = (str "/a", 1) ∷ []; barrier = none }) ∷ [];
    next_ref = 1;
  };
  tasks = (0, first_write) ∷ (1, second_write) ∷ [];
  settled = 0 ∷ [];
  next = 2;
}

both-Reachable : Reachable both
unfolding run locks_of lock sorted_set insert tails set_tails release unlocked drop_tails JsMap.get
    JsMap.set JsMap.delete JsSet.contains str_beq
both-Reachable =
    step
      (step (step start (requests (str "m") (some (str "/a" ∷ []))))
        (requests (str "m") (some (str "/a" ∷ []))))
      (settles 0 first_write refl (λ p c. absurd (ground arith)))

second-Runs : Runs both second_write
unfolding contains
second-Runs p c = ground arith

Runs-Settled_example : Settled both 0
unfolding JsMap.get contains str_beq
Runs-Settled_example =
    Runs-Settled both 0 1 first_write second_write (str "/a") both-Reachable refl refl (omega arith)
      refl (inr refl) (inr refl) second-Runs

Reachable-Running_example : (j : ℕ) × (j < 2) × Running both j
unfolding JsMap.get contains
Reachable-Running_example = Reachable-Running both 1 second_write both-Reachable refl refl
