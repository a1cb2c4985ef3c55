-- ===== src/Retirement/Workers.antt =====
-- What one worker may still read, and the ACKs and holds that guard it.
use shared_memory_fs.Prelude.{
  ℕ, ◌≤◌, ◌≡◌, Bool, false, true, List, [], ◌∷◌, some, ◌==◌, nat_eq, arith, refl, inl, inr,
  Bool-cases, Option-cases, eq_of_beq,
}
use shared_memory_fs.Prelude.JsMap
use shared_memory_fs.Prelude.JsMap.{get-set}
use shared_memory_fs.Prelude.JsSet
use shared_memory_fs.Prelude.JsSet.{
  contains, contains-append, contains-add, contains-remove, Distinct, Distinct-append,
}
use shared_memory_fs.Retirement.{Kernel, hold, hold_one}
use shared_memory_fs.Retirement.Settle.{update_of, holds, pends, Keeps, hold-Keeps}
use shared_memory_fs.Retirement.System.{Report, Worker}
use shared_memory_fs.Retirement.Ports.{waiting, acked_in, told, tags}

-- A version that a worker reads is held for it, or its update waits for the ACK that retains it.
pub data Reads (k : Kernel) (l : ℕ) (outbox : List Report) (v : ℕ) : Type 0 where
  held : holds k v l ≡ true → Reads k l outbox v
  acking :
      (u : ℕ)
      → update_of k v ≡ some u
      → pends k u l ≡ true
      → acked_in outbox u v ≡ true
      → Reads k l outbox v

pub record WorkerOk (k : Kernel) (l : ℕ) (w : Worker) : Type 0 where
  pub inbox :
      (u v : ℕ) → waiting w.inbox u v ≡ true → (update_of k v ≡ some u) × (pends k u l ≡ true)
  pub reading : (v : ℕ) → contains w.reading v ≡ true → Reads k l w.outbox v
  pub once : Distinct (tags w.outbox w.inbox)
  pub done : (v : ℕ) → told w.outbox v ≡ true → contains w.reading v ≡ false
  pub ahead :
      (u v : ℕ)
      → waiting w.inbox u v ≡ true
      → (contains w.reading v ≡ false) × (told w.outbox v ≡ false)
  pub tag_ids : (u : ℕ) → contains (tags w.outbox w.inbox) u ≡ true → u ≤ k.next_update_id
  pub told_ids : (v : ℕ) → told w.outbox v ≡ true → v ≤ k.next_retire_id

-- The record of a version that a worker holds.
pub holds-update : (k : Kernel) (v l : ℕ) → holds k v l ≡ true → (u : ℕ) × (update_of k v ≡ some u)
unfolding holds update_of
holds-update k v l h = elim (Option-cases (JsMap.get k.retired v)) [
  | inl e ↦ absurd (ground arith)
  | inr (r, e) ↦ (r.update_id, ground arith)
]

pub Reads-update :
    (k : Kernel) (l : ℕ) (o : List Report) (v : ℕ)
    → Reads k l o v
    → (u : ℕ) × (update_of k v ≡ some u)
Reads-update k l o v (held h) = holds-update k v l h
Reads-update k l o v (acking u e p a) = (u, e)

abbrev never : ℕ → Bool
never = λ _. false

-- An event that is not about this worker.
module _ (k j : Kernel) (l : ℕ) (keep' : Keeps (λ _. false) (λ _. false) k j l) where
  Reads-kept : (o : List Report) (v : ℕ) → Reads k l o v → Reads j l o v
  Reads-kept o v (held h) = held (keep'.held v refl h)
  Reads-kept o v (acking u e p a) =
      acking u (keep'.update v u e (inr (refl, p))) (keep'.pending u refl p) a

  pub WorkerOk-kept :
      (w : Worker)
      → k.next_update_id ≤ j.next_update_id
      → k.next_retire_id ≤ j.next_retire_id
      → WorkerOk k l w
      → WorkerOk j l w
  WorkerOk-kept w nu nr ok = record {
    inbox = λ u v h.
        let p = ok.inbox u v h in
        (keep'.update v u p.0 (inr (refl, p.1)), keep'.pending u refl p.1);
    reading = λ v h. Reads-kept w.outbox v (ok.reading v h);
    once = ok.once;
    done = ok.done;
    ahead = ok.ahead;
    tag_ids = λ u h. omega (arith, ok.tag_ids u h);
    told_ids = λ v h. omega (arith, ok.told_ids v h);
  }

-- Its own ACK arrives.
pub hold-holds :
    (k : Kernel) (l v : ℕ) (vs : List ℕ) (u : ℕ)
    → update_of k v ≡ some u
    → contains vs v ≡ true
    → holds (hold k l vs) v l ≡ true
unfolding hold contains
hold-holds k l v [] u e h = absurd (ground arith)
hold-holds k l v (x ∷ vs) u e h = elim (Bool-cases (x == v)) [
  | inl same ↦
      (hold-Keeps never never (hold_one k l x) l vs l).held v refl (one (eq_of_beq x v same))
  | inr other ↦ hold-holds (hold_one k l x) l v vs u (rw (hold_one-update x) e) (ground arith)
]
  where
    one : x ≡ v → holds (hold_one k l x) v l ≡ true
    one eq =
        unfold holds update_of hold_one in
        elim (Option-cases (JsMap.get k.retired v)) [
          | inl none_there ↦ absurd (ground arith)
          | inr (r, f) ↦ rw eq (
              ground (
                arith,
                get-set k.retired v v (record r { holders = JsSet.add r.holders l }),
                contains-add r.holders l l,
              ))
        ]

    hold_one-update : (x : ℕ) → update_of (hold_one k l x) v ≡ update_of k v
    hold_one-update x =
        unfold update_of hold_one in
        elim (Option-cases (JsMap.get k.retired x)) [
          | inl e' ↦ ground arith
          | inr (r, f) ↦ ground (
            arith,
            get-set k.retired x v (record r { holders = JsSet.add r.holders l }),
            eq_of_beq x v,
          )
        ]
