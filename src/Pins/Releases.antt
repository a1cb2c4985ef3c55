-- ===== src/Pins/Releases.antt =====
-- A retireId is released once, with the last consumer of its file.
use shared_memory_fs.Prelude.{
  ℕ, suc, ◌≡◌, true, ◌&&◌, List, [], ◌∷◌, some, ◌==◌, nat_eq, if◌then◌else◌, arith, refl,
  Bool-cases, Option-cases, inl, inr, eq_of_beq, beq_refl,
}
use shared_memory_fs.Prelude.JsMap
use shared_memory_fs.Prelude.JsSet
use shared_memory_fs.Prelude.JsMap.{has-eq-get, is_some}
use shared_memory_fs.Pins.{
  Pins, no_pins, Consumer, Thread, Call, acquires, finishes, retires, done, finish_at, step, run,
}
use shared_memory_fs.Pins.Counts.{
  active, Counted, bound_ids, Drops, drop-Drops, finish_at-active, acquire-Counted, retain-Counted,
}

done-Drops :
    (p : Pins) (c : Consumer) (n : ℕ)
    → c.held ≡ true
    → JsMap.get p.counts c.file ≡ some (suc n)
    → Drops p (done p c).0 c.file n (done p c).1
unfolding done
done-Drops p c n h e = elim (Option-cases c.on_close) [
  | inl o ↦ rw (h, o) (drop-Drops p c.file n e)
  | inr (x, o) ↦
      let q : Pins = record p { closers = JsSet.remove p.closers x } in
      let d = drop-Drops q c.file n e in
      rw (h, o) (record { counts = d.counts; retired = d.retired; released = d.released })
]

module _ (t : Thread) (k : Counted t) (i : ℕ) (c : Consumer) (cs : List Consumer)
    (e : finish_at i t.consumers ≡ some (c, cs)) where
  last : c.held ≡ true → JsMap.get t.pins.counts c.file ≡ some (suc (active cs c.file))
  last h =
      ground (arith, k.counts c.file, finish_at-active i t.consumers cs c e c.file, beq_refl c.file)

  finished-Counted : Counted (record { pins = (done t.pins c).0; consumers = cs })
  finished-Counted = elim (Bool-cases c.held) [
    | inl h ↦
        let d = done-Drops t.pins c (active cs c.file) h (last h) in
        record {
          counts = λ f. ground (
            arith,
            d.counts f,
            k.counts f,
            finish_at-active i t.consumers cs c e f,
            eq_of_beq c.file f,
          );
          bound = λ f b. ground (
            arith,
            d.counts f,
            d.retired f b,
            k.bound f,
            has-eq-get t.pins.counts f,
            has-eq-get (done t.pins c).0.counts f,
            eq_of_beq c.file f,
          );
        }
    | inr h ↦
        unfold done in
        record {
          counts = λ f. ground (arith, k.counts f, finish_at-active i t.consumers cs c e f);
          bound = λ f b. ground (arith, k.bound f);
        }
  ]

finish-Counted : (t : Thread) (i : ℕ) → Counted t → Counted (step t (finishes i)).0
unfolding step
finish-Counted t i k = elim (Option-cases (finish_at i t.consumers)) [
  | inl e ↦ rw (e, step) k
  | inr ((c, cs), e) ↦ rw (e, step) (finished-Counted t k i c cs e)
]

step-Counted : (t : Thread) (call : Call) → Counted t → Counted (step t call).0
step-Counted t (acquires f c) k = acquire-Counted t f c k
step-Counted t (finishes i) k = finish-Counted t i k
step-Counted t (retires f id) k = retain-Counted t f id k

-- After any sequence of acquisitions, releases (repeated ones included) and retirements, from a
-- thread with the invariant: the count of each file is the number of its consumers that are not
-- done, with no entry for none, and only a file with consumers is bound to a retireId.
pub run-Counted : (t : Thread) (calls : List Call) → Counted t → Counted (run t calls).0
unfolding run
run-Counted t [] k = k
run-Counted t (call ∷ calls) k = run-Counted (step t call).0 calls (step-Counted t call k)

-- Where the pins count the consumers of each file, finishing a consumer releases the retireId that
-- its file is bound to, if any, where it was held and is the last one of the file, and nothing
-- otherwise.
pub finish-releases :
    (t : Thread) (i : ℕ) (c : Consumer) (cs : List Consumer)
    → Counted t
    → finish_at i t.consumers ≡ some (c, cs)
    → (step t (finishes i)).1
      ≡ (if c.held && active cs c.file == 0 then bound_ids t.pins c.file else [])
unfolding step
finish-releases t i c cs k e = elim (Bool-cases c.held) [
  | inl h ↦
      let d = done-Drops t.pins c (active cs c.file) h (last t k i c cs e h) in
      rw (e, step, h) (ground (arith, d.released))
  | inr h ↦ unfold done in rw (e, step, h) refl
]

abbrev pub new_thread : Thread
new_thread = record { pins = no_pins; consumers = [] }

pub new_thread-Counted : Counted new_thread
unfolding active JsMap.get JsMap.has
new_thread-Counted = record { counts = λ f. refl; bound = λ f h. h }
