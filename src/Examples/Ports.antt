-- ===== src/Examples/Ports.antt =====
-- One worker is linked, an update replaces entry 30, and the worker keeps reading the old version
-- after its ACK has arrived (lib/kernel.js).
use shared_memory_fs.Prelude.{◌≡◌, true, [], ◌∷◌, refl, arith, nat_eq, false}
use shared_memory_fs.Prelude.JsMap
use shared_memory_fs.Prelude.JsSet
use shared_memory_fs.Prelude.JsSet.{contains}
use shared_memory_fs.Retirement.{flush, handle_ack, hold, settle, settle_one}
use shared_memory_fs.Retirement.Settle.{was_freed}
use shared_memory_fs.Retirement.System.{
  Update, System, idle, with_worker, flushed, apply_update, links_up, flushes, applies, acks, Reach,
  here, next,
}
use shared_memory_fs.Retirement.Safety.{new_system, new_system-Safe, reads, Reach-recorded}

abbrev with_link : System
with_link = record {
  kernel = record (new_system.kernel) { links = 1 ∷ [] };
  worker = with_worker new_system 1 idle;
}

abbrev replaced : System
replaced = flushed with_link (30 ∷ []) (λ _. false)

abbrev update_1 : Update
update_1 = record { id = 1; retired = 1 ∷ [] }

abbrev applied : System
applied = record replaced {
  worker = with_worker replaced 1 (apply_update (replaced.worker 1) update_1 [] (1 ∷ []));
}

abbrev acknowledged : System
acknowledged = record {
  kernel = handle_ack applied.kernel 1 1 (1 ∷ []);
  worker = with_worker applied 1 (record (applied.worker 1) { outbox = [] });
}

steps : Reach new_system acknowledged
unfolding flushed flush apply_update contains hold
steps =
    next
      (next (next (next here (links_up 1 (omega arith) refl)) (flushes (30 ∷ []) (λ _. false)))
        (applies 1 update_1 [] (1 ∷ []) refl refl (refl, tt)))
      (acks 1 1 (1 ∷ []) [] refl refl)

Reach-recorded_example :
    (JsMap.has acknowledged.kernel.retired 1 ≡ true) × (was_freed acknowledged.kernel 1 ≡ false)
unfolding flushed flush apply_update contains hold handle_ack JsMap.get JsMap.set JsMap.delete
    JsMap.has JsSet.remove JsSet.add settle settle_one
Reach-recorded_example =
    Reach-recorded new_system acknowledged 1 1 new_system-Safe steps refl (reads refl)
