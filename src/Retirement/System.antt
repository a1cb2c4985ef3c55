-- ===== src/Retirement/System.antt =====
-- The kernel with its linked workers, the ports between them as queues of messages in both
-- directions. A worker applies the updates in order, ACKs each with the retired versions that it
-- still reads, and sends one release when it is done with one (lib/kernel.js #connect, lib/pins.js).
use shared_memory_fs.Prelude.{
  ℕ, ◌<◌, ◌≡◌, Bool, false, true, List, [], ◌∷◌, ◌++◌, All, ◌==◌, nat_eq, if◌then◌else◌,
}
use shared_memory_fs.Prelude.JsSet
use shared_memory_fs.Prelude.JsSet.{contains}
use shared_memory_fs.Retirement.{
  Kernel, main, handle_ack, handle_release, handle_worker_exit, flush,
}

-- `vfs-update`, with the retireIds of the versions that it replaces or removes.
pub record Update : Type 0 where
  pub id : ℕ
  pub retired : List ℕ

-- `vfs-ack` with its `retained`, and `vfs-release`.
pub data Report : Type 0 where
  ack : ℕ → List ℕ → Report
  released : List ℕ → Report

pub record Worker : Type 0 where
  pub inbox : List Update
  pub outbox : List Report
  pub reading : List ℕ

pub record System : Type 0 where
  pub kernel : Kernel
  pub worker : ℕ → Worker

abbrev pub idle : Worker
idle = record { inbox = []; outbox = []; reading = [] }

abbrev pub with_worker : System → ℕ → Worker → ℕ → Worker
with_worker s l w j = if l == j then w else s.worker j

-- `#apply` and the ACK of a worker: it keeps reading the versions `retained`, of those retired.
unfoldable pub apply_update : Worker → Update → List Update → List ℕ → Worker
apply_update w u rest retained = record {
  inbox = rest;
  outbox = w.outbox ++ (ack u.id retained ∷ []);
  reading = retained ++ w.reading;
}

-- The last consumer of a version is done.
unfoldable pub finish_reading : Worker → ℕ → Worker
finish_reading w id = record w {
  outbox = w.outbox ++ (released (id ∷ []) ∷ []);
  reading = JsSet.remove w.reading id;
}

-- `port.postMessage(msg)` to every link.
abbrev pub post : System → Kernel → Update → ℕ → Worker
post s k u j =
    let w = s.worker j in if contains k.links j then record w { inbox = w.inbox ++ (u ∷ []) } else w

abbrev pub Live : System → ℕ → Type 0
Live s l = contains s.kernel.links l ≡ true

-- `#flush` on the main thread, and the state it publishes.
unfoldable pub flushed : System → List ℕ → (ℕ → Bool) → System
flushed s entries main_reads =
    let (k, u, ids) = flush s.kernel entries main_reads in
    record { kernel = k; worker = post s k (record { id = u; retired = ids }) }

pub data Step (s : System) : System → Type 0 where
  flushes : (entries : List ℕ) (main_reads : ℕ → Bool) → Step s (flushed s entries main_reads)
  -- `link()`: the snapshot of the new worker holds published versions only
  links_up :
      (l : ℕ)
      → main < l
      → contains s.kernel.links l ≡ false
      → Step s (record {
        kernel = record (s.kernel) { links = s.kernel.links ++ (l ∷ []) };
        worker = with_worker s l idle;
      })
  applies :
      (l : ℕ) (u : Update) (rest : List Update) (retained : List ℕ)
      → Live s l
      → (s.worker l).inbox ≡ u ∷ rest
      → All (λ id. contains u.retired id ≡ true) retained
      → Step s (record s { worker = with_worker s l (apply_update (s.worker l) u rest retained) })
  finishes :
      (l id : ℕ)
      → Live s l
      → contains (s.worker l).reading id ≡ true
      → Step s (record s { worker = with_worker s l (finish_reading (s.worker l) id) })
  acks :
      (l u : ℕ) (retained : List ℕ) (rest : List Report)
      → Live s l
      → (s.worker l).outbox ≡ ack u retained ∷ rest
      → Step s (record {
        kernel = handle_ack s.kernel u l retained;
        worker = with_worker s l (record (s.worker l) { outbox = rest });
      })
  releases :
      (l : ℕ) (ids : List ℕ) (rest : List Report)
      → Live s l
      → (s.worker l).outbox ≡ released ids ∷ rest
      → Step s (record {
        kernel = handle_release s.kernel l ids;
        worker = with_worker s l (record (s.worker l) { outbox = rest });
      })
  -- a consumer of the main thread is done
  main_releases : (ids : List ℕ) → Step s (record s { kernel = handle_release s.kernel main ids })
  exits :
      (l : ℕ) → main < l → Live s l → Step s (record s { kernel = handle_worker_exit s.kernel l })

pub data Reach (s : System) : System → Type 0 where
  here : Reach s s
  next : {t u : System} → Reach s t → Step t u → Reach s u
