-- ===== src/Retirement.antt =====
-- lib/kernel.js, "Retirement: ACK-before-free": versions that an update replaced or removed wait for
-- the ACK of every live worker and for the last consumer of each thread. A retired record is its
-- retireId in `retired`; `freed` lists the calls of `cache.free` in order, each as the retireId of the
-- record it is made for and the entry it frees.
pub mod Settle
pub mod Exit
pub mod Ids
pub mod Epoch
pub mod System
pub mod Ports
pub mod Workers
pub mod Deliveries
pub mod Events
pub mod Safety
use shared_memory_fs.Prelude.{
  ℕ, zero, suc, ◌+◌, Bool, false, true, ◌&&◌, ◌||◌, not, List, [], ◌∷◌, ◌++◌, Option, none, some,
  ◌==◌, nat_eq, keep, if◌then◌else◌,
}
use shared_memory_fs.Prelude.JsMap
use shared_memory_fs.Prelude.JsMap.{JsMap}
use shared_memory_fs.Prelude.JsSet

-- A holder is a linkId, or `main` for the main thread's own consumers.
abbrev pub main : ℕ
main = 0

pub record Retired : Type 0 where
  pub update_id : ℕ
  pub entry : ℕ
  pub holders : List ℕ

pub record Ack : Type 0 where
  pub pending : List ℕ
  pub retired : List ℕ

pub record Kernel : Type 0 where
  pub links : List ℕ
  pub acks : JsMap ℕ Ack
  pub retired : JsMap ℕ Retired
  pub freed : List (ℕ × ℕ)
  pub next_update_id : ℕ
  pub next_retire_id : ℕ

abbrev pub is_empty {ℓ} : {A : Type ℓ} → List A → Bool
is_empty [] = true
is_empty (x ∷ xs) = false

-- One round of the loop of `#settle`.
unfoldable pub settle_one : Kernel → ℕ → Kernel
settle_one k id = elim (JsMap.get k.retired id) [
  | none ↦ k
  | some r ↦
      if not (is_empty r.holders) || JsMap.has k.acks r.update_id
      then k
      else record k { retired = JsMap.delete k.retired id; freed = k.freed ++ ((id, r.entry) ∷ []) }
]

unfoldable pub settle : Kernel → List ℕ → Kernel
settle k [] = k
settle k (id ∷ ids) = settle (settle_one k id) ids

-- `this.retired.get(id)?.holders.add(linkId)`
pub hold_one : Kernel → ℕ → ℕ → Kernel
hold_one k holder id = elim (JsMap.get k.retired id) [
  | none ↦ k
  | some r ↦ record k {
    retired = JsMap.set k.retired id (record r { holders = JsSet.add r.holders holder });
  }
]

unfoldable pub hold : Kernel → ℕ → List ℕ → Kernel
unfolding hold_one
hold k holder [] = k
hold k holder (id ∷ ids) = hold (hold_one k holder id) holder ids

-- `ack.pending.delete(linkId)`, and `acks.delete` once none is pending: the update's records are
-- then settled.
pub drop_pending : Kernel → ℕ → ℕ → Ack → Kernel
drop_pending k update_id link a =
    let rest = JsSet.remove a.pending link in
    if not (JsSet.contains a.pending link)
    then k
    else if is_empty rest
    then settle (record k { acks = JsMap.delete k.acks update_id }) a.retired
    else record k { acks = JsMap.set k.acks update_id (record a { pending = rest }) }

pub acked : Kernel → ℕ → ℕ → Kernel
unfolding drop_pending
acked k update_id link = elim (JsMap.get k.acks update_id) [
  | none ↦ k
  | some a ↦ drop_pending k update_id link a
]

unfoldable pub handle_ack : Kernel → ℕ → ℕ → List ℕ → Kernel
unfolding hold acked
handle_ack k update_id link retained = acked (hold k link retained) update_id link

-- `record.holders.delete(holder)`: the kernel without the hold, and whether there was one.
pub unhold_one : Kernel → ℕ → ℕ → Kernel × Bool
unhold_one k holder id = elim (JsMap.get k.retired id) [
  | none ↦ (k, false)
  | some r ↦ (
    record k {
      retired = JsMap.set k.retired id (record r { holders = JsSet.remove r.holders holder });
    },
    JsSet.contains r.holders holder,
  )
]

-- The loop of `handleRelease`: the records whose hold went.
pub unhold : Kernel → ℕ → List ℕ → Kernel × List ℕ
unfolding unhold_one
unhold k holder [] = (k, [])
unhold k holder (id ∷ ids) =
    let (k1, had) = unhold_one k holder id in
    let (k2, done) = unhold k1 holder ids in (k2, if had then id ∷ done else done)

unfoldable pub handle_release : Kernel → ℕ → List ℕ → Kernel
unfolding unhold
handle_release k holder ids = let (k1, done) = unhold k holder ids in settle k1 done

-- The loop of `handleWorkerExit` over the ACKs that updates wait for: those left, and the records
-- of the updates that waited for this worker alone.
unfoldable pub exit_acks : JsMap ℕ Ack → ℕ → JsMap ℕ Ack × List ℕ
exit_acks [] link = ([], [])
exit_acks ((u, a) ∷ m) link =
    let (rest, done) = exit_acks m link in
    let pending = JsSet.remove a.pending link in
    if not (JsSet.contains a.pending link)
    then ((u, a) ∷ rest, done)
    else if is_empty pending
    then (rest, a.retired ++ done)
    else ((u, record a { pending = pending }) ∷ rest, done)

-- Its loop over the retired records: the worker holds none any more.
unfoldable pub exit_holds : JsMap ℕ Retired → ℕ → JsMap ℕ Retired × List ℕ
exit_holds [] link = ([], [])
exit_holds ((id, r) ∷ m) link =
    let (rest, done) = exit_holds m link in
    (
      (id, record r { holders = JsSet.remove r.holders link }) ∷ rest,
      if JsSet.contains r.holders link then id ∷ done else done,
    )

-- `links.delete(id)` of the port's close handler, then `handleWorkerExit`.
unfoldable pub handle_worker_exit : Kernel → ℕ → Kernel
unfolding exit_acks exit_holds
handle_worker_exit k link =
    let (acks, done) = exit_acks k.acks link in
    let (retired, unheld) = exit_holds k.retired link in
    settle (record k { links = JsSet.remove k.links link; acks = acks; retired = retired })
      (done ++ unheld)

-- The records that `#flush` makes: a fresh retireId for each old entry, all of one update.
unfoldable pub retire : Kernel → ℕ → List ℕ → Kernel × List ℕ
retire k update_id [] = (k, [])
retire k update_id (entry ∷ entries) =
    let id = k.next_retire_id + 1 in
    let (k1, ids) =
      retire
        (record k {
          next_retire_id = id;
          retired =
              JsMap.set k.retired id
                (record { update_id = update_id; entry = entry; holders = [] });
        })
        update_id entries in
    (k1, id ∷ ids)

pub track : Kernel → ℕ → List ℕ → Kernel
track k update_id [] = k
track k update_id (id ∷ ids) = if is_empty k.links then settle k (id ∷ ids) else record k {
  acks = JsMap.set k.acks update_id (record { pending = k.links; retired = id ∷ ids });
}

-- The retirement part of `#flush`: `entries` are the versions it replaces or removes, and
-- `main_reads` tells which of their retireIds a consumer of the main thread still reads.
unfoldable pub flush : Kernel → List ℕ → (ℕ → Bool) → Kernel × ℕ × List ℕ
unfolding retire track
flush k entries main_reads =
    let u = k.next_update_id + 1 in
    let (k1, ids) = retire (record k { next_update_id = u }) u entries in
    (track (hold k1 main (keep main_reads ids)) u ids, u, ids)
