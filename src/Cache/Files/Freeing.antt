-- ===== src/Cache/Files/Freeing.antt =====
-- Giving the bytes of an entry back: exactly them, and an emptied segment returns to the pool.
use shared_memory_fs.Prelude.{
  ℕ, ◌<◌, ◌≡◌, false, some, nat_eq, ◌==◌, arith, refl, Bool-cases, inl, inr, if◌then◌else◌, ◌∙◌,
}
use shared_memory_fs.Prelude.JsMap
use shared_memory_fs.Prelude.JsMap.{is_some}
use shared_memory_fs.Cache.Pool.{free_segment}
use shared_memory_fs.Cache.Registry.{Registry, release, used, unregister}
use shared_memory_fs.Cache.Registry.Valid.{IsValid}
use shared_memory_fs.Cache.Registry.Release.{
  Held, TakesBack, owned-tail, release-TakesBack, used-zero, retire-TakesBack,
}
use shared_memory_fs.Cache.Files.{Slot, Stat, Extras, shared, release_block, free_entry}

tail_after :
    (r : Registry) (id o n : ℕ) → JsMap.get (release r id o n).tail id ≡ JsMap.get r.tail id
unfolding release
tail_after r id o n = ground arith

pub release_block-TakesBack :
    (r : Registry) (id o n : ℕ)
    → IsValid r
    → 0 < n
    → Held r id o n
    → TakesBack r (release_block r id o n) id o n
unfolding release_block
release_block-TakesBack r id o n v pos held =
    let (t, h) = owned-tail r id o (held o (ground arith)) in
    let s = release r id o n in
    let k = release-TakesBack r v id o n pos held in
    rw ((v.segment id t h).there) (emptied (used s id) refl k (tail_after r id o n ∙ h))
  where
    emptied :
        (u : ℕ)
        → used (release r id o n) id ≡ u
        → TakesBack r (release r id o n) id o n
        → {t : ℕ} → JsMap.get (release r id o n).tail id ≡ some t
        → TakesBack r
            (if u == 0
              then (let t = unregister (release r id o n) id in
                  record t { pool = free_segment t.pool id })
              else release r id o n)
            id
            o
            n
    emptied u e k {t} h = elim (Bool-cases (u == 0)) [
      | inl z ↦ rw z (
          retire-TakesBack (release r id o n) k.valid id t h r o n k
            (used-zero (release r id o n) id t k.valid h (ground arith)))
      | inr nz ↦ rw nz k
    ]

-- Freeing a shared entry of a valid registry whose bytes are handed out takes back exactly those
-- bytes; the registry stays valid and no segment is lost.
pub free_entry-TakesBack :
    (r : Registry) (slot : Slot) (stat : Stat) (extras : Extras)
    → IsValid r
    → 0 < slot.length
    → Held r slot.segment_id slot.offset slot.length
    → TakesBack r (free_entry r (shared slot stat extras)) slot.segment_id slot.offset slot.length
unfolding free_entry
free_entry-TakesBack r slot stat extras v pos held =
    let nz : (slot.length == 0) ≡ false = ground arith in
    rw nz (release_block-TakesBack r slot.segment_id slot.offset slot.length v pos held)
