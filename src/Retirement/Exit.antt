-- ===== src/Retirement/Exit.antt =====
-- A worker's exit leaves every other worker what it may read (lib/kernel.js, handleWorkerExit).
use shared_memory_fs.Prelude.{
  ℕ, ◌≡◌, Bool, false, true, [], ◌∷◌, none, some, ◌==◌, nat_eq, arith, refl, inl, inr, Option-cases,
}
use shared_memory_fs.Prelude.JsMap
use shared_memory_fs.Prelude.JsMap.{JsMap, IsMap, get-set, get-delete, has-eq-get, is_some}
use shared_memory_fs.Prelude.JsSet
use shared_memory_fs.Prelude.JsSet.{contains, contains-add, contains-remove}
use shared_memory_fs.Retirement.{Kernel, Retired, Ack, exit_acks, exit_holds, handle_worker_exit}
use shared_memory_fs.Retirement.Settle.{
  update_of, holds, pends, Keeps, Keeps-trans, settle-Keeps, nonempty,
}

-- What an ACK table and a table of records say of one link.
abbrev pends_in : JsMap ℕ Ack → ℕ → ℕ → Bool
pends_in m u l = elim (JsMap.get m u) [ none ↦ false | some a ↦ contains a.pending l ]

exit_acks-pends :
    (m : JsMap ℕ Ack) (link l u : ℕ)
    → (link == l) ≡ false
    → pends_in m u l ≡ true
    → pends_in (exit_acks m link).0 u l ≡ true
unfolding exit_acks JsMap.get
exit_acks-pends [] link l u ne h = h
exit_acks-pends ((v, a) ∷ m) link l u ne h = ground (
  arith,
  exit_acks-pends m link l u ne,
  contains-remove a.pending link l,
  nonempty (JsSet.remove a.pending link) l,
)

pub exit_holds-get :
    (m : JsMap ℕ Retired) (link id : ℕ)
    → JsMap.get (exit_holds m link).0 id ≡ elim (JsMap.get m id) [
      | none ↦ none
      | some r ↦ some (record r { holders = JsSet.remove r.holders link })
    ]
unfolding exit_holds JsMap.get
exit_holds-get [] link id = refl
exit_holds-get ((i, r) ∷ m) link id = ground (arith, exit_holds-get m link id)

module _ (xu xv : ℕ → Bool) (k : Kernel) where
  -- The exit of a worker takes nothing from any other link: the ACKs that are waited for and the
  -- holds stay, and no version that they guard is freed.
  pub handle_worker_exit-Keeps :
      (link l : ℕ) → (link == l) ≡ false → Keeps xu xv k (handle_worker_exit k link) l
  unfolding handle_worker_exit
  handle_worker_exit-Keeps link l ne = Keeps-trans xu xv k _ _ l left (settle-Keeps xu xv _ _ l)
    where
      left :
          Keeps xu xv k
            (record k {
              links = JsSet.remove k.links link;
              acks = (exit_acks k.acks link).0;
              retired = (exit_holds k.retired link).0;
            })
            l
      left =
          unfold update_of holds pends in
          record {
            pending = λ u x p. exit_acks-pends k.acks link l u ne p;
            held = λ id x h. elim (Option-cases (JsMap.get k.retired id)) [
              | inl e ↦ absurd (ground arith)
              | inr (r, e) ↦
                  ground (arith, exit_holds-get k.retired link id, contains-remove r.holders link l)
            ];
            update = λ id u e g. ground (arith, exit_holds-get k.retired link id);
          }
