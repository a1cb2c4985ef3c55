-- ===== src/Retirement/Settle.antt =====
-- What the retirement loops leave alone: ACKs, holds and the records that something guards.
use shared_memory_fs.Prelude.{
  ℕ, ◌≡◌, Bool, false, true, ◌||◌, not, List, [], ◌∷◌, ◌++◌, Option, none, some, ◌==◌, nat_eq,
  arith, refl, ◌⊎◌, inl, inr, Option-cases, Bool-cases, eq_of_beq, ◌∙◌, All,
}
use shared_memory_fs.Prelude.JsMap
use shared_memory_fs.Prelude.JsMap.{get-set, get-delete, has-eq-get, is_some}
use shared_memory_fs.Prelude.JsSet
use shared_memory_fs.Prelude.JsSet.{contains, contains-add, contains-remove}
use shared_memory_fs.Retirement.{
  Kernel, Retired, Ack, is_empty, settle_one, settle, hold_one, hold, unhold_one, unhold,
  handle_release, acked, drop_pending, handle_ack,
}

-- The update that retired a version, of one not freed yet.
unfoldable pub update_of : Kernel → ℕ → Option ℕ
update_of k id = elim (JsMap.get k.retired id) [ none ↦ none | some r ↦ some r.update_id ]

-- The update that retired a version and the entry recorded for it, of one not freed yet.
unfoldable pub version_of : Kernel → ℕ → Option (ℕ × ℕ)
version_of k id = elim (JsMap.get k.retired id) [
  | none ↦ none
  | some r ↦ some (r.update_id, r.entry)
]

pub version-update :
    (k : Kernel) (id u entry : ℕ) → version_of k id ≡ some (u, entry) → update_of k id ≡ some u
unfolding version_of update_of
version-update k id u entry e = elim (Option-cases (JsMap.get k.retired id)) [
  | inl g ↦ absurd (ground arith)
  | inr (r, g) ↦ ground arith
]

unfoldable pub frees : List (ℕ × ℕ) → ℕ → Bool
frees [] id = false
frees ((i, entry) ∷ freed) id = i == id || frees freed id

-- `cache.free` was called for the record of a retireId.
abbrev pub was_freed : Kernel → ℕ → Bool
was_freed k id = frees k.freed id

pub frees-append :
    (freed : List (ℕ × ℕ)) (i entry id : ℕ)
    → frees (freed ++ ((i, entry) ∷ [])) id ≡ (frees freed id || i == id)
unfolding frees
frees-append [] i entry id = ground arith
frees-append ((j, e) ∷ freed) i entry id = ground (arith, frees-append freed i entry id)

-- A thread holds a retired version.
unfoldable pub holds : Kernel → ℕ → ℕ → Bool
holds k id holder = elim (JsMap.get k.retired id) [
  | none ↦ false
  | some r ↦ contains r.holders holder
]

-- An update waits for the ACK of a link.
unfoldable pub pends : Kernel → ℕ → ℕ → Bool
pends k update_id link = elim (JsMap.get k.acks update_id) [
  | none ↦ false
  | some a ↦ contains a.pending link
]

-- A version may not be freed: a thread holds it, or its update waits for an ACK.
abbrev pub Guarded : Kernel → ℕ → Type 0
Guarded k id =
    ((l : ℕ) × (holds k id l ≡ true))
    ⊎ ((u : ℕ) × (l : ℕ) × (update_of k id ≡ some u) × (pends k u l ≡ true))

pub nonempty : (ls : List ℕ) (l : ℕ) → contains ls l ≡ true → is_empty ls ≡ false
unfolding contains
nonempty [] l h = ground arith
nonempty (x ∷ ls) l h = refl

-- Two kernels that wait for the same ACKs, and agree on one record and on whether it was freed.
pub record Agree (k j : Kernel) (id : ℕ) : Type 0 where
  pub acks : j.acks ≡ k.acks
  pub same : JsMap.get j.retired id ≡ JsMap.get k.retired id
  pub freed : was_freed j id ≡ was_freed k id

-- A guarded record passes the test of `#settle`, and stays.
guard_test :
    (k : Kernel) (id : ℕ) (r : Retired)
    → Guarded k id
    → JsMap.get k.retired id ≡ some r
    → (not (is_empty r.holders) || JsMap.has k.acks r.update_id) ≡ true
unfolding update_of holds pends
guard_test k id r (inl (l, h)) e = ground (arith, nonempty r.holders l)
guard_test k id r (inr (u, l, h, p)) e =
    ground (arith, has-eq-get k.acks u, has-eq-get k.acks r.update_id)

settle_one-Agree : (k : Kernel) (i id : ℕ) → Guarded k id → Agree k (settle_one k i) id
unfolding settle_one
settle_one-Agree k i id g = elim (Option-cases (JsMap.get k.retired i)) [
  | inl e ↦ rw (e, settle_one) (record { acks = refl; same = refl; freed = refl })
  | inr (r, e) ↦ elim (Bool-cases (not (is_empty r.holders) || JsMap.has k.acks r.update_id)) [
    | inl kept ↦ rw (e, settle_one, kept) (record { acks = refl; same = refl; freed = refl })
    | inr freed ↦
        let ne : (i == id) ≡ false = elim (Bool-cases (i == id)) [
          | inl eq ↦
              let at_id : JsMap.get k.retired id ≡ some r = rw (← eq_of_beq i id eq) e in
              absurd (cc (guard_test k id r g at_id))
          | inr ne ↦ ne
        ] in
        rw (e, settle_one, freed)
          (record {
            acks = refl;
            same = ground (arith, get-delete k.retired i id);
            freed = ground (arith, frees-append k.freed i r.entry id);
          })
  ]
]

Agree-Guarded : (k j : Kernel) (id : ℕ) → Agree k j id → Guarded k id → Guarded j id
unfolding update_of holds pends
Agree-Guarded k j id a (inl (l, h)) = inl (l, ground (arith, a.same))
Agree-Guarded k j id a (inr (u, l, h, p)) = inr (u, l, ground (arith, a.same), rw a.acks p)

-- `#settle` frees no version that a thread holds or whose update waits for an ACK: its record
-- stays, `cache.free` is not called for it, whatever other records are settled before it, and no
-- ACK is touched.
pub settle-Agree : (k : Kernel) (ids : List ℕ) (id : ℕ) → Guarded k id → Agree k (settle k ids) id
unfolding settle
settle-Agree k [] id g = record { acks = refl; same = refl; freed = refl }
settle-Agree k (i ∷ ids) id g =
    let a = settle_one-Agree k i id g in
    let b = settle-Agree (settle_one k i) ids id (Agree-Guarded k _ id a g) in
    record { acks = b.acks ∙ a.acks; same = b.same ∙ a.same; freed = b.freed ∙ a.freed }

-- What an operation leaves to a link: what waited for it still does, what it held it holds, and no
-- version that it may read is freed; but for the updates `xu` and the versions `xv` that the
-- operation is about.
pub record Keeps (xu xv : ℕ → Bool) (k j : Kernel) (l : ℕ) : Type 0 where
  pub pending : (u : ℕ) → xu u ≡ false → pends k u l ≡ true → pends j u l ≡ true
  pub held : (id : ℕ) → xv id ≡ false → holds k id l ≡ true → holds j id l ≡ true
  pub update :
      (id u : ℕ)
      → update_of k id ≡ some u
      → ((xv id ≡ false) × (holds k id l ≡ true)) ⊎ ((xu u ≡ false) × (pends k u l ≡ true))
      → update_of j id ≡ some u

module _ (xu xv : ℕ → Bool) where
  pub Keeps-refl : (k : Kernel) (l : ℕ) → Keeps xu xv k k l
  Keeps-refl k l = record { pending = λ u x p. p; held = λ i x h. h; update = λ i u e' g. e' }

  pub Keeps-trans :
      (i j k : Kernel) (l : ℕ) → Keeps xu xv i j l → Keeps xu xv j k l → Keeps xu xv i k l
  Keeps-trans i j k l a b = record {
    pending = λ u x p. b.pending u x (a.pending u x p);
    held = λ id x p. b.held id x (a.held id x p);
    update = λ id u e g. b.update id u (a.update id u e g) (after u id g);
  }
    where
      after :
          (u id : ℕ)
          → ((xv id ≡ false) × (holds i id l ≡ true)) ⊎ ((xu u ≡ false) × (pends i u l ≡ true))
          → ((xv id ≡ false) × (holds j id l ≡ true)) ⊎ ((xu u ≡ false) × (pends j u l ≡ true))
      after u id (inl h) = inl (h.0, a.held id h.0 h.1)
      after u id (inr p) = inr (p.0, a.pending u p.0 p.1)

settle-acks : (k : Kernel) (ids : List ℕ) → (settle k ids).acks ≡ k.acks
unfolding settle settle_one
settle-acks k [] = refl
settle-acks k (i ∷ ids) = settle-acks (settle_one k i) ids ∙ one
  where
    one : (settle_one k i).acks ≡ k.acks
    one = ground arith

pub settle-links : (k : Kernel) (ids : List ℕ) → (settle k ids).links ≡ k.links
unfolding settle settle_one
settle-links k [] = refl
settle-links k (i ∷ ids) = settle-links (settle_one k i) ids ∙ one
  where
    one : (settle_one k i).links ≡ k.links
    one = ground arith

module _ (xu xv : ℕ → Bool) where
  pub settle-Keeps : (k : Kernel) (ids : List ℕ) (l : ℕ) → Keeps xu xv k (settle k ids) l
  unfolding update_of holds pends
  settle-Keeps k ids l = record {
    pending = λ u x p. rw (settle-acks k ids) p;
    held = λ id x h. ground (arith, (settle-Agree k ids id (inl (l, h))).same);
    update = λ id u e g. by_guard id u e g;
  }
    where
      by_guard :
          (id u : ℕ)
          → update_of k id ≡ some u
          → ((xv id ≡ false) × (holds k id l ≡ true)) ⊎ ((xu u ≡ false) × (pends k u l ≡ true))
          → update_of (settle k ids) id ≡ some u
      by_guard id u e (inl h) = ground (arith, (settle-Agree k ids id (inl (l, h.1))).same)
      by_guard id u e (inr p) = ground (arith, (settle-Agree k ids id (inr (u, l, e, p.1))).same)

  -- Adding a hold takes nothing away.
  hold_one-Keeps : (k : Kernel) (holder id l : ℕ) → Keeps xu xv k (hold_one k holder id) l
  unfolding update_of holds pends hold_one
  hold_one-Keeps k holder id l = elim (Option-cases (JsMap.get k.retired id)) [
    | inl e ↦ rw (e, hold_one) (Keeps-refl xu xv k l)
    | inr (r, e) ↦
        let r' = record r { holders = JsSet.add r.holders holder } in
        rw (e, hold_one)
          (record {
            pending = λ u x p. p;
            held = λ i x h.
                ground (
                  arith,
                  get-set k.retired id i r',
                  contains-add r.holders holder l,
                  eq_of_beq id i,
                );
            update = λ i u e' g. ground (arith, get-set k.retired id i r', eq_of_beq id i);
          })
  ]

  pub hold-Keeps :
      (k : Kernel) (holder : ℕ) (ids : List ℕ) (l : ℕ) → Keeps xu xv k (hold k holder ids) l
  unfolding hold
  hold-Keeps k holder [] l = Keeps-refl xu xv k l
  hold-Keeps k holder (id ∷ ids) l =
      Keeps-trans xu xv k (hold_one k holder id) _ l (hold_one-Keeps k holder id l)
        (hold-Keeps (hold_one k holder id) holder ids l)

  -- Removing a hold takes nothing away from another thread, or from another version.
  unhold_one-Keeps :
      (k : Kernel) (holder id l : ℕ)
      → ((holder == l) ≡ false) ⊎ (xv id ≡ true)
      → Keeps xu xv k (unhold_one k holder id).0 l
  unfolding update_of holds pends unhold_one
  unhold_one-Keeps k holder id l ne = elim (Option-cases (JsMap.get k.retired id)) [
    | inl e ↦ rw (e, unhold_one) (Keeps-refl xu xv k l)
    | inr (r, e) ↦
        let r' = record r { holders = JsSet.remove r.holders holder } in
        rw (e, unhold_one)
          (record {
            pending = λ u x p. p;
            held = λ i x h. ground (
              arith,
              get-set k.retired id i r',
              contains-remove r.holders holder l,
              eq_of_beq id i,
            );
            update = λ i u e' g. ground (arith, get-set k.retired id i r', eq_of_beq id i);
          })
  ]

  pub unhold-Keeps :
      (k : Kernel) (holder : ℕ) (ids : List ℕ) (l : ℕ)
      → ((holder == l) ≡ false) ⊎ All (λ id. xv id ≡ true) ids
      → Keeps xu xv k (unhold k holder ids).0 l
  unfolding unhold
  unhold-Keeps k holder [] l ne = Keeps-refl xu xv k l
  unhold-Keeps k holder (id ∷ ids) l (inl ne) =
      Keeps-trans xu xv k (unhold_one k holder id).0 _ l (unhold_one-Keeps k holder id l (inl ne))
        (unhold-Keeps (unhold_one k holder id).0 holder ids l (inl ne))
  unhold-Keeps k holder (id ∷ ids) l (inr x) =
      Keeps-trans xu xv k (unhold_one k holder id).0 _ l (unhold_one-Keeps k holder id l (inr x.0))
        (unhold-Keeps (unhold_one k holder id).0 holder ids l (inr x.1))

  -- A release by one thread takes nothing from another thread, nor for versions that it does not
  -- name: the ACKs that are waited for and the holds stay, and no version that they guard is
  -- freed.
  pub handle_release-Keeps :
      (k : Kernel) (holder : ℕ) (ids : List ℕ) (l : ℕ)
      → ((holder == l) ≡ false) ⊎ All (λ id. xv id ≡ true) ids
      → Keeps xu xv k (handle_release k holder ids) l
  unfolding handle_release
  handle_release-Keeps k holder ids l ne =
      Keeps-trans xu xv k (unhold k holder ids).0 _ l (unhold-Keeps k holder ids l ne)
        (settle-Keeps (unhold k holder ids).0 (unhold k holder ids).1 l)

  -- One ACK counts for one update and one link.
  pub acked-Keeps :
      (k : Kernel) (update link l : ℕ)
      → ((link == l) ≡ false) ⊎ (xu update ≡ true)
      → Keeps xu xv k (acked k update link) l
  unfolding acked
  acked-Keeps k update link l ne = elim (Option-cases (JsMap.get k.acks update)) [
    | inl e ↦ rw (e, acked) (Keeps-refl xu xv k l)
    | inr (a, e) ↦
        rw (e, acked)
          (by_pending a e (Bool-cases (not (contains a.pending link)))
            (Bool-cases (is_empty (JsSet.remove a.pending link))))
  ]
    where
      gone :
          (a : Ack)
          → JsMap.get k.acks update ≡ some a
          → is_empty (JsSet.remove a.pending link) ≡ true
          → Keeps xu xv k (record k { acks = JsMap.delete k.acks update }) l
      gone a e z =
          unfold update_of holds pends in
          record {
            pending = λ u x p. ground (
              arith,
              get-delete k.acks update u,
              eq_of_beq update u,
              contains-remove a.pending link l,
              nonempty (JsSet.remove a.pending link) l,
            );
            held = λ i x h. h;
            update = λ i u e' g. e';
          }

      left :
          (a : Ack)
          → JsMap.get k.acks update ≡ some a
          → Keeps xu xv k
              (record k {
                acks = JsMap.set k.acks update (record a { pending = JsSet.remove a.pending link });
              })
              l
      left a e =
          unfold update_of holds pends in
          record {
            pending = λ u x p. ground (
              arith,
              get-set k.acks update u (record a { pending = JsSet.remove a.pending link }),
              eq_of_beq update u,
              contains-remove a.pending link l,
            );
            held = λ i x h. h;
            update = λ i u e' g. e';
          }

      by_pending :
          (a : Ack)
          → JsMap.get k.acks update ≡ some a
          → (not (contains a.pending link) ≡ true) ⊎ (not (contains a.pending link) ≡ false)
          → (is_empty (JsSet.remove a.pending link) ≡ true)
            ⊎ (is_empty (JsSet.remove a.pending link) ≡ false)
          → Keeps xu xv k (drop_pending k update link a) l
      by_pending a e (inl absent) z = rw (absent, drop_pending) (Keeps-refl xu xv k l)
      by_pending a e (inr there) (inl z) =
          rw (there, z, drop_pending)
            (Keeps-trans xu xv k _ _ l (gone a e z)
              (settle-Keeps (record k { acks = JsMap.delete k.acks update }) a.retired l))
      by_pending a e (inr there) (inr z) = rw (there, z, drop_pending) (left a e)

  -- The ACK of one link for one update takes nothing from another link, nor from this link for
  -- other updates: the ACKs that are waited for and the holds stay, and no version that they guard
  -- is freed.
  pub handle_ack-Keeps :
      (k : Kernel) (update link : ℕ) (retained : List ℕ) (l : ℕ)
      → ((link == l) ≡ false) ⊎ (xu update ≡ true)
      → Keeps xu xv k (handle_ack k update link retained) l
  unfolding handle_ack
  handle_ack-Keeps k update link retained l ne =
      Keeps-trans xu xv k (hold k link retained) _ l (hold-Keeps k link retained l)
        (acked-Keeps (hold k link retained) update link l ne)
