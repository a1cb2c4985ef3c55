-- ===== src/Retirement/Epoch.antt =====
-- What an epoch (lib/kernel.js, #flush) adds, and that it takes nothing from what a link may read.
use shared_memory_fs.Prelude.{
  ℕ, ◌+◌, ◌≤◌, ◌<◌, ◌≡◌, Bool, false, true, List, [], ◌∷◌, some, nat_eq, arith, refl, ◌⊎◌, inl, inr,
  Option-cases, Bool-cases, eq_of_beq, ◌∙◌, All, keep, none,
}
use shared_memory_fs.Prelude.JsMap
use shared_memory_fs.Prelude.JsMap.{JsMap, IsMap, get-set, get-delete, has-eq-get, is_some}
use shared_memory_fs.Prelude.JsSet
use shared_memory_fs.Prelude.JsSet.{contains, contains-add, contains-remove}
use shared_memory_fs.Retirement.{
  Kernel, Retired, Ack, is_empty, hold, retire, track, flush, main, hold_one,
}
use shared_memory_fs.Retirement.Settle.{
  update_of, version_of, holds, pends, Keeps, Keeps-refl, Keeps-trans, settle-Keeps, hold-Keeps,
  nonempty, settle-links,
}
use shared_memory_fs.Retirement.Ids.{Bounded, NoNew-Bounded, hold-NoNew, settle-NoNew}

-- A relation between two lists, position by position.
abbrev pub Paired : (ℕ → ℕ → Type 0) → List ℕ → List ℕ → Type 0
Paired P [] [] = Unit
Paired P [] (y ∷ ys) = ⊥
Paired P (x ∷ xs) [] = ⊥
Paired P (x ∷ xs) (y ∷ ys) = P x y × Paired P xs ys

pub Paired-map :
    (P : ℕ → ℕ → Type 0) (Q : ℕ → ℕ → Type 0) (xs ys : List ℕ)
    → ((x y : ℕ) → P x y → Q x y)
    → Paired P xs ys
    → Paired Q xs ys
Paired-map P Q [] [] f a = tt
Paired-map P Q [] (y ∷ ys) f a = absurd a
Paired-map P Q (x ∷ xs) [] f a = absurd a
Paired-map P Q (x ∷ xs) (y ∷ ys) f a = (f x y a.0, Paired-map P Q xs ys f a.1)

pub Paired-All :
    (P : ℕ → ℕ → Type 0) (Q : ℕ → Type 0) (xs ys : List ℕ)
    → ((x y : ℕ) → P x y → Q y)
    → Paired P xs ys
    → All Q ys
Paired-All P Q [] [] f a = tt
Paired-All P Q [] (y ∷ ys) f a = absurd a
Paired-All P Q (x ∷ xs) [] f a = absurd a
Paired-All P Q (x ∷ xs) (y ∷ ys) f a = (f x y a.0, Paired-All P Q xs ys f a.1)

-- The records of a new epoch: old ones stay, the new ones belong to its update.
pub record Retires (u : ℕ) (k j : Kernel) (entries ids : List ℕ) : Type 0 where
  pub kept : (id : ℕ) → id ≤ k.next_retire_id → JsMap.get j.retired id ≡ JsMap.get k.retired id
  pub fresh :
      Paired (λ entry id. (k.next_retire_id < id) × (version_of j id ≡ some (u, entry))) entries ids
  pub records :
      (id v : ℕ)
      → update_of j id ≡ some v
      → (update_of k id ≡ some v) ⊎ ((id ≤ j.next_retire_id) × (v ≡ u))
  pub freed : j.freed ≡ k.freed
  pub acks : j.acks ≡ k.acks
  pub links : j.links ≡ k.links
  pub next_update : j.next_update_id ≡ k.next_update_id
  pub next_retire : k.next_retire_id ≤ j.next_retire_id

pub retire-Retires :
    (u : ℕ) (k : Kernel) (entries : List ℕ)
    → Retires u k (retire k u entries).0 entries (retire k u entries).1
unfolding retire update_of version_of
retire-Retires u k [] = record {
  kept = λ id h. refl;
  fresh = tt;
  records = λ id v e. inl e;
  freed = refl;
  acks = refl;
  links = refl;
  next_update = refl;
  next_retire = omega arith;
}
retire-Retires u k (entry ∷ entries) =
    let id = k.next_retire_id + 1 in
    let r : Retired = record { update_id = u; entry = entry; holders = [] } in
    let k1 : Kernel = record k { next_retire_id = id; retired = JsMap.set k.retired id r } in
    let t = retire-Retires u k1 entries in
    record {
      kept = λ i h. t.kept i (omega arith) ∙ ground (arith, get-set k.retired id i r);
      fresh = (
        (omega arith, ground (arith, t.kept id (omega arith), get-set k.retired id id r)),
        Paired-map _ _ entries (retire k1 u entries).1 (λ x y p. (omega (arith, p.0), p.1)) t.fresh,
      );
      records = λ i v e.
          ground (arith, t.records i v e, get-set k.retired id i r, t.next_retire, eq_of_beq id i);
      freed = t.freed;
      acks = t.acks;
      links = t.links;
      next_update = t.next_update;
      next_retire = omega (arith, t.next_retire);
    }

hold-acks : (k : Kernel) (l : ℕ) (ids : List ℕ) → (hold k l ids).acks ≡ k.acks
unfolding hold hold_one
hold-acks k l [] = refl
hold-acks k l (id ∷ ids) = hold-acks (hold_one k l id) l ids ∙ one
  where
    one : (hold_one k l id).acks ≡ k.acks
    one = ground arith

pub hold-links : (k : Kernel) (l : ℕ) (ids : List ℕ) → (hold k l ids).links ≡ k.links
unfolding hold hold_one
hold-links k l [] = refl
hold-links k l (id ∷ ids) = hold-links (hold_one k l id) l ids ∙ one
  where
    one : (hold_one k l id).links ≡ k.links
    one = ground arith

hold-version : (k : Kernel) (l i : ℕ) (ids : List ℕ) → version_of (hold k l ids) i ≡ version_of k i
unfolding hold hold_one version_of
hold-version k l i [] = refl
hold-version k l i (id ∷ ids) = hold-version (hold_one k l id) l i ids ∙ one
  where
    one : version_of (hold_one k l id) i ≡ version_of k i
    one = elim (Option-cases (JsMap.get k.retired id)) [
      | inl e ↦ ground arith
      | inr (r, e) ↦ ground (
        arith,
        get-set k.retired id i (record r { holders = JsSet.add r.holders l }),
        eq_of_beq id i,
      )
    ]

track-links : (k : Kernel) (u : ℕ) (ids : List ℕ) → (track k u ids).links ≡ k.links
unfolding track
track-links k u [] = refl
track-links k u (id ∷ ids) = ground (arith, settle-links k (id ∷ ids))

-- A new update waits for every link, and takes nothing from the updates before it.
track-Keeps :
    (xu xv : ℕ → Bool) (k : Kernel) (u : ℕ) (ids : List ℕ) (l : ℕ)
    → JsMap.has k.acks u ≡ false
    → Keeps xu xv k (track k u ids) l
unfolding track
track-Keeps xu xv k u [] l new = Keeps-refl xu xv k l
track-Keeps xu xv k u (id ∷ ids) l new = elim (Bool-cases (is_empty k.links)) [
  | inl alone ↦ rw (alone, track) (settle-Keeps xu xv k (id ∷ ids) l)
  | inr linked ↦ rw (linked, track) (waits xu xv k u (id ∷ ids) l new)
]
  where
    waits :
        (xu xv : ℕ → Bool) (k : Kernel) (u : ℕ) (ids : List ℕ) (l : ℕ)
        → JsMap.has k.acks u ≡ false
        → Keeps xu xv k
            (record k { acks = JsMap.set k.acks u (record { pending = k.links; retired = ids }) })
            l
    waits xu xv k u ids l new =
        unfold update_of holds pends in
        record {
          pending = λ v x p. ground (
            arith,
            get-set k.acks u v (record { pending = k.links; retired = ids }),
            has-eq-get k.acks u,
            eq_of_beq u v,
          );
          held = λ i x h. h;
          update = λ i v e g. e;
        }

track-pends :
    (k : Kernel) (u id l : ℕ) (ids : List ℕ)
    → contains k.links l ≡ true
    → pends (track k u (id ∷ ids)) u l ≡ true
unfolding track pends
track-pends k u id l ids h = ground (
  arith,
  nonempty k.links l,
  get-set k.acks u u (record { pending = k.links; retired = id ∷ ids }),
)

track-version :
    (k : Kernel) (u i id l : ℕ) (ids : List ℕ)
    → contains k.links l ≡ true
    → version_of (track k u (i ∷ ids)) id ≡ version_of k id
unfolding track version_of
track-version k u i id l ids h = ground (arith, nonempty k.links l)

-- The kernel of an epoch before its update is tracked.
abbrev staged : Kernel → List ℕ → (ℕ → Bool) → Kernel
staged k entries main_reads =
    let u = k.next_update_id + 1 in
    let p = retire (record k { next_update_id = u }) u entries in
    hold p.0 main (keep main_reads p.1)

module _ (xu xv : ℕ → Bool) (k : Kernel) (b : Bounded k) (entries : List ℕ)
    (main_reads : ℕ → Bool) where
  kept_of :
      (u id : ℕ)
      → is_some (JsMap.get k.retired id) ≡ true
      → JsMap.get (retire (record k { next_update_id = u }) u entries).0.retired id
        ≡ JsMap.get k.retired id
  unfolding update_of
  kept_of u id h = elim (Option-cases (JsMap.get k.retired id)) [
    | inl e ↦ absurd (cc)
    | inr (r, e) ↦
        (retire-Retires u (record k { next_update_id = u }) entries).kept id
          ((b.records id r.update_id (ground arith)).0)
  ]

  retire-Keeps : (u l : ℕ) → Keeps xu xv k (retire (record k { next_update_id = u }) u entries).0 l
  unfolding update_of holds pends
  retire-Keeps u l =
      let t = retire-Retires u (record k { next_update_id = u }) entries in
      record {
        pending = λ v x p. ground (arith, t.acks);
        held = λ id x h. ground (arith, kept_of u id);
        update = λ id v e g. ground (arith, kept_of u id);
      }

  staged-acks : (staged k entries main_reads).acks ≡ k.acks
  staged-acks =
      hold-acks _ main (
        keep main_reads
          (retire (record k { next_update_id = k.next_update_id + 1 }) (k.next_update_id + 1)
            entries).1)
      ∙ (retire-Retires (k.next_update_id + 1) (record k { next_update_id = k.next_update_id + 1 })
          entries).acks

  -- Flushing an epoch takes nothing from what a link could read before it: the ACKs that are
  -- waited for and the holds stay, and no version that they guard is freed.
  pub flush-Keeps : (l : ℕ) → Keeps xu xv k (flush k entries main_reads).0 l
  unfolding flush
  flush-Keeps l =
      let u = k.next_update_id + 1 in
      let t = retire (record k { next_update_id = u }) u entries in
      Keeps-trans xu xv k t.0 _ l (retire-Keeps u l) (
        Keeps-trans xu xv t.0 (staged k entries main_reads) _ l
          (hold-Keeps xu xv t.0 main (keep main_reads t.1) l)
          (track-Keeps xu xv (staged k entries main_reads) u t.1 l
            (rw staged-acks (not_waiting u (omega arith)))))
    where
      not_waiting : (u : ℕ) → k.next_update_id < u → JsMap.has k.acks u ≡ false
      not_waiting u h = elim (Bool-cases (JsMap.has k.acks u)) [
        | inl there ↦ absurd (omega (arith, b.updates u there))
        | inr gone ↦ gone
      ]

  -- The kernel before tracking, its new records and what they wait for.
  staged-links : (staged k entries main_reads).links ≡ k.links
  staged-links =
      hold-links _ main (
        keep main_reads
          (retire (record k { next_update_id = k.next_update_id + 1 }) (k.next_update_id + 1)
            entries).1)
      ∙ (retire-Retires (k.next_update_id + 1) (record k { next_update_id = k.next_update_id + 1 })
          entries).links

  pub flush-links : (flush k entries main_reads).0.links ≡ k.links
  unfolding flush
  flush-links = track-links (staged k entries main_reads) _ _ ∙ staged-links

  pub flush-waits :
      (l : ℕ)
      → contains k.links l ≡ true
      → Paired
          (λ entry id.
            (k.next_retire_id < id)
            × (version_of (flush k entries main_reads).0 id
                ≡ some ((flush k entries main_reads).1, entry))
            × (pends (flush k entries main_reads).0 (flush k entries main_reads).1 l ≡ true))
          entries
          (flush k entries main_reads).2
  unfolding flush
  flush-waits l h =
      let u = k.next_update_id + 1 in
      let t = retire (record k { next_update_id = u }) u entries in
      waits u entries t.1 (staged k entries main_reads) (rw staged-links h) (
        Paired-map _ _ entries t.1
          (λ entry id a. (a.0, hold-version t.0 main id (keep main_reads t.1) ∙ a.1))
          (retire-Retires u (record k { next_update_id = u }) entries).fresh)
    where
      waits :
          (u : ℕ) (es ids : List ℕ) (j : Kernel)
          → contains j.links l ≡ true
          → Paired
              (λ entry id. (k.next_retire_id < id) × (version_of j id ≡ some (u, entry)))
              es
              ids
          → Paired
              (λ entry id.
                (k.next_retire_id < id)
                × (version_of (track j u ids) id ≡ some (u, entry))
                × (pends (track j u ids) u l ≡ true))
              es
              ids
      waits u [] [] j c a = tt
      waits u (e ∷ es) [] j c a = absurd a
      waits u [] (i ∷ ids) j c a = absurd a
      waits u (e ∷ es) (i ∷ ids) j c a =
          Paired-map _ _ (e ∷ es) (i ∷ ids)
            (λ entry id p. (p.0, track-version j u i id l ids c ∙ p.1, track-pends j u i l ids c)) a

track-Bounded :
    (k : Kernel) (u : ℕ) (ids : List ℕ) → u ≤ k.next_update_id → Bounded k → Bounded (track k u ids)
unfolding track update_of
track-Bounded k u [] h b = b
track-Bounded k u (id ∷ ids) h b = elim (Bool-cases (is_empty k.links)) [
  | inl alone ↦ rw (alone, track) (NoNew-Bounded (settle-NoNew k (id ∷ ids)) b)
  | inr linked ↦
      rw (linked, track)
        (record {
          records = b.records;
          freed = b.freed;
          updates = λ v p.
              let a : Ack = record { pending = k.links; retired = id ∷ ids } in
              ground (
                arith,
                b.updates v,
                has-eq-get k.acks v,
                has-eq-get (JsMap.set k.acks u a) v,
                get-set k.acks u v a,
                eq_of_beq u v,
              );
        })
]

-- Flushing an epoch keeps every record and every update that is waited for within the ids given
-- out so far.
pub flush-Bounded :
    (k : Kernel) (entries : List ℕ) (main_reads : ℕ → Bool)
    → Bounded k
    → Bounded (flush k entries main_reads).0
unfolding flush
flush-Bounded k entries main_reads b =
    let u = k.next_update_id + 1 in
    let k0 : Kernel = record k { next_update_id = u } in
    let t = retire k0 u entries in
    let r = retire-Retires u k0 entries in
    let bt : Bounded t.0 = record {
      records = λ id v e. by_age id v t.0 (r.records id v e) r.next_retire r.next_update;
      updates = λ v p. omega (arith, b.updates v (rw (← r.acks) p), r.next_update);
      freed = λ id f. long_ago id t.0 r.next_retire (r.kept id) (b.freed id (rw (← r.freed) f));
    } in
    let n = hold-NoNew t.0 main (keep main_reads t.1) in
    track-Bounded (staged k entries main_reads) u t.1 (omega (arith, n.next_update, r.next_update))
      (NoNew-Bounded n bt)
  where
    by_age :
        (id v : ℕ) (j : Kernel)
        → (update_of (record k { next_update_id = k.next_update_id + 1 }) id ≡ some v)
          ⊎ ((id ≤ j.next_retire_id) × (v ≡ k.next_update_id + 1))
        → k.next_retire_id ≤ j.next_retire_id
        → j.next_update_id ≡ k.next_update_id + 1
        → (id ≤ j.next_retire_id) × (v ≤ j.next_update_id)
    by_age id v j (inl e) h g = omega (arith, b.records id v (unfold update_of in e))
    by_age id v j (inr e) h g = omega arith

    long_ago :
        (id : ℕ) (j : Kernel)
        → k.next_retire_id ≤ j.next_retire_id
        → (id ≤ k.next_retire_id → JsMap.get j.retired id ≡ JsMap.get k.retired id)
        → (id ≤ k.next_retire_id) × (update_of k id ≡ none)
        → (id ≤ j.next_retire_id) × (update_of j id ≡ none)
    long_ago id j h kept f = (omega arith, unfold update_of in ground (arith, kept f.0, f.1))
