-- ===== src/Pins/Counts.antt =====
-- The count of a file is the number of its consumers that are not done.
use shared_memory_fs.Prelude.{
  ℕ, zero, suc, ◌+◌, ◌≡◌, false, true, ◌&&◌, List, [], ◌∷◌, Option, none, some, ◌==◌, nat_eq,
  if◌then◌else◌, arith, refl, Bool-cases, Option-cases, inl, inr, eq_of_beq,
}
use shared_memory_fs.Prelude.JsMap
use shared_memory_fs.Prelude.JsMap.{get-set, get-delete, has-eq-get, is_some}
use shared_memory_fs.Pins.{
  Pins, Consumer, Thread, acquires, retires, acquire, drop, last_done, retain, finish_at, step,
}

-- The consumers of a file that are not done.
unfoldable pub active : List Consumer → ℕ → ℕ
active [] f = 0
active (c ∷ cs) f = let rest = active cs f in if c.held && c.file == f then suc rest else rest

-- The entry of a count: none where there is nothing to count.
abbrev pub tally : ℕ → Option ℕ
tally zero = none
tally (suc n) = some (suc n)

pub record Counted (t : Thread) : Type 0 where
  pub counts : (f : ℕ) → JsMap.get t.pins.counts f ≡ tally (active t.consumers f)
  pub bound : (f : ℕ) → JsMap.has t.pins.retired f ≡ true → JsMap.has t.pins.counts f ≡ true

counted : (n : ℕ) → (elim (tally n) [ none ↦ 0 | some m ↦ m ]) ≡ n
counted zero = refl
counted (suc n) = refl

-- What `acquire` does to the counts.
acquire-counts :
    (p : Pins) (f g : ℕ) (c : Option ℕ)
    → JsMap.get (acquire p f c).0.counts g ≡ (
        if f == g
        then some ((elim (JsMap.get p.counts f) [ none ↦ 0 | some n ↦ n ]) + 1)
        else JsMap.get p.counts g)
unfolding acquire
acquire-counts p f g none = get-set p.counts f g _
acquire-counts p f g (some c) = get-set p.counts f g _

acquire-retired : (p : Pins) (f : ℕ) (c : Option ℕ) → (acquire p f c).0.retired ≡ p.retired
unfolding acquire
acquire-retired p f none = refl
acquire-retired p f (some c) = refl

pub acquire-Counted :
    (t : Thread) (f : ℕ) (c : Option ℕ) → Counted t → Counted (step t (acquires f c)).0
unfolding step active
acquire-Counted t f c k = record {
  counts = λ g. ground (
    arith,
    acquire-counts t.pins f g c,
    k.counts f,
    k.counts g,
    counted (active t.consumers f),
    eq_of_beq f g,
  );
  bound = λ g h. ground (
    arith,
    acquire-counts t.pins f g c,
    acquire-retired t.pins f c,
    k.bound g,
    has-eq-get t.pins.counts g,
    has-eq-get (acquire t.pins f c).0.counts g,
  );
}

-- The consumer at an index takes one from its file's consumers, unless it was done.
pub finish_at-active :
    (i : ℕ) (cs ds : List Consumer) (c : Consumer)
    → finish_at i cs ≡ some (c, ds)
    → (f : ℕ) → active cs f ≡ (if c.held && c.file == f then suc (active ds f) else active ds f)
unfolding finish_at active
finish_at-active i [] ds c h f = absurd (ground arith)
finish_at-active zero (d ∷ cs) ds c h f = ground arith
finish_at-active (suc i) (d ∷ cs) ds c h f = elim (Option-cases (finish_at i cs)) [
  | inl e ↦ absurd (ground arith)
  | inr ((b, bs), e) ↦ ground (arith, finish_at-active i cs bs b e f)
]

-- The id that a retired version is bound to, if any, as a list.
abbrev pub bound_ids : Pins → ℕ → List ℕ
bound_ids p f = elim (JsMap.get p.retired f) [ none ↦ [] | some id ↦ id ∷ [] ]

-- What `#drop` does to a file with a consumer more than `n`.
pub record Drops (p q : Pins) (f n : ℕ) (ids : List ℕ) : Type 0 where
  pub counts : (g : ℕ) → JsMap.get q.counts g ≡ (if f == g then tally n else JsMap.get p.counts g)
  pub retired :
      (g : ℕ)
      → JsMap.has q.retired g ≡ true
      → (JsMap.has p.retired g ≡ true) × ((n ≡ 0) → (f == g) ≡ false)
  pub released : ids ≡ (if n == 0 then bound_ids p f else [])

pub drop-Drops :
    (p : Pins) (f n : ℕ)
    → JsMap.get p.counts f ≡ some (suc n)
    → Drops p (drop p f).0 f n (drop p f).1
unfolding drop last_done
drop-Drops p f zero e = elim (Option-cases (JsMap.get p.retired f)) [
  | inl r ↦
      rw (e, r, drop, last_done)
        (record {
          counts = λ g. get-delete p.counts f g;
          retired = λ g h. (h, λ z. ground (arith, has-eq-get p.retired g, eq_of_beq f g));
          released = ground arith;
        })
  | inr (id, r) ↦
      rw (e, r, drop, last_done)
        (record {
          counts = λ g. get-delete p.counts f g;
          retired = λ g h. (
            ground (
              arith,
              has-eq-get p.retired g,
              has-eq-get (JsMap.delete p.retired f) g,
              get-delete p.retired f g,
            ),
            λ z. ground (arith, has-eq-get (JsMap.delete p.retired f) g, get-delete p.retired f g),
          );
          released = ground arith;
        })
]
drop-Drops p f (suc n) e =
    rw (e, drop)
      (record {
        counts = λ g. get-set p.counts f g (suc n);
        retired = λ g h. (h, λ z. ground arith);
        released = ground arith;
      })

pub retain-Counted : (t : Thread) (f id : ℕ) → Counted t → Counted (step t (retires f id)).0
unfolding step retain
retain-Counted t f id k = elim (Bool-cases (JsMap.has t.pins.counts f)) [
  | inl there ↦ rw there (record {
    counts = k.counts;
    bound = λ g h. ground (
      arith,
      k.bound g,
      get-set t.pins.retired f g id,
      has-eq-get t.pins.retired g,
      has-eq-get (JsMap.set t.pins.retired f id) g,
      eq_of_beq f g,
    );
  })
  | inr gone ↦ rw gone k
]
