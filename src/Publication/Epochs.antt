-- ===== src/Publication/Epochs.antt =====
-- lib/kernel.js, #flush and #apply: an epoch as a whole, its message, and the projection of it.
use shared_memory_fs.Prelude.{
  ◌⊎◌, ℕ, ◌≡◌, Bool, false, true, ◌&&◌, ◌||◌, List, [], ◌∷◌, ◌++◌, none, some, ◌==◌, nat_eq, arith,
  refl, inl, inr, Bool-cases, ◌∙◌, ap, eq_of_beq, subst,
}
use shared_memory_fs.Prelude.JsMap
use shared_memory_fs.Prelude.JsMap.{JsMap, IsMap, is_some, get-set, get-delete}
use shared_memory_fs.Prelude.JsSet.{contains}
use shared_memory_fs.Prelude.Text.{Str, str_eq}
use shared_memory_fs.Cache.Files.{Cache}
use shared_memory_fs.Publication.{
  Epoch, Commit, start, commit_changes, PlaceUpdate, Flushed, flush_epoch, new_segments, is_nil,
}
use shared_memory_fs.Publication.Projection.{Thread, apply_places, set_segments, apply, tell}
use shared_memory_fs.Publication.Commits.{in_pool, commit_changes-Commits}
use shared_memory_fs.Publication.Parts.{
  Staged, Mirrors, Knows, is_nil-eq, Applies, unchanged-Mirrors, apply_place-Applies,
}

-- A flush: the segments of its message grow, and lie in the pool that it leaves as it was.
record Flushes (there : ℕ → Bool) (c : Cache) (segments : List ℕ) (f : Flushed) : Type 0 where
  pool : f.cache.registry.pool ≡ c.registry.pool
  grown : (x : ℕ) → contains segments x ≡ true → contains f.segments x ≡ true
  bounded :
      ((x : ℕ) → contains segments x ≡ true → there x ≡ true)
      → (x : ℕ) → contains f.segments x ≡ true
      → there x ≡ true

flush_epoch-Flushes :
    (there : ℕ → Bool) (c : Cache) (next : ℕ) (segments : List ℕ) (ep : Epoch)
    → Staged there ep
    → Flushes there c segments (flush_epoch c next segments ep)
unfolding flush_epoch
flush_epoch-Flushes there c next segments [] s = record {
  pool = refl;
  grown = λ x h. h;
  bounded = λ h. h;
}
flush_epoch-Flushes there c next segments ((name, changes) ∷ ep) s =
    let m = commit_changes (start c next segments) name changes in
    let k = commit_changes-Commits there (start c next segments) name changes s.1 in
    let t = flush_epoch-Flushes there m.cache m.next_retire_id m.segments ep s.2 in
    record {
      pool = t.pool ∙ k.pool;
      grown = λ x h. t.grown x (k.grown x h);
      bounded = λ h. t.bounded (k.bounded h);
    }

-- The places of a message that a thread applies, which knows its segments.
apply_places-Applies :
    (there : ℕ → Bool) (t : Thread) (c : Cache) (next : ℕ) (segments : List ℕ) (ep : Epoch)
    → Staged there ep
    → Mirrors c t
    → Knows t (flush_epoch c next segments ep).segments
    → Applies
        (flush_epoch c next segments ep).cache
        (apply_places t (flush_epoch c next segments ep).places)
        t
unfolding flush_epoch apply_places
apply_places-Applies there t c next segments [] s mirrors knows = record {
  after = t;
  retained = [];
  runs = refl;
  mirrors = mirrors;
  segments = refl;
}
apply_places-Applies there t c next segments ((name, changes) ∷ ep) s mirrors knows =
    elim (Bool-cases (is_nil m.entries && is_nil m.removals)) [
      | inl nil ↦
          let still =
            unchanged-Mirrors t c next segments name changes s.0 there s.1 mirrors known
              (is_nil-eq m.entries (ground arith)) (is_nil-eq m.removals (ground arith)) in
          rw nil
            (apply_places-Applies there t m.cache m.next_retire_id m.segments ep s.2 still knows)
      | inr some_part ↦
          let a = apply_place-Applies t c next segments name changes s.0 there s.1 mirrors known in
          let b =
            apply_places-Applies there a.after m.cache m.next_retire_id m.segments ep s.2 a.mirrors
              (λ x h. rw (a.segments) (knows x h)) in
          rw (some_part, apply_places, a.runs, b.runs)
            (record {
              after = b.after;
              retained = a.retained ++ b.retained;
              runs = refl;
              mirrors = b.mirrors;
              segments = b.segments ∙ a.segments;
            })
    ]
  where
    m : Commit
    m = commit_changes (start c next segments) name changes

    known : Knows t m.segments
    known x h =
        knows x ((flush_epoch-Flushes there m.cache m.next_retire_id m.segments ep s.2).grown x h)

-- Each segment under its own id, as the message lists them.
diagonal : List ℕ → List (ℕ × ℕ)
diagonal [] = []
diagonal (id ∷ ids) = (id, id) ∷ diagonal ids

new_segments-diagonal :
    (c : Cache) (ids : List ℕ)
    → ((x : ℕ) → contains ids x ≡ true → in_pool c x ≡ true)
    → new_segments c ids ≡ some (diagonal ids)
unfolding new_segments diagonal contains
new_segments-diagonal c [] h = refl
new_segments-diagonal c (id ∷ ids) h =
    let rest = new_segments-diagonal c ids (λ x i. h x (ground arith)) in
    let first = h id (ground arith) in rw (rest, first) refl

set_segments-knows :
    (m : JsMap ℕ ℕ) (ids : List ℕ) (x : ℕ)
    → (contains ids x || is_some (JsMap.get m x)) ≡ true
    → (JsMap.get m x ≡ some x) ⊎ (JsMap.get m x ≡ none)
    → JsMap.get (set_segments m (diagonal ids)) x ≡ some x
unfolding set_segments diagonal contains
set_segments-knows m [] x h k = ground arith
set_segments-knows m (id ∷ ids) x h k =
    set_segments-knows (JsMap.set m id id) ids x (ground (arith, get-set m id x id, eq_of_beq id x))
      (by_id (Bool-cases (id == x)))
  where
    by_id :
        ((id == x) ≡ true) ⊎ ((id == x) ≡ false)
        → (JsMap.get (JsMap.set m id id) x ≡ some x) ⊎ (JsMap.get (JsMap.set m id id) x ≡ none)
    by_id (inl same) = inl (ground (arith, get-set m id x id, eq_of_beq id x))
    by_id (inr other) = ground (arith, get-set m id x id)

apply_none :
    (t after : Thread) (retained : List ℕ) (places : List (Str × PlaceUpdate))
    → places ≡ []
    → apply_places t places ≡ some (after, retained)
    → after ≡ t
unfolding apply_places
apply_none t after retained [] e h = ground arith
apply_none t after retained (p ∷ places) e h = absurd (cc)

-- The end of a flush on the main thread.
pub record Tells (f : Flushed) (t : Thread) : Type 0 where
  pub after : Thread
  pub retained : List ℕ
  pub runs : tell f t ≡ some (after, retained)
  pub mirrors : Mirrors f.cache after

-- The segments that a thread knows are known under their own ids.
abbrev pub Exact : Thread → Type 0
Exact t = (x : ℕ) → (JsMap.get t.segments_map x ≡ some x) ⊎ (JsMap.get t.segments_map x ≡ none)

-- Where every place that the main thread projects shows what the index has, its known segments are
-- under their own ids, no key is staged twice and the staged entries with bytes lie in segments of
-- the pool: `#flush` of the whole epoch does not throw, and afterwards every place that the thread
-- projects, of the epoch or not, shows for each key the projection of what the index then has,
-- with the segment of each shared entry, or nothing.
pub tell-Mirrors :
    (t : Thread) (c : Cache) (next : ℕ) (ep : Epoch)
    → Staged (in_pool c) ep
    → Exact t
    → Mirrors c t
    → Tells (flush_epoch c next [] ep) t
unfolding tell apply
tell-Mirrors t c next ep staged exact mirrors = elim (Bool-cases (is_nil f.places)) [
  | inl nil ↦
      let still = apply_none informed a.after a.retained f.places (is_nil-eq f.places nil) a.runs in
      record {
        after = t;
        retained = [];
        runs = rw (nil, tell) refl;
        mirrors = subst (λ u. Mirrors f.cache u) still a.mirrors;
      }
  | inr told ↦ record {
    after = a.after;
    retained = a.retained;
    runs = rw (told, listed, tell) a.runs;
    mirrors = a.mirrors;
  }
]
  where
    f : Flushed
    f = flush_epoch c next [] ep

    flushes : Flushes (in_pool c) c [] f
    flushes = flush_epoch-Flushes (in_pool c) c next [] ep staged

    inside : (x : ℕ) → contains f.segments x ≡ true → in_pool c x ≡ true
    inside x h = flushes.bounded (λ y i. absurd (unfold contains in cc)) x h

    listed : new_segments f.cache f.segments ≡ some (diagonal f.segments)
    listed =
        new_segments-diagonal f.cache f.segments
          (λ x h. rw (ap (λ p. is_some (JsMap.get p.segments x)) flushes.pool) (inside x h))

    informed : Thread
    informed = record t { segments_map = set_segments t.segments_map (diagonal f.segments) }

    a : Applies f.cache (apply_places informed f.places) informed
    a =
        apply_places-Applies (in_pool c) informed c next [] ep staged mirrors
          (λ x h. set_segments-knows t.segments_map f.segments x (ground (arith, h)) (exact x))
