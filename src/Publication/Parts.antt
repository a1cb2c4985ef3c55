-- ===== src/Publication/Parts.antt =====
-- lib/kernel.js, #apply: the part of a message that is about one place.
use shared_memory_fs.Prelude.{
  ℕ, ◌≡◌, Bool, false, true, List, [], ◌∷◌, Option, none, some, ◌==◌, nat_eq, arith, refl, All, inl,
  inr, Bool-cases, Option-cases, ◌∙◌, ap, eq_of_beq, subst, sym,
}
use shared_memory_fs.Prelude.JsMap
use shared_memory_fs.Prelude.JsMap.{JsMap, IsMap, is_some, get-set, get-delete}
use shared_memory_fs.Prelude.JsSet.{contains}
use shared_memory_fs.Prelude.Text.{Str, str_eq}
use shared_memory_fs.Directories.{PlaceFiles}
use shared_memory_fs.Cache.Files.{Cache, Entry, shared, disk}
use shared_memory_fs.Pins.{Pins}
use shared_memory_fs.Publication.{Changes, Epoch, Commit, start, commit_changes, part_of, is_nil}
use shared_memory_fs.Publication.Projection.{
  Projected, Thread, set_entries, delete_keys, retain_all, apply_place,
}
use shared_memory_fs.Publication.Index.{published, puts}
use shared_memory_fs.Publication.Mirror.{
  projected, view_of, Known, Mirrored, commit_changes-Mirrored,
}
use shared_memory_fs.Publication.Commits.{In, Commits, commit_changes-Commits}

-- The changes of an epoch: no key twice, and the entries with bytes in segments of the pool.
abbrev pub Staged : (ℕ → Bool) → Epoch → Type 0
Staged there [] = Unit
Staged there ((name, changes) ∷ ep) =
    IsMap changes × All (λ p. In there p.1) (puts changes) × Staged there ep

-- Every place that a thread projects shows what the index has.
abbrev pub Mirrors : Cache → Thread → Type 0
Mirrors c t =
    (name : Str) (files : PlaceFiles Projected)
    → JsMap.get t.places name ≡ some files
    → (j : Str) → view_of files j ≡ projected (published c name j)

abbrev pub Knows : Thread → List ℕ → Type 0
Knows t segments = (x : ℕ) → contains segments x ≡ true → JsMap.get t.segments_map x ≡ some x

Knows-All :
    (t : Thread) (segments : List ℕ) (entries : List (Str × Entry))
    → Knows t segments
    → All (λ p. In (contains segments) p.1) entries
    → All (λ p. Known t.segments_map p.1) entries
Knows-All t segments [] k i = tt
Knows-All t segments ((key, disk path stat extras) ∷ entries) k i =
    (tt, Knows-All t segments entries k i.1)
Knows-All t segments ((key, shared slot stat extras) ∷ entries) k i =
    ((λ nz. k slot.segment_id (i.0 nz)), Knows-All t segments entries k i.1)

pub is_nil-eq {ℓ} : {A : Type ℓ} (xs : List A) → is_nil xs ≡ true → xs ≡ []
is_nil-eq [] h = refl
is_nil-eq (x ∷ xs) h = absurd (cc)

set_none :
    (segments : JsMap ℕ ℕ) (files after : PlaceFiles Projected) (n next : ℕ)
    (entries : List (Str × Entry))
    → set_entries segments files n entries ≡ some (after, next)
    → entries ≡ []
    → after ≡ files
unfolding set_entries
set_none segments files after n next [] h e = ground arith
set_none segments files after n next (x ∷ entries) h e = absurd (cc)

delete_none :
    (files : PlaceFiles Projected) (keys : List Str) → keys ≡ [] → delete_keys files keys ≡ files
unfolding delete_keys
delete_none files [] e = refl
delete_none files (key ∷ keys) e = absurd (cc)

-- Applying a message: it runs, and the places mirror an index again.
pub record Applies (c : Cache) (r : Option (Thread × List ℕ)) (t : Thread) : Type 0 where
  pub after : Thread
  pub retained : List ℕ
  pub runs : r ≡ some (after, retained)
  pub mirrors : Mirrors c after
  pub segments : after.segments_map ≡ t.segments_map

module _ (t : Thread) (c : Cache) (next : ℕ) (segments : List ℕ) (name : Str) (changes : Changes)
    (u : IsMap changes) (there : ℕ → Bool) (staged : All (λ p. In there p.1) (puts changes))
    (mirrors : Mirrors c t) where
  abbrev done : Commit
  done = commit_changes (start c next segments) name changes

  commits : Commits there (start c next segments) done name (puts changes)
  commits = commit_changes-Commits there (start c next segments) name changes staged

  module _ (knows : Knows t done.segments) where
    mirrored :
        (files : PlaceFiles Projected)
        → JsMap.get t.places name ≡ some files
        → Mirrored t.segments_map files t.next_object done name
    mirrored files e =
        commit_changes-Mirrored t.segments_map files t.next_object (start c next segments) name
          changes u refl refl (Knows-All t done.segments (puts changes) knows commits.inside)
          (mirrors name files e)

    -- The places that the changes are not about.
    kept :
        (other : Str) (files : PlaceFiles Projected) (j : Str)
        → JsMap.get t.places other ≡ some files
        → (name == other) ≡ false
        → view_of files j ≡ projected (published done.cache other j)
    kept other files j e ne =
        mirrors other files e j ∙ ap projected (sym (commits.others other j ne))

    -- A place without a part in the message.
    pub unchanged-Mirrors : done.entries ≡ [] → done.removals ≡ [] → Mirrors done.cache t
    unchanged-Mirrors e r other files there_is j = elim (Bool-cases (name == other)) [
      | inr ne ↦ kept other files j there_is ne
      | inl same ↦
          let eq : name ≡ other = eq_of_beq name other same in
          let m = mirrored files (rw eq there_is) in
          let gone =
            delete_none m.after done.removals r
            ∙ set_none t.segments_map files m.after t.next_object m.next done.entries m.sets e in
          subst (λ o. view_of files j ≡ projected (published done.cache o j)) eq
            (ap (λ fs. view_of fs j) (sym gone) ∙ m.views j)
    ]

    placed-Mirrors :
        (fs : PlaceFiles Projected)
        → ((j : Str) → view_of fs j ≡ projected (published done.cache name j))
        → (p : Pins) (n : ℕ)
        → Mirrors done.cache
            (record t { pins = p; next_object = n; places = JsMap.set t.places name fs })
    placed-Mirrors fs views p n other files e j = elim (Bool-cases (name == other)) [
      | inr ne ↦ kept other files j (ground (arith, get-set t.places name other fs)) ne
      | inl same ↦
          let found : fs ≡ files = ground (arith, get-set t.places name other fs) in
          subst (λ o. view_of files j ≡ projected (published done.cache o j))
            (eq_of_beq name other same) (ap (λ f. view_of f j) (sym found) ∙ views j)
    ]

    pub apply_place-Applies : Applies done.cache (apply_place t name (part_of done)) t
    unfolding apply_place
    apply_place-Applies = elim (Option-cases (JsMap.get t.places name)) [
      | inl e ↦
          rw (e, apply_place)
            (record {
              after = t;
              retained = [];
              runs = refl;
              mirrors = λ other files h j. elim (Bool-cases (name == other)) [
                | inr ne ↦ kept other files j h ne
                | inl same ↦ absurd (not_there other files (eq_of_beq name other same) e h)
              ];
              segments = refl;
            })
      | inr (files, e) ↦
          let m = mirrored files e in
          rw (e, m.sets, apply_place)
            (record {
              after = record t {
                pins = (retain_all t.pins files done.retiring).0;
                next_object = m.next;
                places = JsMap.set t.places name (delete_keys m.after done.removals);
              };
              retained = (retain_all t.pins files done.retiring).1;
              runs = refl;
              mirrors =
                  placed-Mirrors (delete_keys m.after done.removals) m.views
                    (retain_all t.pins files done.retiring).0 m.next;
              segments = refl;
            })
    ]
      where
        not_there :
            (other : Str) (files : PlaceFiles Projected)
            → name ≡ other
            → JsMap.get t.places name ≡ none
            → JsMap.get t.places other ≡ some files
            → ⊥
        not_there other files e a b = cc
