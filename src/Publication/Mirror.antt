-- ===== src/Publication/Mirror.antt =====
-- lib/kernel.js, #apply: the projection of one place after its part of the message.
use shared_memory_fs.Prelude.{
  ℕ, ◌+◌, All, false, ◌≡◌, ◌&&◌, ◌||◌, List, [], ◌∷◌, Option, none, some, ◌==◌, nat_eq,
  if◌then◌else◌, arith, refl, inl, inr, Bool-cases, ◌∙◌, eq_of_beq,
}
use shared_memory_fs.Prelude.JsMap
use shared_memory_fs.Prelude.JsMap.{JsMap, IsMap, is_some, get-set, get-delete, has-eq-get}
use shared_memory_fs.Prelude.JsSet.{contains}
use shared_memory_fs.Prelude.Text.{Str, str_eq}
use shared_memory_fs.Directories.{PlaceFiles, set_file, delete_file}
use shared_memory_fs.Cache.Files.{Entry, shared, disk}
use shared_memory_fs.Publication.Projection.{
  FileView, Projected, kept_at, no_data, window, project_entry, set_entries, delete_keys,
}
use shared_memory_fs.Publication.{Changes, Commit, commit_changes}
use shared_memory_fs.Publication.Index.{
  published, changed, published-commit_changes, puts, entries-commit_changes, unpublishes,
  removals-commit_changes,
}

-- The projection of an entry, with the segment of each shared one, and of no entry.
abbrev pub ideal : Entry → FileView
ideal (disk path stat extras) = record { contents = kept_at path; stat = stat; extras = extras }
ideal (shared slot stat extras) = record {
  contents = if slot.length == 0 then no_data else window slot.segment_id slot.offset slot.length;
  stat = stat;
  extras = extras;
}

abbrev pub projected : Option Entry → Option FileView
projected none = none
projected (some e) = some (ideal e)

abbrev pub view_of : PlaceFiles Projected → Str → Option FileView
view_of files key = elim (JsMap.get files.entries key) [ none ↦ none | some f ↦ some f.view ]

-- The thread knows the segment of an entry with bytes.
abbrev pub Known : JsMap ℕ ℕ → Entry → Type 0
Known segments (disk path stat extras) = Unit
Known segments (shared slot stat extras) =
    (slot.length == 0) ≡ false → JsMap.get segments slot.segment_id ≡ some slot.segment_id

project_entry-ideal :
    (segments : JsMap ℕ ℕ) (e : Entry)
    → Known segments e
    → project_entry segments e ≡ some (ideal e)
unfolding project_entry
project_entry-ideal segments (disk path stat extras) k = refl
project_entry-ideal segments (shared slot stat extras) k = elim (Bool-cases (slot.length == 0)) [
  | inl z ↦ rw (z, project_entry) refl
  | inr nz ↦ rw (nz, k nz, project_entry) refl
]

abbrev put_over : Option (Option Entry) → Option FileView → Option FileView
put_over (some (some e)) v = some (ideal e)
put_over (some none) v = v
put_over none v = v

view-set_file :
    (files : PlaceFiles Projected) (key j : Str) (f : Projected)
    → view_of (set_file files key f) j ≡ (if key == j then some f.view else view_of files j)
unfolding set_file
view-set_file files key j f = ground (arith, get-set files.entries key j f)

view-delete_file :
    (files : PlaceFiles Projected) (key j : Str)
    → view_of (delete_file files key).0 j ≡ (if key == j then none else view_of files j)
unfolding delete_file
view-delete_file files key j = ground (
  arith,
  get-delete files.entries key j,
  has-eq-get files.entries key,
  has-eq-get files.entries j,
  eq_of_beq key j,
)

delete_keys-view :
    (files : PlaceFiles Projected) (keys : List Str) (j : Str)
    → view_of (delete_keys files keys) j ≡ (if contains keys j then none else view_of files j)
unfolding delete_keys contains
delete_keys-view files [] j = refl
delete_keys-view files (key ∷ keys) j =
    ground (arith, delete_keys-view (delete_file files key).0 keys j, view-delete_file files key j)

-- The files after the entries of some changes are set.
record Sets (segments : JsMap ℕ ℕ) (files : PlaceFiles Projected) (n : ℕ) (changes : Changes)
    : Type 0 where
  after : PlaceFiles Projected
  next : ℕ
  sets : set_entries segments files n (puts changes) ≡ some (after, next)
  views : (j : Str) → view_of after j ≡ put_over (JsMap.get changes j) (view_of files j)

set_entries-Sets :
    (segments : JsMap ℕ ℕ) (files : PlaceFiles Projected) (n : ℕ) (changes : Changes)
    → IsMap changes
    → All (λ p. Known segments p.1) (puts changes)
    → Sets segments files n changes
unfolding set_entries JsMap.get
set_entries-Sets segments files n [] u k = record {
  after = files;
  next = n;
  sets = refl;
  views = λ j. refl;
}
set_entries-Sets segments files n ((key, none) ∷ changes) u k =
    let t = set_entries-Sets segments files n changes u.1 k in
    record {
      after = t.after;
      next = t.next;
      sets = t.sets;
      views = λ j. t.views j ∙ ground (arith, eq_of_beq key j, u.0);
    }
set_entries-Sets segments files n ((key, some e) ∷ changes) u k =
    let f : Projected = record { object = n; view = ideal e } in
    let t = set_entries-Sets segments (set_file files key f) (n + 1) changes u.1 k.1 in
    record {
      after = t.after;
      next = t.next;
      sets = rw (project_entry-ideal segments e k.0, set_entries) t.sets;
      views = λ j. t.views j ∙ ground (arith, eq_of_beq key j, u.0, view-set_file files key j f);
    }

-- One place: its files mirror its index, before the commit and after.
pub record Mirrored (segments : JsMap ℕ ℕ) (files : PlaceFiles Projected) (n : ℕ) (m : Commit)
    (name : Str) : Type 0 where
  pub after : PlaceFiles Projected
  pub next : ℕ
  pub sets : set_entries segments files n m.entries ≡ some (after, next)
  pub views :
      (j : Str) → view_of (delete_keys after m.removals) j ≡ projected (published m.cache name j)

pub commit_changes-Mirrored :
    (segments : JsMap ℕ ℕ) (files : PlaceFiles Projected) (n : ℕ) (m : Commit) (name : Str)
    (changes : Changes)
    → IsMap changes
    → m.entries ≡ []
    → m.removals ≡ []
    → All (λ p. Known segments p.1) (puts changes)
    → ((j : Str) → view_of files j ≡ projected (published m.cache name j))
    → Mirrored segments files n (commit_changes m name changes) name
commit_changes-Mirrored segments files n m name changes u e r k h =
    let t = set_entries-Sets segments files n changes u k in
    let done = commit_changes m name changes in
    let listed : done.entries ≡ puts changes = entries-commit_changes m name changes ∙ rw e refl in
    record {
      after = t.after;
      next = t.next;
      sets = rw listed t.sets;
      views = λ j.
          delete_keys-view t.after done.removals j
          ∙ rw
              (
                t.views j,
                published-commit_changes m name j changes u,
                removals-commit_changes m name j changes u,
                r,
                h j,
              )
              (by_change j (JsMap.get changes j) (published m.cache name j));
    }
  where
    by_change :
        (j : Str) (change : Option (Option Entry)) (old : Option Entry)
        → (if contains [] j || unpublishes change && is_some old
            then none
            else put_over change (projected old))
          ≡ projected (changed change old)
    by_change j none none = unfold contains in refl
    by_change j none (some o) = unfold contains in refl
    by_change j (some none) none = unfold contains in refl
    by_change j (some none) (some o) = unfold contains in refl
    by_change j (some (some n)) none = unfold contains in refl
    by_change j (some (some n)) (some o) = unfold contains in refl
