-- ===== src/Publication/Index.antt =====
-- lib/kernel.js, #flush: the index after the changes of a place are committed, and what the message
-- lists of them.
use shared_memory_fs.Prelude.{
  Bool, false, true, ◌≡◌, ◌&&◌, ◌||◌, List, [], ◌∷◌, ◌++◌, Option, none, some, ◌==◌, nat_eq,
  if◌then◌else◌, arith, refl, inl, inr, Bool-cases, Option-cases, ◌∙◌, ap, eq_of_beq, beq_refl,
}
use mathlib.Core.List.{append-nil, append_assoc}
use shared_memory_fs.Prelude.JsMap
use shared_memory_fs.Prelude.JsMap.{JsMap, IsMap, is_some, get-set, get-delete, has-eq-get}
use shared_memory_fs.Prelude.JsSet.{contains, contains-append}
use shared_memory_fs.Prelude.Text.{Str, str_eq}
use shared_memory_fs.Cache.Files.{Cache, Entry, entries_of, put, remove}
use shared_memory_fs.Publication.{
  Changes, Commit, commit_entry, retire_old, commit_change, commit_changes,
}

-- The entry of a key in the index of a place.
abbrev pub published : Cache → Str → Str → Option Entry
published c name key = JsMap.get (entries_of c name) key

published-put :
    (c : Cache) (name key j : Str) (e : Entry)
    → published (put c name key e).0 name j ≡ (if key == j then some e else published c name j)
unfolding put entries_of
published-put c name key j e = ground (
  arith,
  get-set c.indexes name name (JsMap.set (entries_of c name) key e),
  get-set (entries_of c name) key j e,
  beq_refl name,
)

published-remove :
    (c : Cache) (name key j : Str)
    → published (remove c name key).0 name j ≡ (if key == j then none else published c name j)
unfolding remove entries_of
published-remove c name key j = elim (Option-cases (JsMap.get c.indexes name)) [
  | inl e ↦ rw (remove, e) (unfold JsMap.get in ground arith)
  | inr (index, e) ↦ elim (Option-cases (JsMap.get index key)) [
    | inl g ↦ rw (remove, e, g) (ground (arith, eq_of_beq key j))
    | inr (old, g) ↦
        rw (remove, e, g)
          (ground (
            arith,
            get-set c.indexes name name (JsMap.delete index key),
            get-delete index key j,
            beq_refl name,
          ))
  ]
]

indexed-published :
    (c : Cache) (name key : Str) (index : JsMap Str Entry)
    → JsMap.get c.indexes name ≡ some index
    → published c name key ≡ JsMap.get index key
unfolding entries_of
indexed-published c name key index e = rw (entries_of, e) refl

remove-published : (c : Cache) (name key : Str) → (remove c name key).1 ≡ published c name key
unfolding entries_of remove
remove-published c name key = elim (Option-cases (JsMap.get c.indexes name)) [
  | inl e ↦ rw (remove, entries_of, e) (unfold JsMap.get in refl)
  | inr (index, e) ↦
      rw (indexed-published c name key index e) (elim (Option-cases (JsMap.get index key)) [
        | inl g ↦ rw (remove, e, g) refl
        | inr (old, g) ↦ rw (remove, e, g) refl
      ])
]

-- The entry after a change: staged, or as before.
abbrev pub changed : Option (Option Entry) → Option Entry → Option Entry
changed none old = old
changed (some change) old = change

-- Retiring the old version touches nothing else.
pub retire_old-rest :
    (m : Commit) (name key : Str) (old : Option Entry)
    → ((retire_old m name key old).cache ≡ m.cache)
      × ((retire_old m name key old).entries ≡ m.entries)
      × ((retire_old m name key old).removals ≡ m.removals)
unfolding retire_old
retire_old-rest m name key none = (refl, refl, refl)
retire_old-rest m name key (some old) = (ground arith, ground arith, ground arith)

published-commit_change :
    (m : Commit) (name key j : Str) (change : Option Entry)
    → published (commit_change m name key change).cache name j
      ≡ (if key == j then change else published m.cache name j)
unfolding commit_change commit_entry
published-commit_change m name key j none =
    let same =
      (retire_old-rest (commit_entry m name key none).0 name key
        (commit_entry m name key none).1).0 in
    ap (λ c. published c name j) same ∙ published-remove m.cache name key j
published-commit_change m name key j (some e) =
    let same =
      (retire_old-rest (commit_entry m name key (some e)).0 name key
        (commit_entry m name key (some e)).1).0 in
    ap (λ c. published c name j) same ∙ published-put m.cache name key j e

pub published-commit_changes :
    (m : Commit) (name j : Str) (changes : Changes)
    → IsMap changes
    → published (commit_changes m name changes).cache name j
      ≡ changed (JsMap.get changes j) (published m.cache name j)
unfolding commit_changes JsMap.get
published-commit_changes m name j [] u = refl
published-commit_changes m name j ((key, change) ∷ changes) u = elim (Bool-cases (key == j)) [
  | inl e ↦
      let unique : JsMap.get changes j ≡ none = rw (← eq_of_beq key j e) u.0 in
      published-commit_changes (commit_change m name key change) name j changes u.1
      ∙ rw (unique, e) (published-commit_change m name key j change ∙ rw e refl)
  | inr e ↦
      published-commit_changes (commit_change m name key change) name j changes u.1
      ∙ rw (published-commit_change m name key j change, e) refl
]

-- The entries that the changes publish.
abbrev pub puts : Changes → List (Str × Entry)
puts [] = []
puts ((key, none) ∷ changes) = puts changes
puts ((key, some e) ∷ changes) = (key, e) ∷ puts changes

pub entries-commit_changes :
    (m : Commit) (name : Str) (changes : Changes)
    → (commit_changes m name changes).entries ≡ m.entries ++ puts changes
unfolding commit_changes commit_change commit_entry
entries-commit_changes m name [] = rw append-nil refl
entries-commit_changes m name ((key, none) ∷ changes) =
    let n = commit_entry m name key none in
    entries-commit_changes (commit_change m name key none) name changes
    ∙ ap (λ es. es ++ puts changes) ((retire_old-rest n.0 name key n.1).1)
entries-commit_changes m name ((key, some e) ∷ changes) =
    let n = commit_entry m name key (some e) in
    entries-commit_changes (commit_change m name key (some e)) name changes
    ∙ (ap (λ es. es ++ puts changes) ((retire_old-rest n.0 name key n.1).1)
        ∙ append_assoc m.entries ((key, e) ∷ []) (puts changes))

abbrev pub unpublishes : Option (Option Entry) → Bool
unpublishes none = false
unpublishes (some none) = true
unpublishes (some (some e)) = false

removals-commit_change :
    (m : Commit) (name key j : Str) (change : Option Entry)
    → contains (commit_change m name key change).removals j ≡ (
        contains m.removals j
        || (unpublishes (some change) && (key == j && is_some (published m.cache name j))))
unfolding commit_change commit_entry
removals-commit_change m name key j none =
    let n = commit_entry m name key none in
    ap (λ ks. contains ks j) ((retire_old-rest n.0 name key n.1).2)
    ∙ (ground (
      arith,
      remove-published m.cache name key,
      contains-append m.removals (key ∷ []) j,
      contains_one,
      eq_of_beq key j,
    ))
  where
    contains_one : contains (key ∷ []) j ≡ (key == j)
    contains_one = unfold contains in ground arith
removals-commit_change m name key j (some e) =
    let n = commit_entry m name key (some e) in
    ap (λ ks. contains ks j) ((retire_old-rest n.0 name key n.1).2) ∙ ground arith

pub removals-commit_changes :
    (m : Commit) (name j : Str) (changes : Changes)
    → IsMap changes
    → contains (commit_changes m name changes).removals j ≡ (
        contains m.removals j
        || unpublishes (JsMap.get changes j) && is_some (published m.cache name j))
unfolding commit_changes JsMap.get
removals-commit_changes m name j [] u = ground arith
removals-commit_changes m name j ((key, change) ∷ changes) u = elim (Bool-cases (key == j)) [
  | inl e ↦
      let unique : JsMap.get changes j ≡ none = rw (← eq_of_beq key j e) u.0 in
      removals-commit_changes (commit_change m name key change) name j changes u.1
      ∙ rw (unique, e) (ground (arith, removals-commit_change m name key j change))
  | inr e ↦
      removals-commit_changes (commit_change m name key change) name j changes u.1
      ∙ rw
          (
            published-commit_change m name key j change,
            removals-commit_change m name key j change,
            e,
          )
          (ground arith)
]
