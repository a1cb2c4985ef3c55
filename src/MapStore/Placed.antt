-- ===== src/MapStore/Placed.antt =====
-- lib/map-store.js: what a publication and a removal do to the sources of a place, and to its hierarchy.
use shared_memory_fs.Prelude.{
  ℕ, ◌≡◌, false, true, List, [], ◌∷◌, ◌++◌, none, ◌==◌, nat_eq, if◌then◌else◌, arith, refl, inl,
  inr, ◌⊎◌, Bool-cases, All, All-map, ◌∙◌, eq_of_beq, ok,
}
use shared_memory_fs.Prelude.JsMap
use shared_memory_fs.Prelude.JsMap.{JsMap, has-eq-get, is_some}
use shared_memory_fs.Prelude.Text.{Str, str_eq}
use shared_memory_fs.Errors.{Errno}
use shared_memory_fs.Routing.Keys.{slash, starts_with, is_companion_key}
use shared_memory_fs.Routing.Places.{Place, Version, companions, is_directory}
use shared_memory_fs.Routing.Canonical.{Canonical, dir_of-Canonical}
use shared_memory_fs.Directories.{PlaceFiles, set_file, delete_file, has_directory}
use shared_memory_fs.Directories.Below.{is_below, has_directory-SourceBelow, Rooted-nil}
use shared_memory_fs.Directories.Index.{Indexed, set_file-Indexed}
use shared_memory_fs.Directories.Index.Removal.{delete_file-Indexed}
use shared_memory_fs.Pipeline.Platform.{Platform}
use shared_memory_fs.Pipeline.Prepare.{FileInput}
use shared_memory_fs.Pipeline.Bytecode.{bytecode_for, bytecode_domains}
use shared_memory_fs.Pipeline.Hierarchy.{has_file, check_hierarchy}
use shared_memory_fs.Pipeline.Ancestors.{file_above-Above}
use shared_memory_fs.MapStore.{
  delete_all, set_all, code_entries, script_fails, version_of, publish, remove,
}
use shared_memory_fs.MapStore.Keeping.{
  OfCompanion, Listable, Alike, file_at-set_file, file_at-delete_file, delete_all-Alike,
  delete_all-Indexed, set_all-Alike, set_all-Indexed, companions-Companion, code_entries-Companion,
}

-- A place: its index is kept, and no source lies below another.
pub record Placed (f : PlaceFiles Version) : Type 0 where
  pub indexed : Indexed f
  pub flat :
      (k j : Str)
      → JsMap.has f.entries k ≡ true
      → is_companion_key k ≡ false
      → JsMap.has f.entries j ≡ true
      → is_companion_key j ≡ false
      → is_below k j ≡ false

pub starts_with-longer : (s t : Str) (c : ℕ) → starts_with s (s ++ (c ∷ t)) ≡ false
unfolding starts_with
starts_with-longer [] t c = refl
starts_with-longer (d ∷ s) t c = ground (arith, starts_with-longer s t c)

-- A canonical key is a directory if the index has it.
pub is_directory-Canonical :
    (p : Place) (key : Str) → Canonical key → is_directory p key ≡ has_directory p.files key
unfolding is_directory JsMap.has
is_directory-Canonical p key c =
    let (s, e) = c.rooted in rw (is_directory, dir_of-Canonical key c, e) refl

abbrev pub IfFree : Place → Str → Str → Type 0
IfFree p key j = (is_below key j ≡ false) × ((is_below j key ≡ false) ⊎ (has_file p key ≡ true))

-- The checks that let a key be created: it lies below no source, and none lies below it that is new.
pub check_hierarchy-free :
    {E : Type 0} (p : Place) (key : Str) (fail : Errno → E) (j : Str)
    → Canonical key
    → Indexed p.files
    → check_hierarchy p key fail [] ≡ none
    → JsMap.has p.files.entries j ≡ true
    → is_companion_key j ≡ false
    → IfFree p key j
check_hierarchy-free p key fail j c i h t s = (
  apart,
  elim (Bool-cases (has_file p key)) [
    | inl there ↦ inr there
    | inr new ↦ elim (Bool-cases (is_below j key)) [
      | inl lower ↦
          let found = (has_directory-SourceBelow p.files key i).1 (j, t, s, lower) in
          absurd (unfold check_hierarchy in ground (arith, is_directory-Canonical p key c))
      | inr none_lower ↦ inl none_lower
    ]
  ],
)
  where
    apart : is_below key j ≡ false
    apart = elim (Bool-cases (is_below key j)) [
      | inl b ↦
          let found =
            (file_above-Above p [] key c.rooted).1
              (j, Rooted-nil j (i.rooted j t s), b, ground arith) in
          absurd (unfold check_hierarchy in ground arith)
      | inr b ↦ b
    ]

-- The sources after a creation.
free-Placed :
    (p : Place) (key : Str) (f : PlaceFiles Version)
    → ((j : Str) → JsMap.has p.files.entries j ≡ true → is_companion_key j ≡ false → IfFree p key j)
    → is_below key key ≡ false
    → Placed p.files
    → Indexed f
    → ((j : Str)
        → is_companion_key j ≡ false
        → JsMap.has f.entries j ≡ true
        → (key ≡ j) ⊎ (JsMap.has p.files.entries j ≡ true))
    → Placed f
free-Placed p key f free self i x g = record { indexed = x; flat = flat }
  where
    above_key :
        (k : Str)
        → JsMap.has p.files.entries k ≡ true
        → is_companion_key k ≡ false
        → is_companion_key key ≡ false
        → is_below k key ≡ false
    above_key k old b d = elim ((free k old b).1) [
      | inl n ↦ n
      | inr there ↦ i.flat k key old b there d
    ]

    flat :
        (k j : Str)
        → JsMap.has f.entries k ≡ true
        → is_companion_key k ≡ false
        → JsMap.has f.entries j ≡ true
        → is_companion_key j ≡ false
        → is_below k j ≡ false
    flat k j a b c d = elim (g k b a) [
      | inl is_k ↦ elim (g j d c) [
        | inl is_j ↦ rw (← is_k, ← is_j) self
        | inr old ↦ rw (← is_k) ((free j old d).0)
      ]
      | inr old_k ↦ elim (g j d c) [
        | inl is_j ↦ rw (← is_j) (above_key k old_k b (rw is_j d))
        | inr old ↦ i.flat k j old_k b old d
      ]
    ]

has-Alike :
    (f g : PlaceFiles Version)
    → Alike f g
    → (j : Str) → is_companion_key j ≡ false
    → JsMap.has f.entries j ≡ true
    → JsMap.has g.entries j ≡ true
has-Alike f g a j s h = ground (arith, a j s, has-eq-get f.entries j, has-eq-get g.entries j)

-- Fewer sources are as flat.
pub fewer-Placed :
    (f g : PlaceFiles Version)
    → Placed f
    → Indexed g
    → ((j : Str)
        → is_companion_key j ≡ false
        → JsMap.has g.entries j ≡ true
        → JsMap.has f.entries j ≡ true)
    → Placed g
fewer-Placed f g i x less = record {
  indexed = x;
  flat = λ k j a b c d. i.flat k j (less k b a) b (less j d c) d;
}

module _ (os : Platform) (p : Place) (key : Str) where
  abbrev codes_of : FileInput → List (Str × Version)
  codes_of input =
      code_entries input.mtime_ms (bytecode_for os p key input.bytes input.script_options)

  abbrev published : FileInput → PlaceFiles Version
  published input =
      set_all (delete_all (set_file p.files key (version_of input)) (companions p key))
        (codes_of input)

  publish-files :
      (input : FileInput) (q : Place)
      → publish os p key input ≡ ok q
      → record p { files = published input } ≡ q
  publish-files input q h =
      elim (Bool-cases (script_fails (bytecode_for os p key input.bytes input.script_options))) [
        | inl e ↦ absurd (unfold publish in ground arith)
        | inr e ↦ unfold publish in ground arith
      ]

  codes_of-Companion : (input : FileInput) → All OfCompanion (codes_of input)
  codes_of-Companion input =
      unfold bytecode_for in
      code_entries-Companion os p key (os.decode input.bytes) input.script_options input.mtime_ms
        (bytecode_domains os p key)

  -- The sources after a publication.
  pub publish-Alike :
      (input : FileInput) (q : Place)
      → publish os p key input ≡ ok q
      → Alike q.files (set_file p.files key (version_of input))
  publish-Alike input q h j s =
      let file = set_file p.files key (version_of input) in
      rw (← publish-files input q h) (
        set_all-Alike (delete_all file (companions p key)) (codes_of input)
          (codes_of-Companion input) j s
        ∙ delete_all-Alike file (companions p key) (companions-Companion p key) j s)

  publish-Indexed :
      (input : FileInput) (q : Place)
      → Canonical key
      → Indexed p.files
      → publish os p key input ≡ ok q
      → Indexed q.files
  publish-Indexed input q c i h =
      let file = set_file p.files key (version_of input) in
      rw (← publish-files input q h) (
        set_all-Indexed (delete_all file (companions p key)) (codes_of input)
          (All-map OfCompanion Listable (codes_of input) (λ e c. inl c) (codes_of-Companion input))
          (delete_all-Indexed file (companions p key)
            (set_file-Indexed p.files key (version_of input) i (inr c.rooted))))

  pub publish-Placed :
      {E : Type 0} (fail : Errno → E) (input : FileInput) (q : Place)
      → Canonical key
      → Placed p.files
      → check_hierarchy p key fail [] ≡ none
      → publish os p key input ≡ ok q
      → Placed q.files
  publish-Placed fail input q c i h t =
      free-Placed p key q.files (λ j. check_hierarchy-free p key fail j c i.indexed h)
        (starts_with-longer key [] slash) i (publish-Indexed input q c i.indexed t)
        (λ j s there. old_or_new j (
          has-Alike q.files (set_file p.files key (version_of input)) (publish-Alike input q t) j s
            there))
    where
      old_or_new :
          (j : Str)
          → JsMap.has (set_file p.files key (version_of input)).entries j ≡ true
          → (key ≡ j) ⊎ (JsMap.has p.files.entries j ≡ true)
      old_or_new j there = elim (Bool-cases (key == j)) [
        | inl same ↦ inl (eq_of_beq key j same)
        | inr other ↦ inr (
            ground (
              arith,
              file_at-set_file p.files key j (version_of input),
              has-eq-get p.files.entries j,
              has-eq-get (set_file p.files key (version_of input)).entries j,
            ))
      ]

  remove-files : (remove os p key).0.files ≡ (
      if has_file p key then delete_all (delete_file p.files key).0 (companions p key) else p.files)
  unfolding remove delete_file
  remove-files = ground arith

  pub remove-Alike : Alike (remove os p key).0.files (delete_file p.files key).0
  remove-Alike j s = elim (Bool-cases (has_file p key)) [
    | inl there ↦
        rw (remove-files, there)
          (delete_all-Alike (delete_file p.files key).0 (companions p key)
            (companions-Companion p key) j s)
    | inr missing ↦ rw (remove-files, missing) (unfold delete_file in ground arith)
  ]

  pub remove-Placed : Placed p.files → Placed (remove os p key).0.files
  remove-Placed i = fewer-Placed p.files (remove os p key).0.files i indexed (λ j s there.
      still j
        (has-Alike (remove os p key).0.files (delete_file p.files key).0 remove-Alike j s there))
    where
      indexed : Indexed (remove os p key).0.files
      indexed = elim (Bool-cases (has_file p key)) [
        | inl there ↦
            rw (remove-files, there)
              (delete_all-Indexed (delete_file p.files key).0 (companions p key)
                (delete_file-Indexed p.files key i.indexed))
        | inr missing ↦ rw (remove-files, missing) i.indexed
      ]

      still :
          (j : Str)
          → JsMap.has (delete_file p.files key).0.entries j ≡ true
          → JsMap.has p.files.entries j ≡ true
      still j h = ground (
        arith,
        file_at-delete_file p.files key j,
        has-eq-get p.files.entries j,
        has-eq-get (delete_file p.files key).0.entries j,
      )
