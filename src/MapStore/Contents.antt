-- ===== src/MapStore/Contents.antt =====
-- lib/map-store.js: what the mutations do to the files of a place, as to a table of keys, and which of
-- them are refused.
use shared_memory_fs.Prelude.{
  ℕ, ◌≡◌, Bool, false, true, ◌&&◌, not, List, [], Option, none, some, ◌==◌, nat_eq, if◌then◌else◌,
  arith, refl, inl, inr, ◌⊎◌, Bool-cases, ◌∙◌, sym, subst, length, ok, err, ok-inj,
}
use shared_memory_fs.Prelude.JsMap
use shared_memory_fs.Prelude.Text.{Str, str, str_eq}
use shared_memory_fs.Errors.{Errno, Failure, enotdir, eisdir}
use shared_memory_fs.Routing.Keys.{is_companion_key}
use shared_memory_fs.Routing.Places.{Place, Version, prepared}
use shared_memory_fs.Routing.Canonical.{Canonical}
use shared_memory_fs.Directories.{has_directory, delete_file}
use shared_memory_fs.Directories.Index.{Indexed}
use shared_memory_fs.Directories.Below.{SourceBelow, has_directory-SourceBelow}
use shared_memory_fs.Pipeline.Platform.{Platform}
use shared_memory_fs.Pipeline.Prepare.{FileInput, plain}
use shared_memory_fs.Pipeline.Bytecode.{bytecode_for}
use shared_memory_fs.Pipeline.Hierarchy.{has_file, file_above, check_hierarchy}
use shared_memory_fs.Pipeline.Ancestors.{Above, file_above-Above}
use shared_memory_fs.MapStore.{
  version_of, content, joined, script_fails, publish, remove, failure, input_of, write, append,
  unlink, move_file, rename,
}
use shared_memory_fs.MapStore.Keeping.{file_at, file_at-set_file, file_at-delete_file}
use shared_memory_fs.MapStore.Placed.{publish-Alike, remove-Alike, is_directory-Canonical}
use shared_memory_fs.MapStore.Operations.{write-published, append-published, move_file-published}

-- The sources of `q` are those of `p`, but `key` has `version`.
abbrev pub Updates : Place → Str → Option Version → Place → Type 0
Updates p key version q =
    (j : Str)
    → is_companion_key j ≡ false
    → file_at q.files j ≡ (if key == j then version else file_at p.files j)

module _ (os : Platform) where
  publish-Updates :
      (p q : Place) (key : Str) (input : FileInput)
      → publish os p key input ≡ ok q
      → Updates p key (some (version_of input)) q
  publish-Updates p q key input h j s =
      publish-Alike os p key input q h j s ∙ file_at-set_file p.files key j (version_of input)

  remove-Updates : (p : Place) (key : Str) → Updates p key none (remove os p key).0
  remove-Updates p key j s = remove-Alike os p key j s ∙ file_at-delete_file p.files key j

  -- A write that succeeds puts the prepared input at its key and leaves every other source as it
  -- was.
  pub write-Updates :
      (now : ℕ) (p q : Place) (key : Str) (bytes : List ℕ) (exclusive : Bool)
      → write os now p key bytes exclusive ≡ ok q
      → (input : FileInput) × (input_of os p key bytes (str "open") now ≡ ok input)
        × Updates p key (some (version_of input)) q
  write-Updates now p q key bytes exclusive h =
      let (free, (input, given, published)) = write-published os now p q key bytes exclusive h in
      (input, given, publish-Updates p q key input published)

  input_of-plain :
      (p : Place) (key : Str) (raw : List ℕ) (syscall : Str) (now : ℕ) (input : FileInput)
      → prepared os.file_ext p key ≡ false
      → input_of os p key raw syscall now ≡ ok input
      → plain raw (length raw) now ≡ input
  input_of-plain p key raw syscall now input e h =
      ok-inj {E = Failure} (plain raw (length raw) now) input (unfold input_of in ground arith)

  -- An append that succeeds puts the old bytes, if any, with the new ones after them at its key,
  -- with the time of the append, and leaves every other source as it was.
  pub append-Updates :
      (now : ℕ) (p q : Place) (key : Str) (bytes : List ℕ)
      → append os now p key bytes ≡ ok q
      → Updates p key
          (some (
            version_of (
              plain
                (joined (file_at p.files key) bytes)
                (length (joined (file_at p.files key) bytes))
                now)))
          q
  append-Updates now p q key bytes h =
      let (raw, free, (input, given, published)) = append-published os now p q key bytes h in
      subst (λ input. Updates p key (some (version_of input)) q)
        (sym (
          input_of-plain p key (joined (file_at p.files key) bytes) (str "open") now input raw
            given))
        (publish-Updates p q key input published)

  -- An unlink that succeeds was not of a name with a trailing separator, found the file, and
  -- removes this source alone.
  pub unlink-Updates :
      (p q : Place) (key : Str) (directory : Bool)
      → unlink os p key directory ≡ ok q
      → (directory ≡ false) × (has_file p key ≡ true) × Updates p key none q
  unlink-Updates p q key directory h = elim (Bool-cases (not directory && (remove os p key).1)) [
    | inr e ↦ absurd (unfold unlink in ground arith)
    | inl e ↦
        let same = ok-inj {E = Failure} (remove os p key).0 q (unfold unlink in ground arith) in
        (
          ground arith,
          unfold remove delete_file in ground arith,
          rw (← same) (remove-Updates p key),
        )
  ]

  -- What a rename that succeeds on a file comes to.
  move_file-Updates :
      (p q : Place) (source target : Str) (current : Version)
      → (source == target) ≡ false
      → prepared os.file_ext p target ≡ false
      → move_file os p source target current ≡ ok q
      → (j : Str) → is_companion_key j ≡ false
      → file_at q.files j ≡ (
          if source == j
          then none
          else if target == j
          then some
              (version_of (plain (content current) (length (content current)) current.mtime_ms))
          else file_at p.files j)
  move_file-Updates p q source target current e raw h j s =
      let (free, (input, given, (moved, published, removed))) =
        move_file-published os p q source target current e h in
      let same =
        input_of-plain p target (content current) (str "rename") current.mtime_ms input raw given in
      let moved' =
        subst (λ input. Updates p target (some (version_of input)) moved) (sym same)
          (publish-Updates p moved target input published) in
      rw (← removed) (remove-Updates moved source j s ∙ ground (arith, moved' j s))

  rename-moved :
      (p q : Place) (source target : Str) (current : Version) (directory : Bool)
      → JsMap.get p.files.entries source ≡ some current
      → rename os p source target directory ≡ ok q
      → move_file os p source target current ≡ ok q
  unfolding rename
  rename-moved p q source target current directory e h = ground arith

  -- The rename of a file to another name without a preparer, where it succeeds, leaves nothing at
  -- the old key, the bytes and the time of the file at the new one, and every other source as it
  -- was.
  pub rename-Updates :
      (p q : Place) (source target : Str) (current : Version) (directory : Bool)
      → JsMap.get p.files.entries source ≡ some current
      → (source == target) ≡ false
      → prepared os.file_ext p target ≡ false
      → rename os p source target directory ≡ ok q
      → (j : Str) → is_companion_key j ≡ false
      → file_at q.files j ≡ (
          if source == j
          then none
          else if target == j
          then some
              (version_of (plain (content current) (length (content current)) current.mtime_ms))
          else file_at p.files j)
  rename-Updates p q source target current directory there e raw h =
      move_file-Updates p q source target current e raw
        (rename-moved p q source target current directory there h)

  module _ (now : ℕ) (p : Place) (key : Str) (bytes : List ℕ) (c : Canonical key)
      (i : Indexed p.files) where
    abbrev fail_with : Errno → Failure
    fail_with = failure os p key (str "open") none

    -- What the check answers, by what is above and below the key.
    check_hierarchy-cases :
        (Above p key [] × (check_hierarchy p key fail_with [] ≡ some (fail_with enotdir)))
        ⊎ (((has_file p key ≡ false)
              × SourceBelow p.files key
              × (check_hierarchy p key fail_with [] ≡ some (fail_with eisdir)))
            ⊎ ((Above p key [] → ⊥)
                × ((has_file p key ≡ true) ⊎ (SourceBelow p.files key → ⊥))
                × (check_hierarchy p key fail_with [] ≡ none)))
    unfolding check_hierarchy
    check_hierarchy-cases = elim (Bool-cases (file_above p key [])) [
      | inl a ↦ inl ((file_above-Above p [] key c.rooted).0 a, ground arith)
      | inr a ↦
          let free : Above p key [] → ⊥ =
            λ x. absurd (ground (arith, (file_above-Above p [] key c.rooted).1 x)) in
          elim (Bool-cases (has_file p key)) [
            | inl f ↦ inr (inr (free, inl f, ground arith))
            | inr f ↦ elim (Bool-cases (has_directory p.files key)) [
              | inl d ↦ inr (
                  inl (
                    f,
                    (has_directory-SourceBelow p.files key i).0 d,
                    ground (arith, is_directory-Canonical p key c),
                  ))
              | inr d ↦ inr (
                  inr (
                    free,
                    inr (λ x.
                        absurd (ground (arith, (has_directory-SourceBelow p.files key i).1 x))),
                    ground (arith, is_directory-Canonical p key c),
                  ))
            ]
          ]
    ]

    write-refused :
        (e : Failure)
        → check_hierarchy p key fail_with [] ≡ some e
        → write os now p key bytes false ≡ err e
    unfolding write
    write-refused e h = rw (write, h) refl

    write-passed :
        check_hierarchy p key fail_with [] ≡ none
        → prepared os.file_ext p key ≡ false
        → script_fails (bytecode_for os p key bytes none) ≡ false
        → (q : Place) × (write os now p key bytes false ≡ ok q)
    unfolding write
    write-passed h raw compiles = rw (write, h, input_of, raw, publish, compiles) (_, refl)

    -- A write of a canonical key, not exclusive, without a preparer and with a script that
    -- compiles, on a place with its index: it is refused with ENOTDIR under a file above the key,
    -- with EISDIR where no file but a directory is there, and otherwise it succeeds.
    pub write-answer :
        prepared os.file_ext p key ≡ false
        → script_fails (bytecode_for os p key bytes none) ≡ false
        → (Above p key [] × (write os now p key bytes false ≡ err (fail_with enotdir)))
          ⊎ (((has_file p key ≡ false)
                × SourceBelow p.files key
                × (write os now p key bytes false ≡ err (fail_with eisdir)))
              ⊎ ((Above p key [] → ⊥)
                  × ((has_file p key ≡ true) ⊎ (SourceBelow p.files key → ⊥))
                  × ((q : Place) × (write os now p key bytes false ≡ ok q))))
    write-answer raw compiles = elim check_hierarchy-cases [
      | inl (a, h) ↦ inl (a, write-refused (fail_with enotdir) h)
      | inr (inl (f, b, h)) ↦ inr (inl (f, b, write-refused (fail_with eisdir) h))
      | inr (inr (a, b, h)) ↦ inr (inr (a, b, write-passed h raw compiles))
    ]
