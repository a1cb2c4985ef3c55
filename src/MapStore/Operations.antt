-- ===== src/MapStore/Operations.antt =====
-- lib/map-store.js: every mutation of a map place keeps its index and its hierarchy.
use shared_memory_fs.Prelude.{
  ℕ, ◌≡◌, Bool, false, ◌&&◌, not, List, [], ◌∷◌, none, ◌==◌, nat_eq, if◌then◌else◌, arith, refl,
  inl, inr, Bool-cases, ◌∙◌, sym, ok, bind-ok, pass-ok, pass-bind-ok, ◌>>=◌, ◌>>◌, pass,
}
use shared_memory_fs.Prelude.JsMap
use shared_memory_fs.Prelude.JsMap.{is_some}
use shared_memory_fs.Prelude.Text.{Str, str, str_eq}
use shared_memory_fs.Routing.Places.{Place, Version, prepared}
use shared_memory_fs.Routing.Canonical.{Canonical}
use shared_memory_fs.Directories.{is_nil}
use shared_memory_fs.Pipeline.Platform.{Platform}
use shared_memory_fs.Pipeline.Prepare.{FileInput}
use shared_memory_fs.Pipeline.Hierarchy.{check_hierarchy, check_exclusive, check_mkdir}
use shared_memory_fs.Pipeline.Subtree.{keys_under, rename_failure}
use shared_memory_fs.MapStore.{
  publish, content, joined, remove, remove_all, failure, input_of, write, append, unlink, mkdir, rm,
  move_file,
}
use shared_memory_fs.MapStore.Placed.{Placed, publish-Placed, remove-Placed}

module _ (os : Platform) where
  remove_all-Placed :
      (p : Place) (keys : List Str) → Placed p.files → Placed (remove_all os p keys).files
  unfolding remove_all
  remove_all-Placed p [] i = i
  remove_all-Placed p (key ∷ keys) i =
      remove_all-Placed (remove os p key).0 keys (remove-Placed os p key i)

  -- What a write has passed: the checks, and what it publishes.
  pub write-published :
      (now : ℕ) (p q : Place) (key : Str) (bytes : List ℕ) (exclusive : Bool)
      → write os now p key bytes exclusive ≡ ok q
      → (check_hierarchy p key (failure os p key (str "open") none) [] ≡ none)
        × ((input : FileInput) × (input_of os p key bytes (str "open") now ≡ ok input)
            × (publish os p key input ≡ ok q))
  write-published now p q key bytes exclusive h =
      let checked =
        pass-ok
          (if exclusive then check_exclusive p key (failure os p key (str "open") none) else none)
          (do
            pass (check_hierarchy p key (failure os p key (str "open") none) [])
            input ← input_of os p key bytes (str "open") now
            publish os p key input)
          q (unfold write in h) in
      pass-bind-ok (check_hierarchy p key (failure os p key (str "open") none) [])
        (input_of os p key bytes (str "open") now) (publish os p key) q checked.1

  pub write-Placed :
      (now : ℕ) (p q : Place) (key : Str) (bytes : List ℕ) (exclusive : Bool)
      → Canonical key
      → Placed p.files
      → write os now p key bytes exclusive ≡ ok q
      → Placed q.files
  write-Placed now p q key bytes exclusive c i h =
      let (free, (input, _, published)) = write-published now p q key bytes exclusive h in
      publish-Placed os p key (failure os p key (str "open") none) input q c i free published

  append-unprepared :
      (now : ℕ) (p : Place) (key : Str) (bytes : List ℕ)
      → prepared os.file_ext p key ≡ false
      → append os now p key bytes ≡ (do
        pass (check_hierarchy p key (failure os p key (str "open") none) [])
        input ← input_of os p key (joined (JsMap.get p.files.entries key) bytes) (str "open") now
        publish os p key input)
  unfolding append
  append-unprepared now p key bytes e = rw e refl

  pub append-published :
      (now : ℕ) (p q : Place) (key : Str) (bytes : List ℕ)
      → append os now p key bytes ≡ ok q
      → (prepared os.file_ext p key ≡ false)
        × (check_hierarchy p key (failure os p key (str "open") none) [] ≡ none)
        × ((input : FileInput) × (input_of os p key
                (joined (JsMap.get p.files.entries key) bytes)
                (str "open")
                now
              ≡ ok input)
            × (publish os p key input ≡ ok q))
  append-published now p q key bytes h = elim (Bool-cases (prepared os.file_ext p key)) [
    | inl e ↦ absurd (unfold append in ground arith)
    | inr e ↦
        let (free, rest) =
          pass-bind-ok (check_hierarchy p key (failure os p key (str "open") none) [])
            (input_of os p key (joined (JsMap.get p.files.entries key) bytes) (str "open") now)
            (publish os p key) q (sym (append-unprepared now p key bytes e) ∙ h) in
        (e, free, rest)
  ]

  pub append-Placed :
      (now : ℕ) (p q : Place) (key : Str) (bytes : List ℕ)
      → Canonical key
      → Placed p.files
      → append os now p key bytes ≡ ok q
      → Placed q.files
  append-Placed now p q key bytes c i h =
      let (_, free, (input, _, published)) = append-published now p q key bytes h in
      publish-Placed os p key (failure os p key (str "open") none) input q c i free published

  pub unlink-Placed :
      (p q : Place) (key : Str) (directory : Bool)
      → Placed p.files
      → unlink os p key directory ≡ ok q
      → Placed q.files
  unlink-Placed p q key directory i h = elim (Bool-cases (not directory && (remove os p key).1)) [
    | inl e ↦
        let same : (remove os p key).0 ≡ q = (unfold unlink in ground arith) in
        rw (← same) (remove-Placed os p key i)
    | inr e ↦ absurd (unfold unlink in ground arith)
  ]

  pub mkdir-Placed :
      (p q : Place) (key : Str) (recursive : Bool)
      → Placed p.files
      → mkdir os p key recursive ≡ ok q
      → Placed q.files
  mkdir-Placed p q key recursive i h =
      let (_, same) =
        pass-ok (check_mkdir p key recursive (failure os p key (str "mkdir") none) []) (ok p) q
          (unfold mkdir in h) in
      let same' : p ≡ q = ground arith in rw (← same') i

  pub rm-Placed :
      (p q : Place) (key : Str) (directory recursive force : Bool)
      → Placed p.files
      → rm os p key directory recursive force ≡ ok q
      → Placed q.files
  rm-Placed p q key directory recursive force i h =
      elim (Bool-cases (not directory && (remove os p key).1)) [
        | inl e ↦
            let same : (remove os p key).0 ≡ q = (unfold rm in ground arith) in
            rw (← same) (remove-Placed os p key i)
        | inr e ↦ elim (Bool-cases (is_nil (keys_under p key))) [
          | inl n ↦ elim (Bool-cases force) [
            | inl f ↦ let same : p ≡ q = (unfold rm in ground arith) in rw (← same) i
            | inr f ↦ absurd (unfold rm in ground arith)
          ]
          | inr n ↦ elim (Bool-cases recursive) [
            | inl f ↦
                let same : remove_all os p (keys_under p key) ≡ q = (unfold rm in ground arith) in
                rw (← same) (remove_all-Placed p (keys_under p key) i)
            | inr f ↦ absurd (unfold rm in ground arith)
          ]
        ]
      ]

  abbrev RemovedFrom : Place → Str → Place → Type 0
  RemovedFrom moved source q = (remove os moved source).0 ≡ q

  move_file-moves :
      (p : Place) (source target : Str) (current : Version)
      → (source == target) ≡ false
      → (do
        pass (check_hierarchy p target (λ code. rename_failure os p source target code none) [])
        input ← input_of os p target (content current) (str "rename") current.mtime_ms
        published ← publish os p target input
        ok (remove os published source).0)
        ≡ move_file os p source target current
  unfolding move_file
  move_file-moves p source target current e = rw e refl

  pub move_file-published :
      (p q : Place) (source target : Str) (current : Version)
      → (source == target) ≡ false
      → move_file os p source target current ≡ ok q
      → (check_hierarchy p target (λ code. rename_failure os p source target code none) [] ≡ none)
        × ((input : FileInput) × (input_of os p target
                (content current)
                (str "rename")
                current.mtime_ms
              ≡ ok input)
            × ((moved : Place) × (publish os p target input ≡ ok moved)
                × RemovedFrom moved source q))
  move_file-published p q source target current e h =
      let (free, (input, given, rest)) =
        pass-bind-ok
          (check_hierarchy p target (λ code. rename_failure os p source target code none) [])
          (input_of os p target (content current) (str "rename") current.mtime_ms)
          (λ input. do published ← publish os p target input; ok (remove os published source).0) q
          (move_file-moves p source target current e ∙ h) in
      let (moved, published, removed) =
        bind-ok (publish os p target input) (λ published. ok (remove os published source).0) q
          rest in
      (free, (input, given, (moved, published, ground arith)))

  pub move_file-Placed :
      (p q : Place) (source target : Str) (current : Version)
      → Canonical target
      → Placed p.files
      → move_file os p source target current ≡ ok q
      → Placed q.files
  move_file-Placed p q source target current c i h = elim (Bool-cases (source == target)) [
    | inl e ↦ let same : p ≡ q = (unfold move_file in ground arith) in rw (← same) i
    | inr e ↦
        let (free, (input, _, (moved, published, removed))) =
          move_file-published p q source target current e h in
        rw (← removed) (
          remove-Placed os moved source (
            publish-Placed os p target (λ code. rename_failure os p source target code none) input
              moved c i free published))
  ]
