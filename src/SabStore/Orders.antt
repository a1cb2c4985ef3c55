-- ===== src/SabStore/Orders.antt =====
-- lib/sab-store.js: every order of turns, commits and ends of publications.
use shared_memory_fs.Prelude.{
  ℕ, Bool, false, true, ◌≡◌, ◌&&◌, not, List, [], Option, some, none, arith, inl, inr, ◌⊎◌,
  Bool-cases, subst, sym, All, ok, ok-inj, bind-ok,
}
use shared_memory_fs.Prelude.JsMap
use shared_memory_fs.Prelude.JsSet.{contains}
use shared_memory_fs.Prelude.Text.{Str, str_eq}
use shared_memory_fs.Errors.{Failure}
use shared_memory_fs.Routing.Places.{Version, prepared, is_directory}
use shared_memory_fs.Routing.Canonical.{Canonical}
use shared_memory_fs.Directories.{clear}
use shared_memory_fs.Directories.Below.{is_below}
use shared_memory_fs.Pipeline.Platform.{Platform}
use shared_memory_fs.Pipeline.Hierarchy.{has_file}
use shared_memory_fs.Pipeline.Subtree.{subtree_moves, rename_failure}
use shared_memory_fs.MapStore.Keeping.{OfCompanion}
use shared_memory_fs.MapStore.Placed.{Placed}
use shared_memory_fs.MapStore.Steps.{clear-Placed}
use shared_memory_fs.SabStore.{
  SabStore, Turn, finished, write, append, unlink, mkdir, rm, bytes_at, rename_tree, rename, commit,
  settle,
}
use shared_memory_fs.SabStore.Turns.{Primary, Sound}
use shared_memory_fs.SabStore.Steps.{
  state_of, create-Sound, write-Sound, append-Sound, unlink-Sound, mkdir-Sound, rm-Sound,
  rename_tree-Sound, commit-Sound, settle-Sound,
}

module _ (os : Platform) where
  rename-Sound :
      (s : SabStore) (source target : Str) (directory locked : Bool) (t : Turn)
      → Canonical source
      → Canonical target
      → (locked ≡ true) ⊎ (s.creating ≡ [])
      → Sound s
      → rename os s source target directory locked ≡ ok t
      → Sound (state_of t)
  rename-Sound s source target directory locked t c d barrier i h =
      elim (Bool-cases
        (not (has_file s.place source) && (not locked && is_directory s.place source))) [
          | inl tree ↦
              let idle : s.creating ≡ [] = elim barrier [
                | inl l ↦ absurd (ground arith)
                | inr e ↦ e
              ] in
              let (moves, planned, same) =
                bind-ok (subtree_moves os s.place source target s.creating)
                  (λ moves. ok (finished (rename_tree s moves))) t
                  (unfold rename in ground arith) in
              rw (← ok-inj {E = Failure} (finished (rename_tree s moves)) t same) (
                rename_tree-Sound os s source target moves c d idle i (
                  subst (λ keys. subtree_moves os s.place source target keys ≡ ok moves) idle
                    planned))
          | inr file ↦ elim (Bool-cases (has_file s.place source && directory)) [
            | inl both ↦ absurd (unfold rename in ground arith)
            | inr apart ↦ elim (Bool-cases (prepared os.file_ext s.place source)) [
              | inl p ↦ absurd (unfold rename in ground arith)
              | inr p ↦ elim (Bool-cases (has_file s.place source)) [
                | inr f ↦ absurd (unfold rename in ground arith)
                | inl f ↦
                    create-Sound os s target
                      (λ code. rename_failure os s.place source target code none)
                      (bytes_at (JsMap.get s.place.files.entries source)) (some source) t d i
                      (unfold rename in ground arith)
              ]
            ]
          ]
        ]

  -- A turn of a mutation, the commit of a publication that has begun, or its end, committed or not. A
  -- rename that is not queued as a file's runs under the place barrier, when no publication is open.
  pub data Step (s : SabStore) : SabStore → Type 0 where
    writes :
        (key : Str) (raw : List ℕ) (exclusive : Bool) (t : Turn)
        → Canonical key
        → write os s key raw exclusive ≡ ok t
        → Step s (state_of t)
    appends :
        (key : Str) (chunk : List ℕ) (t : Turn)
        → Canonical key
        → append os s key chunk ≡ ok t
        → Step s (state_of t)
    unlinks :
        (key : Str) (directory : Bool) (t : Turn)
        → unlink os s key directory ≡ ok t
        → Step s (state_of t)
    makes :
        (key : Str) (recursive : Bool) (t : Turn)
        → mkdir os s key recursive ≡ ok t
        → Step s (state_of t)
    removes :
        (key : Str) (directory recursive force : Bool) (t : Turn)
        → rm os s key directory recursive force ≡ ok t
        → Step s (state_of t)
    renames :
        (source target : Str) (directory locked : Bool) (t : Turn)
        → Canonical source
        → Canonical target
        → (locked ≡ true) ⊎ (s.creating ≡ [])
        → rename os s source target directory locked ≡ ok t
        → Step s (state_of t)
    commits :
        (key : Str) (version : Version) (stored : List (Str × Version)) (dropped : List Str)
        (source : Option Str)
        → contains s.creating key ≡ true
        → All OfCompanion stored
        → Step s (commit s key version stored dropped source)
    settles : (key : Str) → Step s (settle s key)

  pub data Reachable (first : SabStore) : SabStore → Type 0 where
    start : Reachable first first
    step : {s t : SabStore} → Reachable first s → Step s t → Reachable first t

  Step-Sound : (s t : SabStore) → Sound s → Step s t → Sound t
  Step-Sound s _ i (writes key raw exclusive t c h) = write-Sound os s key raw exclusive t c i h
  Step-Sound s _ i (appends key chunk t c h) = append-Sound os s key chunk t c i h
  Step-Sound s _ i (unlinks key directory t h) = unlink-Sound os s key directory t i h
  Step-Sound s _ i (makes key recursive t h) = mkdir-Sound os s key recursive t i h
  Step-Sound s _ i (removes key directory recursive force t h) =
      rm-Sound os s key directory recursive force t i h
  Step-Sound s _ i (renames source target directory locked t c d b h) =
      rename-Sound s source target directory locked t c d b i h
  Step-Sound s _ i (commits key version stored dropped source h a) =
      commit-Sound os s key version stored dropped source h a i
  Step-Sound s _ i (settles key) = settle-Sound os s key i

  empty-Sound : (s : SabStore) → s.place.files ≡ clear s.place.files → s.creating ≡ [] → Sound s
  empty-Sound s e n =
      let placed : Placed s.place.files = subst (λ f. Placed f) (sym e) (clear-Placed s.place) in
      record {
        indexed = placed.indexed;
        canonical = λ k h. absurd (none_open k h);
        flat = apart placed;
      }
    where
      none_open : (k : Str) → contains s.creating k ≡ true → ⊥
      none_open k h =
          let empty : contains [] k ≡ true = subst (λ ks. contains ks k ≡ true) n h in
          unfold contains in ground arith

      apart : Placed s.place.files → (k j : Str) → Primary s k → Primary s j → is_below k j ≡ false
      apart placed k j (inl (a, b)) (inl (c, d)) = placed.flat k j a b c d
      apart placed k j (inl p) (inr q) = absurd (none_open j q)
      apart placed k j (inr p) q = absurd (none_open k p)

  -- On an empty shared virtual place, whatever the order of turns of mutations of canonical keys,
  -- commits of publications and their ends: the directory index is kept, and no source or key in
  -- creation lies below another, so that no path is both a file and a directory; a rename that is
  -- not queued as a file has its turn when no publication is open.
  pub Reachable-Sound :
      (s t : SabStore)
      → s.place.files ≡ clear s.place.files
      → s.creating ≡ []
      → Reachable s t
      → Sound t
  Reachable-Sound s t e n start = empty-Sound s e n
  Reachable-Sound s t e n (step {s = r} before h) =
      Step-Sound r t (Reachable-Sound s r e n before) h
