-- ===== src/SabStore/Steps.antt =====
-- lib/sab-store.js: the turns of mutations, the commits and the ends of publications, in any order.
use shared_memory_fs.Prelude.{
  ℕ, Bool, false, true, ◌≡◌, ◌&&◌, not, List, [], ◌∷◌, ◌++◌, Option, none, if◌then◌else◌, arith,
  refl, inl, inr, ◌⊎◌, Bool-cases, subst, All, All-map, keep, ok, ok-inj, pass-ok,
}
use shared_memory_fs.Prelude.JsMap
use shared_memory_fs.Prelude.JsMap.{is_some}
use shared_memory_fs.Prelude.JsSet
use shared_memory_fs.Prelude.JsSet.{contains, contains-remove}
use shared_memory_fs.Prelude.Text.{Str, str, str_eq}
use shared_memory_fs.Errors.{Errno, Failure}
use shared_memory_fs.Routing.Keys.{is_companion_key}
use shared_memory_fs.Routing.Places.{Version, prepared}
use shared_memory_fs.Routing.Canonical.{Canonical}
use shared_memory_fs.Directories.{PlaceFiles, is_nil}
use shared_memory_fs.Directories.Below.{is_below}
use shared_memory_fs.Pipeline.Platform.{Platform}
use shared_memory_fs.Pipeline.Hierarchy.{has_file, check_hierarchy, check_exclusive, check_mkdir}
use shared_memory_fs.Pipeline.Subtree.{keys_under, subtree_moves}
use shared_memory_fs.MapStore.{delete_all, set_all, joined, moved_entries, old_keys}
use shared_memory_fs.MapStore.Keeping.{
  OfCompanion, Companion, Listable, delete_all-Indexed, set_all-Indexed,
}
use shared_memory_fs.MapStore.Placed.{Placed}
use shared_memory_fs.MapStore.Tree.{subtree_moves-Planned}
use shared_memory_fs.MapStore.Moved.{has-delete_all, has-set_all, planned-Placed}
use shared_memory_fs.SabStore.{
  SabStore, Turn, finished, publishing, fail_of, create, write, append, with_companions,
  unpublish_virtual, unlink, mkdir, rm, rename_tree, unstaged, commit, settle,
}
use shared_memory_fs.SabStore.Turns.{Primary, Sound, created-Sound, fewer-Sound}

-- The store after a turn.
abbrev pub state_of : Turn → SabStore
state_of (finished s) = s
state_of (publishing s key raw source) = s

module _ (os : Platform) where
  pub create-Sound :
      (s : SabStore) (key : Str) (fail : Errno → Failure) (raw : List ℕ) (source : Option Str)
      (t : Turn)
      → Canonical key
      → Sound s
      → create os s key fail raw source ≡ ok t
      → Sound (state_of t)
  create-Sound s key fail raw source t c i h =
      let made = publishing (record s { creating = JsSet.add s.creating key }) key raw source in
      let (free, same) =
        pass-ok (check_hierarchy s.place key fail s.creating) (ok made) t (unfold create in h) in
      rw (← ok-inj {E = Failure} made t same) (created-Sound s key fail c i free)

  deleted-Sound :
      (s : SabStore) (keys : List Str)
      → Sound s
      → Sound (record s { place = record (s.place) { files = delete_all s.place.files keys } })
  deleted-Sound s keys i =
      fewer-Sound s
        (record s { place = record (s.place) { files = delete_all s.place.files keys } }) i
        (delete_all-Indexed s.place.files keys i.indexed) (λ k h. h) (λ k p. less k p)
    where
      less :
          (k : Str)
          → Primary
              (record s { place = record (s.place) { files = delete_all s.place.files keys } })
              k
          → Primary s k
      less k (inl (h, c)) = inl (has-delete_all s.place.files keys k h, c)
      less k (inr h) = inr h

  unpublish_virtual-Sound :
      (s : SabStore) (keys : List Str) → Sound s → Sound (unpublish_virtual s keys)
  unfolding unpublish_virtual
  unpublish_virtual-Sound s keys i = deleted-Sound s (with_companions s.place keys) i

  pub write-Sound :
      (s : SabStore) (key : Str) (raw : List ℕ) (exclusive : Bool) (t : Turn)
      → Canonical key
      → Sound s
      → write os s key raw exclusive ≡ ok t
      → Sound (state_of t)
  write-Sound s key raw exclusive t c i h =
      let (_, made) =
        pass-ok
          (if exclusive then check_exclusive s.place key (fail_of os s (str "open") key) else none)
          (create os s key (fail_of os s (str "open") key) raw none) t (unfold write in h) in
      create-Sound s key (fail_of os s (str "open") key) raw none t c i made

  pub append-Sound :
      (s : SabStore) (key : Str) (chunk : List ℕ) (t : Turn)
      → Canonical key
      → Sound s
      → append os s key chunk ≡ ok t
      → Sound (state_of t)
  append-Sound s key chunk t c i h = elim (Bool-cases (prepared os.file_ext s.place key)) [
    | inl e ↦ absurd (unfold append in ground arith)
    | inr e ↦
        create-Sound s key (fail_of os s (str "open") key)
          (joined (JsMap.get s.place.files.entries key) chunk) none t c i
          (unfold append in ground arith)
  ]

  pub unlink-Sound :
      (s : SabStore) (key : Str) (directory : Bool) (t : Turn)
      → Sound s
      → unlink os s key directory ≡ ok t
      → Sound (state_of t)
  unlink-Sound s key directory t i h = elim (Bool-cases (not directory && has_file s.place key)) [
    | inl e ↦
        let same =
          ok-inj {E = Failure} (finished (unpublish_virtual s (key ∷ []))) t
            (unfold unlink in ground arith) in
        rw (← same) (unpublish_virtual-Sound s (key ∷ []) i)
    | inr e ↦ absurd (unfold unlink in ground arith)
  ]

  pub mkdir-Sound :
      (s : SabStore) (key : Str) (recursive : Bool) (t : Turn)
      → Sound s
      → mkdir os s key recursive ≡ ok t
      → Sound (state_of t)
  mkdir-Sound s key recursive t i h =
      let (_, same) =
        pass-ok (check_mkdir s.place key recursive (fail_of os s (str "mkdir") key) s.creating)
          (ok (finished s)) t (unfold mkdir in h) in
      rw (← ok-inj {E = Failure} (finished s) t same) i

  pub rm-Sound :
      (s : SabStore) (key : Str) (directory recursive force : Bool) (t : Turn)
      → Sound s
      → rm os s key directory recursive force ≡ ok t
      → Sound (state_of t)
  rm-Sound s key directory recursive force t i h =
      elim (Bool-cases (not directory && has_file s.place key)) [
        | inl e ↦
            let same =
              ok-inj {E = Failure} (finished (unpublish_virtual s (key ∷ []))) t
                (unfold rm in ground arith) in
            rw (← same) (unpublish_virtual-Sound s (key ∷ []) i)
        | inr e ↦ elim (Bool-cases (is_nil (keys_under s.place key))) [
          | inl n ↦ elim (Bool-cases force) [
            | inl f ↦
                let same = ok-inj {E = Failure} (finished s) t (unfold rm in ground arith) in
                rw (← same) i
            | inr f ↦ absurd (unfold rm in ground arith)
          ]
          | inr n ↦ elim (Bool-cases recursive) [
            | inl f ↦
                let same =
                  ok-inj {E = Failure} (finished (unpublish_virtual s (keys_under s.place key))) t
                    (unfold rm in ground arith) in
                rw (← same) (unpublish_virtual-Sound s (keys_under s.place key) i)
            | inr f ↦ absurd (unfold rm in ground arith)
          ]
        ]
      ]

  pub rename_tree-Sound :
      (s : SabStore) (source target : Str) (moves : List (Str × Str))
      → Canonical source
      → Canonical target
      → s.creating ≡ []
      → Sound s
      → subtree_moves os s.place source target [] ≡ ok moves
      → Sound (rename_tree s moves)
  unfolding rename_tree
  rename_tree-Sound s source target moves c d idle i h =
      let placed : Placed s.place.files = record {
        indexed = i.indexed;
        flat = λ k j a b c d. i.flat k j (inl (a, b)) (inl (c, d));
      } in
      let moved =
        planned-Placed os s.place source target moves d placed
          (subtree_moves-Planned os s.place source target moves c d i.indexed h) in
      record {
        indexed = moved.indexed;
        canonical = i.canonical;
        flat = λ k j a b. flat moved.flat k j a b;
      }
    where
      after : PlaceFiles Version
      after =
          set_all (delete_all s.place.files (old_keys moves)) (moved_entries s.place.files moves)

      Apart : Type 0
      Apart =
          (k j : Str)
          → JsMap.has after.entries k ≡ true
          → is_companion_key k ≡ false
          → JsMap.has after.entries j ≡ true
          → is_companion_key j ≡ false
          → is_below k j ≡ false

      none_left : (k : Str) → contains s.creating k ≡ true → ⊥
      none_left k h =
          let empty : contains [] k ≡ true = subst (λ ks. contains ks k ≡ true) idle h in
          unfold contains in ground arith

      flat :
          Apart
          → (k j : Str) → Primary (record s { place = record (s.place) { files = after } }) k
          → Primary (record s { place = record (s.place) { files = after } }) j
          → is_below k j ≡ false
      flat f k j (inl (a, b)) (inl (c, d)) = f k j a b c d
      flat f k j (inl p) (inr q) = absurd (none_left j q)
      flat f k j (inr p) q = absurd (none_left k p)

  pub commit-Sound :
      (s : SabStore) (key : Str) (version : Version) (stored : List (Str × Version))
      (dropped : List Str) (source : Option Str)
      → contains s.creating key ≡ true
      → All OfCompanion stored
      → Sound s
      → Sound (commit s key version stored dropped source)
  unfolding commit
  commit-Sound s key version stored dropped source h a i =
      fewer-Sound s
        (record s {
          place = record (s.place) { files = delete_all (set_all s.place.files entries) removed };
        })
        i
        (delete_all-Indexed (set_all s.place.files entries) removed (
          set_all-Indexed s.place.files entries
            (inr ((i.canonical key h).rooted), All-map OfCompanion Listable stored (λ e c. inl c) a)
            i.indexed))
        (λ k g. g) less
    where
      entries : List (Str × Version)
      entries = (key, version) ∷ stored

      removed : List Str
      removed = keep (λ k. not (JsMap.has entries k)) (unstaged s.place source ++ dropped)

      Staged : Str → Type 0
      Staged k = (k ≡ key) ⊎ Companion k

      staged : All (λ e. Staged e.0) entries
      staged = (inl refl, All-map OfCompanion (λ e. Staged e.0) stored (λ e c. inr c) a)

      less :
          (k : Str)
          → Primary
              (record s {
                place = record (s.place) {
                  files = delete_all (set_all s.place.files entries) removed;
                };
              })
              k
          → Primary s k
      less k (inr g) = inr g
      less k (inl (g, c)) =
          elim (has-set_all Staged s.place.files entries k staged
            (has-delete_all (set_all s.place.files entries) removed k g)) [
              | inl old ↦ inl (old, c)
              | inr (inl e) ↦ inr (rw e h)
              | inr (inr w) ↦ absurd (ground arith)
            ]

  pub settle-Sound : (s : SabStore) (key : Str) → Sound s → Sound (settle s key)
  unfolding settle
  settle-Sound s key i =
      fewer-Sound s (record s { creating = JsSet.remove s.creating key }) i i.indexed still less
    where
      still :
          (k : Str) → contains (JsSet.remove s.creating key) k ≡ true → contains s.creating k ≡ true
      still k h = ground (arith, contains-remove s.creating key k)

      less :
          (k : Str) → Primary (record s { creating = JsSet.remove s.creating key }) k → Primary s k
      less k (inl h) = inl h
      less k (inr h) = inr (still k h)
