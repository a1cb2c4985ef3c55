-- ===== src/MapStore/Moved.antt =====
-- lib/map-store.js, rename: a moved subtree keeps the index and the hierarchy.
use shared_memory_fs.Prelude.{
  ◌≡◌, Bool, false, true, ◌&&◌, not, List, [], ◌∷◌, ◌==◌, nat_eq, arith, refl, inl, inr, ◌⊎◌,
  Bool-cases, Option-cases, ◌∙◌, sym, subst, All, All-map, eq_of_beq, ok, bind-ok, ok-inj,
}
use shared_memory_fs.Prelude.JsMap
use shared_memory_fs.Prelude.JsMap.{is_some, has-eq-get}
use shared_memory_fs.Prelude.Text.{Str, str_eq}
use shared_memory_fs.Routing.Keys.{slash, is_companion_key}
use shared_memory_fs.Routing.Places.{Place, Version, is_directory}
use shared_memory_fs.Routing.Canonical.{Canonical}
use shared_memory_fs.Directories.{PlaceFiles, set_file, delete_file}
use shared_memory_fs.Directories.Chains.{Rooted, join}
use shared_memory_fs.Directories.Index.{Indexed}
use shared_memory_fs.Directories.Below.{is_below, is_below-shift, is_below-join, join-above}
use shared_memory_fs.Pipeline.Platform.{Platform}
use shared_memory_fs.Pipeline.Hierarchy.{has_file}
use shared_memory_fs.Pipeline.Subtree.{subtree_moves}
use shared_memory_fs.MapStore.{
  delete_all, set_all, moved_entries, old_keys, move_tree, rename, move_file,
}
use shared_memory_fs.MapStore.Keeping.{
  Companion, Listable, file_at-set_file, file_at-delete_file, delete_all-Indexed, set_all-Indexed,
}
use shared_memory_fs.MapStore.Placed.{Placed, IfFree}
use shared_memory_fs.MapStore.Tree.{
  Inside, Move, of_source, of_companion, Planned, same, fresh, subtree_moves-Planned,
}
use shared_memory_fs.MapStore.Operations.{move_file-Placed}

pub has-delete_all :
    (f : PlaceFiles Version) (keys : List Str) (j : Str)
    → JsMap.has (delete_all f keys).entries j ≡ true
    → JsMap.has f.entries j ≡ true
unfolding delete_all
has-delete_all f [] j h = h
has-delete_all f (key ∷ keys) j h =
    let less = has-delete_all (delete_file f key).0 keys j h in
    ground (
      arith,
      less,
      file_at-delete_file f key j,
      has-eq-get f.entries j,
      has-eq-get (delete_file f key).0.entries j,
    )

has-set_file :
    (f : PlaceFiles Version) (key j : Str) (v : Version)
    → JsMap.has (set_file f key v).entries j ≡ true
    → (key ≡ j) ⊎ (JsMap.has f.entries j ≡ true)
has-set_file f key j v h = elim (Bool-cases (key == j)) [
  | inl e ↦ inl (eq_of_beq key j e)
  | inr e ↦ inr (
      ground (
        arith,
        file_at-set_file f key j v,
        has-eq-get f.entries j,
        has-eq-get (set_file f key v).entries j,
      ))
]

-- What was there, or has been put.
pub has-set_all :
    (P : Str → Type 0) (f : PlaceFiles Version) (es : List (Str × Version)) (j : Str)
    → All (λ e. P e.0) es
    → JsMap.has (set_all f es).entries j ≡ true
    → (JsMap.has f.entries j ≡ true) ⊎ P j
unfolding set_all
has-set_all P f [] j a h = inl h
has-set_all P f ((key, v) ∷ es) j a h = elim (has-set_all P (set_file f key v) es j a.1 h) [
  | inr put ↦ inr put
  | inl there ↦ elim (has-set_file f key j v there) [
    | inl e ↦ inr (subst P e a.0)
    | inr old ↦ inl old
  ]
]

module _ (os : Platform) (p : Place) (source target : Str) where
  -- A key that a move makes.
  abbrev New : Str → Type 0
  New j =
      (m : Str) × (j ≡ join target m) × ((Inside os p source target (join source m)) ⊎ Companion j)

  Move-New : (e : Str × Str) → Move os p source target e → New e.1
  Move-New e (of_source m i a b) = (m, b, inl (subst (Inside os p source target) a i))
  Move-New e (of_companion m a b c) = (m, c, inr b)

  moved_entries-New :
      (moves : List (Str × Str))
      → All (Move os p source target) moves
      → All (λ e. New e.0) (moved_entries p.files moves)
  unfolding moved_entries
  moved_entries-New [] a = tt
  moved_entries-New ((key, new_key) ∷ moves) a =
      elim (Option-cases (JsMap.get p.files.entries key)) [
        | inl e ↦ rw (moved_entries, e) (moved_entries-New moves a.1)
        | inr (v, e) ↦
            rw (moved_entries, e) (Move-New (key, new_key) a.0, moved_entries-New moves a.1)
      ]

  New-Rooted : (j : Str) → Rooted target → New j → Rooted j
  New-Rooted j (s, e) (m, a, b) = (join s m, rw (a, e) refl)

  -- A new key and an old one lie apart.
  New-old :
      (m j : Str)
      → has_file p target ≡ false
      → IfFree p target j
      → has_file p j ≡ true
      → (is_below (join target m) j ≡ false) × (is_below j (join target m) ≡ false)
  New-old m j clear free there = (down, up)
    where
      not_below : is_below j target ≡ false
      not_below = elim (free.1) [ inl n ↦ n | inr h ↦ absurd (ground arith) ]

      down : is_below (join target m) j ≡ false
      down = elim (Bool-cases (is_below (join target m) j)) [
        | inr n ↦ n
        | inl h ↦ elim (join-above target m j h) [
          | inl a ↦ absurd (ground (arith, free.0))
          | inr (inl e) ↦ let t : has_file p target ≡ true = rw e there in absurd (ground arith)
          | inr (inr b) ↦ absurd (ground (arith, not_below))
        ]
      ]

      up : is_below j (join target m) ≡ false
      up = elim (Bool-cases (is_below j (join target m))) [
        | inr n ↦ n
        | inl h ↦ absurd (ground (arith, not_below, is_below-join j target m h))
      ]

  -- Two new keys lie as the old ones lay.
  New-New :
      (m n : Str)
      → Placed p.files
      → Inside os p source target (join source m)
      → Inside os p source target (join source n)
      → is_below (join target m) (join target n) ≡ false
  New-New m n i a b =
      is_below-shift target (slash ∷ m) (slash ∷ n)
      ∙ (sym (is_below-shift source (slash ∷ m) (slash ∷ n))
          ∙ i.flat (join source m) (join source n) a.0 a.1 b.0 b.1)

  moved-Placed :
      (moves : List (Str × Str))
      → Canonical target
      → Placed p.files
      → All (Move os p source target) moves
      → has_file p target ≡ false
      → ((j : Str) → has_file p j ≡ true → is_companion_key j ≡ false → IfFree p target j)
      → Placed (set_all (delete_all p.files (old_keys moves)) (moved_entries p.files moves))
  moved-Placed moves c i a clear free = record { indexed = index; flat = flat }
    where
      new : All (λ e. New e.0) (moved_entries p.files moves)
      new = moved_entries-New moves a

      after : PlaceFiles Version
      after = set_all (delete_all p.files (old_keys moves)) (moved_entries p.files moves)

      index : Indexed after
      index =
          set_all-Indexed (delete_all p.files (old_keys moves)) (moved_entries p.files moves)
            (All-map (λ e. New e.0) Listable (moved_entries p.files moves)
              (λ e n. inr (New-Rooted e.0 c.rooted n)) new)
            (delete_all-Indexed p.files (old_keys moves) i.indexed)

      origin : (j : Str) → JsMap.has after.entries j ≡ true → (has_file p j ≡ true) ⊎ New j
      origin j h =
          elim (has-set_all New (delete_all p.files (old_keys moves)) (moved_entries p.files moves)
            j new h) [
              | inl old ↦ inl (has-delete_all p.files (old_keys moves) j old)
              | inr n ↦ inr n
            ]

      inside :
          (j m : Str)
          → is_companion_key j ≡ false
          → (Inside os p source target (join source m)) ⊎ Companion j
          → Inside os p source target (join source m)
      inside j m s (inl i) = i
      inside j m s (inr c) = absurd (ground arith)

      flat :
          (k j : Str)
          → JsMap.has after.entries k ≡ true
          → is_companion_key k ≡ false
          → JsMap.has after.entries j ≡ true
          → is_companion_key j ≡ false
          → is_below k j ≡ false
      flat k j a b c d = elim (origin k a) [
        | inl old_k ↦ elim (origin j c) [
          | inl old ↦ i.flat k j old_k b old d
          | inr (n, e, w) ↦ rw e ((New-old n k clear (free k old_k b) old_k).1)
        ]
        | inr (m, e, w) ↦ elim (origin j c) [
          | inl old ↦ rw e ((New-old m j clear (free j old d) old).0)
          | inr (n, g, x) ↦ rw (e, g) (New-New m n i (inside k m b w) (inside j n d x))
        ]
      ]

  pub planned-Placed :
      (moves : List (Str × Str))
      → Canonical target
      → Placed p.files
      → Planned os p source target moves
      → Placed (set_all (delete_all p.files (old_keys moves)) (moved_entries p.files moves))
  planned-Placed moves d i (same e none_left) =
      rw none_left (unfold old_keys moved_entries delete_all set_all in i)
  planned-Placed moves d i (fresh a clear free) = moved-Placed moves d i a clear free

  move_tree-Placed :
      (q : Place)
      → Canonical source
      → Canonical target
      → Placed p.files
      → move_tree os p source target ≡ ok q
      → Placed q.files
  move_tree-Placed q c d i h =
      let after : List (Str × Str) → Place = λ moves. record p {
        files = set_all (delete_all p.files (old_keys moves)) (moved_entries p.files moves);
      } in
      let (moves, planned, moved) =
        bind-ok (subtree_moves os p source target []) (λ moves. ok (after moves)) q
          (unfold move_tree in h) in
      rw (← ok-inj (after moves) q moved) (
        planned-Placed moves d i
          (subtree_moves-Planned os p source target moves c d i.indexed planned))

  -- A rename that is not a directory's is a file's.
  rename-file :
      (q : Place) (directory : Bool)
      → (not (is_some (JsMap.get p.files.entries source)) && is_directory p source) ≡ false
      → rename os p source target directory ≡ ok q
      → (v : Version) × (move_file os p source target v ≡ ok q)
  rename-file q directory t h = elim (Option-cases (JsMap.get p.files.entries source)) [
    | inl e ↦ absurd (unfold rename in ground arith)
    | inr (v, e) ↦ (v, unfold rename in ground arith)
  ]

  pub rename-Placed :
      (q : Place) (directory : Bool)
      → Canonical source
      → Canonical target
      → Placed p.files
      → rename os p source target directory ≡ ok q
      → Placed q.files
  rename-Placed q directory c d i h =
      elim (Bool-cases
        (not (is_some (JsMap.get p.files.entries source)) && is_directory p source)) [
          | inl t ↦ move_tree-Placed q c d i (unfold rename in ground arith)
          | inr t ↦
              let (v, moved) = rename-file q directory t h in
              move_file-Placed os p q source target v d i moved
        ]
