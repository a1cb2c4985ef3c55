-- ===== src/MapStore/Tree.antt =====
-- lib/map-store.js, #moveTree: a subtree moves to where nothing stood.
use shared_memory_fs.Prelude.{
  ◌≡◌, false, true, List, [], ◌∷◌, ◌++◌, Option, none, some, ◌==◌, nat_eq, arith, refl, inl, inr,
  Bool-cases, Option-cases, ◌∙◌, ap, length, drop, All, eq_of_beq, beq_refl, ok, err, bind-ok,
  pass-ok, ◌>>=◌, ◌>>◌, pass,
}
use mathlib.Core.List.{append_assoc}
use shared_memory_fs.Prelude.JsSet.{contains, contains-append}
use shared_memory_fs.Prelude.Text.{Str, str, str_eq}
use shared_memory_fs.Errors.{Errno, enotsup, Failure}
use shared_memory_fs.Routing.Keys.{slash, nul, is_companion_key}
use shared_memory_fs.Routing.Places.{Place, companions, is_directory}
use shared_memory_fs.Routing.Canonical.{Canonical, dir_of-Canonical}
use shared_memory_fs.Directories.{is_nil, keys_below}
use shared_memory_fs.Directories.Chains.{join}
use shared_memory_fs.Directories.Index.{Indexed}
use shared_memory_fs.Directories.Below.{is_below, is_below-split}
use shared_memory_fs.Directories.Listing.{keys_below-Below}
use shared_memory_fs.Pipeline.Platform.{Platform}
use shared_memory_fs.Pipeline.Hierarchy.{has_file, check_hierarchy}
use shared_memory_fs.Pipeline.Subtree.{
  keys_under, companion_moves, subtree_moves, source_moves, immovable, rename_failure,
}
use shared_memory_fs.MapStore.Keeping.{
  Companion, Derived, Derived-Companion, All-append, companions-Derived,
}
use shared_memory_fs.MapStore.Placed.{IfFree, check_hierarchy-free}

drop-append : (a b : Str) → drop (length a) (a ++ b) ≡ b
drop-append [] b = refl
drop-append (c ∷ a) b = drop-append a b

All-contains :
    (P : Str → Type 0) (xs : List Str) → ((k : Str) → contains xs k ≡ true → P k) → All P xs
unfolding contains
All-contains P [] h = tt
All-contains P (x ∷ xs) h =
    (h x (ground (arith, beq_refl x)), All-contains P xs (λ k g. h k (ground arith)))

module _ (os : Platform) (p : Place) (source target : Str) where
  abbrev pub Inside : Str → Type 0
  Inside k = (has_file p k ≡ true) × (is_companion_key k ≡ false) × (is_below k source ≡ true)

  -- A move: a source to where the same name leads from the target, or a companion.
  pub data Move : Str × Str → Type 0 where
    of_source :
        {e : Str × Str} (m : Str) → Inside e.0 → e.0 ≡ join source m → e.1 ≡ join target m → Move e
    of_companion :
        {e : Str × Str} (m : Str) → Companion e.0 → Companion e.1 → e.1 ≡ join target m → Move e

  companion_moves-Move :
      (key m : Str) (cs : List Str)
      → All (Derived key) cs
      → All Move (companion_moves p key (join target m) cs)
  unfolding companion_moves
  companion_moves-Move key m [] d = tt
  companion_moves-Move key m (c ∷ cs) d =
      let (t, e) = d.0 in
      let dropped : drop (length key) c ≡ nul ∷ t = rw e (drop-append key (nul ∷ t)) in
      let to : join target m ++ drop (length key) c ≡ join target (m ++ (nul ∷ t)) =
        rw dropped (append_assoc target (slash ∷ m) (nul ∷ t)) in
      let made : is_companion_key (join target (m ++ (nul ∷ t))) ≡ true =
        (unfold is_companion_key contains in
          ground (
            arith,
            contains-append target (slash ∷ (m ++ (nul ∷ t))) nul,
            contains-append m (nul ∷ t) nul,
          )) in
      let rest = companion_moves-Move key m cs d.1 in
      elim (Bool-cases (has_file p c)) [
        | inl there ↦
            rw there
              (of_companion (m ++ (nul ∷ t)) (Derived-Companion key c d.0) (rw to made) to, rest)
        | inr missing ↦ rw missing rest
      ]

  source_moves-next :
      (fail : Errno → Option Str → Failure) (key : Str) (keys : List Str)
      → immovable os p key ≡ none
      → (do
        moves ← source_moves os p fail source target keys
        ok (
            (key, target ++ drop (length source) key)
              ∷ companion_moves p key (target ++ drop (length source) key) (companions p key)
            ++ moves))
        ≡ source_moves os p fail source target (key ∷ keys)
  unfolding source_moves
  source_moves-next fail key keys e = rw (source_moves, e) refl

  source_moves-refused :
      (fail : Errno → Option Str → Failure) (key : Str) (keys : List Str) (reason : Str)
      → immovable os p key ≡ some reason
      → source_moves os p fail source target (key ∷ keys)
        ≡ err (fail enotsup (some (reason ++ (str " " ++ key))))
  unfolding source_moves
  source_moves-refused fail key keys reason e = rw (source_moves, e) refl

  source_moves-Move :
      (fail : Errno → Option Str → Failure) (keys : List Str) (moves : List (Str × Str))
      → All Inside keys
      → source_moves os p fail source target keys ≡ ok moves
      → All Move moves
  source_moves-Move fail [] moves i h =
      let none_left : [] ≡ moves = (unfold source_moves in ground arith) in rw (← none_left) tt
  source_moves-Move fail (key ∷ keys) moves i h = elim (Option-cases (immovable os p key)) [
    | inr (reason, e) ↦ absurd (ground (arith, source_moves-refused fail key keys reason e))
    | inl e ↦
        let (m, k) = is_below-split key source (i.0.2) in
        let new_key = target ++ drop (length source) key in
        let to : new_key ≡ join target m =
          rw k (ap (λ x. target ++ x) (drop-append source (slash ∷ m))) in
        let (rest, found, all) =
          bind-ok (source_moves os p fail source target keys)
            (λ moves.
              ok ((key, new_key) ∷ companion_moves p key new_key (companions p key) ++ moves))
            moves (source_moves-next fail key keys e ∙ h) in
        let all' : (key, new_key) ∷ companion_moves p key new_key (companions p key) ++ rest
            ≡ moves =
          ground arith in
        rw (← all', to)
          (
            of_source m i.0 k refl,
            All-append Move (companion_moves p key (join target m) (companions p key)) rest
                (companion_moves-Move key m (companions p key) (companions-Derived p key))
                (source_moves-Move fail keys rest i.1 found),
          )
  ]

  -- What the plan found at the target.
  pub data Planned (moves : List (Str × Str)) : Type 0 where
    same : target ≡ source → moves ≡ [] → Planned moves
    fresh :
        All Move moves
        → has_file p target ≡ false
        → ((j : Str) → has_file p j ≡ true → is_companion_key j ≡ false → IfFree p target j)
        → Planned moves

  subtree_moves-same :
      (moves : List (Str × Str))
      → (target == source) ≡ true
      → subtree_moves os p source target [] ≡ ok moves
      → moves ≡ []
  unfolding subtree_moves
  subtree_moves-same moves e h = elim (Bool-cases (is_nil (keys_under p source))) [
    | inl n ↦ absurd (ground arith)
    | inr n ↦ ground arith
  ]

  -- The checks that a plan has passed.
  subtree_moves-steps :
      (moves : List (Str × Str))
      → (target == source) ≡ false
      → subtree_moves os p source target [] ≡ ok moves
      → (is_nil (keys_under p source) ≡ false)
        × (has_file p target ≡ false)
        × ((pass (check_hierarchy p target (λ code. rename_failure os p source target code none) [])
              >> source_moves os p
                  (rename_failure os p source target)
                  source
                  target
                  (keys_under p source))
            ≡ ok moves)
  unfolding subtree_moves
  subtree_moves-steps moves e h = elim (Bool-cases (is_nil (keys_under p source))) [
    | inl n ↦ absurd (ground arith)
    | inr n ↦ elim (Bool-cases (is_below target source)) [
      | inl b ↦ absurd (ground arith)
      | inr b ↦ elim (Bool-cases (has_file p target)) [
        | inl f ↦ absurd (ground arith)
        | inr f ↦ elim (Bool-cases (is_directory p target)) [
          | inl t ↦ absurd (ground arith)
          | inr t ↦ (n, f, ground arith)
        ]
      ]
    ]
  ]

  keys_under-Inside : Canonical source → Indexed p.files → All Inside (keys_under p source)
  unfolding keys_under
  keys_under-Inside c i = rw (dir_of-Canonical source c) (
      All-contains Inside (keys_below p.files source)
        (λ k g. (keys_below-Below p.files i source k).0 g))

  pub subtree_moves-Planned :
      (moves : List (Str × Str))
      → Canonical source
      → Canonical target
      → Indexed p.files
      → subtree_moves os p source target [] ≡ ok moves
      → Planned moves
  subtree_moves-Planned moves c d i h = elim (Bool-cases (target == source)) [
    | inl e ↦ same (eq_of_beq target source e) (subtree_moves-same moves e h)
    | inr e ↦
        let (sources, clear, steps) = subtree_moves-steps moves e h in
        let (free, found) =
          pass-ok
            (check_hierarchy p target (λ code. rename_failure os p source target code none) [])
            (source_moves os p (rename_failure os p source target) source target
              (keys_under p source))
            moves steps in
        fresh
          (source_moves-Move (rename_failure os p source target) (keys_under p source) moves
            (keys_under-Inside c i) found)
          clear
          (λ j there primary.
            check_hierarchy-free p target (λ code. rename_failure os p source target code none) j d
              i free there primary)
  ]
