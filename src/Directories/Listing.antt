-- ===== src/Directories/Listing.antt =====
-- A recursive listing finds exactly the source keys below its directory.
use shared_memory_fs.Prelude.{
  ℕ, zero, suc, ◌+◌, ◌≤◌, ◌<◌, ◌≡◌, Bool, false, true, ◌&&◌, ◌||◌, not, List, [], ◌∷◌, ◌++◌, ◌==◌,
  nat_eq, if◌then◌else◌, arith, refl, inl, inr, ◌⊎◌, ◌↔◌, eq_of_beq, beq_refl, Bool-cases,
  Option-cases, ◌∙◌, length, length-append, sym, subst,
}
use shared_memory_fs.Prelude.JsMap
use shared_memory_fs.Prelude.JsMap.{JsMap, has-eq-get, is_some}
use shared_memory_fs.Prelude.JsSet.{contains}
use shared_memory_fs.Prelude.Text.{Str, str_eq}
use shared_memory_fs.Routing.Keys.{slash, is_companion_key}
use shared_memory_fs.Directories.{
  PlaceFiles, children_of, children, expand, below, longest, files_of, keys_below,
}
use shared_memory_fs.Directories.Chains.{
  join, Rooted, pair_in, chain, parts-chain, chain-step, chain-length, path_of,
}
use shared_memory_fs.Directories.Index.{Indexed, in_dirs, listed-source, source-listed}
use shared_memory_fs.Directories.Below.{
  is_below, is_below-join, is_below-source, chain-below, below-chain, Rooted-nil, join-is_below,
}

-- Whether a key is listed as a directory, or as a file.
unfoldable entry_in : List (Str × Bool) → Str → Bool → Bool
entry_in [] k d = false
entry_in ((j, e) ∷ ks) k d = j == k && (if e then d else not d) || entry_in ks k d

entry_in-append :
    (a b : List (Str × Bool)) (k : Str) (d : Bool)
    → entry_in (a ++ b) k d ≡ (entry_in a k d || entry_in b k d)
unfolding entry_in
entry_in-append [] b k d = refl
entry_in-append ((j, e) ∷ a) b k d = ground (arith, entry_in-append a b k d)

files_of-entry_in : (l : List (Str × Bool)) (k : Str) → contains (files_of l) k ≡ entry_in l k false
unfolding files_of entry_in contains
files_of-entry_in [] k = refl
files_of-entry_in ((j, true) ∷ l) k = ground (arith, files_of-entry_in l k)
files_of-entry_in ((j, false) ∷ l) k = ground (arith, files_of-entry_in l k)

module _ {V : Type 0} (f : PlaceFiles V) where
  -- A child of a directory: a name of it, with what is there.
  child_file :
      (dir : Str) (names : List Str) (k : Str)
      → entry_in (children_of f dir names) k false ≡ true
      → (m : Str) × (contains names m ≡ true) × (join dir m ≡ k) × (JsMap.has f.entries k ≡ true)
  unfolding entry_in children_of contains
  child_file dir [] k h = absurd (ground arith)
  child_file dir (n ∷ names) k h =
      elim (Bool-cases (JsMap.has f.entries (join dir n) && join dir n == k)) [
        | inl here ↦ (
          n,
          ground (arith, beq_refl n),
          eq_of_beq (join dir n) k (ground arith),
          ground (arith, eq_of_beq (join dir n) k),
        )
        | inr later ↦
            let (m, a, b, c) = child_file dir names k (ground arith) in (m, ground arith, b, c)
      ]

  file_child :
      (dir : Str) (names : List Str) (m : Str) (is_dir : Bool)
      → contains names m ≡ true
      → (if is_dir then JsMap.has f.dirs (join dir m) else JsMap.has f.entries (join dir m)) ≡ true
      → entry_in (children_of f dir names) (join dir m) is_dir ≡ true
  unfolding entry_in children_of contains
  file_child dir [] m is_dir h t = absurd (ground arith)
  file_child dir (n ∷ names) m is_dir h t =
      ground (arith, file_child dir names m is_dir, eq_of_beq n m, beq_refl (join dir m))

  longest-le : (es : JsMap Str V) (k : Str) → JsMap.has es k ≡ true → length k ≤ longest es
  unfolding longest JsMap.has
  longest-le [] k h = absurd (ground arith)
  longest-le ((j, v) ∷ es) k h = ground (arith, longest-le es k, eq_of_beq j k)

  -- Where a listing shows a file.
  expand-cases :
      (go : Str → List (Str × Bool)) (ks : List (Str × Bool)) (k : Str)
      → entry_in (expand go ks) k false ≡ true
      → (entry_in ks k false ≡ true)
        ⊎ ((j : Str) × (entry_in ks j true ≡ true) × (entry_in (go j) k false ≡ true))
  unfolding expand entry_in
  expand-cases go [] k h = absurd (ground arith)
  expand-cases go ((j, false) ∷ ks) k h = elim (Bool-cases (j == k)) [
    | inl here ↦ inl (ground arith)
    | inr no' ↦ elim (expand-cases go ks k (ground arith)) [
      | inl a ↦ inl (ground arith)
      | inr (i, a, b) ↦ inr (i, ground arith, b)
    ]
  ]
  expand-cases go ((j, true) ∷ ks) k h = elim (Bool-cases (entry_in (go j) k false)) [
    | inl here ↦ inr (j, ground (arith, beq_refl j), here)
    | inr no' ↦
        elim (expand-cases go ks k
          (ground (arith, entry_in-append (go j) (expand go ks) k false))) [
            | inl a ↦ inl (ground arith)
            | inr (i, a, b) ↦ inr (i, ground arith, b)
          ]
  ]

  expand-file :
      (go : Str → List (Str × Bool)) (ks : List (Str × Bool)) (k : Str)
      → entry_in ks k false ≡ true
      → entry_in (expand go ks) k false ≡ true
  unfolding expand entry_in
  expand-file go [] k h = absurd (ground arith)
  expand-file go ((j, false) ∷ ks) k h = ground (arith, expand-file go ks k)
  expand-file go ((j, true) ∷ ks) k h =
      ground (arith, expand-file go ks k, entry_in-append (go j) (expand go ks) k false)

  expand-dir :
      (go : Str → List (Str × Bool)) (ks : List (Str × Bool)) (j k : Str)
      → entry_in ks j true ≡ true
      → entry_in (go j) k false ≡ true
      → entry_in (expand go ks) k false ≡ true
  unfolding expand entry_in
  expand-dir go [] j k h g = absurd (ground arith)
  expand-dir go ((i, false) ∷ ks) j k h g = ground (arith, expand-dir go ks j k)
  expand-dir go ((i, true) ∷ ks) j k h g =
      ground
        (arith, expand-dir go ks j k, entry_in-append (go i) (expand go ks) k false, eq_of_beq i j)

  -- A source that lies below a directory.
  abbrev pub Below : Str → Str → Type 0
  Below k dir =
      (JsMap.has f.entries k ≡ true) × (is_companion_key k ≡ false) × (is_below k dir ≡ true)

  module _ (i : Indexed f) where
    -- A child shown as a directory is one of the index.
    child_dir :
        (dir : Str) (names : List Str) (j : Str)
        → entry_in (children_of f dir names) j true ≡ true
        → (m : Str) × (join dir m ≡ j)
    unfolding entry_in children_of
    child_dir dir [] j h = absurd (ground arith)
    child_dir dir (n ∷ names) j h = elim (Bool-cases (join dir n == j)) [
      | inl here ↦ (n, eq_of_beq (join dir n) j here)
      | inr later ↦ child_dir dir names j (ground arith)
    ]

    named_source :
        (dir m : Str) → in_dirs f.dirs dir m ≡ true → is_companion_key (join dir m) ≡ false
    named_source dir m h =
        let (s, there, source, pair) = listed-source f.entries dir m (sym (i.index dir m) ∙ h) in
        let r = i.rooted s there source in
        let p = path_of s r in
        elim (chain-step p dir m (sym (parts-chain p dir m (Rooted-nil s r)) ∙ pair)) [
          | inl same ↦ rw same source
          | inr (n, w) ↦ is_below-source s (join dir m) (chain-below p (join dir m) n w) source
        ]

    children_file : (dir k : Str) → entry_in (children f dir) k false ≡ true → Below k dir
    unfolding children
    children_file dir k h = elim (Option-cases (JsMap.get f.dirs dir)) [
      | inl e ↦ absurd (unfold entry_in in ground arith)
      | inr (names, e) ↦
          let (m, a, b, c) = child_file dir names k (ground arith) in
          let held : in_dirs f.dirs dir m ≡ true = (unfold in_dirs in ground arith) in
          (
            c,
            subst (λ k. is_companion_key k ≡ false) b (named_source dir m held),
            subst (λ k. is_below k dir ≡ true) b (join-is_below dir m),
          )
    ]

    children_dir :
        (dir j : Str) → entry_in (children f dir) j true ≡ true → (m : Str) × (join dir m ≡ j)
    unfolding children
    children_dir dir j h = elim (Option-cases (JsMap.get f.dirs dir)) [
      | inl e ↦ absurd (unfold entry_in in ground arith)
      | inr (names, e) ↦ child_dir dir names j (ground arith)
    ]

    below-Below :
        (fuel : ℕ) (dir k : Str) → entry_in (below fuel f dir) k false ≡ true → Below k dir
    unfolding below
    below-Below zero dir k h = absurd (unfold entry_in in ground arith)
    below-Below (suc fuel) dir k h = elim (expand-cases (below fuel f) (children f dir) k h) [
      | inl file ↦ children_file dir k file
      | inr (j, a, b) ↦
          let (m, e) = children_dir dir j a in
          let (x, y, z) = below-Below fuel j k b in
          (x, y, is_below-join k dir m (subst (λ j. is_below k j ≡ true) (sym e) z))
    ]

    -- A name of the index is shown with what it names.
    children_named :
        (dir m : Str) (is_dir : Bool)
        → in_dirs f.dirs dir m ≡ true
        → (if is_dir then JsMap.has f.dirs (join dir m) else JsMap.has f.entries (join dir m))
          ≡ true
        → entry_in (children f dir) (join dir m) is_dir ≡ true
    unfolding children in_dirs
    children_named dir m is_dir h t = elim (Option-cases (JsMap.get f.dirs dir)) [
      | inl e ↦ absurd (ground arith)
      | inr (names, e) ↦ rw (children, e) (file_child dir names m is_dir (ground arith) t)
    ]

    in_dirs-has : (dir m : Str) → in_dirs f.dirs dir m ≡ true → JsMap.has f.dirs dir ≡ true
    unfolding in_dirs
    in_dirs-has dir m h = ground (arith, has-eq-get f.dirs dir)

    named :
        (k dir m : Str) (there : JsMap.has f.entries k ≡ true) (source : is_companion_key k ≡ false)
        (r : Rooted k)
        → pair_in (chain (path_of k r)) dir m ≡ true
        → in_dirs f.dirs dir m ≡ true
    named k dir m there source r w =
        i.index dir m
        ∙ source-listed f.entries k dir m there source
            (parts-chain (path_of k r) dir m (Rooted-nil k r) ∙ w)

    -- Each level down is a level nearer to the longest key.
    Below-below :
        (fuel : ℕ) (dir k : Str)
        → longest f.entries < fuel + length dir
        → Below k dir
        → entry_in (below fuel f dir) k false ≡ true
    unfolding below
    Below-below zero dir k h (there, source, lower) =
        let p = path_of k (i.rooted k there source) in
        let (m, w) = below-chain p dir lower in
        absurd (omega (arith, h, chain-length p dir m w, longest-le f.entries k there))
    Below-below (suc fuel) dir k h (there, source, lower) =
        let r = i.rooted k there source in
        let p = path_of k r in
        let (m, w) = below-chain p dir lower in
        let held = named k dir m there source r w in
        elim (chain-step p dir m w) [
          | inl same ↦ expand-file (below fuel f) (children f dir) k (
              subst (λ j. entry_in (children f dir) j false ≡ true) same
                (children_named dir m false held (rw same there)))
          | inr (n, next) ↦
              let under = named k (join dir m) n there source r next in
              expand-dir (below fuel f) (children f dir) (join dir m) k
                (children_named dir m true held (in_dirs-has (join dir m) n under))
                (Below-below fuel (join dir m) k (omega (arith, h, length-append dir (slash ∷ m)))
                  (there, source, chain-below p (join dir m) n next))
        ]

    -- Where the index is kept, the recursive listing of a directory gives exactly the source keys
    -- of the place that start with the directory and a slash.
    pub keys_below-Below : (dir k : Str) → (contains (keys_below f dir) k ≡ true) ↔ Below k dir
    unfolding keys_below
    keys_below-Below dir k = (
      λ h.
          below-Below (suc (longest f.entries)) dir k
            (sym (files_of-entry_in (below (suc (longest f.entries)) f dir) k) ∙ h),
      λ b.
          files_of-entry_in (below (suc (longest f.entries)) f dir) k
          ∙ Below-below (suc (longest f.entries)) dir k (omega arith) b,
    )
