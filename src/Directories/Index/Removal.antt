-- ===== src/Directories/Index/Removal.antt =====
-- Removing a key takes out of the index what no other source implies, and nothing else.
use shared_memory_fs.Prelude.{
  ℕ, zero, suc, ◌≤◌, ◌≡◌, Bool, false, true, ◌&&◌, ◌||◌, not, List, [], ◌∷◌, some, ◌==◌, nat_eq,
  arith, refl, inl, inr, ◌⊎◌, eq_of_beq, beq_refl, Bool-cases, Option-cases, ◌∙◌, length,
  length-append, ap, sym, subst,
}
use shared_memory_fs.Prelude.JsMap
use shared_memory_fs.Prelude.JsMap.{JsMap, get-set, get-delete, has-eq-get, is_some}
use shared_memory_fs.Prelude.JsSet
use shared_memory_fs.Prelude.JsSet.{contains, contains-append, contains-remove}
use shared_memory_fs.Prelude.Text.{Str, str_eq}
use shared_memory_fs.Routing.Keys.{slash, nul, is_companion_key}
use shared_memory_fs.Directories.{Dirs, PlaceFiles, parts, unlink, split_child, is_nil, delete_file}
use shared_memory_fs.Directories.Chains.{
  KeyPath, top, child, join, Rooted, pair_in, chain, parts-chain, chain-top, chain-above,
  chain-step, chain-length, last_slash-join, path_of,
}
use shared_memory_fs.Directories.Index.{
  in_dirs, listed, Full, Indexed, listed-delete, listed-source, source-listed, has-delete,
}

-- What the loop has still to settle: the pairs above a child.
unfoldable above : Str → Str → Str → Bool
above c x m = not (is_nil c) && pair_in (parts c) x m

above-chain : {c : Str} (p : KeyPath c) (x m : Str) → above c x m ≡ pair_in (chain p) x m
unfolding above
above-chain {c} p x m = elim (Bool-cases (is_nil c)) [
  | inl nothing ↦ ground (arith, chain-top p x m nothing)
  | inr some_key ↦ ground (arith, parts-chain p x m some_key)
]

module _ {V : Type 0} (es : JsMap Str V)
    (rooted : (k : Str) → JsMap.has es k ≡ true → is_companion_key k ≡ false → Rooted k) where
  -- The index is the sources' and a child's.
  abbrev Pending : Dirs → Str → Type 0
  Pending dirs c = (x m : Str) → in_dirs dirs x m ≡ (listed es x m || above c x m)

  -- A source below a directory puts all that is above the directory into the index.
  below-listed :
      (c m x y : Str)
      → is_nil c ≡ false
      → listed es c m ≡ true
      → above c x y ≡ true
      → listed es x y ≡ true
  unfolding above
  below-listed c m x y nz h a =
      let (k, there, source, pair) = listed-source es c m h in
      let p = path_of k (rooted k there source) in
      let nk = Rooted-nil k (rooted k there source) in
      source-listed es k x y there source (
        parts-chain p x y nk
        ∙ chain-above p c m (sym (parts-chain p c m nk) ∙ pair) nz x y (ground arith))
    where
      Rooted-nil : (k : Str) → Rooted k → is_nil k ≡ false
      Rooted-nil k (s, e) = rw e refl

  -- Where the loop stops at a child, what is above the child is a source's.
  settled :
      (dirs : Dirs) (c : Str) (p : KeyPath c)
      → is_companion_key c ≡ false
      → Full dirs
      → Pending dirs c
      → (is_nil c || JsMap.has es c || JsMap.has dirs c) ≡ true
      → (x m : Str) → in_dirs dirs x m ≡ listed es x m
  settled dirs c p source full pending stop x m = elim (Bool-cases (above c x m)) [
    | inr no_pair ↦ ground (arith, pending x m)
    | inl pair ↦
        ground
          (arith, pending x m, by_reason (Bool-cases (is_nil c)) (Bool-cases (JsMap.has es c)) pair)
  ]
    where
      by_reason :
          ((is_nil c ≡ true) ⊎ (is_nil c ≡ false))
          → (JsMap.has es c ≡ true) ⊎ (JsMap.has es c ≡ false)
          → above c x m ≡ true
          → listed es x m ≡ true
      by_reason (inl nothing) h pair = unfold above in absurd (ground arith)
      by_reason (inr nz) (inl there) pair =
          unfold above in source-listed es c x m there source (ground arith)
      by_reason (inr nz) (inr gone) pair =
          let (n, w) = full c (ground arith) in
          let no_self : above c c n ≡ false = not_above n (Bool-cases (above c c n)) in
          below-listed c n x m nz (ground (arith, pending c n, w, no_self)) pair
        where
          not_above :
              (n : Str) → ((above c c n ≡ true) ⊎ (above c c n ≡ false)) → above c c n ≡ false
          not_above n (inl h) =
              absurd (omega (arith, chain-length p c n (sym (above-chain p c n) ∙ h)))
          not_above n (inr h) = h

  -- One round: a name that nothing bears leaves its directory.
  module _ (dirs : Dirs) (d n : Str) (p : KeyPath d) (clean : contains n slash ≡ false)
      (full : Full dirs) (pending : Pending dirs (join d n))
      (go_on : (is_nil (join d n) || JsMap.has es (join d n) || JsMap.has dirs (join d n))
        ≡ false) where
    abbrev whole : KeyPath (join d n)
    whole = child d n p clean refl

    above_whole : (x m : Str) → above (join d n) x m ≡ (d == x && n == m || above d x m)
    above_whole x m =
        unfold pair_in chain in ground (arith, above-chain whole x m, above-chain p x m)

    held : in_dirs dirs d n ≡ true
    held = ground (arith, pending d n, above_whole d n, beq_refl d, beq_refl n)

    has_name : (x m : Str) → in_dirs dirs x m ≡ true → JsMap.has dirs x ≡ true
    has_name x m h = unfold in_dirs in ground (arith, has-eq-get dirs x)

    unlisted : listed es d n ≡ false
    unlisted = elim (Bool-cases (listed es d n)) [
      | inr no' ↦ no'
      | inl h ↦
          let (k, there, source, pair) = listed-source es d n h in
          let k_path = path_of k (rooted k there source) in
          let nk = nonempty k (rooted k there source) in
          elim (chain-step k_path d n (sym (parts-chain k_path d n nk) ∙ pair)) [
            | inl same ↦ absurd (ground (arith, same))
            | inr (m, w) ↦ absurd (
                ground (
                  arith,
                  source-listed es k (join d n) m there source
                      (parts-chain k_path (join d n) m nk ∙ w),
                  pending (join d n) m,
                  has_name (join d n) m,
                ))
          ]
    ]
      where
        nonempty : (k : Str) → Rooted k → is_nil k ≡ false
        nonempty k (s, e) = rw e refl

    apart : above d d n ≡ false
    apart = elim (Bool-cases (above d d n)) [
      | inr no' ↦ no'
      | inl h ↦ absurd (omega (arith, chain-length p d n (sym (above-chain p d n) ∙ h)))
    ]

    -- The directories without the name.
    cut-Pending :
        (less : Dirs)
        → ((x m : Str) → in_dirs less x m ≡ (in_dirs dirs x m && not (d == x && n == m)))
        → Pending less d
    cut-Pending less h x m =
        ground (
          arith,
          h x m,
          pending x m,
          above_whole x m,
          unlisted,
          apart,
          eq_of_beq d x,
          eq_of_beq n m,
        )

    cut-set :
        (names : List Str)
        → JsMap.get dirs d ≡ some names
        → (x m : Str)
        → in_dirs (JsMap.set dirs d (JsSet.remove names n)) x m
          ≡ (in_dirs dirs x m && not (d == x && n == m))
    cut-set names e x m =
        unfold in_dirs in
        ground
          (arith, get-set dirs d x (JsSet.remove names n), contains-remove names n m, eq_of_beq d x)

    nothing_left : (names : List Str) (m : Str) → is_nil names ≡ true → contains names m ≡ false
    nothing_left [] m h = unfold contains in refl
    nothing_left (a ∷ names) m h = absurd (ground arith)

    cut-delete :
        (names : List Str)
        → JsMap.get dirs d ≡ some names
        → is_nil (JsSet.remove names n) ≡ true
        → (x m : Str)
        → in_dirs (JsMap.delete dirs d) x m ≡ (in_dirs dirs x m && not (d == x && n == m))
    cut-delete names e z x m =
        unfold in_dirs in
        ground (
          arith,
          get-delete dirs d x,
          contains-remove names n m,
          eq_of_beq d x,
          nothing_left (JsSet.remove names n) m z,
        )

    cut-Full :
        (names : List Str)
        → JsMap.get dirs d ≡ some names
        → is_nil (JsSet.remove names n) ≡ false
        → Full (JsMap.set dirs d (JsSet.remove names n))
    cut-Full names e left x h = elim (Bool-cases (d == x)) [
      | inl same ↦
          let (m, w) = some_name (JsSet.remove names n) left in
          (m, unfold in_dirs in ground (arith, get-set dirs d x (JsSet.remove names n), w))
      | inr other ↦
          let (m, w) = full x (
            ground (
              arith,
              has-eq-get (JsMap.set dirs d (JsSet.remove names n)) x,
              has-eq-get dirs x,
              get-set dirs d x (JsSet.remove names n),
            )) in
          (m, unfold in_dirs in ground (arith, get-set dirs d x (JsSet.remove names n), w))
    ]
      where
        some_name : (l : List Str) → is_nil l ≡ false → (m : Str) × (contains l m ≡ true)
        some_name [] h = absurd (cc)
        some_name (a ∷ l) h = (a, unfold contains in ground (arith, beq_refl a))

    drop-Full : Full (JsMap.delete dirs d)
    drop-Full x h =
        let there : (JsMap.has dirs x ≡ true) × ((d == x) ≡ false) =
          ground
            (arith, has-eq-get (JsMap.delete dirs d) x, has-eq-get dirs x, get-delete dirs d x) in
        let (m, w) = full x there.0 in (m, unfold in_dirs in ground (arith, get-delete dirs d x, w))

  abbrev Done : Dirs → Type 0
  Done dirs = Full dirs × ((x m : Str) → in_dirs dirs x m ≡ listed es x m)

  split_join : (d n : Str) → contains n slash ≡ false → split_child (join d n) ≡ (d, n)
  unfolding split_child
  split_join d n clean = ground (arith, last_slash-join d n clean)

  source_above : (d n : Str) → is_companion_key (join d n) ≡ false → is_companion_key d ≡ false
  unfolding is_companion_key
  source_above d n h = ground (arith, contains-append d (slash ∷ n) nul)

  -- The two ways on from a round.
  module _ (fuel : ℕ) (dirs : Dirs) (d n : Str) (names : List Str)
      (clean : contains n slash ≡ false)
      (go_on : (is_nil (join d n) || JsMap.has es (join d n) || JsMap.has dirs (join d n)) ≡ false)
      (e : JsMap.get dirs d ≡ some names) (has_it : contains names n ≡ true) where
    unlink-last :
        is_nil (JsSet.remove names n) ≡ true
        → unlink (suc fuel) es dirs (join d n) ≡ unlink fuel es (JsMap.delete dirs d) d
    unfolding unlink
    unlink-last z = ground (arith, split_join d n clean)

    unlink-one :
        is_nil (JsSet.remove names n) ≡ false
        → unlink (suc fuel) es dirs (join d n) ≡ JsMap.set dirs d (JsSet.remove names n)
    unfolding unlink
    unlink-one left = ground (arith, split_join d n clean)

  -- One round of the loop, given the next one.
  round :
      (fuel : ℕ) (dirs : Dirs) (d n : Str) (p : KeyPath d)
      → contains n slash ≡ false
      → is_companion_key (join d n) ≡ false
      → Full dirs
      → Pending dirs (join d n)
      → ((less : Dirs) → Full less → Pending less d → Done (unlink fuel es less d))
      → Done (unlink (suc fuel) es dirs (join d n))
  unfolding unlink
  round fuel dirs d n p clean s full pending rest =
      elim (Bool-cases
        (is_nil (join d n) || JsMap.has es (join d n) || JsMap.has dirs (join d n))) [
          | inl stop ↦
              rw stop (full, settled dirs (join d n) (child d n p clean refl) s full pending stop)
          | inr go_on ↦ elim (Option-cases (JsMap.get dirs d)) [
            | inl none_there ↦
                absurd (unfold in_dirs in ground (arith, held dirs d n p clean full pending go_on))
            | inr (names, e) ↦
                let has_it : contains names n ≡ true =
                  (unfold in_dirs in ground (arith, held dirs d n p clean full pending go_on)) in
                elim (Bool-cases (is_nil (JsSet.remove names n))) [
                  | inl z ↦ rw (unlink-last fuel dirs d n names clean go_on e has_it z) (
                      rest (JsMap.delete dirs d) (drop-Full dirs d n p clean full pending go_on) (
                        cut-Pending dirs d n p clean full pending go_on (JsMap.delete dirs d)
                          (cut-delete dirs d n p clean full pending go_on names e z)))
                  | inr left ↦
                      let less = JsMap.set dirs d (JsSet.remove names n) in
                      let still = cut-Full dirs d n p clean full pending go_on names e left in
                      rw (unlink-one fuel dirs d n names clean go_on e has_it left) (
                        still,
                        settled less d p (source_above d n s) still
                            (cut-Pending dirs d n p clean full pending go_on less
                              (cut-set dirs d n p clean full pending go_on names e))
                            (ground (
                              arith,
                              has-eq-get less d,
                              get-set dirs d d (JsSet.remove names n),
                              beq_refl d,
                            )),
                      )
                ]
          ]
        ]

  -- The loop leaves the index of the sources.
  unlink-Indexed :
      (fuel : ℕ) (dirs : Dirs) {c : Str} (p : KeyPath c)
      → length c ≤ fuel
      → is_companion_key c ≡ false
      → Full dirs
      → Pending dirs c
      → Done (unlink fuel es dirs c)
  unfolding unlink
  unlink-Indexed zero dirs top h s full pending = (full, settled dirs [] top s full pending refl)
  unlink-Indexed (suc fuel) dirs top h s full pending =
      (full, settled dirs [] top s full pending refl)
  unlink-Indexed zero dirs (child d n p clean e) h s full pending =
      absurd (omega (arith, ap length e, length-append d (slash ∷ n)))
  unlink-Indexed (suc fuel) dirs {c} (child d n p clean e) h s full pending =
      let s' : is_companion_key (join d n) ≡ false = subst (λ k. is_companion_key k ≡ false) e s in
      subst (λ k. Done (unlink (suc fuel) es dirs k)) (sym e)
        (round fuel dirs d n p clean s' full (subst (λ k. Pending dirs k) e pending) (λ less f q.
          unlink-Indexed fuel less p (omega (arith, ap length e, length-append d (slash ∷ n)))
            (source_above d n s') f q))

module _ {V : Type 0} where
  -- Deleting a key keeps the index: its directories hold exactly the names that the source keys
  -- left imply, and none is empty.
  pub delete_file-Indexed :
      (f : PlaceFiles V) (key : Str) → Indexed f → Indexed (delete_file f key).0
  unfolding delete_file
  delete_file-Indexed f key i = elim (Bool-cases (JsMap.has f.entries key)) [
    | inr gone ↦ rw gone i
    | inl there ↦ rw there (elim (Bool-cases (is_companion_key key)) [
      | inl companion ↦ rw companion (record {
        index = λ x m. i.index x m ∙ ground (arith, listed-delete f.entries key x m);
        full = i.full;
        rooted = still;
      })
      | inr source ↦
          let r = i.rooted key there source in
          let p = path_of key r in
          let d =
            unlink-Indexed (JsMap.delete f.entries key) still (length key) f.dirs p (omega arith)
              source i.full
              (λ x m.
                unfold above in
                ground (arith, i.index x m, listed-delete f.entries key x m, nonempty r)) in
          rw source (record { index = d.1; full = d.0; rooted = still })
    ])
  ]
    where
      still :
          (k : Str)
          → JsMap.has (JsMap.delete f.entries key) k ≡ true
          → is_companion_key k ≡ false
          → Rooted k
      still k h c = i.rooted k (ground (arith, has-delete f.entries key k)) c

      nonempty : Rooted key → is_nil key ≡ false
      nonempty (s, e) = rw e refl
