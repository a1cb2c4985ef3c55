-- ===== src/Directories/Below.antt =====
-- What a directory of the index is: a source key lies below it.
use shared_memory_fs.Prelude.{
  ℕ, ◌≡◌, Bool, false, true, ◌&&◌, [], ◌∷◌, ◌++◌, ◌==◌, nat_eq, arith, refl, inl, inr, ◌⊎◌, ◌↔◌,
  eq_of_beq, beq_refl, Bool-cases, ◌∙◌, sym, subst,
}
use shared_memory_fs.Prelude.JsMap
use shared_memory_fs.Prelude.JsMap.{JsMap, has-eq-get, is_some}
use shared_memory_fs.Prelude.JsSet.{contains, contains-append}
use shared_memory_fs.Prelude.Text.{Str, str_eq}
use shared_memory_fs.Routing.Keys.{slash, nul, starts_with, is_companion_key}
use shared_memory_fs.Directories.{PlaceFiles, has_directory, is_nil}
use shared_memory_fs.Directories.Chains.{
  KeyPath, top, child, join, Rooted, pair_in, chain, parts-chain, path_of,
}
use shared_memory_fs.Directories.Index.{Indexed, in_dirs, listed-source, source-listed}

-- `k.startsWith(d + '/')`
abbrev pub is_below : Str → Str → Bool
is_below k d = starts_with k (join d [])

pub starts_with-append : (a b c : Str) → starts_with a c ≡ true → starts_with (a ++ b) c ≡ true
unfolding starts_with
starts_with-append a b [] h = any_start (a ++ b)
  where
    any_start : (s : Str) → starts_with s [] ≡ true
    any_start [] = refl
    any_start (c ∷ s) = refl
starts_with-append [] b (x ∷ c) h = absurd (ground arith)
starts_with-append (y ∷ a) b (x ∷ c) h = ground (arith, starts_with-append a b c)

pub join-is_below : (d n : Str) → is_below (join d n) d ≡ true
unfolding starts_with
join-is_below [] [] = refl
join-is_below [] (c ∷ n) = refl
join-is_below (c ∷ d) n = ground (arith, join-is_below d n)

clean-is_below : (n d : Str) → contains n slash ≡ false → is_below n d ≡ false
unfolding starts_with contains
clean-is_below [] [] h = refl
clean-is_below [] (c ∷ d) h = refl
clean-is_below (a ∷ n) [] h = ground arith
clean-is_below (a ∷ n) (c ∷ d) h = ground (arith, clean-is_below n d)

-- What a child of a directory lies below.
pub join-cases :
    (a n d : Str)
    → contains n slash ≡ false
    → is_below (join a n) d ≡ true
    → (d ≡ a) ⊎ (is_below a d ≡ true)
unfolding starts_with
join-cases [] n [] c h = inl refl
join-cases [] n (x ∷ d) c h = absurd (ground (arith, clean-is_below n d))
join-cases (y ∷ a) n [] c h = inr (ground arith)
join-cases (y ∷ a) n (x ∷ d) c h = elim (join-cases a n d c (ground arith)) [
  | inl e ↦ inl (ground (arith, eq_of_beq y x, e))
  | inr b ↦ inr (ground arith)
]

pub chain-below :
    {k : Str} (p : KeyPath k) (d m : Str) → pair_in (chain p) d m ≡ true → is_below k d ≡ true
unfolding chain pair_in
chain-below top d m h = absurd (ground arith)
chain-below (child a n p c e) d m h = elim (Bool-cases (a == d && n == m)) [
  | inl last ↦
      let same : a ≡ d = ground (arith, eq_of_beq a d) in rw (e, ← same) (join-is_below a n)
  | inr before ↦
      rw e (starts_with-append a (slash ∷ n) (join d []) (chain-below p d m (ground arith)))
]

pub below-chain :
    {k : Str} (p : KeyPath k) (d : Str)
    → is_below k d ≡ true
    → (m : Str) × (pair_in (chain p) d m ≡ true)
unfolding chain pair_in
below-chain top d h = absurd (no_start d h)
  where
    no_start : (d : Str) → is_below [] d ≡ true → ⊥
    no_start [] h = unfold starts_with in ground arith
    no_start (c ∷ d) h = unfold starts_with in ground arith
below-chain (child a n p c e) d h =
    elim (join-cases a n d c (subst (λ k. is_below k d ≡ true) e h)) [
      | inl same ↦ (n, ground (arith, same, beq_refl a, beq_refl n))
      | inr lower ↦ let (m, w) = below-chain p d lower in (m, ground arith)
    ]

pub Rooted-nil : (k : Str) → Rooted k → is_nil k ≡ false
Rooted-nil k (s, e) = rw e refl

-- A source key below a directory.
abbrev pub SourceBelow : {V : Type 0} → PlaceFiles V → Str → Type 0
SourceBelow f d =
    (k : Str) × (JsMap.has f.entries k ≡ true)
    × (is_companion_key k ≡ false)
    × (is_below k d ≡ true)

-- Where the index is kept, a directory is in it if and only if some source key starts with it and
-- a slash.
pub has_directory-SourceBelow :
    {V : Type 0} (f : PlaceFiles V) (d : Str)
    → Indexed f
    → (has_directory f d ≡ true) ↔ SourceBelow f d
has_directory-SourceBelow f d i = (found, from_source)
  where
    found : has_directory f d ≡ true → SourceBelow f d
    found h =
        let (m, w) = i.full d h in
        let (k, there, source, pair) = listed-source f.entries d m (sym (i.index d m) ∙ w) in
        let r = i.rooted k there source in
        let p = path_of k r in
        (k, there, source, chain-below p d m (sym (parts-chain p d m (Rooted-nil k r)) ∙ pair))

    from_source : SourceBelow f d → has_directory f d ≡ true
    from_source (k, there, source, lower) =
        let r = i.rooted k there source in
        let p = path_of k r in
        let (m, w) = below-chain p d lower in
        let l =
          source-listed f.entries k d m there source (parts-chain p d m (Rooted-nil k r) ∙ w) in
        unfold in_dirs in ground (arith, i.index d m, has-eq-get f.dirs d)

starts_with_trans :
    (a b c : Str) → starts_with a b ≡ true → starts_with b c ≡ true → starts_with a c ≡ true
unfolding starts_with
starts_with_trans a b [] h k = starts_nil a
  where
    starts_nil : (s : Str) → starts_with s [] ≡ true
    starts_nil [] = refl
    starts_nil (c ∷ s) = refl
starts_with_trans a [] (z ∷ c) h k = absurd (ground arith)
starts_with_trans [] (y ∷ b) (z ∷ c) h k = absurd (ground arith)
starts_with_trans (x ∷ a) (y ∷ b) (z ∷ c) h k =
    ground (arith, starts_with_trans a b c, eq_of_beq x y, eq_of_beq y z)

-- Below a subdirectory is below its directory.
pub is_below-join : (k d m : Str) → is_below k (join d m) ≡ true → is_below k d ≡ true
is_below-join k d m h =
    starts_with_trans k (join (join d m) []) (join d []) h
      (starts_with-append (join d m) (slash ∷ []) (join d []) (join-is_below d m))

starts_with-source :
    (a b : Str) (c : ℕ) → starts_with a b ≡ true → contains a c ≡ false → contains b c ≡ false
unfolding starts_with contains
starts_with-source a [] c h k = refl
starts_with-source [] (y ∷ b) c h k = absurd (ground arith)
starts_with-source (x ∷ a) (y ∷ b) c h k =
    ground (arith, starts_with-source a b c, eq_of_beq x y, eq_of_beq y x)

-- What a source key lies below is no companion key.
pub is_below-source :
    (k d : Str) → is_below k d ≡ true → is_companion_key k ≡ false → is_companion_key d ≡ false
unfolding is_companion_key
is_below-source k d h c =
    ground (arith, starts_with-source k (join d []) nul h c, contains-append d (slash ∷ []) nul)

-- What lies below a directory is a join.
pub is_below-split : (k d : Str) → is_below k d ≡ true → (m : Str) × (k ≡ join d m)
unfolding starts_with
is_below-split [] [] h = absurd (ground arith)
is_below-split [] (y ∷ d) h = absurd (ground arith)
is_below-split (x ∷ k) [] h = (k, ground (arith, eq_of_beq x slash))
is_below-split (x ∷ k) (y ∷ d) h =
    let (m, e) = is_below-split k d (ground arith) in (m, ground (arith, eq_of_beq x y, e))

-- The same directory in front of both.
pub is_below-shift : (d a b : Str) → is_below (d ++ a) (d ++ b) ≡ is_below a b
unfolding starts_with
is_below-shift [] a b = refl
is_below-shift (c ∷ d) a b = ground (arith, is_below-shift d a b, beq_refl c)

-- A join lies below a key that its directory lies below, that is its directory, or that lies below it.
pub join-above :
    (d m j : Str)
    → is_below (join d m) j ≡ true
    → (is_below d j ≡ true) ⊎ ((d ≡ j) ⊎ (is_below j d ≡ true))
unfolding starts_with
join-above [] m [] h = inr (inl refl)
join-above [] m (y ∷ j) h = inr (inr (ground arith))
join-above (x ∷ d) m [] h = inl (ground arith)
join-above (x ∷ d) m (y ∷ j) h = elim (join-above d m j (ground arith)) [
  | inl a ↦ inl (ground arith)
  | inr (inl e) ↦ inr (inl (ground (arith, eq_of_beq x y)))
  | inr (inr b) ↦ inr (inr (ground arith))
]
