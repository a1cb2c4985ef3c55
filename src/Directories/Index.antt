-- ===== src/Directories/Index.antt =====
-- The directory index of a place is what its source keys imply.
pub mod Removal
use shared_memory_fs.Prelude.{
  ℕ, ◌≡◌, Bool, false, true, ◌&&◌, ◌||◌, not, List, [], ◌∷◌, ◌++◌, Option, none, some, ◌==◌, nat_eq,
  if◌then◌else◌, arith, refl, inl, inr, ◌⊎◌, eq_of_beq, beq_refl, Bool-cases, Option-cases, ◌∙◌,
}
use shared_memory_fs.Prelude.JsMap
use shared_memory_fs.Prelude.JsMap.{JsMap, get-set, get-delete, has-eq-get, is_some}
use shared_memory_fs.Prelude.JsSet
use shared_memory_fs.Prelude.JsSet.{contains, contains-add}
use shared_memory_fs.Prelude.Text.{Str, str_eq}
use shared_memory_fs.Routing.Keys.{slash, is_companion_key}
use shared_memory_fs.Directories.{Dirs, PlaceFiles, parts, add_name, add_names, set_file}
use shared_memory_fs.Directories.Chains.{Rooted, pair_in}

-- A directory of the index holds a name.
unfoldable pub in_dirs : Dirs → Str → Str → Bool
in_dirs dirs x m = elim (JsMap.get dirs x) [ none ↦ false | some names ↦ contains names m ]

-- A source key of the place puts a name into a directory.
unfoldable pub listed : {V : Type 0} → JsMap Str V → Str → Str → Bool
listed [] x m = false
listed ((k, v) ∷ es) x m = not (is_companion_key k) && pair_in (parts k) x m || listed es x m

-- No directory is empty.
abbrev pub Full : Dirs → Type 0
Full dirs = (x : Str) → JsMap.has dirs x ≡ true → (m : Str) × (in_dirs dirs x m ≡ true)

pub record Indexed {V : Type 0} (f : PlaceFiles V) : Type 0 where
  pub index : (x m : Str) → in_dirs f.dirs x m ≡ listed f.entries x m
  pub full : Full f.dirs
  pub rooted : (k : Str) → JsMap.has f.entries k ≡ true → is_companion_key k ≡ false → Rooted k

add_name-in :
    (dirs : Dirs) (d n x m : Str)
    → in_dirs (add_name dirs d n) x m ≡ (in_dirs dirs x m || d == x && n == m)
unfolding in_dirs add_name
add_name-in dirs d n x m = elim (Option-cases (JsMap.get dirs d)) [
  | inl e ↦
      rw (e, add_name) (ground (arith, get-set dirs d x (n ∷ []), eq_of_beq d x, contains_one))
  | inr (names, e) ↦
      rw (e, add_name)
        (ground
          (arith, get-set dirs d x (JsSet.add names n), eq_of_beq d x, contains-add names n m))
]
  where
    contains_one : contains (n ∷ []) m ≡ (n == m)
    contains_one = unfold contains in ground arith

add_names-in :
    (dirs : Dirs) (ps : List (Str × Str)) (x m : Str)
    → in_dirs (add_names dirs ps) x m ≡ (in_dirs dirs x m || pair_in ps x m)
unfolding add_names pair_in
add_names-in dirs [] x m = ground arith
add_names-in dirs ((d, n) ∷ ps) x m =
    ground (arith, add_names-in (add_name dirs d n) ps x m, add_name-in dirs d n x m)

add_name-has :
    (dirs : Dirs) (d n x : Str) → JsMap.has (add_name dirs d n) x ≡ (d == x || JsMap.has dirs x)
unfolding add_name
add_name-has dirs d n x = elim (Option-cases (JsMap.get dirs d)) [
  | inl e ↦
      rw (e, add_name)
        (ground (
          arith,
          has-eq-get (JsMap.set dirs d (n ∷ [])) x,
          has-eq-get dirs x,
          get-set dirs d x (n ∷ []),
        ))
  | inr (names, e) ↦
      rw (e, add_name)
        (ground (
          arith,
          has-eq-get (JsMap.set dirs d (JsSet.add names n)) x,
          has-eq-get dirs x,
          get-set dirs d x (JsSet.add names n),
        ))
]

add_names-Full : (dirs : Dirs) (ps : List (Str × Str)) → Full dirs → Full (add_names dirs ps)
unfolding add_names
add_names-Full dirs [] f = f
add_names-Full dirs ((d, n) ∷ ps) f = add_names-Full (add_name dirs d n) ps (λ x h.
    elim (Bool-cases (d == x)) [
      | inl same ↦ (n, ground (arith, add_name-in dirs d n x n, beq_refl n))
      | inr other ↦
          let (m, w) = f x (ground (arith, add_name-has dirs d n x)) in
          (m, ground (arith, add_name-in dirs d n x m))
    ])

module _ {V : Type 0} where
  listed-set_new :
      (es : JsMap Str V) (k x m : Str) (v : V)
      → JsMap.has es k ≡ false
      → listed (JsMap.set es k v) x m
        ≡ (listed es x m || not (is_companion_key k) && pair_in (parts k) x m)
  unfolding listed JsMap.set JsMap.has
  listed-set_new [] k x m v h = ground arith
  listed-set_new ((j, w) ∷ es) k x m v h = ground (arith, listed-set_new es k x m v)

  listed-set_old :
      (es : JsMap Str V) (k x m : Str) (v : V)
      → JsMap.has es k ≡ true
      → listed (JsMap.set es k v) x m ≡ listed es x m
  unfolding listed JsMap.set JsMap.has
  listed-set_old [] k x m v h = absurd (ground arith)
  listed-set_old ((j, w) ∷ es) k x m v h = ground (arith, listed-set_old es k x m v, eq_of_beq j k)

  pub listed-delete :
      (es : JsMap Str V) (k x m : Str)
      → listed es x m ≡ (
          listed (JsMap.delete es k) x m
          || JsMap.has es k && (not (is_companion_key k) && pair_in (parts k) x m))
  unfolding listed JsMap.delete JsMap.has
  listed-delete [] k x m = ground arith
  listed-delete ((j, w) ∷ es) k x m = ground (arith, listed-delete es k x m, eq_of_beq j k)

  -- The source that puts a name into a directory.
  pub listed-source :
      (es : JsMap Str V) (x m : Str)
      → listed es x m ≡ true
      → (k : Str) × (JsMap.has es k ≡ true)
        × (is_companion_key k ≡ false)
        × (pair_in (parts k) x m ≡ true)
  unfolding listed JsMap.has
  listed-source [] x m h = absurd (ground arith)
  listed-source ((k, v) ∷ es) x m h =
      elim (Bool-cases (not (is_companion_key k) && pair_in (parts k) x m)) [
        | inl here ↦ (k, ground (arith, beq_refl k), ground arith, ground arith)
        | inr later ↦
            let (j, a, b, c) = listed-source es x m (ground arith) in (j, ground arith, b, c)
      ]

  pub source-listed :
      (es : JsMap Str V) (k x m : Str)
      → JsMap.has es k ≡ true
      → is_companion_key k ≡ false
      → pair_in (parts k) x m ≡ true
      → listed es x m ≡ true
  source-listed es k x m a b c = rw (listed-delete es k x m) (ground arith)

  pub has-set :
      (es : JsMap Str V) (k j : Str) (v : V)
      → JsMap.has (JsMap.set es k v) j ≡ (k == j || JsMap.has es j)
  has-set es k j v =
      ground (arith, has-eq-get (JsMap.set es k v) j, has-eq-get es j, get-set es k j v)

  pub has-delete :
      (es : JsMap Str V) (k j : Str)
      → JsMap.has (JsMap.delete es k) j ≡ (not (k == j) && JsMap.has es j)
  has-delete es k j =
      ground (arith, has-eq-get (JsMap.delete es k) j, has-eq-get es j, get-delete es k j)

  -- Setting a companion key or a rooted source key keeps the index: its directories hold exactly
  -- the names that the source keys imply, and none is empty.
  pub set_file-Indexed :
      (f : PlaceFiles V) (key : Str) (entry : V)
      → Indexed f
      → (is_companion_key key ≡ true) ⊎ Rooted key
      → Indexed (set_file f key entry)
  unfolding set_file
  set_file-Indexed f key entry i r =
      elim (Bool-cases (not (is_companion_key key) && not (JsMap.has f.entries key))) [
        | inl new ↦ rw new (record {
          index = λ x m. ground (
            arith,
            add_names-in f.dirs (parts key) x m,
            i.index x m,
            listed-set_new f.entries key x m entry,
          );
          full = add_names-Full f.dirs (parts key) i.full;
          rooted = still;
        })
        | inr old ↦ rw old (record {
          index = λ x m. ground (
            arith,
            i.index x m,
            listed-set_old f.entries key x m entry,
            listed-set_new f.entries key x m entry,
          );
          full = i.full;
          rooted = still;
        })
      ]
    where
      rooted_key :
          is_companion_key key ≡ false → (is_companion_key key ≡ true) ⊎ Rooted key → Rooted key
      rooted_key no_companion (inl c) = absurd (cc)
      rooted_key no_companion (inr k) = k

      still :
          (k : Str)
          → JsMap.has (JsMap.set f.entries key entry) k ≡ true
          → is_companion_key k ≡ false
          → Rooted k
      still k h c = elim (Bool-cases (key == k)) [
        | inl same ↦ rw (← eq_of_beq key k same) (rooted_key (rw (eq_of_beq key k same) c) r)
        | inr other ↦ i.rooted k (ground (arith, has-set f.entries key k entry)) c
      ]
