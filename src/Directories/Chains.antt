-- ===== src/Directories/Chains.antt =====
-- The directories above a key, as `#link` finds them from the front and `#unlink` from the end.
use shared_memory_fs.Prelude.{
  ℕ, ◌<◌, ◌≡◌, Bool, false, true, ◌&&◌, ◌||◌, List, [], ◌∷◌, ◌++◌, none, some, ◌==◌, nat_eq, length,
  length-append, arith, refl, inl, inr, ◌⊎◌, eq_of_beq, beq_refl, Bool-cases, ◌∙◌, sym,
}
use mathlib.Core.List.{append-nil, append_assoc}
use shared_memory_fs.Prelude.JsSet.{contains, contains-append}
use shared_memory_fs.Prelude.Text.{Str, str_eq}
use shared_memory_fs.Routing.Keys.{slash}
use shared_memory_fs.Directories.{walk, parts, last_slash, is_nil}

-- A name, or a file in a directory.
abbrev pub join : Str → Str → Str
join d n = d ++ (slash ∷ n)

-- A key is built from the place root by names without slashes.
pub data KeyPath : Str → Type 0 where
  top : KeyPath []
  child : {k : Str} (d n : Str) → KeyPath d → contains n slash ≡ false → k ≡ join d n → KeyPath k

-- Membership of a directory and a name.
unfoldable pub pair_in : List (Str × Str) → Str → Str → Bool
pair_in [] x m = false
pair_in ((d, n) ∷ ps) x m = d == x && n == m || pair_in ps x m

unfoldable pub chain : {k : Str} → KeyPath k → List (Str × Str)
chain top = []
chain (child d n p c e) = (d, n) ∷ chain p

walk-clean :
    (sep : ℕ) (dir name n : Str)
    → contains n slash ≡ false
    → walk sep dir name n ≡ (dir, name ++ n) ∷ []
unfolding walk contains
walk-clean sep dir name [] h = rw append-nil refl
walk-clean sep dir name (c ∷ n) h =
    let ne : (c == slash) ≡ false = ground arith in
    rw (ne, walk) (walk-clean sep dir (name ++ (c ∷ [])) n (ground arith) ∙ rw append_assoc refl)

-- The last pair of a longer key, and those before it.
walk-join :
    (sep : ℕ) (dir name s n x m : Str)
    → contains n slash ≡ false
    → pair_in (walk sep dir name (join s n)) x m
      ≡ (pair_in (walk sep dir name s) x m || ((dir ++ (sep ∷ (name ++ s))) == x && n == m))
unfolding walk pair_in
walk-join sep dir name [] n x m h =
    rw (walk-clean slash (dir ++ (sep ∷ name)) [] n h, append-nil) (ground arith)
walk-join sep dir name (c ∷ s) n x m h = elim (Bool-cases (c == slash)) [
  | inl e ↦
      let same : (dir ++ (sep ∷ (name ++ (c ∷ s)))) ≡ ((dir ++ (sep ∷ name)) ++ (slash ∷ s)) =
        rw (eq_of_beq c slash e) (sym (append_assoc dir (sep ∷ name) (slash ∷ s))) in
      rw (e, walk, same, walk-join slash (dir ++ (sep ∷ name)) [] s n x m h) (ground arith)
  | inr e ↦
      let same : (dir ++ (sep ∷ (name ++ (c ∷ s)))) ≡ (dir ++ (sep ∷ ((name ++ (c ∷ [])) ++ s))) =
        rw append_assoc refl in
      rw (e, walk, same) (walk-join sep dir (name ++ (c ∷ [])) s n x m h)
]

pub chain-top :
    {k : Str} (p : KeyPath k) (x m : Str) → is_nil k ≡ true → pair_in (chain p) x m ≡ false
unfolding chain pair_in
chain-top top x m h = refl
chain-top (child [] n p c e) x m h = absurd (ground (arith, e))
chain-top (child (a ∷ s) n p c e) x m h = absurd (ground (arith, e))

-- From the front and from the end: the same pairs.
pub parts-chain :
    {k : Str} (p : KeyPath k) (x m : Str)
    → is_nil k ≡ false
    → pair_in (parts k) x m ≡ pair_in (chain p) x m
unfolding parts pair_in chain
parts-chain top x m h = absurd (ground arith)
parts-chain (child [] n p c e) x m h =
    rw (e, walk-clean slash [] [] n c) (ground (arith, chain-top p x m refl))
parts-chain (child (a ∷ s) n p c e) x m h =
    rw (e, walk-join a [] [] s n x m c) (ground (arith, parts-chain p x m refl))

last_slash-clean : (n : Str) → contains n slash ≡ false → last_slash n ≡ none
unfolding last_slash contains
last_slash-clean [] h = refl
last_slash-clean (c ∷ n) h = ground (arith, last_slash-clean n)

pub last_slash-join : (d n : Str) → contains n slash ≡ false → last_slash (join d n) ≡ some (d, n)
unfolding last_slash
last_slash-join [] n h = ground (arith, last_slash-clean n h)
last_slash-join (c ∷ d) n h = ground (arith, last_slash-join d n h)

-- Every rooted key is a path.
build :
    (rest d name k : Str)
    → KeyPath d
    → contains name slash ≡ false
    → k ≡ d ++ (slash ∷ (name ++ rest))
    → KeyPath k
unfolding contains
build [] d name k p h e = child d name p h (e ∙ rw append-nil refl)
build (c ∷ rest) d name k p h e = elim (Bool-cases (c == slash)) [
  | inl s ↦
      build rest (join d name) [] k (child d name p h refl) refl
        (e ∙ rw (eq_of_beq c slash s) (sym (append_assoc d (slash ∷ name) (slash ∷ rest))))
  | inr s ↦
      build rest d (name ++ (c ∷ [])) k p (ground (arith, contains-append name (c ∷ []) slash))
        (e ∙ rw append_assoc refl)
]

-- A source key starts with a slash.
abbrev pub Rooted : Str → Type 0
Rooted k = (s : Str) × (k ≡ slash ∷ s)

pub path_of : (k : Str) → Rooted k → KeyPath k
unfolding contains
path_of k (s, e) = build s [] [] k top refl e

-- What is above a directory is above what it holds.
pub chain-above :
    {k : Str} (p : KeyPath k) (c m : Str)
    → pair_in (chain p) c m ≡ true
    → is_nil c ≡ false
    → (x y : Str) → pair_in (parts c) x y ≡ true
    → pair_in (chain p) x y ≡ true
unfolding chain pair_in
chain-above top c m h nz x y g = absurd (ground arith)
chain-above (child d n p cl e) c m h nz x y g = elim (Bool-cases (d == c)) [
  | inl same ↦ ground (arith, parts-chain p x y, eq_of_beq d c same)
  | inr other ↦ ground (arith, chain-above p c m (ground arith) nz x y g)
]

-- What a pair leads to is the key, or is above it.
pub chain-step :
    {k : Str} (p : KeyPath k) (x n : Str)
    → pair_in (chain p) x n ≡ true
    → (join x n ≡ k) ⊎ ((m : Str) × (pair_in (chain p) (join x n) m ≡ true))
unfolding chain pair_in
chain-step top x n h = absurd (ground arith)
chain-step (child d b p cl e) x n h = elim (Bool-cases (d == x && b == n)) [
  | inl last ↦
      let same : (d ≡ x) × (b ≡ n) = ground (arith, eq_of_beq d x, eq_of_beq b n) in
      inl (rw (← same.0, ← same.1) (sym e))
  | inr before ↦ elim (chain-step p x n (ground arith)) [
    | inl q ↦ inr (b, ground (arith, beq_refl b, beq_refl d, q))
    | inr (m, w) ↦ inr (m, ground arith)
  ]
]

-- A directory above a key is shorter.
pub chain-length :
    {k : Str} (p : KeyPath k) (x m : Str) → pair_in (chain p) x m ≡ true → length x < length k
unfolding chain pair_in
chain-length top x m h = absurd (ground arith)
chain-length (child d b p cl e) x m h =
    let longer : length d < length (join d b) = omega (arith, length-append d (slash ∷ b)) in
    elim (Bool-cases (d == x && b == m)) [
      | inl last ↦ let same : d ≡ x = ground (arith, eq_of_beq d x) in rw (e, ← same) longer
      | inr before ↦
          let rest = chain-length p x m (ground arith) in rw e (omega (arith, longer, rest))
    ]
