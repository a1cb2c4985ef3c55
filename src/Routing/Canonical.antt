-- ===== src/Routing/Canonical.antt =====
-- lib/place.js, canonicalKey: the one form that a key of a mutation has.
use shared_memory_fs.Prelude.{
  ℕ, Bool, false, ◌&&◌, ◌||◌, List, [], ◌∷◌, ◌++◌, Option, none, some, any, if◌then◌else◌, ◌==◌,
  nat_eq, ◌≡◌, refl, inl, inr, ◌⊎◌, arith, Bool-cases, eq_of_beq, subst, sym, ◌∙◌,
}
use shared_memory_fs.Prelude.JsSet.{contains}
use shared_memory_fs.Prelude.Text.{Str, str, str_eq}
use shared_memory_fs.Routing.Keys.{slash, nul, starts_with, trim_end, dir_of, is_companion_key}
use shared_memory_fs.Directories.{is_nil}
use shared_memory_fs.Directories.Chains.{Rooted}

abbrev backslash : ℕ
backslash = 92

-- `s.split('/')`, after what stands before the position.
unfoldable pub split : Str → Str → List Str
split name [] = name ∷ []
split name (c ∷ s) =
    let same = split (name ++ (c ∷ [])) s in
    let next = split [] s in if c == slash then name ∷ next else same

abbrev pub bad_name : Str → Bool
bad_name name = is_nil name || (name == str "." || name == str "..")

abbrev pub to_rooted : Str → Str
to_rooted key = if starts_with key (slash ∷ []) then key else slash ∷ key

-- `canonical.slice(1)`
abbrev pub tail : Str → Str
tail [] = []
tail (c ∷ s) = s

-- None where the key is refused with a TypeError.
unfoldable pub canonical_key : Str → Option Str
unfolding split
canonical_key key =
    if contains key nul || contains key backslash
    then none
    else (let canonical = to_rooted key in
        if any bad_name (split [] (tail canonical)) then none else some canonical)

-- A key that the mutations take.
pub record Canonical (key : Str) : Type 0 where
  pub rooted : Rooted key
  pub trimmed : trim_end slash key ≡ key
  pub source : is_companion_key key ≡ false

snoc_nil : (name : Str) (c : ℕ) → is_nil (name ++ (c ∷ [])) ≡ false
snoc_nil [] c = refl
snoc_nil (d ∷ s) c = refl

any_nil : (names : List Str) → any bad_name names ≡ false → any is_nil names ≡ false
any_nil [] h = refl
any_nil (n ∷ names) h = ground (arith, any_nil names)

-- No name is empty: no slash at the end.
split-trim :
    (name s : Str)
    → any is_nil (split name s) ≡ false
    → (trim_end slash s ≡ s) × (is_nil name && is_nil s ≡ false)
unfolding split trim_end
split-trim name [] h = (refl, ground arith)
split-trim name (c ∷ s) h = elim (Bool-cases (c == slash)) [
  | inl e ↦
      let (t, n) = split-trim [] s (ground arith) in
      let more : is_nil s ≡ false = ground arith in (rw (t, more) refl, ground arith)
  | inr e ↦
      let (t, n) = split-trim (name ++ (c ∷ [])) s (ground arith) in
      (rw (t, e) (ground arith), ground arith)
]

to_rooted-Rooted : (key : Str) → Rooted (to_rooted key)
unfolding starts_with
to_rooted-Rooted [] = ([], refl)
to_rooted-Rooted (c ∷ s) = elim (Bool-cases (c == slash)) [
  | inl e ↦ (s, rw (e, eq_of_beq c slash e) refl)
  | inr e ↦ (c ∷ s, rw e refl)
]

contains-to_rooted :
    (key : Str) (c : ℕ) → (slash == c) ≡ false → contains (to_rooted key) c ≡ contains key c
unfolding contains
contains-to_rooted key c h = ground arith

tail-trim :
    (key s : Str)
    → key ≡ slash ∷ s
    → trim_end slash (tail key) ≡ tail key
    → is_nil (tail key) ≡ false
    → trim_end slash key ≡ key
unfolding trim_end
tail-trim key s e t n =
    let t' : trim_end slash s ≡ s = subst (λ k. trim_end slash (tail k) ≡ tail k) e t in
    let n' : is_nil s ≡ false = subst (λ k. is_nil (tail k) ≡ false) e n in rw (e, t', n') refl

to_rooted_idem : (key : Str) → Rooted key → to_rooted key ≡ key
unfolding starts_with
to_rooted_idem key (s, e) = rw e refl

to_rooted-cases : (key : Str) → (to_rooted key ≡ key) ⊎ (to_rooted key ≡ slash ∷ key)
to_rooted-cases key = elim (Bool-cases (starts_with key (slash ∷ []))) [
  | inl e ↦ inl (rw e refl)
  | inr e ↦ inr (rw e refl)
]

-- What the two checks say of the key with its slash.
checked-Canonical :
    (key c : Str)
    → c ≡ to_rooted key
    → (contains key nul || contains key backslash) ≡ false
    → any bad_name (split [] (tail c)) ≡ false
    → Canonical c × (canonical_key c ≡ some c) × ((c ≡ key) ⊎ (c ≡ slash ∷ key))
unfolding canonical_key is_companion_key
checked-Canonical key c e clean names =
    let r : Rooted c = subst Rooted (sym e) (to_rooted-Rooted key) in
    let (t, n) = split-trim [] (tail c) (any_nil (split [] (tail c)) names) in
    let (s, shape) = r in
    let no_nul : contains c nul ≡ false = rw e (ground (arith, contains-to_rooted key nul)) in
    let no_back : contains c backslash ≡ false =
      rw e (ground (arith, contains-to_rooted key backslash)) in
    (
      record { rooted = r; trimmed = tail-trim c s shape t (ground arith); source = no_nul },
      rw (no_nul, no_back, to_rooted_idem c r, names) refl,
      elim (to_rooted-cases key) [ inl a ↦ inl (e ∙ a) | inr a ↦ inr (e ∙ a) ],
    )

-- What canonicalKey returns is the key or the key after a slash, is rooted, ends in no slash and
-- is no companion key, and canonicalKey returns it unchanged.
pub canonical_key-Canonical :
    (key c : Str)
    → canonical_key key ≡ some c
    → Canonical c × (canonical_key c ≡ some c) × ((c ≡ key) ⊎ (c ≡ slash ∷ key))
canonical_key-Canonical key c h = elim (Bool-cases (contains key nul || contains key backslash)) [
  | inl bad ↦ absurd (unfold canonical_key in ground arith)
  | inr clean ↦ elim (Bool-cases (any bad_name (split [] (tail (to_rooted key))))) [
    | inl bad ↦ absurd (unfold canonical_key in ground arith)
    | inr names ↦
        let e : c ≡ to_rooted key = (unfold canonical_key in ground arith) in
        checked-Canonical key c e clean (rw e names)
  ]
]

-- The key of a directory is canonical as it is.
pub dir_of-Canonical : (key : Str) → Canonical key → dir_of key ≡ key
unfolding dir_of starts_with
dir_of-Canonical key c = let (s, e) = c.rooted in rw c.trimmed (rw e refl)
