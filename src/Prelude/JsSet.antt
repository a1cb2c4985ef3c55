-- ===== src/Prelude/JsSet.antt =====
-- JavaScript's Set: distinct values in insertion order.
use mathlib.Core.Path.{◌≡◌, refl}
use mathlib.Core.Bool.{Bool, false, ◌||◌, ◌&&◌, not}
use mathlib.Core.List.{List, [], ◌∷◌, ◌++◌}
use native.Mathlib.Omega.{arith}
use shared_memory_fs.Prelude.Tests.{Keyed, ◌==◌, if◌then◌else◌}

module _ {ℓ} {A : Type ℓ} ⦃e : Keyed A⦄ where
  unfoldable pub contains : List A → A → Bool
  contains [] a = false
  contains (x ∷ xs) a = x == a || contains xs a

  unfoldable pub add : List A → A → List A
  add xs a = if contains xs a then xs else xs ++ (a ∷ [])

  unfoldable pub remove : List A → A → List A
  remove [] a = []
  remove (x ∷ xs) a = let rest = remove xs a in if x == a then rest else x ∷ rest

  pub contains-append :
      (xs ys : List A) (b : A) → contains (xs ++ ys) b ≡ (contains xs b || contains ys b)
  unfolding contains
  contains-append [] ys b = refl
  contains-append (x ∷ xs) ys b = ground (arith, contains-append xs ys b)

  pub contains-add : (xs : List A) (a b : A) → contains (add xs a) b ≡ (a == b || contains xs b)
  unfolding add contains
  contains-add xs a b = ground (arith, contains-append xs (a ∷ []) b, e.same_iff a b)

  pub contains-remove :
      (xs : List A) (a b : A) → contains (remove xs a) b ≡ (not (a == b) && contains xs b)
  unfolding remove contains
  contains-remove [] a b = ground arith
  contains-remove (x ∷ xs) a b =
      ground (arith, contains-remove xs a b, e.same_iff x a, e.same_iff x b, e.same_iff a b)

  -- No value twice.
  abbrev pub Distinct : List A → Type 0
  Distinct [] = Unit {0}
  Distinct (x ∷ xs) = (contains xs x ≡ false) × Distinct xs

  pub Distinct-append :
      (xs : List A) (a : A) → Distinct xs → contains xs a ≡ false → Distinct (xs ++ (a ∷ []))
  unfolding contains
  Distinct-append [] a d h = (refl, tt)
  Distinct-append (x ∷ xs) a d h = (
    ground (arith, contains-append xs (a ∷ []) x, e.same_iff a x, e.same_iff x a),
    Distinct-append xs a d.1 (ground arith),
  )

  pub Distinct-add : (xs : List A) (a : A) → Distinct xs → Distinct (add xs a)
  unfolding add
  Distinct-add xs a d = ground (arith, Distinct-append xs a d)

  pub Distinct-remove : (xs : List A) (a : A) → Distinct xs → Distinct (remove xs a)
  unfolding remove
  Distinct-remove [] a d = tt
  Distinct-remove (x ∷ xs) a d = ground (arith, Distinct-remove xs a d.1, contains-remove xs a x)
