-- ===== src/Prelude/JsMap.antt =====
-- JavaScript's Map and Set: associations in insertion order, with `===` on the keys.
use mathlib.Core.Path.{◌≡◌, refl}
use mathlib.Core.Bool.{Bool, true, false, ◌||◌}
use mathlib.Core.Option.{Option, none, some}
use mathlib.Core.List.{List, [], ◌∷◌}
use native.Mathlib.Omega.{arith}
use shared_memory_fs.Prelude.Tests.{Keyed, ◌==◌, beq_refl, if◌then◌else◌}

abbrev pub JsMap {ℓ κ} : Type ℓ → Type κ → Type (ℓ ⊔ κ)
JsMap K V = List (K × V)

abbrev pub is_some {ℓ} : {A : Type ℓ} → Option A → Bool
is_some none = false
is_some (some a) = true

module _ {ℓ κ} {K : Type ℓ} {V : Type κ} ⦃e : Keyed K⦄ where
  unfoldable pub get : JsMap K V → K → Option V
  get [] k = none
  get ((j, v) ∷ m) k = if j == k then some v else get m k

  unfoldable pub has : JsMap K V → K → Bool
  has [] k = false
  has ((j, v) ∷ m) k = j == k || has m k

  -- A key that is there keeps its place; a new one goes to the end.
  unfoldable pub set : JsMap K V → K → V → JsMap K V
  set [] k v = (k, v) ∷ []
  set ((j, w) ∷ m) k v = if j == k then (k, v) ∷ m else (j, w) ∷ set m k v

  unfoldable pub delete : JsMap K V → K → JsMap K V
  delete [] k = []
  delete ((j, v) ∷ m) k = let rest = delete m k in if j == k then rest else (j, v) ∷ rest

  pub get-set :
      (m : JsMap K V) (k j : K) (v : V) → get (set m k v) j ≡ (if k == j then some v else get m j)
  unfolding get set
  get-set [] k j v = refl
  get-set ((i, w) ∷ m) k j v =
      ground (arith, e.same_iff i k, e.same_iff i j, e.same_iff k j, get-set m k j v)

  pub get-delete :
      (m : JsMap K V) (k j : K) → get (delete m k) j ≡ (if k == j then none else get m j)
  unfolding get delete
  get-delete [] k j = ground arith
  get-delete ((i, w) ∷ m) k j =
      ground (arith, e.same_iff i k, e.same_iff i j, e.same_iff k j, get-delete m k j)

  pub get-set_self : (m : JsMap K V) (k : K) (v : V) → get (set m k v) k ≡ some v
  get-set_self m k v = simp (get-set, beq_refl)

  -- `has` tells whether `get` finds something.
  pub has-eq-get : (m : JsMap K V) (k : K) → has m k ≡ is_some (get m k)
  unfolding has get
  has-eq-get [] k = refl
  has-eq-get ((j, v) ∷ m) k = ground (arith, has-eq-get m k)

  -- No key twice, as the operations keep it.
  abbrev pub IsMap : JsMap K V → Type κ
  IsMap [] = Unit
  IsMap ((k, v) ∷ m) = (get m k ≡ none) × IsMap m

  pub set-IsMap : (m : JsMap K V) (k : K) (v : V) → IsMap m → IsMap (set m k v)
  unfolding set get
  set-IsMap [] k v h = (refl, tt)
  set-IsMap ((j, w) ∷ m) k v h =
      ground (arith, set-IsMap m k v h.1, get-set m k j v, e.same_iff j k, e.same_iff k j)

  pub delete-IsMap : (m : JsMap K V) (k : K) → IsMap m → IsMap (delete m k)
  unfolding delete
  delete-IsMap [] k h = tt
  delete-IsMap ((j, w) ∷ m) k h = ground (arith, delete-IsMap m k h.1, get-delete m k j)

  -- Every pair of `n` is what `m` gives for its key.
  abbrev pub Agrees : JsMap K V → JsMap K V → Type κ
  Agrees m [] = Unit
  Agrees m ((k, v) ∷ n) = (get m k ≡ some v) × Agrees m n

  Agrees-cons :
      (m n : JsMap K V) (k : K) (v : V) → get m k ≡ none → Agrees m n → Agrees ((k, v) ∷ m) n
  unfolding get
  Agrees-cons m [] k v h a = tt
  Agrees-cons m ((j, w) ∷ n) k v h a = (ground (arith, e.same_iff k j), Agrees-cons m n k v h a.1)

  pub Agrees-self : (m : JsMap K V) → IsMap m → Agrees m m
  unfolding get
  Agrees-self [] h = tt
  Agrees-self ((k, v) ∷ m) h = (rw beq_refl, Agrees-cons m m k v h.0 (Agrees-self m h.1))
