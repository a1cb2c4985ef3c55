-- ===== src/Prelude/Results.antt =====
-- What a call gives, or what it throws.
use mathlib.Core.Path.{◌≡◌, refl}
use mathlib.Core.Option.{Option, none, some}
use native.Mathlib.Omega.{arith}

pub data Result {ℓ κ} (E : Type ℓ) (A : Type κ) : Type (ℓ ⊔ κ) where
  ok : A → Result E A
  err : E → Result E A

infixl 5 ◌>>=◌ ◌>>◌
abbrev pub ◌>>=◌ {ℓ κ μ} :
    {E : Type ℓ} {A : Type κ} {B : Type μ} → Result E A → (A → Result E B) → Result E B
ok a >>= f = f a
err e >>= f = err e

abbrev pub ◌>>◌ {ℓ κ} : {E : Type ℓ} {B : Type κ} → Result E (Unit {0}) → Result E B → Result E B
m >> k = m >>= λ _. k

-- A check that gives its error, or passes.
abbrev pub pass {ℓ} : {E : Type ℓ} → Option E → Result E (Unit {0})
pass none = ok tt
pass (some e) = err e

pub bind-ok {ℓ κ μ} :
    {E : Type ℓ} {A : Type κ} {B : Type μ} (m : Result E A) (f : A → Result E B) (b : B)
    → (m >>= f) ≡ ok b
    → (a : A) × (m ≡ ok a) × (f a ≡ ok b)
bind-ok (ok a) f b h = (a, refl, h)
bind-ok (err e) f b h = absurd (ground arith)

pub pass-ok {ℓ κ} :
    {E : Type ℓ} {B : Type κ} (o : Option E) (k : Result E B) (b : B)
    → (pass o >> k) ≡ ok b
    → (o ≡ none) × (k ≡ ok b)
pass-ok none k b h = (refl, h)
pass-ok (some e) k b h = absurd (ground arith)

-- A check, and a call after it.
pub pass-bind-ok {ℓ κ μ} :
    {E : Type ℓ} {A : Type κ} {B : Type μ} (o : Option E) (m : Result E A) (f : A → Result E B)
    (b : B)
    → (pass o >> (m >>= f)) ≡ ok b
    → (o ≡ none) × ((a : A) × (m ≡ ok a) × (f a ≡ ok b))
pass-bind-ok none m f b h = (refl, bind-ok m f b h)
pass-bind-ok (some e) m f b h = absurd (ground arith)

pub ok-inj {ℓ κ} : {E : Type ℓ} {A : Type κ} (a b : A) → ◌≡◌ {A = Result E A} (ok a) (ok b) → a ≡ b
ok-inj a b h = ground arith
