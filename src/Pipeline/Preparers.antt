-- ===== src/Pipeline/Preparers.antt =====
-- lib/pipeline.js, class Preparers: the callbacks that the kernel option `preparers` registers.
use shared_memory_fs.Prelude.{
  ℕ, Bool, true, ◌≡◌, [], ◌∷◌, ◌++◌, Option, none, some, ◌==◌, if◌then◌else◌, arith, refl, inl, inr,
  Bool-cases, Option-cases, ◌∙◌, sym, eq_of_beq, Result, ok, err, ◌>>=◌, ok-inj,
}
use shared_memory_fs.Prelude.JsMap
use shared_memory_fs.Prelude.JsMap.{JsMap, IsMap, get-set}
use shared_memory_fs.Prelude.Text.{Str, str, str_eq}
use shared_memory_fs.Routing.Places.{Place}

-- A value of the option: a function, as its identity, or anything else.
pub data Value : Type 0 where
  function : ℕ → Value
  no_function : Value

-- The message of `fail`.
unfoldable pub fail_message : Str → Str
fail_message message = str "[vfs] " ++ message

-- The constructor; none where the option is no object. The error is its message.
unfoldable pub check_values : JsMap Str Value → Result Str (JsMap Str ℕ)
unfolding fail_message
check_values [] = ok []
check_values ((name, no_function) ∷ values) =
    err (fail_message (str "preparers." ++ (name ++ str " is not a function")))
check_values ((name, function fn) ∷ values) = do rest ← check_values values; ok ((name, fn) ∷ rest)

unfoldable pub new_preparers : Option (JsMap Str Value) → Result Str (JsMap Str ℕ)
unfolding check_values
new_preparers none = err (fail_message (str "option \"preparers\" must be an object of functions"))
new_preparers (some values) = check_values values

-- The loop of `bind` over the place's `prepare` index.
unfoldable pub bind_all :
    JsMap Str ℕ → Str → Bool → JsMap Str Str → JsMap Str ℕ → Result Str (JsMap Str ℕ)
unfolding fail_message
bind_all fns place strict [] bound = ok bound
bind_all fns place strict ((ext, name) ∷ names) bound =
    let without = bind_all fns place strict names bound in
    elim (JsMap.get fns name) [
      | some fn ↦ bind_all fns place strict names (JsMap.set bound ext fn)
      | none ↦
          if strict
          then err (
              fail_message (
                str "places."
                ++ (place
                    ++ (str ": preparer \""
                        ++ (name ++ str "\" is not registered (kernel option `preparers`)")))))
          else without
    ]

unfoldable pub bind : JsMap Str ℕ → Place → Bool → Result Str (Option (JsMap Str ℕ))
unfolding bind_all
bind fns p strict = elim p.prepare [
  | none ↦ ok none
  | some names ↦ do bound ← bind_all fns p.name strict names []; ok (some bound)
]

module _ (fns : JsMap Str ℕ) (place : Str) where
  bind_all-some :
      (strict : Bool) (ext name : Str) (names : JsMap Str Str) (bound : JsMap Str ℕ) (fn : ℕ)
      → JsMap.get fns name ≡ some fn
      → bind_all fns place strict ((ext, name) ∷ names) bound
        ≡ bind_all fns place strict names (JsMap.set bound ext fn)
  unfolding bind_all
  bind_all-some strict ext name names bound fn e = rw (bind_all, e) refl

  bind_all-none :
      (ext name : Str) (names : JsMap Str Str) (bound result : JsMap Str ℕ)
      → JsMap.get fns name ≡ none
      → bind_all fns place true ((ext, name) ∷ names) bound ≡ ok result
      → ⊥
  unfolding bind_all
  bind_all-none ext name names bound result e h = ground arith

  -- What is bound stays bound, where no extension comes twice.
  bind_all-keeps :
      (names : JsMap Str Str) (bound result : JsMap Str ℕ) (ext : Str)
      → JsMap.get names ext ≡ none
      → bind_all fns place true names bound ≡ ok result
      → JsMap.get result ext ≡ JsMap.get bound ext
  unfolding bind_all JsMap.get
  bind_all-keeps [] bound result ext n h = rw (ok-inj {E = Str} bound result h) refl
  bind_all-keeps ((e, name) ∷ names) bound result ext n h =
      elim (Option-cases (JsMap.get fns name)) [
        | inl g ↦ absurd (bind_all-none e name names bound result g h)
        | inr (fn, g) ↦
            bind_all-keeps names (JsMap.set bound e fn) result ext (ground arith)
              (sym (bind_all-some true e name names bound fn g) ∙ h)
            ∙ ground (arith, get-set bound e ext fn)
      ]

  -- Where an index names each extension once and is bound strictly, without an error, the callback
  -- of every extension that it names is the one registered under its name.
  pub bind_all-binds :
      (names : JsMap Str Str) (bound result : JsMap Str ℕ) (ext name : Str)
      → IsMap names
      → JsMap.get names ext ≡ some name
      → bind_all fns place true names bound ≡ ok result
      → (fn : ℕ) × (JsMap.get fns name ≡ some fn) × (JsMap.get result ext ≡ some fn)
  unfolding JsMap.get
  bind_all-binds [] bound result ext name u e h = absurd (ground arith)
  bind_all-binds ((x, n) ∷ names) bound result ext name u e h =
      elim (Option-cases (JsMap.get fns n)) [
        | inl g ↦ absurd (bind_all-none x n names bound result g h)
        | inr (fn, g) ↦
            let rest = sym (bind_all-some true x n names bound fn g) ∙ h in
            elim (Bool-cases (x == ext)) [
              | inl same ↦
                  let unique : JsMap.get names ext ≡ none = rw (← eq_of_beq x ext same) u.0 in
                  let is : n ≡ name = ground arith in
                  (
                    fn,
                    rw (← is) g,
                    bind_all-keeps names (JsMap.set bound x fn) result ext unique rest
                        ∙ ground (arith, get-set bound x ext fn),
                  )
              | inr other ↦
                  bind_all-binds names (JsMap.set bound x fn) result ext name u.1 (ground arith)
                    rest
            ]
      ]
