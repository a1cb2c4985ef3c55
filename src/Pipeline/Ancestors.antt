-- ===== src/Pipeline/Ancestors.antt =====
-- lib/pipeline.js, fileAbove: a file above a key is a file that the key lies below.
use shared_memory_fs.Prelude.{
  ℕ, zero, suc, ◌≤◌, ◌≡◌, false, true, ◌&&◌, ◌||◌, not, List, [], ◌∷◌, nat_eq, arith, refl, inl,
  inr, ◌↔◌, Bool-cases, length, length-append, subst, ◌∙◌, sym,
}
use shared_memory_fs.Prelude.JsSet.{contains}
use shared_memory_fs.Prelude.Text.{Str, str_eq}
use shared_memory_fs.Routing.Keys.{slash, starts_with}
use shared_memory_fs.Routing.Places.{Place}
use shared_memory_fs.Directories.{last_slash, is_nil}
use shared_memory_fs.Directories.Chains.{
  KeyPath, top, child, join, Rooted, path_of, last_slash-join,
}
use shared_memory_fs.Directories.Below.{is_below, join-cases, join-is_below, starts_with-append}
use shared_memory_fs.Pipeline.Hierarchy.{has_file, above_from, file_above}

-- A file, or a key being created, above a key.
abbrev pub Above : Place → Str → List Str → Type 0
Above p key creating =
    (j : Str) × (is_nil j ≡ false)
    × (is_below key j ≡ true)
    × ((has_file p j || contains creating j) ≡ true)

module _ (p : Place) (creating : List Str) where
  nil_is_below : (j : Str) → is_below [] j ≡ false
  unfolding starts_with
  nil_is_below [] = refl
  nil_is_below (c ∷ j) = refl

  below_nil : (d j : Str) → is_below d j ≡ true → is_nil d ≡ false
  below_nil [] j h = absurd (ground (arith, nil_is_below j))
  below_nil (c ∷ d) j h = refl

  above_from-join :
      (fuel : ℕ) (key d n : Str)
      → key ≡ join d n
      → contains n slash ≡ false
      → above_from (suc fuel) p key creating
        ≡ (not (is_nil d) && (has_file p d || contains creating d || above_from fuel p d creating))
  unfolding above_from
  above_from-join fuel key d n e c = rw (e, above_from, last_slash-join d n c) refl

  -- The loop over the parents, of a key that is built by names.
  found :
      {key : Str} (q : KeyPath key) (fuel : ℕ) (j : Str)
      → length key ≤ fuel
      → is_nil j ≡ false
      → is_below key j ≡ true
      → (has_file p j || contains creating j) ≡ true
      → above_from fuel p key creating ≡ true
  unfolding above_from
  found top fuel j l n b h = absurd (ground (arith, nil_is_below j))
  found (child d n q c e) zero j l k b h =
      let l' : length (join d n) ≤ 0 = subst (λ k. length k ≤ 0) e l in
      absurd (omega (arith, l', length-append d (slash ∷ n)))
  found {key = key} (child d n q c e) (suc fuel) j l k b h =
      let l' : length (join d n) ≤ suc fuel = subst (λ k. length k ≤ suc fuel) e l in
      let shorter : length d ≤ fuel = omega (arith, l', length-append d (slash ∷ n)) in
      rw (above_from-join fuel key d n e c)
        (elim (join-cases d n j c (subst (λ k. is_below k j ≡ true) e b)) [
          | inl same ↦ rw (← same) (ground (arith, k, h))
          | inr lower ↦ ground (arith, below_nil d j lower, found q fuel j shorter k lower h)
        ])

  -- What the loop finds.
  above :
      {key : Str} (q : KeyPath key) (fuel : ℕ)
      → above_from fuel p key creating ≡ true
      → Above p key creating
  unfolding above_from
  above q zero h = absurd (ground arith)
  above top (suc fuel) h = absurd (unfold last_slash in ground arith)
  above {key = key} (child d n q c e) (suc fuel) h =
      let step : (not (is_nil d)
            && (has_file p d || contains creating d || above_from fuel p d creating))
          ≡ true =
        sym (above_from-join fuel key d n e c) ∙ h in
      elim (Bool-cases (has_file p d || contains creating d)) [
        | inl here ↦ (d, ground arith, rw e (join-is_below d n), here)
        | inr higher ↦
            let (j, k, b, t) = above q fuel (ground arith) in
            (j, k, rw e (starts_with-append d (slash ∷ n) (join j []) b), t)
      ]

  -- For a rooted key, fileAbove answers true exactly if the key starts with a file of the place,
  -- or one being created, and a slash.
  pub file_above-Above :
      (key : Str) → Rooted key → (file_above p key creating ≡ true) ↔ Above p key creating
  unfolding file_above
  file_above-Above key r = (
    above (path_of key r) (length key),
    λ (j, k, b, h). found (path_of key r) (length key) j (omega arith) k b h,
  )
