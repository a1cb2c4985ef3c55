-- ===== src/SabStore/Turns.antt =====
-- lib/sab-store.js: whatever the order of turns, commits and failures, a path is a file or a directory.
use shared_memory_fs.Prelude.{
  false, true, ◌≡◌, ◌||◌, List, [], ◌∷◌, none, ◌==◌, arith, inl, inr, ◌⊎◌, Bool-cases, eq_of_beq,
  any,
}
use shared_memory_fs.Prelude.JsSet
use shared_memory_fs.Prelude.JsSet.{contains, contains-add, contains-remove}
use shared_memory_fs.Prelude.Text.{Str, str_eq}
use shared_memory_fs.Errors.{Errno}
use shared_memory_fs.Routing.Keys.{slash, is_companion_key}
use shared_memory_fs.Routing.Canonical.{Canonical}
use shared_memory_fs.Directories.{is_nil}
use shared_memory_fs.Directories.Index.{Indexed}
use shared_memory_fs.Directories.Below.{is_below, has_directory-SourceBelow, Rooted-nil}
use shared_memory_fs.Pipeline.Hierarchy.{has_file, check_hierarchy}
use shared_memory_fs.Pipeline.Ancestors.{file_above-Above}
use shared_memory_fs.MapStore.Placed.{is_directory-Canonical, starts_with-longer}
use shared_memory_fs.SabStore.{SabStore}

-- A source of the place, or one in creation.
abbrev pub Primary : SabStore → Str → Type 0
Primary s k =
    ((has_file s.place k ≡ true) × (is_companion_key k ≡ false)) ⊎ (contains s.creating k ≡ true)

-- The index is kept, keys in creation are canonical, and no primary key lies below another.
pub record Sound (s : SabStore) : Type 0 where
  pub indexed : Indexed s.place.files
  pub canonical : (k : Str) → contains s.creating k ≡ true → Canonical k
  pub flat : (k j : Str) → Primary s k → Primary s j → is_below k j ≡ false

Primary-nil : (s : SabStore) (k : Str) → Sound s → Primary s k → is_nil k ≡ false
Primary-nil s k i (inl (h, c)) = Rooted-nil k (i.indexed.rooted k h c)
Primary-nil s k i (inr h) = Rooted-nil k ((i.canonical k h).rooted)

module _ {E : Type 0} (s : SabStore) (key : Str) (fail : Errno → E) (c : Canonical key)
    (i : Sound s) (free : check_hierarchy s.place key fail s.creating ≡ none) where
  -- A key that passes the check lies below no primary key.
  check_hierarchy-above : (j : Str) → Primary s j → is_below key j ≡ false
  check_hierarchy-above j primary = elim (Bool-cases (is_below key j)) [
    | inr n ↦ n
    | inl b ↦
        let found =
          (file_above-Above s.place s.creating key c.rooted).1
            (j, Primary-nil s j i primary, b, either primary) in
        absurd (unfold check_hierarchy in ground arith)
  ]
    where
      either : Primary s j → (has_file s.place j || contains s.creating j) ≡ true
      either (inl (h, _)) = ground arith
      either (inr h) = ground arith

  any-is_below :
      (keys : List Str) (j : Str)
      → any (λ other. is_below other key) keys ≡ false
      → contains keys j ≡ true
      → is_below j key ≡ false
  unfolding contains
  any-is_below [] j h t = absurd (ground arith)
  any-is_below (k ∷ keys) j h t = ground (arith, any-is_below keys j, eq_of_beq k j)

  -- No primary key lies below it.
  check_hierarchy-below : (j : Str) → Primary s j → is_below j key ≡ false
  check_hierarchy-below j primary = elim (Bool-cases (has_file s.place key)) [
    | inl there ↦ i.flat j key primary (inl (there, c.source))
    | inr new ↦ new_key primary new
  ]
    where
      new_key : Primary s j → has_file s.place key ≡ false → is_below j key ≡ false
      new_key (inl (h, primary)) new = elim (Bool-cases (is_below j key)) [
        | inr n ↦ n
        | inl b ↦
            let found =
              (has_directory-SourceBelow s.place.files key i.indexed).1 (j, h, primary, b) in
            absurd (unfold check_hierarchy in ground (arith, is_directory-Canonical s.place key c))
      ]
      new_key (inr h) new = any-is_below s.creating j (unfold check_hierarchy in ground arith) h

  pub created-Sound : Sound (record s { creating = JsSet.add s.creating key })
  created-Sound = record {
    indexed = i.indexed;
    canonical = λ k h. elim (Bool-cases (key == k)) [
      | inl e ↦ rw (← eq_of_beq key k e) c
      | inr e ↦ i.canonical k (ground (arith, contains-add s.creating key k))
    ];
    flat = flat;
  }
    where
      old :
          (k : Str)
          → Primary (record s { creating = JsSet.add s.creating key }) k
          → (key ≡ k) ⊎ Primary s k
      old k (inl h) = inr (inl h)
      old k (inr h) = elim (Bool-cases (key == k)) [
        | inl e ↦ inl (eq_of_beq key k e)
        | inr e ↦ inr (inr (ground (arith, contains-add s.creating key k)))
      ]

      flat :
          (k j : Str)
          → Primary (record s { creating = JsSet.add s.creating key }) k
          → Primary (record s { creating = JsSet.add s.creating key }) j
          → is_below k j ≡ false
      flat k j a b = elim (old k a) [
        | inl e ↦ elim (old j b) [
          | inl g ↦ rw (← e, ← g) (starts_with-longer key [] slash)
          | inr o ↦ rw (← e) (check_hierarchy-above j o)
        ]
        | inr o ↦ elim (old j b) [
          | inl g ↦ rw (← g) (check_hierarchy-below k o)
          | inr q ↦ i.flat k j o q
        ]
      ]

-- Fewer primary keys are as sound.
pub fewer-Sound :
    (s t : SabStore)
    → Sound s
    → Indexed t.place.files
    → ((k : Str) → contains t.creating k ≡ true → contains s.creating k ≡ true)
    → ((k : Str) → Primary t k → Primary s k)
    → Sound t
fewer-Sound s t i x c less = record {
  indexed = x;
  canonical = λ k h. i.canonical k (c k h);
  flat = λ k j a b. i.flat k j (less k a) (less j b);
}
