-- ===== src/Publication/Commits.antt =====
-- lib/kernel.js, #flush: what committing the changes of one place does to the pool, to other places and
-- to the segments of the message.
use shared_memory_fs.Prelude.{
  ℕ, ◌≡◌, Bool, false, true, List, [], ◌∷◌, Option, none, some, ◌==◌, nat_eq, arith, refl, All, inl,
  inr, Option-cases, ◌∙◌, ap, eq_of_beq,
}
use shared_memory_fs.Prelude.JsMap
use shared_memory_fs.Prelude.JsMap.{JsMap, IsMap, is_some, get-set, get-delete}
use shared_memory_fs.Prelude.JsSet.{contains, contains-add}
use shared_memory_fs.Prelude.Text.{Str, str_eq}
use shared_memory_fs.Cache.Files.{Cache, Entry, shared, disk, entries_of, put, remove, reopen}
use shared_memory_fs.Publication.{
  Changes, Commit, add_segment, commit_entry, retire_old, commit_change, commit_changes,
}
use shared_memory_fs.Publication.Index.{published, puts, retire_old-rest}

-- An entry with bytes lies in one of some segments.
abbrev pub In : (ℕ → Bool) → Entry → Type 0
In there (disk path stat extras) = Unit
In there (shared slot stat extras) = (slot.length == 0) ≡ false → there slot.segment_id ≡ true

In-weaken : (f g : ℕ → Bool) (e : Entry) → ((x : ℕ) → f x ≡ true → g x ≡ true) → In f e → In g e
In-weaken f g (disk path stat extras) w i = tt
In-weaken f g (shared slot stat extras) w i = λ nz. w slot.segment_id (i nz)

abbrev pub in_pool : Cache → ℕ → Bool
in_pool c id = is_some (JsMap.get c.registry.pool.segments id)

-- The segments of a commit: those there were, and those of the entries that it publishes.
add_segment-contains :
    (segments : List ℕ) (e : Entry) (x : ℕ)
    → contains segments x ≡ true
    → contains (add_segment segments e) x ≡ true
unfolding add_segment
add_segment-contains segments (disk path stat extras) x h = h
add_segment-contains segments (shared slot stat extras) x h =
    ground (arith, contains-add segments slot.segment_id x)

add_segment-In : (segments : List ℕ) (e : Entry) → In (contains (add_segment segments e)) e
unfolding add_segment
add_segment-In segments (disk path stat extras) = tt
add_segment-In segments (shared slot stat extras) =
    λ nz. ground (arith, contains-add segments slot.segment_id slot.segment_id)

add_segment-there :
    (there : ℕ → Bool) (segments : List ℕ) (e : Entry)
    → In there e
    → ((x : ℕ) → contains segments x ≡ true → there x ≡ true)
    → (x : ℕ) → contains (add_segment segments e) x ≡ true
    → there x ≡ true
unfolding add_segment
add_segment-there there segments (disk path stat extras) i h x c = h x c
add_segment-there there segments (shared slot stat extras) i h x c =
    ground (arith, contains-add segments slot.segment_id x, h x, i, eq_of_beq slot.segment_id x)

retire_old-segments :
    (m : Commit) (name key : Str) (old : Option Entry)
    → (retire_old m name key old).segments ≡ m.segments
unfolding retire_old
retire_old-segments m name key none = refl
retire_old-segments m name key (some old) = ground arith

-- Committing a change leaves the pool, and other places, alone.
put-pool :
    (c : Cache) (name key : Str) (e : Entry) → (put c name key e).0.registry.pool ≡ c.registry.pool
unfolding put reopen
put-pool c name key (shared slot stat extras) = refl
put-pool c name key (disk path stat extras) = refl

remove-pool : (c : Cache) (name key : Str) → (remove c name key).0.registry.pool ≡ c.registry.pool
unfolding remove
remove-pool c name key = ground arith

change-pool :
    (m : Commit) (name key : Str) (change : Option Entry)
    → (commit_change m name key change).cache.registry.pool ≡ m.cache.registry.pool
unfolding commit_change commit_entry
change-pool m name key none =
    let n = commit_entry m name key none in
    ap (λ c. c.registry.pool) ((retire_old-rest n.0 name key n.1).0) ∙ remove-pool m.cache name key
change-pool m name key (some e) =
    let n = commit_entry m name key (some e) in
    ap (λ c. c.registry.pool) ((retire_old-rest n.0 name key n.1).0) ∙ put-pool m.cache name key e

put-other :
    (c : Cache) (name other j key : Str) (e : Entry)
    → (name == other) ≡ false
    → published (put c name key e).0 other j ≡ published c other j
unfolding put entries_of
put-other c name other j key e ne =
    ground (arith, get-set c.indexes name other (JsMap.set (entries_of c name) key e))

remove-other :
    (c : Cache) (name other j key : Str)
    → (name == other) ≡ false
    → published (remove c name key).0 other j ≡ published c other j
unfolding remove entries_of
remove-other c name other j key ne = elim (Option-cases (JsMap.get c.indexes name)) [
  | inl e ↦ rw (remove, e) refl
  | inr (index, e) ↦ elim (Option-cases (JsMap.get index key)) [
    | inl g ↦ rw (remove, e, g) refl
    | inr (old, g) ↦
        rw (remove, e, g) (ground (arith, get-set c.indexes name other (JsMap.delete index key)))
  ]
]

change-other :
    (m : Commit) (name other j key : Str) (change : Option Entry)
    → (name == other) ≡ false
    → published (commit_change m name key change).cache other j ≡ published m.cache other j
unfolding commit_change commit_entry
change-other m name other j key none ne =
    let n = commit_entry m name key none in
    ap (λ c. published c other j) ((retire_old-rest n.0 name key n.1).0)
    ∙ remove-other m.cache name other j key ne
change-other m name other j key (some e) ne =
    let n = commit_entry m name key (some e) in
    ap (λ c. published c other j) ((retire_old-rest n.0 name key n.1).0)
    ∙ put-other m.cache name other j key e ne

change-segments :
    (m : Commit) (name key : Str) (change : Option Entry)
    → (commit_change m name key change).segments
      ≡ elim change [ none ↦ m.segments | some e ↦ add_segment m.segments e ]
unfolding commit_change commit_entry
change-segments m name key none =
    let n = commit_entry m name key none in retire_old-segments n.0 name key n.1
change-segments m name key (some e) =
    let n = commit_entry m name key (some e) in retire_old-segments n.0 name key n.1

-- What committing the changes of one place does to the rest.
pub record Commits (there : ℕ → Bool) (m n : Commit) (name : Str) (entries : List (Str × Entry))
    : Type 0 where
  pub pool : n.cache.registry.pool ≡ m.cache.registry.pool
  pub others :
      (other j : Str)
      → (name == other) ≡ false
      → published n.cache other j ≡ published m.cache other j
  pub grown : (x : ℕ) → contains m.segments x ≡ true → contains n.segments x ≡ true
  pub inside : All (λ p. In (contains n.segments) p.1) entries
  pub bounded :
      ((x : ℕ) → contains m.segments x ≡ true → there x ≡ true)
      → (x : ℕ) → contains n.segments x ≡ true
      → there x ≡ true

pub commit_changes-Commits :
    (there : ℕ → Bool) (m : Commit) (name : Str) (changes : Changes)
    → All (λ p. In there p.1) (puts changes)
    → Commits there m (commit_changes m name changes) name (puts changes)
unfolding commit_changes
commit_changes-Commits there m name [] i = record {
  pool = refl;
  others = λ o j ne. refl;
  grown = λ x h. h;
  inside = tt;
  bounded = λ h. h;
}
commit_changes-Commits there m name ((key, none) ∷ changes) i =
    let n = commit_change m name key none in
    let t = commit_changes-Commits there n name changes i in
    let same : n.segments ≡ m.segments = change-segments m name key none in
    record {
      pool = t.pool ∙ change-pool m name key none;
      others = λ o j ne. t.others o j ne ∙ change-other m name o j key none ne;
      grown = λ x h. t.grown x (rw same h);
      inside = t.inside;
      bounded = λ h. t.bounded (λ x c. h x (rw (← same) c));
    }
commit_changes-Commits there m name ((key, some e) ∷ changes) i =
    let n = commit_change m name key (some e) in
    let t = commit_changes-Commits there n name changes i.1 in
    let same : n.segments ≡ add_segment m.segments e = change-segments m name key (some e) in
    record {
      pool = t.pool ∙ change-pool m name key (some e);
      others = λ o j ne. t.others o j ne ∙ change-other m name o j key (some e) ne;
      grown = λ x h. t.grown x (rw same (add_segment-contains m.segments e x h));
      inside = (
        In-weaken (contains (add_segment m.segments e)) _ e (λ x h. t.grown x (rw same h))
            (add_segment-In m.segments e),
        t.inside,
      );
      bounded =
          λ h. t.bounded (λ x c. add_segment-there there m.segments e i.0 h x (rw (← same) c));
    }
