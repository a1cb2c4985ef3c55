-- ===== src/Cache/Files/Place.antt =====
-- Placing a file, up to the wait for its reader: which files are refused, and the block that a file
-- gets.
use shared_memory_fs.Prelude.{
  ℕ, ◌+◌, ◌≤◌, ◌<◌, ◌≡◌, false, true, ◌&&◌, ◌||◌, not, List, Option, none, some, ltb, Bool, ◌⊎◌,
  nat_eq, ◌==◌, arith, refl, Bool-cases, Option-cases, inl, inr, eq_of_beq, length, ◌∙◌, sym,
}
use shared_memory_fs.Prelude.JsMap
use shared_memory_fs.Prelude.JsMap.{is_some}
use shared_memory_fs.Cache.Extents.Layout.{within}
use shared_memory_fs.Cache.Registry.{Registry, Outcome, range_error, no_room, placed, allocate}
use shared_memory_fs.Cache.Registry.Valid.{IsValid, owned, Grants}
use shared_memory_fs.Cache.Registry.Allocate.{allocate-Grants}
use shared_memory_fs.Cache.Registry.Refusal.{allocate_refused, Full}
use shared_memory_fs.Cache.Registry.Release.{Held}
use shared_memory_fs.Cache.Files.{
  File, Slot, shared, threw, refused, stored, Started, ended, reading, place_start, fill, size_of,
  finish, empty_entry, mismatch, write_segment,
}
use shared_memory_fs.Cache.Files.Views.{view, write_segment-Writes, view_same}

pub size_of-length :
    (file : File) (bytes : List ℕ) → file.bytes ≡ some bytes → size_of file ≡ length bytes
unfolding size_of
size_of-length file bytes e = ground arith

-- Every block that is handed out shows the bytes that it showed.
abbrev pub KeepsViews : Registry → Registry → Type 0
KeepsViews r s =
    (j p n : ℕ)
    → Held r j p n
    → is_some (JsMap.get r.pool.segments j) ≡ true
    → view s j p n ≡ view r j p n

-- A block that nobody held is handed out; every other byte keeps its holder and its contents.
pub record Reserves (r s : Registry) (slot : Slot) : Type 0 where
  pub valid : IsValid s
  pub spare : (x : ℕ) → within slot.offset slot.length x ≡ true → owned r slot.segment_id x ≡ false
  pub owned_after :
      (j x : ℕ)
      → owned s j x ≡ (owned r j x || (slot.segment_id == j && within slot.offset slot.length x))
  pub inside : slot.offset + slot.length ≤ r.pool.segment_size
  pub others : KeepsViews r s

-- The file passes the guards of `#place` and has bytes to place.
pub record Asks (has_reader : Bool) (file : File) (max_file_size : ℕ) : Type 0 where
  pub agrees : mismatch file ≡ false
  pub fits : size_of file ≤ max_file_size
  pub sourced : (is_some file.bytes || has_reader) ≡ true
  pub some_bytes : 0 < size_of file

-- What `#place` has come to by its first wait, and for which files.
pub data Placed (r : Registry) (has_reader : Bool) (file : File) (max_file_size : ℕ)
    : Registry → Started → Type 0 where
  mismatched : mismatch file ≡ true → Placed r has_reader file max_file_size r (ended threw)
  too_big :
      mismatch file ≡ false
      → max_file_size < size_of file
      → Placed r has_reader file max_file_size r (ended refused)
  no_source :
      mismatch file ≡ false
      → size_of file ≤ max_file_size
      → file.bytes ≡ none
      → has_reader ≡ false
      → Placed r has_reader file max_file_size r (ended refused)
  no_bytes :
      mismatch file ≡ false
      → (is_some file.bytes || has_reader) ≡ true
      → size_of file ≡ 0
      → Placed r has_reader file max_file_size r (ended (stored (empty_entry file)))
  bad_size :
      {s : Registry}
      → Asks has_reader file max_file_size
      → allocate r (size_of file) false ≡ (s, range_error)
      → Placed r has_reader file max_file_size r (ended threw)
  full :
      Asks has_reader file max_file_size
      → (r.pool.segment_size < size_of file) ⊎ Full r (size_of file) false
      → Placed r has_reader file max_file_size r (ended refused)
  in_memory :
      {s : Registry} (slot : Slot) (bytes : List ℕ)
      → Asks has_reader file max_file_size
      → file.bytes ≡ some bytes
      → Reserves r s slot
      → slot.length ≡ length bytes
      → view s slot.segment_id slot.offset slot.length ≡ bytes
      → Placed r has_reader file max_file_size s
          (ended (stored (shared slot file.stat file.extras)))
  waits :
      {s : Registry} (slot : Slot)
      → Asks has_reader file max_file_size
      → file.bytes ≡ none
      → Reserves r s slot
      → slot.length ≡ size_of file
      → Placed r has_reader file max_file_size s (reading slot)

abbrev granted : ℕ → ℕ → ℕ → Slot
granted size id o = record { segment_id = id; offset = o; length = size }

module _ (r s : Registry) (size id o : ℕ) (g : Grants r s size id o) where
  kept : (j p n : ℕ) → is_some (JsMap.get r.pool.segments j) ≡ true → view s j p n ≡ view r j p n
  kept j p n t = elim (Option-cases (JsMap.get r.pool.segments j)) [
    | inl none_there ↦ absurd (cc)
    | inr (b, h) ↦ view_same r s j p n (g.bytes j b h ∙ sym h)
  ]

  granted-Reserves : Reserves r s (granted size id o)
  granted-Reserves = record {
    valid = g.valid;
    spare = g.spare;
    owned_after = g.owned_after;
    inside = g.inside;
    others = λ j p n held t. kept j p n t;
  }

  set-Reserves :
      (bytes : List ℕ)
      → size ≡ length bytes
      → Reserves r (write_segment s id o bytes) (granted size id o)
  set-Reserves bytes e =
      let w = write_segment-Writes s id o bytes g.valid g.there in
      record {
        valid = w.valid;
        spare = g.spare;
        owned_after = λ j x. w.owned_same j x ∙ g.owned_after j x;
        inside = g.inside;
        others =
            λ j p n held t. w.other j p n (λ eq x inx. apart j p n held eq x inx) ∙ kept j p n t;
      }
    where
      apart :
          (j p n : ℕ)
          → Held r j p n
          → (id == j) ≡ true
          → (x : ℕ) → within p n x ≡ true
          → within o (length bytes) x ≡ false
      apart j p n held eq x inx =
          let same = eq_of_beq id j eq in
          let mine : owned r id x ≡ true = rw same (held x inx) in
          rw (← e) (ground (arith, mine, g.spare x))

module _ (r : Registry) (v : IsValid r) (has_reader : Bool) (file : File) (max_file_size : ℕ)
    (asks : Asks has_reader file max_file_size) where
  fill-Placed :
      (s : Registry) (id o : ℕ)
      → Grants r s (size_of file) id o
      → (b : Option (List ℕ)) → file.bytes ≡ b
      → Placed r has_reader file max_file_size
          (fill s (granted (size_of file) id o) file b).0
          (fill s (granted (size_of file) id o) file b).1
  unfolding fill size_of
  fill-Placed s id o g none e = waits _ asks e (granted-Reserves r s (size_of file) id o g) refl
  fill-Placed s id o g (some bytes) e =
      let size : size_of file ≡ length bytes = ground arith in
      let w = write_segment-Writes s id o bytes g.valid g.there in
      in_memory _ bytes asks e (set-Reserves r s (size_of file) id o g bytes size) size
        (rw size w.self)

  finish-Placed :
      (p : Registry × Outcome)
      → allocate r (size_of file) false ≡ p
      → Placed r has_reader file max_file_size (finish r file p).0 (finish r file p).1
  unfolding finish
  finish-Placed (s, range_error) e = bad_size asks e
  finish-Placed (s, no_room) e =
      let n = allocate_refused r s (size_of file) false v e in rw (n.0) (full asks n.1)
  finish-Placed (s, placed id o) e =
      fill-Placed s id o (allocate-Grants r s (size_of file) id o false v e) file.bytes refl

-- What one call of `#place` on a valid registry has come to by its first wait, for which files: an
-- error for a size that disagrees with the data, or that the registry rejects; null and the
-- registry as it was for a size above the maximum, without data and reader, and where no segment
-- can hold the size or every extent, tail and the budget are short of it; the empty entry for no
-- bytes; otherwise a block that nobody held, of the size of the file, with every other block as it
-- was, which holds the data of the entry or waits for the reader.
pub place_start-Placed :
    (r : Registry) (has_reader : Bool) (file : File) (max_file_size : ℕ)
    → IsValid r
    → Placed r has_reader file max_file_size
        (place_start r has_reader file max_file_size).0
        (place_start r has_reader file max_file_size).1
unfolding place_start
place_start-Placed r has_reader file max_file_size v = elim (Bool-cases (mismatch file)) [
  | inl bad ↦ rw (bad, place_start) (mismatched bad)
  | inr same ↦ elim (Bool-cases (ltb max_file_size (size_of file))) [
    | inl big ↦ rw (same, big, place_start) (too_big same (ground arith))
    | inr small ↦ elim (Bool-cases (not (is_some file.bytes) && not has_reader)) [
      | inl nothing ↦
          rw (same, small, nothing, place_start)
            (no_source same (ground arith) (ground arith) (ground arith))
      | inr source ↦ elim (Bool-cases (size_of file == 0)) [
        | inl z ↦
            rw (same, small, source, z, place_start) (no_bytes same (ground arith) (ground arith))
        | inr nz ↦
            rw (same, small, source, nz, place_start)
              (finish-Placed r v has_reader file max_file_size
                (record {
                  agrees = same;
                  fits = ground arith;
                  sourced = ground arith;
                  some_bytes = ground arith;
                })
                (allocate r (size_of file) false) refl)
      ]
    ]
  ]
]
