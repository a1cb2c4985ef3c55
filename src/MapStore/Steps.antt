-- ===== src/MapStore/Steps.antt =====
-- lib/map-store.js: the mutations of a map place as steps, and the places that they lead to.
use shared_memory_fs.Prelude.{ℕ, ◌≡◌, Bool, List, refl, arith, ok}
use shared_memory_fs.Prelude.JsMap
use shared_memory_fs.Prelude.Text.{Str, str_eq}
use shared_memory_fs.Routing.Places.{Place}
use shared_memory_fs.Routing.Canonical.{Canonical}
use shared_memory_fs.Directories.{clear}
use shared_memory_fs.Directories.Index.{in_dirs, listed}
use shared_memory_fs.Pipeline.Platform.{Platform}
use shared_memory_fs.MapStore.{write, append, unlink, mkdir, rm, rename}
use shared_memory_fs.MapStore.Placed.{Placed}
use shared_memory_fs.MapStore.Operations.{
  write-Placed, append-Placed, unlink-Placed, mkdir-Placed, rm-Placed,
}
use shared_memory_fs.MapStore.Moved.{rename-Placed}

pub clear-Placed : (p : Place) → Placed (clear p.files)
unfolding clear in_dirs listed JsMap.has JsMap.get
clear-Placed p = record {
  indexed = record {
    index = λ x m. refl;
    full = λ x h. absurd (ground arith);
    rooted = λ k h s. absurd (ground arith);
  };
  flat = λ k j a b c d. absurd (ground arith);
}

module _ (os : Platform) where
  -- A mutation, with its arguments. PlaceFs hands it canonical keys.
  pub data Mutation : Type 0 where
    writes : (now : ℕ) (key : Str) (bytes : List ℕ) (exclusive : Bool) → Canonical key → Mutation
    appends : (now : ℕ) (key : Str) (bytes : List ℕ) → Canonical key → Mutation
    unlinks : (key : Str) (directory : Bool) → Canonical key → Mutation
    makes : (key : Str) (recursive : Bool) → Canonical key → Mutation
    removes : (key : Str) (directory recursive force : Bool) → Canonical key → Mutation
    renames :
        (source target : Str) (directory : Bool) → Canonical source → Canonical target → Mutation

  -- What the mutation leaves, if it does not throw.
  pub data Step (p q : Place) : Mutation → Type 0 where
    written :
        {now : ℕ} {key : Str} {bytes : List ℕ} {exclusive : Bool} {c : Canonical key}
        → write os now p key bytes exclusive ≡ ok q
        → Step p q (writes now key bytes exclusive c)
    appended :
        {now : ℕ} {key : Str} {bytes : List ℕ} {c : Canonical key}
        → append os now p key bytes ≡ ok q
        → Step p q (appends now key bytes c)
    unlinked :
        {key : Str} {directory : Bool} {c : Canonical key}
        → unlink os p key directory ≡ ok q
        → Step p q (unlinks key directory c)
    made :
        {key : Str} {recursive : Bool} {c : Canonical key}
        → mkdir os p key recursive ≡ ok q
        → Step p q (makes key recursive c)
    removed :
        {key : Str} {directory recursive force : Bool} {c : Canonical key}
        → rm os p key directory recursive force ≡ ok q
        → Step p q (removes key directory recursive force c)
    renamed :
        {source target : Str} {directory : Bool} {c : Canonical source} {d : Canonical target}
        → rename os p source target directory ≡ ok q
        → Step p q (renames source target directory c d)

  -- The places that mutations lead to; one that throws leaves the place as it was.
  pub data Reachable (first : Place) : Place → Type 0 where
    start : Reachable first first
    step : {p q : Place} (m : Mutation) → Reachable first p → Step p q m → Reachable first q

  Step-Placed : (p q : Place) (m : Mutation) → Placed p.files → Step p q m → Placed q.files
  Step-Placed p q (writes now key bytes exclusive c) i (written h) =
      write-Placed os now p q key bytes exclusive c i h
  Step-Placed p q (appends now key bytes c) i (appended h) =
      append-Placed os now p q key bytes c i h
  Step-Placed p q (unlinks key directory c) i (unlinked h) = unlink-Placed os p q key directory i h
  Step-Placed p q (makes key recursive c) i (made h) = mkdir-Placed os p q key recursive i h
  Step-Placed p q (removes key directory recursive force c) i (removed h) =
      rm-Placed os p q key directory recursive force i h
  Step-Placed p q (renames source target directory c d) i (renamed h) =
      rename-Placed os p source target q directory c d i h

  -- Every place that mutations of canonical keys lead to from an empty map place has a directory
  -- index that lists exactly what its source keys imply, no empty directory, rooted source keys,
  -- and no source that lies below another.
  pub Reachable-Placed : (p q : Place) → p.files ≡ clear p.files → Reachable p q → Placed q.files
  Reachable-Placed p q e start = rw e (clear-Placed p)
  Reachable-Placed p q e (step {p = r} m before s) =
      Step-Placed r q m (Reachable-Placed p r e before) s
