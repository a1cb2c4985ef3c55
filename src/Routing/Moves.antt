-- ===== src/Routing/Moves.antt =====
-- Copies, renames and links: what passes through to node:fs, and what is copied from its canonical bytes.
use shared_memory_fs.Prelude.{false, true, ◌||◌, ◌≡◌, ◌≢◌, arith}
use shared_memory_fs.Prelude.Text.{Str}
use shared_memory_fs.Routing.Places.{Place, is_sea, prepared}
use shared_memory_fs.Routing.Paths.{NodePath}
use shared_memory_fs.Routing.Router.{
  Code, passthrough, deny, file, canonical, Router, read, mutate, copy, copy_source, link,
  link_source, managed,
}

module _ (os : NodePath) (file_ext : Str → Str) (r : Router) where
  -- A link passes through to node:fs only if its source reads from node:fs, neither name lies in
  -- an indexed place, and the mutation of its destination is not refused.
  pub link-passthrough :
      (from_path to_path : Str)
      → link os file_ext r from_path to_path ≡ passthrough
      → (read os file_ext r from_path ≡ passthrough)
        × (managed os file_ext r from_path ≡ false)
        × (managed os file_ext r to_path ≡ false)
        × ((code : Code) → mutate os file_ext r to_path ≢ deny code)
  unfolding link link_source
  link-passthrough from_path to_path h =
      (ground arith, ground arith, ground arith, λ code e. ground arith)

  -- A copy that is not recursive reads canonical bytes of a key only if the key is a file that
  -- reads serve, of a virtual or sea place, and has no preparer.
  pub copy-canonical :
      (from_path : Str) (p : Place) (key : Str)
      → copy os file_ext r from_path false ≡ canonical p key
      → (read os file_ext r from_path ≡ file p key)
        × ((p.is_virtual || is_sea p.provider) ≡ true)
        × (prepared file_ext p key ≡ false)
  unfolding copy copy_source
  copy-canonical from_path p key h = (ground arith, ground arith, ground arith)
