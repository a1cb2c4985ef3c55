-- ===== src/Routing/Derivatives.antt =====
-- lib/companion.js: a derivative leads back to its source, and is no source.
use shared_memory_fs.Prelude.{false, true, ◌≡◌, arith, nat_eq, ◌∷◌, ◌++◌}
use shared_memory_fs.Prelude.JsSet.{contains, contains-append}
use shared_memory_fs.Prelude.Text.{Str, str}
use shared_memory_fs.Routing.Keys.{
  nul, bytecode_key, compressed_key, is_companion_key, source_of, before-stop,
}

-- The bytecode key of a source key leads back to the source, and is a companion key.
pub source_of-bytecode_key :
    (source domain : Str)
    → is_companion_key source ≡ false
    → (source_of (bytecode_key source domain) ≡ source)
      × (is_companion_key (bytecode_key source domain) ≡ true)
unfolding source_of bytecode_key is_companion_key contains
source_of-bytecode_key source domain h = (
  before-stop nul source (domain ++ str ":bytecode") h,
  ground (arith, contains-append source (nul ∷ domain ++ str ":bytecode") nul),
)

-- The compressed key of a source key leads back to the source, and is a companion key.
pub source_of-compressed_key :
    (source encoding : Str)
    → is_companion_key source ≡ false
    → (source_of (compressed_key source encoding) ≡ source)
      × (is_companion_key (compressed_key source encoding) ≡ true)
unfolding source_of compressed_key is_companion_key contains
source_of-compressed_key source encoding h = (
  before-stop nul source (str "fs:" ++ encoding) h,
  ground (arith, contains-append source (nul ∷ str "fs:" ++ encoding) nul),
)
