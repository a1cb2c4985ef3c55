-- ===== src/Pipeline/Bytecode.antt =====
-- lib/pipeline.js, bytecodeDomains and bytecodeFor: the cached data that goes with a source.
use shared_memory_fs.Prelude.{ℕ, ◌&&◌, List, [], ◌∷◌, ◌++◌, Option, none, some, if◌then◌else◌}
use shared_memory_fs.Prelude.JsSet.{contains}
use shared_memory_fs.Prelude.Text.{Str, str, str_eq}
use shared_memory_fs.Routing.Keys.{is_companion_key, bytecode_key}
use shared_memory_fs.Routing.Places.{Place, visible_require, scripted}
use shared_memory_fs.Pipeline.Platform.{Platform, named, given, path_of}

pub data Flavor : Type 0 where
  for_require : Flavor
  for_script : Flavor

abbrev pub flavor_text : Flavor → Str
flavor_text for_require = str "require"
flavor_text for_script = str "script"

abbrev pub require_ext : List Str
require_ext = str "js" ∷ str "cjs" ∷ []

unfoldable pub bytecode_domains : Platform → Place → Str → List Flavor
bytecode_domains os p key =
    if is_companion_key key
    then []
    else (let required : List Flavor = elim p.require [
      | none ↦ []
      | some domain ↦
          if domain.compile
            && contains require_ext (os.file_ext key)
            && visible_require os.file_ext p key
          then for_require ∷ []
          else []
    ] in
        let scripts : List Flavor = elim p.fs [
          | none ↦ []
          | some fs ↦ elim fs.script [
            | none ↦ []
            | some script ↦
                if script.compile && scripted os.file_ext p key then for_script ∷ [] else []
          ]
        ] in
        required ++ scripts)

-- One companion: `bytes` is none where the source does not parse.
pub record Compiled : Type 0 where
  pub flavor : Flavor
  pub key : Str
  pub bytes : Option (List ℕ)

unfoldable pub compiled : Platform → Place → Str → Str → Option ℕ → Flavor → Compiled
compiled os p key text options flavor = record {
  flavor = flavor;
  key = bytecode_key key (flavor_text flavor);
  bytes = elim flavor [
    | for_require ↦ os.compile (os.wrap text) (named (path_of os p key))
    | for_script ↦ os.compile text (given options)
  ];
}

unfoldable pub compile_all : Platform → Place → Str → Str → Option ℕ → List Flavor → List Compiled
unfolding compiled
compile_all os p key text options [] = []
compile_all os p key text options (flavor ∷ flavors) =
    compiled os p key text options flavor ∷ compile_all os p key text options flavors

unfoldable pub bytecode_for : Platform → Place → Str → List ℕ → Option ℕ → List Compiled
unfolding compile_all bytecode_domains
bytecode_for os p key source options =
    compile_all os p key (os.decode source) options (bytecode_domains os p key)
