-- ===== src/Examples/Paths.antt =====
-- Paths under an application root /a with a virtual place m and a place d kept on disk
-- (lib/registry.js, lib/companion.js).
use shared_memory_fs.Prelude.{
  ℕ, List, Option, false, true, ◌≡◌, ◌≢◌, [], ◌∷◌, none, some, refl, ◌==◌, nat_eq, if◌then◌else◌,
}
use shared_memory_fs.Prelude.JsMap
use shared_memory_fs.Prelude.JsSet.{contains}
use shared_memory_fs.Prelude.Text.{Str, str, str_beq}
use shared_memory_fs.Routing.Keys.{
  is_companion_key, bytecode_key, source_of, starts_with, before, from,
}
use shared_memory_fs.Routing.Derivatives.{source_of-bytecode_key}
use shared_memory_fs.Routing.Places.{
  Version, Place, FsDomain, sab, in_map, unset, visible, prepared, indexed,
}
use shared_memory_fs.Routing.Paths.{NodePath, route, route_key, outside, to_key, names_directory}
use shared_memory_fs.Routing.Router.{
  Router, Code, passthrough, deny, file, read, mutate, copy, copy_source, link, link_source,
  managed, indexed_place,
}
use shared_memory_fs.Routing.Isolation.{
  Passes, Writes, Splits, read-Passes, mutate-Writes, route-Splits,
}
use shared_memory_fs.Routing.Moves.{link-passthrough, copy-canonical}

-- `path.relative` of two absolute paths, the first of which is /a.
relative_to : Str → Str → Str
relative_to root [] = str ".."
relative_to [] (c ∷ s) = if c == 47 then s else str ".."
relative_to (r ∷ root) (c ∷ s) = let rest = relative_to root s in if r == c then rest else str ".."

abbrev posix : NodePath
posix = record {
  resolve = λ s. s;
  relative = relative_to;
  is_absolute = λ s. starts_with s (str "/");
  windows = false;
}

abbrev js : Str → Str
js s = str "js"

abbrev any_fs : FsDomain
any_fs = record { ext = none; writable = true; fallback = unset; script = none; codecs = [] }

abbrev in_bytes : Option (List ℕ) → Version
in_bytes bytes = record {
  bytes = bytes;
  size = 1;
  mtime_ms = 0;
  script_options = none;
  meta = none;
}

abbrev virtual_place : Place
virtual_place = record {
  name = str "m";
  root = str "/a/m";
  provider = in_map;
  is_virtual = true;
  fs = some any_fs;
  require = none;
  scan_ext = none;
  prepare = none;
  preparers = none;
  files = record {
    entries = (str "/f.js", in_bytes (some (1 ∷ []))) ∷ [];
    dirs = (str "", str "f.js" ∷ []) ∷ [];
  };
}

abbrev disk_place : Place
disk_place = record {
  name = str "d";
  root = str "/a/d";
  provider = sab;
  is_virtual = false;
  fs = some any_fs;
  require = none;
  scan_ext = none;
  prepare = none;
  preparers = none;
  files = record {
    entries = (str "/big.js", in_bytes none) ∷ [];
    dirs = (str "", str "big.js" ∷ []) ∷ [];
  };
}

abbrev router : Router
router = record {
  registry = record {
    app_root = str "/a";
    places = (str "m", virtual_place) ∷ (str "d", disk_place) ∷ [];
  };
  strict = true;
}

source_of-bytecode_key_example :
    (source_of (bytecode_key (str "/f.js") (str "require")) ≡ str "/f.js")
    × (is_companion_key (bytecode_key (str "/f.js") (str "require")) ≡ true)
unfolding is_companion_key contains
source_of-bytecode_key_example = source_of-bytecode_key (str "/f.js") (str "require") refl

read-Passes_example : Passes posix js (route posix router.registry (str "/a/d/big.js"))
unfolding relative_to read route outside to_key route_key starts_with before from JsMap.get str_beq
    names_directory visible is_companion_key contains indexed
read-Passes_example = read-Passes posix js router (str "/a/d/big.js") refl refl

mutate-Writes_example : Writes posix js (route posix router.registry (str "/a/d/big.js"))
unfolding relative_to mutate route outside to_key route_key starts_with before from JsMap.get
    str_beq
mutate-Writes_example = mutate-Writes posix js router (str "/a/d/big.js") refl refl

route-Splits_example : Splits posix router.registry (str "/a/m/f.js") virtual_place (str "/f.js")
unfolding relative_to route outside to_key route_key starts_with before from JsMap.get str_beq
route-Splits_example =
    route-Splits posix router.registry (str "/a/m/f.js") virtual_place (str "/f.js") refl

link-passthrough_example :
    (read posix js router (str "/t") ≡ passthrough)
    × (managed posix js router (str "/t") ≡ false)
    × (managed posix js router (str "/u") ≡ false)
    × ((code : Code) → mutate posix js router (str "/u") ≢ deny code)
unfolding relative_to link read mutate link_source indexed_place route outside to_key route_key
    starts_with before from JsMap.get str_beq
link-passthrough_example = link-passthrough posix js router (str "/t") (str "/u") refl

copy-canonical_example :
    (read posix js router (str "/a/m/f.js") ≡ file virtual_place (str "/f.js"))
    × ((virtual_place.is_virtual) ≡ true)
    × (prepared js virtual_place (str "/f.js") ≡ false)
unfolding relative_to copy copy_source read route outside to_key route_key starts_with before from
    JsMap.get str_beq names_directory visible is_companion_key contains prepared indexed
copy-canonical_example =
    copy-canonical posix js router (str "/a/m/f.js") virtual_place (str "/f.js") refl
