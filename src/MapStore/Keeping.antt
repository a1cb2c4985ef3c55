-- ===== src/MapStore/Keeping.antt =====
-- What the changes of the projection keep: the directory index, and the other sources.
use shared_memory_fs.Prelude.{
  ℕ, ◌≡◌, Bool, false, true, List, [], ◌∷◌, ◌++◌, Option, none, some, ◌==◌, nat_eq, if◌then◌else◌,
  arith, refl, inl, inr, ◌⊎◌, Option-cases, All, All-map, ◌∙◌, eq_of_beq,
}
use shared_memory_fs.Prelude.JsMap
use shared_memory_fs.Prelude.JsMap.{JsMap, get-set, get-delete, has-eq-get, is_some}
use shared_memory_fs.Prelude.JsSet.{contains, contains-append}
use shared_memory_fs.Prelude.Text.{Str, str, str_eq}
use shared_memory_fs.Routing.Keys.{nul, is_companion_key, bytecode_key, compressed_key}
use shared_memory_fs.Routing.Places.{
  Place, Version, RequireDomain, ScriptDomain, FsDomain, companions, compressed_keys, require_keys,
  script_keys, fs_keys,
}
use shared_memory_fs.Directories.{PlaceFiles, set_file, delete_file}
use shared_memory_fs.Directories.Chains.{Rooted}
use shared_memory_fs.Directories.Index.{Indexed, set_file-Indexed}
use shared_memory_fs.Directories.Index.Removal.{delete_file-Indexed}
use shared_memory_fs.Pipeline.Platform.{Platform}
use shared_memory_fs.Pipeline.Bytecode.{Flavor, Compiled, compiled, compile_all, flavor_text}
use shared_memory_fs.MapStore.{delete_all, set_all, code_entries}

abbrev pub Companion : Str → Type 0
Companion key = is_companion_key key ≡ true

abbrev pub file_at : PlaceFiles Version → Str → Option Version
file_at f key = JsMap.get f.entries key

pub file_at-set_file :
    (f : PlaceFiles Version) (key j : Str) (v : Version)
    → file_at (set_file f key v) j ≡ (if key == j then some v else file_at f j)
unfolding set_file
file_at-set_file f key j v = get-set f.entries key j v

pub file_at-delete_file :
    (f : PlaceFiles Version) (key j : Str)
    → file_at (delete_file f key).0 j ≡ (if key == j then none else file_at f j)
unfolding delete_file
file_at-delete_file f key j = ground (
  arith,
  get-delete f.entries key j,
  has-eq-get f.entries key,
  has-eq-get f.entries j,
  eq_of_beq key j,
)

-- The projections show the same sources.
abbrev pub Alike : PlaceFiles Version → PlaceFiles Version → Type 0
Alike f g = (j : Str) → is_companion_key j ≡ false → file_at f j ≡ file_at g j

Companion-apart : (key j : Str) → Companion key → is_companion_key j ≡ false → (key == j) ≡ false
Companion-apart key j c s = ground (arith, eq_of_beq key j)

pub delete_all-Alike :
    (f : PlaceFiles Version) (keys : List Str) → All Companion keys → Alike (delete_all f keys) f
unfolding delete_all
delete_all-Alike f [] c j s = refl
delete_all-Alike f (key ∷ keys) c j s =
    delete_all-Alike (delete_file f key).0 keys c.1 j s
    ∙ (file_at-delete_file f key j ∙ rw (Companion-apart key j c.0 s) refl)

pub delete_all-Indexed :
    (f : PlaceFiles Version) (keys : List Str) → Indexed f → Indexed (delete_all f keys)
unfolding delete_all
delete_all-Indexed f [] i = i
delete_all-Indexed f (key ∷ keys) i =
    delete_all-Indexed (delete_file f key).0 keys (delete_file-Indexed f key i)

abbrev pub OfCompanion : Str × Version → Type 0
OfCompanion e = Companion e.0

pub set_all-Alike :
    (f : PlaceFiles Version) (es : List (Str × Version))
    → All OfCompanion es
    → Alike (set_all f es) f
unfolding set_all
set_all-Alike f [] c j s = refl
set_all-Alike f ((key, v) ∷ es) c j s =
    set_all-Alike (set_file f key v) es c.1 j s
    ∙ (file_at-set_file f key j v ∙ rw (Companion-apart key j c.0 s) refl)

-- An entry that the index can take.
abbrev pub Listable : Str × Version → Type 0
Listable e = (is_companion_key e.0 ≡ true) ⊎ Rooted e.0

pub set_all-Indexed :
    (f : PlaceFiles Version) (es : List (Str × Version))
    → All Listable es
    → Indexed f
    → Indexed (set_all f es)
unfolding set_all
set_all-Indexed f [] l i = i
set_all-Indexed f ((key, v) ∷ es) l i =
    set_all-Indexed (set_file f key v) es l.1 (set_file-Indexed f key v i l.0)

-- Derivative keys are companion keys, whatever they derive from.
bytecode_key-Companion : (key domain : Str) → Companion (bytecode_key key domain)
unfolding bytecode_key is_companion_key contains
bytecode_key-Companion key domain =
    ground (arith, contains-append key (nul ∷ domain ++ str ":bytecode") nul)

pub All-append :
    {A : Type 0} (P : A → Type 0) (xs ys : List A) → All P xs → All P ys → All P (xs ++ ys)
All-append P [] ys h k = k
All-append P (x ∷ xs) ys h k = (h.0, All-append P xs ys h.1 k)

-- A key derived from a source key.
abbrev pub Derived : Str → Str → Type 0
Derived key c = (t : Str) × (c ≡ key ++ (nul ∷ t))

bytecode_key-Derived : (key domain : Str) → Derived key (bytecode_key key domain)
unfolding bytecode_key
bytecode_key-Derived key domain = (domain ++ str ":bytecode", refl)

compressed_keys-Derived :
    (codecs : List Str) (key : Str) → All (Derived key) (compressed_keys codecs key)
unfolding compressed_keys compressed_key
compressed_keys-Derived [] key = tt
compressed_keys-Derived (c ∷ codecs) key =
    ((str "fs:" ++ c, refl), compressed_keys-Derived codecs key)

pub Derived-Companion : (key c : Str) → Derived key c → Companion c
unfolding is_companion_key contains
Derived-Companion key c (t, e) = rw e (ground (arith, contains-append key (nul ∷ t) nul))

if_one : (b : Bool) (key c : Str) → Derived key c → All (Derived key) (if b then c ∷ [] else [])
if_one true key c h = (h, tt)
if_one false key c h = tt

require_keys-Derived :
    (r : Option RequireDomain) (key : Str) → All (Derived key) (require_keys r key)
unfolding require_keys
require_keys-Derived none key = tt
require_keys-Derived (some domain) key =
    if_one domain.compile key (bytecode_key key (str "require"))
      (bytecode_key-Derived key (str "require"))

script_keys-Derived : (r : Option ScriptDomain) (key : Str) → All (Derived key) (script_keys r key)
unfolding script_keys
script_keys-Derived none key = tt
script_keys-Derived (some script) key =
    if_one script.compile key (bytecode_key key (str "script"))
      (bytecode_key-Derived key (str "script"))

fs_keys-Derived : (fs : Option FsDomain) (key : Str) → All (Derived key) (fs_keys fs key)
unfolding fs_keys
fs_keys-Derived none key = tt
fs_keys-Derived (some fs) key =
    All-append (Derived key) (script_keys fs.script key) (compressed_keys fs.codecs key)
      (script_keys-Derived fs.script key) (compressed_keys-Derived fs.codecs key)

pub companions-Derived : (p : Place) (key : Str) → All (Derived key) (companions p key)
unfolding companions
companions-Derived p key =
    All-append (Derived key) (require_keys p.require key) (fs_keys p.fs key)
      (require_keys-Derived p.require key) (fs_keys-Derived p.fs key)

pub companions-Companion : (p : Place) (key : Str) → All Companion (companions p key)
companions-Companion p key =
    All-map (Derived key) Companion (companions p key) (Derived-Companion key)
      (companions-Derived p key)

add_code :
    (code : Compiled) (mtime_ms : ℕ) (codes : List Compiled)
    → Companion code.key
    → All OfCompanion (code_entries mtime_ms codes)
    → All OfCompanion (code_entries mtime_ms (code ∷ codes))
unfolding code_entries
add_code code mtime_ms codes h rest = elim (Option-cases code.bytes) [
  | inl e ↦ rw (code_entries, e) rest
  | inr (bytes, e) ↦ rw (code_entries, e) (h, rest)
]

pub code_entries-Companion :
    (os : Platform) (p : Place) (key text : Str) (options : Option ℕ) (mtime_ms : ℕ)
    (flavors : List Flavor)
    → All OfCompanion (code_entries mtime_ms (compile_all os p key text options flavors))
unfolding compile_all compiled code_entries
code_entries-Companion os p key text options mtime_ms [] = tt
code_entries-Companion os p key text options mtime_ms (flavor ∷ flavors) =
    add_code (compiled os p key text options flavor) mtime_ms
      (compile_all os p key text options flavors) (bytecode_key-Companion key (flavor_text flavor))
      (code_entries-Companion os p key text options mtime_ms flavors)
