-- ===== src/Routing/Keys.antt =====
-- lib/companion.js, and the keys of lib/place.js: sources, their derivatives and directories.
use shared_memory_fs.Prelude.{
  ℕ, Bool, false, true, ◌&&◌, ◌||◌, [], ◌∷◌, ◌++◌, ◌==◌, nat_eq, if◌then◌else◌, ◌≡◌, refl, arith,
}
use shared_memory_fs.Prelude.JsSet.{contains}
use shared_memory_fs.Prelude.Text.{Str, str}

abbrev pub slash : ℕ
slash = 47

abbrev pub nul : ℕ
nul = 0

abbrev is_nil : Str → Bool
is_nil [] = true
is_nil (c ∷ s) = false

-- `s.startsWith(prefix)`
unfoldable pub starts_with : Str → Str → Bool
starts_with s [] = true
starts_with [] (p ∷ ps) = false
starts_with (c ∷ s) (p ∷ ps) = c == p && starts_with s ps

-- `s.substring(0, s.indexOf(c))`, the whole text without one.
unfoldable pub before : ℕ → Str → Str
before c [] = []
before c (d ∷ s) = let rest = before c s in if d == c then [] else d ∷ rest

-- `s.substring(s.indexOf(c))`, empty without one.
unfoldable pub from : ℕ → Str → Str
from c [] = []
from c (d ∷ s) = let rest = from c s in if d == c then d ∷ s else rest

-- `s.replace(/c+$/, '')`
unfoldable pub trim_end : ℕ → Str → Str
trim_end c [] = []
trim_end c (d ∷ s) = let rest = trim_end c s in if is_nil rest && d == c then [] else d ∷ rest

unfoldable pub bytecode_key : Str → Str → Str
bytecode_key source domain = source ++ (nul ∷ domain ++ str ":bytecode")

unfoldable pub compressed_key : Str → Str → Str
compressed_key source encoding = source ++ (nul ∷ str "fs:" ++ encoding)

unfoldable pub is_companion_key : Str → Bool
is_companion_key key = contains key nul

unfoldable pub source_of : Str → Str
source_of key = before nul key

unfoldable pub dir_of : Str → Str
unfolding trim_end starts_with
dir_of key =
    let trimmed = trim_end slash key in
    if is_nil trimmed || starts_with trimmed (slash ∷ []) then trimmed else slash ∷ trimmed

-- The parts of a text are the text.
pub before-from : (c : ℕ) (s : Str) → before c s ++ from c s ≡ s
unfolding before from
before-from c [] = refl
before-from c (d ∷ s) = ground (arith, before-from c s)

pub before-clean : (c : ℕ) (s : Str) → contains (before c s) c ≡ false
unfolding before contains
before-clean c [] = refl
before-clean c (d ∷ s) = ground (arith, before-clean c s)

pub before-stop : (c : ℕ) (s t : Str) → contains s c ≡ false → before c (s ++ (c ∷ t)) ≡ s
unfolding before contains
before-stop c [] t h = ground arith
before-stop c (d ∷ s) t h = ground (arith, before-stop c s t)
