-- ===== src/Path.antt =====
-- `skipelem` of fs.c and the loop of `namex` over the elements of a path. A path is the list of its
-- bytes before the zero byte; an element is what the name buffer of DIRSIZ bytes holds.
pub mod Elements
mod Examples
use chameleon_os.Base.{
  ℕ, zero, suc, Bool, true, false, Option, none, some, List, [], ◌∷◌, ◌==◌, if◌then◌else◌, take,
}

abbrev pub dirsiz : ℕ
dirsiz = 14

-- `while(*path == '/') path++;`
unfoldable pub skip_slashes : List ℕ → List ℕ
skip_slashes [] = []
skip_slashes (c ∷ cs) = let rest = skip_slashes cs in if c == b'/' then rest else c ∷ cs

-- `while(*path != '/' && *path != 0) path++;`: the bytes passed over, and the rest.
unfoldable pub span : List ℕ → List ℕ × List ℕ
span [] = ([], [])
span (c ∷ cs) = let (e, rest) = span cs in if c == b'/' then ([], c ∷ cs) else (c ∷ e, rest)

-- `name` and the path that is returned; none for 0. Both `memmove`s leave the first DIRSIZ bytes of
-- the element, with a zero byte behind them if there is room.
unfoldable pub skipelem : List ℕ → Option (List ℕ × List ℕ)
unfolding skip_slashes span
skipelem path = elim (skip_slashes path) [
  | [] ↦ none
  | c ∷ cs ↦ let (e, rest) = span (c ∷ cs) in some (take dirsiz e, skip_slashes rest)
]

-- The names that `while((path = skipelem(path, name)) != 0)` goes through; the fuel bounds its
-- rounds.
pub elements : ℕ → List ℕ → List (List ℕ)
unfolding skipelem
elements zero path = []
elements (suc n) path = elim (skipelem path) [
  | none ↦ []
  | some (name, rest) ↦ name ∷ elements n rest
]
