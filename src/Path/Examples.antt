-- ===== src/Path/Examples.antt =====
-- A path with doubled slashes.
use chameleon_os.Base.{ℕ, ◌≡◌, List, [], ◌∷◌, arith, map, take}
use chameleon_os.Path.{dirsiz, elements}
use chameleon_os.Path.Elements.{words, elements_lem}

-- "//a/bc"
abbrev path : List ℕ
path = b'/' ∷ b'/' ∷ b'a' ∷ b'/' ∷ b'b' ∷ b'c' ∷ []

elements_lem_example : elements 7 path ≡ map (take dirsiz) (words path)
elements_lem_example = elements_lem 7 path (omega arith)
