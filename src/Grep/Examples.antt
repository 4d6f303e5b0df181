-- ===== src/Grep/Examples.antt =====
-- An expression with a star.
use chameleon_os.Base.{ℕ, ◌≡◌, ◌↔◌, true, List, [], ◌∷◌}
use chameleon_os.Grep.{match}
use chameleon_os.Grep.Language.{Matches, match_iff}

-- "^a*b" and "aab"
abbrev re : List ℕ
re = b'^' ∷ b'a' ∷ b'*' ∷ b'b' ∷ []

abbrev text : List ℕ
text = b'a' ∷ b'a' ∷ b'b' ∷ []

match_iff_example : (match re text ≡ true) ↔ Matches re text
match_iff_example = match_iff re text
