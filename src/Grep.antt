-- ===== src/Grep.antt =====
-- The regular expressions of grep.c: `match`, `matchhere` and `matchstar`, over the bytes before the
-- zero byte of the expression and of the text.
pub mod Language
mod Examples
use chameleon_os.Base.{ℕ, Bool, true, false, ◌&&◌, ◌||◌, List, [], ◌∷◌, ◌==◌, if◌then◌else◌}

abbrev pub is_nil : List ℕ → Bool
is_nil [] = true
is_nil (x ∷ xs) = false

-- `re[0]=='.' || re[0]==*text`
abbrev pub fits : ℕ → ℕ → Bool
fits c x = (c == b'.') || (c == x)

-- `here` is `matchhere` of the expression behind the star.
pub matchstar : (List ℕ → Bool) → ℕ → List ℕ → Bool
matchstar here c [] = here []
matchstar here c (x ∷ xs) = here (x ∷ xs) || (((x == c) || (c == b'.')) && matchstar here c xs)

-- Without a star behind it, `$` at the end of the expression, or one byte. `here` is `matchhere` of
-- the rest of the expression.
pub match_one : (List ℕ → Bool) → ℕ → Bool → List ℕ → Bool
match_one here c last [] = (c == b'$') && last
match_one here c last (x ∷ xs) = if (c == b'$') && last then false else (fits c x && here xs)

pub matchhere : List ℕ → List ℕ → Bool
unfolding matchstar match_one
matchhere [] text = true
matchhere (c ∷ []) text = match_one (matchhere []) c true text
matchhere (c ∷ d ∷ re) text =
    let star = matchstar (matchhere re) c text in
    let one = match_one (matchhere (d ∷ re)) c false text in if d == b'*' then star else one

-- The loop of `match`: every rest of the text, the empty one included.
pub match_from : List ℕ → List ℕ → Bool
unfolding matchhere
match_from re [] = matchhere re []
match_from re (x ∷ xs) = matchhere re (x ∷ xs) || match_from re xs

pub match : List ℕ → List ℕ → Bool
unfolding match_from
match [] text = match_from [] text
match (c ∷ re) text = if c == b'^' then matchhere re text else match_from (c ∷ re) text
