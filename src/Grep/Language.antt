-- ===== src/Grep/Language.antt =====
-- What the expressions of grep.c mean, and that `match` decides it.
use chameleon_os.Base.{
  ℕ, ◌≡◌, ◌≢◌, ◌↔◌, refl, ◌⊎◌, inl, inr, true, false, List, [], ◌∷◌, arith, ◌==◌, ne→==, Bool-cases,
}
use chameleon_os.Grep.{fits, matchstar, match_one, matchhere, match_from, match}

-- The expression matches at the beginning of the text.
pub data Here : List ℕ → List ℕ → Type 0 where
  empty : (text : List ℕ) → Here [] text
  star_none : (c d : ℕ) (re text : List ℕ) → d ≡ b'*' → Here re text → Here (c ∷ d ∷ re) text
  star_more :
      (c d x : ℕ) (re text : List ℕ)
      → d ≡ b'*'
      → (c ≡ b'.') ⊎ (c ≡ x)
      → Here (c ∷ d ∷ re) text
      → Here (c ∷ d ∷ re) (x ∷ text)
  end : (c : ℕ) → c ≡ b'$' → Here (c ∷ []) []
  last : (c x : ℕ) (text : List ℕ) → c ≢ b'$' → (c ≡ b'.') ⊎ (c ≡ x) → Here (c ∷ []) (x ∷ text)
  one :
      (c d x : ℕ) (re text : List ℕ)
      → d ≢ b'*'
      → (c ≡ b'.') ⊎ (c ≡ x)
      → Here (d ∷ re) text
      → Here (c ∷ d ∷ re) (x ∷ text)

fits_iff : (c x : ℕ) → (fits c x ≡ true) ↔ ((c ≡ b'.') ⊎ (c ≡ x))
fits_iff c x = ground arith

star_sound :
    (c d : ℕ) (re text : List ℕ)
    → d ≡ b'*'
    → ((t : List ℕ) → matchhere re t ≡ true → Here re t)
    → matchstar (matchhere re) c text ≡ true
    → Here (c ∷ d ∷ re) text
unfolding matchstar
star_sound c d re [] e here h = star_none c d re [] e (here [] h)
star_sound c d re (x ∷ xs) e here h = elim (Bool-cases (matchhere re (x ∷ xs))) [
  | inl y ↦ star_none c d re (x ∷ xs) e (here (x ∷ xs) y)
  | inr n ↦ star_more c d x re xs e (ground arith) (star_sound c d re xs e here (ground arith))
]

one_sound :
    (c d : ℕ) (re text : List ℕ)
    → d ≢ b'*'
    → ((t : List ℕ) → matchhere (d ∷ re) t ≡ true → Here (d ∷ re) t)
    → match_one (matchhere (d ∷ re)) c false text ≡ true
    → Here (c ∷ d ∷ re) text
unfolding match_one
one_sound c d re [] n here h = absurd (ground arith)
one_sound c d re (x ∷ xs) n here h = one c d x re xs n (ground arith) (here xs (ground arith))

is_star : (d : ℕ) → d ≡ b'*' → (d == b'*') ≡ true
is_star d e = ground arith

star_complete_none :
    (c : ℕ) (re text : List ℕ) → matchhere re text ≡ true → matchstar (matchhere re) c text ≡ true
unfolding matchstar
star_complete_none c re [] h = h
star_complete_none c re (x ∷ xs) h = rw h

matchhere_sound : (re text : List ℕ) → matchhere re text ≡ true → Here re text
unfolding matchhere match_one
matchhere_sound [] text h = empty text
matchhere_sound (c ∷ []) [] h = end c (ground arith)
matchhere_sound (c ∷ []) (x ∷ xs) h = last c x xs (ground arith) (ground arith)
matchhere_sound (c ∷ d ∷ re) text h = elim (Bool-cases (d == b'*')) [
  | inl y ↦ star_sound c d re text (ground arith) (matchhere_sound re) (rw (y, matchhere) at h)
  | inr n ↦ one_sound c d re text (ground arith) (matchhere_sound (d ∷ re)) (rw (n, matchhere) at h)
]

matchhere_complete : {re text : List ℕ} → Here re text → matchhere re text ≡ true
unfolding matchhere match_one matchstar
matchhere_complete (empty text) = refl
matchhere_complete (star_none c d re text e h) =
    rw (is_star d e) (star_complete_none c re text (matchhere_complete h))
matchhere_complete (star_more c d x re text e f h) =
    let ih = rw (is_star d e, matchhere) at (matchhere_complete h) in
    rw (is_star d e) (ground (arith, ih, f))
matchhere_complete (end c e) = ground arith
matchhere_complete (last c x text n f) = ground arith
matchhere_complete (one c d x re text n f h) =
    rw (ne→== d b'*' n) (ground (arith, matchhere_complete h, f))

-- The expression matches at the beginning of some rest of the text.
pub data Somewhere (re : List ℕ) : List ℕ → Type 0 where
  now : (text : List ℕ) → Here re text → Somewhere re text
  later : (x : ℕ) (text : List ℕ) → Somewhere re text → Somewhere re (x ∷ text)

-- What an expression means: a `^` in front ties it to the beginning of the text.
abbrev pub Matches : List ℕ → List ℕ → Type 0
Matches [] text = Somewhere [] text
Matches (c ∷ re) text = (c ≡ b'^') × Here re text ⊎ (c ≢ b'^') × Somewhere (c ∷ re) text

match_from_sound : (re text : List ℕ) → match_from re text ≡ true → Somewhere re text
unfolding match_from
match_from_sound re [] h = now [] (matchhere_sound re [] h)
match_from_sound re (x ∷ xs) h = elim (Bool-cases (matchhere re (x ∷ xs))) [
  | inl y ↦ now (x ∷ xs) (matchhere_sound re (x ∷ xs) y)
  | inr n ↦ later x xs (match_from_sound re xs (rw n at h))
]

match_from_complete : {re text : List ℕ} → Somewhere re text → match_from re text ≡ true
unfolding match_from
match_from_complete (now [] h) = matchhere_complete h
match_from_complete (now (x ∷ xs) h) = rw (matchhere_complete h)
match_from_complete {re} (later x xs s) = ground (arith, match_from_complete s)

-- `match` returns 1 exactly when the text has a match of the expression, with `^`, `.`, `*` and `$` as
-- K&P describe them.
pub match_iff : (re text : List ℕ) → (match re text ≡ true) ↔ Matches re text
unfolding match
match_iff [] text = (match_from_sound [] text, λ s. match_from_complete s)
match_iff (c ∷ re) text = elim (Bool-cases (c == b'^')) [
  | inl y ↦ rw y (
    λ h. inl (ground arith, matchhere_sound re text h),
    λ h. elim h [ inl (e, m) ↦ matchhere_complete m | inr (ne, m) ↦ absurd (ne (ground arith)) ],
  )
  | inr n ↦ rw n (
    λ h. inr (ground arith, match_from_sound (c ∷ re) text h),
    λ h. elim h [ inl (e, m) ↦ absurd (ground arith) | inr (ne, m) ↦ match_from_complete m ],
  )
]
