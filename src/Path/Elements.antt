-- ===== src/Path/Elements.antt =====
-- The elements of a path as `namex` of fs.c walks them are its parts between slashes.
use chameleon_os.Base.{
  subst, some-injective, ℕ, zero, suc, ◌≤◌, ◌<◌, ◌≡◌, refl, sym, ap, ap₂, ◌∙◌, ◌⊎◌, inl, inr, false,
  none, some, List, [], ◌∷◌, arith, ◌==◌, if◌then◌else◌, Bool-cases, length, take, map,
}
use chameleon_os.Path.{dirsiz, skip_slashes, span, skipelem, elements}

-- The parts of a path between its slashes, the empty ones included: the first, and the others.
pub split : List ℕ → List ℕ × List (List ℕ)
split [] = ([], [])
split (c ∷ cs) = let (w, ws) = split cs in if c == b'/' then ([], w ∷ ws) else (c ∷ w, ws)

pub non_empty : List (List ℕ) → List (List ℕ)
non_empty [] = []
non_empty ([] ∷ ws) = non_empty ws
non_empty ((c ∷ w) ∷ ws) = (c ∷ w) ∷ non_empty ws

abbrev pub words : List ℕ → List (List ℕ)
words path = let (w, ws) = split path in non_empty (w ∷ ws)

words-skip_slashes : (path : List ℕ) → words (skip_slashes path) ≡ words path
unfolding skip_slashes split non_empty
words-skip_slashes [] = refl
words-skip_slashes (c ∷ cs) = elim (Bool-cases (c == b'/')) [
  | inl s ↦ rw s (words-skip_slashes cs)
  | inr n ↦ rw n (rw n)
]

split-span :
    (path : List ℕ)
    → ((split path).0 ≡ (span path).0) × (non_empty (split path).1 ≡ words (span path).1)
unfolding span split non_empty
split-span [] = (refl, refl)
split-span (c ∷ cs) = elim (Bool-cases (c == b'/')) [
  | inl s ↦ rw s (refl, rw s)
  | inr n ↦ rw n (ground (arith, split-span cs), (split-span cs).1)
]

length-skip_slashes : (path : List ℕ) → length (skip_slashes path) ≤ length path
unfolding skip_slashes
length-skip_slashes [] = omega arith
length-skip_slashes (c ∷ cs) = ground (arith, length-skip_slashes cs)

length-span : (path : List ℕ) → length (span path).1 ≤ length path
unfolding span
length-span [] = omega arith
length-span (c ∷ cs) = ground (arith, length-span cs)

not_slash : (path : List ℕ) {c : ℕ} {cs : List ℕ} → skip_slashes path ≡ c ∷ cs → (c == b'/') ≡ false
unfolding skip_slashes
not_slash [] h = absurd (cc)
not_slash (d ∷ ds) h = elim (Bool-cases (d == b'/')) [
  | inl s ↦ not_slash ds (rw s at h)
  | inr n ↦ ground (arith, n, rw n at h)
]

-- What `skipelem` does, given the path without its leading slashes.
skipelem_lem :
    (path : List ℕ)
    → ((skipelem path ≡ none) × (words path ≡ []))
      ⊎ ((e rest : List ℕ) × (skipelem path ≡ some (take dirsiz e, rest))
          × (words path ≡ e ∷ words rest)
          × (length rest < length path))
unfolding skipelem non_empty split
skipelem_lem path = go (skip_slashes path) refl
  where
    go :
        (p : List ℕ)
        → skip_slashes path ≡ p
        → ((skipelem path ≡ none) × (words path ≡ []))
          ⊎ ((e rest : List ℕ) × (skipelem path ≡ some (take dirsiz e, rest))
              × (words path ≡ e ∷ words rest)
              × (length rest < length path))
    go [] q = inl (rw (q, skipelem), sym (words-skip_slashes path) ∙ ap words q)
    go (c ∷ cs) q = inr (
      c ∷ (span cs).0,
      skip_slashes (span cs).1,
      rw (q, skipelem, not_slash path q),
      sym (words-skip_slashes path)
          ∙ ap words q
          ∙ rw (not_slash path q) (
              ap₂ (λ (a : List ℕ) (b : List (List ℕ)). (c ∷ a) ∷ b) (split-span cs).0
                ((split-span cs).1 ∙ sym (words-skip_slashes (span cs).1))),
      omega (
        arith,
        length-skip_slashes path,
        ap length q,
        length-skip_slashes (span cs).1,
        length-span cs,
      ),
    )

-- With fuel beyond the length of the path, the names that the loop of `namex` goes through are the
-- non-empty parts of the path between slashes, in order, each cut to DIRSIZ bytes.
pub elements_lem :
    (n : ℕ) (path : List ℕ) → length path < n → elements n path ≡ map (take dirsiz) (words path)
unfolding elements
elements_lem zero path h = absurd (omega arith)
elements_lem (suc n) path h = elim (skipelem_lem path) [
  | inl (e, w) ↦ rw (e, elements) (rw w)
  | inr (e, rest, s, w, l) ↦
      rw (s, elements) (rw w (ap (λ r. take dirsiz e ∷ r) (elements_lem n rest (omega arith))))
]

pub length-skipelem :
    (path : List ℕ) {e rest : List ℕ} → skipelem path ≡ some (e, rest) → length rest < length path
length-skipelem path {rest = rest} h = elim (skipelem_lem path) [
  | inl (e', w) ↦ absurd (cc)
  | inr (e', rest', s, w, l) ↦
      let same : rest ≡ rest' = ap (λ (r : List ℕ × List ℕ). r.1) (some-injective (sym h ∙ s)) in
      subst (λ r. length r < length path) (sym same) l
]
