-- ===== src/Printf/Buffer.antt =====
-- The array `buf` of `printint` in printf.c is large enough.
use native.Mathlib.Numerals.{unary_clauses}
use chameleon_os.Base.{
  ℕ, zero, suc, ◌/◌, ◌^◌, ◌≤◌, ◌<◌, ◌≡◌, inl, inr, true, false, [], ◌∷◌, arith, ◌==◌, Bool-cases,
  length, length-append,
}
use chameleon_os.Base.Machine.{uint_sub}
use chameleon_os.Printf.{digits_of, is_negative, buffer}

module _ (base : ℕ) (shorter : (x k : ℕ) → x < base ^ suc k → x / base < base ^ k) where
  length-digits_of : (x n k : ℕ) → x < base ^ suc k → length (digits_of base x n) ≤ suc k
  unfolding digits_of
  length-digits_of x zero k lt = omega arith
  length-digits_of x (suc n) zero lt =
      let none : x / base < 1 = simp unary_clauses at (shorter x zero lt) in
      let last : (x / base == 0) ≡ true = ground (arith, none) in rw (digits_of, last) (omega arith)
  length-digits_of x (suc n) (suc k) lt =
      let rest = length-digits_of (x / base) n k (shorter x (suc k) lt) in
      elim (Bool-cases (x / base == 0)) [
        | inl q ↦ rw (digits_of, q) (omega arith)
        | inr q ↦ rw (digits_of, q) (omega (arith, rest))
      ]

-- `printint` as `printf` calls it, for %d or for %x and %p, of any word: what it puts into `buf` before
-- it writes fits into the 16 bytes of the array, at most 11 for %d and 8 for %x.
pub buffer_fits :
    (xx : ℕ) → xx < 2 ^ 32 → (length (buffer xx 10 true) ≤ 11) × (length (buffer xx 16 false) ≤ 8)
unfolding buffer
buffer_fits xx lt =
    let decimal : (x : ℕ) → x < 2 ^ 32 → length (digits_of 10 x 32) ≤ 10 =
      λ x h. length-digits_of 10 (λ x k h. omega (arith, h)) x 32 9 (omega (arith, h)) in
    (
      elim (Bool-cases (is_negative xx true)) [
        | inl q ↦
            let most = decimal (uint_sub 0 xx) (omega arith) in
            rw (buffer, q)
              (omega (arith, length-append (digits_of 10 (uint_sub 0 xx) 32) (b'-' ∷ []), most))
        | inr q ↦ let most = decimal xx lt in rw (buffer, q) (omega (arith, most))
      ],
      length-digits_of 16 (λ x k h. omega (arith, h)) xx 32 7 (omega (arith, lt)),
    )
