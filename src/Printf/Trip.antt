-- ===== src/Printf/Trip.antt =====
-- `atoi` of ulib.c reads what `printint` of printf.c puts.
use chameleon_os.Base.{
  ℕ, zero, suc, ◌+◌, ◌*◌, ◌/◌, ◌%◌, ◌^◌, ◌<◌, ◌≡◌, refl, ◌∙◌, ap, inl, inr, Bool, true, false, List,
  [], ◌∷◌, ◌++◌, append_assoc, arith, ◌==◌, leb, ltb, if◌then◌else◌, Bool-cases,
}
use chameleon_os.Base.Machine.{uint_sub}
use chameleon_os.Printf.{digit, digits_of, buffer, last_first, printint, is_digit, atoi_from, atoi}

-- No digit comes first.
abbrev pub no_digit : List ℕ → Bool
no_digit [] = true
no_digit (c ∷ s) = if is_digit c then false else true

atoi_from-digit :
    (n d : ℕ) (s : List ℕ)
    → d < 10
    → n * 10 + d < 2 ^ 32
    → atoi_from n (digit d ∷ s) ≡ atoi_from (n * 10 + d) s
unfolding atoi_from
atoi_from-digit n d s lt fit =
    let small : ltb d 10 ≡ true = ground arith in
    let one : is_digit (b'0' + d) ≡ true = ground arith in
    let next : uint_sub (n * 10 % 2 ^ 32 + (b'0' + d)) b'0' ≡ n * 10 + d = omega (arith, lt, fit) in
    rw (atoi_from, small, one, next) refl

atoi_from-digits :
    (x n : ℕ) (s : List ℕ)
    → x < 10 ^ n
    → x < 2 ^ 32
    → atoi_from 0 (last_first (digits_of 10 x n) ++ s) ≡ atoi_from x s
unfolding digits_of
atoi_from-digits x zero s lt fit = ap (λ y. atoi_from y s) (omega (arith, lt))
atoi_from-digits x (suc n) s lt fit =
    let last = digit (x % 10) ∷ s in
    let step : atoi_from (x / 10) last ≡ atoi_from x s =
      atoi_from-digit (x / 10) (x % 10) s (omega arith) (omega (arith, fit))
      ∙ ap (λ y. atoi_from y s) (omega arith) in
    elim (Bool-cases (x / 10 == 0)) [
      | inl q ↦ rw (digits_of, q) (ap (λ y. atoi_from y last) (ground (arith, q)) ∙ step)
      | inr q ↦
          let front = last_first (digits_of 10 (x / 10) n) in
          rw (digits_of, q)
            (ap (atoi_from 0) (append_assoc front (digit (x % 10) ∷ []) s)
              ∙ atoi_from-digits (x / 10) n last (omega (arith, lt)) (omega (arith, fit))
              ∙ step)
    ]

atoi_from-stop : (n : ℕ) (s : List ℕ) → no_digit s ≡ true → atoi_from n s ≡ n
unfolding atoi_from
atoi_from-stop n [] h = refl
atoi_from-stop n (c ∷ s) h = ground (arith, h)

last_first-append : (cs : List ℕ) (c : ℕ) → last_first (cs ++ c ∷ []) ≡ c ∷ last_first cs
last_first-append [] c = refl
last_first-append (b ∷ cs) c = ap (λ r. r ++ b ∷ []) (last_first-append cs c)

-- `atoi` of a number below 2 ^ 31 that `printf` has put by %d, with anything behind it that does not begin
-- with a digit, is the number; of a negative number it is 0, as it stops at the sign.
pub atoi-printint :
    (x : ℕ) (s : List ℕ)
    → x < 2 ^ 32
    → no_digit s ≡ true
    → atoi (printint x 10 true ++ s) ≡ (if leb (2 ^ 31) x then 0 else x)
unfolding atoi printint buffer
atoi-printint x s lt h = elim (Bool-cases (leb (2 ^ 31) x)) [
  | inr q ↦
      rw (printint, buffer, q)
        (atoi_from-digits x 32 s (omega (arith, lt)) lt ∙ atoi_from-stop x s h)
  | inl q ↦
      rw (printint, buffer, q)
        (ap (λ r. atoi_from 0 (r ++ s)) (last_first-append (digits_of 10 (uint_sub 0 x) 32) b'-')
          ∙ atoi_from-stop 0 (b'-' ∷ (last_first (digits_of 10 (uint_sub 0 x) 32) ++ s)) refl)
]
