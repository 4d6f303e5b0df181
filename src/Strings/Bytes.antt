-- ===== src/Strings/Bytes.antt =====
-- Blocks of bytes in memory: `memcmp` and `strncpy` of string.c.
use chameleon_os.Base.{
  ap, ap₂, false, ◌∙◌, ℕ, zero, suc, ◌+◌, ◌-◌, ◌≤◌, ◌<◌, ◌≡◌, ◌↔◌, refl, ◌⊎◌, inl, inr, true, arith,
  ◌==◌, update, List, [], ◌∷◌, ◌++◌, length, replicate, Bool-cases,
}
use chameleon_os.Strings.{Mem, fill, is_zero, memcmp, strncpy}
use chameleon_os.Strings.Compare.{cstr, cstr-same}

-- The `n` bytes at `p`.
abbrev pub bytes : Mem → ℕ → ℕ → List ℕ
bytes m p zero = []
bytes m p (suc n) = m p ∷ bytes m (p + 1) n

-- `memcmp` returns 0 exactly when the two blocks have the same bytes.
pub memcmp_zero :
    (m : Mem) (p q n : ℕ) → (is_zero (memcmp m p q n) ≡ true) ↔ (bytes m p n ≡ bytes m q n)
unfolding memcmp
memcmp_zero m p q zero = (λ h. refl, λ h. refl)
memcmp_zero m p q (suc n) =
    let ih = memcmp_zero m (p + 1) (q + 1) n in
    (λ h. ground (arith, ih.0), λ h. ground (arith, ih.1))

fill-below : (m : Mem) (d c n x : ℕ) → x < d → fill m d c n x ≡ m x
unfolding fill
fill-below m d c zero x h = refl
fill-below m d c (suc n) x h = ground (arith, fill-below (update m d c) (d + 1) c n x)

bytes-fill : (m : Mem) (d c n : ℕ) → bytes (fill m d c n) d n ≡ replicate n c
unfolding fill
bytes-fill m d c zero = refl
bytes-fill m d c (suc n) =
    ground (arith, fill-below (update m d c) (d + 1) c n d, bytes-fill (update m d c) (d + 1) c n)

strncpy-below : (m : Mem) (s t n x : ℕ) → x < s → strncpy m s t n x ≡ m x
unfolding strncpy
strncpy-below m s t zero x h = refl
strncpy-below m s t (suc n) x h =
    let m' : Mem = update m s (m t) in
    ground (arith, strncpy-below m' (s + 1) (t + 1) n x, fill-below m' (s + 1) 0 n x)

strncpy_stop :
    (m : Mem) (s t n : ℕ)
    → (m t == 0) ≡ true
    → strncpy m s t (suc n) ≡ fill (update m s (m t)) (s + 1) 0 n
unfolding strncpy
strncpy_stop m s t n z = rw z refl

strncpy_go :
    (m : Mem) (s t n : ℕ)
    → (m t == 0) ≡ false
    → strncpy m s t (suc n) ≡ strncpy (update m s (m t)) (s + 1) (t + 1) n
unfolding strncpy
strncpy_go m s t n z = rw z refl

-- `strncpy` between ranges of `n` bytes that do not overlap leaves at `s` the string at `t`, cut to
-- `n` bytes, and zero bytes behind it up to the `n`.
pub strncpy_lem :
    (m : Mem) (s t n : ℕ)
    → (t + n ≤ s) ⊎ (s + n ≤ t)
    → bytes (strncpy m s t n) s n ≡ cstr m t n ++ replicate (n - length (cstr m t n)) 0
unfolding strncpy
strncpy_lem m s t zero h = refl
strncpy_lem m s t (suc n) h =
    let m' : Mem = update m s (m t) in
    elim (Bool-cases (m t == 0)) [
      | inl z ↦
          let whole : suc n - 0 ≡ suc n = omega arith in
          let zeros : bytes (fill m' (s + 1) 0 n) s (suc n) ≡ 0 ∷ replicate n 0 =
            ground (arith, z, fill-below m' (s + 1) 0 n s, bytes-fill m' (s + 1) 0 n) in
          ap (λ x. bytes x s (suc n)) (strncpy_stop m s t n z) ∙ zeros ∙ rw (z, whole) refl
      | inr z ↦
          let same = cstr-same m m' (t + 1) n (λ x a b. ground arith) in
          let e : suc n - suc (length (cstr m (t + 1) n)) ≡ n - length (cstr m (t + 1) n) =
            omega arith in
          let tail = strncpy_lem m' (s + 1) (t + 1) n (omega (arith, h)) in
          let first : strncpy m' (s + 1) (t + 1) n s ≡ m t =
            ground (arith, strncpy-below m' (s + 1) (t + 1) n s) in
          ap (λ x. bytes x s (suc n)) (strncpy_go m s t n z)
          ∙ ap₂ (λ x xs. x ∷ xs) first (rw same at tail)
          ∙ rw (z, e) refl
    ]
