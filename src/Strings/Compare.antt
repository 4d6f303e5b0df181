-- ===== src/Strings/Compare.antt =====
-- Zero-terminated strings in memory: `strncmp` and `safestrcpy` of string.c.
use chameleon_os.Base.{
  ℕ, zero, suc, ◌+◌, ◌-◌, ◌≤◌, ◌<◌, ◌≡◌, ◌↔◌, refl, ◌⊎◌, true, arith, ◌==◌, if◌then◌else◌, update,
  List, [], ◌∷◌, length,
}
use chameleon_os.Strings.{Mem, is_zero, strncmp, copy_string, safestrcpy}

-- The bytes of the string at `p`: up to its zero byte, and `n` at most.
abbrev pub cstr : Mem → ℕ → ℕ → List ℕ
cstr m p zero = []
cstr m p (suc n) = if m p == 0 then [] else m p ∷ cstr m (p + 1) n

-- `strncmp` returns 0 exactly when the two strings agree up to their zero bytes or in their first
-- `n` bytes.
pub strncmp_zero :
    (m : Mem) (p q n : ℕ) → (is_zero (strncmp m p q n) ≡ true) ↔ (cstr m p n ≡ cstr m q n)
unfolding strncmp
strncmp_zero m p q zero = (λ h. refl, λ h. refl)
strncmp_zero m p q (suc n) =
    let ih = strncmp_zero m (p + 1) (q + 1) n in
    (λ h. ground (arith, ih.0), λ h. ground (arith, ih.1))

copy_string-below : (m : Mem) (s t n x : ℕ) → x < s → copy_string m s t n x ≡ m x
unfolding copy_string
copy_string-below m s t zero x h = ground arith
copy_string-below m s t (suc n) x h =
    ground (arith, copy_string-below (update m s (m t)) (s + 1) (t + 1) n x)

pub cstr-same :
    (m m' : Mem) (p n : ℕ) → ((x : ℕ) → p ≤ x → x < p + n → m' x ≡ m x) → cstr m' p n ≡ cstr m p n
cstr-same m m' p zero h = refl
cstr-same m m' p (suc n) h =
    ground (arith, h p, cstr-same m m' (p + 1) n (λ x a b. h x (omega arith) (omega arith)))

copy_string_lem :
    (m : Mem) (s t n : ℕ)
    → (t + n ≤ s) ⊎ (s + n < t)
    → cstr (copy_string m s t n) s (suc n) ≡ cstr m t n
unfolding copy_string
copy_string_lem m s t zero h = ground arith
copy_string_lem m s t (suc n) h =
    let m' : Mem = update m s (m t) in
    ground (
      arith,
      copy_string-below m' (s + 1) (t + 1) n s,
      copy_string_lem m' (s + 1) (t + 1) n (omega arith),
      cstr-same m m' (t + 1) n (λ x a b. ground arith),
    )

pub length-cstr : (m : Mem) (p n : ℕ) → length (cstr m p n) ≤ n
length-cstr m p zero = omega arith
length-cstr m p (suc n) = ground (arith, length-cstr m (p + 1) n)

-- With room for `n` bytes, at least one, and no overlap, `safestrcpy` leaves at `s` the first
-- `n` - 1 bytes of the string at `t`, or all of it if it is shorter, and a zero byte behind them
-- within the `n` bytes.
pub safestrcpy_lem :
    (m : Mem) (s t n : ℕ)
    → 0 < n
    → (t + n ≤ s) ⊎ (s + n ≤ t)
    → let m' = safestrcpy m s t n in (cstr m' s n ≡ cstr m t (n - 1)) × (length (cstr m' s n) < n)
unfolding safestrcpy
safestrcpy_lem m s t zero h apart = absurd (omega arith)
safestrcpy_lem m s t (suc n) h apart =
    let e : suc n - 1 ≡ n = omega arith in
    rw (e, copy_string_lem m s t n (omega arith)) (refl, omega (arith, length-cstr m t n))
