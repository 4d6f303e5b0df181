-- ===== src/Syscall/Bounds.antt =====
-- What syscall.c lets through lies in the memory of the process.
use chameleon_os.Base.{
  ℕ, zero, suc, ◌+◌, ◌*◌, ◌-◌, ◌%◌, ◌^◌, ◌≤◌, ◌<◌, ◌≡◌, ◌≢◌, ◌⊎◌, refl, sym, ◌∙◌, ap, subst, inl,
  inr, ◌||◌, Option, none, some, arith, ltb, leb, ◌==◌, Bool-cases, some-injective,
}
use chameleon_os.Base.Machine.{uint_add}
use chameleon_os.Kalloc.{kernbase}
use chameleon_os.Syscall.{
  User, ◌>>=◌, load_int, fetchint, string_end, fetchstr, argint, negative_int, argptr, argstr,
}

>>=-eq-some :
    {A B : Type 0} (m : Option A) (f : A → Option B) {b : B}
    → m >>= f ≡ some b
    → (a : A) × (m ≡ some a) × (f a ≡ some b)
>>=-eq-some none f h = cc
>>=-eq-some (some a) f h = (a, refl, h)

string_end-some :
    (p : User) (s n e : ℕ) → string_end p s n ≡ some e → (s ≤ e) × (e < s + n) × (p.mem e ≡ 0)
unfolding string_end
string_end-some p s zero e h = absurd (cc)
string_end-some p s (suc n) e h = elim (Bool-cases (p.mem s == 0)) [
  | inl q ↦
      let here : s ≡ e = some-injective (rw q at h) in
      (omega (arith, here), omega (arith, here), subst (λ a. p.mem a ≡ 0) here (ground (arith, q)))
  | inr q ↦
      let (lo, hi, z) = string_end-some p (s + 1) n e (rw q at h) in
      (omega (arith, lo), omega (arith, hi), z)
]

string_end-before :
    (p : User) (s n e a : ℕ) → string_end p s n ≡ some e → s ≤ a → a < e → p.mem a ≢ 0
unfolding string_end
string_end-before p s zero e a h lo hi = absurd (cc)
string_end-before p s (suc n) e a h lo hi = elim (Bool-cases (p.mem s == 0)) [
  | inl q ↦ let here : s ≡ e = some-injective (rw q at h) in absurd (omega (arith, here, lo, hi))
  | inr q ↦ elim (Bool-cases (s == a)) [
    | inl q' ↦
        let here : s ≡ a = ground (arith, q') in subst (λ b. p.mem b ≢ 0) here (ground (arith, q))
    | inr q' ↦ string_end-before p (s + 1) n e a (rw q at h) (ground (arith, q', lo)) hi
  ]
]

argint-inside :
    (p : User) (n i : ℕ)
    → p.sz ≤ kernbase
    → argint p n ≡ some i
    → (i ≡ load_int p ((p.esp + 4 + 4 * n) % 2 ^ 32)) × ((p.esp + 4 + 4 * n) % 2 ^ 32 + 4 ≤ p.sz)
unfolding argint fetchint
argint-inside p n i hz h =
    let a = (p.esp + 4 + 4 * n) % 2 ^ 32 in
    elim (Bool-cases (leb p.sz a || ltb p.sz (uint_add a 4))) [
      | inl q ↦ absurd (cc (rw (argint, fetchint, q) at h))
      | inr q ↦ (some-injective (sym (rw (argint, fetchint, q) at h)), ground (arith, q))
    ]

fetchstr-inside :
    (p : User) (addr ptr len : ℕ)
    → fetchstr p addr ≡ some (ptr, len)
    → (ptr ≡ addr) × (addr < p.sz) × (string_end p addr (p.sz - addr) ≡ some (addr + len))
unfolding fetchstr
fetchstr-inside p addr ptr len h = elim (Bool-cases (leb p.sz addr)) [
  | inl q ↦ absurd (cc (rw (fetchstr, q) at h))
  | inr q ↦
      let (e, found, r) = >>=-eq-some (string_end p addr (p.sz - addr)) _ (rw (fetchstr, q) at h) in
      let both = some-injective r in
      let lo = (string_end-some p addr _ e found).0 in
      let at : e ≡ addr + len = omega (arith, ap (λ (r : ℕ × ℕ). r.1) both, lo) in
      (sym (ap (λ (r : ℕ × ℕ). r.0) both), ground (arith, q), found ∙ ap some at)
]

-- In a process with at most KERNBASE bytes of memory: when `argptr` accepts argument `n` as a pointer
-- to `size` bytes, none of them included, `size` is not negative as an `int`, the result is the argument,
-- which lies in the memory of the process, as do the `size` bytes from there on, and the word that was
-- fetched from the stack lies there too.
pub argptr_inside :
    (p : User) (n size ptr : ℕ)
    → p.sz ≤ kernbase
    → argptr p n size ≡ some ptr
    → (size < 2 ^ 31)
      × (ptr ≡ load_int p ((p.esp + 4 + 4 * n) % 2 ^ 32))
      × ((p.esp + 4 + 4 * n) % 2 ^ 32 + 4 ≤ p.sz)
      × (ptr < p.sz)
      × (ptr + size ≤ p.sz)
unfolding argptr
argptr_inside p n size ptr hz h =
    let (i, first, r) = >>=-eq-some (argint p n) _ h in
    let (arg, stack) = argint-inside p n i hz first in
    elim (Bool-cases (negative_int size || leb p.sz i || ltb p.sz (uint_add i size))) [
      | inl q ↦ absurd (cc (rw q at r))
      | inr q ↦
          let same : i ≡ ptr = some-injective (rw q at r) in
          (
            ground (arith, q),
            sym same ∙ arg,
            stack,
            ground (arith, q, same),
            ground (arith, q, same, hz),
          )
    ]

-- In a process with at most KERNBASE bytes of memory: when `argstr` accepts argument `n` as a string, be
-- it empty or not, it returns the argument and a length; the word that was fetched from the stack and
-- the string with its zero byte lie in the memory of the process, the byte behind `len` bytes is zero,
-- and any byte `k` is not zero or not one of the `len` bytes.
pub argstr_inside :
    (p : User) (n ptr len k : ℕ)
    → p.sz ≤ kernbase
    → argstr p n ≡ some (ptr, len)
    → (ptr ≡ load_int p ((p.esp + 4 + 4 * n) % 2 ^ 32))
      × ((p.esp + 4 + 4 * n) % 2 ^ 32 + 4 ≤ p.sz)
      × (ptr + len < p.sz)
      × (p.mem (ptr + len) ≡ 0)
      × (len ≤ k ⊎ (p.mem (ptr + k) ≢ 0))
unfolding argstr
argstr_inside p n ptr len k hz h =
    let (addr, first, r) = >>=-eq-some (argint p n) _ h in
    let (arg, stack) = argint-inside p n addr hz first in
    let (same, below, found) = fetchstr-inside p addr ptr len r in
    let (lo, hi, z) = string_end-some p addr _ _ found in
    (
      same ∙ arg,
      stack,
      omega (arith, same, hi, below),
      ap (λ a. p.mem (a + len)) same ∙ z,
      elim (Bool-cases (ltb k len)) [
        | inr q ↦ inl (ground (arith, q))
        | inl q ↦
            let lt : k < len = ground (arith, q) in
            inr (
              string_end-before p addr _ _ (ptr + k) found (omega (arith, same))
                (omega (arith, same, lt)))
      ],
    )
