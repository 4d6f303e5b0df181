-- ===== src/Strings/Move.antt =====
-- `memmove`, `memset` and the string copies of string.c: what every byte is afterwards.
use chameleon_os.Base.{
  ℕ, zero, suc, ◌+◌, ◌-◌, ◌%◌, ◌≤◌, ◌<◌, ◌≡◌, ◌⊎◌, Bool, ◌&&◌, arith, ltb, leb, if◌then◌else◌,
  update,
}
use chameleon_os.Strings.{Mem, fill, memset, copy_up, copy_down, memmove}

-- The address is one of `n` from `d` on.
abbrev pub within : ℕ → ℕ → ℕ → Bool
within d n x = leb d x && ltb x (d + n)

copy_up_lem :
    (m : Mem) (d s n x : ℕ)
    → (d ≤ s) ⊎ (s + n ≤ d)
    → copy_up m d s n x ≡ (if within d n x then m (s + (x - d)) else m x)
unfolding copy_up
copy_up_lem m d s zero x h = ground arith
copy_up_lem m d s (suc n) x h =
    let m' : Mem = update m d (m s) in
    let e : d < x → s + 1 + (x - (d + 1)) ≡ s + (x - d) = λ lt. omega arith in
    let z : x ≡ d → s + (x - d) ≡ s = λ q. omega arith in
    ground (arith, copy_up_lem m' (d + 1) (s + 1) n x (omega arith), e, z)

copy_down_lem :
    (m : Mem) (d s n x : ℕ)
    → s ≤ d
    → copy_down m d s n x ≡ (if within d n x then m (s + (x - d)) else m x)
unfolding copy_down
copy_down_lem m d s zero x h = ground arith
copy_down_lem m d s (suc n) x h =
    let m' : Mem = update m (d + n) (m (s + n)) in
    let z : x ≡ d + n → s + (x - d) ≡ s + n = λ q. omega arith in
    ground (arith, copy_down_lem m' d s n x h, z)

-- After `memmove` each of the `n` bytes at `dst` is what the byte at its place from `src` was
-- before, and every other byte is as it was, however the two ranges overlap.
pub memmove_lem :
    (m : Mem) (dst src n x : ℕ)
    → memmove m dst src n x ≡ (if within dst n x then m (src + (x - dst)) else m x)
unfolding memmove
memmove_lem m dst src n x = ground (arith, copy_up_lem m dst src n x, copy_down_lem m dst src n x)

fill_lem : (m : Mem) (d c n x : ℕ) → fill m d c n x ≡ (if within d n x then c else m x)
unfolding fill
fill_lem m d c zero x = ground arith
fill_lem m d c (suc n) x = ground (arith, fill_lem (update m d c) (d + 1) c n x)

-- After `memset` each of the `n` bytes at `dst` is the low byte of `c`, and every other byte is as it
-- was.
pub memset_lem :
    (m : Mem) (dst c n x : ℕ) → memset m dst c n x ≡ (if within dst n x then c % 256 else m x)
unfolding memset
memset_lem m dst c n x = fill_lem m dst (c % 256) n x
