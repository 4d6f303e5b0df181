-- ===== src/Strings.antt =====
-- string.c: routines over memory, a byte for each address. Addresses are numbers; a caller's object
-- does not run past the end of the address space, so no pointer wraps.
pub mod Move
pub mod Compare
pub mod Bytes
use chameleon_os.Base.{
  ℕ, zero, suc, ◌+◌, ◌-◌, ◌%◌, Bool, true, false, ◌&&◌, not, ◌==◌, ltb, if◌then◌else◌, update,
}

abbrev pub Mem : Type 0
Mem = ℕ → ℕ

-- `stosb`, and what `stosl` writes when all four bytes of the word are the same.
pub fill : Mem → ℕ → ℕ → ℕ → Mem
fill m d c zero = m
fill m d c (suc n) = fill (update m d c) (d + 1) c n

-- Both branches write the low byte of `c` to the `n` bytes from `dst` on.
pub memset : Mem → ℕ → ℕ → ℕ → Mem
memset m dst c n = fill m dst (c % 256) n

-- `*d++ = *s++`, `n` times.
pub copy_up : Mem → ℕ → ℕ → ℕ → Mem
copy_up m d s zero = m
copy_up m d s (suc n) = copy_up (update m d (m s)) (d + 1) (s + 1) n

-- `*--d = *--s`, `n` times, from the ends.
pub copy_down : Mem → ℕ → ℕ → ℕ → Mem
copy_down m d s zero = m
copy_down m d s (suc n) = copy_down (update m (d + n) (m (s + n))) d s n

pub memmove : Mem → ℕ → ℕ → ℕ → Mem
memmove m dst src n =
    if ltb src dst && ltb dst (src + n) then copy_down m dst src n else copy_up m dst src n

-- The difference of two bytes, as the `int` that a comparison returns.
pub data Difference : Type 0 where
  minus : ℕ → ℕ → Difference

abbrev pub is_zero : Difference → Bool
is_zero (minus a b) = a == b

pub memcmp : Mem → ℕ → ℕ → ℕ → Difference
memcmp m s1 s2 zero = minus 0 0
memcmp m s1 s2 (suc n) =
    let rest = memcmp m (s1 + 1) (s2 + 1) n in if m s1 == m s2 then rest else minus (m s1) (m s2)

pub strncmp : Mem → ℕ → ℕ → ℕ → Difference
strncmp m p q zero = minus 0 0
strncmp m p q (suc n) =
    let rest = strncmp m (p + 1) (q + 1) n in
    if not (m p == 0) && (m p == m q) then rest else minus (m p) (m q)

-- The first loop copies up to and with the zero byte; the second fills what is left with zeros.
pub strncpy : Mem → ℕ → ℕ → ℕ → Mem
unfolding fill
strncpy m s t zero = m
strncpy m s t (suc n) =
    let m' = update m s (m t) in
    let rest = strncpy m' (s + 1) (t + 1) n in if m t == 0 then fill m' (s + 1) 0 n else rest

-- `while(--n > 0 && (*s++ = *t++) != 0); *s = 0;` for a positive `n`, which is `suc` of the
-- argument: a zero byte is copied and then another is written behind it.
pub copy_string : Mem → ℕ → ℕ → ℕ → Mem
copy_string m s t zero = update m s 0
copy_string m s t (suc n) =
    let m' = update m s (m t) in
    let rest = copy_string m' (s + 1) (t + 1) n in if m t == 0 then update m' (s + 1) 0 else rest

pub safestrcpy : Mem → ℕ → ℕ → ℕ → Mem
unfolding copy_string
safestrcpy m s t zero = m
safestrcpy m s t (suc n) = copy_string m s t n
