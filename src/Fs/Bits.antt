-- ===== src/Fs/Bits.antt =====
-- Bits of a byte and bytes of a block, as fs.c reads and writes them through pointers. The machine
-- is little-endian.
use chameleon_os.Base.{
  ℕ, zero, suc, ◌+◌, ◌-◌, ◌*◌, ◌/◌, ◌%◌, ◌<◌, ◌≤◌, ◌≡◌, Bool, true, false, arith, ◌==◌,
  if◌then◌else◌, update, Bool-cases, inl, inr, List, [], ◌∷◌, ◌∙◌, ◌&&◌, leb, ltb, length, get_or,
  All,
}
use chameleon_os.Store.{Block}

-- `x & (1 << k)` is not zero.
unfoldable pub bit : ℕ → ℕ → Bool
bit x zero = x % 2 == 1
bit x (suc k) = bit (x / 2) k

-- `x | (1 << k)`
unfoldable pub set_bit : ℕ → ℕ → ℕ
set_bit x zero = x / 2 * 2 + 1
set_bit x (suc k) = x % 2 + set_bit (x / 2) k * 2

-- `x & ~(1 << k)`
unfoldable pub clear_bit : ℕ → ℕ → ℕ
clear_bit x zero = x / 2 * 2
clear_bit x (suc k) = x % 2 + clear_bit (x / 2) k * 2

pub bit-set_bit : (x k j : ℕ) → bit (set_bit x k) j ≡ (if k == j then true else bit x j)
unfolding bit set_bit
bit-set_bit x zero zero = ground arith
bit-set_bit x zero (suc j) =
    let e : (x / 2 * 2 + 1) / 2 ≡ x / 2 = omega arith in rw e (ground arith)
bit-set_bit x (suc k) zero = ground arith
bit-set_bit x (suc k) (suc j) =
    let e : (x % 2 + set_bit (x / 2) k * 2) / 2 ≡ set_bit (x / 2) k = omega arith in
    rw e (ground (arith, bit-set_bit (x / 2) k j))

pub bit-clear_bit : (x k j : ℕ) → bit (clear_bit x k) j ≡ (if k == j then false else bit x j)
unfolding bit clear_bit
bit-clear_bit x zero zero = ground arith
bit-clear_bit x zero (suc j) = let e : x / 2 * 2 / 2 ≡ x / 2 = omega arith in rw e (ground arith)
bit-clear_bit x (suc k) zero = ground arith
bit-clear_bit x (suc k) (suc j) =
    let e : (x % 2 + clear_bit (x / 2) k * 2) / 2 ≡ clear_bit (x / 2) k = omega arith in
    rw e (ground (arith, bit-clear_bit (x / 2) k j))

-- Byte `k` of a word.
unfoldable pub byte : ℕ → ℕ → ℕ
byte w zero = w % 256
byte w (suc k) = byte (w / 256) k

unfoldable pub put_byte : ℕ → ℕ → ℕ → ℕ
put_byte w zero v = w / 256 * 256 + v
put_byte w (suc k) v = w % 256 + put_byte (w / 256) k v * 256

pub byte-put_byte :
    (w k j v : ℕ) → v < 256 → byte (put_byte w k v) j ≡ (if k == j then v else byte w j)
unfolding byte put_byte
byte-put_byte w zero zero v h = ground arith
byte-put_byte w zero (suc j) v h =
    let e : (w / 256 * 256 + v) / 256 ≡ w / 256 = omega arith in rw e (ground arith)
byte-put_byte w (suc k) zero v h = ground arith
byte-put_byte w (suc k) (suc j) v h =
    let e : (w % 256 + put_byte (w / 256) k v * 256) / 256 ≡ put_byte (w / 256) k v = omega arith in
    rw e (ground (arith, byte-put_byte (w / 256) k j v))

-- Byte `i` of a block: `data[i]`.
unfoldable pub get_byte : Block → ℕ → ℕ
get_byte b i = byte (b (i / 4)) (i % 4)

unfoldable pub set_byte : Block → ℕ → ℕ → Block
set_byte b i v = update b (i / 4) (put_byte (b (i / 4)) (i % 4) v)

pub get_byte-set_byte :
    (b : Block) (i j v : ℕ)
    → v < 256
    → get_byte (set_byte b i v) j ≡ (if i == j then v else get_byte b j)
unfolding get_byte set_byte
get_byte-set_byte b i j v h = elim (Bool-cases (i / 4 == j / 4)) [
  | inl q ↦ ground (arith, q, byte-put_byte (b (i / 4)) (i % 4) (j % 4) v h)
  | inr n ↦ ground (arith, n)
]

-- `memmove` between a block and other memory: bytes `i` to `i + n`.
unfoldable pub get_bytes : Block → ℕ → ℕ → List ℕ
get_bytes b i zero = []
get_bytes b i (suc n) = get_byte b i ∷ get_bytes b (i + 1) n

unfoldable pub set_bytes : Block → ℕ → List ℕ → Block
set_bytes b i [] = b
set_bytes b i (v ∷ vs) = set_bytes (set_byte b i v) (i + 1) vs

pow2 : ℕ → ℕ
pow2 zero = 1
pow2 (suc m) = pow2 m * 2

set_bit-lt : (m x k : ℕ) → x < pow2 m → k < m → set_bit x k < pow2 m
unfolding set_bit pow2
set_bit-lt zero x k h lt = absurd (omega arith)
set_bit-lt (suc m) x zero h lt = omega arith
set_bit-lt (suc m) x (suc k) h lt =
    omega (arith, set_bit-lt m (x / 2) k (omega arith) (omega arith))

clear_bit-le : (x k : ℕ) → clear_bit x k ≤ x
unfolding clear_bit
clear_bit-le x zero = omega arith
clear_bit-le x (suc k) = omega (arith, clear_bit-le (x / 2) k)

byte-lt : (w k : ℕ) → byte w k < 256
unfolding byte
byte-lt w zero = omega arith
byte-lt w (suc k) = byte-lt (w / 256) k

-- A bitmap over a block: bit `i` stands in byte `i / 8`.
abbrev pub get_bit : Block → ℕ → Bool
get_bit b i = bit (get_byte b (i / 8)) (i % 8)

pub get_bit-set :
    (b : Block) (i j : ℕ)
    → get_bit (set_byte b (i / 8) (set_bit (get_byte b (i / 8)) (i % 8))) j
      ≡ (if i == j then true else get_bit b j)
unfolding get_byte pow2
get_bit-set b i j =
    let x = get_byte b (i / 8) in
    let small : set_bit x (i % 8) < 256 = set_bit-lt 8 x (i % 8) (byte-lt _ _) (omega arith) in
    rw (get_byte-set_byte b (i / 8) (j / 8) (set_bit x (i % 8)) small)
      (elim (Bool-cases (i / 8 == j / 8)) [
        | inl q ↦ rw q (ground (arith, q, bit-set_bit x (i % 8) (j % 8)))
        | inr n ↦ ground (arith, n)
      ])

pub get_bit-clear :
    (b : Block) (i j : ℕ)
    → get_bit (set_byte b (i / 8) (clear_bit (get_byte b (i / 8)) (i % 8))) j
      ≡ (if i == j then false else get_bit b j)
unfolding get_byte
get_bit-clear b i j =
    let x = get_byte b (i / 8) in
    let small : clear_bit x (i % 8) < 256 =
      omega (arith, clear_bit-le x (i % 8), byte-lt (b (i / 8 / 4)) (i / 8 % 4)) in
    rw (get_byte-set_byte b (i / 8) (j / 8) (clear_bit x (i % 8)) small)
      (elim (Bool-cases (i / 8 == j / 8)) [
        | inl q ↦ rw q (ground (arith, q, bit-clear_bit x (i % 8) (j % 8)))
        | inr n ↦ ground (arith, n)
      ])

-- Reads after a write of several bytes.
pub get_byte-set_bytes :
    (b : Block) (i j : ℕ) (vs : List ℕ)
    → All (λ v. v < 256) vs
    → get_byte (set_bytes b i vs) j
      ≡ (if leb i j && ltb j (i + length vs) then get_or vs (j - i) 0 else get_byte b j)
unfolding set_bytes
get_byte-set_bytes b i j [] a = ground arith
get_byte-set_bytes b i j (v ∷ vs) (h, a) =
    get_byte-set_bytes (set_byte b i v) (i + 1) j vs a ∙ elim (Bool-cases (i == j)) [
      | inl q ↦ ground (arith, q, get_byte-set_byte b i j v h)
      | inr q ↦ elim (Bool-cases (leb (i + 1) j)) [
        | inl k ↦
            let e : j - i ≡ suc (j - (i + 1)) = ground (arith, k) in
            rw e (ground (arith, q, k, get_byte-set_byte b i j v h))
        | inr k ↦ ground (arith, q, k, get_byte-set_byte b i j v h)
      ]
    ]
