-- ===== src/Base/Or.antt =====
-- `|` on words of which one is a multiple of the other's range: the bits add up.
use Prim.Native.Nat.{ℕ, zero, suc, ◌+◌, ◌*◌, ◌/◌, ◌%◌, ◌≤◌, max, bit_or, digits, bit_or-bitwise}
use mathlib.Core.Path.{◌≡◌, refl}
use native.Mathlib.Omega.{arith}

-- The digits of `a | b`, lowest first, for which `n` rounds are enough.
abbrev or_rounds : ℕ → ℕ → ℕ → ℕ
or_rounds n a b = digits (λ b. b) max n a b

same_rounds : (n m a b : ℕ) → a ≤ n → a ≤ m → or_rounds n a b ≡ or_rounds m a b
same_rounds zero zero a b p q = refl
same_rounds zero (suc m) zero b p q = refl
same_rounds zero (suc m) (suc a) b p q = absurd (omega arith)
same_rounds (suc n) zero zero b p q = refl
same_rounds (suc n) zero (suc a) b p q = absurd (omega arith)
same_rounds (suc n) (suc m) zero b p q = refl
same_rounds (suc n) (suc m) (suc a) b p q =
    omega (arith, same_rounds n m (suc a / 2) (b / 2) (omega arith) (omega arith))

zero-bit_or : (b : ℕ) → bit_or 0 b ≡ b
zero-bit_or b = bit_or-bitwise 0 b

bit_or-halves : (a b : ℕ) → bit_or a b ≡ bit_or (a / 2) (b / 2) * 2 + max (a % 2) (b % 2)
bit_or-halves zero b = omega (arith, zero-bit_or b, zero-bit_or (b / 2))
bit_or-halves (suc a) b = omega (
  arith,
  bit_or-bitwise (suc a) b,
  bit_or-bitwise (suc a / 2) (b / 2),
  same_rounds a (suc a / 2) (suc a / 2) (b / 2) (omega arith) (omega arith),
)

bit_or-zero_rounds : (n a : ℕ) → a ≤ n → bit_or a 0 ≡ a
bit_or-zero_rounds n zero h = zero-bit_or 0
bit_or-zero_rounds zero (suc a) h = absurd (omega arith)
bit_or-zero_rounds (suc n) (suc a) h =
    omega (arith, bit_or-halves (suc a) 0, bit_or-zero_rounds n (suc a / 2) (omega arith))

bit_or-zero : (a : ℕ) → bit_or a 0 ≡ a
bit_or-zero a = bit_or-zero_rounds a a (omega arith)

pub bit_or-odd : (a : ℕ) → bit_or a 1 % 2 ≡ 1
bit_or-odd a = omega (arith, bit_or-halves a 1)

-- Three flags below a multiple of 8.
pub bit_or-flags : (a : ℕ) → a % 8 ≡ 0 → bit_or (bit_or (bit_or a 1) 2) 4 ≡ a + 7
bit_or-flags a h =
    let one : bit_or a 1 ≡ a + 1 = omega (arith, bit_or-halves a 1, bit_or-zero (a / 2)) in
    let two : bit_or (a + 1) 2 ≡ a + 3 = omega (
      arith,
      bit_or-halves (a + 1) 2,
      bit_or-halves ((a + 1) / 2) 1,
      bit_or-zero ((a + 1) / 2 / 2),
    ) in
    let b = a + 3 in
    let four : bit_or b 4 ≡ a + 7 = omega (
      arith,
      bit_or-halves b 4,
      bit_or-halves (b / 2) 2,
      bit_or-halves (b / 2 / 2) 1,
      bit_or-zero (b / 2 / 2 / 2),
    ) in
    rw (one, two) four

pub bit_or-six : (a : ℕ) → a % 8 ≡ 0 → bit_or (bit_or a 6) 1 ≡ a + 7
bit_or-six a h =
    let six : bit_or a 6 ≡ a + 6 = omega (
      arith,
      bit_or-halves a 6,
      bit_or-halves (a / 2) 3,
      bit_or-halves (a / 2 / 2) 1,
      bit_or-zero (a / 2 / 2 / 2),
    ) in
    let b = a + 6 in rw six (omega (arith, bit_or-halves b 1, bit_or-zero (b / 2)))
