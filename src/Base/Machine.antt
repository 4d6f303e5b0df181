-- ===== src/Base/Machine.antt =====
-- Kernel code that may call `panic`, which freezes the machine (console.c), and 32-bit words.
use Prim.Native.Nat.{ℕ, ◌+◌, ◌-◌, ◌%◌, ◌^◌}
use mathlib.Core.Path.{◌≡◌, refl}
use mathlib.Core.Logic.{◌⊎◌, inl, inr}

-- A run ends with a result or in a panic.
pub data Run {ℓ} (A : Type ℓ) : Type ℓ where
  ok : A → Run A
  panic : Run A

infixl 5 ◌>>=◌ ◌>>◌
abbrev pub ◌>>=◌ {ℓ κ} : {A : Type ℓ} {B : Type κ} → Run A → (A → Run B) → Run B
ok a >>= f = f a
panic >>= f = panic

abbrev pub ◌>>◌ {ℓ κ} : {A : Type ℓ} {B : Type κ} → Run A → Run B → Run B
m >> k = m >>= λ _. k

-- `uint` addition and subtraction wrap.
abbrev pub uint_add : ℕ → ℕ → ℕ
uint_add a b = (a + b) % 2 ^ 32

abbrev pub uint_sub : ℕ → ℕ → ℕ
uint_sub a b = (a + 2 ^ 32 - b) % 2 ^ 32

pub Run-cases {ℓ} : {A : Type ℓ} (m : Run A) → (m ≡ panic) ⊎ ((a : A) × (m ≡ ok a))
Run-cases panic = inl refl
Run-cases (ok a) = inr (a, refl)

pub ok-injective {ℓ} : {A : Type ℓ} {a b : A} → ok a ≡ ok b → a ≡ b
ok-injective h = cc

-- The parts of a run that ended with a result.
pub >>=-eq-ok {ℓ κ} :
    {A : Type ℓ} {B : Type κ} (m : Run A) (f : A → Run B) {b : B}
    → m >>= f ≡ ok b
    → (a : A) × (m ≡ ok a) × (f a ≡ ok b)
>>=-eq-ok (ok a) f h = (a, refl, h)
>>=-eq-ok panic f h = cc
