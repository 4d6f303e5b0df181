-- ===== src/Printf.antt =====
-- `printint` and `printf` of printf.c, and `atoi` of ulib.c. What is put on the descriptor is the list of
-- its bytes; an `int` is its 32-bit pattern.
pub mod Trip
pub mod Buffer
mod Examples
use chameleon_os.Base.{
  ℕ, zero, suc, ◌+◌, ◌-◌, ◌*◌, ◌/◌, ◌%◌, ◌^◌, Bool, true, false, ◌&&◌, ◌||◌, Option, none, some,
  List, [], ◌∷◌, ◌++◌, ◌==◌, leb, ltb, if◌then◌else◌,
}
use chameleon_os.Base.Machine.{uint_sub, uint_add}

-- `digits[d]`
abbrev pub digit : ℕ → ℕ
digit d = if ltb d 10 then b'0' + d else b'A' + (d - 10)

-- The `do` loop of `printint`: the bytes that it puts into `buf`, with `n` rounds left.
pub digits_of : ℕ → ℕ → ℕ → List ℕ
digits_of base x zero = []
digits_of base x (suc n) =
    let rest = digits_of base (x / base) n in
    digit (x % base) ∷ (if x / base == 0 then [] else rest)

abbrev pub is_negative : ℕ → Bool → Bool
is_negative xx sgn = sgn && leb (2 ^ 31) xx

-- What `buf` has when the bytes are put. A `uint` has at most 32 digits in any base.
pub buffer : ℕ → ℕ → Bool → List ℕ
buffer xx base sgn =
    if is_negative xx sgn
    then digits_of base (uint_sub 0 xx) 32 ++ b'-' ∷ []
    else digits_of base xx 32

-- `while(--i >= 0)`
abbrev pub last_first : List ℕ → List ℕ
last_first [] = []
last_first (c ∷ cs) = last_first cs ++ c ∷ []

pub printint : ℕ → ℕ → Bool → List ℕ
printint xx base sgn = last_first (buffer xx base sgn)

-- "(null)"
abbrev pub null_text : List ℕ
null_text = b'(' ∷ b'n' ∷ b'u' ∷ b'l' ∷ b'l' ∷ b')' ∷ []

-- One conversion, `c` behind the `%`: what is put, and whether an argument is taken. `text` has the
-- bytes before the zero byte at an address.
pub conversion : (ℕ → List ℕ) → ℕ → ℕ → List ℕ × Bool
conversion text c arg =
    if c == b'd'
    then (printint arg 10 true, true)
    else if (c == b'x') || (c == b'p')
    then (printint arg 16 false, true)
    else if c == b's'
    then (if arg == 0 then null_text else text arg, true)
    else if c == b'c'
    then (arg % 256 ∷ [], true)
    else if c == b'%'
    then (c ∷ [], false)
    else (b'%' ∷ c ∷ [], false)

-- The loop of `printf`: `percent` is the state, `ap` counts the arguments that are taken, and
-- `args` has the words behind `fmt`.
pub printf_from : (ℕ → List ℕ) → (ℕ → ℕ) → List ℕ → Bool → ℕ → List ℕ
printf_from text args [] percent ap = []
printf_from text args (c ∷ fmt) true ap =
    let (put, taken) = conversion text c (args ap) in
    put ++ printf_from text args fmt false (if taken then ap + 1 else ap)
printf_from text args (c ∷ fmt) false ap = elim (c == b'%') [
  | true ↦ printf_from text args fmt true ap
  | false ↦ c ∷ printf_from text args fmt false ap
]

-- `fmt` has the bytes before the zero byte.
pub printf : (ℕ → List ℕ) → (ℕ → ℕ) → List ℕ → List ℕ
printf text args fmt = printf_from text args fmt false 0

abbrev pub is_digit : ℕ → Bool
is_digit c = leb b'0' c && leb c b'9'

-- The loop of `atoi` at the bytes that are left before the zero byte.
pub atoi_from : ℕ → List ℕ → ℕ
atoi_from n [] = n
atoi_from n (c ∷ s) =
    let rest = atoi_from (uint_sub (n * 10 % 2 ^ 32 + c) b'0') s in if is_digit c then rest else n

pub atoi : List ℕ → ℕ
atoi s = atoi_from 0 s
