-- ===== src/Console.antt =====
-- console.c: the input buffer, which `consoleintr` fills with lines and `consoleread` empties.
pub mod Ring
pub mod Screen
pub mod Lines
pub mod Read
mod Examples
use chameleon_os.Base.{
  ℕ, zero, suc, ◌+◌, ◌-◌, ◌%◌, ◌^◌, Bool, true, false, not, ◌&&◌, ◌||◌, List, [], ◌∷◌, ◌++◌, ltb,
  ◌==◌, if◌then◌else◌, update, drop, length, reverse,
}
use chameleon_os.Base.Machine.{uint_add, uint_sub}

abbrev pub input_buf : ℕ
input_buf = 128

-- A byte of `buf` is its 8-bit pattern; `r`, `w` and `e` wrap.
pub record Input : Type 0 where
  pub buf : ℕ → ℕ
  pub r : ℕ
  pub w : ℕ
  pub e : ℕ

-- `C(x)`
abbrev pub control : ℕ → ℕ
control x = x - b'@'

-- A call of `consputc`, where BACKSPACE is 256, or `wakeup(&input.r)`.
pub data Effect : Type 0 where
  consputc : ℕ → Effect
  wakeup : Effect

abbrev pub backspace : ℕ
backspace = 2 ^ 8

-- The loop for ^U, with at most `n` rounds: the new `e`.
pub kill_line : Input → ℕ → Input × List Effect
kill_line i zero = (i, [])
kill_line i (suc n) =
    let (i', fx) = kill_line (record i { e = uint_sub i.e 1 }) n in
    if (i.e == i.w) || (i.buf (uint_sub i.e 1 % input_buf) == 10)
    then (i, [])
    else (i', consputc backspace ∷ fx)

-- The last case: a character that is stored.
pub store_char : Input → ℕ → Input × List Effect
store_char i c =
    let i1 = record i { buf = update i.buf (i.e % input_buf) (c % 2 ^ 8); e = uint_add i.e 1 } in
    if ((c == 10) || (c == control b'D')) || (i1.e == uint_add i1.r input_buf)
    then (record i1 { w = i1.e }, consputc c ∷ wakeup ∷ [])
    else (i1, consputc c ∷ [])

-- The `switch` of `consoleintr` but for ^P, on one character.
pub intr_char : Input → ℕ → Input × List Effect
intr_char i c =
    if c == control b'P'
    then (i, [])
    else if c == control b'U'
    then kill_line i (uint_sub i.e i.w)
    else if (c == control b'H') || (c == 127)
    then (if i.e == i.w
        then (i, [])
        else (record i { e = uint_sub i.e 1 }, consputc backspace ∷ []))
    else if not (c == 0) && ltb (uint_sub i.e i.r) input_buf
    then store_char i (if c == 13 then 10 else c)
    else (i, [])

-- The characters that `getc` gives; the flag says that `procdump` is called at the end.
pub consoleintr : Input → List ℕ → Input × List Effect × Bool
consoleintr i [] = (i, [], false)
consoleintr i (c ∷ cs) =
    let (i1, fx) = intr_char i c in
    let (i2, fxs, dump) = consoleintr i1 cs in (i2, fx ++ fxs, (c == control b'P') || dump)

-- How a stretch of `consoleread` ends: with the bytes that it returns, with -1, or asleep on `input.r`
-- with `n` bytes still wanted.
pub data Leg : Type 0 where
  returned : Input → List ℕ → Leg
  interrupted : Input → Leg
  sleeping : Input → ℕ → List ℕ → Leg

-- The loop of `consoleread`, with `n` of `target` bytes wanted and `got` copied.
pub read_line : Input → Bool → ℕ → List ℕ → ℕ → Leg
read_line i killed target got zero = returned i got
read_line i killed target got (suc n) =
    let c = i.buf (i.r % input_buf) in
    let i1 = record i { r = uint_add i.r 1 } in
    let rest = read_line i1 killed target (got ++ c ∷ []) n in
    if i.r == i.w
    then (if killed then interrupted i else sleeping i (suc n) got)
    else if c == control b'D'
    then (if ltb (suc n) target then returned i got else returned i1 got)
    else if c == 10
    then returned i1 (got ++ c ∷ [])
    else rest

abbrev pub consoleread : Input → Bool → ℕ → Leg
consoleread i killed n = read_line i killed n [] n
