-- ===== src/Console/Read.antt =====
-- What `consoleread` of console.c takes from the lines that are ready.
use chameleon_os.Base.{
  ℕ, zero, suc, ◌%◌, ◌^◌, ◌<◌, ◌≡◌, refl, ap, inl, inr, Bool, true, false, List, [], ◌∷◌, ◌++◌,
  arith, ltb, ◌==◌, if◌then◌else◌, Bool-cases,
}
use chameleon_os.Base.Machine.{uint_add, uint_sub}
use chameleon_os.Console.{
  Input, input_buf, control, Leg, returned, interrupted, sleeping, read_line, consoleread,
}
use chameleon_os.Console.Ring.{ahead}
use chameleon_os.Console.Screen.{HasOrder, screen}

-- What a stretch of `consoleread` leaves ready, and what it gives, -1, or how many bytes it waits for.
pub data Read : Type 0 where
  gives : List ℕ → List ℕ → Read
  stopped : List ℕ → Read
  waits : List ℕ → ℕ → List ℕ → Read

abbrev pub seen : Leg → Read
seen (returned i got) = gives (screen i).0 got
seen (interrupted i) = stopped (screen i).0
seen (sleeping i n got) = waits (screen i).0 n got

-- Up to `n` bytes of what is ready, to the end of a line: a newline is taken with the line; ^D ends it,
-- and stays where bytes were taken before it.
unfoldable pub take_line : List ℕ → Bool → ℕ → List ℕ → ℕ → Read
take_line ready killed target got zero = gives ready got
take_line [] killed target got (suc n) = if killed then stopped [] else waits [] (suc n) got
take_line (c ∷ cs) killed target got (suc n) =
    let rest = take_line cs killed target (got ++ c ∷ []) n in
    if c == control b'D'
    then (if ltb (suc n) target then gives (c ∷ cs) got else gives cs got)
    else if c == 10
    then gives cs (got ++ c ∷ [])
    else rest

read_line-take_line :
    (i : Input) (killed : Bool) (target : ℕ) (got : List ℕ) (n m : ℕ)
    → i.r < 2 ^ 32
    → i.w < 2 ^ 32
    → uint_sub i.w i.r ≡ m
    → seen (read_line i killed target got n) ≡ take_line (ahead i.buf i.r m) killed target got n
unfolding read_line take_line ahead
read_line-take_line i killed target got zero m hr hw h = ap (λ k. gives (ahead i.buf i.r k) got) h
read_line-take_line i killed target got (suc n) zero hr hw h =
    let empty : (i.r == i.w) ≡ true = ground (arith, hr, hw, h) in
    elim (Bool-cases killed) [
      | inl k ↦ rw (read_line, empty, k) (ap (λ m. stopped (ahead i.buf i.r m)) h)
      | inr k ↦ rw (read_line, empty, k) (ap (λ m. waits (ahead i.buf i.r m) (suc n) got) h)
    ]
read_line-take_line i killed target got (suc n) (suc m) hr hw h =
    let some_ready : (i.r == i.w) ≡ false = ground (arith, hr, hw, h) in
    let c = i.buf (i.r % input_buf) in
    let i1 = record i { r = uint_add i.r 1 } in
    let fewer : uint_sub i.w (uint_add i.r 1) ≡ m = omega (arith, hr, hw, h) in
    elim (Bool-cases (c == control b'D')) [
      | inl d ↦ elim (Bool-cases (ltb (suc n) target)) [
        | inl l ↦
            rw (read_line, take_line, some_ready, d, l) (ap (λ k. gives (ahead i.buf i.r k) got) h)
        | inr l ↦
            rw (read_line, take_line, some_ready, d, l)
              (ap (λ k. gives (ahead i.buf (uint_add i.r 1) k) got) fewer)
      ]
      | inr d ↦ elim (Bool-cases (c == 10)) [
        | inl e ↦
            rw (read_line, take_line, some_ready, d, e)
              (ap (λ k. gives (ahead i.buf (uint_add i.r 1) k) (got ++ c ∷ [])) fewer)
        | inr e ↦
            rw (read_line, take_line, some_ready, d, e)
              (read_line-take_line i1 killed target (got ++ c ∷ []) n m (omega arith) hw fewer)
      ]
    ]

-- From getting the lock to its sleep or return, `consoleread` of `n` bytes does to the bytes that are
-- ready what `take_line` says, with the indices of the buffer in order before it.
pub consoleread_lem :
    (i : Input) (killed : Bool) (n : ℕ)
    → HasOrder i
    → seen (consoleread i killed n) ≡ take_line (screen i).0 killed n [] n
consoleread_lem i killed n o =
    read_line-take_line i killed n [] n (uint_sub i.w i.r) o.r_word o.w_word refl
