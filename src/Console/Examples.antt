-- ===== src/Console/Examples.antt =====
-- A line typed on the console and read.
use chameleon_os.Base.{ℕ, ◌-◌, ◌^◌, ◌≡◌, refl, ◌==◌, if◌then◌else◌, false, List, [], ◌∷◌, arith}
use chameleon_os.Console.{Input, consoleintr, consoleread}
use chameleon_os.Console.Ring.{ahead}
use chameleon_os.Console.Lines.{presses, consoleintr_lem}
use chameleon_os.Console.Screen.{HasOrder, screen}
use chameleon_os.Console.Read.{seen, gives, take_line, consoleread_lem}

-- The indices are about to wrap.
abbrev empty : Input
empty = record { buf = λ k. 0; r = 2 ^ 32 - 1; w = 2 ^ 32 - 1; e = 2 ^ 32 - 1 }

empty-HasOrder : HasOrder empty
empty-HasOrder = record {
  r_word = omega arith;
  w_word = omega arith;
  e_word = omega arith;
  fits = omega arith;
}

-- "ax", a backspace, "b" and a return.
abbrev keys : List ℕ
keys = b'a' ∷ b'x' ∷ 8 ∷ b'b' ∷ 13 ∷ []

consoleintr_lem_example :
    (screen (consoleintr empty keys).0 ≡ presses (screen empty) keys)
    × HasOrder (consoleintr empty keys).0
consoleintr_lem_example =
    consoleintr_lem empty keys empty-HasOrder
      (omega arith, (omega arith, (omega arith, (omega arith, (omega arith, tt)))))

-- "ab" and a newline, after which "c" waits.
abbrev typed : Input
typed = record {
  buf = λ k. if k == 127 then b'a' else if k == 0 then b'b' else if k == 1 then 10 else b'c';
  r = 2 ^ 32 - 1;
  w = 3;
  e = 3;
}

typed-HasOrder : HasOrder typed
typed-HasOrder = record {
  r_word = omega arith;
  w_word = omega arith;
  e_word = omega arith;
  fits = omega arith;
}

consoleread_lem_example :
    seen (consoleread typed false 10) ≡ take_line (screen typed).0 false 10 [] 10
consoleread_lem_example = consoleread_lem typed false 10 typed-HasOrder

reads : take_line (screen typed).0 false 10 [] 10 ≡ gives (b'c' ∷ []) (b'a' ∷ b'b' ∷ 10 ∷ [])
unfolding take_line ahead
reads = refl
