-- ===== src/Console/Screen.antt =====
-- The line editor of console.c as the user sees it: the keys on two lists of bytes.
use chameleon_os.Base.{
  ℕ, ◌+◌, ◌^◌, ◌≤◌, ◌<◌, not, ◌&&◌, ◌||◌, List, [], ◌∷◌, ◌++◌, reverse, ltb, ◌==◌, if◌then◌else◌,
  drop, length,
}
use chameleon_os.Base.Machine.{uint_sub}
use chameleon_os.Console.{Input, input_buf, control}
use chameleon_os.Console.Ring.{ahead, behind}

-- What is ready for `consoleread`, oldest byte first, and the line that is typed, newest byte first.
abbrev pub Screen : Type 0
Screen = List ℕ × List ℕ

abbrev pub with_typed : Input → List ℕ → Screen
with_typed i typed = (ahead i.buf i.r (uint_sub i.w i.r), typed)

abbrev pub screen : Input → Screen
screen i = with_typed i (behind i.buf i.e (uint_sub i.e i.w))

-- The indices are `uint`s in order, at most a buffer apart.
pub record HasOrder (i : Input) : Type 0 where
  pub r_word : i.r < 2 ^ 32
  pub w_word : i.w < 2 ^ 32
  pub e_word : i.e < 2 ^ 32
  pub fits : uint_sub i.w i.r + uint_sub i.e i.w ≤ input_buf

-- The line up to its last newline.
unfoldable pub erase_line : List ℕ → List ℕ
erase_line [] = []
erase_line (c ∷ cs) = let rest = erase_line cs in if c == 10 then c ∷ cs else rest

-- The character `c`, where there is room: ^D and a newline end the line, as the last free place does.
unfoldable pub type_char : Screen → ℕ → Screen
type_char (ready, typed) c =
    if ((c == 10) || (c == control b'D')) || (length ready + length (c ∷ typed) == input_buf)
    then (ready ++ reverse (c ∷ typed), [])
    else (ready, c ∷ typed)

-- What a key does.
unfoldable pub press : Screen → ℕ → Screen
press (ready, typed) c =
    if c == control b'P'
    then (ready, typed)
    else if c == control b'U'
    then (ready, erase_line typed)
    else if (c == control b'H') || (c == 127)
    then (ready, drop 1 typed)
    else if not (c == 0) && ltb (length ready + length typed) input_buf
    then type_char (ready, typed) (if c == 13 then 10 else c)
    else (ready, typed)
