-- ===== src/Console/Lines.antt =====
-- `consoleintr` of console.c does what the keys do on the lists of bytes of `Console.Screen`.
use chameleon_os.Base.{
  ℕ, zero, suc, ◌+◌, ◌%◌, ◌^◌, ◌<◌, ◌≡◌, refl, sym, ◌∙◌, ap, ap₂, subst, inl, inr, true, false, not,
  ◌&&◌, ◌||◌, List, [], ◌∷◌, ◌++◌, reverse, arith, ltb, ◌==◌, if◌then◌else◌, update, update_self,
  Bool-cases, drop, length, All,
}
use chameleon_os.Base.Machine.{uint_add, uint_sub}
use chameleon_os.Console.{
  Input, Effect, consputc, backspace, consoleintr, input_buf, control, kill_line, store_char,
  intr_char,
}
use chameleon_os.Console.Ring.{
  ahead, behind, length-ahead, length-behind, ahead-update, behind-update, ahead-reverse,
}
use chameleon_os.Console.Screen.{Screen, with_typed, screen, HasOrder, erase_line, type_char, press}

-- The same lines, with the line that is typed cut to its last `m` bytes.
kill_line-press :
    (i : Input) (n : ℕ)
    → HasOrder i
    → uint_sub i.e i.w ≡ n
    → (screen (kill_line i n).0 ≡ with_typed i (erase_line (behind i.buf i.e n)))
      × HasOrder (kill_line i n).0
unfolding kill_line erase_line behind
kill_line-press i zero o h = (ap (λ k. with_typed i (behind i.buf i.e k)) h, o)
kill_line-press i (suc n) o h =
    let apart : (i.e == i.w) ≡ false = ground (arith, h, o.e_word, o.w_word) in
    let stay = ap (λ k. with_typed i (behind i.buf i.e k)) h in
    elim (Bool-cases (i.buf (uint_sub i.e 1 % input_buf) == 10)) [
      | inl q ↦
          let stops : kill_line i (suc n) ≡ (i, []) = rw (kill_line, apart, q) refl in
          let kept : behind i.buf i.e (suc n) ≡ erase_line (behind i.buf i.e (suc n)) =
            rw (erase_line, q) refl in
          subst
            (λ f. (screen f ≡ with_typed i (erase_line (behind i.buf i.e (suc n)))) × HasOrder f)
            (ap (λ (r : Input × List Effect). r.0) (sym stops)) (stay ∙ ap (with_typed i) kept, o)
      | inr q ↦
          let i' = record i { e = uint_sub i.e 1 } in
          let (same, o') =
            kill_line-press i' n
              (record {
                r_word = o.r_word;
                w_word = o.w_word;
                e_word = omega arith;
                fits = omega (arith, o.fits, h, o.e_word, o.w_word);
              })
              (omega (arith, h, o.e_word, o.w_word)) in
          let goes : (kill_line i (suc n)).0 ≡ (kill_line i' n).0 = rw (kill_line, apart, q) refl in
          let gone : erase_line (behind i.buf i.e (suc n)) ≡ erase_line (behind i.buf i'.e n) =
            rw (erase_line, behind, q) refl in
          subst
            (λ f. (screen f ≡ with_typed i (erase_line (behind i.buf i.e (suc n)))) × HasOrder f)
            (sym goes) (same ∙ ap (with_typed i) (sym gone), o')
    ]

module _ (i : Input) (c : ℕ) (o : HasOrder i) (hc : c < 2 ^ 8)
    (room : uint_sub i.e i.r < input_buf) where
  abbrev stored : Input
  stored = record i { buf = update i.buf (i.e % input_buf) (c % 2 ^ 8); e = uint_add i.e 1 }

  ready_kept : ahead stored.buf i.r (uint_sub i.w i.r) ≡ ahead i.buf i.r (uint_sub i.w i.r)
  ready_kept =
      ahead-update i.buf i.r (uint_sub i.w i.r) i.e (c % 2 ^ 8) o.r_word o.e_word
        (omega (arith, o.r_word, o.w_word, o.e_word, o.fits)) room

  typed_grown :
      behind stored.buf stored.e (suc (uint_sub i.e i.w)) ≡ c ∷ behind i.buf i.e (uint_sub i.e i.w)
  unfolding behind
  typed_grown =
      let at : uint_sub (uint_add i.e 1) 1 ≡ i.e = omega (arith, o.e_word) in
      let small : c % 2 ^ 8 ≡ c = omega (arith, hc) in
      rw at (
        ap₂ (λ b bs. b ∷ bs) (update_self i.buf (i.e % input_buf) (c % 2 ^ 8) ∙ small)
          (behind-update i.buf i.e (uint_sub i.e i.w) i.e (c % 2 ^ 8) o.e_word o.e_word
            (omega (arith, o.r_word, o.w_word, o.e_word, o.fits, room))))

  one_more : uint_sub stored.e i.w ≡ suc (uint_sub i.e i.w)
  one_more = omega (arith, o.r_word, o.w_word, o.e_word, o.fits, room)

  all_stored : uint_sub stored.e i.r ≡ uint_sub i.w i.r + suc (uint_sub i.e i.w)
  all_stored = omega (arith, o.r_word, o.w_word, o.e_word, o.fits, room)

  full_same :
      (stored.e == uint_add i.r input_buf)
      ≡ (length (screen i).0 + length (c ∷ (screen i).1) == input_buf)
  full_same =
      rw (length-ahead i.buf i.r (uint_sub i.w i.r), length-behind i.buf i.e (uint_sub i.e i.w))
        (elim (Bool-cases (stored.e == uint_add i.r input_buf)) [
          | inl q ↦ ground (arith, q, all_stored, o.r_word)
          | inr q ↦ ground (arith, q, all_stored, o.r_word)
        ])

  lines_ready :
      ahead stored.buf i.r (uint_sub stored.e i.r) ≡ (screen i).0 ++ reverse (c ∷ (screen i).1)
  lines_ready =
      ap (ahead stored.buf i.r) all_stored
      ∙ sym (
          ahead-reverse stored.buf i.r (uint_sub i.w i.r) (suc (uint_sub i.e i.w)) stored.e o.r_word
            (omega arith) all_stored)
      ∙ ap₂ (λ a b. a ++ reverse b) ready_kept typed_grown

  nothing_typed : behind stored.buf stored.e (uint_sub stored.e stored.e) ≡ []
  unfolding behind
  nothing_typed = let z : uint_sub stored.e stored.e ≡ 0 = omega arith in rw z refl

  store_char-type_char :
      (screen (store_char i c).0 ≡ type_char (screen i) c) × HasOrder (store_char i c).0
  unfolding store_char type_char
  store_char-type_char =
      let line = (c == 10) || (c == control b'D') in
      let same = ap (λ f. line || f) full_same in
      elim (Bool-cases (line || (stored.e == uint_add i.r input_buf))) [
        | inl q ↦
            rw (store_char, type_char, q, sym same ∙ q)
              (
                ap₂ (λ a b. (a, b)) lines_ready nothing_typed,
                record {
                  r_word = o.r_word;
                  w_word = omega arith;
                  e_word = omega arith;
                  fits = omega (arith, o.r_word, o.w_word, o.e_word, o.fits, room);
                },
              )
        | inr q ↦
            rw (store_char, type_char, q, sym same ∙ q)
              (
                ap₂ (λ a b. (a, b)) ready_kept
                    (ap (behind stored.buf stored.e) one_more ∙ typed_grown),
                record {
                  r_word = o.r_word;
                  w_word = o.w_word;
                  e_word = omega arith;
                  fits = omega (arith, o.r_word, o.w_word, o.e_word, o.fits, room);
                },
              )
      ]

-- The case of a backspace.
abbrev erased : Input → Input × List Effect
erased i =
    if i.e == i.w then (i, []) else (record i { e = uint_sub i.e 1 }, consputc backspace ∷ [])

erased-drop :
    (i : Input) (n : ℕ)
    → HasOrder i
    → uint_sub i.e i.w ≡ n
    → (screen (erased i).0 ≡ with_typed i (drop 1 (behind i.buf i.e n))) × HasOrder (erased i).0
unfolding behind
erased-drop i zero o h =
    let same : (i.e == i.w) ≡ true = ground (arith, h, o.e_word, o.w_word) in
    rw same (ap (λ k. with_typed i (behind i.buf i.e k)) h, o)
erased-drop i (suc n) o h =
    let apart : (i.e == i.w) ≡ false = ground (arith, h, o.e_word, o.w_word) in
    let fewer : uint_sub (uint_sub i.e 1) i.w ≡ n = omega (arith, h, o.e_word, o.w_word) in
    rw apart (
      ap (λ k. with_typed i (behind i.buf (uint_sub i.e 1) k)) fewer,
      record {
        r_word = o.r_word;
        w_word = o.w_word;
        e_word = omega arith;
        fits = omega (arith, o.fits, h, o.e_word, o.w_word);
      },
    )

intr_char-press :
    (i : Input) (c : ℕ)
    → HasOrder i
    → c < 2 ^ 8
    → (screen (intr_char i c).0 ≡ press (screen i) c) × HasOrder (intr_char i c).0
unfolding intr_char press behind
intr_char-press i c o hc = elim (Bool-cases (c == control b'P')) [
  | inl p ↦ rw (intr_char, press, p) (refl, o)
  | inr p ↦ elim (Bool-cases (c == control b'U')) [
    | inl u ↦ rw (intr_char, press, p, u) (kill_line-press i (uint_sub i.e i.w) o refl)
    | inr u ↦ elim (Bool-cases ((c == control b'H') || (c == 127))) [
      | inl b ↦ rw (intr_char, press, p, u, b) (erased-drop i (uint_sub i.e i.w) o refl)
      | inr b ↦
          let lengths : length (screen i).0 + length (screen i).1 ≡ uint_sub i.e i.r = omega (
            arith,
            length-ahead i.buf i.r (uint_sub i.w i.r),
            length-behind i.buf i.e (uint_sub i.e i.w),
            o.r_word,
            o.w_word,
            o.e_word,
            o.fits,
          ) in
          let same = ap (λ n. not (c == 0) && ltb n input_buf) lengths in
          elim (Bool-cases (not (c == 0) && ltb (uint_sub i.e i.r) input_buf)) [
            | inl k ↦
                rw (intr_char, press, p, u, b, k, same ∙ k)
                  (store_char-type_char i (if c == 13 then 10 else c) o (ground (arith, hc))
                    (ground (arith, k)))
            | inr k ↦ rw (intr_char, press, p, u, b, k, same ∙ k) (refl, o)
          ]
    ]
  ]
]

pub presses : Screen → List ℕ → Screen
presses s [] = s
presses s (c ∷ cs) = presses (press s c) cs

-- Whatever bytes the keyboard gives, one call of `consoleintr` for all of them does to the lines that
-- are ready and to the line that is typed what pressing the keys one after the other does, and keeps
-- the indices `uint`s in order, at most a buffer apart. They are so before the call.
pub consoleintr_lem :
    (i : Input) (cs : List ℕ)
    → HasOrder i
    → All (λ c. c < 2 ^ 8) cs
    → (screen (consoleintr i cs).0 ≡ presses (screen i) cs) × HasOrder (consoleintr i cs).0
unfolding consoleintr presses
consoleintr_lem i [] o small = (refl, o)
consoleintr_lem i (c ∷ cs) o (hc, small) =
    let (one, o') = intr_char-press i c o hc in
    let (rest, o'') = consoleintr_lem (intr_char i c).0 cs o' small in
    (rest ∙ ap (λ s. presses s cs) one, o'')
