-- ===== src/Console/Ring.antt =====
-- The input buffer of console.c as two lists of bytes: the lines that are ready, oldest byte first, and
-- the line that is typed, newest byte first.
use chameleon_os.Base.{
  ℕ, zero, suc, ◌+◌, ◌%◌, ◌^◌, ◌≤◌, ◌<◌, ◌≡◌, ◌≢◌, refl, sym, ◌∙◌, ap, ap₂, List, [], ◌∷◌, ◌++◌,
  reverse, append-nil, append_assoc, arith, update, update_ne, length,
}
use mathlib.Core.List.{reverse_aux}
use chameleon_os.Base.Machine.{uint_add, uint_sub}
use chameleon_os.Console.{input_buf}

-- `n` bytes from index `s` on.
unfoldable pub ahead : (ℕ → ℕ) → ℕ → ℕ → List ℕ
ahead buf s zero = []
ahead buf s (suc n) = buf (s % input_buf) ∷ ahead buf (uint_add s 1) n

-- `n` bytes before index `e`, backwards.
unfoldable pub behind : (ℕ → ℕ) → ℕ → ℕ → List ℕ
behind buf e zero = []
behind buf e (suc n) = buf (uint_sub e 1 % input_buf) ∷ behind buf (uint_sub e 1) n

pub length-ahead : (buf : ℕ → ℕ) (s n : ℕ) → length (ahead buf s n) ≡ n
unfolding ahead
length-ahead buf s zero = refl
length-ahead buf s (suc n) = ap suc (length-ahead buf (uint_add s 1) n)

pub length-behind : (buf : ℕ → ℕ) (e n : ℕ) → length (behind buf e n) ≡ n
unfolding behind
length-behind buf e zero = refl
length-behind buf e (suc n) = ap suc (length-behind buf (uint_sub e 1) n)

-- A write at the index behind the last of at most 127 bytes, or further on, is not seen.
pub ahead-update :
    (buf : ℕ → ℕ) (s n e v : ℕ)
    → s < 2 ^ 32
    → e < 2 ^ 32
    → n ≤ uint_sub e s
    → uint_sub e s < input_buf
    → ahead (update buf (e % input_buf) v) s n ≡ ahead buf s n
unfolding ahead
ahead-update buf s zero e v hs he h h' = refl
ahead-update buf s (suc n) e v hs he h h' =
    let apart : e % input_buf ≢ s % input_buf = omega (arith, hs, he, h, h') in
    ap₂ (λ b bs. b ∷ bs) (update_ne buf _ _ v apart)
      (ahead-update buf (uint_add s 1) n e v (omega arith) he (omega (arith, hs, he, h, h'))
        (omega (arith, hs, he, h, h')))

pub behind-update :
    (buf : ℕ → ℕ) (s n e v : ℕ)
    → s < 2 ^ 32
    → e < 2 ^ 32
    → n + uint_sub e s < input_buf
    → behind (update buf (e % input_buf) v) s n ≡ behind buf s n
unfolding behind
behind-update buf s zero e v hs he h = refl
behind-update buf s (suc n) e v hs he h =
    let apart : e % input_buf ≢ uint_sub s 1 % input_buf = omega (arith, hs, he, h) in
    ap₂ (λ b bs. b ∷ bs) (update_ne buf _ _ v apart)
      (behind-update buf (uint_sub s 1) n e v (omega arith) he (omega (arith, hs, he, h)))

ahead-snoc :
    (buf : ℕ → ℕ) (s n : ℕ)
    → s < 2 ^ 32
    → ahead buf s (suc n) ≡ ahead buf s n ++ buf ((s + n) % input_buf) ∷ []
unfolding ahead
ahead-snoc buf s zero hs = let e : s + 0 ≡ s = omega arith in rw e refl
ahead-snoc buf s (suc n) hs =
    let e : (uint_add s 1 + n) % input_buf ≡ (s + suc n) % input_buf = omega arith in
    ap (λ bs. buf (s % input_buf) ∷ bs)
      (ahead-snoc buf (uint_add s 1) n (omega arith)
        ∙ ap (λ k. ahead buf (uint_add s 1) n ++ buf k ∷ []) e)

-- The bytes before an index, turned around, stand behind the bytes in front of them.
ahead-reverse_aux :
    (buf : ℕ → ℕ) (s m n e : ℕ) (zs : List ℕ)
    → s < 2 ^ 32
    → e < 2 ^ 32
    → uint_sub e s ≡ m + n
    → ahead buf s m ++ reverse_aux (behind buf e n) zs ≡ ahead buf s (m + n) ++ zs
unfolding behind
ahead-reverse_aux buf s m zero e zs hs he h = let z : m + 0 ≡ m = omega arith in rw z refl
ahead-reverse_aux buf s m (suc n) e zs hs he h =
    let b = buf (uint_sub e 1 % input_buf) in
    let at : (s + (m + n)) % input_buf ≡ uint_sub e 1 % input_buf = omega (arith, hs, he, h) in
    let more : m + suc n ≡ suc (m + n) = omega arith in
    ahead-reverse_aux buf s m n (uint_sub e 1) (b ∷ zs) hs (omega arith) (omega (arith, hs, he, h))
    ∙ sym (append_assoc (ahead buf s (m + n)) (b ∷ []) zs)
    ∙ ap (λ bs. bs ++ zs)
        (ap (λ k. ahead buf s (m + n) ++ buf k ∷ []) (sym at)
          ∙ sym (ahead-snoc buf s (m + n) hs)
          ∙ ap (ahead buf s) (sym more))

pub ahead-reverse :
    (buf : ℕ → ℕ) (s m n e : ℕ)
    → s < 2 ^ 32
    → e < 2 ^ 32
    → uint_sub e s ≡ m + n
    → ahead buf s m ++ reverse (behind buf e n) ≡ ahead buf s (m + n)
ahead-reverse buf s m n e hs he h =
    ahead-reverse_aux buf s m n e [] hs he h ∙ append-nil (ahead buf s (m + n))
