-- ===== src/Pipe/Queue.antt =====
-- A pipe is a queue of at most 512 bytes: what each leg of `pipewrite` and `piperead` does to the
-- bytes that are not yet read, with counters that wrap at 2^32.
use native.Mathlib.Decide.{ℕ_discrete}
use chameleon_os.Base.{
  ℕ, zero, suc, ◌+◌, ◌-◌, ◌%◌, ◌^◌, ◌≤◌, ◌<◌, ◌≡◌, refl, ◌≢◌, ◌∙◌, ap, ap₂, Bool, true, false, not,
  ◌&&◌, ◌||◌, List, [], ◌∷◌, ◌++◌, append-nil, append_assoc, arith, inl, inr, ◌==◌, leb,
  if◌then◌else◌, Bool-cases, length, length-set, get_or, get_or-set_self, get_or-set_ne, set, take,
  drop,
}
use chameleon_os.Base.Machine.{uint_add, uint_sub}
use chameleon_os.Pipe.{
  Pipe, pipe_size, WriteEnd, wrote, refused, asleep, put, full, write, got, interrupted, blocked,
  copy, read,
}

-- The `n` bytes from counter `r` on.
abbrev pub window : List ℕ → ℕ → ℕ → List ℕ
window buf r zero = []
window buf r (suc n) = get_or buf (r % pipe_size) 0 ∷ window buf (uint_add r 1) n

abbrev pub used : Pipe → ℕ
used p = uint_sub p.nwrite p.nread

-- The bytes written and not yet read, oldest first.
abbrev pub unread : Pipe → List ℕ
unread p = window p.buf p.nread (used p)

pub record IsValid (p : Pipe) : Type 0 where
  pub page : pipe_size ≤ length p.buf
  pub nread_uint : p.nread < 2 ^ 32
  pub nwrite_uint : p.nwrite < 2 ^ 32
  pub bounded : used p ≤ pipe_size

pub length-window : (buf : List ℕ) (r n : ℕ) → length (window buf r n) ≡ n
length-window buf r zero = refl
length-window buf r (suc n) = ap suc (length-window buf (uint_add r 1) n)

-- Writing just past a window of fewer than 512 bytes extends it by that byte.
window-put :
    (buf : List ℕ) (x r n w : ℕ)
    → pipe_size ≤ length buf
    → n < pipe_size
    → w ≡ (r + n) % 2 ^ 32
    → window (set buf (w % pipe_size) x) r (suc n) ≡ window buf r n ++ x ∷ []
window-put buf x r zero w len h e = ground (arith, get_or-set_self buf (w % pipe_size) x 0)
window-put buf x r (suc n) w len h e =
    ap₂ ◌∷◌ (get_or-set_ne buf x 0 (omega arith))
      (window-put buf x (uint_add r 1) n w len (omega arith) (omega arith))

pub put-IsValid : (p : Pipe) (x : ℕ) → IsValid p → used p < pipe_size → IsValid (put p x)
unfolding put
put-IsValid p x v h = omega (arith, length-set p.buf (p.nwrite % pipe_size) x)

unread-put :
    (p : Pipe) (x : ℕ) → IsValid p → used p < pipe_size → unread (put p x) ≡ unread p ++ x ∷ []
unfolding put
unread-put p x v h =
    let more : used (put p x) ≡ suc (used p) = omega arith in
    rw more (window-put p.buf x p.nread (used p) p.nwrite v.page h (omega arith))

pub full_iff :
    (p : Pipe)
    → IsValid p
    → (full p ≡ false → used p < pipe_size) × (full p ≡ true → used p ≡ pipe_size)
full_iff p v = ground (arith, v.bounded, v.nread_uint, v.nwrite_uint)

pub empty_eq : (p : Pipe) → IsValid p → (p.nread == p.nwrite) ≡ (used p == 0)
empty_eq p v = ground (arith, v.bounded, v.nread_uint, v.nwrite_uint)

-- How `pipewrite` ends when there is room for `room` bytes.
abbrev pub write_end : Bool → ℕ → List ℕ → WriteEnd
write_end stop room xs =
    if leb (length xs) room
    then wrote
    else (if stop then refused (drop room xs) else asleep (drop room xs))

take-nil : (n : ℕ) → (take {A = ℕ} n [] ≡ []) × (drop {A = ℕ} n [] ≡ [])
take-nil zero = (refl, refl)
take-nil (suc n) = (refl, refl)

take-zero : (xs : List ℕ) (n : ℕ) → n ≡ 0 → (take n xs ≡ []) × (drop n xs ≡ xs)
take-zero xs zero h = (refl, refl)
take-zero xs (suc n) h = absurd (omega arith)

take-pos :
    (x : ℕ) (xs : List ℕ) (n : ℕ)
    → 0 < n
    → (take n (x ∷ xs) ≡ x ∷ take (n - 1) xs) × (drop n (x ∷ xs) ≡ drop (n - 1) xs)
take-pos x xs zero h = absurd (omega arith)
take-pos x xs (suc n) h = let e : n ≡ suc n - 1 = omega arith in rw (← e) (refl, refl)

-- What a leg of `pipewrite` does, with room for `room` bytes.
record Written (p : Pipe) (killed : Bool) (room : ℕ) (xs : List ℕ) (out : Pipe × WriteEnd)
    : Type 0 where
  valid : IsValid out.0
  bytes : unread out.0 ≡ unread p ++ take room xs
  ended : out.1 ≡ write_end (not p.readopen || killed) room xs

write-Written :
    (killed : Bool) (p : Pipe) (xs : List ℕ)
    → IsValid p
    → Written p killed (pipe_size - used p) xs (write killed p xs)
unfolding write put
write-Written killed p [] v = record {
  valid = omega arith;
  bytes = rw ((take-nil (pipe_size - used p)).0, append-nil);
  ended = ground arith;
}
write-Written killed p (x ∷ xs) v = elim (Bool-cases (full p)) [
  | inl yes' ↦
      let no_room : pipe_size - used p ≡ 0 = omega (arith, (full_iff p v).1 yes') in
      let z = take-zero (x ∷ xs) (pipe_size - used p) no_room in
      let long : leb (length (x ∷ xs)) (pipe_size - used p) ≡ false = ground (arith, no_room) in
      rw yes' (elim (Bool-cases (not p.readopen || killed)) [
        | inl stop ↦
            rw stop
              (record { valid = v; bytes = rw (z.0, append-nil); ended = rw (long, z.1, stop) })
        | inr go ↦ rw go (record {
          valid = omega arith;
          bytes = rw (z.0, append-nil);
          ended = rw (long, z.1, go);
        })
      ])
  | inr no' ↦
      let h = (full_iff p v).0 no' in
      let ih = write-Written killed (put p x) xs (put-IsValid p x v h) in
      let more : pipe_size - used (put p x) ≡ pipe_size - used p - 1 = omega arith in
      rw no' (record {
        valid = ih.valid;
        bytes =
            ih.bytes
            ∙ ground (
              arith,
              more,
              unread-put p x v h,
              take-pos x xs (pipe_size - used p),
              append_assoc (unread p) (x ∷ []) (take (pipe_size - used p - 1) xs),
            );
        ended = ih.ended ∙ ground (arith, more, take-pos x xs (pipe_size - used p));
      })
]

window-pos :
    (buf : List ℕ) (r n : ℕ)
    → n ≢ 0
    → window buf r n ≡ get_or buf (r % pipe_size) 0 ∷ window buf (uint_add r 1) (n - 1)
window-pos buf r zero h = absurd (h refl)
window-pos buf r (suc n) h =
    let e : n ≡ suc n - 1 = omega arith in
    ap (λ k. get_or buf (r % pipe_size) 0 ∷ window buf (uint_add r 1) k) e

record Copied (p : Pipe) (n : ℕ) (out : Pipe × List ℕ) : Type 0 where
  valid : IsValid out.0
  bytes : out.1 ≡ take n (unread p)
  rest : unread out.0 ≡ drop n (unread p)

copy-Copied : (n : ℕ) (p : Pipe) → IsValid p → Copied p n (copy n p)
unfolding copy
copy-Copied zero p v = record { valid = v; bytes = refl; rest = refl }
copy-Copied (suc n) p v = elim (ℕ_discrete p.nread p.nwrite) [
  | yes e ↦
      let empty : used p ≡ 0 = ground arith in
      ground (arith, (take-nil (suc n)).0, (take-nil (suc n)).1)
  | no ne ↦
      let p' : Pipe = record p { nread = uint_add p.nread 1 } in
      let some_used : used p ≢ 0 = ground arith in
      let less : used p' ≡ used p - 1 = ground arith in
      ground
        (arith, copy-Copied n p' (ground arith), window-pos p.buf p.nread (used p) some_used, less)
]

-- A leg of `pipewrite` appends to the unread bytes as many of its bytes as the 512 allow, and no
-- others; it returns `n` if they all fit, and otherwise returns -1 (the process is killed, or no
-- reader is left) or sleeps with the bytes that did not fit.
pub write_lem :
    (killed : Bool) (p : Pipe) (xs : List ℕ)
    → IsValid p
    → let room = pipe_size - length (unread p) in
      let (p', end) = write killed p xs in
      IsValid p'
      × (unread p' ≡ unread p ++ take room xs)
      × (end ≡ write_end (not p.readopen || killed) room xs)
write_lem killed p xs v =
    let w = write-Written killed p xs v in
    rw (length-window p.buf p.nread (used p)) (w.valid, w.bytes, w.ended)

-- A leg of `piperead` on a pipe with unread bytes, or with no writer left, takes the oldest `n` of
-- them, or all if there are fewer; on an empty pipe with a writer it takes none, and returns -1 if
-- the process is killed and sleeps if not.
pub read_lem :
    (killed : Bool) (p : Pipe) (n : ℕ)
    → IsValid p
    → let wait = (length (unread p) == 0) && p.writeopen in
      let (p', end) = read killed p n in
      IsValid p'
      × (unread p' ≡ (if wait then unread p else drop n (unread p)))
      × (end
          ≡ (if wait then (if killed then interrupted else blocked) else got (take n (unread p))))
unfolding read
read_lem killed p n v =
    let w = copy-Copied n p v in
    rw (length-window p.buf p.nread (used p), empty_eq p v)
      (elim (Bool-cases ((used p == 0) && p.writeopen)) [
        | inl wait ↦ rw wait (elim (Bool-cases killed) [
          | inl k ↦ rw k (v, refl, refl)
          | inr k ↦ rw k (omega arith, refl, refl)
        ])
        | inr go ↦ rw go (ground (arith, w.valid), w.rest, ap got w.bytes)
      ])
