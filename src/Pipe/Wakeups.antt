-- ===== src/Pipe/Wakeups.antt =====
-- Sleeping and waking at the two ends of a pipe of pipe.c.
use chameleon_os.Base.{
  ℕ, zero, suc, ◌+◌, ◌-◌, ◌<◌, ◌≤◌, ◌≡◌, ap, ◌∙◌, refl, ◌⊎◌, inl, inr, Bool, true, false, List, [],
  ◌∷◌, arith, Bool-cases, length, length-append, take, length-take,
}
use chameleon_os.Base.Machine.{uint_add}
use chameleon_os.Pipe.{Pipe, pipe_size, init, close, put, full, write, copy, read}
use chameleon_os.Pipe.Queue.{
  IsValid, used, unread, length-window, full_iff, empty_eq, put-IsValid, write_lem, read_lem,
}

-- Whoever sleeps has a reason to: readers at an empty pipe that a writer may still fill, writers at
-- a full one that a reader may still empty.
pub record Reasoned (p : Pipe) : Type 0 where
  pub reader : (p.readers ≡ 0) ⊎ (used p ≡ 0) × (p.writeopen ≡ true) × (p.readopen ≡ true)
  pub writer : (p.writers ≡ 0) ⊎ (used p ≡ pipe_size) × (p.readopen ≡ true) × (p.writeopen ≡ true)

-- What processes do to a pipe. A leg at an end needs that end open; an end is closed for the last
-- time when no process sleeps there; `kill` wakes a sleeper. No writer's leg runs killed here.
pub data Step (p : Pipe) : Pipe → Type 0 where
  write_step : (xs : List ℕ) → p.writeopen ≡ true → Step p (write false p xs).0
  read_step : (killed : Bool) (n : ℕ) → p.readopen ≡ true → Step p (read killed p n).0
  close_write : p.writers ≡ 0 → Step p (close p true).0
  close_read : p.readers ≡ 0 → Step p (close p false).0
  kill_reader : Step p (record p { readers = p.readers - 1 })
  kill_writer : Step p (record p { writers = p.writers - 1 })

-- The ends stay as they are, and a leg that goes on has woken the readers, with the pipe full if the
-- writer sleeps.
record Awake (p : Pipe) (out : Pipe) : Type 0 where
  ends : (out.readopen ≡ p.readopen) × (out.writeopen ≡ p.writeopen)
  reader : (out.readers ≡ 0) ⊎ (p.readopen ≡ false) × (out.readers ≡ p.readers)
  writer :
      (out.writers ≡ p.writers) × (used p ≤ used out) ⊎ (used out ≡ pipe_size) × (p.readopen ≡ true)

write-Awake : (p : Pipe) (xs : List ℕ) → IsValid p → Awake p (write false p xs).0
unfolding write put
write-Awake p [] v = ground arith
write-Awake p (x ∷ xs) v = elim (Bool-cases (full p)) [
  | inl f ↦ rw f (ground (arith, (full_iff p v).1))
  | inr f ↦
      let h = (full_iff p v).0 f in
      let ih = write-Awake (put p x) xs (put-IsValid p x v h) in
      let more : used (put p x) ≡ used p + 1 = omega arith in
      rw f (ground (arith, ih.ends, ih.reader, ih.writer, more))
]

write-Reasoned :
    (p : Pipe) (xs : List ℕ)
    → IsValid p
    → Reasoned p
    → p.writeopen ≡ true
    → Reasoned (write false p xs).0
write-Reasoned p xs v r o =
    ground (arith, write-Awake p xs v, r.reader, r.writer, (write_lem false p xs v).0.bounded)

readers-copy : (n : ℕ) (p : Pipe) → (copy n p).0.readers ≡ p.readers
unfolding copy
readers-copy zero p = refl
readers-copy (suc n) p = ground (arith, readers-copy n (record p { nread = uint_add p.nread 1 }))

read-Reasoned :
    (killed : Bool) (p : Pipe) (n : ℕ)
    → IsValid p
    → Reasoned p
    → p.readopen ≡ true
    → Reasoned (read killed p n).0
unfolding read
read-Reasoned killed p n v r o = ground (arith, readers-copy n p, empty_eq p v, r.reader, r.writer)

Step-Reasoned : {p q : Pipe} → Step p q → IsValid p → Reasoned p → IsValid q × Reasoned q
unfolding close
Step-Reasoned {p} (write_step xs o) v r = ((write_lem false p xs v).0, write-Reasoned p xs v r o)
Step-Reasoned {p} (read_step k n o) v r = ((read_lem k p n v).0, read-Reasoned k p n v r o)
Step-Reasoned {p} (close_write z) v r = ground arith
Step-Reasoned {p} (close_read z) v r = ground arith
Step-Reasoned {p} kill_reader v r = ground arith
Step-Reasoned {p} kill_writer v r = ground arith

pub data Reach (p : Pipe) : Pipe → Type 0 where
  here : Reach p p
  next : {q r : Pipe} → Reach p q → Step q r → Reach p r

init-Reasoned :
    (page : List ℕ) → pipe_size ≤ length page → IsValid (init page) × Reasoned (init page)
unfolding init
init-Reasoned page h = ground arith

Reach-Reasoned :
    (page : List ℕ) {p : Pipe}
    → pipe_size ≤ length page
    → Reach (init page) p
    → IsValid p × Reasoned p
Reach-Reasoned page h here = init-Reasoned page h
Reach-Reasoned page h (next r st) = let (v, w) = Reach-Reasoned page h r in Step-Reasoned st v w

-- In every interleaving of legs at a new pipe in which no writer's leg runs with its process killed,
-- no wakeup is lost: while a reader sleeps the pipe is empty and may still be written, and while a
-- writer sleeps it holds 512 bytes and may still be read.
pub pipe_no_lost_wakeup :
    (page : List ℕ) {p : Pipe}
    → pipe_size ≤ length page
    → Reach (init page) p
    → ((p.readers ≡ 0) ⊎ (unread p ≡ []) × (p.writeopen ≡ true) × (p.readopen ≡ true))
      × ((p.writers ≡ 0)
          ⊎ (length (unread p) ≡ pipe_size) × (p.readopen ≡ true) × (p.writeopen ≡ true))
pipe_no_lost_wakeup page {p} h reach =
    let (v, w) = Reach-Reasoned page h reach in
    (ground (arith, w.reader), ground (arith, w.writer, length-window p.buf p.nread (used p)))

readers-refused :
    (p : Pipe) (xs : List ℕ)
    → IsValid p
    → pipe_size - used p < length xs
    → (write true p xs).0.readers ≡ p.readers
unfolding write put
readers-refused p [] v h = absurd (omega arith)
readers-refused p (x ∷ xs) v h = elim (Bool-cases (full p)) [
  | inl f ↦ rw f (elim (Bool-cases p.readopen) [ inl o ↦ rw o | inr o ↦ rw o ])
  | inr f ↦
      let room = (full_iff p v).0 f in
      let more : used (put p x) ≡ used p + 1 = omega arith in
      rw f (readers-refused (put p x) xs (put-IsValid p x v room) (omega arith))
]

-- A killed process that writes more bytes than fit into an empty pipe fills the pipe and returns
-- without waking the readers that sleep there: they go on sleeping at a full pipe.
pub killed_writer_strands_readers :
    (p : Pipe) (xs : List ℕ)
    → IsValid p
    → unread p ≡ []
    → pipe_size < length xs
    → let p' = (write true p xs).0 in (p'.readers ≡ p.readers) × (length (unread p') ≡ pipe_size)
killed_writer_strands_readers p xs v empty long =
    let none_used : used p ≡ 0 =
      omega (arith, ap length empty, length-window p.buf p.nread (used p)) in
    (
      readers-refused p xs v (omega arith),
      ap length (write_lem true p xs v).1
          ∙ omega (
            arith,
            length-append (unread p) (take (pipe_size - length (unread p)) xs),
            length-take (pipe_size - length (unread p)) xs,
            length-window p.buf p.nread (used p),
          ),
    )
