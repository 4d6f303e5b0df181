-- ===== src/Pipe/Fifo.antt =====
-- The two ends of a pipe of pipe.c in any interleaving: bytes come out in the order they went in.
use native.Mathlib.Decide.{dec_le}
use chameleon_os.Base.{
  ℕ, ◌-◌, ◌≡◌, sym, ap, ◌∙◌, inl, inr, Bool, true, false, not, ◌&&◌, ◌||◌, List, [], ◌∷◌, ◌++◌,
  append-nil, append_assoc, arith, ◌==◌, le→leb, not-le→leb, Bool-cases, length, length-drop, take,
  take_all, take-append-drop, drop,
}
use chameleon_os.Pipe.{
  Pipe, pipe_size, close, WriteEnd, wrote, refused, asleep, write, ReadEnd, got, interrupted,
  blocked, read,
}
use chameleon_os.Pipe.Queue.{IsValid, unread, write_end, write_lem, read_lem}

-- What the processes at the two ends do: a leg of `pipewrite` or of `piperead`, each with the
-- `killed` flag of its process, or the last close of an end.
pub data Event : Type 0 where
  write_leg : Bool → List ℕ → Event
  read_leg : Bool → ℕ → Event
  close_end : Bool → Event

abbrev not_written : WriteEnd → ℕ
not_written wrote = 0
not_written (refused xs) = length xs
not_written (asleep xs) = length xs

abbrev bytes_read : ReadEnd → List ℕ
bytes_read (got bytes) = bytes
bytes_read interrupted = []
bytes_read blocked = []

-- The pipe after the event, the bytes that the writer is done with, and those given to the reader.
pub step : Pipe → Event → Pipe × List ℕ × List ℕ
step p (write_leg killed xs) =
    let (p', end) = write killed p xs in (p', take (length xs - not_written end) xs, [])
step p (read_leg killed n) = let (p', end) = read killed p n in (p', [], bytes_read end)
step p (close_end writable) = ((close p writable).0, [], [])

pub run : Pipe → List Event → Pipe × List ℕ × List ℕ
run p [] = (p, [], [])
run p (e ∷ es) =
    let (p1, sent, received) = step p e in
    let (p2, sent', received') = run p1 es in (p2, sent ++ sent', received ++ received')

take-not_written :
    (stop : Bool) (room : ℕ) (xs : List ℕ)
    → take (length xs - not_written (write_end stop room xs)) xs ≡ take room xs
take-not_written stop room xs = elim (dec_le (length xs) room) [
  | yes p ↦ rw (le→leb _ _ p) (take_all (length xs - 0) xs (omega arith) ∙ sym (take_all room xs p))
  | no p ↦
      let e : length xs - length (drop room xs) ≡ room = omega (arith, length-drop room xs) in
      rw (not-le→leb _ _ p) (elim (Bool-cases stop) [ inl s ↦ rw (s, e) | inr s ↦ rw (s, e) ])
]

step_fifo :
    (p : Pipe) (e : Event)
    → IsValid p
    → let (p', sent, received) = step p e in IsValid p' × (unread p ++ sent ≡ received ++ unread p')
unfolding step close
step_fifo p (write_leg killed xs) v =
    let room = pipe_size - length (unread p) in
    let w = write_lem killed p xs v in
    (w.0, rw (w.2, take-not_written (not p.readopen || killed) room xs) (sym w.1))
step_fifo p (read_leg killed n) v =
    let w = read_lem killed p n v in
    (
      w.0,
      rw (w.1, w.2, append-nil)
          (elim (Bool-cases ((length (unread p) == 0) && p.writeopen)) [
            | inl wait ↦ rw wait (elim (Bool-cases killed) [ inl k ↦ rw k | inr k ↦ rw k ])
            | inr go ↦ rw go (sym (take-append-drop n (unread p)))
          ]),
    )
step_fifo p (close_end true) v = (omega arith, append-nil (unread p))
step_fifo p (close_end false) v = (omega arith, append-nil (unread p))

-- In every order of events at the two ends, the bytes read and then the bytes still in the pipe are
-- the bytes that were in it and then the bytes written, in order: none is lost, doubled or moved.
pub pipe_fifo :
    (p : Pipe) (es : List Event)
    → IsValid p
    → let (p', sent, received) = run p es in IsValid p' × (unread p ++ sent ≡ received ++ unread p')
unfolding run
pipe_fifo p [] v = (v, append-nil (unread p))
pipe_fifo p (e ∷ es) v =
    let s = step_fifo p e v in
    let (p1, sent, received) = step p e in
    let r = pipe_fifo p1 es s.0 in
    let (p2, sent', received') = run p1 es in
    (
      r.0,
      sym (append_assoc (unread p) sent sent')
          ∙ ap (λ z. z ++ sent') s.1
          ∙ append_assoc received (unread p1) sent'
          ∙ ap (λ z. received ++ z) r.1
          ∙ sym (append_assoc received received' (unread p2)),
    )
