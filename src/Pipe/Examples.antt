-- ===== src/Pipe/Examples.antt =====
-- A new pipe, and small runs at its ends.
use chameleon_os.Base.{
  ℕ, ◌-◌, ◌≡◌, ◌⊎◌, refl, true, false, not, ◌&&◌, ◌||◌, List, [], ◌∷◌, ◌++◌, arith, ◌==◌,
  if◌then◌else◌, length, replicate, take, drop,
}
use chameleon_os.Pipe.{Pipe, pipe_size, init, write, read, got, interrupted, blocked}
use chameleon_os.Pipe.Queue.{IsValid, unread, write_end, write_lem, read_lem}
use chameleon_os.Pipe.Fifo.{write_leg, read_leg, run, pipe_fifo}
use chameleon_os.Pipe.Wakeups.{
  Reach, here, next, read_step, pipe_no_lost_wakeup, killed_writer_strands_readers,
}

abbrev page : List ℕ
page = replicate 512 0

length-page : length page ≡ 512
length-page = refl

abbrev fresh : Pipe
fresh = init page

fresh-IsValid : IsValid fresh
unfolding init
fresh-IsValid = record {
  page = omega (arith, length-page);
  nread_uint = omega arith;
  nwrite_uint = omega arith;
  bounded = omega arith;
}

write_lem_example :
    let room = pipe_size - length (unread fresh) in
    let (p', end) = write false fresh (5 ∷ 6 ∷ []) in
    IsValid p'
    × (unread p' ≡ unread fresh ++ take room (5 ∷ 6 ∷ []))
    × (end ≡ write_end (not fresh.readopen || false) room (5 ∷ 6 ∷ []))
write_lem_example = write_lem false fresh (5 ∷ 6 ∷ []) fresh-IsValid

-- Two bytes are in the pipe.
abbrev two : Pipe
two = (write false fresh (5 ∷ 6 ∷ [])).0

two-IsValid : IsValid two
two-IsValid = (write_lem false fresh (5 ∷ 6 ∷ []) fresh-IsValid).0

read_lem_example :
    let wait = (length (unread two) == 0) && two.writeopen in
    let (p', end) = read false two 1 in
    IsValid p'
    × (unread p' ≡ (if wait then unread two else drop 1 (unread two)))
    × (end ≡ (if wait then (if false then interrupted else blocked) else got (take 1 (unread two))))
read_lem_example = read_lem false two 1 two-IsValid

pipe_fifo_example :
    let (p', sent, received) =
      run fresh (write_leg false (5 ∷ 6 ∷ []) ∷ read_leg false 1 ∷ read_leg true 9 ∷ []) in
    IsValid p' × (unread fresh ++ sent ≡ received ++ unread p')
pipe_fifo_example =
    pipe_fifo fresh (write_leg false (5 ∷ 6 ∷ []) ∷ read_leg false 1 ∷ read_leg true 9 ∷ [])
      fresh-IsValid

abbrev read_first : Pipe
read_first = (read false fresh 1).0

read_first-Reach : Reach fresh read_first
unfolding init
read_first-Reach = next here (read_step false 1 refl)

pipe_no_lost_wakeup_example :
    ((read_first.readers ≡ 0)
      ⊎ (unread read_first ≡ []) × (read_first.writeopen ≡ true) × (read_first.readopen ≡ true))
    × ((read_first.writers ≡ 0)
        ⊎ (length (unread read_first) ≡ pipe_size)
          × (read_first.readopen ≡ true)
          × (read_first.writeopen ≡ true))
pipe_no_lost_wakeup_example = pipe_no_lost_wakeup page (omega (arith, length-page)) read_first-Reach

abbrev long : List ℕ
long = replicate 513 1

length-long : length long ≡ 513
length-long = refl

killed_writer_strands_readers_example :
    let p' = (write true fresh long).0 in
    (p'.readers ≡ fresh.readers) × (length (unread p') ≡ pipe_size)
unfolding init
killed_writer_strands_readers_example =
    killed_writer_strands_readers fresh long fresh-IsValid refl (omega (arith, length-long))
