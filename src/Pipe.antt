-- ===== src/Pipe.antt =====
-- pipe.c: a byte queue of 512 bytes between processes, under `p->lock`.
-- What a process does between getting the lock and returning or sleeping is one leg. A leg that
-- sleeps is followed, once the process was woken, by another leg with the bytes that are left.
-- `readers` and `writers` count the processes asleep on `&p->nread` and on `&p->nwrite`.
pub mod Alloc
pub mod Queue
pub mod Fifo
pub mod Wakeups
mod Examples
use chameleon_os.Base.{
  ℕ, zero, suc, ◌+◌, ◌-◌, ◌%◌, ◌^◌, Bool, true, false, not, ◌&&◌, ◌||◌, List, [], ◌∷◌, ◌==◌,
  if◌then◌else◌, get_or, set,
}
use chameleon_os.Base.Machine.{uint_add, uint_sub}

abbrev pub pipe_size : ℕ
pipe_size = 512

pub record Pipe : Type 0 where
  pub buf : List ℕ
  pub nread : ℕ
  pub nwrite : ℕ
  pub readopen : Bool
  pub writeopen : Bool
  pub readers : ℕ
  pub writers : ℕ

-- The fields that `pipealloc` sets in a page whose bytes are arbitrary.
pub init : List ℕ → Pipe
init page = record {
  buf = page;
  nread = 0;
  nwrite = 0;
  readopen = true;
  writeopen = true;
  readers = 0;
  writers = 0;
}

abbrev pub wake_readers : Pipe → Pipe
wake_readers p = record p { readers = 0 }

abbrev pub wake_writers : Pipe → Pipe
wake_writers p = record p { writers = 0 }

-- The flag says that the page was freed.
pub close : Pipe → Bool → Pipe × Bool
close p writable =
    let p' =
      if writable
      then wake_readers (record p { writeopen = false })
      else wake_writers (record p { readopen = false }) in
    (p', not p'.readopen && not p'.writeopen)

-- How a leg of `pipewrite` ends: it returns `n`, it returns -1, or it sleeps. The lists are the
-- bytes not yet written.
pub data WriteEnd : Type 0 where
  wrote : WriteEnd
  refused : List ℕ → WriteEnd
  asleep : List ℕ → WriteEnd

-- `p->data[p->nwrite++ % PIPESIZE] = addr[i]`
pub put : Pipe → ℕ → Pipe
put p x = record p { buf = set p.buf (p.nwrite % pipe_size) x; nwrite = uint_add p.nwrite 1 }

abbrev pub full : Pipe → Bool
full p = p.nwrite == uint_add p.nread pipe_size

-- The list is `addr[i .. n)`; `killed` is `myproc()->killed`.
pub write : Bool → Pipe → List ℕ → Pipe × WriteEnd
write killed p [] = (wake_readers p, wrote)
write killed p (x ∷ xs) =
    let rest = write killed (put p x) xs in
    if full p
    then (if not p.readopen || killed
        then (p, refused (x ∷ xs))
        else (record p { readers = 0; writers = p.writers + 1 }, asleep (x ∷ xs)))
    else rest

-- How a leg of `piperead` ends: it returns the bytes that it copied, it returns -1, or it sleeps.
pub data ReadEnd : Type 0 where
  got : List ℕ → ReadEnd
  interrupted : ReadEnd
  blocked : ReadEnd

-- The copy loop, `n` rounds at most.
pub copy : ℕ → Pipe → Pipe × List ℕ
copy zero p = (p, [])
copy (suc n) p =
    let (p', bytes) = copy n (record p { nread = uint_add p.nread 1 }) in
    if p.nread == p.nwrite then (p, []) else (p', get_or p.buf (p.nread % pipe_size) 0 ∷ bytes)

pub read : Bool → Pipe → ℕ → Pipe × ReadEnd
unfolding copy
read killed p n =
    let (p', bytes) = copy n p in
    if (p.nread == p.nwrite) && p.writeopen
    then (if killed then (p, interrupted) else (record p { readers = p.readers + 1 }, blocked))
    else (wake_writers p', got bytes)
