-- ===== src/Proc/System.antt =====
-- The processes of proc.c in any interleaving of their critical sections under `ptable.lock`.
use chameleon_os.Base.{ℕ, ◌<◌, ◌≡◌, ◌≢◌, refl, true, Option, none, some, arith}
use chameleon_os.Base.Machine.{ok}
use chameleon_os.Proc.{
  Kernel, embryo, sleeping, running, zombie, Chan, proc_chan, other_chan, nproc, wakeup, allocproc,
  fork_copy, exit_close, exit_zombie, wait, schedule, yield, sleep, resume, kill,
}
use chameleon_os.Proc.Sane.{
  IsSane, is_alive, set_keeps, alloc-IsSane, copy-IsSane, close-IsSane, wait-IsSane, run-IsSane,
  wake-IsSane, kill-IsSane,
}
use chameleon_os.Proc.Exit.{die-IsSane}

-- One critical section. Whoever runs it is RUNNING, except for the scheduler and for interrupts,
-- which wake processes and read the table. A process waits for a child only in `wait`, so the
-- channel of any other `sleep` is not a process.
pub data Step (k : Kernel) : Kernel → Type 0 where
  alloc : (stack : ℕ) → Step k (allocproc k stack).0
  copy :
      (cur n dir : ℕ) (k' : Kernel) (pid : Option ℕ)
      → (k.procs cur).state ≡ running
      → (k.procs n).state ≡ embryo
      → fork_copy k cur n dir ≡ ok (k', pid)
      → Step k k'
  close :
      (cur : ℕ) (k' : Kernel) → (k.procs cur).state ≡ running → exit_close k cur ≡ ok k' → Step k k'
  die :
      (cur : ℕ)
      → cur < nproc
      → cur ≢ k.initproc
      → (k.procs cur).state ≡ running
      → Step k (exit_zombie k cur)
  wait_round : (cur : ℕ) → cur < nproc → (k.procs cur).state ≡ running → Step k (wait k cur).0
  run : (i : ℕ) → i < nproc → Step k (schedule k i)
  give_up : (cur : ℕ) → (k.procs cur).state ≡ running → Step k (yield k cur)
  block : (cur c : ℕ) → (k.procs cur).state ≡ running → Step k (sleep k cur (other_chan c))
  go_on : (cur : ℕ) → (k.procs cur).state ≡ running → Step k (resume k cur)
  wake : (c : Chan) → Step k (wakeup c k)
  kill_pid : (pid : ℕ) → Step k (kill k pid).0

pub Step-IsSane : {k k' : Kernel} → Step k k' → IsSane k → IsSane k'
unfolding yield sleep resume
Step-IsSane {k} (alloc stack) s = alloc-IsSane k stack s
Step-IsSane {k} (copy cur n dir k' pid r m e) s = copy-IsSane k cur n dir k' pid r m e s
Step-IsSane {k} (close cur k' r e) s = close-IsSane k cur k' e s
Step-IsSane {k} (die cur lt ne r) s = die-IsSane k cur lt ne r s
Step-IsSane {k} (wait_round cur lt r) s = wait-IsSane k cur lt r s
Step-IsSane {k} (run i h) s = run-IsSane k i s
Step-IsSane {k} (give_up cur r) s = set_keeps k _ cur _ refl refl (ground arith) s
Step-IsSane {k} (block cur c r) s = set_keeps k _ cur _ refl refl (ground arith) s
Step-IsSane {k} (go_on cur r) s = set_keeps k _ cur _ refl refl (ground arith) s
Step-IsSane {k} (wake c) s = wake-IsSane k c s
Step-IsSane {k} (kill_pid pid) s = kill-IsSane k pid s

pub data Reach (k : Kernel) : Kernel → Type 0 where
  here : Reach k k
  next : {k1 k2 : Kernel} → Reach k k1 → Step k1 k2 → Reach k k2

Reach-IsSane : {k k' : Kernel} → IsSane k → Reach k k' → IsSane k'
Reach-IsSane s here = s
Reach-IsSane s (next r st) = Step-IsSane st (Reach-IsSane s r)

-- In every interleaving of critical sections from a sane table, no wakeup is lost between `exit` and
-- `wait`: a process that sleeps in `wait` has no zombie child, be it its own or inherited from a
-- parent that exited.
pub wait_no_lost_wakeup :
    {k k' : Kernel} (i j : ℕ)
    → IsSane k
    → Reach k k'
    → j < nproc
    → (k'.procs i).state ≡ sleeping
    → (k'.procs i).chan ≡ proc_chan i
    → (k'.procs j).parent ≡ some i
    → (k'.procs j).state ≢ zombie
wait_no_lost_wakeup i j s r h w c p z = (Reach-IsSane s r).awake i j h p z (w, c)

-- In every interleaving of critical sections from a sane table, init stays an entry of the table that is alive, and it has no parent,
-- so it can always inherit the children of a process that exits.
pub init_lives :
    {k k' : Kernel}
    → IsSane k
    → Reach k k'
    → (is_alive (k'.procs k'.initproc).state ≡ true)
      × ((k'.procs k'.initproc).parent ≡ none)
      × (k'.initproc < nproc)
init_lives s r = let s' = Reach-IsSane s r in (s'.lives, s'.orphan, s'.init)
