-- ===== src/Proc/Examples.antt =====
-- A table of two processes: init, and a child that it waits for.
use chameleon_os.Base.{
  ℕ, ◌≡◌, ◌≢◌, refl, true, false, Option, none, some, [], arith, ◌==◌, if◌then◌else◌,
}
use chameleon_os.File.{fd_none}
use chameleon_os.Proc.{
  Proc, Kernel, State, unused, runnable, running, zombie, no_chan, find, allocproc, wait, kill,
  schedule,
}
use chameleon_os.Proc.Sane.{IsSane}
use chameleon_os.Proc.System.{Reach, here, next, wait_round, run, wait_no_lost_wakeup}
use chameleon_os.Proc.Legal.{legal, Step-legal}
use chameleon_os.Proc.Kill.{kill_zero_marks_next}

abbrev entry : State → ℕ → Option ℕ → Proc
entry state pid parent = record {
  sz = 0;
  pgdir = 0;
  kstack = 0;
  state = state;
  pid = pid;
  parent = parent;
  tf = λ r. 0;
  context = 0;
  chan = no_chan;
  killed = false;
  ofile = [];
  cwd = none;
  name = [];
}

abbrev two : Kernel
two = record {
  procs = λ i.
      if i == 0
      then entry running 1 none
      else if i == 1
      then entry runnable 2 (some 0)
      else entry unused 0 none;
  nextpid = 3;
  initproc = 0;
  files = λ f. record {
    type = fd_none;
    ref = 0;
    readable = false;
    writable = false;
    pipe = 0;
    ip = 0;
    off = 0;
  };
  effects = [];
}

two-IsSane : IsSane two
two-IsSane = record {
  init = omega arith;
  orphan = refl;
  lives = refl;
  own = λ j. ground arith;
  awake = λ i j h p z w. absurd (ground (arith, z));
  inside = λ i w. absurd (ground (arith, w));
}

abbrev waiting : Kernel
waiting = (wait two 0).0

waiting-Reach : Reach two waiting
waiting-Reach = next here (wait_round 0 (omega arith) refl)

wait_no_lost_wakeup_example : (waiting.procs 1).state ≢ zombie
unfolding wait find
wait_no_lost_wakeup_example =
    wait_no_lost_wakeup 0 1 two-IsSane waiting-Reach (omega arith) refl refl refl

Step-legal_example : legal (two.procs 1).state ((schedule two 1).procs 1).state ≡ true
Step-legal_example = Step-legal two-IsSane (run 1 (omega arith)) 1

kill_zero_marks_next_example :
    let (k1, result) = kill two 0 in
    let (k2, slot) = allocproc k1 4096 in
    (result ≡ true) × (slot ≡ some 2) × ((k2.procs 2).killed ≡ true)
unfolding find
kill_zero_marks_next_example = kill_zero_marks_next two 2 4096 refl refl (λ e. omega (arith, e))
