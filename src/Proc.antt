-- ===== src/Proc.antt =====
-- proc.c: the process table and what `fork`, `exit`, `wait`, `sleep`, `wakeup`, `kill` and the
-- scheduler do to it. Each function is one critical section under `ptable.lock`, from the time the
-- lock is held to `sched` or the return.
-- A process is its index in `ptable.proc`. What the functions ask of other parts of the kernel is
-- listed in `effects`, in order; what they get from them (`kalloc`, `copyuvm`) is an argument.
pub mod Wait
pub mod Sane
pub mod Exit
pub mod System
pub mod Legal
pub mod Kill
mod Examples
use chameleon_os.Base.{
  ℕ, zero, suc, ◌+◌, ◌-◌, Bool, true, false, not, ◌&&◌, ◌||◌, Option, none, some, List, [], ◌∷◌,
  ◌++◌, ◌==◌, ltb, if◌then◌else◌, update,
}
use chameleon_os.Base.Machine.{Run, ok, panic, ◌>>=◌, uint_add}
use chameleon_os.File.{Ftable, Release, filedup, fileclose}

abbrev pub nproc : ℕ
nproc = 64

pub data State : Type 0 where
  unused embryo sleeping runnable running zombie : State

-- What a process sleeps on: nothing, a process (in `wait`), or the address of something else.
pub data Chan : Type 0 where
  no_chan : Chan
  proc_chan : ℕ → Chan
  other_chan : ℕ → Chan

pub record Proc : Type 0 where
  pub sz : ℕ
  pub pgdir : ℕ
  pub kstack : ℕ
  pub state : State
  pub pid : ℕ
  pub parent : Option ℕ
  -- the registers of the trap frame
  pub tf : ℕ → ℕ
  pub context : ℕ
  pub chan : Chan
  pub killed : Bool
  pub ofile : List (Option ℕ)
  pub cwd : Option ℕ
  pub name : List ℕ

pub data Effect : Type 0 where
  free_page : ℕ → Effect
  free_vm : ℕ → Effect
  dup_inode : Option ℕ → Effect
  put_inode : Option ℕ → Effect
  released : Release → Effect

pub record Kernel : Type 0 where
  pub procs : ℕ → Proc
  pub nextpid : ℕ
  pub initproc : ℕ
  pub files : Ftable
  pub effects : List Effect

abbrev pub is : State → State → Bool
is unused unused = true
is embryo embryo = true
is sleeping sleeping = true
is runnable runnable = true
is running running = true
is zombie zombie = true
is _ _ = false

abbrev pub chan_eq : Chan → Chan → Bool
chan_eq no_chan no_chan = true
chan_eq (proc_chan i) (proc_chan j) = i == j
chan_eq (other_chan a) (other_chan b) = a == b
chan_eq _ _ = false

abbrev pub is_child : ℕ → Proc → Bool
is_child cur p = elim p.parent [ none ↦ false | some q ↦ q == cur ]

abbrev pub effect : Effect → Kernel → Kernel
effect e k = record k { effects = k.effects ++ e ∷ [] }

-- The loop changes each entry by itself.
pub wakeup1 : Chan → (ℕ → Proc) → ℕ → Proc
wakeup1 c procs i =
    let p = procs i in
    if ltb i nproc && (is p.state sleeping && chan_eq p.chan c)
    then record p { state = runnable }
    else p

pub wakeup : Chan → Kernel → Kernel
wakeup c k = record k { procs = wakeup1 c k.procs }

-- The first entry from `i` on, `n` of them left, that passes the test.
pub find : (Proc → Bool) → (ℕ → Proc) → ℕ → ℕ → Option ℕ
find test procs i zero = none
find test procs i (suc n) =
    let rest = find test procs (i + 1) n in if test (procs i) then some i else rest

abbrev pub is_unused : Proc → Bool
is_unused p = is p.state unused

-- `sp` below the trap frame (76 bytes), the return address (4) and the context (20).
abbrev pub context_of : ℕ → ℕ
context_of stack = stack + 4096 - 76 - 4 - 20

-- `allocproc` from `found:` on. `stack` is what `kalloc` returns, 0 if there is no memory.
pub take_slot : Kernel → ℕ → ℕ → Kernel × Option ℕ
take_slot k i stack =
    let p = record (k.procs i) { state = embryo; pid = k.nextpid; kstack = stack } in
    let done =
      λ (q : Proc). record k { procs = update k.procs i q; nextpid = uint_add k.nextpid 1 } in
    if stack == 0
    then (done (record p { state = unused }), none)
    else (done (record p { context = context_of stack }), some i)

pub allocproc : Kernel → ℕ → Kernel × Option ℕ
allocproc k stack = elim (find is_unused k.procs 0 nproc) [
  | none ↦ (k, none)
  | some i ↦ take_slot k i stack
]

-- `if(curproc->ofile[i]) np->ofile[i] = filedup(curproc->ofile[i])` for each descriptor.
pub dup_files : Ftable → List (Option ℕ) → List (Option ℕ) → Run (Ftable × List (Option ℕ))
dup_files t [] new = ok (t, new)
dup_files t (o ∷ os) [] = ok (t, [])
dup_files t (none ∷ os) (n ∷ ns) = do (t', ns') ← dup_files t os ns; ok (t', n ∷ ns')
dup_files t (some f ∷ os) (n ∷ ns) = do
  t1 ← filedup t f
  (t', ns') ← dup_files t1 os ns
  ok (t', some f ∷ ns')

-- The register that holds a system call's result.
abbrev pub eax : ℕ
eax = 7

-- `fork` once `allocproc` has given entry `n`; `dir` is what `copyuvm` returns, 0 if there is no
-- memory. The result is the child's pid, or none for -1.
pub fork_copy : Kernel → ℕ → ℕ → ℕ → Run (Kernel × Option ℕ)
fork_copy k cur n dir =
    let np = k.procs n in
    let me = k.procs cur in
    if dir == 0
    then (let failed = record np { pgdir = 0; kstack = 0; state = unused } in
        ok (effect (free_page np.kstack) (record k { procs = update k.procs n failed }), none))
    else do
      (files, ofile) ← dup_files k.files me.ofile np.ofile
      let child = record np {
        pgdir = dir;
        sz = me.sz;
        parent = some cur;
        tf = update me.tf eax 0;
        ofile = ofile;
        cwd = me.cwd;
        name = me.name;
        state = runnable;
      }
      ok (
        effect (dup_inode me.cwd) (record k { procs = update k.procs n child; files = files }),
        some np.pid,
      )

pub fork : Kernel → ℕ → ℕ → ℕ → Run (Kernel × Option ℕ)
fork k cur stack dir =
    let (k1, slot) = allocproc k stack in
    elim slot [ none ↦ ok (k1, none) | some n ↦ fork_copy k1 cur n dir ]

-- The loop of `exit` that closes the open files, and what each close does.
pub close_files : Ftable → List (Option ℕ) → Run (Ftable × List Effect)
close_files t [] = ok (t, [])
close_files t (none ∷ os) = close_files t os
close_files t (some f ∷ os) = do
  (t1, r) ← fileclose t f
  (t2, rs) ← close_files t1 os
  ok (t2, released r ∷ rs)

abbrev pub no_files : List (Option ℕ) → List (Option ℕ)
no_files [] = []
no_files (o ∷ os) = none ∷ no_files os

-- A round of the loop of `exit` over the table: an abandoned child goes to init, which is woken if
-- the child is a zombie.
pub reparent_one : ℕ → ℕ → (ℕ → Proc) → ℕ → ℕ → Proc
reparent_one cur init procs i =
    let p = procs i in
    let given = update procs i (record p { parent = some init }) in
    if is_child cur p
    then (if is p.state zombie then wakeup1 (proc_chan init) given else given)
    else procs

-- `n` entries are left from `i` on.
pub reparent : ℕ → ℕ → (ℕ → Proc) → ℕ → ℕ → ℕ → Proc
reparent cur init procs i zero = procs
reparent cur init procs i (suc n) = reparent cur init (reparent_one cur init procs i) (i + 1) n

abbrev pub parent_chan : Option ℕ → Chan
parent_chan none = no_chan
parent_chan (some q) = proc_chan q

-- The part of `exit` before it takes `ptable.lock`.
pub exit_close : Kernel → ℕ → Run Kernel
exit_close k cur =
    let me = k.procs cur in
    if cur == k.initproc then panic else do
      (files, closes) ← close_files k.files me.ofile
      ok (record k {
        procs = update k.procs cur (record me { ofile = no_files me.ofile; cwd = none });
        files = files;
        effects = k.effects ++ closes ++ put_inode me.cwd ∷ [];
      })

-- The part under `ptable.lock`, up to `sched`, which does not return to a zombie.
pub exit_zombie : Kernel → ℕ → Kernel
exit_zombie k cur =
    let procs1 = wakeup1 (parent_chan (k.procs cur).parent) k.procs in
    let procs2 = reparent cur k.initproc procs1 0 nproc in
    record k { procs = update procs2 cur (record (procs2 cur) { state = zombie }) }

pub exit : Kernel → ℕ → Run Kernel
exit k cur = do k' ← exit_close k cur; ok (exit_zombie k' cur)

-- How a round of the loop of `wait` ends: it returns a pid, it returns -1, or it sleeps.
pub data WaitEnd : Type 0 where
  reaped : ℕ → WaitEnd
  no_children : WaitEnd
  waits : WaitEnd

abbrev pub is_zombie_child : ℕ → Proc → Bool
is_zombie_child cur p = is_child cur p && is p.state zombie

abbrev pub is_found : Option ℕ → Bool
is_found none = false
is_found (some i) = true

pub reap : Kernel → ℕ → Kernel
reap k i =
    let p = k.procs i in
    let cleared = record p {
      kstack = 0;
      pid = 0;
      parent = none;
      name = [];
      killed = false;
      state = unused;
    } in
    effect (free_vm p.pgdir)
      (effect (free_page p.kstack) (record k { procs = update k.procs i cleared }))

-- The scan stops at the first zombie child; `havekids` matters only if there is none.
pub wait : Kernel → ℕ → Kernel × WaitEnd
wait k cur = elim (find (is_zombie_child cur) k.procs 0 nproc) [
  | some i ↦ (reap k i, reaped (k.procs i).pid)
  | none ↦
      let me = k.procs cur in
      if not (is_found (find (is_child cur) k.procs 0 nproc)) || me.killed
      then (k, no_children)
      else (
        record k {
          procs = update k.procs cur (record me { chan = proc_chan cur; state = sleeping });
        },
        waits,
      )
]

-- The scheduler's choice of entry `i`; it passes over an entry that is not runnable.
pub schedule : Kernel → ℕ → Kernel
schedule k i =
    let p = k.procs i in
    if is p.state runnable
    then record k { procs = update k.procs i (record p { state = running }) }
    else k

pub yield : Kernel → ℕ → Kernel
yield k cur = record k { procs = update k.procs cur (record (k.procs cur) { state = runnable }) }

-- Up to `sched`.
pub sleep : Kernel → ℕ → Chan → Kernel
sleep k cur c = record k {
  procs = update k.procs cur (record (k.procs cur) { chan = c; state = sleeping });
}

-- `sleep` after `sched` returns.
pub resume : Kernel → ℕ → Kernel
resume k cur = record k { procs = update k.procs cur (record (k.procs cur) { chan = no_chan }) }

pub mark_killed : Kernel → ℕ → Kernel
mark_killed k i =
    let p = k.procs i in
    let state = if is p.state sleeping then runnable else p.state in
    record k { procs = update k.procs i (record p { killed = true; state = state }) }

-- The flag says that the result is 0, not -1.
pub kill : Kernel → ℕ → Kernel × Bool
kill k pid = elim (find (λ p. p.pid == pid) k.procs 0 nproc) [
  | none ↦ (k, false)
  | some i ↦ (mark_killed k i, true)
]
