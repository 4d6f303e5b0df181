-- ===== src/Proc/Legal.antt =====
-- The life of a process of proc.c: which changes of `p->state` a critical section can make.
use native.Mathlib.Decide.{ℕ_discrete}
use chameleon_os.Base.{
  ℕ, ◌≡◌, refl, inl, inr, Bool, true, ◌||◌, not, Option, arith, ◌==◌, update, ap, subst,
  update_self, update_ne, ◌∙◌, Bool-cases, Option-cases,
}
use chameleon_os.Base.Machine.{ok, Run-cases, ok-injective}
use chameleon_os.Proc.{
  Proc, Kernel, State, unused, embryo, sleeping, runnable, running, zombie, nproc, is, is_child,
  is_zombie_child, is_found, wakeup, find, is_unused, take_slot, reap, mark_killed, allocproc,
  fork_copy, dup_files, exit_close, exit_zombie, close_files, wait, schedule, yield, sleep, resume,
  kill,
}
use chameleon_os.Proc.Sane.{IsSane, find-some}
use chameleon_os.Proc.Exit.{state2}
use chameleon_os.Proc.System.{
  Step, alloc, copy, close, die, wait_round, run, give_up, block, go_on, wake, kill_pid,
}
use chameleon_os.Proc.Wait.{wakeup1_lem}

-- A free entry becomes EMBRYO, an EMBRYO becomes RUNNABLE or free again, a RUNNABLE runs, a RUNNING
-- process yields, sleeps or dies, a sleeper is woken, and a ZOMBIE is freed.
abbrev pub legal : State → State → Bool
legal unused embryo = true
legal embryo unused = true
legal embryo runnable = true
legal runnable running = true
legal running runnable = true
legal running sleeping = true
legal running zombie = true
legal sleeping runnable = true
legal zombie unused = true
legal s s' = is s s'

legal_refl : (s : State) → legal s s ≡ true
legal_refl unused = refl
legal_refl embryo = refl
legal_refl sleeping = refl
legal_refl runnable = refl
legal_refl running = refl
legal_refl zombie = refl

abbrev Legal : (ℕ → Proc) → (ℕ → Proc) → Type 0
Legal procs procs' = (j : ℕ) → legal (procs j).state (procs' j).state ≡ true

same : (procs : ℕ → Proc) → Legal procs procs
same procs j = legal_refl (procs j).state

set_Legal :
    (procs procs' : ℕ → Proc) (c : ℕ) (p : Proc)
    → procs' ≡ update procs c p
    → legal (procs c).state p.state ≡ true
    → Legal procs procs'
set_Legal procs procs' c p e h j = rw e (elim (ℕ_discrete c j) [
  | yes q ↦
      subst (λ x. legal (procs x).state (update procs c p x).state ≡ true) q
        (rw (update_self procs c p) h)
  | no ne ↦ rw (update_ne procs c j p ne) (legal_refl (procs j).state)
])

alloc-Legal : (k : Kernel) (stack : ℕ) → Legal k.procs (allocproc k stack).0.procs
unfolding allocproc take_slot
alloc-Legal k stack = elim (Option-cases (find is_unused k.procs 0 nproc)) [
  | inl e ↦ rw (e, allocproc) (same k.procs)
  | inr (i, e) ↦
      let found = find-some is_unused k.procs 0 nproc i e in
      elim (Bool-cases (stack == 0)) [
        | inl z ↦ rw (e, allocproc, z) (set_Legal _ _ i _ refl (ground (arith, found)))
        | inr z ↦ rw (e, allocproc, z) (set_Legal _ _ i _ refl (ground (arith, found)))
      ]
]

kill-Legal : (k : Kernel) (pid : ℕ) → Legal k.procs (kill k pid).0.procs
unfolding kill mark_killed
kill-Legal k pid = elim (Option-cases (find (λ p. p.pid == pid) k.procs 0 nproc)) [
  | inl e ↦ rw (e, kill) (same k.procs)
  | inr (i, e) ↦ rw (e, kill) (set_Legal _ _ i _ refl (ground arith))
]

wait-Legal :
    (k : Kernel) (cur : ℕ) → (k.procs cur).state ≡ running → Legal k.procs (wait k cur).0.procs
unfolding wait reap
wait-Legal k cur r = elim (Option-cases (find (is_zombie_child cur) k.procs 0 nproc)) [
  | inr (i, e) ↦
      rw (e, wait)
        (set_Legal _ _ i _ refl
          (ground (arith, find-some (is_zombie_child cur) k.procs 0 nproc i e)))
  | inl e ↦
      elim (Bool-cases
        (not (is_found (find (is_child cur) k.procs 0 nproc)) || (k.procs cur).killed)) [
          | inl stop ↦ rw (e, wait, stop) (same k.procs)
          | inr go ↦ rw (e, wait, go) (set_Legal _ _ cur _ refl (ground arith))
        ]
]

copy-Legal :
    (k : Kernel) (cur n dir : ℕ) (k' : Kernel) (pid : Option ℕ)
    → (k.procs n).state ≡ embryo
    → fork_copy k cur n dir ≡ ok (k', pid)
    → Legal k.procs k'.procs
unfolding fork_copy
copy-Legal k cur n dir k' pid m e = elim (Bool-cases (dir == 0)) [
  | inl z ↦ result (rw (z, fork_copy) at e) refl (set_Legal _ _ n _ refl (ground arith))
  | inr z ↦ elim (Run-cases (dup_files k.files (k.procs cur).ofile (k.procs n).ofile)) [
    | inl p ↦ cc (rw (z, p, fork_copy) at e)
    | inr (a, p) ↦ result (rw (z, p, fork_copy) at e) refl (set_Legal _ _ n _ refl (ground arith))
  ]
]
  where
    result :
        {t : Kernel × Option ℕ} {t' : Kernel × Option ℕ}
        → ok t ≡ ok t'
        → t'.0 ≡ k'
        → Legal k.procs t.0.procs
        → Legal k.procs k'.procs
    result q w l =
        subst (λ (k1 : Kernel). Legal k.procs k1.procs)
          (ap (λ (u : Kernel × Option ℕ). u.0) (ok-injective q) ∙ w) l

close-Legal :
    (k : Kernel) (cur : ℕ) (k' : Kernel) → exit_close k cur ≡ ok k' → Legal k.procs k'.procs
unfolding exit_close
close-Legal k cur k' e = elim (Bool-cases (cur == k.initproc)) [
  | inl z ↦ cc (rw (z, exit_close) at e)
  | inr z ↦ elim (Run-cases (close_files k.files (k.procs cur).ofile)) [
    | inl p ↦ cc (rw (z, p, exit_close) at e)
    | inr (a, p) ↦
        subst (λ (k1 : Kernel). Legal k.procs k1.procs) (ok-injective (rw (z, p, exit_close) at e))
          (set_Legal _ _ cur _ refl (legal_refl (k.procs cur).state))
  ]
]

-- Every critical section changes the state of each process as its life allows, or not at all.
pub Step-legal :
    {k k' : Kernel}
    → IsSane k
    → Step k k'
    → (j : ℕ) → legal (k.procs j).state (k'.procs j).state ≡ true
unfolding yield sleep resume schedule wakeup exit_zombie
Step-legal {k} s (alloc stack) = alloc-Legal k stack
Step-legal {k} s (copy cur n dir k' pid r m e) = copy-Legal k cur n dir k' pid m e
Step-legal {k} s (close cur k' r e) = close-Legal k cur k' e
Step-legal {k} s (die cur lt ne r) = λ j. ground (arith, state2 k cur lt ne r s j)
Step-legal {k} s (wait_round cur lt r) = wait-Legal k cur r
Step-legal {k} s (run i h) = λ j. ground arith
Step-legal {k} s (give_up cur r) = λ j. ground arith
Step-legal {k} s (block cur c r) = λ j. ground arith
Step-legal {k} s (go_on cur r) = λ j. ground arith
Step-legal {k} s (wake c) = λ j. ground (arith, wakeup1_lem c k.procs j)
Step-legal {k} s (kill_pid pid) = kill-Legal k pid
