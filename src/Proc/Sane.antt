-- ===== src/Proc/Sane.antt =====
-- The invariant of the process table of proc.c, and the critical sections that keep it.
use native.Mathlib.Decide.{ℕ_discrete}
use chameleon_os.Base.{
  ℕ, zero, suc, ◌+◌, ◌<◌, ◌≤◌, ◌≡◌, ◌≢◌, refl, inl, inr, Bool, true, false, ◌||◌, not, Option, none,
  some, arith, ◌==◌, update, ap, sym, subst, update_self, update_ne, ◌∙◌, Bool-cases, Option-cases,
}
use chameleon_os.Base.Machine.{ok, Run-cases, ok-injective}
use chameleon_os.Proc.{
  Proc, Kernel, State, unused, embryo, sleeping, runnable, running, zombie, Chan, proc_chan, nproc,
  is, is_child, is_zombie_child, is_found, wakeup, find, is_unused, take_slot, reap, mark_killed,
  allocproc, fork_copy, dup_files, exit_close, close_files, wait, schedule, kill,
}
use chameleon_os.Proc.Wait.{InWait, wakeup1_lem}

-- The states of a process that is neither free, nor new, nor dead.
abbrev pub is_alive : State → Bool
is_alive sleeping = true
is_alive runnable = true
is_alive running = true
is_alive _ = false

-- No process sleeps in `wait` while it has a zombie child. Init has no parent and does not die, and
-- no process is its own parent. Only entries of the table sleep.
pub record IsSane (k : Kernel) : Type 0 where
  pub init : k.initproc < nproc
  pub orphan : (k.procs k.initproc).parent ≡ none
  pub lives : is_alive (k.procs k.initproc).state ≡ true
  pub own : (j : ℕ) → (k.procs j).parent ≢ some j
  pub awake :
      (i j : ℕ)
      → j < nproc
      → (k.procs j).parent ≡ some i
      → (k.procs j).state ≡ zombie
      → ¬ InWait k.procs i
  pub inside : (i : ℕ) → InWait k.procs i → i < nproc

-- What may happen to entry `j` without harm to the invariant: it does not go to sleep in `wait`,
-- does not become a zombie, does not change its parent, and stays alive if it was.
pub record Harmless (j : ℕ) (p p' : Proc) : Type 0 where
  pub parent : p'.parent ≡ p.parent
  pub alive : is_alive p.state ≡ true → is_alive p'.state ≡ true
  pub undead : p'.state ≡ zombie → p.state ≡ zombie
  pub waits :
      (p'.state ≡ sleeping)
      → (p'.chan ≡ proc_chan j)
      → (p.state ≡ sleeping) × (p.chan ≡ proc_chan j)

pub keeps :
    (k k' : Kernel)
    → k'.initproc ≡ k.initproc
    → ((j : ℕ) → Harmless j (k.procs j) (k'.procs j))
    → IsSane k
    → IsSane k'
keeps k k' e r s = record {
  init = omega (arith, s.init);
  orphan = rw e ((r k.initproc).parent ∙ s.orphan);
  lives = rw e ((r k.initproc).alive s.lives);
  own = λ j o. s.own j (sym (r j).parent ∙ o);
  awake =
      λ i j h p z w. s.awake i j h (sym (r j).parent ∙ p) ((r j).undead z) ((r i).waits w.0 w.1);
  inside = λ i w. s.inside i ((r i).waits w.0 w.1);
}

-- So where one entry changes.
pub set_keeps :
    (k k' : Kernel) (c : ℕ) (p : Proc)
    → k'.procs ≡ update k.procs c p
    → k'.initproc ≡ k.initproc
    → Harmless c (k.procs c) p
    → IsSane k
    → IsSane k'
set_keeps k k' c p e ei r s = keeps k k' ei harmless s
  where
    harmless : (j : ℕ) → Harmless j (k.procs j) (k'.procs j)
    harmless j = elim (ℕ_discrete c j) [
      | yes same ↦ rw e (
          subst (λ x. Harmless x (k.procs x) (update k.procs c p x)) same
            (rw (update_self k.procs c p) r))
      | no ne ↦
          rw (e, update_ne k.procs c j p ne)
            (record { parent = refl; alive = λ a. a; undead = λ z. z; waits = λ a b. (a, b) })
    ]

-- So where one entry that is not init's changes and is no zombie, and is not in `wait`.
pub put_keeps :
    (k k' : Kernel) (c : ℕ) (p : Proc)
    → k'.procs ≡ update k.procs c p
    → k'.initproc ≡ k.initproc
    → c ≢ k.initproc
    → p.parent ≢ some c
    → p.state ≢ zombie
    → p.state ≢ sleeping
    → IsSane k
    → IsSane k'
put_keeps k k' c p e ei ne par z sl s = record {
  init = omega (arith, s.init);
  orphan = rw (ei, e) (ground (arith, s.orphan));
  lives = rw (ei, e) (ground (arith, s.lives));
  own = λ j. rw e (ground (arith, s.own j));
  awake = λ i j h. rw e (ground (arith, s.awake i j h));
  inside = λ i. rw e (ground (arith, s.inside i));
}

-- `find` answers with an entry that passes the test, and `none` only if there is none.
pub find-some :
    (test : Proc → Bool) (procs : ℕ → Proc) (i n r : ℕ)
    → find test procs i n ≡ some r
    → (test (procs r) ≡ true) × (i ≤ r) × (r < i + n)
unfolding find
find-some test procs i zero r h = absurd (cc)
find-some test procs i (suc n) r h = ground (arith, find-some test procs (i + 1) n r)

pub find-none :
    (test : Proc → Bool) (procs : ℕ → Proc) (i n j : ℕ)
    → find test procs i n ≡ none
    → i ≤ j
    → j < i + n
    → test (procs j) ≡ false
unfolding find
find-none test procs i zero j h a b = absurd (omega arith)
find-none test procs i (suc n) j h a b = ground (arith, find-none test procs (i + 1) n j)

pub take_slot-IsSane :
    (k : Kernel) (i stack : ℕ)
    → (k.procs i).state ≡ unused
    → IsSane k
    → IsSane (take_slot k i stack).0
unfolding take_slot
take_slot-IsSane k i stack u s =
    let ne : i ≢ k.initproc = λ e. cc (s.lives, u, e) in
    elim (Bool-cases (stack == 0)) [
      | inl z ↦ rw z (put_keeps k _ i _ refl refl ne (s.own i) (λ e. cc) (λ e. cc) s)
      | inr z ↦ rw z (put_keeps k _ i _ refl refl ne (s.own i) (λ e. cc) (λ e. cc) s)
    ]

pub alloc-IsSane : (k : Kernel) (stack : ℕ) → IsSane k → IsSane (allocproc k stack).0
unfolding allocproc
alloc-IsSane k stack s = elim (Option-cases (find is_unused k.procs 0 nproc)) [
  | inl e ↦ rw (e, allocproc) s
  | inr (i, e) ↦
      rw (e, allocproc)
        (take_slot-IsSane k i stack (ground (arith, find-some is_unused k.procs 0 nproc i e)) s)
]

pub copy-IsSane :
    (k : Kernel) (cur n dir : ℕ) (k' : Kernel) (pid : Option ℕ)
    → (k.procs cur).state ≡ running
    → (k.procs n).state ≡ embryo
    → fork_copy k cur n dir ≡ ok (k', pid)
    → IsSane k
    → IsSane k'
unfolding fork_copy
copy-IsSane k cur n dir k' pid r m e s =
    let ne : n ≢ k.initproc = λ e. cc (s.lives, m, e) in
    let other : cur ≢ n = λ e. cc (r, m, e) in
    elim (Bool-cases (dir == 0)) [
      | inl z ↦
          subst IsSane (ap (λ (t : Kernel × Option ℕ). t.0) (ok-injective (rw (z, fork_copy) at e)))
            (put_keeps k _ n _ refl refl ne (s.own n) (λ e. cc) (λ e. cc) s)
      | inr z ↦ elim (Run-cases (dup_files k.files (k.procs cur).ofile (k.procs n).ofile)) [
        | inl p ↦ cc (rw (z, p, fork_copy) at e)
        | inr (a, p) ↦
            subst IsSane
              (ap (λ (t : Kernel × Option ℕ). t.0) (ok-injective (rw (z, p, fork_copy) at e)))
              (put_keeps k _ n _ refl refl ne (λ e. other (ground arith)) (λ e. cc) (λ e. cc) s)
      ]
    ]

pub close-IsSane :
    (k : Kernel) (cur : ℕ) (k' : Kernel) → exit_close k cur ≡ ok k' → IsSane k → IsSane k'
unfolding exit_close
close-IsSane k cur k' e s = elim (Bool-cases (cur == k.initproc)) [
  | inl z ↦ cc (rw (z, exit_close) at e)
  | inr z ↦ elim (Run-cases (close_files k.files (k.procs cur).ofile)) [
    | inl p ↦ cc (rw (z, p, exit_close) at e)
    | inr (a, p) ↦
        subst IsSane (ok-injective (rw (z, p, exit_close) at e))
          (set_keeps k _ cur _ refl refl (ground arith) s)
  ]
]

pub run-IsSane : (k : Kernel) (i : ℕ) → IsSane k → IsSane (schedule k i)
unfolding schedule
run-IsSane k i s = elim (Bool-cases (is (k.procs i).state runnable)) [
  | inl y ↦ rw y (set_keeps k _ i _ refl refl (ground arith) s)
  | inr n ↦ rw n s
]

pub wake-IsSane : (k : Kernel) (c : Chan) → IsSane k → IsSane (wakeup c k)
unfolding wakeup
wake-IsSane k c s = keeps k _ refl (λ j. ground (arith, wakeup1_lem c k.procs j)) s

pub mark-IsSane : (k : Kernel) (i : ℕ) → IsSane k → IsSane (mark_killed k i)
unfolding mark_killed
mark-IsSane k i s = set_keeps k _ i _ refl refl (ground arith) s

pub kill-IsSane : (k : Kernel) (pid : ℕ) → IsSane k → IsSane (kill k pid).0
unfolding kill
kill-IsSane k pid s = elim (Option-cases (find (λ p. p.pid == pid) k.procs 0 nproc)) [
  | inl e ↦ rw (e, kill) s
  | inr (i, e) ↦ rw (e, kill) (mark-IsSane k i s)
]

-- Going to sleep in `wait` is harmless where the scan has found no zombie child.
pub enter-IsSane :
    (k : Kernel) (cur : ℕ)
    → cur < nproc
    → (k.procs cur).state ≡ running
    → find (is_zombie_child cur) k.procs 0 nproc ≡ none
    → IsSane k
    → IsSane (record k {
      procs = update k.procs cur (record (k.procs cur) { chan = proc_chan cur; state = sleeping });
    })
enter-IsSane k cur lt r none_found s = record {
  init = s.init;
  orphan = ground (arith, s.orphan);
  lives = ground (arith, s.lives);
  own = λ j. ground (arith, s.own j);
  awake = λ i j h. ground (
    arith,
    s.awake i j h,
    find-none (is_zombie_child cur) k.procs 0 nproc j none_found (omega arith) h,
  );
  inside = λ i. ground (arith, s.inside i);
}

pub wait-IsSane :
    (k : Kernel) (cur : ℕ)
    → cur < nproc
    → (k.procs cur).state ≡ running
    → IsSane k
    → IsSane (wait k cur).0
unfolding wait reap
wait-IsSane k cur lt r s = elim (Option-cases (find (is_zombie_child cur) k.procs 0 nproc)) [
  | inr (i, e) ↦
      let found = find-some (is_zombie_child cur) k.procs 0 nproc i e in
      let dead : i ≢ k.initproc = λ q. ground (arith, found, s.lives) in
      rw (e, wait) (put_keeps k _ i _ refl refl dead (λ q. cc) (λ q. cc) (λ q. cc) s)
  | inl e ↦
      elim (Bool-cases
        (not (is_found (find (is_child cur) k.procs 0 nproc)) || (k.procs cur).killed)) [
          | inl stop ↦ rw (e, wait, stop) s
          | inr go ↦ rw (e, wait, go) (enter-IsSane k cur lt r e s)
        ]
]
