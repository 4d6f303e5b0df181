-- ===== src/Proc/Exit.antt =====
-- The critical section of `exit` in proc.c keeps the invariant of the process table.
use chameleon_os.Base.{
  ℕ, ◌<◌, ◌≡◌, ◌≢◌, ◌⊎◌, inl, inr, false, some, arith, if◌then◌else◌, ap, sym, subst, Bool-cases,
}
use chameleon_os.Proc.{
  Proc, Kernel, sleeping, runnable, running, zombie, nproc, is_child, wakeup1, reparent,
  exit_zombie, parent_chan,
}
use chameleon_os.Proc.Sane.{IsSane}
use chameleon_os.Proc.Wait.{InWait, wakeup1_lem, wakeup1-InWait, Reparented, reparent-Reparented}

module _ (k : Kernel) (cur : ℕ) (lt : cur < nproc) (ne : cur ≢ k.initproc)
    (r : (k.procs cur).state ≡ running) (s : IsSane k) where
  abbrev pub procs1 : ℕ → Proc
  procs1 = wakeup1 (parent_chan (k.procs cur).parent) k.procs

  abbrev pub procs2 : ℕ → Proc
  procs2 = reparent cur k.initproc procs1 0 nproc

  out : Reparented cur k.initproc procs1 0 nproc procs2
  out = reparent-Reparented cur k.initproc procs1 0 nproc s.init

  parent1 : (j : ℕ) → (procs1 j).parent ≡ (k.procs j).parent
  parent1 j = (wakeup1_lem (parent_chan (k.procs cur).parent) k.procs j).2

  -- A state changes only by waking.
  pub state2 :
      (j : ℕ)
      → ((procs2 j).state ≡ (k.procs j).state)
        ⊎ ((k.procs j).state ≡ sleeping) × ((procs2 j).state ≡ runnable)
  state2 j = ground (arith, wakeup1_lem (parent_chan (k.procs cur).parent) k.procs j, out.state j)

  parent2 :
      (j : ℕ)
      → j < nproc
      → (procs2 j).parent
        ≡ (if is_child cur (k.procs j) then some k.initproc else (k.procs j).parent)
  parent2 j h = ground (arith, parent1 j, out.parent j)

  -- Whoever is in `wait` afterwards was so before, and after the first `wakeup1`.
  waits2 : (i : ℕ) → InWait procs2 i → InWait procs1 i × InWait k.procs i
  waits2 i w = ground (
    arith,
    w.0,
    w.1,
    wakeup1_lem (parent_chan (k.procs cur).parent) k.procs i,
    out.state i,
    out.chan i,
  )

  self_free : is_child cur (k.procs cur) ≡ false
  self_free = ground (arith, s.own cur)

  init_free : is_child cur (k.procs k.initproc) ≡ false
  init_free = ground (arith, s.orphan)

  awake2 :
      (i j : ℕ)
      → j < nproc
      → j ≢ cur
      → (procs2 j).parent ≡ some i
      → (procs2 j).state ≡ zombie
      → ¬ InWait procs2 i
  awake2 i j h nj p z w = elim (Bool-cases (is_child cur (k.procs j))) [
    | inl child ↦
        let to_init : some k.initproc ≡ some i = ground (arith, parent2 j h) in
        let e : k.initproc ≡ i = cc in
        out.woken j (omega arith) h (ground (arith, parent1 j))
          (ground (arith, wakeup1_lem (parent_chan (k.procs cur).parent) k.procs j, state2 j))
          (subst (InWait procs2) (sym e) w)
    | inr other ↦
        s.awake i j h (ground (arith, parent2 j h)) (ground (arith, state2 j)) (waits2 i w).1
  ]

  own2 : (j : ℕ) → (procs2 j).parent ≢ some j
  own2 j = ground (arith, s.own j, s.orphan, out.parent j, parent1 j)

  awake_cur : (i : ℕ) → (procs2 cur).parent ≡ some i → ¬ InWait procs2 i
  awake_cur i p w =
      let mine : (k.procs cur).parent ≡ some i = ground (arith, parent2 cur lt, self_free) in
      wakeup1-InWait k.procs i (s.inside i (waits2 i w).1)
        (subst (λ c. InWait (wakeup1 c k.procs) i) (ap parent_chan mine) (waits2 i w).0)

  pub die-IsSane : IsSane (exit_zombie k cur)
  unfolding exit_zombie
  die-IsSane = record {
    init = s.init;
    orphan = ground (arith, parent2 k.initproc s.init, init_free, s.orphan);
    lives = ground (arith, state2 k.initproc, s.lives);
    own = λ j. ground (arith, own2 j);
    awake = λ i j h. ground (arith, awake2 i j h, awake_cur i);
    inside = λ i. ground (arith, s.inside i, waits2 i);
  }
