-- ===== src/Proc/Wait.antt =====
-- `exit` and `wait` of proc.c: a parent that sleeps in `wait` is woken for every child that becomes
-- a zombie, its own or one that it inherits.
use native.Mathlib.Decide.{ℕ_discrete}
use chameleon_os.Base.{
  ℕ, zero, suc, ◌+◌, ◌<◌, ◌≤◌, ◌≡◌, refl, ◌⊎◌, inl, true, ◌&&◌, some, arith, ltb, leb,
  if◌then◌else◌,
}
use chameleon_os.Proc.{
  Proc, sleeping, runnable, zombie, Chan, proc_chan, nproc, is_child, chan_eq, wakeup1,
  reparent_one, reparent,
}

-- The process sleeps in `wait`.
abbrev pub InWait : (ℕ → Proc) → ℕ → Type 0
InWait procs i = ((procs i).state ≡ sleeping) × ((procs i).chan ≡ proc_chan i)

chan_eq_self : (i : ℕ) → chan_eq (proc_chan i) (proc_chan i) ≡ true
chan_eq_self i = ground arith

-- What `wakeup1` does to one entry.
pub wakeup1_lem :
    (c : Chan) (procs : ℕ → Proc) (j : ℕ)
    → (((wakeup1 c procs j).state ≡ (procs j).state)
        ⊎ ((procs j).state ≡ sleeping) × ((wakeup1 c procs j).state ≡ runnable))
      × ((wakeup1 c procs j).chan ≡ (procs j).chan)
      × ((wakeup1 c procs j).parent ≡ (procs j).parent)
unfolding wakeup1
wakeup1_lem c procs j = ground arith

pub wakeup1-InWait :
    (procs : ℕ → Proc) (q : ℕ) → q < nproc → ¬ InWait (wakeup1 (proc_chan q) procs) q
unfolding wakeup1
wakeup1-InWait procs q h w = ground (arith, w.0, w.1)

-- What the loop of `exit` over the entries from `i` to `i + n` does.
pub record Reparented (cur init : ℕ) (procs : ℕ → Proc) (i n : ℕ) (out : ℕ → Proc) : Type 0 where
  pub parent :
      (j : ℕ)
      → (out j).parent ≡ (
          if leb i j && ltb j (i + n) && is_child cur (procs j)
          then some init
          else (procs j).parent)
  pub state :
      (j : ℕ)
      → ((out j).state ≡ (procs j).state)
        ⊎ ((procs j).state ≡ sleeping) × ((out j).state ≡ runnable)
  pub chan : (j : ℕ) → (out j).chan ≡ (procs j).chan
  pub woken :
      (j : ℕ)
      → i ≤ j
      → j < i + n
      → is_child cur (procs j) ≡ true
      → (procs j).state ≡ zombie
      → ¬ InWait out init

reparent_one-Reparented :
    (cur init : ℕ) (procs : ℕ → Proc) (i : ℕ)
    → init < nproc
    → Reparented cur init procs i 1 (reparent_one cur init procs i)
unfolding reparent_one wakeup1
reparent_one-Reparented cur init procs i h = record {
  parent = λ j. ground arith;
  state = λ j. ground arith;
  chan = λ j. ground arith;
  woken = λ j a b child dead w. ground (arith, h, w.0, w.1);
}

pub reparent-Reparented :
    (cur init : ℕ) (procs : ℕ → Proc) (i n : ℕ)
    → init < nproc
    → Reparented cur init procs i n (reparent cur init procs i n)
unfolding reparent
reparent-Reparented cur init procs i zero h = record {
  parent = λ j. ground arith;
  state = λ j. inl refl;
  chan = λ j. refl;
  woken = λ j a b. absurd (omega arith);
}
reparent-Reparented cur init procs i (suc n) h =
    let one = reparent_one-Reparented cur init procs i h in
    let rest = reparent-Reparented cur init (reparent_one cur init procs i) (i + 1) n h in
    record {
      parent = λ j. ground (arith, one.parent j, rest.parent j);
      state = λ j. ground (arith, one.state j, rest.state j);
      chan = λ j. ground (arith, one.chan j, rest.chan j);
      woken = λ j a b child dead. elim (ℕ_discrete j i) [
        | yes e ↦ λ w.
            one.woken j a (omega arith) child dead
              (ground (arith, rest.state init), ground (arith, rest.chan init))
        | no ne ↦
            rest.woken j (omega arith) (omega arith) (ground (arith, one.parent j))
              (ground (arith, one.state j))
      ];
    }
