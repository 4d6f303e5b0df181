-- ===== src/Sysfile/Names/Ends.antt =====
-- Code of sysfile.c inside a transaction that also ends it: rules, with the numbers of `log.outstanding`.
use chameleon_os.Base.{
  ℕ, ◌^◌, ◌<◌, ◌∙◌, ap, inl, inr, Bool, true, false, Option, none, some, arith, if◌then◌else◌,
  Bool-cases,
}
use chameleon_os.Base.Machine.{Run-cases, uint_add, uint_sub}
use chameleon_os.Log.{begin_op, end_op}
use chameleon_os.Log.Count.{begin_op-outstanding, end_op-outstanding}
use chameleon_os.Fs.Disk.{Fs}
use chameleon_os.Fs.Kept.{Open}
use chameleon_os.Fs.Io.{start_op, finish_op}
use chameleon_os.Fs.Lock.{Outcome, done, ◌>>=◌, call}
use chameleon_os.Fs.Lock.Kept.{Leaves, Yields}
use chameleon_os.Sysfile.Names.{leave}

pub start_op-Leaves : (n : ℕ) (fs : Fs) → Open n fs → Leaves (uint_add n 1) (start_op fs)
start_op-Leaves n fs h = elim (Bool-cases (begin_op fs.log).1) [
  | inl q ↦ rw q (Leaves.left _ (begin_op-outstanding fs.log q ∙ ap (λ m. uint_add m 1) h))
  | inr q ↦ rw q Leaves.sleeps
]

pub finish_op-Leaves :
    (n : ℕ) (fs : Fs) → n < 2 ^ 32 → Open (uint_add n 1) fs → Leaves n (call (finish_op fs))
finish_op-Leaves n fs lt h = elim (Run-cases (end_op fs.log fs.store)) [
  | inl e ↦ rw (call, e) Leaves.stopped
  | inr ((l, s), e) ↦
      rw (call, e)
        (Leaves.left _
          (end_op-outstanding fs.log l fs.store s e ∙ ap (λ m. uint_sub m 1) h ∙ omega (arith, lt)))
]

-- Run with one operation more than `n` outstanding, `m` leaves `n`, if it returns.
pub data Ends (n : ℕ) {A : Type 0} : Outcome (Fs × A) → Type 0 where
  ends : {m : Outcome (Fs × A)} → Yields n m → Ends n m

module _ {n : ℕ} {A : Type 0} where
  pub Ends-bind :
      (m : Outcome Fs) (f : Fs → Outcome (Fs × A))
      → Leaves (uint_add n 1) m
      → ((fs : Fs) → Open (uint_add n 1) fs → Ends n (f fs))
      → Ends n (m >>= f)
  Ends-bind _ f (Leaves.left fs h) k = k fs h
  Ends-bind _ f Leaves.stopped k = Ends.ends Yields.stopped
  Ends-bind _ f Leaves.sleeps k = Ends.ends Yields.sleeps

  pub Ends-if :
      (b : Bool) (m m' : Outcome (Fs × A)) → Ends n m → Ends n m' → Ends n (if b then m else m')
  Ends-if true m m' k k' = k
  Ends-if false m m' k k' = k'

  pub leave-Ends : (fs : Fs) (r : A) → n < 2 ^ 32 → Open (uint_add n 1) fs → Ends n (leave fs r)
  unfolding leave
  leave-Ends fs r lt h = ended _ r (finish_op-Leaves n fs lt h)
    where
      ended : (m : Outcome Fs) (r : A) → Leaves n m → Ends n (do fs1 ← m; done (fs1, r))
      ended _ r (Leaves.left fs h) = Ends.ends (Yields.yielded fs r h)
      ended _ r Leaves.stopped = Ends.ends Yields.stopped
      ended _ r Leaves.sleeps = Ends.ends Yields.sleeps

  pub ended_Yields : (m : Outcome (Fs × A)) → Ends n m → Yields n m
  ended_Yields m (Ends.ends y) = y

  -- A transaction from its `begin_op` on.
  pub begun_Yields :
      (fs : Fs) (f : Fs → Outcome (Fs × A))
      → Open n fs
      → ((fs : Fs) → Open (uint_add n 1) fs → Ends n (f fs))
      → Yields n (start_op fs >>= f)
  begun_Yields fs f h k = ended_Yields _ (Ends-bind _ f (start_op-Leaves n fs h) k)

module _ {n : ℕ} {A B : Type 0} where
  pub Ends-then :
      (m : Outcome (Fs × A)) (f : Fs × A → Outcome (Fs × B))
      → Yields (uint_add n 1) m
      → ((fs : Fs) (a : A) → Open (uint_add n 1) fs → Ends n (f (fs, a)))
      → Ends n (m >>= f)
  Ends-then _ f (Yields.yielded fs a h) k = k fs a h
  Ends-then _ f Yields.stopped k = Ends.ends Yields.stopped
  Ends-then _ f Yields.sleeps k = Ends.ends Yields.sleeps

  pub Ends-option :
      (o : Option B) (m : Outcome (Fs × A)) (f : B → Outcome (Fs × A))
      → Ends n m
      → ((b : B) → Ends n (f b))
      → Ends n (elim o [ none ↦ m | some b ↦ f b ])
  Ends-option none m f k k' = k
  Ends-option (some b) m f k k' = k' b

pub ruleset ends_rules = (Ends-bind, Ends-if, leave-Ends, Ends-then, Ends-option)
