-- ===== src/Fs/Lock/Kept.antt =====
-- Calls that may sleep, inside a transaction: rules for those that leave `log.outstanding` alone, and
-- the locks of inodes.
use chameleon_os.Base.{
  ℕ, inl, inr, Bool, true, false, Option, none, some, if◌then◌else◌, Option-cases,
}
use chameleon_os.Base.Machine.{Run}
use chameleon_os.Fs.Disk.{Fs}
use chameleon_os.Fs.Cache.Kept.{free_inode-Keeps}
use chameleon_os.Fs.Kept.{Open, Keeps, Gives}
use chameleon_os.Fs.Lock.{
  Outcome, done, panicked, asleep, ◌>>=◌, call, ilock, iunlock, iput, iunlockput,
}

pub data Leaves (n : ℕ) : Outcome Fs → Type 0 where
  left : (fs : Fs) → Open n fs → Leaves n (done fs)
  stopped : Leaves n panicked
  sleeps : Leaves n asleep

pub data Yields (n : ℕ) {A : Type 0} : Outcome (Fs × A) → Type 0 where
  yielded : (fs : Fs) (a : A) → Open n fs → Yields n (done (fs, a))
  stopped : Yields n panicked
  sleeps : Yields n asleep

module _ {n : ℕ} where
  pub Leaves-bind :
      (m : Outcome Fs) (f : Fs → Outcome Fs)
      → Leaves n m
      → ((fs : Fs) → Open n fs → Leaves n (f fs))
      → Leaves n (m >>= f)
  Leaves-bind _ f (Leaves.left fs h) k = k fs h
  Leaves-bind _ f Leaves.stopped k = Leaves.stopped
  Leaves-bind _ f Leaves.sleeps k = Leaves.sleeps

  pub Leaves-if :
      (b : Bool) (m m' : Outcome Fs) → Leaves n m → Leaves n m' → Leaves n (if b then m else m')
  Leaves-if true m m' k k' = k
  Leaves-if false m m' k k' = k'

  pub Leaves-call : (m : Run Fs) → Keeps n m → Leaves n (call m)
  Leaves-call _ (Keeps.kept fs h) = Leaves.left fs h
  Leaves-call _ Keeps.stopped = Leaves.stopped

module _ {n : ℕ} {A : Type 0} where
  pub Yields-bind :
      (m : Outcome Fs) (f : Fs → Outcome (Fs × A))
      → Leaves n m
      → ((fs : Fs) → Open n fs → Yields n (f fs))
      → Yields n (m >>= f)
  Yields-bind _ f (Leaves.left fs h) k = k fs h
  Yields-bind _ f Leaves.stopped k = Yields.stopped
  Yields-bind _ f Leaves.sleeps k = Yields.sleeps

  pub Yields-if :
      (b : Bool) (m m' : Outcome (Fs × A))
      → Yields n m
      → Yields n m'
      → Yields n (if b then m else m')
  Yields-if true m m' k k' = k
  Yields-if false m m' k k' = k'

  pub Yields-call : (m : Run (Fs × A)) → Gives n m → Yields n (call m)
  Yields-call _ (Gives.given fs a h) = Yields.yielded fs a h
  Yields-call _ Gives.stopped = Yields.stopped

  pub Leaves-then :
      (m : Outcome (Fs × A)) (f : Fs × A → Outcome Fs)
      → Yields n m
      → ((fs : Fs) (a : A) → Open n fs → Leaves n (f (fs, a)))
      → Leaves n (m >>= f)
  Leaves-then _ f (Yields.yielded fs a h) k = k fs a h
  Leaves-then _ f Yields.stopped k = Leaves.stopped
  Leaves-then _ f Yields.sleeps k = Leaves.sleeps

module _ {n : ℕ} {A B : Type 0} where
  pub Yields-then :
      (m : Outcome (Fs × A)) (f : Fs × A → Outcome (Fs × B))
      → Yields n m
      → ((fs : Fs) (a : A) → Open n fs → Yields n (f (fs, a)))
      → Yields n (m >>= f)
  Yields-then _ f (Yields.yielded fs a h) k = k fs a h
  Yields-then _ f Yields.stopped k = Yields.stopped
  Yields-then _ f Yields.sleeps k = Yields.sleeps

  pub Yields-option :
      (o : Option B) (m : Outcome (Fs × A)) (f : B → Outcome (Fs × A))
      → Yields n m
      → ((b : B) → Yields n (f b))
      → Yields n (elim o [ none ↦ m | some b ↦ f b ])
  Yields-option none m f k k' = k
  Yields-option (some b) m f k k' = k' b

pub ruleset yields_rules = (
  Leaves.left, Leaves.stopped, Leaves.sleeps, Yields.yielded, Yields.stopped, Yields.sleeps,
  Leaves-bind, Leaves-if, Leaves-call, Yields-bind, Yields-if, Yields-call, Leaves-then,
  Yields-then, Yields-option,
)

pub ilock-Leaves : (n : ℕ) (fs : Fs) (pid ip : ℕ) → Open n fs → Leaves n (ilock fs pid ip)
unfolding ilock
ilock-Leaves n fs pid ip h = elim (Option-cases (fs.inode ip).lock) [
  | inl e ↦ rw (ilock, e) (search yields_rules)
  | inr (p, e) ↦ rw (ilock, e) (search yields_rules)
]

pub iunlock-Leaves : (n : ℕ) (fs : Fs) (pid ip : ℕ) → Open n fs → Leaves n (iunlock fs pid ip)
unfolding iunlock
iunlock-Leaves n fs pid ip h = search yields_rules

pub iput-Leaves : (n : ℕ) (fs : Fs) (pid ip : ℕ) → Open n fs → Leaves n (iput fs pid ip)
unfolding iput
iput-Leaves n fs pid ip h = elim (Option-cases (fs.inode ip).lock) [
  | inl e ↦ rw (iput, e) (search (yields_rules, free_inode-Keeps))
  | inr (p, e) ↦ rw (iput, e) (search yields_rules)
]

pub iunlockput-Leaves : (n : ℕ) (fs : Fs) (pid ip : ℕ) → Open n fs → Leaves n (iunlockput fs pid ip)
unfolding iunlockput
iunlockput-Leaves n fs pid ip h = search (yields_rules, iunlock-Leaves, iput-Leaves)

pub ruleset lock_rules =
    (yields_rules, ilock-Leaves, iunlock-Leaves, iput-Leaves, iunlockput-Leaves)
