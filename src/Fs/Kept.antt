-- ===== src/Fs/Kept.antt =====
-- Functions of fs.c inside a transaction: rules for those that leave `log.outstanding` alone.
use chameleon_os.Base.{ℕ, ◌≡◌, Bool, true, false, Option, none, some, if◌then◌else◌}
use chameleon_os.Base.Machine.{Run, ok, panic, ◌>>=◌}
use chameleon_os.Fs.Disk.{Fs}

-- `n` operations are outstanding.
abbrev pub Open : ℕ → Fs → Type 0
Open n fs = fs.log.outstanding ≡ n

-- They still are when the run ends, if it does not panic.
pub data Keeps (n : ℕ) : Run Fs → Type 0 where
  kept : (fs : Fs) → Open n fs → Keeps n (ok fs)
  stopped : Keeps n panic

pub data Gives (n : ℕ) {A : Type 0} : Run (Fs × A) → Type 0 where
  given : (fs : Fs) (a : A) → Open n fs → Gives n (ok (fs, a))
  stopped : Gives n panic

module _ {n : ℕ} where
  pub Keeps-bind :
      (m : Run Fs) (f : Fs → Run Fs)
      → Keeps n m
      → ((fs : Fs) → Open n fs → Keeps n (f fs))
      → Keeps n (m >>= f)
  Keeps-bind _ f (Keeps.kept fs h) k = k fs h
  Keeps-bind _ f Keeps.stopped k = Keeps.stopped

  pub Keeps-if : (b : Bool) (m m' : Run Fs) → Keeps n m → Keeps n m' → Keeps n (if b then m else m')
  Keeps-if true m m' k k' = k
  Keeps-if false m m' k k' = k'

module _ {n : ℕ} {A : Type 0} where
  pub Gives-bind :
      (m : Run Fs) (f : Fs → Run (Fs × A))
      → Keeps n m
      → ((fs : Fs) → Open n fs → Gives n (f fs))
      → Gives n (m >>= f)
  Gives-bind _ f (Keeps.kept fs h) k = k fs h
  Gives-bind _ f Keeps.stopped k = Gives.stopped

  pub Gives-if :
      (b : Bool) (m m' : Run (Fs × A)) → Gives n m → Gives n m' → Gives n (if b then m else m')
  Gives-if true m m' k k' = k
  Gives-if false m m' k k' = k'

  pub Keeps-then :
      (m : Run (Fs × A)) (f : Fs × A → Run Fs)
      → Gives n m
      → ((fs : Fs) (a : A) → Open n fs → Keeps n (f (fs, a)))
      → Keeps n (m >>= f)
  Keeps-then _ f (Gives.given fs a h) k = k fs a h
  Keeps-then _ f Gives.stopped k = Keeps.stopped

module _ {n : ℕ} {A B : Type 0} where
  pub Gives-then :
      (m : Run (Fs × A)) (f : Fs × A → Run (Fs × B))
      → Gives n m
      → ((fs : Fs) (a : A) → Open n fs → Gives n (f (fs, a)))
      → Gives n (m >>= f)
  Gives-then _ f (Gives.given fs a h) k = k fs a h
  Gives-then _ f Gives.stopped k = Gives.stopped

module _ {n : ℕ} {A B : Type 0} where
  pub Gives-option :
      (o : Option B) (m : Run (Fs × A)) (f : B → Run (Fs × A))
      → Gives n m
      → ((b : B) → Gives n (f b))
      → Gives n (elim o [ none ↦ m | some b ↦ f b ])
  Gives-option none m f k k' = k
  Gives-option (some b) m f k k' = k' b

pub ruleset kept_rules = (
  Keeps.kept, Keeps.stopped, Gives.given, Gives.stopped, Keeps-bind, Keeps-if, Gives-bind, Gives-if,
  Keeps-then, Gives-then, Gives-option,
)
