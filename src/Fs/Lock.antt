-- ===== src/Fs/Lock.antt =====
-- The locks of in-memory inodes in fs.c: `ilock`, `iunlock`, `iput` and `iunlockput`, each run by the
-- process `pid`.
pub mod Trip
pub mod Kept
mod Examples
use chameleon_os.Base.{
  ℕ, ◌-◌, ◌^◌, ◌≡◌, Bool, true, false, not, ◌&&◌, ◌||◌, Option, none, some, ◌==◌, ltb,
  if◌then◌else◌, update,
}
use chameleon_os.Base.Machine.{Run, ok, panic, uint_sub}
use chameleon_os.Fs.Disk.{Fs, Inode, block}
use chameleon_os.Fs.Inode.{iblock, get_dinode, set_inode}
use chameleon_os.Fs.Cache.{is_referenced, free_inode}

-- A call ends with a result, in a panic, or asleep on a lock that another process holds.
pub data Outcome {ℓ} (A : Type ℓ) : Type ℓ where
  done : A → Outcome A
  panicked : Outcome A
  asleep : Outcome A

infixl 5 ◌>>=◌
abbrev pub ◌>>=◌ {ℓ κ} : {A : Type ℓ} {B : Type κ} → Outcome A → (A → Outcome B) → Outcome B
done a >>= f = f a
panicked >>= f = panicked
asleep >>= f = asleep

pub done-injective {ℓ} : {A : Type ℓ} {a b : A} → ◌≡◌ {A = Outcome A} (done a) (done b) → a ≡ b
done-injective h = cc

-- A call that takes no lock.
abbrev pub call {ℓ} : {A : Type ℓ} → Run A → Outcome A
call (ok a) = done a
call panic = panicked

unfoldable pub ilock : Fs → ℕ → ℕ → Outcome Fs
ilock fs pid ip =
    let i = fs.inode ip in
    if not (is_referenced i) then panicked else elim i.lock [
      | some p ↦ asleep
      | none ↦
          let held = record i { lock = some pid } in
          let read = record (get_dinode (block fs (iblock fs i.inum)) i.inum held) {
            valid = true;
          } in
          if i.valid
          then done (set_inode fs ip held)
          else if read.type == 0
          then panicked
          else done (set_inode fs ip read)
    ]

abbrev pub holdingsleep : ℕ → Inode → Bool
holdingsleep pid i = elim i.lock [ none ↦ false | some p ↦ p == pid ]

unfoldable pub iunlock : Fs → ℕ → ℕ → Outcome Fs
iunlock fs pid ip =
    let i = fs.inode ip in
    if not (holdingsleep pid i) || not (is_referenced i)
    then panicked
    else done (set_inode fs ip (record i { lock = none }))

unfoldable pub iput : Fs → ℕ → ℕ → Outcome Fs
iput fs pid ip =
    let i = fs.inode ip in
    elim i.lock [
      | some p ↦ asleep
      | none ↦ do
        let fs1 = set_inode fs ip (record i { lock = some pid })
        fs2 ←
            if (i.valid && (i.nlink == 0)) && (i.ref == 1)
            then call (free_inode fs1 ip)
            else done fs1
        let i2 = fs2.inode ip
        done (set_inode fs2 ip (record i2 { lock = none; ref = uint_sub i2.ref 1 }))
    ]

unfoldable pub iunlockput : Fs → ℕ → ℕ → Outcome Fs
iunlockput fs pid ip = do fs1 ← iunlock fs pid ip; iput fs1 pid ip
