-- ===== src/Fs/Name.antt =====
-- Names of fs.c: `dirlink`, `namex`, `namei` and `nameiparent`, each run by the process `pid`.
pub mod Walk
pub mod Kept
mod Examples
use chameleon_os.Base.{
  ℕ, zero, suc, Bool, true, false, ◌&&◌, not, Option, none, some, List, [], ◌∷◌, ◌==◌,
  if◌then◌else◌, length,
}
use chameleon_os.Path.{skipelem}
use chameleon_os.Fs.Disk.{Fs, Inode}
use chameleon_os.Fs.Map.{t_dir}
use chameleon_os.Fs.Cache.{iget, idup}
use chameleon_os.Fs.Lock.{
  Outcome, done, panicked, asleep, ◌>>=◌, call, ilock, iunlock, iput, iunlockput,
}
use chameleon_os.Fs.Dir.{dirlookup, add_entry}

-- The flag says that the result is 0, not -1.
pub dirlink : Fs → ℕ → ℕ → List ℕ → ℕ → Outcome (Fs × Bool)
dirlink fs pid dp name inum = do
  (fs1, found) ← call (dirlookup fs dp name)
  elim found [
    | some (ip, off) ↦ do fs2 ← iput fs1 pid ip; done (fs2, false)
    | none ↦ do fs2 ← call (add_entry fs1 dp name inum); done (fs2, true)
  ]

abbrev pub rootdev : ℕ
rootdev = 1

abbrev pub rootino : ℕ
rootino = 1

abbrev pub is_empty : List ℕ → Bool
is_empty [] = true
is_empty (c ∷ cs) = false

-- The loop of `namex` at inode `ip`; none stands for 0. `name` is what the name buffer holds.
unfoldable pub walk : Fs → ℕ → ℕ → List ℕ → Bool → List ℕ → ℕ → Outcome (Fs × Option (ℕ × List ℕ))
walk fs pid ip path parent name zero = done (fs, none)
walk fs pid ip path parent name (suc fuel) = elim (skipelem path) [
  | none ↦
      if parent then (do fs1 ← iput fs pid ip; done (fs1, none)) else done (fs, some (ip, name))
  | some (elem, rest) ↦ do
    fs1 ← ilock fs pid ip
    if not ((fs1.inode ip).type == t_dir)
        then (do fs2 ← iunlockput fs1 pid ip; done (fs2, none))
        else if parent && is_empty rest
        then (do fs2 ← iunlock fs1 pid ip; done (fs2, some (ip, elem)))
        else (do
          (fs2, found) ← call (dirlookup fs1 ip elem)
          fs3 ← iunlockput fs2 pid ip
          elim found [
            | none ↦ done (fs3, none)
            | some (next, off) ↦ walk fs3 pid next rest parent elem fuel
          ])
]

-- `*path == '/'`
abbrev pub is_absolute : List ℕ → Bool
is_absolute [] = false
is_absolute (c ∷ cs) = c == b'/'

-- `cwd` is `myproc()->cwd`.
unfoldable pub namex : Fs → ℕ → ℕ → List ℕ → Bool → Outcome (Fs × Option (ℕ × List ℕ))
namex fs pid cwd path parent = do
  (fs1, ip) ← if is_absolute path then call (iget fs rootdev rootino) else done (idup fs cwd, cwd)
  walk fs1 pid ip path parent [] (suc (length path))

abbrev pub namei : Fs → ℕ → ℕ → List ℕ → Outcome (Fs × Option (ℕ × List ℕ))
namei fs pid cwd path = namex fs pid cwd path false

abbrev pub nameiparent : Fs → ℕ → ℕ → List ℕ → Outcome (Fs × Option (ℕ × List ℕ))
nameiparent fs pid cwd path = namex fs pid cwd path true
