-- ===== src/Fs/Name/Kept.antt =====
-- Names of fs.c: `dirlink` and `namex` leave `log.outstanding` alone.
use chameleon_os.Base.{ℕ, zero, suc, inl, inr, Bool, none, some, List, Option-cases}
use chameleon_os.Path.{skipelem}
use chameleon_os.Fs.Disk.{Fs}
use chameleon_os.Fs.Cache.Kept.{iget-Gives, idup-Open}
use chameleon_os.Fs.Dir.Kept.{dirlookup-Gives, add_entry-Keeps}
use chameleon_os.Fs.Kept.{Open}
use chameleon_os.Fs.Lock.{done, ◌>>=◌, iunlock, iunlockput}
use chameleon_os.Fs.Lock.Kept.{
  Yields, Yields-bind, Yields-if, Yields-call, Yields-then, Yields-option, yields_rules, lock_rules,
  ilock-Leaves, iunlockput-Leaves,
}
use chameleon_os.Fs.Name.{dirlink, walk, namex}

pub dirlink-Yields :
    (n : ℕ) (fs : Fs) (pid dp : ℕ) (name : List ℕ) (inum : ℕ)
    → Open n fs
    → Yields n (dirlink fs pid dp name inum)
unfolding dirlink
dirlink-Yields n fs pid dp name inum h =
    Yields-then _ _ (Yields-call _ (dirlookup-Gives n fs dp name h)) (λ fs1 found h1.
      Yields-option found _ _ (search (lock_rules, add_entry-Keeps))
        (λ (ip, off). search lock_rules))

walk-Yields :
    (n : ℕ) (fs : Fs) (pid ip : ℕ) (path : List ℕ) (parent : Bool) (name : List ℕ) (k : ℕ)
    → Open n fs
    → Yields n (walk fs pid ip path parent name k)
unfolding walk
walk-Yields n fs pid ip path parent name zero h = search lock_rules
walk-Yields n fs pid ip path parent name (suc k) h = elim (Option-cases (skipelem path)) [
  | inl e ↦ rw (walk, e) (search lock_rules)
  | inr ((elem, rest), e) ↦
      let later : (fs : Fs) (ip : ℕ) (name : List ℕ)
          → Open n fs
          → Yields n (walk fs pid ip rest parent name k) =
        λ fs ip name h. walk-Yields n fs pid ip rest parent name k h in
      rw (walk, e)
        (Yields-bind _ _ (ilock-Leaves n fs pid ip h) (λ fs1 h1.
          Yields-if _ (do fs2 ← iunlockput fs1 pid ip; done (fs2, none)) _ (search lock_rules)
            (Yields-if _ (do fs2 ← iunlock fs1 pid ip; done (fs2, some (ip, elem))) _
              (search lock_rules)
              (Yields-then _ _ (Yields-call _ (dirlookup-Gives n fs1 ip elem h1)) (λ fs2 found h2.
                Yields-bind _ _ (iunlockput-Leaves n fs2 pid ip h2) (λ fs3 h3.
                  Yields-option found (done (fs3, none))
                    (λ (next, off). walk fs3 pid next rest parent elem k)
                    (Yields.yielded fs3 none h3) (λ (next, off). later fs3 next elem h3)))))))
]

pub namex-Yields :
    (n : ℕ) (fs : Fs) (pid cwd : ℕ) (path : List ℕ) (parent : Bool)
    → Open n fs
    → Yields n (namex fs pid cwd path parent)
unfolding namex
namex-Yields n fs pid cwd path parent h =
    search (yields_rules, iget-Gives, idup-Open, walk-Yields) depth 9
