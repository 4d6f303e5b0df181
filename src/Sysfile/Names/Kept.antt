-- ===== src/Sysfile/Names/Kept.antt =====
-- The system calls of sysfile.c on path names leave `log.outstanding` as it was before `begin_op`.
use chameleon_os.Base.{
  ℕ, zero, suc, ◌+◌, ◌^◌, ◌<◌, Option, none, some, true, false, List, ◌==◌, if◌then◌else◌,
  replicate,
}
use chameleon_os.Base.Machine.{uint_add}
use chameleon_os.Fs.Disk.{Fs}
use chameleon_os.Fs.Map.{t_dir, t_dev, Transfer, moved, denied, passed_on}
use chameleon_os.Fs.Map.Kept.{iupdate-Keeps, writei-Gives}
use chameleon_os.Fs.Cache.Kept.{ialloc-Gives}
use chameleon_os.Fs.Kept.{Open}
use chameleon_os.Fs.Lock.{done, panicked, ◌>>=◌, iunlockput}
use chameleon_os.Fs.Lock.Kept.{
  Leaves, Yields, Leaves-bind, Leaves-then, Yields-bind, Yields-if, Yields-call, Yields-then,
  Yields-option, yields_rules, lock_rules, ilock-Leaves, iunlockput-Leaves,
}
use chameleon_os.Fs.Dir.{dirent_size}
use chameleon_os.Fs.Dir.Kept.{read_dirent-Gives, dirlookup-Gives}
use chameleon_os.Fs.Name.Kept.{dirlink-Yields, namex-Yields}
use chameleon_os.Sysfile.Names.{
  link_entry, undo_link, link, empty_from, erase, unlink_bad, unlink_entry, unlink, add_dots,
  create_entry, create, leave, mkdir, mknod, enter,
}
use chameleon_os.Sysfile.Names.Ends.{
  Ends, Ends-bind, Ends-if, Ends-then, Ends-option, leave-Ends, begun_Yields, ends_rules,
}

pub ruleset name_rules =
    (lock_rules, dirlink-Yields, namex-Yields, iupdate-Keeps, dirlookup-Gives, ialloc-Gives)

link_entry-Yields :
    (n : ℕ) (fs : Fs) (pid cwd ip : ℕ) (path : List ℕ)
    → Open n fs
    → Yields n (link_entry fs pid cwd ip path)
unfolding link_entry
link_entry-Yields n fs pid cwd ip path h =
    Yields-then _ _ (namex-Yields n fs pid cwd path true h) (λ fs1 found h1.
      Yields-option found _ _ (Yields.yielded _ _ h1) (λ (dp, name). search name_rules depth 9))

undo_link-Ends :
    (n : ℕ) (fs : Fs) (pid ip : ℕ)
    → n < 2 ^ 32
    → Open (uint_add n 1) fs
    → Ends n (undo_link fs pid ip)
unfolding undo_link
undo_link-Ends n fs pid ip lt h = search (name_rules, ends_rules) depth 9

pub link-Yields :
    (n : ℕ) (fs : Fs) (pid cwd : ℕ) (old new : List ℕ)
    → n < 2 ^ 32
    → Open n fs
    → Yields n (link fs pid cwd old new)
unfolding link
link-Yields n fs pid cwd old new lt h = begun_Yields fs _ h (λ fs0 h0.
    Ends-then _ _ (namex-Yields _ fs0 pid cwd old false h0) (λ fs1 found h1.
      Ends-option found (leave fs1 false) _ (leave-Ends fs1 false lt h1) (λ (ip, name).
        search (name_rules, ends_rules, link_entry-Yields, undo_link-Ends) depth 14)))

empty_from-Yields : (n : ℕ) (fs : Fs) (dp off k : ℕ) → Open n fs → Yields n (empty_from fs dp off k)
unfolding empty_from
empty_from-Yields n fs dp off zero h = Yields.yielded _ _ h
empty_from-Yields n fs dp off (suc k) h =
    Yields-then _ _ (Yields-call _ (read_dirent-Gives n fs dp off h)) (λ fs1 de h1.
      let rest = empty_from-Yields n fs1 dp (off + dirent_size) k h1 in search yields_rules)

erased_Leaves :
    (n : ℕ) (fs : Fs) (r : Transfer ℕ)
    → Open n fs
    → Leaves n (elim r [
      | moved m ↦ if m == dirent_size then done fs else panicked
      | denied ↦ panicked
      | passed_on major ↦ panicked
    ])
erased_Leaves n fs (moved m) h = search yields_rules
erased_Leaves n fs denied h = search yields_rules
erased_Leaves n fs (passed_on major) h = search yields_rules

erase-Leaves : (n : ℕ) (fs : Fs) (dp off : ℕ) → Open n fs → Leaves n (erase fs dp off)
unfolding erase
erase-Leaves n fs dp off h =
    Leaves-then _ _ (Yields-call _ (writei-Gives n fs dp (replicate dirent_size 0) off h))
      (λ fs1 r h1. erased_Leaves n fs1 r h1)

unlink_bad-Ends :
    (n : ℕ) (fs : Fs) (pid dp : ℕ)
    → n < 2 ^ 32
    → Open (uint_add n 1) fs
    → Ends n (unlink_bad fs pid dp)
unfolding unlink_bad
unlink_bad-Ends n fs pid dp lt h = search (name_rules, ends_rules) depth 9

unlink_entry-Ends :
    (n : ℕ) (fs : Fs) (pid dp ip off : ℕ)
    → n < 2 ^ 32
    → Open (uint_add n 1) fs
    → Ends n (unlink_entry fs pid dp ip off)
unfolding unlink_entry
unlink_entry-Ends n fs pid dp ip off lt h =
    search (name_rules, ends_rules, Ends.ends, empty_from-Yields, erase-Leaves, unlink_bad-Ends)
      depth 16

pub unlink-Yields :
    (n : ℕ) (fs : Fs) (pid cwd : ℕ) (path : List ℕ)
    → n < 2 ^ 32
    → Open n fs
    → Yields n (unlink fs pid cwd path)
unfolding unlink
unlink-Yields n fs pid cwd path lt h = begun_Yields fs _ h (λ fs0 h0.
    Ends-then _ _ (namex-Yields _ fs0 pid cwd path true h0) (λ fs1 found h1.
      Ends-option found (leave fs1 false) _ (leave-Ends fs1 false lt h1) (λ (dp, name).
        Ends-bind _ _ (ilock-Leaves _ fs1 pid dp h1) (λ fs2 h2.
          Ends-if _ (unlink_bad fs2 pid dp) _ (unlink_bad-Ends n fs2 pid dp lt h2) (
            Ends-then _ _ (Yields-call _ (dirlookup-Gives _ fs2 dp name h2)) (λ fs3 entry h3.
              Ends-option entry (unlink_bad fs3 pid dp) _ (unlink_bad-Ends n fs3 pid dp lt h3)
                (λ (ip, off). search (name_rules, ends_rules, unlink_entry-Ends))))))))

add_dots-Leaves : (n : ℕ) (fs : Fs) (pid dp ip : ℕ) → Open n fs → Leaves n (add_dots fs pid dp ip)
unfolding add_dots
add_dots-Leaves n fs pid dp ip h = search name_rules depth 12

create_entry-Yields :
    (n : ℕ) (fs : Fs) (pid dp : ℕ) (name : List ℕ) (type major minor : ℕ)
    → Open n fs
    → Yields n (create_entry fs pid dp name type major minor)
unfolding create_entry
create_entry-Yields n fs pid dp name type major minor h =
    search (name_rules, add_dots-Leaves) depth 14

pub create-Yields :
    (n : ℕ) (fs : Fs) (pid cwd : ℕ) (path : List ℕ) (type major minor : ℕ)
    → Open n fs
    → Yields n (create fs pid cwd path type major minor)
unfolding create
create-Yields n fs pid cwd path type major minor h =
    Yields-then _ _ (namex-Yields n fs pid cwd path true h) (λ fs1 found h1.
      Yields-option found _ _ (Yields.yielded _ _ h1) (λ (dp, name).
        Yields-bind _ _ (ilock-Leaves n fs1 pid dp h1) (λ fs2 h2.
          Yields-then _ _ (Yields-call _ (dirlookup-Gives n fs2 dp name h2)) (λ fs3 entry h3.
            Yields-option entry _ _ (create_entry-Yields n fs3 pid dp name type major minor h3)
              (λ (ip, off). search name_rules depth 9)))))

made-Ends :
    (n : ℕ) (fs : Fs) (pid : ℕ) (new : Option ℕ)
    → n < 2 ^ 32
    → Open (uint_add n 1) fs
    → Ends n (elim new [
      | none ↦ leave fs false
      | some ip ↦ do fs1 ← iunlockput fs pid ip; leave fs1 true
    ])
made-Ends n fs pid none lt h = leave-Ends fs false lt h
made-Ends n fs pid (some ip) lt h = search (name_rules, ends_rules)

pub mkdir-Yields :
    (n : ℕ) (fs : Fs) (pid cwd : ℕ) (path : Option (List ℕ))
    → n < 2 ^ 32
    → Open n fs
    → Yields n (mkdir fs pid cwd path)
unfolding mkdir
mkdir-Yields n fs pid cwd path lt h = begun_Yields fs _ h (λ fs1 h1.
    Ends-then _ _
      (Yields-option path (done (fs1, none)) _ (Yields.yielded fs1 none h1)
        (λ p. create-Yields _ fs1 pid cwd p t_dir 0 0 h1))
      (λ fs2 new h2. made-Ends n fs2 pid new lt h2))

pub mknod-Yields :
    (n : ℕ) (fs : Fs) (pid cwd : ℕ) (args : Option (List ℕ × ℕ × ℕ))
    → n < 2 ^ 32
    → Open n fs
    → Yields n (mknod fs pid cwd args)
unfolding mknod
mknod-Yields n fs pid cwd args lt h = begun_Yields fs _ h (λ fs1 h1.
    Ends-then _ _
      (Yields-option args (done (fs1, none)) _ (Yields.yielded fs1 none h1)
        (λ (path, major, minor). create-Yields _ fs1 pid cwd path t_dev major minor h1))
      (λ fs2 new h2. made-Ends n fs2 pid new lt h2))

pub enter-Yields :
    (n : ℕ) (fs : Fs) (pid cwd : ℕ) (path : Option (List ℕ))
    → n < 2 ^ 32
    → Open n fs
    → Yields n (enter fs pid cwd path)
unfolding enter
enter-Yields n fs pid cwd path lt h = begun_Yields fs _ h (λ fs1 h1.
    Ends-then _ _
      (Yields-option path (done (fs1, none)) _ (Yields.yielded fs1 none h1)
        (λ p. namex-Yields _ fs1 pid cwd p false h1))
      (λ fs2 found h2.
        Ends-option found (leave fs2 none) _ (leave-Ends fs2 none lt h2)
          (λ (ip, name). search (name_rules, ends_rules) depth 12)))
