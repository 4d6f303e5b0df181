-- ===== src/Sysfile/Names/Balance.antt =====
-- The system calls of sysfile.c end the transactions that they begin.
use chameleon_os.Base.{
  ℕ, ◌^◌, ◌<◌, ◌≡◌, refl, sym, ◌∙◌, ap, subst, inl, inr, Bool, true, false, if◌then◌else◌, Option,
  none, some, List, arith, Option-cases, some-injective,
}
use chameleon_os.Base.Machine.{Run-cases, uint_add}
use chameleon_os.File.{Release, nothing, close_pipe, put_inode, filealloc, fileclose}
use chameleon_os.Syscall.{argint}
use chameleon_os.Fs.Disk.{Fs}
use chameleon_os.Fs.Kept.{Open}
use chameleon_os.Fs.Lock.{Outcome, done, panicked, asleep, done-injective, ◌>>=◌, call, iunlockput}
use chameleon_os.Fs.Lock.Kept.{
  Leaves, Yields, iput-Leaves, ilock-Leaves, iunlock-Leaves, iunlockput-Leaves,
}
use chameleon_os.Fs.Name.Kept.{namex-Yields}
use chameleon_os.Sysfile.{Task, free_fd, fdalloc, release, close_file, sys_close}
use chameleon_os.Sysfile.Args.{nofile, argfd, argpath}
use chameleon_os.Sysfile.Names.{
  on_fs, with_status, leave, t_file, o_create, node_args, open_file, open_path, sys_link,
  sys_unlink, sys_open, sys_mkdir, sys_mknod, sys_chdir,
}
use chameleon_os.Sysfile.Names.Ends.{
  start_op-Leaves, finish_op-Leaves, Ends-bind, leave-Ends, ended_Yields,
}
use chameleon_os.Sysfile.Names.Kept.{
  create-Yields, link-Yields, unlink-Yields, mkdir-Yields, mknod-Yields, enter-Yields,
}

-- `n` operations are outstanding when the call returns, if it does.
pub data Returns (n : ℕ) {A : Type 0} : Outcome (Task × A) → Type 0 where
  returned : (t : Task) (a : A) → Open n t.fs → Returns n (done (t, a))
  stopped : Returns n panicked
  sleeps : Returns n asleep

pub data Settles (n : ℕ) : Outcome Task → Type 0 where
  settled : (t : Task) → Open n t.fs → Settles n (done t)
  stopped : Settles n panicked
  sleeps : Settles n asleep

module _ {n : ℕ} {A : Type 0} where
  on_fs-Returns : (t : Task) (m : Outcome (Fs × A)) → Yields n m → Returns n (on_fs t m)
  on_fs-Returns t _ (Yields.yielded fs a h) = Returns.returned _ a h
  on_fs-Returns t _ Yields.stopped = Returns.stopped
  on_fs-Returns t _ Yields.sleeps = Returns.sleeps

module _ {n m : ℕ} {A : Type 0} where
  Returns-bind :
      (o : Outcome Task) (f : Task → Outcome (Task × A))
      → Settles n o
      → ((t : Task) → Open n t.fs → Returns m (f t))
      → Returns m (o >>= f)
  Returns-bind _ f (Settles.settled t h) k = k t h
  Returns-bind _ f Settles.stopped k = Returns.stopped
  Returns-bind _ f Settles.sleeps k = Returns.sleeps

-- The number may change on the way.
module _ {n m : ℕ} {A : Type 0} where
  Returns-after :
      (o : Outcome Fs) (f : Fs → Outcome (Task × A))
      → Leaves n o
      → ((fs : Fs) → Open n fs → Returns m (f fs))
      → Returns m (o >>= f)
  Returns-after _ f (Leaves.left fs h) k = k fs h
  Returns-after _ f Leaves.stopped k = Returns.stopped
  Returns-after _ f Leaves.sleeps k = Returns.sleeps

module _ {n m : ℕ} where
  Settles-after :
      (o : Outcome Fs) (f : Fs → Outcome Task)
      → Leaves n o
      → ((fs : Fs) → Open n fs → Settles m (f fs))
      → Settles m (o >>= f)
  Settles-after _ f (Leaves.left fs h) k = k fs h
  Settles-after _ f Leaves.stopped k = Settles.stopped
  Settles-after _ f Leaves.sleeps k = Settles.sleeps

module _ {n m : ℕ} {A B : Type 0} where
  Returns-then :
      (o : Outcome (Task × A)) (f : Task × A → Outcome (Task × B))
      → Returns n o
      → ((t : Task) (a : A) → Open n t.fs → Returns m (f (t, a)))
      → Returns m (o >>= f)
  Returns-then _ f (Returns.returned t a h) k = k t a h
  Returns-then _ f Returns.stopped k = Returns.stopped
  Returns-then _ f Returns.sleeps k = Returns.sleeps

module _ {n : ℕ} {A B : Type 0} where
  Returns-option :
      (o : Option B) (m : Outcome (Task × A)) (f : B → Outcome (Task × A))
      → Returns n m
      → ((b : B) → Returns n (f b))
      → Returns n (elim o [ none ↦ m | some b ↦ f b ])
  Returns-option none m f k k' = k
  Returns-option (some b) m f k k' = k' b

module _ {n : ℕ} {A : Type 0} where
  Returns-if :
      (b : Bool) (m m' : Outcome (Task × A))
      → Returns n m
      → Returns n m'
      → Returns n (if b then m else m')
  Returns-if true m m' k k' = k
  Returns-if false m m' k k' = k'

done_Open :
    (n : ℕ) {A : Type 0} (m : Outcome (Task × A)) (t : Task) (a : A)
    → Returns n m
    → m ≡ done (t, a)
    → Open n t.fs
done_Open n {A} _ t a (Returns.returned t' a' h) e =
    subst (λ (t : Task). Open n t.fs) (ap (λ (r : Task × A). r.0) (done-injective e)) h
done_Open n _ t a Returns.stopped e = cc
done_Open n _ t a Returns.sleeps e = cc

release-Settles :
    (n : ℕ) (t : Task) (r : Release) → n < 2 ^ 32 → Open n t.fs → Settles n (release t r)
unfolding release
release-Settles n t nothing lt h = Settles.settled t h
release-Settles n t (close_pipe p writable) lt h = Settles.settled _ h
release-Settles n t (put_inode ip) lt h = Settles-after _ _ (start_op-Leaves n t.fs h) (λ fs1 h1.
    Settles-after _ _ (iput-Leaves _ fs1 t.pid ip h1)
      (λ fs2 h2. Settles-after _ _ (finish_op-Leaves n fs2 lt h2) (λ fs3 h3. Settles.settled _ h3)))

close_file-Settles :
    (n : ℕ) (t : Task) (f : ℕ) → n < 2 ^ 32 → Open n t.fs → Settles n (close_file t f)
unfolding close_file
close_file-Settles n t f lt h = elim (Run-cases (fileclose t.files f)) [
  | inl e ↦ rw (close_file, call, e) Settles.stopped
  | inr ((files, r), e) ↦
      rw (close_file, call, e) (release-Settles n (record t { files = files }) r lt h)
]

leave-Returns :
    {A : Type 0} (n : ℕ) (t : Task) (r : A)
    → n < 2 ^ 32
    → Open (uint_add n 1) t.fs
    → Returns n (on_fs t (leave t.fs r))
leave-Returns n t r lt h = on_fs-Returns t _ (ended_Yields _ (leave-Ends t.fs r lt h))

-- The ways out of `sys_open` that give the inode back.
put_back-Returns :
    {A : Type 0} (n : ℕ) (t : Task) (fs : Fs) (pid ip : ℕ) (r : A)
    → n < 2 ^ 32
    → Open (uint_add n 1) fs
    → Returns n (on_fs t (do fs1 ← iunlockput fs pid ip; leave fs1 r))
put_back-Returns n t fs pid ip r lt h = on_fs-Returns t _ (
    ended_Yields _
      (Ends-bind _ _ (iunlockput-Leaves _ fs pid ip h) (λ fs1 h1. leave-Ends fs1 r lt h1)))

fdalloc-fs : (t t1 : Task) (f fd : ℕ) → fdalloc t f ≡ some (t1, fd) → t1.fs ≡ t.fs
unfolding fdalloc
fdalloc-fs t t1 f fd e = elim (Option-cases (free_fd t.ofile 0 nofile)) [
  | inl q ↦ absurd (cc (rw (fdalloc, q) at e))
  | inr (i, q) ↦ sym (ap (λ (r : Task × ℕ). r.0.fs) (some-injective (rw (fdalloc, q) at e)))
]

open_file-Returns :
    (n : ℕ) (t : Task) (ip omode : ℕ)
    → n < 2 ^ 32
    → Open (uint_add n 1) t.fs
    → Returns n (open_file t ip omode)
unfolding open_file
open_file-Returns n t ip omode lt h = elim (Option-cases (filealloc t.files)) [
  | inl e ↦ rw (open_file, e) (put_back-Returns n t t.fs t.pid ip none lt h)
  | inr ((f, files), e) ↦
      rw (open_file, e)
        (elim (Option-cases (fdalloc (record t { files = files }) f)) [
          | inl e' ↦ rw e' (
              Returns-bind _ _
                (close_file-Settles (uint_add n 1) (record t { files = files }) f (omega arith) h)
                (λ t1 h1. put_back-Returns n t1 t1.fs t.pid ip none lt h1))
          | inr ((t1, fd), e') ↦
              let same =
                ap (λ (fs : Fs). fs.log.outstanding)
                  (fdalloc-fs (record t { files = files }) t1 f fd e') in
              rw e' (
                Returns-after _ _ (iunlock-Leaves _ t1.fs t.pid ip (same ∙ h)) (λ fs1 h1.
                  Returns-after _ _ (finish_op-Leaves n fs1 lt h1)
                    (λ fs2 h2. Returns.returned _ _ h2)))
        ])
]

open_path-Returns :
    (n : ℕ) (t : Task) (path : List ℕ) (omode : ℕ)
    → n < 2 ^ 32
    → Open (uint_add n 1) t.fs
    → Returns n (open_path t path omode)
unfolding open_path
open_path-Returns n t path omode lt h =
    Returns-if (o_create omode) _ _
      (Returns-then _ _ (on_fs-Returns t _ (create-Yields _ t.fs t.pid t.cwd path t_file 0 0 h))
        (λ t1 new h1.
          Returns-option new _ _ (leave-Returns n t1 none lt h1)
            (λ ip. open_file-Returns n t1 ip omode lt h1)))
      (Returns-then _ _ (on_fs-Returns t _ (namex-Yields _ t.fs t.pid t.cwd path false h))
        (λ t1 found h1. Returns-option found _ _ (leave-Returns n t1 none lt h1) (λ (ip, name).
          Returns-after _ _ (ilock-Leaves _ t1.fs t.pid ip h1) (λ fs2 h2.
            Returns-if _ _ _ (put_back-Returns n t1 fs2 t.pid ip none lt h2)
              (open_file-Returns n (record t1 { fs = fs2 }) ip omode lt h2)))))

-- The system calls on path names, and `close`, whose last reference to a file is a transaction too.
pub data PathCall : Type 0 where
  call_link call_unlink call_open call_mkdir call_mknod call_chdir call_close : PathCall

abbrev pub path_call : PathCall → Task → Outcome (Task × Option ℕ)
path_call call_link t = sys_link t
path_call call_unlink t = sys_unlink t
path_call call_open t = sys_open t
path_call call_mkdir t = sys_mkdir t
path_call call_mknod t = sys_mknod t
path_call call_chdir t = sys_chdir t
path_call call_close t = sys_close t

status_Returns : (n : ℕ) (m : Outcome (Task × Bool)) → Returns n m → Returns n (with_status m)
status_Returns n m k = Returns-then _ _ k (λ t b h. Returns.returned t _ h)

path_call-Returns :
    (n : ℕ) (c : PathCall) (t : Task) → n < 2 ^ 32 → Open n t.fs → Returns n (path_call c t)
unfolding sys_link sys_unlink sys_open sys_mkdir sys_mknod sys_chdir sys_close
path_call-Returns n call_link t lt h =
    Returns-option (argpath t.user 0) _ _ (Returns.returned t none h) (λ old.
      Returns-option (argpath t.user 1) _ _ (Returns.returned t none h) (λ new.
        status_Returns n _ (on_fs-Returns t _ (link-Yields n t.fs t.pid t.cwd old new lt h))))
path_call-Returns n call_unlink t lt h =
    Returns-option (argpath t.user 0) _ _ (Returns.returned t none h)
      (λ path. status_Returns n _ (on_fs-Returns t _ (unlink-Yields n t.fs t.pid t.cwd path lt h)))
path_call-Returns n call_open t lt h =
    Returns-option (argpath t.user 0) _ _ (Returns.returned t none h) (λ path.
      Returns-option (argint t.user 1) _ _ (Returns.returned t none h) (λ omode.
        Returns-after _ _ (start_op-Leaves n t.fs h)
          (λ fs1 h1. open_path-Returns n (record t { fs = fs1 }) path omode lt h1)))
path_call-Returns n call_mkdir t lt h =
    status_Returns n _ (on_fs-Returns t _ (mkdir-Yields n t.fs t.pid t.cwd (argpath t.user 0) lt h))
path_call-Returns n call_mknod t lt h =
    status_Returns n _ (on_fs-Returns t _ (mknod-Yields n t.fs t.pid t.cwd (node_args t.user) lt h))
path_call-Returns n call_chdir t lt h =
    Returns-then _ _ (on_fs-Returns t _ (enter-Yields n t.fs t.pid t.cwd (argpath t.user 0) lt h))
      (λ t1 r h1.
        Returns-option r _ _ (Returns.returned t1 none h1) (λ ip. Returns.returned _ _ h1))
path_call-Returns n call_close t lt h =
    Returns-option (argfd t.user t.ofile 0) _ _ (Returns.returned t none h) (λ (fd, f).
      Returns-bind _ _ (close_file-Settles n _ f lt h) (λ t1 h1. Returns.returned t1 _ h1))

-- Whatever path, modes and state `link`, `unlink`, `open`, `mkdir`, `mknod`, `chdir` or `close` is
-- called with, when it returns, with 0, a descriptor or -1, as many operations are outstanding in the
-- log as before: it has ended each transaction that it began, on every way out.
pub path_call_lem :
    (c : PathCall) (t t' : Task) (r : Option ℕ)
    → t.fs.log.outstanding < 2 ^ 32
    → path_call c t ≡ done (t', r)
    → t'.fs.log.outstanding ≡ t.fs.log.outstanding
path_call_lem c t t' r lt e =
    done_Open t.fs.log.outstanding (path_call c t) t' r
      (path_call-Returns t.fs.log.outstanding c t lt refl) e
