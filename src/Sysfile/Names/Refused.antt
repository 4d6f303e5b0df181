-- ===== src/Sysfile/Names/Refused.antt =====
-- `sys_open` of sysfile.c, when it returns -1, has given back the file and the descriptor.
use chameleon_os.Base.{
  ℕ, ◌≡◌, refl, sym, ◌∙◌, ap, subst, inl, inr, Option, none, some, List, Option-cases, not, ◌&&◌,
  ◌==◌, if◌then◌else◌, Bool-cases,
}
use chameleon_os.File.{Ftable, fd_none, filealloc}
use chameleon_os.File.Dup.{fileclose-filealloc}
use chameleon_os.Syscall.{argint}
use chameleon_os.Fs.Disk.{Fs}
use chameleon_os.Fs.Io.{start_op, finish_op}
use chameleon_os.Fs.Name.{namei}
use chameleon_os.Fs.Map.{t_dir}
use chameleon_os.Fs.Lock.{
  Outcome, done, panicked, asleep, done-injective, ◌>>=◌, call, ilock, iunlock, iunlockput,
}
use chameleon_os.Sysfile.{Task, free_fd, fdalloc, release, close_file}
use chameleon_os.Sysfile.Args.{nofile, argpath}
use chameleon_os.Sysfile.Names.{
  t_file, leave, on_fs, create, o_create, open_file, open_path, sys_open,
}

>>=-eq-done :
    {A B : Type 0} (m : Outcome A) (f : A → Outcome B) {b : B}
    → m >>= f ≡ done b
    → (a : A) × (m ≡ done a) × (f a ≡ done b)
>>=-eq-done (done a) f h = (a, refl, h)
>>=-eq-done panicked f h = cc
>>=-eq-done asleep f h = cc

-- The open files of a process and the table of files.
abbrev pub open_files : Task → (ℕ → Option ℕ) × Ftable
open_files t = (t.ofile, t.files)

done_same :
    {A : Type 0} (t t' : Task) (r r' : A)
    → ◌≡◌ {A = Outcome (Task × A)} (done (t, r)) (done (t', r'))
    → open_files t' ≡ open_files t
done_same {A} t t' r r' e = sym (ap (λ (x : Task × A). open_files x.0) (done-injective e))

on_fs-same :
    {A : Type 0} (t t' : Task) (m : Outcome (Fs × A)) (r : A)
    → on_fs t m ≡ done (t', r)
    → open_files t' ≡ open_files t
on_fs-same {A} t t' m r e =
    let ((fs1, r1), p, e1) = >>=-eq-done m _ e in done_same (record t { fs = fs1 }) t' r1 r e1

close_new :
    (t : Task) (files : Ftable) (f : ℕ)
    → ((g : ℕ) → (t.files g).ref ≡ 0 → (t.files g).type ≡ fd_none)
    → filealloc t.files ≡ some (f, files)
    → close_file (record t { files = files }) f ≡ done t
unfolding close_file release
close_new t files f h e = rw (close_file, call, fileclose-filealloc t.files files f h e) refl

-- A free entry of the table of files has type FD_NONE.
abbrev FreeIsNone : Ftable → Type 0
FreeIsNone files = (g : ℕ) → (files g).ref ≡ 0 → (files g).type ≡ fd_none

open_file-same :
    (t t' : Task) (ip omode : ℕ)
    → FreeIsNone t.files
    → open_file t ip omode ≡ done (t', none)
    → open_files t' ≡ open_files t
unfolding open_file fdalloc
open_file-same t t' ip omode h e = elim (Option-cases (filealloc t.files)) [
  | inl q ↦ on_fs-same t t' _ none (rw (open_file, q) at e)
  | inr ((f, files), q) ↦ elim (Option-cases (free_fd t.ofile 0 nofile)) [
    | inl z ↦ on_fs-same t t' _ none (rw (open_file, q, fdalloc, z, close_new t files f h q) at e)
    | inr (fd, z) ↦
        let (fs1, p, e1) =
          >>=-eq-done (iunlock t.fs t.pid ip) _ (rw (open_file, q, fdalloc, z) at e) in
        let (fs2, p', e2) = >>=-eq-done (call (finish_op fs1)) _ e1 in
        absurd (cc (ap (λ (x : Task × Option ℕ). x.1) (done-injective e2)))
  ]
]

-- The inode is found, or the call ends.
found-same :
    {A : Type 0} (t t1 t' : Task) (found : Option A) (f : A → Outcome (Task × Option ℕ))
    → open_files t1 ≡ open_files t
    → FreeIsNone t.files
    → ((a : A) → FreeIsNone t1.files → f a ≡ done (t', none) → open_files t' ≡ open_files t1)
    → elim found [ none ↦ on_fs {A = Option ℕ} t1 (leave t1.fs none) | some a ↦ f a ]
      ≡ done (t', none)
    → open_files t' ≡ open_files t
found-same t t1 t' none f same h k e =
    on_fs-same {A = Option ℕ} t1 t' (leave t1.fs none) none e ∙ same
found-same t t1 t' (some a) f same h k e =
    let untyped = subst (λ (x : (ℕ → Option ℕ) × Ftable). FreeIsNone x.1) (sym same) h in
    k a untyped e ∙ same

-- A directory is refused, any other inode opened.
inode-same :
    (t t1 t' : Task) (fs2 : Fs) (ip omode : ℕ)
    → FreeIsNone t1.files
    → (if ((fs2.inode ip).type == t_dir) && not (omode == 0)
        then on_fs t1 (do fs3 ← iunlockput fs2 t.pid ip; leave fs3 none)
        else open_file (record t1 { fs = fs2 }) ip omode)
      ≡ done (t', none)
    → open_files t' ≡ open_files t1
inode-same t t1 t' fs2 ip omode h e =
    elim (Bool-cases (((fs2.inode ip).type == t_dir) && not (omode == 0))) [
      | inl q ↦ on_fs-same t1 t' _ none (rw q at e)
      | inr q ↦ open_file-same (record t1 { fs = fs2 }) t' ip omode h (rw q at e)
    ]

open_path-same :
    (t t' : Task) (path : List ℕ) (omode : ℕ)
    → FreeIsNone t.files
    → open_path t path omode ≡ done (t', none)
    → open_files t' ≡ open_files t
unfolding open_path
open_path-same t t' path omode h e = elim (Bool-cases (o_create omode)) [
  | inl q ↦
      let ((t1, new), p, e1) =
        >>=-eq-done (on_fs t (create t.fs t.pid t.cwd path t_file 0 0)) _
          (rw (open_path, q) at e) in
      found-same t t1 t' new _ (on_fs-same t t1 _ new p) h
        (λ ip h1 e2. open_file-same t1 t' ip omode h1 e2) e1
  | inr q ↦
      let ((t1, found), p, e1) =
        >>=-eq-done (on_fs t (namei t.fs t.pid t.cwd path)) _ (rw (open_path, q) at e) in
      found-same t t1 t' found _ (on_fs-same t t1 _ found p) h
        (λ (ip, name) h1 e2.
          let (fs2, p', e3) = >>=-eq-done (ilock t1.fs t.pid ip) _ e2 in
          inode-same t t1 t' fs2 ip omode h1 e3)
        e1
]

-- `open` of any path, in any mode, that returns -1 from a state in which free entries of the table of
-- files have type FD_NONE: the descriptors of the process and the table of files, with its reference
-- counts, are as they were, whether the arguments, the path, the file or the descriptor was refused.
pub open_refused :
    (t t' : Task)
    → ((g : ℕ) → (t.files g).ref ≡ 0 → (t.files g).type ≡ fd_none)
    → sys_open t ≡ done (t', none)
    → (t'.ofile ≡ t.ofile) × (t'.files ≡ t.files)
unfolding sys_open
open_refused t t' h e =
    let both : open_files t' ≡ open_files t = elim (Option-cases (argpath t.user 0)) [
      | inl q ↦ done_same t t' none none (rw (sys_open, q) at e)
      | inr (path, q) ↦ elim (Option-cases (argint t.user 1)) [
        | inl q' ↦ done_same t t' none none (rw (sys_open, q, q') at e)
        | inr (omode, q') ↦
            let (fs, p, e1) = >>=-eq-done (start_op t.fs) _ (rw (sys_open, q, q') at e) in
            open_path-same (record t { fs = fs }) t' path omode h e1
      ]
    ] in
    (ap (λ (x : (ℕ → Option ℕ) × Ftable). x.0) both, ap (λ (x : (ℕ → Option ℕ) × Ftable). x.1) both)
