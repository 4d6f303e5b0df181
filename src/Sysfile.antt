-- ===== src/Sysfile.antt =====
-- sysfile.c: the system calls on files, each run by one process. -1 is none. The calls that take
-- descriptors stand here, those that take paths in Names.
pub mod Args
pub mod Names
pub mod Trip
mod Examples
use chameleon_os.Base.{
  ℕ, zero, suc, ◌+◌, ◌-◌, ◌/◌, ◌%◌, ◌^◌, Bool, true, false, Option, none, some, List, [], ◌∷◌, ◌++◌,
  ◌==◌, ltb, leb, ◌&&◌, if◌then◌else◌, update, length, get_or,
}
use chameleon_os.File.{
  File, Ftable, filealloc, filedup, fileclose, Release, nothing, close_pipe, put_inode,
}
use chameleon_os.Syscall.{User, argint, argptr}
use chameleon_os.Pipe.Alloc.{pipealloc}
use chameleon_os.Fs.Disk.{Fs}
use chameleon_os.Fs.Map.{Stat}
use chameleon_os.Fs.Lock.{Outcome, done, panicked, asleep, ◌>>=◌, call, iput}
use chameleon_os.Fs.Io.{
  Result, gave, refused, of_pipe, start_op, finish_op, filestat, fileread, filewrite,
}
use chameleon_os.Sysfile.Args.{nofile, argfd, bytes_at}

-- The process, with its memory and trap frame, its open files and its directory, and what it shares:
-- the file system and the table of files. `closed` has the pipe ends that were closed, with
-- `writable`; `pipeclose` is in Pipe.
pub record Task : Type 0 where
  pub pid : ℕ
  pub user : User
  pub ofile : ℕ → Option ℕ
  pub cwd : ℕ
  pub files : Ftable
  pub fs : Fs
  pub closed : List Release

-- The loop of `fdalloc` from `fd` on, with `n` entries left.
pub free_fd : (ℕ → Option ℕ) → ℕ → ℕ → Option ℕ
free_fd ofile fd zero = none
free_fd ofile fd (suc n) =
    let rest = free_fd ofile (fd + 1) n in elim (ofile fd) [ none ↦ some fd | some f ↦ rest ]

pub fdalloc : Task → ℕ → Option (Task × ℕ)
fdalloc t f = elim (free_fd t.ofile 0 nofile) [
  | none ↦ none
  | some fd ↦ some (record t { ofile = update t.ofile fd (some f) }, fd)
]

-- The end of `fileclose`, after `ftable.lock` is released.
pub release : Task → Release → Outcome Task
release t nothing = done t
release t (close_pipe p writable) =
    done (record t { closed = t.closed ++ close_pipe p writable ∷ [] })
release t (put_inode ip) = do
  fs1 ← start_op t.fs
  fs2 ← iput fs1 t.pid ip
  fs3 ← call (finish_op fs2)
  done (record t { fs = fs3 })

pub release_all : Task → List Release → Outcome Task
release_all t [] = done t
release_all t (r ∷ rs) = do t1 ← release t r; release_all t1 rs

pub close_file : Task → ℕ → Outcome Task
close_file t f = do (files, r) ← call (fileclose t.files f); release (record t { files = files }) r

pub sys_dup : Task → Outcome (Task × Option ℕ)
sys_dup t = elim (argfd t.user t.ofile 0) [
  | none ↦ done (t, none)
  | some (fd, f) ↦ elim (fdalloc t f) [
    | none ↦ done (t, none)
    | some (t1, fd1) ↦ do
      files ← call (filedup t1.files f)
      done (record t1 { files = files }, some fd1)
  ]
]

pub sys_close : Task → Outcome (Task × Option ℕ)
sys_close t = elim (argfd t.user t.ofile 0) [
  | none ↦ done (t, none)
  | some (fd, f) ↦ do
    t1 ← close_file (record t { ofile = update t.ofile fd none }) f
    done (t1, some 0)
]

-- The file, the buffer and the count of `read` and `write`.
pub transfer_args : Task → Option (ℕ × ℕ × ℕ)
transfer_args t = elim (argfd t.user t.ofile 0) [
  | none ↦ none
  | some (fd, f) ↦ elim (argint t.user 2) [
    | none ↦ none
    | some n ↦ elim (argptr t.user 1 n) [ none ↦ none | some p ↦ some (f, p, n) ]
  ]
]

-- The bytes go to the memory of the process.
abbrev pub store_bytes : (ℕ → ℕ) → ℕ → List ℕ → ℕ → ℕ
store_bytes mem p bytes a =
    if leb p a && ltb a (p + length bytes) then get_or bytes (a - p) 0 else mem a

abbrev pub with_bytes : Task → ℕ → List ℕ → Task
with_bytes t p bytes = record t { user = record t.user { mem = store_bytes t.user.mem p bytes } }

-- For a pipe the result is that of `piperead`.
pub sys_read : (ℕ → Option (List ℕ)) → Task → Outcome (Task × Result ℕ)
sys_read devices t = elim (transfer_args t) [
  | none ↦ done (t, refused)
  | some (f, p, n) ↦ do
    (fs1, file, r) ← fileread devices t.fs t.pid (t.files f) n
    let t1 = record t { fs = fs1; files = update t.files f file }
    elim r [
      | gave bytes ↦ done (with_bytes t1 p bytes, gave (length bytes))
      | refused ↦ done (t1, refused)
      | of_pipe q ↦ done (t1, of_pipe q)
    ]
]

pub sys_write : (ℕ → Option ℕ) → Task → Outcome (Task × Result ℕ)
sys_write devices t = elim (transfer_args t) [
  | none ↦ done (t, refused)
  | some (f, p, n) ↦ do
    (fs1, file, r) ← filewrite devices t.fs t.pid (t.files f) (bytes_at t.user.mem p n)
    done (record t { fs = fs1; files = update t.files f file }, r)
]

-- The low `n` bytes of a number, lowest first.
abbrev pub low_bytes : ℕ → ℕ → List ℕ
low_bytes zero x = []
low_bytes (suc n) x = x % 256 ∷ low_bytes n (x / 256)

-- The fields of `struct stat` at their offsets; the two bytes after each `short` are padding.
abbrev pub put_stat : Task → ℕ → Stat → Task
put_stat t p st =
    let t1 = with_bytes t p (low_bytes 2 st.type) in
    let t2 = with_bytes t1 (p + 4) (low_bytes 4 st.dev) in
    let t3 = with_bytes t2 (p + 8) (low_bytes 4 st.ino) in
    let t4 = with_bytes t3 (p + 12) (low_bytes 2 st.nlink) in
    with_bytes t4 (p + 16) (low_bytes 4 st.size)

pub sys_fstat : Task → Outcome (Task × Option ℕ)
sys_fstat t = elim (argfd t.user t.ofile 0) [
  | none ↦ done (t, none)
  | some (fd, f) ↦ elim (argptr t.user 1 20) [
    | none ↦ done (t, none)
    | some p ↦ do
      (fs1, r) ← filestat t.fs t.pid (t.files f)
      let t1 = record t { fs = fs1 }
      elim r [ none ↦ done (t1, none) | some st ↦ done (put_stat t1 p st, some 0) ]
  ]
]

-- The way out of `sys_pipe` without two descriptors.
abbrev pub drop_ends : Task → ℕ → ℕ → Outcome (Task × Option ℕ)
drop_ends t rf wf = do t1 ← close_file t rf; t2 ← close_file t1 wf; done (t2, none)

-- `page` is what `kalloc` gives for the pipe.
pub sys_pipe : Option ℕ → Task → Outcome (Task × Option ℕ)
sys_pipe page t = elim (argptr t.user 0 8) [
  | none ↦ done (t, none)
  | some p ↦ do
    (files, ends, closed) ← call (pipealloc t.files page)
    let t1 = record t { files = files }
    elim ends [
      | none ↦ do t2 ← release_all t1 closed; done (t2, none)
      | some (rf, wf) ↦ elim (fdalloc t1 rf) [
        | none ↦ drop_ends t1 rf wf
        | some (t2, fd0) ↦ elim (fdalloc t2 wf) [
          | none ↦ drop_ends (record t2 { ofile = update t2.ofile fd0 none }) rf wf
          | some (t3, fd1) ↦
              done
                (with_bytes (with_bytes t3 p (low_bytes 4 fd0)) (p + 4) (low_bytes 4 fd1), some 0)
        ]
      ]
    ]
]
