-- ===== src/Sysfile/Names.antt =====
-- The system calls of sysfile.c that take path names. Each way out calls `end_op` (`leave`) where the code
-- does.
pub mod Ends
pub mod Kept
pub mod Balance
pub mod Refused
mod Examples
use chameleon_os.Base.{
  ℕ, zero, suc, ◌+◌, ◌-◌, ◌*◌, ◌/◌, ◌%◌, ◌^◌, Bool, true, false, not, ◌&&◌, ◌||◌, Option, none,
  some, List, [], ◌∷◌, ◌==◌, leb, if◌then◌else◌, update, replicate,
}
use chameleon_os.File.{File, fd_inode, filealloc}
use chameleon_os.Syscall.{User, argint}
use chameleon_os.Fs.Disk.{Fs, Inode}
use chameleon_os.Fs.Inode.{set_inode, iupdate}
use chameleon_os.Fs.Map.{t_dir, t_dev, moved, denied, passed_on, writei}
use chameleon_os.Fs.Cache.{ialloc}
use chameleon_os.Fs.Lock.{
  Outcome, done, panicked, asleep, ◌>>=◌, call, ilock, iunlock, iput, iunlockput,
}
use chameleon_os.Fs.Dir.{namecmp, dirent_size, read_dirent, dirent_inum, entries, dirlookup}
use chameleon_os.Fs.Name.{dirlink, namei, nameiparent}
use chameleon_os.Fs.Io.{start_op, finish_op}
use chameleon_os.Sysfile.{Task, fdalloc, close_file}
use chameleon_os.Sysfile.Args.{argpath}

abbrev pub t_file : ℕ
t_file = 2

-- `end_op()` and a return.
pub leave : {A : Type 0} → Fs → A → Outcome (Fs × A)
leave fs r = do fs1 ← call (finish_op fs); done (fs1, r)

abbrev pub on_fs : {A : Type 0} → Task → Outcome (Fs × A) → Outcome (Task × A)
on_fs t m = do (fs1, r) ← m; done (record t { fs = fs1 }, r)

-- A new number of links, a `short`, and `iupdate`.
abbrev pub relink : Fs → ℕ → ℕ → Outcome Fs
relink fs ip n = call (iupdate (set_inode fs ip (record (fs.inode ip) { nlink = n })) ip)

abbrev pub one_more : ℕ → ℕ
one_more n = (n + 1) % 2 ^ 16

abbrev pub one_less : ℕ → ℕ
one_less n = (n + 2 ^ 16 - 1) % 2 ^ 16

-- `iunlockput` and a result for -1 or 0.
abbrev pub give_up : {A : Type 0} → Fs → ℕ → ℕ → A → Outcome (Fs × A)
give_up fs pid ip r = do fs1 ← iunlockput fs pid ip; done (fs1, r)

-- The new name of inode `ip`.
pub link_entry : Fs → ℕ → ℕ → ℕ → List ℕ → Outcome (Fs × Bool)
link_entry fs pid cwd ip path = do
  (fs1, found) ← nameiparent fs pid cwd path
  elim found [
    | none ↦ done (fs1, false)
    | some (dp, name) ↦ do
      fs2 ← ilock fs1 pid dp
      (fs3, linked) ←
          if (fs2.inode dp).dev == (fs2.inode ip).dev
          then dirlink fs2 pid dp name (fs2.inode ip).inum
          else done (fs2, false)
      give_up fs3 pid dp linked
  ]

-- The code at `bad`.
pub undo_link : Fs → ℕ → ℕ → Outcome (Fs × Bool)
undo_link fs pid ip = do
  fs1 ← ilock fs pid ip
  fs2 ← relink fs1 ip (one_less (fs1.inode ip).nlink)
  fs3 ← iunlockput fs2 pid ip
  leave fs3 false

pub link : Fs → ℕ → ℕ → List ℕ → List ℕ → Outcome (Fs × Bool)
link fs pid cwd old new = do
  fs0 ← start_op fs
  (fs1, found) ← namei fs0 pid cwd old
  elim found [
    | none ↦ leave fs1 false
    | some (ip, name) ↦ do
      fs2 ← ilock fs1 pid ip
      if (fs2.inode ip).type == t_dir
          then (do fs3 ← iunlockput fs2 pid ip; leave fs3 false)
          else (do
            fs3 ← relink fs2 ip (one_more (fs2.inode ip).nlink)
            fs4 ← iunlock fs3 pid ip
            (fs5, linked) ← link_entry fs4 pid cwd ip new
            if linked then (do fs6 ← iput fs5 pid ip; leave fs6 true) else undo_link fs5 pid ip)
  ]

abbrev pub status : Bool → Option ℕ
status b = if b then some 0 else none

abbrev pub with_status : Outcome (Task × Bool) → Outcome (Task × Option ℕ)
with_status m = do (t, b) ← m; done (t, status b)

pub sys_link : Task → Outcome (Task × Option ℕ)
sys_link t = elim (argpath t.user 0) [
  | none ↦ done (t, none)
  | some old ↦ elim (argpath t.user 1) [
    | none ↦ done (t, none)
    | some new ↦ with_status (on_fs t (link t.fs t.pid t.cwd old new))
  ]
]

-- The loop of `isdirempty` from byte `off` on, with `n` entries left.
pub empty_from : Fs → ℕ → ℕ → ℕ → Outcome (Fs × Bool)
empty_from fs dp off zero = done (fs, true)
empty_from fs dp off (suc n) = do
  (fs1, de) ← call (read_dirent fs dp off)
  let rest = empty_from fs1 dp (off + dirent_size) n
  if dirent_inum de == 0 then rest else done (fs1, false)

abbrev pub isdirempty : Fs → ℕ → Outcome (Fs × Bool)
isdirempty fs dp = empty_from fs dp (2 * dirent_size) (entries (fs.inode dp).size - 2)

-- An entry of zeros.
pub erase : Fs → ℕ → ℕ → Outcome Fs
erase fs dp off = do
  (fs1, r) ← call (writei fs dp (replicate dirent_size 0) off)
  elim r [
    | moved n ↦ if n == dirent_size then done fs1 else panicked
    | denied ↦ panicked
    | passed_on major ↦ panicked
  ]

-- The code at `bad`.
pub unlink_bad : Fs → ℕ → ℕ → Outcome (Fs × Bool)
unlink_bad fs pid dp = do fs1 ← iunlockput fs pid dp; leave fs1 false

-- `sys_unlink` once it has found and locked `ip`.
pub unlink_entry : Fs → ℕ → ℕ → ℕ → ℕ → Outcome (Fs × Bool)
unlink_entry fs pid dp ip off =
    let i = fs.inode ip in
    if (i.nlink == 0) || leb (2 ^ 15) i.nlink then panicked else (do
      (fs1, empty) ← if i.type == t_dir then isdirempty fs ip else done (fs, true)
      if not empty then (do fs2 ← iunlockput fs1 pid ip; unlink_bad fs2 pid dp) else (do
        fs2 ← erase fs1 dp off
        fs3 ←
            if (fs2.inode ip).type == t_dir
            then relink fs2 dp (one_less (fs2.inode dp).nlink)
            else done fs2
        fs4 ← iunlockput fs3 pid dp
        fs5 ← relink fs4 ip (one_less (fs4.inode ip).nlink)
        fs6 ← iunlockput fs5 pid ip
        leave fs6 true))

abbrev pub dot : List ℕ
dot = b'.' ∷ []

abbrev pub dotdot : List ℕ
dotdot = b'.' ∷ b'.' ∷ []

pub unlink : Fs → ℕ → ℕ → List ℕ → Outcome (Fs × Bool)
unlink fs pid cwd path = do
  fs0 ← start_op fs
  (fs1, found) ← nameiparent fs0 pid cwd path
  elim found [
    | none ↦ leave fs1 false
    | some (dp, name) ↦ do
      fs2 ← ilock fs1 pid dp
      if namecmp name dot || namecmp name dotdot then unlink_bad fs2 pid dp else (do
        (fs3, entry) ← call (dirlookup fs2 dp name)
        elim entry [
          | none ↦ unlink_bad fs3 pid dp
          | some (ip, off) ↦ do fs4 ← ilock fs3 pid ip; unlink_entry fs4 pid dp ip off
        ])
  ]

pub sys_unlink : Task → Outcome (Task × Option ℕ)
sys_unlink t = elim (argpath t.user 0) [
  | none ↦ done (t, none)
  | some path ↦ with_status (on_fs t (unlink t.fs t.pid t.cwd path))
]

abbrev must_link : Outcome (Fs × Bool) → Outcome Fs
must_link m = do (fs1, linked) ← m; if linked then done fs1 else panicked

-- The entries "." and ".." of the new directory `ip`.
pub add_dots : Fs → ℕ → ℕ → ℕ → Outcome Fs
add_dots fs pid dp ip = do
  fs1 ← relink fs dp (one_more (fs.inode dp).nlink)
  fs2 ← must_link (dirlink fs1 pid ip dot (fs1.inode ip).inum)
  must_link (dirlink fs2 pid ip dotdot (fs2.inode dp).inum)

-- `create` of a name that the directory does not have.
pub create_entry : Fs → ℕ → ℕ → List ℕ → ℕ → ℕ → ℕ → Outcome (Fs × Option ℕ)
create_entry fs pid dp name type major minor = do
  (fs1, ip) ← call (ialloc fs (fs.inode dp).dev type)
  fs2 ← ilock fs1 pid ip
  let new = record (fs2.inode ip) { major = major % 2 ^ 16; minor = minor % 2 ^ 16; nlink = 1 }
  fs3 ← call (iupdate (set_inode fs2 ip new) ip)
  fs4 ← if type == t_dir then add_dots fs3 pid dp ip else done fs3
  fs5 ← must_link (dirlink fs4 pid dp name (fs4.inode ip).inum)
  give_up fs5 pid dp (some ip)

-- The inode, locked, or none for 0.
pub create : Fs → ℕ → ℕ → List ℕ → ℕ → ℕ → ℕ → Outcome (Fs × Option ℕ)
create fs pid cwd path type major minor = do
  (fs1, found) ← nameiparent fs pid cwd path
  elim found [
    | none ↦ done (fs1, none)
    | some (dp, name) ↦ do
      fs2 ← ilock fs1 pid dp
      (fs3, entry) ← call (dirlookup fs2 dp name)
      elim entry [
        | none ↦ create_entry fs3 pid dp name type major minor
        | some (ip, off) ↦ do
          fs4 ← iunlockput fs3 pid dp
          fs5 ← ilock fs4 pid ip
          if (type == t_file) && ((fs5.inode ip).type == t_file)
              then done (fs5, some ip)
              else give_up fs5 pid ip none
      ]
  ]

-- `omode & O_CREATE`, `O_WRONLY` and `O_RDWR`
abbrev pub o_create : ℕ → Bool
o_create omode = omode / 512 % 2 == 1

abbrev pub o_wronly : ℕ → Bool
o_wronly omode = omode % 2 == 1

abbrev pub o_rdwr : ℕ → Bool
o_rdwr omode = omode / 2 % 2 == 1

abbrev pub opened : File → ℕ → ℕ → File
opened file ip omode = record file {
  type = fd_inode;
  ip = ip;
  off = 0;
  readable = not (o_wronly omode);
  writable = o_wronly omode || o_rdwr omode;
}

-- `sys_open` once it has the inode, locked: a file and a descriptor for it.
pub open_file : Task → ℕ → ℕ → Outcome (Task × Option ℕ)
open_file t ip omode = elim (filealloc t.files) [
  | none ↦ on_fs t (do fs1 ← iunlockput t.fs t.pid ip; leave fs1 none)
  | some (f, files) ↦ elim (fdalloc (record t { files = files }) f) [
    | none ↦ do
      t1 ← close_file (record t { files = files }) f
      on_fs t1 (do fs1 ← iunlockput t1.fs t.pid ip; leave fs1 none)
    | some (t1, fd) ↦ do
      fs1 ← iunlock t1.fs t.pid ip
      fs2 ← call (finish_op fs1)
      done (
        record t1 { fs = fs2; files = update t1.files f (opened (t1.files f) ip omode) },
        some fd,
      )
  ]
]

-- `sys_open` after `begin_op`.
pub open_path : Task → List ℕ → ℕ → Outcome (Task × Option ℕ)
open_path t path omode =
    if o_create omode
    then (do
      (t1, new) ← on_fs t (create t.fs t.pid t.cwd path t_file 0 0)
      elim new [ none ↦ on_fs t1 (leave t1.fs none) | some ip ↦ open_file t1 ip omode ])
    else (do
      (t1, found) ← on_fs t (namei t.fs t.pid t.cwd path)
      elim found [
        | none ↦ on_fs t1 (leave t1.fs none)
        | some (ip, name) ↦ do
          fs2 ← ilock t1.fs t.pid ip
          if ((fs2.inode ip).type == t_dir) && not (omode == 0)
              then on_fs t1 (do fs3 ← iunlockput fs2 t.pid ip; leave fs3 none)
              else open_file (record t1 { fs = fs2 }) ip omode
      ])

pub sys_open : Task → Outcome (Task × Option ℕ)
sys_open t = elim (argpath t.user 0) [
  | none ↦ done (t, none)
  | some path ↦ elim (argint t.user 1) [
    | none ↦ done (t, none)
    | some omode ↦ do fs1 ← start_op t.fs; open_path (record t { fs = fs1 }) path omode
  ]
]

-- `path` is none when the argument cannot be read.
pub mkdir : Fs → ℕ → ℕ → Option (List ℕ) → Outcome (Fs × Bool)
mkdir fs pid cwd path = do
  fs1 ← start_op fs
  (fs2, new) ← elim path [ none ↦ done (fs1, none) | some p ↦ create fs1 pid cwd p t_dir 0 0 ]
  elim new [ none ↦ leave fs2 false | some ip ↦ do fs3 ← iunlockput fs2 pid ip; leave fs3 true ]

pub sys_mkdir : Task → Outcome (Task × Option ℕ)
sys_mkdir t = with_status (on_fs t (mkdir t.fs t.pid t.cwd (argpath t.user 0)))

-- The arguments of `sys_mknod`.
pub node_args : User → Option (List ℕ × ℕ × ℕ)
node_args u = elim (argpath u 0) [
  | none ↦ none
  | some path ↦ elim (argint u 1) [
    | none ↦ none
    | some major ↦ elim (argint u 2) [ none ↦ none | some minor ↦ some (path, major, minor) ]
  ]
]

pub mknod : Fs → ℕ → ℕ → Option (List ℕ × ℕ × ℕ) → Outcome (Fs × Bool)
mknod fs pid cwd args = do
  fs1 ← start_op fs
  (fs2, new) ← elim args [
    | none ↦ done (fs1, none)
    | some (path, major, minor) ↦ create fs1 pid cwd path t_dev major minor
  ]
  elim new [ none ↦ leave fs2 false | some ip ↦ do fs3 ← iunlockput fs2 pid ip; leave fs3 true ]

pub sys_mknod : Task → Outcome (Task × Option ℕ)
sys_mknod t = with_status (on_fs t (mknod t.fs t.pid t.cwd (node_args t.user)))

-- The new directory, with the reference of `namei`.
pub enter : Fs → ℕ → ℕ → Option (List ℕ) → Outcome (Fs × Option ℕ)
enter fs pid cwd path = do
  fs1 ← start_op fs
  (fs2, found) ← elim path [ none ↦ done (fs1, none) | some p ↦ namei fs1 pid cwd p ]
  elim found [
    | none ↦ leave fs2 none
    | some (ip, name) ↦ do
      fs3 ← ilock fs2 pid ip
      if not ((fs3.inode ip).type == t_dir)
          then (do fs4 ← iunlockput fs3 pid ip; leave fs4 none)
          else (do fs4 ← iunlock fs3 pid ip; fs5 ← iput fs4 pid cwd; leave fs5 (some ip))
  ]

pub sys_chdir : Task → Outcome (Task × Option ℕ)
sys_chdir t = do
  (t1, r) ← on_fs t (enter t.fs t.pid t.cwd (argpath t.user 0))
  elim r [ none ↦ done (t1, none) | some ip ↦ done (record t1 { cwd = ip }, some 0) ]
