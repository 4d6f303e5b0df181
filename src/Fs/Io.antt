-- ===== src/Fs/Io.antt =====
-- `filestat`, `fileread` and `filewrite` of file.c over the file system, each run by the process `pid`.
-- A pipe and a device are named where their functions are called.
use chameleon_os.Base.{
  ℕ, zero, suc, ◌+◌, ◌-◌, ◌*◌, ◌/◌, true, false, not, Option, none, some, List, min, ◌==◌,
  if◌then◌else◌, length, take, drop,
}
use chameleon_os.Base.Machine.{Run, ok, panic, uint_add}
use chameleon_os.Log.{max_op_blocks, begin_op, end_op}
use chameleon_os.File.{File, fd_none, fd_pipe, fd_inode}
use chameleon_os.Fs.Disk.{Fs}
use chameleon_os.Fs.Map.{Stat, stati, Transfer, moved, denied, passed_on, readi, writei}
use chameleon_os.Fs.Lock.{Outcome, done, panicked, asleep, ◌>>=◌, call, ilock, iunlock}

pub filestat : Fs → ℕ → File → Outcome (Fs × Option Stat)
filestat fs pid f = elim f.type [
  | fd_none ↦ done (fs, none)
  | fd_pipe ↦ done (fs, none)
  | fd_inode ↦ do
    fs1 ← ilock fs pid f.ip
    fs2 ← iunlock fs1 pid f.ip
    done (fs2, some (stati fs1 f.ip))
]

-- What a call returns: a result, -1, or the result of `piperead` or `pipewrite`.
pub data Result (A : Type 0) : Type 0 where
  gave : A → Result A
  refused : Result A
  of_pipe : ℕ → Result A

abbrev move_off : File → ℕ → File
move_off f r = record f { off = uint_add f.off r }

-- What the function of a device gives, none for -1, is an argument: its major number is looked up.
abbrev pub settled : {A : Type 0} → (ℕ → Option A) → Transfer A → Option A
settled devices (moved a) = some a
settled devices denied = none
settled devices (passed_on major) = devices major

pub fileread : (ℕ → Option (List ℕ)) → Fs → ℕ → File → ℕ → Outcome (Fs × File × Result (List ℕ))
fileread devices fs pid f n = if not f.readable then done (fs, f, refused) else elim f.type [
  | fd_none ↦ panicked
  | fd_pipe ↦ done (fs, f, of_pipe f.pipe)
  | fd_inode ↦ do
    fs1 ← ilock fs pid f.ip
    (fs2, r) ← call (readi fs1 f.ip f.off n)
    fs3 ← iunlock fs2 pid f.ip
    elim (settled devices r) [
      | none ↦ done (fs3, f, refused)
      | some bytes ↦ done (fs3, move_off f (length bytes), gave bytes)
    ]
]

-- The bytes of one transaction.
abbrev pub max_chunk : ℕ
max_chunk = (max_op_blocks - 1 - 1 - 2) / 2 * 512

abbrev pub start_op : Fs → Outcome Fs
start_op fs =
    let (l, started) = begin_op fs.log in if started then done (record fs { log = l }) else asleep

abbrev pub finish_op : Fs → Run Fs
finish_op fs = elim (end_op fs.log fs.store) [
  | ok (l, s) ↦ ok (record fs { log = l; store = s })
  | panic ↦ panic
]

-- The loop of `filewrite`, with `src` left: how many bytes were written before -1 or the end.
pub write_chunks : (ℕ → Option ℕ) → Fs → ℕ → File → ℕ → List ℕ → ℕ → Outcome (Fs × File × ℕ)
write_chunks devices fs pid f i src zero = done (fs, f, i)
write_chunks devices fs pid f i src (suc fuel) = elim (length src == 0) [
  | true ↦ done (fs, f, i)
  | false ↦ do
    let n1 = min (length src) max_chunk
    fs1 ← start_op fs
    fs2 ← ilock fs1 pid f.ip
    (fs3, r) ← call (writei fs2 f.ip (take n1 src) f.off)
    fs4 ← iunlock fs3 pid f.ip
    fs5 ← call (finish_op fs4)
    elim (settled devices r) [
      | none ↦ done (fs5, f, i)
      | some m ↦ do
        let rest = write_chunks devices fs5 pid (move_off f m) (i + m) (drop n1 src) fuel
        if m == n1 then rest else panicked
    ]
]

pub filewrite : (ℕ → Option ℕ) → Fs → ℕ → File → List ℕ → Outcome (Fs × File × Result ℕ)
filewrite devices fs pid f src = if not f.writable then done (fs, f, refused) else elim f.type [
  | fd_none ↦ panicked
  | fd_pipe ↦ done (fs, f, of_pipe f.pipe)
  | fd_inode ↦ do
    (fs', f', i) ← write_chunks devices fs pid f 0 src (length src)
    done (fs', f', if i == length src then gave i else refused)
]
