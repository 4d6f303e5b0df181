-- ===== src/File.antt =====
-- file.c: the table of open files and its reference counts, under `ftable.lock`.
-- A file is its index in the table. `ref` is an `int` that counts descriptors, so it stays small.
pub mod Refs
pub mod Dup
mod Examples
use chameleon_os.Base.{
  ℕ, zero, suc, ◌+◌, ◌-◌, Bool, Option, none, some, ◌==◌, ltb, if◌then◌else◌, update,
}
use chameleon_os.Base.Machine.{Run, ok, panic}

pub data FileType : Type 0 where
  fd_none fd_pipe fd_inode : FileType

pub record File : Type 0 where
  pub type : FileType
  pub ref : ℕ
  pub readable : Bool
  pub writable : Bool
  pub pipe : ℕ
  pub ip : ℕ
  pub off : ℕ

abbrev pub nfile : ℕ
nfile = 100

abbrev pub Ftable : Type 0
Ftable = ℕ → File

-- The first entry from `i` on, `n` of them left, with no reference.
unfoldable pub find_free : Ftable → ℕ → ℕ → Option ℕ
find_free t i zero = none
find_free t i (suc n) = let rest = find_free t (i + 1) n in if (t i).ref == 0 then some i else rest

unfoldable pub filealloc : Ftable → Option (ℕ × Ftable)
filealloc t = elim (find_free t 0 nfile) [
  | none ↦ none
  | some f ↦ some (f, update t f (record (t f) { ref = 1 }))
]

unfoldable pub filedup : Ftable → ℕ → Run Ftable
filedup t f =
    if ltb (t f).ref 1 then panic else ok (update t f (record (t f) { ref = (t f).ref + 1 }))

-- What the last close of a file does, after `ftable.lock` is released: `pipeclose`, or `iput` in a
-- transaction of its own.
pub data Release : Type 0 where
  nothing : Release
  close_pipe : ℕ → Bool → Release
  put_inode : ℕ → Release

abbrev pub release_of : File → Release
release_of f = elim f.type [
  | fd_none ↦ nothing
  | fd_pipe ↦ close_pipe f.pipe f.writable
  | fd_inode ↦ put_inode f.ip
]

unfoldable pub fileclose : Ftable → ℕ → Run (Ftable × Release)
fileclose t f =
    if ltb (t f).ref 1
    then panic
    else if ltb 0 ((t f).ref - 1)
    then ok (update t f (record (t f) { ref = (t f).ref - 1 }), nothing)
    else ok (update t f (record (t f) { ref = 0; type = fd_none }), release_of (t f))
