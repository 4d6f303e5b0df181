-- ===== src/Pipe/Alloc.antt =====
-- `pipealloc` of pipe.c over the table of open files.
pub mod Refs
mod Examples
use chameleon_os.Base.{ℕ, true, false, Option, none, some, List, [], ◌∷◌, update}
use chameleon_os.Base.Machine.{Run, ok, ◌>>=◌}
use chameleon_os.File.{File, Ftable, fd_pipe, filealloc, fileclose, Release}

-- The two ends of pipe `p`.
abbrev pub read_end : File → ℕ → File
read_end f p = record f { type = fd_pipe; readable = true; writable = false; pipe = p }

abbrev pub write_end : File → ℕ → File
write_end f p = record f { type = fd_pipe; readable = false; writable = true; pipe = p }

-- `page` is what `kalloc` gives. The two files, or none for -1, with what the closes on the way out
-- release; `Pipe.init` has the fields of the pipe.
pub pipealloc : Ftable → Option ℕ → Run (Ftable × Option (ℕ × ℕ) × List Release)
pipealloc t page = elim (filealloc t) [
  | none ↦ ok (t, none, [])
  | some (f0, t0) ↦ elim (filealloc t0) [
    | none ↦ do (t1, r) ← fileclose t0 f0; ok (t1, none, r ∷ [])
    | some (f1, t1) ↦ elim page [
      | none ↦ do (t2, r) ← fileclose t1 f0; (t3, r') ← fileclose t2 f1; ok (t3, none, r ∷ r' ∷ [])
      | some p ↦
          let t2 = update t1 f0 (read_end (t1 f0) p) in
          ok (update t2 f1 (write_end (t2 f1) p), some (f0, f1), [])
    ]
  ]
]
