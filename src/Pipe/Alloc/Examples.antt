-- ===== src/Pipe/Alloc/Examples.antt =====
-- `pipealloc` of pipe.c where no page is free.
use chameleon_os.Base.{ℕ, ◌+◌, ◌≡◌, false, Option, none, List}
use chameleon_os.Base.Machine.{ok}
use chameleon_os.File.{Ftable, fd_none, Release}
use chameleon_os.Pipe.Alloc.{pipealloc}
use chameleon_os.Pipe.Alloc.Refs.{new_refs, pipealloc_lem}

-- Every file is free.
abbrev unused : Ftable
unused f = record {
  type = fd_none;
  ref = 0;
  readable = false;
  writable = false;
  pipe = 0;
  ip = 0;
  off = 0;
}

pipealloc_lem_example :
    (t' : Ftable) × (files : Option (ℕ × ℕ)) × (released : List Release) × (pipealloc unused none
      ≡ ok (t', files, released))
    × ((t' 1).ref ≡ new_refs files 1 + 0)
pipealloc_lem_example = pipealloc_lem unused none 1
