-- ===== src/Syscall/Examples.antt =====
-- Arguments of a system call of a process with 4096 bytes of memory.
use chameleon_os.Base.{
  ◌+◌, ◌^◌, ◌⊎◌, ◌≤◌, ◌<◌, ◌≡◌, ◌≢◌, refl, some, none, arith, ◌==◌, if◌then◌else◌,
}
use chameleon_os.Syscall.{
  User, load_int, fetchint, string_end, fetchstr, argint, argptr, argstr, syscall, syscalls,
  sys_write,
}
use chameleon_os.Syscall.Bounds.{argptr_inside, argstr_inside}

-- The call is write(4000, ...), and at address 4000 stands "ab".
abbrev process : User
process = record {
  sz = 4096;
  esp = 2048;
  eax = 16;
  mem = λ a.
      if a == 2052
      then 160
      else if a == 2053
      then 15
      else if a == 4000
      then b'a'
      else if a == 4001
      then b'b'
      else 0;
}

serves : syscall process ≡ some sys_write
unfolding syscall syscalls
serves = refl

accepts : argptr process 0 96 ≡ some 4000
unfolding argptr argint fetchint
accepts = refl

refuses : argptr process 0 97 ≡ none
unfolding argptr argint fetchint
refuses = refl

-- A pointer to no bytes.
accepts_none : argptr process 0 0 ≡ some 4000
unfolding argptr argint fetchint
accepts_none = refl

argptr_inside_example :
    (96 < 2 ^ 31)
    × (4000 ≡ load_int process 2052)
    × (2056 ≤ 4096)
    × (4000 < 4096)
    × (4000 + 96 ≤ 4096)
argptr_inside_example = argptr_inside process 0 96 4000 (omega arith) accepts

finds : argstr process 0 ≡ some (4000, 2)
unfolding argstr argint fetchint fetchstr string_end
finds = refl

argstr_inside_example :
    (4000 ≡ load_int process 2052)
    × (2056 ≤ 4096)
    × (4002 < 4096)
    × (process.mem 4002 ≡ 0)
    × (◌≤◌ 2 1 ⊎ (process.mem 4001 ≢ 0))
argstr_inside_example = argstr_inside process 0 4000 2 1 (omega arith) finds
