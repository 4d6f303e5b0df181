-- ===== src/Sysfile/Args.antt =====
-- How sysfile.c reads the arguments of a system call: descriptors, paths, and the arguments of `exec`.
use chameleon_os.Base.{
  ℕ, zero, suc, ◌+◌, ◌*◌, ◌||◌, Option, none, some, List, [], ◌∷◌, ◌==◌, leb, if◌then◌else◌,
}
use chameleon_os.Base.Machine.{uint_add}
use chameleon_os.Syscall.{User, ◌>>=◌, fetchint, fetchstr, argint, argstr, negative_int}

abbrev pub nofile : ℕ
nofile = 16

abbrev pub maxarg : ℕ
maxarg = 32

-- The descriptor and its file. `ofile` has what the process has open.
unfoldable pub argfd : User → (ℕ → Option ℕ) → ℕ → Option (ℕ × ℕ)
argfd u ofile n = do
  fd ← argint u n
  if negative_int fd || leb nofile fd then none else (do f ← ofile fd; some (fd, f))

abbrev pub bytes_at : (ℕ → ℕ) → ℕ → ℕ → List ℕ
bytes_at mem a zero = []
bytes_at mem a (suc n) = mem a ∷ bytes_at mem (a + 1) n

-- A path is the bytes before the zero byte.
unfoldable pub argpath : User → ℕ → Option (List ℕ)
argpath u n = do (s, len) ← argstr u n; some (bytes_at u.mem s len)

-- The loop of `sys_exec` from argument `i` on, with `n` places left in `argv`.
pub exec_args : User → ℕ → ℕ → ℕ → Option (List (List ℕ))
exec_args u uargv i zero = none
exec_args u uargv i (suc n) = do
  uarg ← fetchint u (uint_add uargv (4 * i))
  let rest = exec_args u uargv (i + 1) n
  if uarg == 0
      then some []
      else (do (s, len) ← fetchstr u uarg; argv ← rest; some (bytes_at u.mem s len ∷ argv))

-- The path and the arguments that `exec` is called with.
pub sys_exec : User → Option (List ℕ × List (List ℕ))
sys_exec u = do
  path ← argpath u 0
  uargv ← argint u 1
  argv ← exec_args u uargv 0 maxarg
  some (path, argv)
