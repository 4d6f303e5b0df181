-- ===== src/Syscall.antt =====
-- syscall.c: the arguments of a system call, fetched from the memory of the process, and the choice of
-- the function that serves it. -1 is none.
pub mod Bounds
mod Examples
use chameleon_os.Base.{
  ℕ, zero, suc, ◌+◌, ◌*◌, ◌-◌, ◌%◌, ◌^◌, Bool, true, false, ◌&&◌, ◌||◌, Option, none, some, List,
  [], ◌∷◌, ltb, leb, ◌==◌, if◌then◌else◌, get_elem?,
}
use chameleon_os.Base.Machine.{uint_add}

-- The current process: the size of its memory, the user stack pointer and the number of the call in the
-- trap frame, and the bytes at user addresses.
pub record User : Type 0 where
  pub sz : ℕ
  pub esp : ℕ
  pub eax : ℕ
  pub mem : ℕ → ℕ

infixl 5 ◌>>=◌
abbrev pub ◌>>=◌ {ℓ κ} : {A : Type ℓ} {B : Type κ} → Option A → (A → Option B) → Option B
none >>= f = none
some a >>= f = f a

-- `*(int*)(addr)`
abbrev pub load_int : User → ℕ → ℕ
load_int p a = p.mem a + p.mem (a + 1) * 2 ^ 8 + p.mem (a + 2) * 2 ^ 16 + p.mem (a + 3) * 2 ^ 24

unfoldable pub fetchint : User → ℕ → Option ℕ
fetchint p addr =
    if leb p.sz addr || ltb p.sz (uint_add addr 4) then none else some (load_int p addr)

-- The loop of `fetchstr` from `s` on, with `n` bytes before the end: how far the zero byte is.
unfoldable pub string_end : User → ℕ → ℕ → Option ℕ
string_end p s zero = none
string_end p s (suc n) = let rest = string_end p (s + 1) n in if p.mem s == 0 then some s else rest

-- The pointer and the length.
unfoldable pub fetchstr : User → ℕ → Option (ℕ × ℕ)
fetchstr p addr =
    if leb p.sz addr then none else (do s ← string_end p addr (p.sz - addr); some (addr, s - addr))

unfoldable pub argint : User → ℕ → Option ℕ
argint p n = fetchint p ((p.esp + 4 + 4 * n) % 2 ^ 32)

-- An `int` is its 32-bit pattern.
abbrev pub negative_int : ℕ → Bool
negative_int x = leb (2 ^ 31) x

pub argptr : User → ℕ → ℕ → Option ℕ
argptr p n size = do
  i ← argint p n
  if negative_int size || leb p.sz i || ltb p.sz (uint_add i size) then none else some i

unfoldable pub argstr : User → ℕ → Option (ℕ × ℕ)
argstr p n = do addr ← argint p n; fetchstr p addr

-- The functions of the table, in the order of their numbers.
pub data Call : Type 0 where
  sys_fork : Call
  sys_exit : Call
  sys_wait : Call
  sys_pipe : Call
  sys_read : Call
  sys_kill : Call
  sys_exec : Call
  sys_fstat : Call
  sys_chdir : Call
  sys_dup : Call
  sys_getpid : Call
  sys_sbrk : Call
  sys_sleep : Call
  sys_uptime : Call
  sys_open : Call
  sys_write : Call
  sys_mknod : Call
  sys_unlink : Call
  sys_link : Call
  sys_mkdir : Call
  sys_close : Call

-- `syscalls` from number 1 on; entry 0 is a null pointer.
pub syscalls : List Call
syscalls =
    sys_fork ∷ sys_exit ∷ sys_wait ∷ sys_pipe ∷ sys_read ∷ sys_kill ∷ sys_exec ∷ sys_fstat
    ∷ sys_chdir ∷ sys_dup ∷ sys_getpid ∷ sys_sbrk ∷ sys_sleep ∷ sys_uptime ∷ sys_open ∷ sys_write
    ∷ sys_mknod ∷ sys_unlink ∷ sys_link ∷ sys_mkdir ∷ sys_close ∷ []

-- The function that `syscall` calls; none where it prints and sets `%eax` to -1. A negative number is
-- not served.
pub syscall : User → Option Call
syscall p = if (p.eax == 0) || negative_int p.eax then none else get_elem? syscalls (p.eax - 1)
