-- ===== src/Sysfile/Examples.antt =====
-- `dup` of descriptor 0, and `close` of the copy.
use chameleon_os.Base.{ℕ, ◌≡◌, refl, true, false, none, some, [], ◌==◌, if◌then◌else◌, update}
use chameleon_os.File.{fd_inode, filedup}
use chameleon_os.Syscall.{User, argint, fetchint}
use chameleon_os.Fs.Lock.{done}
use chameleon_os.Fs.Sample.{disk}
use chameleon_os.Sysfile.{Task, free_fd, fdalloc, sys_dup, sys_close}
use chameleon_os.Sysfile.Args.{argfd}
use chameleon_os.Sysfile.Trip.{close-dup}

-- A process that calls with one argument.
abbrev calls : ℕ → User
calls n = record { sz = 100; esp = 0; eax = 10; mem = λ a. if a == 4 then n else 0 }

abbrev task : Task
task = record {
  pid = 3;
  user = calls 0;
  ofile = λ fd. if fd == 0 then some 7 else none;
  cwd = 0;
  files = λ f. record {
    type = fd_inode;
    ref = 1;
    readable = true;
    writable = false;
    pipe = 0;
    ip = 0;
    off = 0;
  };
  fs = disk;
  closed = [];
}

abbrev dupped : Task
dupped = record task {
  ofile = update task.ofile 1 (some 7);
  files = update task.files 7 (record (task.files 7) { ref = 2 });
}

dups : sys_dup task ≡ done (dupped, some 1)
unfolding sys_dup argfd argint fetchint fdalloc free_fd filedup
dups = refl

second : argint (calls 1) 0 ≡ some 1
unfolding argint fetchint
second = refl

close-dup_example :
    sys_close (record dupped { user = calls 1 }) ≡ done (record task { user = calls 1 }, some 0)
close-dup_example = close-dup task dupped 1 (calls 1) dups second
