-- ===== src/Sysfile/Names/Examples.antt =====
-- Calls of a process whose directory is the root, with the path "/".
use chameleon_os.Base.{◌≡◌, refl, false, none, some, [], arith, ◌==◌, if◌then◌else◌, update}
use chameleon_os.Path.{skipelem, span, skip_slashes}
use chameleon_os.Log.{begin_op, end_op, end_op_count}
use chameleon_os.File.{fd_none, filealloc, find_free, fileclose}
use chameleon_os.Syscall.{argstr, argint, fetchint, fetchstr, string_end}
use chameleon_os.Fs.Disk.{Inode}
use chameleon_os.Fs.Cache.{find_inode, iget}
use chameleon_os.Fs.Lock.{done, ilock, iunlock, iput, iunlockput}
use chameleon_os.Fs.Name.{namex, walk}
use chameleon_os.Fs.Sample.{file, disk}
use chameleon_os.Sysfile.{Task, free_fd, fdalloc, release, close_file}
use chameleon_os.Sysfile.Args.{argpath}
use chameleon_os.Sysfile.Names.{leave, sys_chdir, enter, sys_open, open_path, open_file}
use chameleon_os.Sysfile.Names.Balance.{path_call, call_chdir, path_call_lem}
use chameleon_os.Sysfile.Names.Refused.{open_refused}

abbrev root : Inode
root = record file { type = 1; size = 0; lock = none }

-- The path is at address 16, its address on the stack at 4.
abbrev task : Task
task = record {
  pid = 3;
  user = record {
    sz = 100;
    esp = 0;
    eax = 9;
    mem = λ a. if a == 4 then 16 else if a == 16 then b'/' else 0;
  };
  ofile = λ fd. none;
  cwd = 0;
  files = λ f. record {
    type = fd_none;
    ref = 0;
    readable = false;
    writable = false;
    pipe = 0;
    ip = 0;
    off = 0;
  };
  fs = record disk { inode = λ i. root };
  closed = [];
}

-- The root with two references, locked and unlocked.
abbrev locked : Inode
locked = record root { ref = 2; lock = some 3 }

abbrev shared : Inode
shared = record root { ref = 2 }

-- `namei`, `ilock`, `iunlock` and both halves of `iput` change the root.
abbrev after : Task
after = record task {
  fs = record task.fs {
    inode =
        update (update (update (update (update (λ i. root) 0 shared) 0 locked) 0 shared) 0 locked) 0
          root;
  };
}

changes : path_call call_chdir task ≡ done (after, some 0)
unfolding sys_chdir enter leave argpath argstr argint fetchint fetchstr string_end namex walk
    skipelem span skip_slashes find_inode iget ilock iunlock iput begin_op end_op end_op_count
changes = refl

path_call_lem_example : after.fs.log.outstanding ≡ task.fs.log.outstanding
path_call_lem_example = path_call_lem call_chdir task after (some 0) (omega arith) changes

-- All descriptors are taken.
abbrev crowded : Task
crowded = record task { ofile = λ fd. some 90 }

-- A file was taken and given back.
abbrev turned_away : Task
turned_away = record after {
  ofile = λ fd. some 90;
  files = update (update task.files 0 (record (task.files 0) { ref = 1 })) 0 (task.files 0);
}

refuses : sys_open crowded ≡ done (turned_away, none)
unfolding sys_open open_path leave open_file argpath argstr argint fetchint fetchstr string_end
    namex walk skipelem span skip_slashes find_inode iget ilock iunlock iput iunlockput begin_op
    end_op end_op_count filealloc find_free fileclose free_fd fdalloc release close_file
refuses = refl

open_refused_example : (turned_away.ofile ≡ crowded.ofile) × (turned_away.files ≡ crowded.files)
open_refused_example = open_refused crowded turned_away (λ g z. refl) refuses
