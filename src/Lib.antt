-- ===== src/Lib.antt =====
-- A model of the kernel of chameleon-os, an x86 system in the tradition of xv6, with theorems about
-- its storage, its processes and some of its library code.
--
-- The parts and their files:
--   Base     numbers with Boolean tests, lists with native indices, runs that may end in `panic`,
--            32-bit unsigned words. No code of its own.
--   Store    what the log asks of the layers below it: the disk, the blocks that B_DIRTY pins in the
--            cache, and how many more disk writes reach the disk before a crash.
--   Bio      bio.c over the memory disk of memide.c, with the sleep lock of a buffer (sleeplock.c).
--            `bget`, `bread`, `bwrite`, `brelse`, `binit` and `iderw` have their names from the code.
--            The list of buffers is a list of indices, and a process that finds a buffer locked is
--            asleep. `Bio.Refine` says which store a cache stands for.
--   Log      log.c over Store: one definition for each function, with its name; `end_op` is split at
--            the release of `log.lock`. A crash is a store whose power for disk writes runs out.
--            `Log.Reserve` has operations in any interleaving as a relation of steps.
--   Pipe     pipe.c: the fields of `struct pipe`; a call of `pipewrite` or `piperead` is a sequence of
--            legs, each from getting `p->lock` to a sleep or the return. `Pipe.Alloc` has `pipealloc`.
--   File     file.c: `filealloc`, `filedup` and `fileclose` on the table of open files, which `fork`
--            and `exit` use; `filestat`, `fileread` and `filewrite` stand in Fs.Io.
--   Proc     proc.c: the process table, with one definition for each critical section under
--            `ptable.lock`, but `allocproc` with its `kalloc` is one definition, though the code gives
--            the lock up in between. `Proc.System` has them in any interleaving as a relation of steps.
--            Results of `kalloc` and `copyuvm` are arguments, and calls of other parts of the kernel
--            are listed as effects.
--   Kalloc   `kalloc`, `kfree` and `freerange` of kalloc.c; memory is a map of words, and the
--            free list is the words at the start of the free pages. The end of the kernel, set by the
--            linker, is a field.
--   Vm       vm.c: the page directory and its page tables are words of pages of Kalloc, an entry is a
--            number, and a null pointer is 0. `Vm.Tree` has an address space as a map from addresses
--            to entries. A call of `panic` ends a run.
--   Strings  string.c on a memory of bytes: an address is a number, and address arithmetic does not
--            wrap.
--   Path     `skipelem` and the loop of `namex` in fs.c, on the bytes before the zero byte.
--   Fs       fs.c, each function run by one process over Log and Store: `Fs.Disk` the superblock and the
--            bitmap, `Fs.Inode` inodes on the disk, `Fs.Map` the contents of files (`bmap`, `itrunc`,
--            `readi`, `writei`), `Fs.Cache` and `Fs.Lock` inodes in memory, `Fs.Dir` directories, and
--            `Fs.Name` path names (`namex`). A change of a block is a new block given to `log_write`. A
--            pointer to an inode is its index in the cache. `Fs.Sample` is a disk for tests.
--   Syscall  syscall.c: the arguments of a system call over the bytes of the process, and the table.
--   Sysfile  sysfile.c over File, Fs, Syscall and Pipe, each call run by one process with its descriptors:
--            the calls that take descriptors in Sysfile, those that take path names in `Sysfile.Names`,
--            the fetching of arguments in `Sysfile.Args`. Each way out of a transaction is a
--            call of `leave` (`end_op` and the return) where the code has one.
--   Console  console.c: `consoleintr` with the characters that `getc` gives, and `consoleread` as legs,
--            each from getting `cons.lock` to a sleep or the return. Calls of `consputc` and `wakeup`
--            are listed as effects.
--   Printf   printf.c and `atoi` of ulib.c. The bytes that are put are a list; a string argument is the
--            bytes before its zero byte.
--   Grep     the regular expressions of grep.c, on the bytes before the zero byte.
--
-- Locks: what runs under one spin lock is one step; the spin locks themselves are not modelled. The
-- log uses Store where the code uses the cache; Bio relates the two for each single operation.
--
-- Bounds and fuel: `int` and `uint` counters of the log and the pipe wrap at 2 ^ 32. The loops of log.c
-- run over the list of logged blocks, those of proc.c over the 64 entries of the table, those of
-- string.c over the count. `elements` of Path and `walk` of Fs run on fuel, for which any number above
-- the length of the path is enough, since each element takes a byte; so do `read_blocks` and
-- `write_blocks`, and `write_chunks` of Fs.Io, for which the number of bytes is enough, since each round
-- moves one or more, and `kill_line` of Console, for which the bytes of the line are enough; `digits_of` of
-- Printf has 32 rounds, the digits of a word in base 2. A `uint`
-- sum `off + n` in `readi` and `writei` wraps at 2 ^ 32. The loops of vm.c and kalloc.c over
-- an address run on fuel: a page is passed with each round, so one more than the pages below the bound
-- is enough.
--
-- Not modelled: sleeping on a buffer inside fs.c; the spin locks, `inituvm`, `loaduvm` and `copyout`
-- of vm.c, `exec`, the functions behind the system calls of sysproc.c, `cprintf`, the keyboard, the IDE driver, the allocator and the other functions of the
-- user library, and the shell, which are parts for which no file exists yet; boot code, assembly,
-- and device and processor registers, which are hardware access; and the small user programs.
pub mod Base
pub mod Store
pub mod Bio
pub mod Log
pub mod Pipe
pub mod File
pub mod Proc
pub mod Strings
pub mod Path
pub mod Grep
pub mod Kalloc
pub mod Fs
pub mod Syscall
pub mod Console
pub mod Vm
pub mod Sysfile
pub mod Printf
