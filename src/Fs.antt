-- ===== src/Fs.antt =====
-- fs.c: the file system above the log, from the block allocator up to path names. Each function is
-- run by one process; it changes blocks by `log_write` alone.
pub mod Bits
pub mod Disk
pub mod Inode
pub mod Map
pub mod Cache
pub mod Lock
pub mod Dir
pub mod Name
pub mod Sample
pub mod Io
pub mod Kept
