-- ===== src/Fs/Disk.antt =====
-- The state of the file system, the superblock, and the block allocator of fs.c.
pub mod Room
pub mod Alloc
pub mod Free
pub mod Kept
mod Examples
use chameleon_os.Base.{
  ℕ, zero, suc, ◌+◌, ◌-◌, ◌*◌, ◌/◌, ◌%◌, Bool, true, false, Option, none, some, min, if◌then◌else◌,
}
use chameleon_os.Base.Machine.{Run, ok, panic, ◌>>=◌}
use chameleon_os.Store.{Block, Store}
use chameleon_os.Store
use chameleon_os.Log.{Log, log_write}
use chameleon_os.Fs.Bits.{get_bit, get_byte, set_byte, set_bit, clear_bit}

-- The fields of the superblock that the kernel reads.
pub record Super : Type 0 where
  pub size : ℕ
  pub nblocks : ℕ
  pub ninodes : ℕ
  pub nlog : ℕ
  pub logstart : ℕ
  pub inodestart : ℕ
  pub bmapstart : ℕ

-- The in-memory copy of an inode. A `short` is its 16-bit pattern; `lock` is the process that holds
-- the sleep lock.
pub record Inode : Type 0 where
  pub dev : ℕ
  pub inum : ℕ
  pub ref : ℕ
  pub lock : Option ℕ
  pub valid : Bool
  pub type : ℕ
  pub major : ℕ
  pub minor : ℕ
  pub nlink : ℕ
  pub size : ℕ
  pub addrs : ℕ → ℕ

-- The log and the cache below it, `sb`, and `icache`; an inode is its index there. `has_read` and
-- `has_write` tell for which major numbers `devsw` has the function.
pub record Fs : Type 0 where
  pub log : Log
  pub store : Store
  pub sb : Super
  pub inode : ℕ → Inode
  pub has_read : ℕ → Bool
  pub has_write : ℕ → Bool

-- The contents that `bread` gives.
abbrev pub block : Fs → ℕ → Block
block fs b = Store.bread fs.store b

-- A change of a buffer, `log_write` and `brelse`.
pub put_block : Fs → ℕ → Block → Run Fs
put_block fs b v = do (l, s) ← log_write fs.log fs.store b v; ok (record fs { log = l; store = s })

-- The seven words of `struct superblock`.
abbrev pub superblock : Block → Super
superblock b = record {
  size = b 0;
  nblocks = b 1;
  ninodes = b 2;
  nlog = b 3;
  logstart = b 4;
  inodestart = b 5;
  bmapstart = b 6;
}

abbrev pub readsb : Fs → Super
readsb fs = superblock (block fs 1)

-- `iinit` but for the message on the console; no lock is held at boot.
pub iinit : Fs → Fs
iinit fs = record fs { sb = readsb fs; inode = λ i. record (fs.inode i) { lock = none } }

abbrev pub zero_block : Block
zero_block = λ i. 0

abbrev pub bzero : Fs → ℕ → Run Fs
bzero fs bno = put_block fs bno zero_block

-- Bits to a block of the bitmap.
abbrev pub bpb : ℕ
bpb = 512 * 8

abbrev pub bblock : Fs → ℕ → ℕ
bblock fs b = b / bpb + fs.sb.bmapstart

-- The inner loop of `balloc`, from bit `bi` on, with `n` bits left.
pub first_clear : Block → ℕ → ℕ → Option ℕ
first_clear b bi zero = none
first_clear b bi (suc n) =
    let rest = first_clear b (bi + 1) n in if get_bit b bi then rest else some bi

-- Marks block `b + bi`, which is free, and zeroes it.
pub take_block : Fs → ℕ → ℕ → Run (Fs × ℕ)
take_block fs b bi = do
  let data_block = block fs (bblock fs b)
  fs1 ←
      put_block fs (bblock fs b)
        (set_byte data_block (bi / 8) (set_bit (get_byte data_block (bi / 8)) (bi % 8)))
  fs2 ← bzero fs1 (b + bi)
  ok (fs2, b + bi)

-- The outer loop, from block `b` on, with `n` blocks of the bitmap left.
pub balloc_from : Fs → ℕ → ℕ → Run (Fs × ℕ)
balloc_from fs b zero = panic
balloc_from fs b (suc n) =
    let rest = balloc_from fs (b + bpb) n in
    elim (first_clear (block fs (bblock fs b)) 0 (min bpb (fs.sb.size - b))) [
      | some bi ↦ take_block fs b bi
      | none ↦ rest
    ]

pub balloc : Fs → Run (Fs × ℕ)
balloc fs = balloc_from fs 0 ((fs.sb.size + bpb - 1) / bpb)

pub bfree : Fs → ℕ → Run Fs
bfree fs b =
    let data_block = block fs (bblock fs b) in
    let bi = b % bpb in
    if get_bit data_block bi
    then put_block fs (bblock fs b)
        (set_byte data_block (bi / 8) (clear_bit (get_byte data_block (bi / 8)) (bi % 8)))
    else panic
