-- ===== src/Fs/Sample.antt =====
-- A small file system on which the functions of fs.c are run.
use chameleon_os.Base.{
  ℕ, ◌/◌, ◌*◌, ◌≤◌, ◌≡◌, refl, true, false, none, some, ◌&&◌, [], arith, ◌==◌, if◌then◌else◌,
}
use chameleon_os.Log.Room.{HasRoom}
use chameleon_os.Fs.Bits.{bit, byte, get_byte}
use chameleon_os.Fs.Disk.{Fs, Inode}
use chameleon_os.Fs.Disk.Alloc.{used, BitmapUsed}

-- Inode 1, whose only block is block 4.
abbrev pub file : Inode
file = record {
  dev = 1;
  inum = 1;
  ref = 1;
  lock = some 3;
  valid = true;
  type = 2;
  major = 0;
  minor = 0;
  nlink = 1;
  size = 4;
  addrs = λ j. if j == 0 then 4 else 0;
}

-- The boot block, the superblock, the inodes, the bitmap, block 4, and three free blocks.
abbrev pub disk : Fs
disk = record {
  log = record { start = 2; size = 31; outstanding = 1; committing = false; lh = []; waiting = 0 };
  store = record {
    disk = λ b i. if (b == 3) && (i == 0) then 31 else 0;
    pinned = λ b. none;
    power = 100;
  };
  sb = record {
    size = 8;
    nblocks = 4;
    ninodes = 8;
    nlog = 31;
    logstart = 2;
    inodestart = 2;
    bmapstart = 3;
  };
  inode = λ i. file;
  has_read = λ m. false;
  has_write = λ m. false;
}

pub marks :
    (used disk 0 ≡ true) × (used disk 2 ≡ true) × (used disk 3 ≡ true) × (used disk 4 ≡ true)
unfolding bit byte get_byte
marks = (refl, refl, refl, refl)

pub disk-BitmapUsed : BitmapUsed disk
disk-BitmapUsed z lt = let e : z / (512 * 8) ≡ 0 = omega (arith, lt) in rw e marks.2

pub room : (n : ℕ) → n ≤ 30 → HasRoom n disk.log
room n h = record {
  header = omega (arith, h);
  fits = omega (arith, h);
  busy = omega arith;
  signed = omega arith;
}
