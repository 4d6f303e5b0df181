-- ===== src/Fs/Inode.antt =====
-- Inodes on disk: `iupdate`, and what `ilock` reads, in fs.c.
-- A `struct dinode` is 16 words: type and major, minor and nlink, size, and the 13 addresses.
pub mod Codec
use chameleon_os.Base.{
  ℕ, ◌+◌, ◌-◌, ◌*◌, ◌/◌, ◌%◌, ◌^◌, Bool, true, ◌&&◌, leb, ltb, ◌==◌, if◌then◌else◌, update,
}
use chameleon_os.Base.Machine.{Run}
use chameleon_os.Store.{Block}
use chameleon_os.Fs.Disk.{Fs, Inode, block, put_block}

-- Inodes to a block.
abbrev pub ipb : ℕ
ipb = 8

abbrev pub iblock : Fs → ℕ → ℕ
iblock fs inum = inum / ipb + fs.sb.inodestart

-- The first word of inode `inum` in its block.
abbrev pub dinode_at : ℕ → ℕ
dinode_at inum = inum % ipb * 16

-- Word `j` of the inode.
pub dinode_word : Inode → ℕ → ℕ
dinode_word i j =
    if j == 0
    then i.type % 2 ^ 16 + i.major % 2 ^ 16 * 2 ^ 16
    else if j == 1
    then i.minor % 2 ^ 16 + i.nlink % 2 ^ 16 * 2 ^ 16
    else if j == 2
    then i.size
    else i.addrs (j - 3)

abbrev pub put_dinode : Block → ℕ → Inode → Block
put_dinode b inum i j =
    if leb (dinode_at inum) j && ltb j (dinode_at inum + 16)
    then dinode_word i (j - dinode_at inum)
    else b j

abbrev pub get_type : Block → ℕ → ℕ
get_type b inum = b (dinode_at inum) % 2 ^ 16

-- The fields that `ilock` copies into the cached inode.
unfoldable pub get_dinode : Block → ℕ → Inode → Inode
get_dinode b inum i =
    let k = dinode_at inum in
    record i {
      type = get_type b inum;
      major = b k / 2 ^ 16;
      minor = b (k + 1) % 2 ^ 16;
      nlink = b (k + 1) / 2 ^ 16;
      size = b (k + 2);
      addrs = λ j. b (k + 3 + j);
    }

abbrev pub set_inode : Fs → ℕ → Inode → Fs
set_inode fs ip i = record fs { inode = update fs.inode ip i }

unfoldable pub iupdate : Fs → ℕ → Run Fs
iupdate fs ip =
    let i = fs.inode ip in
    put_block fs (iblock fs i.inum) (put_dinode (block fs (iblock fs i.inum)) i.inum i)
