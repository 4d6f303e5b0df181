-- ===== src/Fs/Cache.antt =====
-- The inode cache of fs.c: `iget`, `idup` and `ialloc`, and the part of `iput` that frees an inode.
pub mod Unique
pub mod Kept
mod Examples
use chameleon_os.Base.{
  ℕ, zero, suc, ◌+◌, ◌-◌, ◌%◌, ◌^◌, Bool, true, false, not, ◌&&◌, ◌||◌, Option, none, some, ◌==◌,
  ltb, leb, if◌then◌else◌, update,
}
use chameleon_os.Base.Machine.{Run, ok, panic, ◌>>=◌, uint_add}
use chameleon_os.Store.{Block}
use chameleon_os.Fs.Disk.{Fs, Inode, block, put_block}
use chameleon_os.Fs.Inode.{iblock, dinode_at, get_type, set_inode, iupdate}
use chameleon_os.Fs.Map.{itrunc}

abbrev pub ninode : ℕ
ninode = 50

-- `ip->ref` is an `int`, as its 32-bit pattern.
abbrev pub is_referenced : Inode → Bool
is_referenced i = ltb 0 i.ref && ltb i.ref (2 ^ 31)

-- The first entry of `icache` from `i` on, `n` of them left, that passes the test.
unfoldable pub find_inode : (Inode → Bool) → (ℕ → Inode) → ℕ → ℕ → Option ℕ
find_inode test inodes i zero = none
find_inode test inodes i (suc n) =
    let rest = find_inode test inodes (i + 1) n in if test (inodes i) then some i else rest

abbrev pub is_cached : ℕ → ℕ → Inode → Bool
is_cached dev inum i = is_referenced i && ((i.dev == dev) && (i.inum == inum))

abbrev pub is_unreferenced : Inode → Bool
is_unreferenced i = i.ref == 0

-- One scan does both searches in the code; the first ends it.
unfoldable pub iget : Fs → ℕ → ℕ → Run (Fs × ℕ)
iget fs dev inum = elim (find_inode (is_cached dev inum) fs.inode 0 ninode) [
  | some ip ↦ ok (set_inode fs ip (record (fs.inode ip) { ref = uint_add (fs.inode ip).ref 1 }), ip)
  | none ↦ elim (find_inode is_unreferenced fs.inode 0 ninode) [
    | some ip ↦ ok (
      set_inode fs ip (record (fs.inode ip) { dev = dev; inum = inum; ref = 1; valid = false }),
      ip,
    )
    | none ↦ panic
  ]
]

-- `memset(dip, 0, sizeof(*dip)); dip->type = type`
abbrev pub clear_dinode : Block → ℕ → ℕ → Block
clear_dinode b inum type j =
    if j == dinode_at inum
    then type % 2 ^ 16
    else if leb (dinode_at inum) j && ltb j (dinode_at inum + 16)
    then 0
    else b j

-- The loop of `ialloc`, from inode `inum` on, with `n` left.
pub ialloc_from : Fs → ℕ → ℕ → ℕ → ℕ → Run (Fs × ℕ)
ialloc_from fs dev type inum zero = panic
ialloc_from fs dev type inum (suc n) =
    let b = block fs (iblock fs inum) in
    let rest = ialloc_from fs dev type (inum + 1) n in
    if get_type b inum == 0
    then (do fs1 ← put_block fs (iblock fs inum) (clear_dinode b inum type); iget fs1 dev inum)
    else rest

pub ialloc : Fs → ℕ → ℕ → Run (Fs × ℕ)
ialloc fs dev type = ialloc_from fs dev type 1 (fs.sb.ninodes - 1)

pub idup : Fs → ℕ → Fs
idup fs ip = set_inode fs ip (record (fs.inode ip) { ref = uint_add (fs.inode ip).ref 1 })

-- What `iput` does to an inode without links and without other references.
pub free_inode : Fs → ℕ → Run Fs
free_inode fs ip = do
  fs1 ← itrunc fs ip
  fs2 ← iupdate (set_inode fs1 ip (record (fs1.inode ip) { type = 0 })) ip
  ok (set_inode fs2 ip (record (fs2.inode ip) { valid = false }))
