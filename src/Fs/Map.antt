-- ===== src/Fs/Map.antt =====
-- The contents of a file: `bmap`, `itrunc`, `stati`, `readi` and `writei` of fs.c.
pub mod Slots
pub mod Grow
pub mod Bmap
pub mod Bytes
pub mod Write
pub mod Written
pub mod Saved
pub mod Trip
pub mod Kept
mod Examples
use chameleon_os.Base.{
  ℕ, zero, suc, ◌+◌, ◌-◌, ◌*◌, ◌/◌, ◌%◌, Bool, true, false, not, ◌&&◌, ◌||◌, List, [], ◌∷◌, ◌++◌,
  ◌==◌, ltb, leb, min, if◌then◌else◌, update, length, take, drop,
}
use chameleon_os.Base.Machine.{Run, ok, panic, ◌>>=◌, uint_add}
use chameleon_os.Store.{Block}
use chameleon_os.Fs.Bits.{get_bytes, set_bytes}
use chameleon_os.Fs.Disk.{Fs, Inode, block, put_block, balloc, bfree}
use chameleon_os.Fs.Inode.{set_inode, iupdate}

abbrev pub ndirect : ℕ
ndirect = 12

abbrev pub nindirect : ℕ
nindirect = 128

abbrev pub bsize : ℕ
bsize = 512

abbrev pub set_addr : Fs → ℕ → ℕ → ℕ → Fs
set_addr fs ip j b =
    set_inode fs ip (record (fs.inode ip) { addrs = update (fs.inode ip).addrs j b })

-- `ip->addrs[j]`, for which a block is allocated if there is none.
pub own_addr : Fs → ℕ → ℕ → Run (Fs × ℕ)
own_addr fs ip j =
    if not ((fs.inode ip).addrs j == 0)
    then ok (fs, (fs.inode ip).addrs j)
    else (do (fs1, b) ← balloc fs; ok (set_addr fs1 ip j b, b))

-- Entry `j` of the indirect block `a`, for which a block is allocated if there is none.
pub own_entry : Fs → ℕ → ℕ → Run (Fs × ℕ)
own_entry fs a j =
    if not (block fs a j == 0)
    then ok (fs, block fs a j)
    else (do (fs1, b) ← balloc fs; fs2 ← put_block fs1 a (update (block fs1 a) j b); ok (fs2, b))

pub bmap : Fs → ℕ → ℕ → Run (Fs × ℕ)
bmap fs ip bn =
    if ltb bn ndirect
    then own_addr fs ip bn
    else if ltb (bn - ndirect) nindirect
    then (do (fs1, a) ← own_addr fs ip ndirect; own_entry fs1 a (bn - ndirect))
    else panic

-- The loop of `itrunc` over the direct blocks, from `i` on, with `n` left.
pub free_direct : Fs → ℕ → ℕ → ℕ → Run Fs
free_direct fs ip i zero = ok fs
free_direct fs ip i (suc n) = do
  fs1 ←
      if (fs.inode ip).addrs i == 0
      then ok fs
      else (do fs' ← bfree fs ((fs.inode ip).addrs i); ok (set_addr fs' ip i 0))
  free_direct fs1 ip (i + 1) n

-- The loop over the entries of the indirect block `a`.
pub free_entries : Fs → ℕ → ℕ → ℕ → Run Fs
free_entries fs a j zero = ok fs
free_entries fs a j (suc n) = do
  fs1 ← if block fs a j == 0 then ok fs else bfree fs (block fs a j)
  free_entries fs1 a (j + 1) n

pub itrunc : Fs → ℕ → Run Fs
itrunc fs ip = do
  fs1 ← free_direct fs ip 0 ndirect
  let a = (fs1.inode ip).addrs ndirect
  fs2 ← if a == 0 then ok fs1 else (do
    fs' ← free_entries fs1 a 0 nindirect
    fs'' ← bfree fs' a
    ok (set_addr fs'' ip ndirect 0))
  iupdate (set_inode fs2 ip (record (fs2.inode ip) { size = 0 })) ip

pub record Stat : Type 0 where
  pub dev : ℕ
  pub ino : ℕ
  pub type : ℕ
  pub nlink : ℕ
  pub size : ℕ

abbrev pub stati : Fs → ℕ → Stat
stati fs ip =
    let i = fs.inode ip in
    record { dev = i.dev; ino = i.inum; type = i.type; nlink = i.nlink; size = i.size }

abbrev pub t_dir : ℕ
t_dir = 1

abbrev pub t_dev : ℕ
t_dev = 3

abbrev pub ndev : ℕ
ndev = 10

-- How `readi` and `writei` end: with what was moved, with -1, or with the call of the function that
-- `devsw` has for the device.
pub data Transfer (A : Type 0) : Type 0 where
  moved : A → Transfer A
  denied : Transfer A
  passed_on : ℕ → Transfer A

-- A negative `major` has a pattern of 2 ^ 15 or more.
abbrev pub device : {A : Type 0} → (ℕ → Bool) → ℕ → Transfer A
device has major = if leb ndev major || not (has major) then denied else passed_on major

-- The loop of `readi`, with `left` bytes to go.
pub read_blocks : Fs → ℕ → ℕ → ℕ → ℕ → Run (Fs × List ℕ)
read_blocks fs ip off left zero = ok (fs, [])
read_blocks fs ip off left (suc fuel) = elim (left == 0) [
  | true ↦ ok (fs, [])
  | false ↦ do
    (fs1, b) ← bmap fs ip (off / bsize)
    let m = min left (bsize - off % bsize)
    (fs2, rest) ← read_blocks fs1 ip (off + m) (left - m) fuel
    ok (fs2, get_bytes (block fs1 b) (off % bsize) m ++ rest)
]

pub readi : Fs → ℕ → ℕ → ℕ → Run (Fs × Transfer (List ℕ))
readi fs ip off n =
    let i = fs.inode ip in
    let end = uint_add off n in
    let m = if ltb i.size end then i.size - off else n in
    if i.type == t_dev
    then ok (fs, device fs.has_read i.major)
    else if ltb i.size off || ltb end off
    then ok (fs, denied)
    else (do (fs', bytes) ← read_blocks fs ip off m m; ok (fs', moved bytes))

-- The loop of `writei`, with the bytes that are left.
pub write_blocks : Fs → ℕ → ℕ → List ℕ → ℕ → Run Fs
write_blocks fs ip off src zero = ok fs
write_blocks fs ip off src (suc fuel) = elim (length src == 0) [
  | true ↦ ok fs
  | false ↦ do
    (fs1, b) ← bmap fs ip (off / bsize)
    let m = min (length src) (bsize - off % bsize)
    fs2 ← put_block fs1 b (set_bytes (block fs1 b) (off % bsize) (take m src))
    write_blocks fs2 ip (off + m) (drop m src) fuel
]

pub writei : Fs → ℕ → List ℕ → ℕ → Run (Fs × Transfer ℕ)
writei fs ip src off =
    let i = fs.inode ip in
    let n = length src in
    let end = uint_add off n in
    if i.type == t_dev
    then ok (fs, device fs.has_write i.major)
    else if ltb i.size off || ltb end off
    then ok (fs, denied)
    else if ltb ((ndirect + nindirect) * bsize) end
    then ok (fs, denied)
    else (do
      fs1 ← write_blocks fs ip off src n
      fs2 ←
          if ltb 0 n && ltb (fs1.inode ip).size (off + n)
          then iupdate (set_inode fs1 ip (record (fs1.inode ip) { size = off + n })) ip
          else ok fs1
      ok (fs2, moved n))
