-- ===== src/Fs/Dir.antt =====
-- Directories of fs.c: `namecmp`, `dirlookup`, and the new entry of `dirlink`. A name is the list of its bytes before
-- the zero byte. A `struct dirent` is 16 bytes: the inode number, low byte first, and the name.
pub mod Kept
use chameleon_os.Base.{
  ℕ, zero, suc, ◌+◌, ◌-◌, ◌*◌, ◌/◌, ◌%◌, Bool, true, not, ◌||◌, Option, none, some, List, ◌∷◌, ◌++◌,
  ◌==◌, if◌then◌else◌, length, take, drop, replicate, get_or,
}
use chameleon_os.Base.Machine.{Run, ok, panic, ◌>>=◌}
use chameleon_os.Path.{dirsiz}
use chameleon_os.Fs.Disk.{Fs}
use chameleon_os.Fs.Map.{moved, denied, passed_on, t_dir, readi, writei}
use chameleon_os.Fs.Cache.{iget}

-- `strncmp` of two names, of which `n` bytes are left, returns 0. Past its end a name has zeros.
pub namecmp_from : ℕ → List ℕ → List ℕ → Bool
namecmp_from zero s t = true
namecmp_from (suc n) s t =
    let a = get_or s 0 0 in
    let rest = namecmp_from n (drop 1 s) (drop 1 t) in
    if (a == 0) || not (a == get_or t 0 0) then a == get_or t 0 0 else rest

abbrev pub namecmp : List ℕ → List ℕ → Bool
namecmp s t = namecmp_from dirsiz s t

abbrev pub dirent_size : ℕ
dirent_size = 16

-- `readi` of one entry, which must be whole.
pub read_dirent : Fs → ℕ → ℕ → Run (Fs × List ℕ)
read_dirent fs dp off = do
  (fs', r) ← readi fs dp off dirent_size
  elim r [
    | moved bytes ↦ if length bytes == dirent_size then ok (fs', bytes) else panic
    | denied ↦ panic
    | passed_on major ↦ panic
  ]

abbrev pub dirent_inum : List ℕ → ℕ
dirent_inum de = get_or de 0 0 + get_or de 1 0 * 256

-- The loop of `dirlookup` from byte `off` on, with `n` entries left.
pub dirlookup_from : Fs → ℕ → List ℕ → ℕ → ℕ → Run (Fs × Option (ℕ × ℕ))
dirlookup_from fs dp name off zero = ok (fs, none)
dirlookup_from fs dp name off (suc n) = do
  (fs1, de) ← read_dirent fs dp off
  let rest = dirlookup_from fs1 dp name (off + dirent_size) n
  if dirent_inum de == 0
      then rest
      else if namecmp name (drop 2 de)
      then (do (fs2, ip) ← iget fs1 (fs1.inode dp).dev (dirent_inum de); ok (fs2, some (ip, off)))
      else rest

-- The entries that the loops go through: `off < dp->size` in steps of an entry.
abbrev pub entries : ℕ → ℕ
entries size = (size + (dirent_size - 1)) / dirent_size

-- The inode and the offset of its entry.
pub dirlookup : Fs → ℕ → List ℕ → Run (Fs × Option (ℕ × ℕ))
dirlookup fs dp name =
    if (fs.inode dp).type == t_dir
    then dirlookup_from fs dp name 0 (entries (fs.inode dp).size)
    else panic

-- The loop of `dirlink` that looks for an empty entry.
pub free_entry : Fs → ℕ → ℕ → ℕ → Run (Fs × ℕ)
free_entry fs dp off zero = ok (fs, off)
free_entry fs dp off (suc n) = do
  (fs1, de) ← read_dirent fs dp off
  let rest = free_entry fs1 dp (off + dirent_size) n
  if dirent_inum de == 0 then ok (fs1, off) else rest

-- `strncpy(de.name, name, DIRSIZ)` and the inode number as a `ushort`.
abbrev pub dirent : List ℕ → ℕ → List ℕ
dirent name inum = inum % 256 ∷ inum / 256 % 256 ∷ take dirsiz (name ++ replicate dirsiz 0)

-- `dirlink` once the name is known to be new.
pub add_entry : Fs → ℕ → List ℕ → ℕ → Run Fs
add_entry fs dp name inum = do
  (fs1, off) ← free_entry fs dp 0 (entries (fs.inode dp).size)
  (fs2, r) ← writei fs1 dp (dirent name inum) off
  elim r [
    | moved n ↦ if n == dirent_size then ok fs2 else panic
    | denied ↦ panic
    | passed_on major ↦ panic
  ]
