-- ===== src/Fs/Lock/Examples.antt =====
-- An inode of fs.c that is written, and read into another entry of the cache.
use chameleon_os.Base.{◌≡◌, refl, false, none, arith, ◌==◌, if◌then◌else◌}
use chameleon_os.Base.Machine.{ok}
use chameleon_os.Fs.Disk.{Fs, block}
use chameleon_os.Fs.Disk.Room.{put, put_block_lem}
use chameleon_os.Fs.Inode.{put_dinode, iupdate}
use chameleon_os.Fs.Inode.Codec.{HasShorts, SameDinode}
use chameleon_os.Fs.Lock.{done, ilock}
use chameleon_os.Fs.Lock.Trip.{ilock-iupdate}
use chameleon_os.Fs.Sample.{disk, file, room}

abbrev two_entries : Fs
two_entries = record disk {
  inode = λ i. if i == 0 then file else record file { lock = none; valid = false };
}

abbrev written : Fs
written = put two_entries 2 (put_dinode (block two_entries 2) 1 file)

writes : iupdate two_entries 0 ≡ ok written
unfolding iupdate
writes = (put_block_lem 0 two_entries 2 _ (room 1 (omega arith))).0

shorts : HasShorts file
shorts = record {
  type = omega arith;
  major = omega arith;
  minor = omega arith;
  nlink = omega arith;
}

ilock-iupdate_example :
    (fs'' : Fs) × (ilock written 3 1 ≡ done fs'') × SameDinode file (fs''.inode 1) 0
ilock-iupdate_example =
    ilock-iupdate two_entries written 3 0 1 0 writes shorts (omega arith) (omega arith) refl refl
      refl refl
