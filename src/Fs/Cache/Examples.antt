-- ===== src/Fs/Cache/Examples.antt =====
-- `iget` of fs.c on a cache with one inode in use.
use chameleon_os.Base.{◌<◌, ◌≡◌, refl, false, arith, ◌==◌, if◌then◌else◌}
use chameleon_os.Base.Machine.{ok, uint_add}
use chameleon_os.Fs.Disk.{Fs}
use chameleon_os.Fs.Inode.{set_inode}
use chameleon_os.Fs.Cache.{ninode, find_inode, iget}
use chameleon_os.Fs.Cache.Unique.{IsUnique, iget-IsUnique}
use chameleon_os.Fs.Sample.{disk, file}

-- Only entry 0 is in use.
abbrev one_used : Fs
one_used = record disk { inode = λ i. if i == 0 then file else record file { ref = 0 } }

one_used-IsUnique : IsUnique one_used.inode
one_used-IsUnique = record { once = λ i j h h' r r' d n. ground (arith, r, r') }

-- Inode 2 is not in the cache, and gets entry 1.
abbrev after : Fs
after = set_inode one_used 1 (record file { inum = 2; valid = false })

gets : iget one_used 1 2 ≡ ok (after, 1)
unfolding iget find_inode
gets = refl

iget-IsUnique_example :
    (1 < ninode)
    × ((after.inode 1).dev ≡ 1)
    × ((after.inode 1).inum ≡ 2)
    × ((after.inode 1).ref ≡ uint_add 0 1)
    × IsUnique after.inode
iget-IsUnique_example = iget-IsUnique one_used after 1 2 1 one_used-IsUnique gets
