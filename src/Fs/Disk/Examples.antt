-- ===== src/Fs/Disk/Examples.antt =====
-- The block allocator of fs.c on a disk with three free blocks.
use chameleon_os.Base.{ℕ, ◌<◌, ◌≡◌, refl, true, false, arith, ◌==◌, if◌then◌else◌}
use chameleon_os.Base.Machine.{ok, panic}
use chameleon_os.Log.Room.{HasRoom}
use chameleon_os.Fs.Bits.{bit, byte, get_byte}
use chameleon_os.Fs.Disk.{Fs, block, zero_block, first_clear, balloc_from, balloc, bfree}
use chameleon_os.Fs.Disk.Alloc.{used, taken, take_block-eq}
use chameleon_os.Fs.Disk.Free.{balloc_lem, bfree-balloc}
use chameleon_os.Fs.Sample.{disk, disk-BitmapUsed, room}

five_free : used disk 5 ≡ false
unfolding bit byte get_byte
five_free = refl

balloc_lem_example :
    (fs' : Fs) × (x : ℕ) × (balloc disk ≡ ok (fs', x))
    × (x < 8)
    × (used disk x ≡ false)
    × (block fs' x ≡ zero_block)
    × (used fs' 6 ≡ (if x == 6 then true else used disk 6))
balloc_lem_example =
    balloc_lem disk 5 6 (room 2 (omega arith)) disk-BitmapUsed (omega arith) five_free (omega arith)

takes_five : balloc disk ≡ ok (taken disk 5, 5)
unfolding balloc balloc_from first_clear bit byte get_byte
takes_five = (take_block-eq disk 0 5 (room 2 (omega arith))).0

after_room : HasRoom 1 (taken disk 5).log
after_room = record {
  header = omega arith;
  fits = omega arith;
  busy = omega arith;
  signed = omega arith;
}

bfree-balloc_example :
    (fs'' : Fs) × (bfree (taken disk 5) 5 ≡ ok fs'')
    × (used fs'' 6 ≡ used disk 6)
    × (bfree fs'' 5 ≡ panic)
bfree-balloc_example =
    bfree-balloc disk (taken disk 5) 5 6 takes_five disk-BitmapUsed after_room (omega arith)
