-- ===== src/Fs/Map/Examples.antt =====
-- `writei` and `readi` of fs.c on a file of 4 bytes.
use chameleon_os.Base.{
  ℕ, ◌≤◌, ◌≡◌, ◌≢◌, refl, sym, ◌∙◌, ap, List, [], ◌∷◌, arith, ◌==◌, length, if◌then◌else◌,
}
use chameleon_os.Base.Machine.{ok}
use chameleon_os.Fs.Bits.{set_bytes}
use chameleon_os.Fs.Sample.{file, disk, marks, disk-BitmapUsed, room}
use chameleon_os.Fs.Disk.{Fs, block}
use chameleon_os.Fs.Disk.Room.{put, put_block_lem}
use chameleon_os.Fs.Disk.Alloc.{used}
use chameleon_os.Fs.Inode.{set_inode, put_dinode, iupdate}
use chameleon_os.Fs.Map.{moved, write_blocks, writei, readi}
use chameleon_os.Fs.Map.Slots.{slot, WellMapped}
use chameleon_os.Fs.Map.Bmap.{bmap_hit}
use chameleon_os.Fs.Map.Bytes.{max_bytes, file_byte}
use chameleon_os.Fs.Map.Written.{Small, spliced}
use chameleon_os.Fs.Map.Trip.{writei_lem, writei-readi}

disk_slot : (i : ℕ) → slot disk 0 i ≡ (if i == 0 then 4 else 0)
unfolding slot
disk_slot i = ground arith

only_first : (i : ℕ) → slot disk 0 i ≢ 0 → i ≡ 0
only_first i n = ground (arith, n, disk_slot i)

disk-WellMapped : WellMapped disk 0
disk-WellMapped = record {
  bitmap_inside = λ z lt. omega (arith, lt);
  bitmap = disk-BitmapUsed;
  boot_used = marks.0;
  inode_used = marks.1;
  inode_inside = omega arith;
  layout = λ z lt e. omega (arith, e);
  in_use = λ i h n.
      ap (λ k. used disk (slot disk 0 k)) (only_first i n) ∙ ap (used disk) (disk_slot 0) ∙ marks.3;
  inside = λ i h n. ground (arith, n, disk_slot i);
  distinct = λ i j h h' e n. only_first i n ∙ sym (only_first j (λ z. n (e ∙ z)));
  not_bitmap = λ i z h lt n e. ground (arith, n, e, lt, disk_slot i);
  not_inode = λ i h n e. ground (arith, n, e, disk_slot i);
}

abbrev src : List ℕ
src = 7 ∷ 8 ∷ 9 ∷ []

src-Small : Small src
src-Small = (omega arith, (omega arith, (omega arith, tt)))

-- The three bytes go over the last two of the file and one past it.
abbrev looped : Fs
looped = put disk 4 (set_bytes (block disk 4) 2 src)

abbrev resized : Fs
resized = set_inode looped 0 (record file { size = 5 })

abbrev after : Fs
after = put resized 2 (put_dinode (block resized 2) 1 (record file { size = 5 }))

loop : write_blocks disk 0 2 src 3 ≡ ok looped
unfolding write_blocks
loop =
    let at : slot disk 0 0 ≡ 4 = disk_slot 0 in
    let hit = bmap_hit disk 0 0 (omega arith) (λ e. absurd (omega (arith, sym at ∙ e))) in
    rw (hit, at, (put_block_lem 1 disk 4 (set_bytes (block disk 4) 2 src) (room 2 (omega arith))).0)
      refl

saves : iupdate resized 0 ≡ ok after
unfolding iupdate
saves =
    (put_block_lem 0 resized 2 _
      (put_block_lem 1 disk 4 (set_bytes (block disk 4) 2 src) (room 2 (omega arith))).1).0

runs : writei disk 0 src 2 ≡ ok (after, moved 3)
unfolding writei
runs = rw (loop, saves) refl

writei_lem_example :
    (◌≡◌ {A = ℕ} 3 (length src))
    × (2 ≤ 4)
    × (5 ≤ max_bytes)
    × (file_byte after 0 3 ≡ spliced src 2 3 (file_byte disk 0 3))
    × ((after.inode 0).size ≡ 5)
    × WellMapped after 0
writei_lem_example =
    writei_lem disk after 0 2 3 3 src disk-WellMapped src-Small (omega arith) (omega arith) runs
      (omega arith)

writei-readi_example : readi after 0 2 3 ≡ ok (after, moved (7 ∷ 8 ∷ 9 ∷ []))
writei-readi_example =
    writei-readi disk after 0 2 3 src disk-WellMapped src-Small (omega arith) (omega arith) runs
