-- ===== src/Fs/Lock/Trip.antt =====
-- `iupdate` of fs.c writes what `ilock` reads.
use chameleon_os.Base.{
  ℕ, ◌<◌, ◌≡◌, ◌≢◌, refl, sym, ◌∙◌, subst, true, false, none, some, ◌==◌, ne→==, ==_refl,
}
use chameleon_os.Base.Machine.{ok}
use chameleon_os.Fs.Disk.{Fs, block}
use chameleon_os.Fs.Disk.Room.{put, block-put, put_block-inv}
use chameleon_os.Fs.Inode.{iblock, put_dinode, get_dinode, set_inode, iupdate}
use chameleon_os.Fs.Inode.Codec.{HasShorts, SameDinode, get_dinode-put}
use chameleon_os.Fs.Cache.{is_referenced}
use chameleon_os.Fs.Lock.{done, ilock}

-- Inode `ip` is written by `iupdate` without a panic, and entry `jp` of the cache, maybe another one,
-- has the same inode number, is not valid and not locked, and is in use: an `ilock` of it gives it the
-- fields that entry `ip` had, with each of the 13 addresses. The type is not 0, which `ilock` takes
-- for a panic, and the four `short` fields are 16-bit patterns.
pub ilock-iupdate :
    (fs fs' : Fs) (pid ip jp k : ℕ)
    → iupdate fs ip ≡ ok fs'
    → HasShorts (fs.inode ip)
    → (fs.inode ip).type ≢ 0
    → k < 13
    → (fs.inode jp).inum ≡ (fs.inode ip).inum
    → is_referenced (fs.inode jp) ≡ true
    → (fs.inode jp).lock ≡ none
    → (fs.inode jp).valid ≡ false
    → (fs'' : Fs) × (ilock fs' pid jp ≡ done fs'') × SameDinode (fs.inode ip) (fs''.inode jp) k
unfolding iupdate ilock get_dinode
ilock-iupdate fs fs' pid ip jp k e s nz h same used free invalid =
    let i = fs.inode ip in
    let b = iblock fs i.inum in
    let v = put_dinode (block fs b) i.inum i in
    let fs1 = put fs b v in
    let held = record (fs.inode jp) { lock = some pid } in
    let read = record (get_dinode v i.inum held) { valid = true } in
    let d = get_dinode-put (block fs b) i.inum k i held s h in
    let typed : ((get_dinode v i.inum held).type == 0) ≡ false =
      ne→== _ _ (λ z. nz (sym d.type ∙ z)) in
    let written : block fs1 b ≡ v = block-put fs b v b ∙ rw (==_refl b) refl in
    subst (λ f. (fs'' : Fs) × (ilock f pid jp ≡ done fs'') × SameDinode i (fs''.inode jp) k)
      (sym (put_block-inv fs fs' _ _ e))
      (
        set_inode fs1 jp read,
        rw (ilock, used, free, invalid, same, written, typed) refl,
        rw (==_refl jp) (record {
          type = d.type;
          major = d.major;
          minor = d.minor;
          nlink = d.nlink;
          size = d.size;
          addr = d.addr;
        }),
      )
