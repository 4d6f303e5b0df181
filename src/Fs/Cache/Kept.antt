-- ===== src/Fs/Cache/Kept.antt =====
-- The inode cache of fs.c leaves `log.outstanding` alone.
use chameleon_os.Base.{ℕ, zero, suc, ◌+◌, inl, inr, Option-cases}
use chameleon_os.Fs.Disk.{Fs}
use chameleon_os.Fs.Disk.Kept.{put_block-Keeps}
use chameleon_os.Fs.Map.Kept.{iupdate-Keeps, itrunc-Keeps}
use chameleon_os.Fs.Cache.{
  is_cached, is_unreferenced, ninode, find_inode, iget, ialloc_from, ialloc, idup, free_inode,
}
use chameleon_os.Fs.Kept.{Open, Keeps, Gives, kept_rules}

pub iget-Gives : (n : ℕ) (fs : Fs) (dev inum : ℕ) → Open n fs → Gives n (iget fs dev inum)
unfolding iget
iget-Gives n fs dev inum h =
    elim (Option-cases (find_inode (is_cached dev inum) fs.inode 0 ninode)) [
      | inr (ip, e) ↦ rw (iget, e) (Gives.given _ _ h)
      | inl e ↦
          rw (iget, e)
            (elim (Option-cases (find_inode is_unreferenced fs.inode 0 ninode)) [
              | inr (ip, e') ↦ rw e' (Gives.given _ _ h)
              | inl e' ↦ rw e' Gives.stopped
            ])
    ]

ialloc_from-Gives :
    (n : ℕ) (fs : Fs) (dev type inum k : ℕ) → Open n fs → Gives n (ialloc_from fs dev type inum k)
unfolding ialloc_from
ialloc_from-Gives n fs dev type inum zero h = search kept_rules
ialloc_from-Gives n fs dev type inum (suc k) h =
    let rest = ialloc_from-Gives n fs dev type (inum + 1) k h in
    search (kept_rules, put_block-Keeps, iget-Gives)

pub ialloc-Gives : (n : ℕ) (fs : Fs) (dev type : ℕ) → Open n fs → Gives n (ialloc fs dev type)
unfolding ialloc
ialloc-Gives n fs dev type h = ialloc_from-Gives n fs dev type 1 _ h

pub free_inode-Keeps : (n : ℕ) (fs : Fs) (ip : ℕ) → Open n fs → Keeps n (free_inode fs ip)
unfolding free_inode
free_inode-Keeps n fs ip h = search (kept_rules, itrunc-Keeps, iupdate-Keeps)

pub idup-Open : (n : ℕ) (fs : Fs) (ip : ℕ) → Open n fs → Open n (idup fs ip)
unfolding idup
idup-Open n fs ip h = h
