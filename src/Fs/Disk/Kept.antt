-- ===== src/Fs/Disk/Kept.antt =====
-- The block allocator of fs.c leaves `log.outstanding` alone.
use chameleon_os.Base.{ℕ, zero, suc, ◌+◌, ◌∙◌, ap, inl, inr}
use chameleon_os.Base.Machine.{Run-cases}
use chameleon_os.Store.{Block, Store}
use chameleon_os.Log.{Log, log_write}
use chameleon_os.Log.Room.{log_write-inv}
use chameleon_os.Fs.Disk.{
  Fs, block, put_block, bpb, bblock, first_clear, take_block, balloc_from, balloc, bfree,
}
use chameleon_os.Fs.Kept.{Open, Keeps, Gives, Gives-option, kept_rules}

pub put_block-Keeps : (n : ℕ) (fs : Fs) (b : ℕ) (v : Block) → Open n fs → Keeps n (put_block fs b v)
unfolding put_block
put_block-Keeps n fs b v h = elim (Run-cases (log_write fs.log fs.store b v)) [
  | inl e ↦ rw (put_block, e) Keeps.stopped
  | inr ((l, s), e) ↦
      rw (put_block, e)
        (Keeps.kept (record fs { log = l; store = s })
          (ap (λ (r : Log × Store). r.0.outstanding) (log_write-inv fs.log fs.store b v (l, s) e)
            ∙ h))
]

take_block-Gives : (n : ℕ) (fs : Fs) (b bi : ℕ) → Open n fs → Gives n (take_block fs b bi)
unfolding take_block
take_block-Gives n fs b bi h = search (kept_rules, put_block-Keeps)

balloc_from-Gives : (n : ℕ) (fs : Fs) (b k : ℕ) → Open n fs → Gives n (balloc_from fs b k)
unfolding balloc_from
balloc_from-Gives n fs b zero h = search kept_rules
balloc_from-Gives n fs b (suc k) h =
    let rest = balloc_from-Gives n fs (b + bpb) k h in
    Gives-option (first_clear (block fs (bblock fs b)) 0 _) _ _ rest
      (λ bi. take_block-Gives n fs b bi h)

pub balloc-Gives : (n : ℕ) (fs : Fs) → Open n fs → Gives n (balloc fs)
unfolding balloc
balloc-Gives n fs h = balloc_from-Gives n fs 0 _ h

pub bfree-Keeps : (n : ℕ) (fs : Fs) (b : ℕ) → Open n fs → Keeps n (bfree fs b)
unfolding bfree
bfree-Keeps n fs b h = search (kept_rules, put_block-Keeps)
