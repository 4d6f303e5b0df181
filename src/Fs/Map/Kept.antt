-- ===== src/Fs/Map/Kept.antt =====
-- The contents of files in fs.c: `bmap`, `itrunc`, `readi` and `writei` leave `log.outstanding` alone.
use chameleon_os.Base.{ℕ, zero, suc, ◌+◌, inl, inr, List, Bool-cases, ◌==◌, length}
use chameleon_os.Fs.Disk.{Fs}
use chameleon_os.Fs.Disk.Kept.{put_block-Keeps, balloc-Gives, bfree-Keeps}
use chameleon_os.Fs.Inode.{iupdate}
use chameleon_os.Fs.Map.{
  own_addr, own_entry, bmap, free_direct, free_entries, itrunc, read_blocks, readi, write_blocks,
  writei,
}
use chameleon_os.Fs.Kept.{Open, Keeps, Gives, Keeps-bind, Gives-then, Keeps-then, kept_rules}

ruleset block_rules = (kept_rules, put_block-Keeps, balloc-Gives, bfree-Keeps)

pub iupdate-Keeps : (n : ℕ) (fs : Fs) (ip : ℕ) → Open n fs → Keeps n (iupdate fs ip)
unfolding iupdate
iupdate-Keeps n fs ip h = search block_rules

own_addr-Gives : (n : ℕ) (fs : Fs) (ip j : ℕ) → Open n fs → Gives n (own_addr fs ip j)
unfolding own_addr
own_addr-Gives n fs ip j h = search block_rules

own_entry-Gives : (n : ℕ) (fs : Fs) (a j : ℕ) → Open n fs → Gives n (own_entry fs a j)
unfolding own_entry
own_entry-Gives n fs a j h = search block_rules

pub bmap-Gives : (n : ℕ) (fs : Fs) (ip bn : ℕ) → Open n fs → Gives n (bmap fs ip bn)
unfolding bmap
bmap-Gives n fs ip bn h = search (block_rules, own_addr-Gives, own_entry-Gives)

free_direct-Keeps : (n : ℕ) (fs : Fs) (ip i k : ℕ) → Open n fs → Keeps n (free_direct fs ip i k)
unfolding free_direct
free_direct-Keeps n fs ip i zero h = search block_rules
free_direct-Keeps n fs ip i (suc k) h =
    Keeps-bind _ _ (search block_rules) (λ fs1 h1. free_direct-Keeps n fs1 ip (i + 1) k h1)

free_entries-Keeps : (n : ℕ) (fs : Fs) (a j k : ℕ) → Open n fs → Keeps n (free_entries fs a j k)
unfolding free_entries
free_entries-Keeps n fs a j zero h = search block_rules
free_entries-Keeps n fs a j (suc k) h =
    Keeps-bind _ _ (search block_rules) (λ fs1 h1. free_entries-Keeps n fs1 a (j + 1) k h1)

pub itrunc-Keeps : (n : ℕ) (fs : Fs) (ip : ℕ) → Open n fs → Keeps n (itrunc fs ip)
unfolding itrunc
itrunc-Keeps n fs ip h =
    search (block_rules, iupdate-Keeps, free_direct-Keeps, free_entries-Keeps) depth 12

read_blocks-Gives :
    (n : ℕ) (fs : Fs) (ip off left k : ℕ) → Open n fs → Gives n (read_blocks fs ip off left k)
unfolding read_blocks
read_blocks-Gives n fs ip off left zero h = search block_rules
read_blocks-Gives n fs ip off left (suc k) h = elim (Bool-cases (left == 0)) [
  | inl q ↦ rw (read_blocks, q) (search block_rules)
  | inr q ↦
      rw (read_blocks, q)
        (Gives-then _ _ (bmap-Gives n fs ip _ h) (λ fs1 b h1.
          Gives-then _ _ (read_blocks-Gives n fs1 ip _ _ k h1) (λ fs2 rest h2. Gives.given _ _ h2)))
]

pub readi-Gives : (n : ℕ) (fs : Fs) (ip off m : ℕ) → Open n fs → Gives n (readi fs ip off m)
unfolding readi
readi-Gives n fs ip off m h = search (block_rules, read_blocks-Gives)

write_blocks-Keeps :
    (n : ℕ) (fs : Fs) (ip off : ℕ) (src : List ℕ) (k : ℕ)
    → Open n fs
    → Keeps n (write_blocks fs ip off src k)
unfolding write_blocks
write_blocks-Keeps n fs ip off src zero h = search block_rules
write_blocks-Keeps n fs ip off src (suc k) h = elim (Bool-cases (length src == 0)) [
  | inl q ↦ rw (write_blocks, q) (search block_rules)
  | inr q ↦
      rw (write_blocks, q)
        (Keeps-then _ _ (bmap-Gives n fs ip _ h) (λ fs1 b h1.
          Keeps-bind _ _ (put_block-Keeps n fs1 b _ h1)
            (λ fs2 h2. write_blocks-Keeps n fs2 ip _ _ k h2)))
]

pub writei-Gives :
    (n : ℕ) (fs : Fs) (ip : ℕ) (src : List ℕ) (off : ℕ) → Open n fs → Gives n (writei fs ip src off)
unfolding writei
writei-Gives n fs ip src off h = search (block_rules, iupdate-Keeps, write_blocks-Keeps) depth 12
