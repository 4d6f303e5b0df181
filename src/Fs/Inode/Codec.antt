-- ===== src/Fs/Inode/Codec.antt =====
-- A `struct dinode` that fs.c writes and reads again.
use chameleon_os.Base.{
  ℕ, ◌+◌, ◌-◌, ◌/◌, ◌%◌, ◌^◌, ◌<◌, ◌≡◌, refl, sym, ◌∙◌, ap, true, arith, ltb, leb,
}
use chameleon_os.Store.{Block}
use chameleon_os.Fs.Disk.{Inode}
use chameleon_os.Fs.Inode.{dinode_at, dinode_word, put_dinode, get_dinode}

-- The `short` fields are 16-bit patterns.
pub record HasShorts (i : Inode) : Type 0 where
  pub type : i.type < 2 ^ 16
  pub major : i.major < 2 ^ 16
  pub minor : i.minor < 2 ^ 16
  pub nlink : i.nlink < 2 ^ 16

-- The fields that are on the disk, address `k` among them.
pub record SameDinode (i i' : Inode) (k : ℕ) : Type 0 where
  pub type : i'.type ≡ i.type
  pub major : i'.major ≡ i.major
  pub minor : i'.minor ≡ i.minor
  pub nlink : i'.nlink ≡ i.nlink
  pub size : i'.size ≡ i.size
  pub addr : i'.addrs k ≡ i.addrs k

word_back :
    (b : Block) (inum j : ℕ) (i : Inode)
    → j < 16
    → put_dinode b inum i (dinode_at inum + j) ≡ dinode_word i j
word_back b inum j i h =
    let lo : leb (dinode_at inum) (dinode_at inum + j) ≡ true = ground arith in
    let hi : ltb (dinode_at inum + j) (dinode_at inum + 16) ≡ true = ground arith in
    let e : dinode_at inum + j - dinode_at inum ≡ j = omega arith in rw (lo, hi, e) refl

pub get_dinode-put :
    (b : Block) (inum k : ℕ) (i old : Inode)
    → HasShorts i
    → k < 13
    → SameDinode i (get_dinode (put_dinode b inum i) inum old) k
unfolding get_dinode dinode_word
get_dinode-put b inum k i old s h =
    let w = word_back b inum in
    let a3 : dinode_at inum + 3 + k ≡ dinode_at inum + (3 + k) = omega arith in
    let a0 : dinode_at inum + 0 ≡ dinode_at inum = omega arith in
    let type_major = ap (put_dinode b inum i) (sym a0) ∙ w 0 i (omega arith) in
    let e3 : 3 + k - 3 ≡ k = omega arith in
    record {
      type = ap (λ x. x % 2 ^ 16) type_major ∙ omega (arith, s.type, s.major);
      major = ap (λ x. x / 2 ^ 16) type_major ∙ omega (arith, s.type, s.major);
      minor = ap (λ x. x % 2 ^ 16) (w 1 i (omega arith)) ∙ omega (arith, s.minor, s.nlink);
      nlink = ap (λ x. x / 2 ^ 16) (w 1 i (omega arith)) ∙ omega (arith, s.minor, s.nlink);
      size = w 2 i (omega arith);
      addr = ap (put_dinode b inum i) a3 ∙ w (3 + k) i (omega arith) ∙ rw e3 (ground arith);
    }
