-- ===== src/Fs/Disk/Free.antt =====
-- The set of blocks in use under `balloc` and `bfree` of fs.c.
use chameleon_os.Base.{
  ℕ, suc, ◌/◌, ◌%◌, ◌<◌, ◌≡◌, refl, sym, ◌∙◌, ap, inl, inr, true, false, arith, ◌==◌, if◌then◌else◌,
  Bool-cases,
}
use chameleon_os.Base.Machine.{ok, panic}
use chameleon_os.Store.{Block}
use chameleon_os.Log.Room.{HasRoom}
use chameleon_os.Fs.Bits.{get_bit, get_byte, set_byte, clear_bit, get_bit-clear}
use chameleon_os.Fs.Disk.{Fs, block, bpb, bblock, zero_block, balloc, bfree}
use chameleon_os.Fs.Disk.Room.{put, put_block_lem, block-put}
use chameleon_os.Fs.Disk.Alloc.{used, marked, BitmapUsed, balloc-Taken, balloc-total, used-taken}

abbrev pub cleared : Fs → ℕ → Fs
cleared fs x =
    let old = block fs (bblock fs x) in
    let bi = x % bpb in
    put fs (bblock fs x) (set_byte old (bi / 8) (clear_bit (get_byte old (bi / 8)) (bi % 8)))

pub bfree_ok :
    (n : ℕ) (fs : Fs) (x : ℕ)
    → HasRoom (suc n) fs.log
    → used fs x ≡ true
    → (bfree fs x ≡ ok (cleared fs x)) × HasRoom n (cleared fs x).log
unfolding bfree
bfree_ok n fs x r h =
    let old = block fs (bblock fs x) in
    let bi = x % bpb in
    let (p, r') =
      put_block_lem n fs (bblock fs x)
        (set_byte old (bi / 8) (clear_bit (get_byte old (bi / 8)) (bi % 8))) r in
    (rw (bfree, h, p) refl, r')

pub used-cleared :
    (fs : Fs) (x z : ℕ) → used (cleared fs x) z ≡ (if x == z then false else used fs z)
used-cleared fs x z =
    let old = block fs (bblock fs x) in
    let v = set_byte old (x % bpb / 8) (clear_bit (get_byte old (x % bpb / 8)) (x % bpb % 8)) in
    ap (λ (c : Block). get_bit c (z % bpb)) (block-put fs (bblock fs x) v (bblock fs z))
    ∙ elim (Bool-cases (bblock fs x == bblock fs z)) [
      | inl q ↦
          let e : bblock fs x ≡ bblock fs z = ground (arith, q) in
          let same : (x % bpb == z % bpb) ≡ (x == z) = ground (arith, e) in
          rw q (get_bit-clear old (x % bpb) (z % bpb) ∙ rw (same, e) refl)
      | inr q ↦ let ne : (x == z) ≡ false = ground (arith, q) in rw (q, ne) refl
    ]

-- In a transaction with room for two more blocks, on a disk whose bitmap marks its own blocks, and
-- with some block `y` free: `balloc` does not panic; it returns a block of the disk that was free,
-- which is marked and zeroed then, and no other block `z` changes its mark.
pub balloc_lem :
    (fs : Fs) (y z : ℕ)
    → HasRoom 2 fs.log
    → BitmapUsed fs
    → y < fs.sb.size
    → used fs y ≡ false
    → z < fs.sb.size
    → (fs' : Fs) × (x : ℕ) × (balloc fs ≡ ok (fs', x))
      × (x < fs.sb.size)
      × (used fs x ≡ false)
      × (block fs' x ≡ zero_block)
      × (used fs' z ≡ (if x == z then true else used fs z))
balloc_lem fs y z r bm lt free lt' =
    let (fs', x, p, r0) = balloc-total fs y r lt free in
    let t = balloc-Taken fs fs' x p in
    (
      fs',
      x,
      p,
      t.inside,
      t.was_free,
      ap (λ f. block f x) t.after ∙ block-put (marked fs x) x zero_block x ∙ ground arith,
      ap (λ f. used f z) t.after ∙ used-taken fs x z bm t.was_free lt',
    )

-- `bfree` of a block that `balloc` has just returned does not panic, in a transaction with room for
-- one more block, and gives every block of the disk the mark that it had before both calls; a second
-- `bfree` of it panics.
pub bfree-balloc :
    (fs fs' : Fs) (x z : ℕ)
    → balloc fs ≡ ok (fs', x)
    → BitmapUsed fs
    → HasRoom 1 fs'.log
    → z < fs.sb.size
    → (fs'' : Fs) × (bfree fs' x ≡ ok fs'') × (used fs'' z ≡ used fs z) × (bfree fs'' x ≡ panic)
unfolding bfree
bfree-balloc fs fs' x z p bm r lt =
    let t = balloc-Taken fs fs' x p in
    let now : used fs' x ≡ true =
      ap (λ f. used f x) t.after ∙ used-taken fs x x bm t.was_free t.inside ∙ ground arith in
    let (q, r0) = bfree_ok 0 fs' x r now in
    let free : used (cleared fs' x) x ≡ false = used-cleared fs' x x ∙ ground arith in
    (
      cleared fs' x,
      q,
      used-cleared fs' x z
          ∙ ap (λ b. if x == z then false else b)
              (ap (λ f. used f z) t.after ∙ used-taken fs x z bm t.was_free lt)
          ∙ elim (Bool-cases (x == z)) [
            | inl q ↦ let e : x ≡ z = ground (arith, q) in rw q (sym t.was_free ∙ ap (used fs) e)
            | inr q ↦ rw q refl
          ],
      rw (bfree, free) refl,
    )
