-- ===== src/Fs/Map/Slots.antt =====
-- The blocks of a file as fs.c finds them: 13 addresses in the inode, and 128 in the indirect block.
use chameleon_os.Base.{
  ℕ, ◌+◌, ◌-◌, ◌<◌, ◌≡◌, ◌≢◌, refl, sym, ◌∙◌, ap, subst, inl, inr, true, false, arith, ◌==◌, ltb,
  leb, if◌then◌else◌, Bool-cases, ne→==, ==_refl,
}
use chameleon_os.Store.{Block}
use chameleon_os.Fs.Disk.{Fs, Inode, block, bblock, zero_block}
use chameleon_os.Fs.Disk.Alloc.{used, BitmapUsed}
use chameleon_os.Fs.Inode.{iblock}
use chameleon_os.Fs.Map.{ndirect}

-- Slots 0 to 12 are `ip->addrs`, slots 13 to 140 the entries of block `ip->addrs[12]`.
unfoldable pub slot : Fs → ℕ → ℕ → ℕ
slot fs ip i =
    let addrs = (fs.inode ip).addrs in
    if leb i ndirect
    then addrs i
    else if addrs ndirect == 0
    then 0
    else block fs (addrs ndirect) (i - (ndirect + 1))

-- The slot of block `bn` of the file.
abbrev pub slot_of : ℕ → ℕ
slot_of bn = if ltb bn ndirect then bn else bn + 1

-- What the file has there; a block that was never written is read as zeros.
unfoldable pub content : Fs → ℕ → ℕ → Block
content fs ip i = if slot fs ip i == 0 then zero_block else block fs (slot fs ip i)

-- The blocks of the file are marked in the bitmap, on the disk, each used once, and none of them
-- belongs to the bitmap or has the inode.
pub record WellMapped (fs : Fs) (ip : ℕ) : Type 0 where
  pub bitmap : BitmapUsed fs
  pub bitmap_inside : (z : ℕ) → z < fs.sb.size → bblock fs z < fs.sb.size
  pub boot_used : used fs 0 ≡ true
  pub inode_used : used fs (iblock fs (fs.inode ip).inum) ≡ true
  pub inode_inside : iblock fs (fs.inode ip).inum < fs.sb.size
  pub layout : (z : ℕ) → z < fs.sb.size → bblock fs z ≢ iblock fs (fs.inode ip).inum
  pub in_use : (i : ℕ) → i < 141 → slot fs ip i ≢ 0 → used fs (slot fs ip i) ≡ true
  pub inside : (i : ℕ) → i < 141 → slot fs ip i ≢ 0 → slot fs ip i < fs.sb.size
  pub distinct :
      (i j : ℕ) → i < 141 → j < 141 → slot fs ip i ≡ slot fs ip j → slot fs ip i ≢ 0 → i ≡ j
  pub not_bitmap :
      (i z : ℕ) → i < 141 → z < fs.sb.size → slot fs ip i ≢ 0 → bblock fs z ≢ slot fs ip i
  pub not_inode : (i : ℕ) → i < 141 → slot fs ip i ≢ 0 → iblock fs (fs.inode ip).inum ≢ slot fs ip i

-- The fields of an inode that stay when its blocks change.
pub record SameFile (i i' : Inode) : Type 0 where
  pub inum : i'.inum ≡ i.inum
  pub type : i'.type ≡ i.type
  pub size : i'.size ≡ i.size
  pub major : i'.major ≡ i.major

-- Block `x`, which was free, has become the block of slot `j`, which had none.
pub record Grown (fs fs' : Fs) (ip j x : ℕ) : Type 0 where
  pub sb_same : fs'.sb ≡ fs.sb
  pub file_same : SameFile (fs.inode ip) (fs'.inode ip)
  pub slots : (i : ℕ) → i < 141 → slot fs' ip i ≡ (if j == i then x else slot fs ip i)
  pub empty : slot fs ip j ≡ 0
  pub was_free : used fs x ≡ false
  pub on_disk : x < fs.sb.size
  pub marks : (z : ℕ) → z < fs.sb.size → used fs' z ≡ (if x == z then true else used fs z)
  pub zeroed : block fs' x ≡ zero_block
  pub kept :
      (i : ℕ)
      → i < 141
      → i ≢ ndirect
      → slot fs ip i ≢ 0
      → block fs' (slot fs ip i) ≡ block fs (slot fs ip i)

module _ (fs fs' : Fs) (ip j x : ℕ) (w : WellMapped fs ip) (g : Grown fs fs' ip j x) where
  x_new : (z : ℕ) → used fs z ≡ true → x ≢ z
  x_new z u e = cc (sym g.was_free ∙ ap (used fs) e ∙ u)

  pub x_nonzero : x ≢ 0
  x_nonzero = x_new 0 w.boot_used

  slot_new : (i : ℕ) → i < 141 → (j == i) ≡ true → (slot fs' ip i ≡ x) × (slot fs ip i ≡ 0)
  slot_new i h q =
      let e : j ≡ i = ground (arith, q) in
      (g.slots i h ∙ rw q refl, ap (slot fs ip) (sym e) ∙ g.empty)

  pub slot_old : (i : ℕ) → i < 141 → (j == i) ≡ false → slot fs' ip i ≡ slot fs ip i
  slot_old i h q = g.slots i h ∙ rw q refl

  pub Grown-content : (i : ℕ) → i < 141 → i ≢ ndirect → content fs' ip i ≡ content fs ip i
  unfolding content
  Grown-content i h n = elim (Bool-cases (j == i)) [
    | inl q ↦ let (e, e') = slot_new i h q in rw (content, e, e', ne→== x 0 x_nonzero) g.zeroed
    | inr q ↦ elim (Bool-cases (slot fs ip i == 0)) [
      | inl z ↦ rw (content, slot_old i h q, z) refl
      | inr z ↦ rw (content, slot_old i h q, z) (g.kept i h n (λ e. ground (arith, z, e)))
    ]
  ]

  marked_still : (z : ℕ) → z < fs.sb.size → used fs z ≡ true → used fs' z ≡ true
  marked_still z lt u = g.marks z lt ∙ rw (ne→== x z (x_new z u)) u

  iblock_same : iblock fs' (fs'.inode ip).inum ≡ iblock fs (fs.inode ip).inum
  iblock_same = rw (g.sb_same, g.file_same.inum) refl

  bblock_same : (z : ℕ) → bblock fs' z ≡ bblock fs z
  bblock_same z = rw g.sb_same refl

  size_same : fs'.sb.size ≡ fs.sb.size
  size_same = rw g.sb_same refl

  -- A property that the new block has, and that the blocks of the file had before.
  every_slot :
      (P : ℕ → Type 0)
      → P x
      → ((i : ℕ) → i < 141 → slot fs ip i ≢ 0 → P (slot fs ip i))
      → (i : ℕ) → i < 141
      → slot fs' ip i ≢ 0
      → P (slot fs' ip i)
  every_slot P new old i h n = elim (Bool-cases (j == i)) [
    | inl q ↦ subst P (sym (slot_new i h q).0) new
    | inr q ↦ subst P (sym (slot_old i h q)) (old i h (λ e. n (slot_old i h q ∙ e)))
  ]

  -- No old block is the new one.
  apart : (i : ℕ) → i < 141 → slot fs ip i ≢ 0 → x ≢ slot fs ip i
  apart i h n = x_new (slot fs ip i) (w.in_use i h n)

  distinct_after :
      (i k : ℕ) → i < 141 → k < 141 → slot fs' ip i ≡ slot fs' ip k → slot fs' ip i ≢ 0 → i ≡ k
  distinct_after i k h h' e n = elim (Bool-cases (j == i)) [
    | inl q ↦ elim (Bool-cases (j == k)) [
      | inl q' ↦ ground (arith, q, q')
      | inr q' ↦
          let f = sym (slot_new i h q).0 ∙ e ∙ slot_old k h' q' in
          absurd (apart k h' (λ z. x_nonzero (f ∙ z)) f)
    ]
    | inr q ↦ elim (Bool-cases (j == k)) [
      | inl q' ↦
          let f = sym (slot_new k h' q').0 ∙ sym e ∙ slot_old i h q in
          absurd (apart i h (λ z. x_nonzero (f ∙ z)) f)
      | inr q' ↦
          w.distinct i k h h' (sym (slot_old i h q) ∙ e ∙ slot_old k h' q')
            (λ z. n (slot_old i h q ∙ z))
    ]
  ]

  pub Grown-WellMapped : WellMapped fs' ip
  Grown-WellMapped = record {
    bitmap_inside =
        λ z lt. rw (bblock_same z, size_same) (w.bitmap_inside z (subst (λ k. z < k) size_same lt));
    bitmap = λ z lt.
        subst (λ b. used fs' b ≡ true) (sym (bblock_same z))
          (marked_still (bblock fs z) (w.bitmap_inside z (subst (λ k. z < k) size_same lt))
            (w.bitmap z (subst (λ k. z < k) size_same lt)));
    boot_used = marked_still 0 (omega (arith, g.on_disk)) w.boot_used;
    inode_used =
        subst (λ b. used fs' b ≡ true) (sym iblock_same)
          (marked_still _ w.inode_inside w.inode_used);
    inode_inside = rw (iblock_same, size_same) w.inode_inside;
    layout = λ z lt f.
        w.layout z (subst (λ k. z < k) size_same lt) (sym (bblock_same z) ∙ f ∙ iblock_same);
    in_use =
        every_slot (λ b. used fs' b ≡ true) (g.marks x g.on_disk ∙ rw (==_refl x) refl)
          (λ i h n. marked_still (slot fs ip i) (w.inside i h n) (w.in_use i h n));
    inside =
        every_slot (λ b. b < fs'.sb.size) (rw size_same g.on_disk)
          (λ i h n. rw size_same (w.inside i h n));
    distinct = distinct_after;
    not_bitmap = λ i z h lt n e.
        every_slot (λ b. bblock fs z ≢ b)
          (λ f. x_new (bblock fs z) (w.bitmap z (subst (λ k. z < k) size_same lt)) (sym f))
          (λ i' h' n'. w.not_bitmap i' z h' (subst (λ k. z < k) size_same lt) n') i h n
          (sym (bblock_same z) ∙ e);
    not_inode = λ i h n e.
        every_slot (λ b. iblock fs (fs.inode ip).inum ≢ b) (λ f. x_new _ w.inode_used (sym f))
          w.not_inode i h n (sym iblock_same ∙ e);
  }

-- A change that leaves the superblock, the bitmap, and the blocks of the file where they are.
pub record Placed (fs fs' : Fs) (ip : ℕ) : Type 0 where
  pub sb_same : fs'.sb ≡ fs.sb
  pub file_at : (fs'.inode ip).inum ≡ (fs.inode ip).inum
  pub slots : (i : ℕ) → i < 141 → slot fs' ip i ≡ slot fs ip i
  pub marks : (z : ℕ) → z < fs.sb.size → used fs' z ≡ used fs z

pub Placed-WellMapped :
    (fs fs' : Fs) (ip : ℕ) → WellMapped fs ip → Placed fs fs' ip → WellMapped fs' ip
Placed-WellMapped fs fs' ip w p =
    let size : fs'.sb.size ≡ fs.sb.size = rw p.sb_same refl in
    let bb : (z : ℕ) → bblock fs' z ≡ bblock fs z = λ z. rw p.sb_same refl in
    let ib : iblock fs' (fs'.inode ip).inum ≡ iblock fs (fs.inode ip).inum =
      rw (p.sb_same, p.file_at) refl in
    let below : (z : ℕ) → z < fs'.sb.size → z < fs.sb.size = λ z lt. subst (λ k. z < k) size lt in
    let was : (i : ℕ) → i < 141 → slot fs' ip i ≢ 0 → slot fs ip i ≢ 0 =
      λ i h n e. n (p.slots i h ∙ e) in
    record {
      bitmap_inside = λ z lt. rw (bb z, size) (w.bitmap_inside z (below z lt));
      bitmap =
          λ z lt. rw (bb z) (p.marks _ (w.bitmap_inside z (below z lt)) ∙ w.bitmap z (below z lt));
      boot_used = p.marks 0 (omega (arith, w.inode_inside)) ∙ w.boot_used;
      inode_used = rw ib (p.marks _ w.inode_inside ∙ w.inode_used);
      inode_inside = rw (ib, size) w.inode_inside;
      layout = λ z lt f. w.layout z (below z lt) (sym (bb z) ∙ f ∙ ib);
      in_use = λ i h n.
          rw (p.slots i h) (p.marks _ (w.inside i h (was i h n)) ∙ w.in_use i h (was i h n));
      inside = λ i h n. rw (p.slots i h, size) (w.inside i h (was i h n));
      distinct =
          λ i j h h' e n. w.distinct i j h h' (sym (p.slots i h) ∙ e ∙ p.slots j h') (was i h n);
      not_bitmap = λ i z h lt n f.
          w.not_bitmap i z h (below z lt) (was i h n) (sym (bb z) ∙ f ∙ p.slots i h);
      not_inode = λ i h n f. w.not_inode i h (was i h n) (sym ib ∙ f ∙ p.slots i h);
    }
