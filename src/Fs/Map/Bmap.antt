-- ===== src/Fs/Map/Bmap.antt =====
-- `bmap` of fs.c: the block of a file, allocated if there is none.
use chameleon_os.Base.{
  ℕ, ◌+◌, ◌-◌, ◌%◌, ◌<◌, ◌≡◌, ◌≢◌, refl, sym, ◌∙◌, ap, subst, inl, inr, true, false, arith, ◌==◌,
  ltb, leb, if◌then◌else◌, update, Bool-cases, ne→==, ==_refl,
}
use chameleon_os.Base.Machine.{ok, ok-injective, >>=-eq-ok}
use chameleon_os.Store.{Block}
use chameleon_os.Fs.Disk.{Fs, Inode, block, put_block, bpb, bblock, balloc}
use chameleon_os.Fs.Bits.{get_bit}
use chameleon_os.Fs.Disk.Room.{put, block-put, put_block-inv}
use chameleon_os.Fs.Disk.Alloc.{used, taken, balloc-Taken, used-taken}
use chameleon_os.Fs.Map.{ndirect, nindirect, own_addr, own_entry, bmap}
use chameleon_os.Fs.Map.Slots.{slot, slot_of, WellMapped, SameFile, Grown}
use chameleon_os.Fs.Map.Grow.{
  Mapped, Mapped-here, Mapped-Grown, own_addr-Mapped, taken_kept, taken_zeroed,
}

pub SameFile-trans : (i i' i'' : Inode) → SameFile i i' → SameFile i' i'' → SameFile i i''
SameFile-trans i i' i'' s t = record {
  inum = t.inum ∙ s.inum;
  type = t.type ∙ s.type;
  size = t.size ∙ s.size;
  major = t.major ∙ s.major;
}

Mapped-trans :
    (fs fs' fs'' : Fs) (ip i a j b : ℕ)
    → Mapped fs fs' ip i a
    → Mapped fs' fs'' ip j b
    → Mapped fs fs'' ip j b
Mapped-trans fs fs' fs'' ip i a j b m m' = record {
  well = m'.well;
  slot_is = m'.slot_is;
  nonzero = m'.nonzero;
  same_content = λ k h n. m'.same_content k h n ∙ m.same_content k h n;
  same_slot = λ k h n. m'.same_slot k h (λ e. n (sym (m.same_slot k h n) ∙ e)) ∙ m.same_slot k h n;
  file_same = SameFile-trans _ _ _ m.file_same m'.file_same;
}

module _ (fs : Fs) (ip x j : ℕ) (w : WellMapped fs ip) (free : used fs x ≡ false)
    (lt : x < fs.sb.size) (hj : j < nindirect) where
  a : ℕ
  a = (fs.inode ip).addrs ndirect

  entered : Fs
  entered = put (taken fs x) a (update (block (taken fs x) a) j x)

  module _ (n : a ≢ 0) (e : slot fs ip (j + (ndirect + 1)) ≡ 0) where
    slot12 : slot fs ip ndirect ≡ a
    unfolding slot a
    slot12 = refl

    not_a : (i : ℕ) → i < 141 → i ≢ ndirect → slot fs ip i ≢ 0 → a ≢ slot fs ip i
    not_a i h ni nz f = ni (w.distinct i ndirect h (omega arith) (sym f ∙ sym slot12) nz)

    a_nonzero : slot fs ip ndirect ≢ 0
    a_nonzero f = n (sym slot12 ∙ f)

    x_not_a : a ≢ x
    x_not_a f =
        cc (sym free ∙ ap (used fs) (sym f ∙ sym slot12) ∙ w.in_use ndirect (omega arith) a_nonzero)

    a_kept : block (taken fs x) a ≡ block fs a
    a_kept =
        subst (λ b. block (taken fs x) b ≡ block fs b) slot12
          (taken_kept fs ip x w free lt ndirect (omega arith) a_nonzero)

    entry_slots :
        (i : ℕ) → i < 141 → slot entered ip i ≡ (if j + (ndirect + 1) == i then x else slot fs ip i)
    unfolding slot entered a
    entry_slots i hi = elim (Bool-cases (leb i ndirect)) [
      | inl q ↦
          let ne : (j + (ndirect + 1) == i) ≡ false = ground (arith, q) in rw (slot, q, ne) refl
      | inr q ↦
          let same : (j + (ndirect + 1) == i) ≡ (j == i - (ndirect + 1)) = ground (arith, q) in
          rw (slot, q, ne→== _ _ n, same, ==_refl ((fs.inode ip).addrs ndirect))
            (elim (Bool-cases (j == i - (ndirect + 1))) [
              | inl k ↦ rw k refl
              | inr k ↦ rw k (ap (λ (b : Block). b (i - (ndirect + 1))) a_kept)
            ])
    ]

    entry_Grown : Grown fs entered ip (j + (ndirect + 1)) x
    unfolding entered
    entry_Grown = record {
      sb_same = refl;
      file_same = record { inum = refl; type = refl; size = refl; major = refl };
      slots = entry_slots;
      empty = e;
      was_free = free;
      on_disk = lt;
      marks = λ z lt'.
          let apart : (a == bblock fs z) ≡ false =
            ne→== _ _
              (λ f. w.not_bitmap ndirect z (omega arith) lt' a_nonzero (sym f ∙ sym slot12)) in
          ap (λ (b : Block). get_bit b (z % bpb))
            (block-put (taken fs x) a (update (block (taken fs x) a) j x) (bblock fs z)
              ∙ rw apart refl)
          ∙ used-taken fs x z w.bitmap free lt';
      zeroed =
          block-put (taken fs x) a (update (block (taken fs x) a) j x) x
          ∙ rw (ne→== _ _ x_not_a) (taken_zeroed fs ip x w free lt);
      kept = λ i hi ni nz.
          block-put (taken fs x) a (update (block (taken fs x) a) j x) (slot fs ip i)
          ∙ rw (ne→== _ _ (not_a i hi ni nz)) (taken_kept fs ip x w free lt i hi nz);
    }

own_entry-Mapped :
    (fs fs' : Fs) (ip j b : ℕ)
    → j < nindirect
    → WellMapped fs ip
    → (fs.inode ip).addrs ndirect ≢ 0
    → own_entry fs ((fs.inode ip).addrs ndirect) j ≡ ok (fs', b)
    → Mapped fs fs' ip (j + (ndirect + 1)) b
unfolding own_entry slot entered a
own_entry-Mapped fs fs' ip j b h w n e =
    let a = (fs.inode ip).addrs ndirect in
    let high : leb (j + (ndirect + 1)) ndirect ≡ false = ground arith in
    let back : j + (ndirect + 1) - (ndirect + 1) ≡ j = omega arith in
    let at : slot fs ip (j + (ndirect + 1)) ≡ block fs a j =
      rw (slot, high, ne→== _ _ n, back) refl in
    elim (Bool-cases (block fs a j == 0)) [
      | inl z ↦
          let ((fs1, x), p, e1) = >>=-eq-ok (balloc fs) _ (rw (own_entry, z) at e) in
          let (fs2, q, e2) = >>=-eq-ok (put_block fs1 a (update (block fs1 a) j x)) _ e1 in
          let t = balloc-Taken fs fs1 x p in
          let none_yet : slot fs ip (j + (ndirect + 1)) ≡ 0 = at ∙ ground (arith, z) in
          let g = entry_Grown fs ip x j w t.was_free t.inside h n none_yet in
          let m =
            Mapped-Grown fs (entered fs ip x j w t.was_free t.inside h) ip (j + (ndirect + 1)) x
              (omega (arith, h)) w g in
          let after : fs2 ≡ entered fs ip x j w t.was_free t.inside h =
            put_block-inv fs1 fs2 a (update (block fs1 a) j x) q
            ∙ ap (λ f. put f a (update (block f a) j x)) t.after in
          subst (λ (f, c). Mapped fs f ip (j + (ndirect + 1)) c)
            (sym (ap (λ f. (f, x)) after) ∙ ok-injective e2) m
      | inr z ↦
          subst (λ (f, c). Mapped fs f ip (j + (ndirect + 1)) c)
            (ok-injective (rw (own_entry, z) at e))
            (Mapped-here fs ip (j + (ndirect + 1)) _ w at (ground (arith, z)))
    ]

pub bmap-Mapped :
    (fs fs' : Fs) (ip bn b : ℕ)
    → WellMapped fs ip
    → bmap fs ip bn ≡ ok (fs', b)
    → Mapped fs fs' ip (slot_of bn) b × (bn < ndirect + nindirect)
unfolding bmap slot
bmap-Mapped fs fs' ip bn b w e = elim (Bool-cases (ltb bn ndirect)) [
  | inl q ↦ (
    rw q (own_addr-Mapped fs fs' ip bn b (ground (arith, q)) w (rw (bmap, q) at e)),
    ground (arith, q),
  )
  | inr q ↦ elim (Bool-cases (ltb (bn - ndirect) nindirect)) [
    | inl k ↦
        let ((fs1, a), p, e1) = >>=-eq-ok (own_addr fs ip ndirect) _ (rw (bmap, q, k) at e) in
        let m = own_addr-Mapped fs fs1 ip ndirect a (omega arith) w p in
        let at : (fs1.inode ip).addrs ndirect ≡ a = m.slot_is in
        let e2 : own_entry fs1 ((fs1.inode ip).addrs ndirect) (bn - ndirect) ≡ ok (fs', b) =
          rw at e1 in
        let m' =
          own_entry-Mapped fs1 fs' ip (bn - ndirect) b (ground (arith, k)) m.well
            (λ z. m.nonzero (sym at ∙ z)) e2 in
        let i : bn - ndirect + (ndirect + 1) ≡ bn + 1 = ground (arith, q) in
        (
          rw q
              (subst (λ s. Mapped fs fs' ip s b) i (Mapped-trans fs fs1 fs' ip ndirect a _ b m m')),
          ground (arith, q, k),
        )
    | inr k ↦ absurd (cc (rw (bmap, q, k) at e))
  ]
]

own_addr_hit :
    (fs : Fs) (ip j : ℕ)
    → (fs.inode ip).addrs j ≢ 0
    → own_addr fs ip j ≡ ok (fs, (fs.inode ip).addrs j)
unfolding own_addr
own_addr_hit fs ip j n = rw (own_addr, ne→== _ _ n) refl

own_entry_hit : (fs : Fs) (a j : ℕ) → block fs a j ≢ 0 → own_entry fs a j ≡ ok (fs, block fs a j)
unfolding own_entry
own_entry_hit fs a j n = rw (own_entry, ne→== _ _ n) refl

-- A block that the file has is found, and nothing changes.
pub bmap_hit :
    (fs : Fs) (ip bn : ℕ)
    → bn < ndirect + nindirect
    → slot fs ip (slot_of bn) ≢ 0
    → bmap fs ip bn ≡ ok (fs, slot fs ip (slot_of bn))
unfolding bmap slot
bmap_hit fs ip bn h n = elim (Bool-cases (ltb bn ndirect)) [
  | inl q ↦
      let low : leb bn ndirect ≡ true = ground (arith, q) in
      let n' : (fs.inode ip).addrs bn ≢ 0 = rw (slot, q, low) at n in
      rw (bmap, slot, q, low) (own_addr_hit fs ip bn n')
  | inr q ↦
      let high : leb (bn + 1) ndirect ≡ false = ground (arith, q) in
      let k : ltb (bn - ndirect) nindirect ≡ true = ground (arith, q) in
      let i : bn + 1 - (ndirect + 1) ≡ bn - ndirect = omega arith in
      elim (Bool-cases ((fs.inode ip).addrs ndirect == 0)) [
        | inl z ↦ absurd (n (rw (slot, q, high, z) refl))
        | inr z ↦
            let n' : block fs ((fs.inode ip).addrs ndirect) (bn - ndirect) ≢ 0 =
              rw (slot, q, high, z, i) at n in
            rw (bmap, slot, q, k, high, z, i, own_addr_hit fs ip ndirect (ground (arith, z)))
              (own_entry_hit fs _ _ n')
      ]
]
