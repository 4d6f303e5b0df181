-- ===== src/Fs/Map/Grow.antt =====
-- What `bmap` of fs.c does to the blocks of a file.
use chameleon_os.Base.{
  ℕ, ◌+◌, ◌-◌, ◌≤◌, ◌<◌, ◌≡◌, ◌≢◌, refl, sym, ◌∙◌, ap, subst, inl, inr, true, false, arith, ◌==◌,
  leb, if◌then◌else◌, update_self, Bool-cases, ne→==, ==_refl,
}
use chameleon_os.Base.Machine.{ok, ok-injective, >>=-eq-ok}
use chameleon_os.Store.{Block}
use chameleon_os.Fs.Disk.{Fs, block, zero_block, balloc}
use chameleon_os.Fs.Disk.Room.{block-put}
use chameleon_os.Fs.Disk.Alloc.{used, taken, marked, balloc-Taken, used-taken, block-taken}
use chameleon_os.Fs.Map.{ndirect, set_addr, own_addr}
use chameleon_os.Fs.Map.Slots.{
  slot, content, WellMapped, SameFile, Grown, Grown-content, Grown-WellMapped, slot_old, x_nonzero,
}

-- What a call of `bmap` leaves: slot `i` has block `a`, and the file has the same contents.
pub record Mapped (fs fs' : Fs) (ip i a : ℕ) : Type 0 where
  pub well : WellMapped fs' ip
  pub slot_is : slot fs' ip i ≡ a
  pub nonzero : a ≢ 0
  pub same_content : (k : ℕ) → k < 141 → k ≢ ndirect → content fs' ip k ≡ content fs ip k
  pub same_slot : (k : ℕ) → k < 141 → slot fs ip k ≢ 0 → slot fs' ip k ≡ slot fs ip k
  pub file_same : SameFile (fs.inode ip) (fs'.inode ip)

pub Mapped-here :
    (fs : Fs) (ip i a : ℕ) → WellMapped fs ip → slot fs ip i ≡ a → a ≢ 0 → Mapped fs fs ip i a
Mapped-here fs ip i a w e n = record {
  well = w;
  slot_is = e;
  nonzero = n;
  same_content = λ k h h'. refl;
  same_slot = λ k h h'. refl;
  file_same = record { inum = refl; type = refl; size = refl; major = refl };
}

pub Mapped-Grown :
    (fs fs' : Fs) (ip j x : ℕ)
    → j < 141
    → WellMapped fs ip
    → Grown fs fs' ip j x
    → Mapped fs fs' ip j x
Mapped-Grown fs fs' ip j x h w g = record {
  well = Grown-WellMapped fs fs' ip j x w g;
  slot_is = g.slots j h ∙ rw (==_refl j) refl;
  nonzero = x_nonzero fs fs' ip j x w g;
  same_content = Grown-content fs fs' ip j x w g;
  same_slot = λ k h' n. slot_old fs fs' ip j x w g k h' (elim (Bool-cases (j == k)) [
    | inl q ↦ let e : j ≡ k = ground (arith, q) in absurd (n (ap (slot fs ip) (sym e) ∙ g.empty))
    | inr q ↦ q
  ]);
  file_same = g.file_same;
}

module _ (fs : Fs) (ip x : ℕ) (w : WellMapped fs ip) (free : used fs x ≡ false)
    (lt : x < fs.sb.size) where
  -- The other blocks of the file stay when `x` is taken.
  pub taken_kept :
      (i : ℕ)
      → i < 141
      → slot fs ip i ≢ 0
      → block (taken fs x) (slot fs ip i) ≡ block fs (slot fs ip i)
  taken_kept i h n =
      let apart : x ≢ slot fs ip i = λ e. cc (sym free ∙ ap (used fs) e ∙ w.in_use i h n) in
      block-taken fs x (slot fs ip i) (ne→== _ _ (w.not_bitmap i x h lt n))
      ∙ rw (ne→== _ _ apart) refl

  pub taken_zeroed : block (taken fs x) x ≡ zero_block
  taken_zeroed = block-put (marked fs x) x zero_block x ∙ rw (==_refl x) refl

  taken_nonzero : x ≢ 0
  taken_nonzero e = cc (sym free ∙ ap (used fs) e ∙ w.boot_used)

  addr_slots :
      (j : ℕ)
      → j ≤ ndirect
      → slot fs ip j ≡ 0
      → (i : ℕ) → i < 141
      → slot (set_addr (taken fs x) ip j x) ip i ≡ (if j == i then x else slot fs ip i)
  unfolding slot
  addr_slots j h e i hi = elim (Bool-cases (leb i ndirect)) [
    | inl q ↦ rw (slot, ==_refl ip, q) refl
    | inr q ↦
        let ne : (j == i) ≡ false = ground (arith, q) in
        elim (Bool-cases (j == ndirect)) [
          | inl d ↦
              let none_before : (fs.inode ip).addrs ndirect ≡ 0 = ground (arith, d, e) in
              rw (slot, ==_refl ip, q, ne, d, none_before, ne→== x 0 taken_nonzero)
                (ap (λ (b : Block). b (i - (ndirect + 1))) taken_zeroed)
          | inr d ↦ elim (Bool-cases ((fs.inode ip).addrs ndirect == 0)) [
            | inl z ↦ rw (slot, ==_refl ip, q, ne, d, z) refl
            | inr z ↦
                rw (slot, ==_refl ip, q, ne, d, z)
                  (ap (λ (b : Block). b (i - (ndirect + 1)))
                    (taken_kept ndirect (omega arith) (ground (arith, z))))
          ]
        ]
  ]

  addr_Grown :
      (j : ℕ) → j ≤ ndirect → slot fs ip j ≡ 0 → Grown fs (set_addr (taken fs x) ip j x) ip j x
  addr_Grown j h e = record {
    sb_same = refl;
    file_same =
        rw (update_self fs.inode ip)
          (record { inum = refl; type = refl; size = refl; major = refl });
    slots = addr_slots j h e;
    empty = e;
    was_free = free;
    on_disk = lt;
    marks = λ z lt'. used-taken fs x z w.bitmap free lt';
    zeroed = taken_zeroed;
    kept = λ i hi n n'. taken_kept i hi n';
  }

pub own_addr-Mapped :
    (fs fs' : Fs) (ip j a : ℕ)
    → j ≤ ndirect
    → WellMapped fs ip
    → own_addr fs ip j ≡ ok (fs', a)
    → Mapped fs fs' ip j a
unfolding own_addr slot
own_addr-Mapped fs fs' ip j a h w e =
    let low : leb j ndirect ≡ true = ground (arith, h) in
    elim (Bool-cases ((fs.inode ip).addrs j == 0)) [
      | inl z ↦
          let ((fs1, x), p, e1) = >>=-eq-ok (balloc fs) _ (rw (own_addr, z) at e) in
          let t = balloc-Taken fs fs1 x p in
          let none_yet : slot fs ip j ≡ 0 = rw (slot, low) (ground (arith, z)) in
          let m =
            Mapped-Grown fs (set_addr (taken fs x) ip j x) ip j x (omega (arith, h)) w
              (addr_Grown fs ip x w t.was_free t.inside j h none_yet) in
          subst (λ (f, b). Mapped fs f ip j b)
            (sym (ap (λ f. (set_addr f ip j x, x)) t.after) ∙ ok-injective e1) m
      | inr z ↦
          subst (λ (f, b). Mapped fs f ip j b) (ok-injective (rw (own_addr, z) at e))
            (Mapped-here fs ip j _ w (rw (slot, low) refl) (ground (arith, z)))
    ]
