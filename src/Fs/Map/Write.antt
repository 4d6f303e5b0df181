-- ===== src/Fs/Map/Write.antt =====
-- The loop of `writei` of fs.c over a file as a row of bytes.
use chameleon_os.Base.{
  ℕ, ◌+◌, ◌-◌, ◌%◌, ◌<◌, ◌≡◌, ◌≢◌, refl, sym, ◌∙◌, ap, inl, inr, true, false, arith, ◌==◌, leb,
  if◌then◌else◌, Bool-cases, ne→==, ==_refl,
}
use chameleon_os.Store.{Block}
use chameleon_os.Fs.Bits.{get_bit}
use chameleon_os.Fs.Disk.{zero_block, Fs, block, bpb, bblock}
use chameleon_os.Fs.Disk.Room.{put, block-put}
use chameleon_os.Fs.Map.{ndirect}
use chameleon_os.Fs.Map.Slots.{slot, content, WellMapped, Placed}
use chameleon_os.Fs.Map.Bytes.{content-block}

pub slot_direct : (fs : Fs) (ip k : ℕ) → leb k ndirect ≡ true → slot fs ip k ≡ (fs.inode ip).addrs k
unfolding slot
slot_direct fs ip k q = rw (slot, q) refl

pub slot_none :
    (fs : Fs) (ip k : ℕ)
    → leb k ndirect ≡ false
    → (fs.inode ip).addrs ndirect ≡ 0
    → slot fs ip k ≡ 0
unfolding slot
slot_none fs ip k q z = rw (slot, q, z) refl

pub slot_entry :
    (fs : Fs) (ip k : ℕ)
    → leb k ndirect ≡ false
    → (fs.inode ip).addrs ndirect ≢ 0
    → slot fs ip k ≡ block fs ((fs.inode ip).addrs ndirect) (k - (ndirect + 1))
unfolding slot
slot_entry fs ip k q n = rw (slot, q, ne→== _ _ n) refl

pub content_none : (fs : Fs) (ip k : ℕ) → slot fs ip k ≡ 0 → content fs ip k ≡ zero_block
unfolding content
content_none fs ip k e = rw (content, e) refl

module _ (fs : Fs) (ip i : ℕ) (v : Block) (w : WellMapped fs ip) (h : i < 141) (ni : i ≢ ndirect)
    (nz : slot fs ip i ≢ 0) where
  -- The data block of slot `i` is written.
  abbrev pub data_put : Fs
  data_put = put fs (slot fs ip i) v

  data_block : (a : ℕ) → slot fs ip i ≢ a → block data_put a ≡ block fs a
  data_block a n = block-put fs (slot fs ip i) v a ∙ rw (ne→== _ _ n) refl

  slot_low : slot fs ip ndirect ≡ (fs.inode ip).addrs ndirect
  unfolding slot
  slot_low = refl

  pub data_slots : (k : ℕ) → k < 141 → slot data_put ip k ≡ slot fs ip k
  data_slots k hk = elim (Bool-cases (leb k ndirect)) [
    | inl q ↦ slot_direct data_put ip k q ∙ sym (slot_direct fs ip k q)
    | inr q ↦ elim (Bool-cases ((fs.inode ip).addrs ndirect == 0)) [
      | inl z ↦
          slot_none data_put ip k q (ground (arith, z))
          ∙ sym (slot_none fs ip k q (ground (arith, z)))
      | inr z ↦
          let n12 : (fs.inode ip).addrs ndirect ≢ 0 = ground (arith, z) in
          let apart : slot fs ip i ≢ (fs.inode ip).addrs ndirect =
            λ e. ni (w.distinct i ndirect h (omega arith) (e ∙ sym slot_low) nz) in
          slot_entry data_put ip k q n12
          ∙ ap (λ (b : Block). b (k - (ndirect + 1))) (data_block _ apart)
          ∙ sym (slot_entry fs ip k q n12)
    ]
  ]

  pub data_Placed : Placed fs data_put ip
  data_Placed = record {
    sb_same = refl;
    file_at = refl;
    slots = data_slots;
    marks = λ z lt.
        ap (λ (b : Block). get_bit b (z % bpb))
          (block-put fs (slot fs ip i) v (bblock fs z)
            ∙ rw (ne→== _ _ (λ e. w.not_bitmap i z h lt nz (sym e))) refl);
  }

  pub data_content :
      (k : ℕ)
      → k < 141
      → k ≢ ndirect
      → content data_put ip k ≡ (if i == k then v else content fs ip k)
  data_content k hk nk = elim (Bool-cases (i == k)) [
    | inl q ↦
        let e : i ≡ k = ground (arith, q) in
        rw q (
          ap (content data_put ip) (sym e)
          ∙ content-block data_put ip i (λ z. nz (sym (data_slots i h) ∙ z))
          ∙ ap (block data_put) (data_slots i h)
          ∙ block-put fs (slot fs ip i) v (slot fs ip i)
          ∙ rw (==_refl (slot fs ip i)) refl)
    | inr q ↦ elim (Bool-cases (slot fs ip k == 0)) [
      | inl z ↦
          let e : slot fs ip k ≡ 0 = ground (arith, z) in
          rw q (content_none data_put ip k (data_slots k hk ∙ e) ∙ sym (content_none fs ip k e))
      | inr z ↦
          let n : slot fs ip k ≢ 0 = ground (arith, z) in
          let apart : slot fs ip i ≢ slot fs ip k =
            λ e. absurd (ground (arith, q, w.distinct i k h hk e nz)) in
          rw q (
            content-block data_put ip k (λ e. n (sym (data_slots k hk) ∙ e))
            ∙ ap (block data_put) (data_slots k hk)
            ∙ data_block _ apart
            ∙ sym (content-block fs ip k n))
    ]
  ]
