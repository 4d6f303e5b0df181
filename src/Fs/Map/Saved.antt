-- ===== src/Fs/Map/Saved.antt =====
-- The new size of a file, and its inode written to the disk: the end of `writei` of fs.c.
use chameleon_os.Base.{
  ℕ, ◌+◌, ◌-◌, ◌%◌, ◌<◌, ◌≡◌, ◌≢◌, refl, sym, ◌∙◌, ap, inl, inr, arith, ◌==◌, leb, Bool-cases,
  ne→==, ==_refl,
}
use chameleon_os.Base.Machine.{ok}
use chameleon_os.Store.{Block}
use chameleon_os.Fs.Bits.{get_bit}
use chameleon_os.Fs.Disk.{Fs, block, bpb, bblock}
use chameleon_os.Fs.Disk.Room.{put, block-put, put_block-inv}
use chameleon_os.Fs.Inode.{iblock, put_dinode, set_inode, iupdate}
use chameleon_os.Fs.Map.{ndirect}
use chameleon_os.Fs.Map.Slots.{slot, content, WellMapped, Placed}
use chameleon_os.Fs.Map.Bytes.{content-block}
use chameleon_os.Fs.Map.Write.{slot_direct, slot_none, slot_entry, content_none}

module _ (fs : Fs) (ip s : ℕ) (w : WellMapped fs ip) where
  abbrev pub sized : Fs
  sized = set_inode fs ip (record (fs.inode ip) { size = s })

  abbrev at : ℕ
  at = iblock fs (fs.inode ip).inum

  abbrev pub saved : Fs
  saved =
      put sized at (put_dinode (block fs at) (fs.inode ip).inum (record (fs.inode ip) { size = s }))

  pub sized-iupdate : (fs' : Fs) → iupdate sized ip ≡ ok fs' → fs' ≡ saved
  unfolding iupdate
  sized-iupdate fs' e = put_block-inv sized fs' _ _ (rw (iupdate, ==_refl ip) at e)

  other_block : (a : ℕ) → at ≢ a → block saved a ≡ block fs a
  other_block a n = block-put sized at _ a ∙ rw (ne→== _ _ n) refl

  same_addrs : (k : ℕ) → (saved.inode ip).addrs k ≡ (fs.inode ip).addrs k
  same_addrs k = rw (==_refl ip) refl

  saved_slots : (k : ℕ) → k < 141 → slot saved ip k ≡ slot fs ip k
  saved_slots k hk = elim (Bool-cases (leb k ndirect)) [
    | inl q ↦ slot_direct saved ip k q ∙ same_addrs k ∙ sym (slot_direct fs ip k q)
    | inr q ↦ elim (Bool-cases ((fs.inode ip).addrs ndirect == 0)) [
      | inl z ↦
          slot_none saved ip k q (same_addrs ndirect ∙ ground (arith, z))
          ∙ sym (slot_none fs ip k q (ground (arith, z)))
      | inr z ↦
          let n12 : (fs.inode ip).addrs ndirect ≢ 0 = ground (arith, z) in
          let e12 = slot_direct fs ip ndirect (ground arith) in
          let apart : at ≢ (fs.inode ip).addrs ndirect =
            λ e. w.not_inode ndirect (omega arith) (λ z. n12 (sym e12 ∙ z)) (e ∙ sym e12) in
          slot_entry saved ip k q (λ z. n12 (sym (same_addrs ndirect) ∙ z))
          ∙ ap (λ a. block saved a (k - (ndirect + 1))) (same_addrs ndirect)
          ∙ ap (λ (b : Block). b (k - (ndirect + 1))) (other_block _ apart)
          ∙ sym (slot_entry fs ip k q n12)
    ]
  ]

  pub saved-Placed : Placed fs saved ip
  saved-Placed = record {
    sb_same = refl;
    file_at = rw (==_refl ip) refl;
    slots = saved_slots;
    marks = λ z lt.
        ap (λ (b : Block). get_bit b (z % bpb))
          (other_block (bblock fs z) (λ e. w.layout z lt (sym e)));
  }

  pub saved_content : (k : ℕ) → k < 141 → content saved ip k ≡ content fs ip k
  saved_content k hk = elim (Bool-cases (slot fs ip k == 0)) [
    | inl z ↦
        let e : slot fs ip k ≡ 0 = ground (arith, z) in
        content_none saved ip k (saved_slots k hk ∙ e) ∙ sym (content_none fs ip k e)
    | inr z ↦
        let n : slot fs ip k ≢ 0 = ground (arith, z) in
        content-block saved ip k (λ e. n (sym (saved_slots k hk) ∙ e))
        ∙ ap (block saved) (saved_slots k hk)
        ∙ other_block _ (w.not_inode k hk n)
        ∙ sym (content-block fs ip k n)
  ]

  pub saved_size : (saved.inode ip).size ≡ s
  saved_size = rw (==_refl ip) refl
