-- ===== src/Fs/Map/Written.antt =====
-- What the loop of `writei` of fs.c leaves of a file, as a row of bytes.
use chameleon_os.Base.{
  ℕ, zero, suc, ◌+◌, ◌-◌, ◌/◌, ◌%◌, ◌≤◌, ◌<◌, ◌≡◌, ◌≢◌, refl, sym, ◌∙◌, ap, subst, inl, inr, false,
  ◌&&◌, List, [], ◌∷◌, ◌++◌, arith, ◌==◌, ltb, leb, min, if◌then◌else◌, Bool-cases, length, take,
  drop, get_or, length-append, length-take, length-drop, take-append-drop, All,
}
use chameleon_os.Base.Machine.{ok, ok-injective, >>=-eq-ok}
use chameleon_os.Store.{Block}
use chameleon_os.Fs.Bits.{get_byte, set_bytes, get_byte-set_bytes}
use chameleon_os.Fs.Disk.{Fs, block, put_block}
use chameleon_os.Fs.Disk.Room.{put, put_block-inv}
use chameleon_os.Fs.Map.{ndirect, nindirect, bsize, bmap, write_blocks}
use chameleon_os.Fs.Map.Slots.{
  slot, slot_of, content, WellMapped, SameFile, Placed, Placed-WellMapped,
}
use chameleon_os.Fs.Map.Grow.{Mapped}
use chameleon_os.Fs.Map.Bmap.{bmap-Mapped, SameFile-trans}
use chameleon_os.Fs.Map.Bytes.{max_bytes, file_byte, content-block}
use chameleon_os.Fs.Map.Write.{data_Placed, data_content}

-- Byte `k` of a row where bytes `vs` were put at `off` and that had byte `old` there.
abbrev pub spliced : List ℕ → ℕ → ℕ → ℕ → ℕ
spliced vs off k old = if leb off k && ltb k (off + length vs) then get_or vs (k - off) 0 else old

-- Bytes `off` to `off + length vs` of the file are `vs`, and the others are as they were.
pub record Written (fs fs' : Fs) (ip off : ℕ) (vs : List ℕ) : Type 0 where
  pub well : WellMapped fs' ip
  pub file_same : SameFile (fs.inode ip) (fs'.inode ip)
  pub same_slot : (i : ℕ) → i < 141 → slot fs ip i ≢ 0 → slot fs' ip i ≡ slot fs ip i
  pub has : (k : ℕ) → off ≤ k → k < off + length vs → slot fs' ip (slot_of (k / bsize)) ≢ 0
  pub bytes : (k : ℕ) → k < max_bytes → file_byte fs' ip k ≡ spliced vs off k (file_byte fs ip k)

Written-nothing : (fs : Fs) (ip off : ℕ) → WellMapped fs ip → Written fs fs ip off []
Written-nothing fs ip off w = record {
  well = w;
  file_same = record { inum = refl; type = refl; size = refl; major = refl };
  same_slot = λ i h n. refl;
  has = λ k lo hi. absurd (omega (arith, lo, hi));
  bytes = λ k h. ground arith;
}

get_or-append :
    (xs ys : List ℕ) (k : ℕ)
    → get_or (xs ++ ys) k 0
      ≡ (if ltb k (length xs) then get_or xs k 0 else get_or ys (k - length xs) 0)
get_or-append [] ys k = ground arith
get_or-append (x ∷ xs) ys zero = ground arith
get_or-append (x ∷ xs) ys (suc k) = ground (arith, get_or-append xs ys k)

spliced-append :
    (xs ys : List ℕ) (off k old : ℕ)
    → spliced ys (off + length xs) k (spliced xs off k old) ≡ spliced (xs ++ ys) off k old
spliced-append xs ys off k old =
    rw (get_or-append xs ys (k - off), length-append xs ys)
      (elim (Bool-cases (leb (off + length xs) k)) [
        | inl q ↦
            let e : k - off - length xs ≡ k - (off + length xs) = omega arith in
            rw (q, e) (ground (arith, q))
        | inr q ↦ rw q (ground (arith, q))
      ])

Written-append :
    (fs fs1 fs2 : Fs) (ip off : ℕ) (xs ys : List ℕ)
    → off + (length xs + length ys) ≤ max_bytes
    → Written fs fs1 ip off xs
    → Written fs1 fs2 ip (off + length xs) ys
    → Written fs fs2 ip off (xs ++ ys)
Written-append fs fs1 fs2 ip off xs ys fit a b = record {
  well = b.well;
  file_same = SameFile-trans _ _ _ a.file_same b.file_same;
  same_slot = λ i h n. b.same_slot i h (λ z. n (sym (a.same_slot i h n) ∙ z)) ∙ a.same_slot i h n;
  has = λ k lo hi. elim (Bool-cases (leb (off + length xs) k)) [
    | inl q ↦ b.has k (ground (arith, q)) (omega (arith, hi, length-append xs ys))
    | inr q ↦
        let n = a.has k lo (ground (arith, q)) in
        λ z. n (sym (b.same_slot _ (ground (arith, q, fit)) n) ∙ z)
  ];
  bytes = λ k h.
      b.bytes k h
      ∙ ap (spliced ys (off + length xs) k) (a.bytes k h)
      ∙ spliced-append xs ys off k (file_byte fs ip k);
}

abbrev pub Small : List ℕ → Type 0
Small = All (λ v. v < 256)

Small-take : (n : ℕ) (xs : List ℕ) → Small xs → Small (take n xs)
Small-take zero xs a = tt
Small-take (suc n) [] a = a
Small-take (suc n) (x ∷ xs) (h, a) = (h, Small-take n xs a)

Small-drop : (n : ℕ) (xs : List ℕ) → Small xs → Small (drop n xs)
Small-drop zero xs a = a
Small-drop (suc n) [] a = a
Small-drop (suc n) (x ∷ xs) (h, a) = Small-drop n xs a

spliced_within :
    (vs : List ℕ) (off k old : ℕ)
    → off / bsize ≡ k / bsize
    → spliced vs (off % bsize) (k % bsize) old ≡ spliced vs off k old
spliced_within vs off k old h =
    let e : k % bsize - off % bsize ≡ k - off = omega arith in rw e (ground arith)

spliced_outside :
    (vs : List ℕ) (off k old : ℕ)
    → off / bsize ≢ k / bsize
    → off % bsize + length vs ≤ bsize
    → spliced vs off k old ≡ old
spliced_outside vs off k old h within = ground arith

-- Bytes `vs` within one block.
module _ (fs fs1 : Fs) (ip off b : ℕ) (vs : List ℕ) (m : Mapped fs fs1 ip (slot_of (off / bsize)) b)
    (in_file : off / bsize < ndirect + nindirect) (within : off % bsize + length vs ≤ bsize)
    (small : Small vs) where
  abbrev one_slot : ℕ
  one_slot = slot_of (off / bsize)

  abbrev one_block : Block
  one_block = set_bytes (block fs1 b) (off % bsize) vs

  nz : slot fs1 ip one_slot ≢ 0
  nz e = m.nonzero (sym m.slot_is ∙ e)

  abbrev one_data : Fs
  one_data = put fs1 (slot fs1 ip one_slot) one_block

  old_block : block fs1 b ≡ content fs ip one_slot
  old_block =
      ap (block fs1) (sym m.slot_is)
      ∙ sym (content-block fs1 ip one_slot nz)
      ∙ m.same_content one_slot (ground (arith, in_file)) (ground arith)

  one_byte :
      (k : ℕ) → k < max_bytes → file_byte one_data ip k ≡ spliced vs off k (file_byte fs ip k)
  unfolding file_byte
  one_byte k h =
      let at = slot_of (k / bsize) in
      ap (λ (c : Block). get_byte c (k % bsize))
        (data_content fs1 ip one_slot one_block m.well (ground (arith, in_file)) (ground arith) nz
          at (ground (arith, h)) (ground arith))
      ∙ elim (Bool-cases (one_slot == at)) [
        | inl q ↦
            let same : off / bsize ≡ k / bsize = ground (arith, q) in
            rw q (
              get_byte-set_bytes (block fs1 b) (off % bsize) (k % bsize) vs small
              ∙ ap (spliced vs (off % bsize) (k % bsize)) (
                  ap (λ (c : Block). get_byte c (k % bsize))
                    (old_block ∙ ap (λ z. content fs ip (slot_of z)) same))
              ∙ spliced_within vs off k _ same)
        | inr q ↦ rw q (
            ap (λ (c : Block). get_byte c (k % bsize))
              (m.same_content at (ground (arith, h)) (ground arith))
            ∙ sym (spliced_outside vs off k _ (ground (arith, q)) within))
      ]

  one_Placed : Placed fs1 one_data ip
  one_Placed =
      data_Placed fs1 ip one_slot one_block m.well (ground (arith, in_file)) (ground arith) nz

  one_Written : Written fs one_data ip off vs
  one_Written = record {
    well = Placed-WellMapped fs1 one_data ip m.well one_Placed;
    file_same = m.file_same;
    same_slot = λ i h n. one_Placed.slots i h ∙ m.same_slot i h n;
    has = λ k lo hi.
        let e : k / bsize ≡ off / bsize = omega (arith, within) in
        λ z. nz (
          sym (one_Placed.slots one_slot (ground (arith, in_file)))
          ∙ ap (λ q. slot one_data ip (slot_of q)) (sym e)
          ∙ z);
    bytes = one_byte;
  }

-- Whenever the loop ends without a panic.
pub write_blocks-Written :
    (fs fs' : Fs) (ip off : ℕ) (src : List ℕ) (fuel : ℕ)
    → length src ≤ fuel
    → off + length src ≤ max_bytes
    → Small src
    → WellMapped fs ip
    → write_blocks fs ip off src fuel ≡ ok fs'
    → Written fs fs' ip off src
unfolding write_blocks
write_blocks-Written fs fs' ip off [] zero h fit small w e =
    subst (λ f. Written fs f ip off []) (ok-injective e) (Written-nothing fs ip off w)
write_blocks-Written fs fs' ip off (x ∷ xs) zero h fit small w e = absurd (omega (arith, h))
write_blocks-Written fs fs' ip off [] (suc fuel) h fit small w e =
    subst (λ f. Written fs f ip off []) (ok-injective e) (Written-nothing fs ip off w)
write_blocks-Written fs fs' ip off (x ∷ xs) (suc fuel) h fit small w e =
    let src = x ∷ xs in
    let m = min (length src) (bsize - off % bsize) in
    let some_left : (suc (length xs) == 0) ≡ false = ground arith in
    let ((fs1, b), p, e1) =
      >>=-eq-ok (bmap fs ip (off / bsize)) _ (rw (write_blocks, some_left) at e) in
    let (mapped, in_file) = bmap-Mapped fs fs1 ip (off / bsize) b w p in
    let (fs2, p2, e2) =
      >>=-eq-ok (put_block fs1 b (set_bytes (block fs1 b) (off % bsize) (take m src))) _ e1 in
    let len : length (take m src) ≡ m = omega (arith, length-take m src) in
    let one =
      one_Written fs fs1 ip off b (take m src) mapped in_file (omega (arith, len))
        (Small-take m src small) in
    let first =
      subst (λ f. Written fs f ip off (take m src))
        (ap (λ a. put fs1 a (set_bytes (block fs1 b) (off % bsize) (take m src))) mapped.slot_is
          ∙ sym (put_block-inv fs1 fs2 b _ p2))
        one in
    let rest =
      write_blocks-Written fs2 fs' ip (off + m) (drop m src) fuel
        (omega (arith, h, length-drop m src)) (omega (arith, fit, length-drop m src))
        (Small-drop m src small) first.well e2 in
    subst (Written fs fs' ip off) (take-append-drop m src) (
      Written-append fs fs2 fs' ip off (take m src) (drop m src)
        (omega (arith, len, fit, length-drop m src)) first
        (subst (λ n. Written fs2 fs' ip (off + n) (drop m src)) (sym len) rest))
