-- ===== src/Fs/Map/Trip.antt =====
-- `writei` of fs.c, and `readi` after it, on a file as a row of bytes.
use chameleon_os.Base.{
  ℕ, suc, ◌+◌, ◌-◌, ◌*◌, ◌/◌, ◌%◌, ◌^◌, ◌≤◌, ◌<◌, ◌≡◌, ◌≢◌, refl, sym, ◌∙◌, ap, ap₂, subst, inl,
  inr, Bool, false, not, ◌&&◌, ◌||◌, List, [], ◌∷◌, arith, ◌==◌, ltb, leb, max, if◌then◌else◌,
  Bool-cases, ==_refl, length, get_or,
}
use chameleon_os.Base.Machine.{Run, ok, ok-injective, uint_add, >>=-eq-ok}
use chameleon_os.Store.{Block}
use chameleon_os.Fs.Bits.{get_byte}
use chameleon_os.Fs.Disk.{Fs}
use chameleon_os.Fs.Inode.{set_inode, iupdate}
use chameleon_os.Fs.Map.{
  t_dev, ndev, ndirect, nindirect, bsize, Transfer, moved, denied, passed_on, device, write_blocks,
  writei, readi,
}
use chameleon_os.Fs.Map.Slots.{slot, slot_of, WellMapped, Placed-WellMapped}
use chameleon_os.Fs.Map.Bytes.{max_bytes, file_byte, file_bytes, read_blocks_lem}
use chameleon_os.Fs.Map.Written.{Written, Small, spliced, write_blocks-Written}
use chameleon_os.Fs.Map.Saved.{sized-iupdate, saved, saved-Placed, saved_content, saved_size}

-- What a `writei` that does not fail leaves: `src` at `off`, and a size that covers it.
pub record Stored (fs fs' : Fs) (ip off n : ℕ) (src : List ℕ) : Type 0 where
  pub all_moved : n ≡ length src
  pub in_file : off ≤ (fs.inode ip).size
  pub fits : off + length src ≤ max_bytes
  pub not_dev : ((fs.inode ip).type == t_dev) ≡ false
  pub same_type : (fs'.inode ip).type ≡ (fs.inode ip).type
  pub new_size :
      (fs'.inode ip).size
      ≡ (if length src == 0 then (fs.inode ip).size else max (fs.inode ip).size (off + length src))
  pub well : WellMapped fs' ip
  pub has : (k : ℕ) → off ≤ k → k < off + length src → slot fs' ip (slot_of (k / bsize)) ≢ 0
  pub bytes : (k : ℕ) → k < max_bytes → file_byte fs' ip k ≡ spliced src off k (file_byte fs ip k)

saved_byte :
    (fs : Fs) (ip s k : ℕ) (w : WellMapped fs ip)
    → k < max_bytes
    → file_byte (saved fs ip s w) ip k ≡ file_byte fs ip k
unfolding file_byte
saved_byte fs ip s k w h =
    ap (λ (c : Block). get_byte c (k % bsize))
      (saved_content fs ip s w (slot_of (k / bsize)) (ground (arith, h)))

abbrev grown : Fs → ℕ → ℕ → ℕ → Run Fs
grown fs ip end n =
    if ltb 0 n && ltb (fs.inode ip).size end
    then iupdate (set_inode fs ip (record (fs.inode ip) { size = end })) ip
    else ok fs

abbrev amount : Transfer ℕ → ℕ
amount (moved n) = n
amount denied = 0
amount (passed_on d) = 0

device_moves-nothing : {A : Type 0} (has : ℕ → Bool) (m : ℕ) (a : A) → device has m ≡ moved a → ⊥
device_moves-nothing has m a e = elim (Bool-cases (leb ndev m || not (has m))) [
  | inl q ↦ cc (rw q at e)
  | inr q ↦ cc (rw q at e)
]

-- The part of `writei` after its loop.
finish :
    (fs fs1 fs2 : Fs) (ip off : ℕ) (src : List ℕ)
    → off ≤ (fs.inode ip).size
    → off + length src ≤ max_bytes
    → ((fs.inode ip).type == t_dev) ≡ false
    → Written fs fs1 ip off src
    → grown fs1 ip (off + length src) (length src) ≡ ok fs2
    → Stored fs fs2 ip off (length src) src
finish fs fs1 fs2 ip off src lo fit nd w e =
    elim (Bool-cases (ltb 0 (length src) && ltb (fs1.inode ip).size (off + length src))) [
      | inl q ↦
          let s = off + length src in
          let after = sized-iupdate fs1 ip s w.well fs2 (rw q at e) in
          subst (λ f. Stored fs f ip off (length src) src) (sym after)
            (record {
              all_moved = refl;
              in_file = lo;
              fits = fit;
              not_dev = nd;
              same_type = rw (==_refl ip) w.file_same.type;
              new_size = saved_size fs1 ip s w.well ∙ ground (arith, q, w.file_same.size);
              well = Placed-WellMapped fs1 _ ip w.well (saved-Placed fs1 ip s w.well);
              has = λ k lo' hi z. w.has k lo' hi (
                  sym (
                    (saved-Placed fs1 ip s w.well).slots (slot_of (k / bsize))
                      (ground (arith, hi, fit)))
                  ∙ z);
              bytes = λ k h. saved_byte fs1 ip s k w.well h ∙ w.bytes k h;
            })
      | inr q ↦
          subst (λ f. Stored fs f ip off (length src) src) (ok-injective (rw q at e))
            (record {
              all_moved = refl;
              in_file = lo;
              fits = fit;
              not_dev = nd;
              same_type = w.file_same.type;
              new_size = ground (arith, q, w.file_same.size);
              well = w.well;
              has = w.has;
              bytes = w.bytes;
            })
    ]

pub writei-Stored :
    (fs fs' : Fs) (ip off n : ℕ) (src : List ℕ)
    → WellMapped fs ip
    → Small src
    → off < 2 ^ 32
    → length src < 2 ^ 32
    → writei fs ip src off ≡ ok (fs', moved n)
    → Stored fs fs' ip off n src
unfolding writei
writei-Stored fs fs' ip off n src w small lo len e =
    let end = uint_add off (length src) in
    elim (Bool-cases ((fs.inode ip).type == t_dev)) [
      | inl q ↦ absurd (
          device_moves-nothing fs.has_write _ n
            (ap (λ (r : Fs × Transfer ℕ). r.1) (ok-injective (rw (writei, q) at e))))
      | inr q ↦ elim (Bool-cases (ltb (fs.inode ip).size off || ltb end off)) [
        | inl z ↦ absurd (cc (rw (writei, q, z) at e))
        | inr z ↦ elim (Bool-cases (ltb ((ndirect + nindirect) * bsize) end)) [
          | inl y ↦ absurd (cc (rw (writei, q, z, y) at e))
          | inr y ↦
              let in_file : off ≤ (fs.inode ip).size = ground (arith, z) in
              let fit : off + length src ≤ max_bytes = ground (arith, z, y) in
              let (fs1, p, e1) =
                >>=-eq-ok (write_blocks fs ip off src (length src)) _ (rw (writei, q, z, y) at e) in
              let (fs2, p2, e2) = >>=-eq-ok (grown fs1 ip (off + length src) (length src)) _ e1 in
              let w1 =
                write_blocks-Written fs fs1 ip off src (length src) (omega arith) fit small w p in
              let s = finish fs fs1 fs2 ip off src in_file fit q w1 p2 in
              let done : (fs2, moved (length src)) ≡ (fs', moved n) = ok-injective e2 in
              subst (λ (r : Fs × Transfer ℕ). Stored fs r.0 ip off (amount r.1) src) done s
        ]
      ]
    ]

file_bytes-eq :
    (fs : Fs) (ip off : ℕ) (src : List ℕ)
    → ((k : ℕ) → k < length src → file_byte fs ip (off + k) ≡ get_or src k 0)
    → file_bytes fs ip off (length src) ≡ src
unfolding file_bytes
file_bytes-eq fs ip off [] h = refl
file_bytes-eq fs ip off (x ∷ xs) h =
    let e : off + 0 ≡ off = omega arith in
    ap₂ (λ b bs. b ∷ bs) (ap (file_byte fs ip) (sym e) ∙ h 0 (omega arith))
      (file_bytes-eq fs ip (off + 1) xs (λ k lt.
        let e' : off + 1 + k ≡ off + suc k = omega arith in
        ap (file_byte fs ip) e' ∙ h (suc k) (omega arith)))

-- A `readi` of bytes that the file has.
readi-inside :
    (fs : Fs) (ip off n : ℕ)
    → ((fs.inode ip).type == t_dev) ≡ false
    → off + n < 2 ^ 32
    → off + n ≤ (fs.inode ip).size
    → off + n ≤ max_bytes
    → ((k : ℕ) → off ≤ k → k < off + n → slot fs ip (slot_of (k / bsize)) ≢ 0)
    → readi fs ip off n ≡ ok (fs, moved (file_bytes fs ip off n))
unfolding readi
readi-inside fs ip off n nd small hi fit has =
    let end : uint_add off n ≡ off + n = omega arith in
    let inside : ltb (fs.inode ip).size off ≡ false = ground arith in
    let no_wrap : ltb (off + n) off ≡ false = ground arith in
    let all : ltb (fs.inode ip).size (off + n) ≡ false = ground arith in
    rw (readi, nd, end, inside, no_wrap, all, read_blocks_lem fs ip off n n (omega arith) fit has)
      refl

-- `src`, a row of bytes, is written at byte `off` of a file whose blocks are on the disk, marked in the
-- bitmap and each used once; the offset and the length are `uint`s. If `writei` returns a number of bytes, it is the length of
-- `src`, the offset is not past the end, and no byte goes past the largest file. The bytes of the file
-- from `off` on are `src` then, every other byte `k` is as it was, the size grows where the bytes end
-- past it, and the blocks of the file are again on the disk, marked and each used once.
pub writei_lem :
    (fs fs' : Fs) (ip off n k : ℕ) (src : List ℕ)
    → WellMapped fs ip
    → Small src
    → off < 2 ^ 32
    → length src < 2 ^ 32
    → writei fs ip src off ≡ ok (fs', moved n)
    → k < max_bytes
    → (n ≡ length src)
      × (off ≤ (fs.inode ip).size)
      × (off + n ≤ max_bytes)
      × (file_byte fs' ip k ≡ spliced src off k (file_byte fs ip k))
      × ((fs'.inode ip).size
          ≡ (if n == 0 then (fs.inode ip).size else max (fs.inode ip).size (off + n)))
      × WellMapped fs' ip
writei_lem fs fs' ip off n k src w small lo len e h =
    let s = writei-Stored fs fs' ip off n src w small lo len e in
    subst
      (λ m.
        (n ≡ length src)
        × (off ≤ (fs.inode ip).size)
        × (off + m ≤ max_bytes)
        × (file_byte fs' ip k ≡ spliced src off k (file_byte fs ip k))
        × ((fs'.inode ip).size
            ≡ (if m == 0 then (fs.inode ip).size else max (fs.inode ip).size (off + m)))
        × WellMapped fs' ip)
      (sym s.all_moved) (s.all_moved, s.in_file, s.fits, s.bytes k h, s.new_size, s.well)

-- A `readi` of the bytes that a `writei` has just moved returns them, and changes nothing. Before both
-- calls the blocks of the file are on the disk, marked in the bitmap and each used once; the offset and
-- the length are `uint`s.
pub writei-readi :
    (fs fs' : Fs) (ip off n : ℕ) (src : List ℕ)
    → WellMapped fs ip
    → Small src
    → off < 2 ^ 32
    → length src < 2 ^ 32
    → writei fs ip src off ≡ ok (fs', moved n)
    → readi fs' ip off n ≡ ok (fs', moved src)
writei-readi fs fs' ip off n src w small lo len e =
    let s = writei-Stored fs fs' ip off n src w small lo len e in
    subst (λ m. readi fs' ip off m ≡ ok (fs', moved src)) (sym s.all_moved)
      (readi-inside fs' ip off (length src) (ap (λ t. t == t_dev) s.same_type ∙ s.not_dev)
          (omega (arith, s.fits)) (ground (arith, s.new_size, s.in_file)) s.fits s.has
        ∙ ap (λ bs. ok (fs', moved bs))
            (file_bytes-eq fs' ip off src (λ k lt.
              let e' : off + k - off ≡ k = omega arith in
              s.bytes (off + k) (omega (arith, lt, s.fits)) ∙ rw e' (ground (arith, lt)))))
