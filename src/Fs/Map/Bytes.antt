-- ===== src/Fs/Map/Bytes.antt =====
-- A file of fs.c as a row of bytes, and the loop of `readi` over it.
use chameleon_os.Base.{
  ℕ, zero, suc, ◌+◌, ◌-◌, ◌*◌, ◌/◌, ◌%◌, ◌≤◌, ◌<◌, ◌≡◌, ◌≢◌, refl, sym, ◌∙◌, ap, inl, inr, List, [],
  ◌∷◌, ◌++◌, arith, ◌==◌, min, Bool-cases, ne→==,
}
use chameleon_os.Base.Machine.{ok}
use chameleon_os.Fs.Bits.{get_byte, get_bytes}
use chameleon_os.Fs.Disk.{Fs, block}
use chameleon_os.Fs.Map.{ndirect, nindirect, bsize, read_blocks}
use chameleon_os.Fs.Map.Slots.{slot, slot_of, content}
use chameleon_os.Fs.Map.Bmap.{bmap_hit}

abbrev pub max_bytes : ℕ
max_bytes = (ndirect + nindirect) * bsize

unfoldable pub file_byte : Fs → ℕ → ℕ → ℕ
file_byte fs ip k = get_byte (content fs ip (slot_of (k / bsize))) (k % bsize)

unfoldable pub file_bytes : Fs → ℕ → ℕ → ℕ → List ℕ
file_bytes fs ip off zero = []
file_bytes fs ip off (suc n) = file_byte fs ip off ∷ file_bytes fs ip (off + 1) n

pub file_bytes-append :
    (fs : Fs) (ip off m n : ℕ)
    → file_bytes fs ip off (m + n) ≡ file_bytes fs ip off m ++ file_bytes fs ip (off + m) n
unfolding file_bytes
file_bytes-append fs ip off zero n =
    let e : 0 + n ≡ n = omega arith in let e' : off + 0 ≡ off = omega arith in rw (e, e') refl
file_bytes-append fs ip off (suc m) n =
    let e : suc m + n ≡ suc (m + n) = omega arith in
    let e' : off + suc m ≡ off + 1 + m = omega arith in
    rw (e, e') (ap (λ r. file_byte fs ip off ∷ r) (file_bytes-append fs ip (off + 1) m n))

-- Bytes within block `q` of the file.
get_bytes-file :
    (fs : Fs) (ip q k m : ℕ)
    → k + m ≤ bsize
    → get_bytes (content fs ip (slot_of q)) k m ≡ file_bytes fs ip (q * bsize + k) m
unfolding get_bytes file_bytes file_byte
get_bytes-file fs ip q k zero h = refl
get_bytes-file fs ip q k (suc m) h =
    let e : (q * bsize + k) / bsize ≡ q = omega arith in
    let e' : (q * bsize + k) % bsize ≡ k = omega arith in
    let e'' : q * bsize + k + 1 ≡ q * bsize + (k + 1) = omega arith in
    rw (e, e', e'')
      (ap (λ r. get_byte (content fs ip (slot_of q)) k ∷ r)
        (get_bytes-file fs ip q (k + 1) m (omega arith)))

pub content-block :
    (fs : Fs) (ip i : ℕ) → slot fs ip i ≢ 0 → content fs ip i ≡ block fs (slot fs ip i)
unfolding content
content-block fs ip i n = rw (content, ne→== _ _ n) refl

-- The part of one block.
pub block-file :
    (fs : Fs) (ip off m : ℕ)
    → slot fs ip (slot_of (off / bsize)) ≢ 0
    → off % bsize + m ≤ bsize
    → get_bytes (block fs (slot fs ip (slot_of (off / bsize)))) (off % bsize) m
      ≡ file_bytes fs ip off m
block-file fs ip off m n h =
    let e : off / bsize * bsize + off % bsize ≡ off = omega arith in
    ap (λ b. get_bytes b (off % bsize) m) (sym (content-block fs ip _ n))
    ∙ get_bytes-file fs ip (off / bsize) (off % bsize) m h
    ∙ ap (λ o. file_bytes fs ip o m) e

-- A loop over bytes that the file has returns them, and changes nothing.
pub read_blocks_lem :
    (fs : Fs) (ip off left fuel : ℕ)
    → left ≤ fuel
    → off + left ≤ max_bytes
    → ((k : ℕ) → off ≤ k → k < off + left → slot fs ip (slot_of (k / bsize)) ≢ 0)
    → read_blocks fs ip off left fuel ≡ ok (fs, file_bytes fs ip off left)
unfolding read_blocks file_bytes
read_blocks_lem fs ip off left zero h fit has = let e : left ≡ 0 = omega arith in rw e refl
read_blocks_lem fs ip off left (suc fuel) h fit has = elim (Bool-cases (left == 0)) [
  | inl z ↦ let e : left ≡ 0 = ground (arith, z) in rw e refl
  | inr z ↦
      let m = min left (bsize - off % bsize) in
      let some_left : 0 < left = ground (arith, z) in
      let hit = bmap_hit fs ip (off / bsize) (omega arith) (has off (omega arith) (omega arith)) in
      let rest =
        read_blocks_lem fs ip (off + m) (left - m) fuel (omega arith) (omega arith)
          (λ k lo hi. has k (omega arith) (omega arith)) in
      let e : m + (left - m) ≡ left = omega arith in
      rw (read_blocks, z, hit, rest)
        (ap (λ (bs : List ℕ). ok (fs, bs))
          (ap (λ bs. bs ++ file_bytes fs ip (off + m) (left - m))
              (block-file fs ip off m (has off (omega arith) (omega arith)) (omega arith))
            ∙ sym (file_bytes-append fs ip off m (left - m))
            ∙ ap (file_bytes fs ip off) e))
]
