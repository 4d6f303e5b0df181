-- ===== src/Fs/Disk/Alloc.antt =====
-- `balloc` and `bfree` of fs.c against the set of blocks in use.
use chameleon_os.Base.{
  some-injective, ℕ, zero, suc, ◌+◌, ◌-◌, ◌*◌, ◌/◌, ◌%◌, ◌≤◌, ◌<◌, ◌≡◌, refl, sym, ◌∙◌, ap, subst,
  inl, inr, Bool, true, false, none, some, arith, min, ◌==◌, ltb, if◌then◌else◌, Bool-cases,
  Option-cases,
}
use chameleon_os.Base.Machine.{ok, ok-injective, >>=-eq-ok}
use chameleon_os.Store.{Block}
use chameleon_os.Log.Room.{HasRoom}
use chameleon_os.Fs.Bits.{get_bit, get_byte, set_byte, set_bit, get_bit-set}
use chameleon_os.Fs.Disk.{
  Fs, block, put_block, bpb, bblock, zero_block, first_clear, take_block, balloc_from, balloc,
}
use chameleon_os.Fs.Disk.Room.{put, put_block_lem, put_block-inv, block-put}

-- The bitmap says that block `x` is in use.
abbrev pub used : Fs → ℕ → Bool
used fs x = get_bit (block fs (bblock fs x)) (x % bpb)

first_clear-some :
    (b : Block) (bi n j : ℕ)
    → first_clear b bi n ≡ some j
    → (get_bit b j ≡ false) × (bi ≤ j) × (j < bi + n)
unfolding first_clear
first_clear-some b bi zero j h = absurd (cc)
first_clear-some b bi (suc n) j h = elim (Bool-cases (get_bit b bi)) [
  | inl y ↦
      let (f, lo, hi) = first_clear-some b (bi + 1) n j (rw y at h) in (f, omega arith, omega arith)
  | inr y ↦
      subst (λ k. (get_bit b k ≡ false) × (bi ≤ k) × (k < bi + suc n)) (some-injective (rw y at h))
        (y, omega arith, omega arith)
]

first_clear-none :
    (b : Block) (bi n j : ℕ) → first_clear b bi n ≡ none → bi ≤ j → j < bi + n → get_bit b j ≡ true
unfolding first_clear
first_clear-none b bi zero j h lo hi = absurd (omega arith)
first_clear-none b bi (suc n) j h lo hi = elim (Bool-cases (get_bit b bi)) [
  | inl y ↦ elim (Bool-cases (bi == j)) [
    | inl q ↦ let e : bi ≡ j = ground (arith, q) in subst (λ k. get_bit b k ≡ true) e y
    | inr q ↦ first_clear-none b (bi + 1) n j (rw y at h) (ground (arith, q)) (omega arith)
  ]
  | inr y ↦ absurd (cc (rw y at h))
]

-- Block `x` marked in the bitmap, and zeroed.
abbrev pub marked : Fs → ℕ → Fs
marked fs x =
    let old = block fs (bblock fs x) in
    let bi = x % bpb in
    put fs (bblock fs x) (set_byte old (bi / 8) (set_bit (get_byte old (bi / 8)) (bi % 8)))

abbrev pub taken : Fs → ℕ → Fs
taken fs x = put (marked fs x) x zero_block

abbrev pub taken_at : Fs → ℕ → ℕ → Fs
taken_at fs b bi =
    let old = block fs (bblock fs b) in
    put (put fs (bblock fs b) (set_byte old (bi / 8) (set_bit (get_byte old (bi / 8)) (bi % 8))))
      (b + bi) zero_block

taken_at-taken :
    (fs : Fs) (b bi : ℕ) → b % bpb ≡ 0 → bi < bpb → taken_at fs b bi ≡ taken fs (b + bi)
taken_at-taken fs b bi a h =
    let e : (b + bi) % bpb ≡ bi = omega (arith, a, h) in
    let e' : (b + bi) / bpb ≡ b / bpb = omega (arith, a, h) in rw (e, e') refl

pub take_block-eq :
    (fs : Fs) (b bi : ℕ)
    → HasRoom 2 fs.log
    → (take_block fs b bi ≡ ok (taken_at fs b bi, b + bi)) × HasRoom 0 (taken_at fs b bi).log
unfolding take_block
take_block-eq fs b bi r =
    let old = block fs (bblock fs b) in
    let v = set_byte old (bi / 8) (set_bit (get_byte old (bi / 8)) (bi % 8)) in
    let (p, r1) = put_block_lem 1 fs (bblock fs b) v r in
    let (q, r0) = put_block_lem 0 (put fs (bblock fs b) v) (b + bi) zero_block r1 in
    (rw (take_block, p, q) refl, r0)

take_block-inv :
    (fs : Fs) (b bi : ℕ) (r : Fs × ℕ) → take_block fs b bi ≡ ok r → r ≡ (taken_at fs b bi, b + bi)
unfolding take_block
take_block-inv fs b bi r e =
    let old = block fs (bblock fs b) in
    let v = set_byte old (bi / 8) (set_bit (get_byte old (bi / 8)) (bi % 8)) in
    let (fs1, p, e1) = >>=-eq-ok (put_block fs (bblock fs b) v) _ e in
    let (fs2, q, e2) = >>=-eq-ok (put_block fs1 (b + bi) zero_block) _ e1 in
    sym (ok-injective e2)
    ∙ ap (λ f. (f, b + bi))
        (put_block-inv fs1 fs2 (b + bi) zero_block q
          ∙ ap (λ f. put f (b + bi) zero_block) (put_block-inv fs fs1 (bblock fs b) v p))

-- What `balloc` has done when it returns block `x`.
pub record Taken (fs fs' : Fs) (x : ℕ) : Type 0 where
  pub inside : x < fs.sb.size
  pub was_free : used fs x ≡ false
  pub after : fs' ≡ taken fs x

found :
    (fs : Fs) (b bi : ℕ)
    → b % bpb ≡ 0
    → first_clear (block fs (bblock fs b)) 0 (min bpb (fs.sb.size - b)) ≡ some bi
    → Taken fs (taken_at fs b bi) (b + bi)
found fs b bi a h =
    let (free, lo, hi) = first_clear-some _ 0 _ bi h in
    let e : (b + bi) % bpb ≡ bi = omega (arith, a, hi) in
    let e' : (b + bi) / bpb ≡ b / bpb = omega (arith, a, hi) in
    record {
      inside = omega (arith, hi);
      was_free = rw (e, e') free;
      after = taken_at-taken fs b bi a (omega (arith, hi));
    }

balloc_from-Taken :
    (fs : Fs) (b n : ℕ) (r : Fs × ℕ) → b % bpb ≡ 0 → balloc_from fs b n ≡ ok r → Taken fs r.0 r.1
unfolding balloc_from
balloc_from-Taken fs b zero r a h = absurd (cc)
balloc_from-Taken fs b (suc n) r a h =
    elim (Option-cases (first_clear (block fs (bblock fs b)) 0 (min bpb (fs.sb.size - b)))) [
      | inl e ↦ balloc_from-Taken fs (b + bpb) n r (omega arith) (rw (balloc_from, e) at h)
      | inr (bi, e) ↦
          subst (λ q. Taken fs q.0 q.1) (sym (take_block-inv fs b bi r (rw (balloc_from, e) at h)))
            (found fs b bi a e)
    ]

pub balloc-Taken : (fs fs' : Fs) (x : ℕ) → balloc fs ≡ ok (fs', x) → Taken fs fs' x
unfolding balloc
balloc-Taken fs fs' x h = balloc_from-Taken fs 0 _ (fs', x) refl h

ltb→lt : (a b : ℕ) → ltb a b ≡ true → a < b
ltb→lt a b h = ground arith

not-ltb→le : (a b : ℕ) → ltb a b ≡ false → b ≤ a
not-ltb→le a b h = ground arith

balloc_from-total :
    (fs : Fs) (b n y : ℕ)
    → HasRoom 2 fs.log
    → b % bpb ≡ 0
    → b ≤ y
    → y < b + n * bpb
    → y < fs.sb.size
    → used fs y ≡ false
    → (fs' : Fs) × (x : ℕ) × (balloc_from fs b n ≡ ok (fs', x)) × HasRoom 0 fs'.log
unfolding balloc_from
balloc_from-total fs b zero y r a lo hi lt free = absurd (omega arith)
balloc_from-total fs b (suc n) y r a lo hi lt free =
    elim (Option-cases (first_clear (block fs (bblock fs b)) 0 (min bpb (fs.sb.size - b)))) [
      | inl e ↦ elim (Bool-cases (ltb y (b + bpb))) [
        | inl near ↦
            let q : y % bpb ≡ y - b = omega (arith, a, lo, ltb→lt y (b + bpb) near) in
            let q' : y / bpb ≡ b / bpb = omega (arith, a, lo, ltb→lt y (b + bpb) near) in
            let busy =
              first_clear-none _ 0 _ (y - b) e (omega arith)
                (omega (arith, lt, lo, ltb→lt y (b + bpb) near)) in
            let busy' : used fs y ≡ true = rw (q, q') busy in absurd (cc (sym free ∙ busy'))
        | inr near ↦
            let (fs', x, p, r0) =
              balloc_from-total fs (b + bpb) n y r (omega arith) (not-ltb→le y (b + bpb) near)
                (omega (arith, hi)) lt free in
            (fs', x, rw (balloc_from, e) p, r0)
      ]
      | inr (bi, e) ↦
          let (p, r0) = take_block-eq fs b bi r in
          (taken_at fs b bi, b + bi, rw (balloc_from, e) p, r0)
    ]

pub balloc-total :
    (fs : Fs) (y : ℕ)
    → HasRoom 2 fs.log
    → y < fs.sb.size
    → used fs y ≡ false
    → (fs' : Fs) × (x : ℕ) × (balloc fs ≡ ok (fs', x)) × HasRoom 0 fs'.log
unfolding balloc
balloc-total fs y r lt free = balloc_from-total fs 0 _ y r refl (omega arith) (omega arith) lt free

-- The blocks of the bitmap are themselves in use.
abbrev pub BitmapUsed : Fs → Type 0
BitmapUsed fs = (x : ℕ) → x < fs.sb.size → used fs (bblock fs x) ≡ true

ne-of-used : (fs : Fs) (x y : ℕ) → used fs x ≡ false → used fs y ≡ true → (x == y) ≡ false
ne-of-used fs x y h k = elim (Bool-cases (x == y)) [
  | inl q ↦ let e : x ≡ y = ground (arith, q) in absurd (cc (sym h ∙ ap (used fs) e ∙ k))
  | inr q ↦ q
]

pub block-taken :
    (fs : Fs) (x z : ℕ)
    → (bblock fs x == z) ≡ false
    → block (taken fs x) z ≡ (if x == z then zero_block else block fs z)
block-taken fs x z h =
    let old = block fs (bblock fs x) in
    let v = set_byte old (x % bpb / 8) (set_bit (get_byte old (x % bpb / 8)) (x % bpb % 8)) in
    let m : block (marked fs x) z ≡ block fs z = block-put fs (bblock fs x) v z ∙ rw h refl in
    block-put (marked fs x) x zero_block z ∙ ap (λ (c : Block). if x == z then zero_block else c) m

pub used-taken :
    (fs : Fs) (x z : ℕ)
    → BitmapUsed fs
    → used fs x ≡ false
    → z < fs.sb.size
    → used (taken fs x) z ≡ (if x == z then true else used fs z)
used-taken fs x z bm free lt =
    let old = block fs (bblock fs x) in
    let v = set_byte old (x % bpb / 8) (set_bit (get_byte old (x % bpb / 8)) (x % bpb % 8)) in
    let apart = ne-of-used fs x (bblock fs z) free (bm z lt) in
    let b : block (taken fs x) (bblock fs z)
        ≡ (if bblock fs x == bblock fs z then v else block fs (bblock fs z)) =
      block-put (marked fs x) x zero_block (bblock fs z)
      ∙ rw apart (block-put fs (bblock fs x) v (bblock fs z)) in
    ap (λ (c : Block). get_bit c (z % bpb)) b ∙ elim (Bool-cases (bblock fs x == bblock fs z)) [
      | inl q ↦
          let e : bblock fs x ≡ bblock fs z = ground (arith, q) in
          let same : (x % bpb == z % bpb) ≡ (x == z) = ground (arith, e) in
          rw q (get_bit-set old (x % bpb) (z % bpb) ∙ rw (same, e) refl)
      | inr q ↦ let ne : (x == z) ≡ false = ground (arith, q) in rw (q, ne) refl
    ]
