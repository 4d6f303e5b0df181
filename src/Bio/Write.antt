-- ===== src/Bio/Write.antt =====
-- `bwrite` and `brelse` against the abstract store.
use chameleon_os.Base.{
  if◌then◌else◌, ℕ, ◌≡◌, refl, ap₂, fun_ext, sym, ◌∙◌, inl, inr, ap, Bool, true, false, ◌&&◌, some,
  arith, ◌==◌, elem, update, update_twice, Bool-cases, ==_refl, ◌-◌, leb, not,
}
use chameleon_os.Base.Machine.{ok}
use chameleon_os.Store.{Block, Store}
use chameleon_os.Store
use chameleon_os.Bio.{Cache, set_buf, is_for, iderw, bwrite}
use chameleon_os.Bio.Refine.{IsOk, pinned, pinned-set_buf, abs, pinned_clean}
use chameleon_os.Bio.Read.{for_blockno}

-- The cache after buffer `b`, holding `v`, is written through.
abbrev pub written : Cache → ℕ → Block → Cache
written c b v = record c {
  buf = update c.buf b (record (c.buf b) { content = v; dirty = false; valid = true });
  disk = if c.power == 0 then c.disk else update c.disk (c.buf b).blockno v;
  power = c.power - 1;
}

abbrev pub write_out : Cache → ℕ → Cache
write_out c b = record c {
  buf = update c.buf b (record (c.buf b) { dirty = false; valid = true });
  disk = if c.power == 0 then c.disk else update c.disk (c.buf b).blockno (c.buf b).content;
  power = c.power - 1;
}

pub iderw_write :
    (c : Cache) (pid x b : ℕ)
    → is_for 1 x (c.buf b) ≡ true
    → (c.buf b).holder ≡ some pid
    → (c.buf b).dirty ≡ true
    → leb c.disksize x ≡ false
    → iderw c pid b ≡ ok (write_out c b)
unfolding iderw
iderw_write c pid x b f h d l =
    let t : ((c.buf b).dev == 1) ≡ true = ground (arith, f) in
    let s : leb c.disksize (c.buf b).blockno ≡ false = rw (for_blockno x (c.buf b) f) l in
    let u : ((c.buf b).valid && not (c.buf b).dirty) ≡ false = ground (arith, d) in
    rw (iderw, h, ==_refl pid, u, t, s, d) refl

-- The holder of a locked buffer changes its contents.
abbrev pub edit : Cache → ℕ → Block → Cache
edit c b v = set_buf c b (record (c.buf b) { content = v })

pub bwrite-written :
    (c : Cache) (pid x b : ℕ) (v : Block)
    → is_for 1 x (c.buf b) ≡ true
    → (c.buf b).holder ≡ some pid
    → leb c.disksize x ≡ false
    → bwrite (edit c b v) pid b ≡ ok (written c b v)
unfolding bwrite
bwrite-written c pid x b v f h l =
    let d = set_buf (edit c b v) b (record ((edit c b v).buf b) { dirty = true }) in
    let g : is_for 1 x (d.buf b) ≡ true = rw (==_refl b) f in
    let i : (d.buf b).holder ≡ some pid = rw (==_refl b) h in
    let p = iderw_write d pid x b g i (rw (==_refl b) refl) l in
    let q : bwrite (edit c b v) pid b ≡ iderw d pid b =
      rw (bwrite, ==_refl b, h, ==_refl pid) refl in
    q
    ∙ p
    ∙ ap ok (
        rw (==_refl b) (
          ap (λ f. record (written c b v) { buf = f })
            (update_twice (update c.buf b _) b _ _ ∙ update_twice c.buf b _ _)))

pub write_other :
    (off : Bool) (disk : ℕ → Block) (x z : ℕ) (v : Block)
    → (x == z) ≡ false
    → (if off then disk else update disk x v) z ≡ disk z
write_other true disk x z v n = refl
write_other false disk x z v n = rw n refl

pub written-IsOk :
    (c : Cache) (pid x b : ℕ) (v : Block)
    → IsOk c
    → elem b c.order ≡ true
    → is_for 1 x (c.buf b) ≡ true
    → (c.buf b).holder ≡ some pid
    → IsOk (written c b v)
written-IsOk c pid x b v o e f h = record {
  unique = λ z a a' i i' j j'. o.unique z a a' i i' (ground (arith, j)) (ground (arith, j'));
  clean = λ z a i j u d n. elim (Bool-cases (b == a)) [
    | inl q ↦ absurd (ground (arith, q, n, h))
    | inr q ↦ elim (Bool-cases (x == z)) [
      | inl q' ↦ absurd (ground (arith, q, o.unique z a b i e (rw q at j) (ground (arith, f, q'))))
      | inr q' ↦
          rw (q, for_blockno x (c.buf b) f)
            (o.clean z a i (rw q at j) (rw q at u) (rw q at d) (rw q at n)
              ∙ sym (write_other (c.power == 0) c.disk x z v q'))
    ]
  ];
  read_first = λ a i d. elim (Bool-cases (b == a)) [
    | inl q ↦ rw q refl
    | inr n ↦ rw n (o.read_first a i (rw n at d))
  ];
}

pub pinned-written :
    (c : Cache) (pid x b : ℕ) (v : Block)
    → IsOk c
    → elem b c.order ≡ true
    → is_for 1 x (c.buf b) ≡ true
    → (c.buf b).holder ≡ some pid
    → (z : ℕ) → pinned (written c b v) z ≡ (Store.bwrite (abs c) x v).pinned z
unfolding pinned
pinned-written c pid x b v o e f h z =
    let y = record (c.buf b) { content = v; dirty = false; valid = true } in
    elim (Bool-cases (x == z)) [
      | inl q ↦ rw q (
          pinned_clean (written c b v) z b (written-IsOk c pid x b v o e f h) e
            (ground (arith, f, q)) (ground (arith)))
      | inr q ↦
          rw q
            (pinned-set_buf c b y z (ground (arith, f, q)) (λ d. absurd (ground (arith, f, q, d))))
    ]

-- The holder of the buffer of a block of the disk gives it new contents and calls `bwrite`: the call
-- does not panic, the invariant holds after it, and disk, pinned blocks and power are those of the
-- abstract write-through of the contents to that block.
pub bwrite_lem :
    (c : Cache) (pid x b : ℕ) (v : Block)
    → IsOk c
    → elem b c.order ≡ true
    → is_for 1 x (c.buf b) ≡ true
    → (c.buf b).holder ≡ some pid
    → leb c.disksize x ≡ false
    → (c' : Cache) × (bwrite (edit c b v) pid b ≡ ok c')
      × IsOk c'
      × (abs c' ≡ Store.bwrite (abs c) x v)
bwrite_lem c pid x b v o e f h l = (
  written c b v,
  bwrite-written c pid x b v f h l,
  written-IsOk c pid x b v o e f h,
  ap₂ (λ d p. record { disk = d; pinned = p; power = c.power - 1 })
      (ap (λ k. if c.power == 0 then c.disk else update c.disk k v) (for_blockno x (c.buf b) f))
      (fun_ext (pinned-written c pid x b v o e f h)),
)
