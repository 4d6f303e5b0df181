-- ===== src/Bio/Init.antt =====
-- `binit`, on the memory of a machine that boots, and the first read after it.
use chameleon_os.Base.{
  ℕ, zero, suc, ◌+◌, ◌<◌, ◌≡◌, refl, sym, ◌∙◌, ap, inl, inr, true, false, ◌&&◌, ◌||◌, none, some,
  [], ◌∷◌, arith, elem, length, leb, ltb, if◌then◌else◌, update, update_self, Option-cases, ==_refl,
}
use chameleon_os.Base.Machine.{ok, Run-cases}
use chameleon_os.Bio.{
  Buf, Cache, got, nbuf, set_buf, is_for, is_free, link_all, binit, find_buf, backwards, claim,
  acquiresleep, bget, iderw, bread,
}
use chameleon_os.Bio.Scan.{find_buf-some, find_buf-none, elem-backwards}
use chameleon_os.Store.{Block}
use chameleon_os.Bio.Refine.{IsOk}
use chameleon_os.Bio.Read.{lock_buf, read_in, iderw_read}
use chameleon_os.Bio.Total.{iderw_safe}

-- What the loop leaves.
pub record Linked (c c' : Cache) (b n : ℕ) : Type 0 where
  pub listed : (a : ℕ) → elem a c'.order ≡ ((leb b a && ltb a (b + n)) || elem a c.order)
  pub counted : length c'.order ≡ n + length c.order
  pub buffer :
      (a : ℕ)
      → c'.buf a
        ≡ (if leb b a && ltb a (b + n) then record (c.buf a) { holder = none } else c.buf a)
  pub disk_same : c'.disk ≡ c.disk
  pub size_same : c'.disksize ≡ c.disksize

link_all-Linked : (c : Cache) (b n : ℕ) → Linked c (link_all c b n) b n
unfolding link_all
link_all-Linked c b zero = record {
  listed = λ a. ground arith;
  counted = omega arith;
  buffer = λ a. ground arith;
  disk_same = refl;
  size_same = refl;
}
link_all-Linked c b (suc n) =
    let c1 = record c {
      buf = update c.buf b (record (c.buf b) { holder = none });
      order = b ∷ c.order;
    } in
    let rest = link_all-Linked c1 (b + 1) n in
    record {
      listed = λ a. rest.listed a ∙ ground arith;
      counted = rest.counted ∙ omega arith;
      buffer = λ a. rest.buffer a ∙ ground arith;
      disk_same = rest.disk_same;
      size_same = rest.size_same;
    }

-- A read for which `bget` has just recycled the unlocked buffer `b`.
bread_new :
    (c c1 : Cache) (pid x b : ℕ)
    → claim c 1 x ≡ ok (c1, b)
    → (c1.buf b).holder ≡ none
    → is_for 1 x (c1.buf b) ≡ true
    → (c1.buf b).valid ≡ false
    → (c1.buf b).dirty ≡ false
    → leb c1.disksize x ≡ false
    → bread c pid 1 x ≡ ok (got (read_in (lock_buf c1 pid b) b) b)
unfolding bread bget acquiresleep
bread_new c c1 pid x b e n f v d l =
    let c2 = lock_buf c1 pid b in
    let here = update_self c1.buf b (record (c1.buf b) { holder = some pid }) in
    let valid : (c2.buf b).valid ≡ false = ap (λ (y : Buf). y.valid) here ∙ v in
    let dirty : (c2.buf b).dirty ≡ false = ap (λ (y : Buf). y.dirty) here ∙ d in
    elim (Run-cases (iderw c2 pid b)) [
      | inl q ↦ absurd (
          iderw_safe c2 pid x b (ap (λ (y : Buf). y.holder) here) (ap (is_for 1 x) here ∙ f) valid
            dirty l q)
      | inr (c', q) ↦
          let reads : bread c pid 1 x ≡ ok (got c' b) =
            rw (bread, bget, acquiresleep, e, n, valid, q) refl in
          reads ∙ ap (λ (c' : Cache). ok (got c' b)) (iderw_read c2 c' pid b dirty q)
    ]

-- All buffers are zero, but for the locks.
pub record IsZero (c : Cache) : Type 0 where
  pub no_dev : (a : ℕ) → (c.buf a).dev ≡ 0
  pub clean : (a : ℕ) → (c.buf a).dirty ≡ false
  pub unused : (a : ℕ) → (c.buf a).refcnt ≡ 0

module _ (c : Cache) (z : IsZero c) where
  linked : Linked (record c { order = [] }) (binit c) 0 nbuf
  unfolding binit
  linked = link_all-Linked (record c { order = [] }) 0 nbuf

  pub elem-binit : (a : ℕ) → elem a (binit c).order ≡ ltb a nbuf
  elem-binit a = linked.listed a ∙ ground arith

  length-binit : length (binit c).order ≡ nbuf
  length-binit = linked.counted

  -- `initsleeplock`
  pub binit_holder :
      (a : ℕ) → ((binit c).buf a).holder ≡ (if ltb a nbuf then none else (c.buf a).holder)
  binit_holder a = ap (λ (x : Buf). x.holder) (linked.buffer a) ∙ ground arith

  binit_dev : (a : ℕ) → ((binit c).buf a).dev ≡ 0
  binit_dev a = ap (λ (x : Buf). x.dev) (linked.buffer a) ∙ ground (arith, z.no_dev a)

  binit_dirty : (a : ℕ) → ((binit c).buf a).dirty ≡ false
  binit_dirty a = ap (λ (x : Buf). x.dirty) (linked.buffer a) ∙ ground (arith, z.clean a)

  binit_refcnt : (a : ℕ) → ((binit c).buf a).refcnt ≡ 0
  binit_refcnt a = ap (λ (x : Buf). x.refcnt) (linked.buffer a) ∙ ground (arith, z.unused a)

  pub binit-IsOk : IsOk (binit c)
  binit-IsOk = record {
    unique = λ x a a' e e' f f'. absurd (ground (arith, f, binit_dev a));
    clean = λ x a e f v d n. absurd (ground (arith, f, binit_dev a));
    read_first = λ a e d. absurd (ground (arith, d, binit_dirty a));
  }

  -- The buffer that `bget` recycles for the first block.
  first_claim :
      (x : ℕ)
      → (b : ℕ) × (ltb b nbuf ≡ true)
        × (claim (binit c) 1 x
            ≡ ok (
              set_buf (binit c) b (record ((binit c).buf b) {
                dev = 1;
                blockno = x;
                valid = false;
                dirty = false;
                refcnt = 1;
              }),
              b,
            ))
  unfolding claim
  first_claim x =
      let c0 = binit c in
      elim (Option-cases (find_buf (is_for 1 x) c0.buf c0.order)) [
        | inr (a, s) ↦
            let (e, f) = find_buf-some (is_for 1 x) c0.buf c0.order a s in
            absurd (ground (arith, f, binit_dev a))
        | inl n ↦ elim (Option-cases (find_buf is_free c0.buf (backwards c0.order))) [
          | inl n' ↦
              let listed : elem 0 (backwards c0.order) ≡ true =
                elem-backwards 0 c0.order ∙ elem-binit 0 in
              let free = find_buf-none is_free c0.buf (backwards c0.order) 0 n' listed in
              absurd (ground (arith, free, binit_refcnt 0, binit_dirty 0))
          | inr (b, s) ↦
              let (e, f) = find_buf-some is_free c0.buf (backwards c0.order) b s in
              (b, sym (elem-binit b) ∙ sym (elem-backwards b c0.order) ∙ e, rw (claim, n, s) refl)
        ]
      ]

  -- The first read of a block.
  first_bread :
      (pid x : ℕ)
      → leb c.disksize x ≡ false
      → (c' : Cache) × (b : ℕ) × (bread (binit c) pid 1 x ≡ ok (got c' b))
        × (b < nbuf)
        × ((c'.buf b).holder ≡ some pid)
        × ((c'.buf b).content ≡ c.disk x)
  first_bread pid x l =
      let (b, lt, e) = first_claim x in
      let c1 = set_buf (binit c) b (record ((binit c).buf b) {
        dev = 1;
        blockno = x;
        valid = false;
        dirty = false;
        refcnt = 1;
      }) in
      let fresh = update_self (binit c).buf b (record ((binit c).buf b) {
        dev = 1;
        blockno = x;
        valid = false;
        dirty = false;
        refcnt = 1;
      }) in
      let opened : (c1.buf b).holder ≡ none =
        ap (λ (y : Buf). y.holder) fresh ∙ binit_holder b ∙ rw lt refl in
      let size : leb c1.disksize x ≡ false = ap (λ n. leb n x) linked.size_same ∙ l in
      let after = read_in (lock_buf c1 pid b) b in
      let read =
        bread_new (binit c) c1 pid x b e opened (rw (==_refl b, ==_refl x) refl)
          (ap (λ (y : Buf). y.valid) fresh) (ap (λ (y : Buf). y.dirty) fresh) size in
      (
        after,
        b,
        read,
        ground (arith, lt),
        rw (==_refl b) refl,
        rw (==_refl b) (ap (λ (d : ℕ → Block). d x) linked.disk_same),
      )

-- A machine boots with buffers that are all zero, but for what the locks hold. After `binit` exactly the
-- 30 buffers are on the list, each of them once, and their locks are open, whatever was in them; the
-- invariant of the cache holds; and the first `bread` of a block of disk 1 neither panics nor sleeps:
-- the process gets one of the buffers, locked, with the contents of the block.
pub binit_lem :
    (c : Cache) (pid x a : ℕ)
    → IsZero c
    → leb c.disksize x ≡ false
    → (elem a (binit c).order ≡ ltb a nbuf)
      × (length (binit c).order ≡ nbuf)
      × (((binit c).buf a).holder ≡ (if ltb a nbuf then none else (c.buf a).holder))
      × IsOk (binit c)
      × (c' : Cache) × (b : ℕ) × (bread (binit c) pid 1 x ≡ ok (got c' b))
      × (b < nbuf)
      × ((c'.buf b).holder ≡ some pid)
      × ((c'.buf b).content ≡ c.disk x)
binit_lem c pid x a z l =
    let (c', b, reads, small, locked, right) = first_bread c z pid x l in
    (
      elem-binit c z a,
      length-binit c z,
      binit_holder c z a,
      binit-IsOk c z,
      c',
      b,
      reads,
      small,
      locked,
      right,
    )
