-- ===== src/Bio/Total.antt =====
-- `bread` does not panic while there is a buffer to take.
use chameleon_os.Base.{
  ℕ, ◌≡◌, ◌≢◌, sym, ◌∙◌, inl, inr, true, false, some, arith, ◌==◌, elem, Bool-cases, Option-cases,
  ==_refl, leb,
}
use chameleon_os.Base.Machine.{ok, panic, Run-cases}
use chameleon_os.Bio.{
  Cache, Got, find_buf, is_for, is_free, claim, backwards, acquiresleep, bget, iderw, bread,
}
use chameleon_os.Bio.Scan.{find_buf-none, elem-backwards}
use chameleon_os.Bio.Refine.{IsOk}
use chameleon_os.Bio.Claim.{claim_lem}
use chameleon_os.Bio.Read.{
  Outcome, bread-Outcome, fill, lock_buf, fill_valid, fill_read, for_blockno,
}

pub claim_safe :
    (c : Cache) (x a : ℕ) → elem a c.order ≡ true → is_free (c.buf a) ≡ true → claim c 1 x ≢ panic
unfolding claim
claim_safe c x a e f p = elim (Option-cases (find_buf (is_for 1 x) c.buf c.order)) [
  | inl n ↦ elim (Option-cases (find_buf is_free c.buf (backwards c.order))) [
    | inl n' ↦ absurd (
        ground (
          arith,
          f,
          find_buf-none is_free c.buf (backwards c.order) a n' (elem-backwards a c.order ∙ e),
        ))
    | inr (b, s) ↦ absurd (cc (rw (claim, n, s) at p))
  ]
  | inr (b, s) ↦ absurd (cc (rw (claim, s) at p))
]

pub iderw_safe :
    (c : Cache) (pid x b : ℕ)
    → (c.buf b).holder ≡ some pid
    → is_for 1 x (c.buf b) ≡ true
    → (c.buf b).valid ≡ false
    → (c.buf b).dirty ≡ false
    → leb c.disksize x ≡ false
    → iderw c pid b ≢ panic
unfolding iderw
iderw_safe c pid x b h f v n l p =
    let t : ((c.buf b).dev == 1) ≡ true = ground (arith, f) in
    let s : leb c.disksize (c.buf b).blockno ≡ false = rw (for_blockno x (c.buf b) f) l in
    absurd (cc (rw (iderw, h, ==_refl pid, v, t, n, s) at p))

pub fill_safe :
    (c : Cache) (pid x b : ℕ)
    → IsOk c
    → elem b c.order ≡ true
    → is_for 1 x (c.buf b) ≡ true
    → leb c.disksize x ≡ false
    → fill (lock_buf c pid b) pid b ≢ panic
fill_safe c pid x b o e f l p =
    let d = lock_buf c pid b in
    elim (Bool-cases (c.buf b).valid) [
      | inl v ↦ absurd (cc (sym (fill_valid d pid b (rw (==_refl b) v)) ∙ p))
      | inr v ↦
          let v' : (d.buf b).valid ≡ false = rw (==_refl b) v in
          elim (Run-cases (iderw d pid b)) [
            | inl q ↦
                iderw_safe d pid x b (ground arith) (rw (==_refl b) f) v'
                  (ground (arith, o.read_first b e, v)) l q
            | inr (d', q) ↦ absurd (cc (sym (fill_read d d' pid b v' q) ∙ p))
          ]
    ]

-- While some buffer is unused and clean, reading a block of the disk does not panic: the reader gets
-- a locked, valid buffer with the contents that the abstract store gives for that block (what the
-- pinned buffer has, else what the disk has), or it sleeps on the block's buffer. Either way the
-- invariant holds after it, and the disk and every pinned block are as before.
pub bread_lem :
    (c : Cache) (pid x a : ℕ)
    → IsOk c
    → leb c.disksize x ≡ false
    → elem a c.order ≡ true
    → is_free (c.buf a) ≡ true
    → (g : Got) × (bread c pid 1 x ≡ ok g) × Outcome c pid x g
unfolding bread bget acquiresleep
bread_lem c pid x a o l e f = elim (Run-cases (bread c pid 1 x)) [
  | inl p ↦ elim (Run-cases (claim c 1 x)) [
    | inl q ↦ absurd (claim_safe c x a e f q)
    | inr ((d, b), q) ↦
        let k = claim_lem c d x b o q in
        elim (Option-cases (d.buf b).holder) [
          | inl n ↦ absurd (
              fill_safe d pid x b k.keeps.ok_after k.listed k.for_block (rw k.keeps.size_same l)
                (rw (bread, bget, acquiresleep, q, n) at p))
          | inr (_, n) ↦ absurd (cc (rw (bread, bget, acquiresleep, q, n) at p))
        ]
  ]
  | inr (g, p) ↦ (g, p, bread-Outcome c pid x g o p)
]
