-- ===== src/Kalloc/Range.antt =====
-- `freerange` of kalloc.c, by which the pages come to the free list.
use chameleon_os.Base.{
  ℕ, zero, suc, ◌+◌, ◌-◌, ◌*◌, ◌/◌, ◌%◌, ◌≤◌, ◌<◌, ◌≡◌, refl, ◌∙◌, true, false, List, [], ◌∷◌,
  arith, leb, elem, All,
}
use chameleon_os.Base.Machine.{ok, uint_add}
use chameleon_os.Kalloc.{Kmem, page_size, kernbase, phystop, kfree, page_up, free_pages, freerange}
use chameleon_os.Kalloc.FreeList.{Chain, kfree_lem, kfree-kernel_end}

-- `n` pages from `p` on, put in front of a list, the last one first.
abbrev pub pages_from : ℕ → ℕ → List ℕ → List ℕ
pages_from p zero xs = xs
pages_from p (suc n) xs = pages_from (p + page_size) n (p ∷ xs)

elem-above : (p : ℕ) (xs : List ℕ) → All (λ x. x < p) xs → elem p xs ≡ false
elem-above p [] h = refl
elem-above p (x ∷ xs) h = let rest = elem-above p xs h.1 in ground (arith, h.0, rest)

All-weaken : (p q : ℕ) (xs : List ℕ) → p ≤ q → All (λ x. x < p) xs → All (λ x. x < q) xs
All-weaken p q [] le h = h
All-weaken p q (x ∷ xs) le h = (omega (arith, le, h.0), All-weaken p q xs le h.1)

free_pages-Chain :
    (k : Kmem) (p vend n m : ℕ) (xs : List ℕ)
    → 0 < k.kernel_end
    → k.kernel_end ≤ p
    → kernbase ≤ p
    → p % page_size ≡ 0
    → vend ≤ kernbase + phystop
    → p + m * page_size ≤ vend
    → vend < p + suc m * page_size
    → m < n
    → All (λ x. x < p) xs
    → Chain k.word k.freelist xs
    → (k' : Kmem) × (free_pages k p vend n ≡ ok k') × Chain k'.word k'.freelist (pages_from p m xs)
unfolding free_pages
free_pages-Chain k p vend zero m xs h0 hk hb al top lo hi fuel below c =
    absurd (omega (arith, fuel))
free_pages-Chain k p vend (suc n) zero xs h0 hk hb al top lo hi fuel below c =
    let stop : leb (uint_add p page_size) vend ≡ false = ground (arith, hi, lo, top) in
    (k, rw (free_pages, stop) refl, c)
free_pages-Chain k p vend (suc n) (suc m) xs h0 hk hb al top lo hi fuel below c =
    let go : leb (uint_add p page_size) vend ≡ true = ground (arith, lo, top) in
    let next : uint_add p page_size ≡ p + page_size = omega (arith, lo, top) in
    let step : (k1 : Kmem)
        → kfree k p ≡ ok k1
        → free_pages k p vend (suc n) ≡ free_pages k1 (p + page_size) vend n =
      λ k1 e. rw (free_pages, go, e, next) refl in
    let (k1, e, c1) =
      kfree_lem k p xs h0 al hk (omega (arith, hb, lo, top)) (elem-above p xs below) c in
    let end = kfree-kernel_end k k1 p e in
    let (k', e', c') =
      free_pages-Chain k1 (p + page_size) vend n m (p ∷ xs) (omega (arith, h0, end))
        (omega (arith, hk, end)) (omega (arith, hb)) (omega (arith, al)) top (omega (arith, lo))
        (omega (arith, hi)) (omega (arith, fuel))
        (omega arith, All-weaken p (p + page_size) xs (omega arith) below) c1 in
    (k', step k1 e ∙ e', c')

-- `freerange` of a range of addresses with a page boundary in it, behind the end of the kernel and below PHYSTOP, with a free list whose
-- pages all lie below the range: it does not panic, and it puts each whole page of the range on the list,
-- from the first address rounded up on, in front of the pages that were there, and no others.
pub freerange_lem :
    (k : Kmem) (vstart vend : ℕ) (xs : List ℕ)
    → 0 < k.kernel_end
    → k.kernel_end ≤ vstart
    → kernbase ≤ vstart
    → vstart ≤ vend
    → page_up vstart ≤ vend
    → vend ≤ kernbase + phystop
    → All (λ x. x < vstart) xs
    → Chain k.word k.freelist xs
    → (k' : Kmem) × (freerange k vstart vend ≡ ok k')
      × Chain k'.word k'.freelist
          (pages_from (page_up vstart) ((vend - page_up vstart) / page_size) xs)
unfolding freerange
freerange_lem k vstart vend xs h0 hk hb order fit top below c =
    let up : vstart ≤ page_up vstart = omega (arith, order, top) in
    free_pages-Chain k (page_up vstart) vend (suc (vend / page_size))
      ((vend - page_up vstart) / page_size) xs h0 (omega (arith, hk, up)) (omega (arith, hb, up))
      (omega arith) top (omega (arith, fit)) (omega (arith, fit)) (omega (arith, fit))
      (All-weaken vstart (page_up vstart) xs up below) c
