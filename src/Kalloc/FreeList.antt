-- ===== src/Kalloc/FreeList.antt =====
-- The pages that the free list of kalloc.c holds.
use chameleon_os.Base.{
  not-lt→ltb, not-le→leb, ne→==, update_self, ◌≤◌, ◌↔◌, ℕ, ◌%◌, ◌<◌, ◌≡◌, ◌≢◌, refl, false, List,
  [], ◌∷◌, arith, elem, update, drop, subst, sym, ap, inl, inr, Bool-cases, not, ◌||◌, ◌==◌, ltb,
  leb,
}
use chameleon_os.Base.Machine.{ok, ok-injective, uint_sub}
use chameleon_os.Kalloc.{kernbase, phystop, Kmem, page_size, junk, kfree, kalloc}

-- From `head` on the words link the pages of the list, up to 0.
abbrev pub Chain : (ℕ → ℕ) → ℕ → List ℕ → Type 0
Chain word head [] = head ≡ 0
Chain word head (x ∷ xs) = (head ≡ x) × (x ≢ 0) × (x % page_size ≡ 0) × Chain word (word x) xs

-- Words of other pages stay.
Chain-kfree :
    (word : ℕ → ℕ) (v w head : ℕ) (xs : List ℕ)
    → v % page_size ≡ 0
    → elem v xs ≡ false
    → Chain word head xs
    → Chain (update (junk word v) v w) head xs
Chain-kfree word v w head [] a n c = c
Chain-kfree word v w head (x ∷ xs) a n (e, z, m, c) =
    let other : update (junk word v) v w x ≡ word x = ground (arith, n, a, m) in
    (
      e,
      z,
      m,
      subst (λ y. Chain (update (junk word v) v w) y xs) (sym other)
          (Chain-kfree word v w (word x) xs a (ground (arith, n)) c),
    )

-- `kfree` of a page above the end of the kernel and below PHYSTOP that is not on the free list does
-- not panic, and puts it on the list in front of the others.
pub kfree_lem :
    (k : Kmem) (v : ℕ) (xs : List ℕ)
    → 0 < k.kernel_end
    → v % page_size ≡ 0
    → k.kernel_end ≤ v
    → uint_sub v kernbase < phystop
    → elem v xs ≡ false
    → Chain k.word k.freelist xs
    → (k' : Kmem) × (kfree k v ≡ ok k') × Chain k'.word k'.freelist (v ∷ xs)
unfolding kfree
kfree_lem k v xs h a lo hi n c =
    let word' = update (junk k.word v) v k.freelist in
    (
      record k { word = word'; freelist = v },
      rw
          (
            a,
            not-lt→ltb v k.kernel_end (omega (arith, lo)),
            not-le→leb phystop (uint_sub v kernbase) (omega (arith, hi)),
          )
          refl,
      (
        refl,
        omega (arith, h, lo),
        a,
        subst (λ y. Chain word' y xs) (sym (update_self (junk k.word v) v k.freelist))
            (Chain-kfree k.word v k.freelist k.freelist xs a n c),
      ),
    )

pub kfree-kernel_end : (k k' : Kmem) (v : ℕ) → kfree k v ≡ ok k' → k'.kernel_end ≡ k.kernel_end
unfolding kfree
kfree-kernel_end k k' v e =
    elim (Bool-cases
      (not (v % page_size == 0) || (ltb v k.kernel_end || leb phystop (uint_sub v kernbase)))) [
        | inl q ↦ absurd (cc (rw (kfree, q) at e))
        | inr q ↦ sym (ap (λ (k : Kmem). k.kernel_end) (ok-injective (rw (kfree, q) at e)))
      ]

-- The first page of a list, or 0.
abbrev pub first_page : List ℕ → ℕ
first_page [] = 0
first_page (x ∷ xs) = x

-- `kalloc` takes the first page off the free list and leaves the others; it returns 0 exactly if the
-- list is empty. It changes no word of memory.
pub kalloc_lem :
    (k : Kmem) (xs : List ℕ)
    → Chain k.word k.freelist xs
    → let (k', p) = kalloc k in
      (p ≡ first_page xs)
      × ((p ≡ 0) ↔ (xs ≡ []))
      × Chain k'.word k'.freelist (drop 1 xs)
      × (k'.word ≡ k.word)
unfolding kalloc
kalloc_lem k [] c = rw (kalloc, c) (refl, (λ h. refl, λ h. refl), refl, refl)
kalloc_lem k (x ∷ xs) (e, z, a, c) =
    rw (kalloc, e, ne→== x 0 z) (refl, (λ h. absurd (z h), λ h. absurd (cc)), c, refl)

pub kalloc-nil : (k : Kmem) → Chain k.word k.freelist [] → kalloc k ≡ (k, 0)
unfolding kalloc
kalloc-nil k c = rw (kalloc, c) refl

pub kalloc-cons :
    (k : Kmem) (x : ℕ) (xs : List ℕ)
    → Chain k.word k.freelist (x ∷ xs)
    → kalloc k ≡ (record k { freelist = k.word x }, x)
unfolding kalloc
kalloc-cons k x xs (e, z, a, c) = rw (kalloc, e, ne→== x 0 z) refl
