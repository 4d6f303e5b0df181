-- ===== src/Vm/Map.antt =====
-- `walkpgdir` and `mappages` of vm.c: an address space as a map from addresses to entries.
use Prim.Native.Nat.{bit_or}
use chameleon_os.Base.{
  ℕ, zero, suc, ◌+◌, ◌-◌, ◌*◌, ◌%◌, ◌^◌, ◌≤◌, ◌<◌, ◌≡◌, ◌≢◌, ◌⊎◌, refl, sym, ◌∙◌, ap, subst, inl,
  inr, Bool, true, false, ◌&&◌, List, [], ◌∷◌, arith, ◌==◌, ltb, if◌then◌else◌, Bool-cases, ne→==,
}
use chameleon_os.Base.Machine.{ok, ok-injective, uint_add}
use chameleon_os.Kalloc.{Kmem, page_size, kalloc}
use chameleon_os.Kalloc.FreeList.{kalloc-nil, kalloc-cons}
use chameleon_os.Vm.{
  pdx, ptx, pte_p, is_present, page_down, set_word, add_table, walkpgdir, map_from,
}
use chameleon_os.Vm.Tree.{table, has_table, entry, IsTree, written-IsTree, written-entry}
use chameleon_os.Vm.Fresh.{taken-IsFresh, added-IsTree, added-entry, table_new, has_new}

-- What `walkpgdir` with `alloc` leaves: the address space as it was, and a page table for `va` unless
-- there is no page for it.
pub record Walked (k k' : Kmem) (pgdir va pte : ℕ) (free : List ℕ) : Type 0 where
  pub tree : IsTree k' pgdir free
  pub same : (va' : ℕ) → entry k' pgdir va' ≡ entry k pgdir va'
  pub found :
      (pte ≡ 0)
      ⊎ ((has_table k' pgdir (pdx va) ≡ true) × (pte ≡ table k' pgdir (pdx va) + 4 * ptx va))

walkpgdir-present :
    (k : Kmem) (pgdir va : ℕ) (alloc : Bool)
    → has_table k pgdir (pdx va) ≡ true
    → walkpgdir k pgdir va alloc ≡ (k, table k pgdir (pdx va) + 4 * ptx va)
unfolding walkpgdir
walkpgdir-present k pgdir va alloc q = rw (walkpgdir, q) refl

walkpgdir-absent :
    (k k1 : Kmem) (pgdir va p : ℕ)
    → has_table k pgdir (pdx va) ≡ false
    → kalloc k ≡ (k1, p)
    → walkpgdir k pgdir va true
      ≡ (if p == 0 then (k1, 0) else (add_table k1 (pgdir + 4 * pdx va) p, p + 4 * ptx va))
unfolding walkpgdir
walkpgdir-absent k k1 pgdir va p q e = rw (walkpgdir, q, e) refl

abbrev Walks : Kmem → ℕ → ℕ → Kmem × ℕ → Type 0
Walks k pgdir va (k', pte) = (free' : List ℕ) × Walked k k' pgdir va pte free'

walkpgdir-new :
    (k : Kmem) (pgdir va : ℕ) (free : List ℕ)
    → IsTree k pgdir free
    → has_table k pgdir (pdx va) ≡ false
    → Walks k pgdir va (walkpgdir k pgdir va true)
unfolding entry
walkpgdir-new k pgdir va [] i q =
    subst (Walks k pgdir va) (sym (walkpgdir-absent k k pgdir va 0 q (kalloc-nil k i.chain)))
      ([], record { tree = i; same = λ va'. refl; found = inl refl })
walkpgdir-new k pgdir va (x ∷ xs) i q =
    let k1 = record k { freelist = k.word x } in
    let (t, f) = taken-IsFresh k pgdir (k.word x) x xs i i.chain.3 in
    let he : pdx va < 1024 = omega arith in
    let at =
      walkpgdir-absent k k1 pgdir va x q (kalloc-cons k x xs i.chain)
      ∙ rw (ne→== x 0 f.nonzero) refl in
    subst (Walks k pgdir va) (sym at) (
      xs,
      record {
        tree = added-IsTree k1 pgdir x xs t f (pdx va) he q;
        same = added-entry k1 pgdir x xs t f (pdx va) he q;
        found = inr (
          has_new k1 pgdir x xs t f (pdx va) he q,
          ap (λ y. y + 4 * ptx va) (sym (table_new k1 pgdir x xs t f (pdx va) he q)),
        );
      },
    )

pub walkpgdir-Walked :
    (k : Kmem) (pgdir va : ℕ) (free : List ℕ)
    → IsTree k pgdir free
    → Walks k pgdir va (walkpgdir k pgdir va true)
walkpgdir-Walked k pgdir va free i = elim (Bool-cases (has_table k pgdir (pdx va))) [
  | inl q ↦
      subst (Walks k pgdir va) (sym (walkpgdir-present k pgdir va true q))
        (free, record { tree = i; same = λ va'. refl; found = inr (q, refl) })
  | inr q ↦ walkpgdir-new k pgdir va free i q
]

-- The entry that `mappages` writes for address `va'`, where page `a` goes to `pa`.
abbrev pub new_entry : ℕ → ℕ → ℕ → ℕ → ℕ
new_entry a pa perm va' = bit_or (bit_or (uint_add pa (page_down va' - a)) perm) pte_p

-- What the loop leaves: the pages from `a` to `z` are mapped, if it was not stopped, and no others.
pub record Mapped (k k' : Kmem) (pgdir a z pa perm : ℕ) (all : Bool) (free : List ℕ) : Type 0 where
  pub tree : IsTree k' pgdir free
  pub inside :
      (va' : ℕ)
      → va' < 2 ^ 32
      → all ≡ true
      → a ≤ va'
      → va' < z
      → entry k' pgdir va' ≡ new_entry a pa perm va'
  pub outside :
      (va' : ℕ) → va' < 2 ^ 32 → va' < a ⊎ (z ≤ va') → entry k' pgdir va' ≡ entry k pgdir va'

-- One page of the loop, for which there is a page table.
module _ (k k1 : Kmem) (pgdir a pte v : ℕ) (free : List ℕ) (aligned : a % page_size ≡ 0)
    (ha : a < 2 ^ 32) (w : Walked k k1 pgdir a pte free) (nz : pte ≢ 0) where
  wrote : (has_table k1 pgdir (pdx a) ≡ true) × (pte ≡ table k1 pgdir (pdx a) + 4 * ptx a)
  wrote = elim w.found [ inl z ↦ absurd (nz z) | inr h ↦ h ]

  step-IsTree : IsTree (set_word k1 pte v) pgdir free
  step-IsTree =
      subst (λ p. IsTree (set_word k1 p v) pgdir free) (sym wrote.1)
        (written-IsTree k1 pgdir free (pdx a) (ptx a) v w.tree (omega arith) (omega arith) wrote.0)

  step_entry :
      (va' : ℕ)
      → entry (set_word k1 pte v) pgdir va'
        ≡ (if (pdx a == pdx va') && (ptx a == ptx va') then v else entry k pgdir va')
  step_entry va' =
      ap (λ p. entry (set_word k1 p v) pgdir va') wrote.1
      ∙ written-entry k1 pgdir free (pdx a) (ptx a) v w.tree (omega arith) (omega arith) wrote.0 va'
      ∙ ap (λ e. if (pdx a == pdx va') && (ptx a == ptx va') then v else e) (w.same va')

  step_here :
      (va' : ℕ)
      → va' < 2 ^ 32
      → a ≤ va'
      → va' < a + page_size
      → entry (set_word k1 pte v) pgdir va' ≡ v
  step_here va' h lo hi =
      let d : (pdx a == pdx va') ≡ true = ground arith in
      let t : (ptx a == ptx va') ≡ true = ground arith in step_entry va' ∙ rw (d, t) refl

  step_there :
      (va' : ℕ)
      → va' < 2 ^ 32
      → va' < a ⊎ (a + page_size ≤ va')
      → entry (set_word k1 pte v) pgdir va' ≡ entry k pgdir va'
  step_there va' h out =
      let no : ((pdx a == pdx va') && (ptx a == ptx va')) ≡ false =
        ground (arith, aligned, ha, h, out) in
      step_entry va' ∙ rw no refl

-- What is not in the pages from `a` on, or in the first of them, is not in the pages behind the first.
beyond :
    (a n va : ℕ)
    → a + suc n * page_size ≤ 2 ^ 32
    → va < 2 ^ 32
    → va < a + page_size ⊎ (a + suc n * page_size ≤ va)
    → va < uint_add a page_size ⊎ (uint_add a page_size + n * page_size ≤ va)
beyond a n va fit h o = elim (Bool-cases (ltb va (uint_add a page_size))) [
  | inl q ↦ inl (ground (arith, q))
  | inr q ↦ inr (ground (arith, q, fit, h, o))
]

pub map_from-Mapped :
    (k k' : Kmem) (pgdir a pa perm n : ℕ) (all : Bool) (free : List ℕ)
    → IsTree k pgdir free
    → a % page_size ≡ 0
    → a + n * page_size ≤ 2 ^ 32
    → pa < 2 ^ 32
    → map_from k pgdir a pa perm n ≡ ok (k', all)
    → (free' : List ℕ) × Mapped k k' pgdir a (a + n * page_size) pa perm all free'
unfolding map_from
map_from-Mapped k k' pgdir a pa perm zero all free i al fit hp e =
    subst
      (λ (r : Kmem × Bool).
        (free' : List ℕ) × Mapped k r.0 pgdir a (a + 0 * page_size) pa perm r.1 free')
      (ok-injective e)
      (
        free,
        record {
          tree = i;
          inside = λ va' h t lo hi. absurd (omega (arith, lo, hi));
          outside = λ va' h o. refl;
        },
      )
map_from-Mapped k k' pgdir a pa perm (suc n) all free i al fit hp e =
    let (k1, pte) = walkpgdir k pgdir a true in
    let (free1, w) = walkpgdir-Walked k pgdir a free i in
    let v = bit_or (bit_or pa perm) pte_p in
    let a' = uint_add a page_size in
    elim (Bool-cases (pte == 0)) [
      | inl z ↦
          subst
            (λ (r : Kmem × Bool).
              (free' : List ℕ) × Mapped k r.0 pgdir a (a + suc n * page_size) pa perm r.1 free')
            (ok-injective (rw (map_from, z) at e))
            (
              free1,
              record {
                tree = w.tree;
                inside = λ va' h t lo hi. cc;
                outside = λ va' h o. w.same va';
              },
            )
      | inr z ↦ elim (Bool-cases (is_present (k1.word pte))) [
        | inl p ↦ absurd (cc (rw (map_from, z, p) at e))
        | inr p ↦
            let nz : pte ≢ 0 = ground (arith, z) in
            let ha : a < 2 ^ 32 = omega (arith, fit) in
            let tree = step-IsTree k k1 pgdir a pte v free1 al ha w nz in
            let (free2, m) =
              map_from-Mapped (set_word k1 pte v) k' pgdir a' (uint_add pa page_size) perm n all
                free1 tree (omega (arith, al)) (omega (arith, fit, ha)) (omega arith)
                (rw (map_from, z, p) at e) in
            (
              free2,
              record {
                tree = m.tree;
                inside = λ va' h t lo hi. elim (Bool-cases (ltb va' (a + page_size))) [
                  | inl near ↦
                      let out : va' < a' ⊎ (a' + n * page_size ≤ va') =
                        beyond a n va' fit h (inl (ground (arith, near))) in
                      let at : uint_add pa (page_down va' - a) ≡ pa =
                        ground (arith, near, lo, al, hp) in
                      m.outside va' h out
                      ∙ step_here k k1 pgdir a pte v free1 al ha w nz va' h lo
                          (ground (arith, near))
                      ∙ sym (ap (λ q. bit_or (bit_or q perm) pte_p) at)
                  | inr far ↦
                      let same : uint_add (uint_add pa page_size) (page_down va' - a')
                          ≡ uint_add pa (page_down va' - a) =
                        ground (arith, far, h, al, hp) in
                      m.inside va' h t (ground (arith, far, h)) (ground (arith, far, h, hi))
                      ∙ ap (λ q. bit_or (bit_or q perm) pte_p) same
                ];
                outside = λ va' h o.
                    m.outside va' h (
                      beyond a n va' fit h
                        (elim o [ inl lo ↦ inl (omega (arith, lo)) | inr hi ↦ inr hi ]))
                    ∙ step_there k k1 pgdir a pte v free1 al ha w nz va' h
                        (elim o [ inl lo ↦ inl lo | inr hi ↦ inr (omega (arith, hi)) ]);
              },
            )
      ]
    ]
