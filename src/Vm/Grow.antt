-- ===== src/Vm/Grow.antt =====
-- What `allocuvm` of vm.c adds to an address space.
use Prim.Native.Nat.{bit_or}
use chameleon_os.Base.{
  ℕ, zero, suc, ◌+◌, ◌-◌, ◌*◌, ◌/◌, ◌%◌, ◌^◌, ◌≤◌, ◌<◌, ◌≡◌, ◌≢◌, ◌⊎◌, refl, sym, ◌∙◌, ap, subst,
  inl, inr, Bool, true, false, ◌&&◌, List, [], ◌∷◌, arith, ◌==◌, ltb, leb, if◌then◌else◌,
  Bool-cases, ne→==,
}
use chameleon_os.Base.Machine.{Run, ok, ok-injective, >>=-eq-ok, uint_add}
use chameleon_os.Base.Or.{bit_or-six}
use chameleon_os.Kalloc.{page_up, Kmem, page_size, kernbase, kalloc, kfree}
use chameleon_os.Kalloc.FreeList.{kalloc-nil, kalloc-cons}
use chameleon_os.Vm.{
  page_down, is_present, is_user, v2p, clear_page, mappages, deallocuvm, alloc_from, allocuvm,
}
use chameleon_os.Vm.Tree.{entry, IsTree}
use chameleon_os.Vm.Fresh.{taken-IsFresh, cleared-IsTree, cleared-entry}
use chameleon_os.Vm.Mappages.{mappages-Mapped}

-- The addresses from page `a` up to `z` have got pages, and those of other pages have what they had.
pub record Grown (k k' : Kmem) (pgdir a z : ℕ) (free : List ℕ) : Type 0 where
  pub tree : IsTree k' pgdir free
  pub inside :
      (x : ℕ)
      → a ≤ x
      → x < page_up z
      → (is_present (entry k' pgdir x) ≡ true) × (is_user (entry k' pgdir x) ≡ true)
  pub outside : (x : ℕ) → x < 2 ^ 32 → x < a ⊎ (page_up z ≤ x) → entry k' pgdir x ≡ entry k pgdir x

same_entry :
    (k : Kmem) (head pgdir x : ℕ) → entry (record k { freelist = head }) pgdir x ≡ entry k pgdir x
unfolding entry
same_entry k head pgdir x = refl

-- One page of the loop.
grow_page :
    (k k' : Kmem) (pgdir a x : ℕ) (xs : List ℕ)
    → IsTree k pgdir (x ∷ xs)
    → a % page_size ≡ 0
    → a < kernbase
    → mappages (clear_page (record k { freelist = k.word x }) x) pgdir a page_size (v2p x) 6
      ≡ ok (k', true)
    → (free : List ℕ) × Grown k k' pgdir a (a + page_size) free
grow_page k k' pgdir a x xs i al ha e =
    let k1 = record k { freelist = k.word x } in
    let (t, f) = taken-IsFresh k pgdir (k.word x) x xs i i.chain.3 in
    let (free, m) =
      mappages-Mapped (clear_page k1 x) k' pgdir a page_size (v2p x) 6 true xs
        (cleared-IsTree k1 pgdir x xs t f) (omega arith) (omega (arith, ha)) (omega arith) e in
    let start : page_down a ≡ a = omega (arith, al) in
    let end : page_down (a + page_size - 1) + page_size ≡ a + page_size = omega (arith, al) in
    let word = bit_or-six (v2p x) (omega (arith, f.page)) in
    (
      free,
      record {
        tree = m.tree;
        inside = λ y lo hi.
            let zero : uint_add (v2p x) (page_down y - page_down a) ≡ v2p x =
              omega (arith, lo, hi, al, ha) in
            let at : entry k' pgdir y ≡ v2p x + 7 =
              m.inside y (omega (arith, hi, al, ha)) refl (omega (arith, start, lo))
                (omega (arith, end, hi, al, ha))
              ∙ ap (λ p. bit_or (bit_or p 6) 1) zero
              ∙ word in
            (ap is_present at ∙ ground (arith, f.page), ap is_user at ∙ ground (arith, f.page));
        outside = λ y hy o.
            m.outside y hy (elim o [
              | inl lo ↦ inl (omega (arith, start, lo))
              | inr hi ↦ inr (omega (arith, end, hi, al, ha))
            ])
            ∙ cleared-entry k1 pgdir x xs t f y
            ∙ same_entry k (k.word x) pgdir y;
      },
    )

Grown-none :
    (k k' : Kmem) (pgdir a newsz : ℕ) (free : List ℕ)
    → IsTree k pgdir free
    → a % page_size ≡ 0
    → newsz ≤ a
    → newsz < kernbase
    → ◌≡◌ {A = Run (Kmem × Bool)} (ok (k, true)) (ok (k', true))
    → (free' : List ℕ) × Grown k k' pgdir a newsz free'
Grown-none k k' pgdir a newsz free i al h hn e =
    subst (λ (r : Kmem × Bool). (free' : List ℕ) × Grown k r.0 pgdir a newsz free') (ok-injective e)
      (
        free,
        record {
          tree = i;
          inside = λ x lo hi. absurd (omega (arith, lo, hi, h, al, hn));
          outside = λ x hx o. refl;
        },
      )

Grown-next :
    (k k1 k' : Kmem) (pgdir a newsz : ℕ) (free free' : List ℕ)
    → a % page_size ≡ 0
    → a < newsz
    → newsz < kernbase
    → Grown k k1 pgdir a (a + page_size) free
    → Grown k1 k' pgdir (uint_add a page_size) newsz free'
    → Grown k k' pgdir a newsz free'
Grown-next k k1 k' pgdir a newsz free free' al lt hn g h = record {
  tree = h.tree;
  inside = λ x lo hi. elim (Bool-cases (ltb x (a + page_size))) [
    | inl q ↦
        let same = h.outside x (omega (arith, hi, hn)) (inl (ground (arith, q, lt, hn))) in
        let (p, u) = g.inside x lo (ground (arith, q)) in
        (ap is_present same ∙ p, ap is_user same ∙ u)
    | inr q ↦ h.inside x (ground (arith, q, lt, hn)) hi
  ];
  outside = λ x hx o.
      h.outside x hx (elim o [ inl lo ↦ inl (omega (arith, lo, lt, hn)) | inr hi ↦ inr hi ])
      ∙ g.outside x hx (elim o [ inl lo ↦ inl lo | inr hi ↦ inr (omega (arith, hi, al, lt, hn)) ]);
}

refused : (k k' : Kmem) → ◌≢◌ {A = Run (Kmem × Bool)} (ok (k, false)) (ok (k', true))
refused k k' e = let h = ap (λ (r : Kmem × Bool). r.1) (ok-injective e) in absurd (cc h)

alloc_from-Grown :
    (k k' : Kmem) (pgdir a oldsz newsz n : ℕ) (free : List ℕ)
    → IsTree k pgdir free
    → a % page_size ≡ 0
    → newsz < kernbase
    → newsz ≤ a + n * page_size
    → alloc_from k pgdir a oldsz newsz n ≡ ok (k', true)
    → (free' : List ℕ) × Grown k k' pgdir a newsz free'
unfolding alloc_from
alloc_from-Grown k k' pgdir a oldsz newsz zero free i al hn fit e =
    Grown-none k k' pgdir a newsz free i al (omega (arith, fit)) hn e
alloc_from-Grown k k' pgdir a oldsz newsz (suc n) [] i al hn fit e =
    elim (Bool-cases (ltb a newsz)) [
      | inr q ↦
          Grown-none k k' pgdir a newsz [] i al (ground (arith, q)) hn (rw (alloc_from, q) at e)
      | inl q ↦
          let (r, p, e1) =
            >>=-eq-ok (deallocuvm (kalloc k).0 pgdir newsz oldsz) _
              (rw (alloc_from, q, kalloc-nil k i.chain) at e) in
          absurd (refused r.0 k' e1)
    ]
alloc_from-Grown k k' pgdir a oldsz newsz (suc n) (x ∷ xs) i al hn fit e =
    elim (Bool-cases (ltb a newsz)) [
      | inr q ↦
          Grown-none k k' pgdir a newsz (x ∷ xs) i al (ground (arith, q)) hn
            (rw (alloc_from, q) at e)
      | inl q ↦
          let taken = kalloc-cons k x xs i.chain in
          let some_page : ((kalloc k).1 == 0) ≡ false =
            ap (λ (r : Kmem × ℕ). r.1 == 0) taken ∙ ne→== x 0 i.chain.1 in
          let ((k2, mapped), p, e1) =
            >>=-eq-ok
              (mappages (clear_page (kalloc k).0 (kalloc k).1) pgdir a page_size (v2p (kalloc k).1)
                6)
              _ (rw (alloc_from, q, some_page) at e) in
          elim (Bool-cases mapped) [
            | inr t ↦
                let (r, p2, e2) = >>=-eq-ok (deallocuvm k2 pgdir newsz oldsz) _ (rw t at e1) in
                let (r3, p3, e3) = >>=-eq-ok (kfree r.0 (kalloc k).1) _ e2 in
                absurd (refused r3 k' e3)
            | inl t ↦
                let lt : a < newsz = ground (arith, q) in
                let (free1, g) = grow_page k k2 pgdir a x xs i al (omega (arith, lt, hn)) (
                  ap (λ (r : Kmem × ℕ). mappages (clear_page r.0 r.1) pgdir a page_size (v2p r.1) 6)
                    (sym taken)
                  ∙ p
                  ∙ ap (λ b. ok (k2, b)) t) in
                let (free2, h) =
                  alloc_from-Grown k2 k' pgdir (uint_add a page_size) oldsz newsz n free1 g.tree
                    (omega (arith, al)) hn (omega (arith, fit, lt, hn)) (rw t at e1) in
                (free2, Grown-next k k2 k' pgdir a newsz free1 free2 al lt hn g h)
          ]
    ]

-- `allocuvm` that returns the new size, when the old one was not greater and the directory, its page
-- tables and the free pages do not overlap: every page from the old size, rounded up, to the new size
-- is then present and the user's, every address outside these pages has the entry that it had, and
-- directory, page tables and free pages again do not overlap.
pub allocuvm_lem :
    (k k' : Kmem) (pgdir oldsz newsz x : ℕ) (free : List ℕ)
    → IsTree k pgdir free
    → 0 < newsz
    → oldsz ≤ newsz
    → x < 2 ^ 32
    → allocuvm k pgdir oldsz newsz ≡ ok (k', newsz)
    → (free' : List ℕ) × IsTree k' pgdir free'
      × (if leb (page_up oldsz) x && ltb x (page_up newsz)
          then (is_present (entry k' pgdir x) ≡ true) × (is_user (entry k' pgdir x) ≡ true)
          else entry k' pgdir x ≡ entry k pgdir x)
unfolding allocuvm
allocuvm_lem k k' pgdir oldsz newsz x free i hn ho hx e = elim (Bool-cases (leb kernbase newsz)) [
  | inl q ↦
      let z = ap (λ (r : Kmem × ℕ). r.1) (ok-injective (rw (allocuvm, q) at e)) in
      absurd (omega (arith, z, hn))
  | inr q ↦
      let r : (ltb newsz oldsz) ≡ false = ground (arith, ho) in
      let lt : newsz < kernbase = ground (arith, q) in
      let ((k1, grown), p, e1) =
        >>=-eq-ok (alloc_from k pgdir (page_up oldsz) oldsz newsz (suc (newsz / page_size))) _
          (rw (allocuvm, q, r) at e) in
      let same : k1 ≡ k' = ap (λ (r : Kmem × ℕ). r.0) (ok-injective e1) in
      let size : (if grown then newsz else 0) ≡ newsz =
        ap (λ (r : Kmem × ℕ). r.1) (ok-injective e1) in
      let whole : grown ≡ true = ground (arith, size, hn) in
      let (free', g) =
        alloc_from-Grown k k' pgdir (page_up oldsz) oldsz newsz (suc (newsz / page_size)) free i
          (omega arith) lt (omega (arith, ho, lt))
          (p ∙ ap (λ k. ok (k, grown)) same ∙ ap (λ b. ok (k', b)) whole) in
      (
        free',
        g.tree,
        elim (Bool-cases (leb (page_up oldsz) x && ltb x (page_up newsz))) [
          | inl t ↦ rw t (g.inside x (ground (arith, t)) (ground (arith, t)))
          | inr t ↦ rw t (
              g.outside x hx (elim (Bool-cases (ltb x (page_up oldsz))) [
                | inl u ↦ inl (ground (arith, u))
                | inr u ↦ inr (ground (arith, t, u))
              ]))
        ],
      )
]
