-- ===== src/Vm/Tree.antt =====
-- A page directory of vm.c, its page tables and the free pages: none of them overlap.
use chameleon_os.Base.{
  ℕ, ◌+◌, ◌*◌, ◌%◌, ◌^◌, ◌<◌, ◌≡◌, ◌≢◌, refl, sym, ◌∙◌, ap, subst, inl, inr, Bool, true, false,
  ◌&&◌, List, [], ◌∷◌, arith, ◌==◌, if◌then◌else◌, Bool-cases, ==_refl, ne→==, elem, All,
}
use chameleon_os.Kalloc.{Kmem, page_size}
use chameleon_os.Kalloc.FreeList.{Chain}
use chameleon_os.Vm.{pdx, ptx, pte_addr, is_present, p2v, set_word}

-- Entry `d` of the directory, and the page table that it has.
abbrev pub pde_of : Kmem → ℕ → ℕ → ℕ
pde_of k pgdir d = k.word (pgdir + 4 * d)

abbrev pub table : Kmem → ℕ → ℕ → ℕ
table k pgdir d = p2v (pte_addr (pde_of k pgdir d))

abbrev pub has_table : Kmem → ℕ → ℕ → Bool
has_table k pgdir d = is_present (pde_of k pgdir d)

abbrev pub entry_at : (ℕ → ℕ) → ℕ → ℕ → ℕ
entry_at word pde t = if is_present pde then word (p2v (pte_addr pde) + 4 * t) else 0

-- The entry for address `va`; 0, which is not present, where there is no page table.
unfoldable pub entry : Kmem → ℕ → ℕ → ℕ
entry k pgdir va = entry_at k.word (pde_of k pgdir (pdx va)) (ptx va)

abbrev pub Unique : List ℕ → Type 0
Unique [] = Unit
Unique (x ∷ xs) = (elem x xs ≡ false) × Unique xs

-- The free pages are those on the list of Kalloc.
pub record IsTree (k : Kmem) (pgdir : ℕ) (free : List ℕ) : Type 0 where
  pub chain : Chain k.word k.freelist free
  pub small : All (λ x. x < 2 ^ 32) free
  pub unique : Unique free
  pub aligned : pgdir % page_size ≡ 0
  pub dir_used : elem pgdir free ≡ false
  pub table_used :
      (d : ℕ) → d < 1024 → has_table k pgdir d ≡ true → elem (table k pgdir d) free ≡ false
  pub table_apart : (d : ℕ) → d < 1024 → has_table k pgdir d ≡ true → table k pgdir d ≢ pgdir
  pub table_nonzero : (d : ℕ) → d < 1024 → has_table k pgdir d ≡ true → table k pgdir d ≢ 0
  pub distinct :
      (d e : ℕ)
      → d < 1024
      → e < 1024
      → has_table k pgdir d ≡ true
      → has_table k pgdir e ≡ true
      → table k pgdir d ≡ table k pgdir e
      → d ≡ e

-- The list does not change with words that are not the first of its pages.
pub Chain-agree :
    (word word' : ℕ → ℕ) (head : ℕ) (xs : List ℕ)
    → ((x : ℕ) → elem x xs ≡ true → x % page_size ≡ 0 → word' x ≡ word x)
    → Chain word head xs
    → Chain word' head xs
Chain-agree word word' head [] h c = c
Chain-agree word word' head (x ∷ xs) h (e, z, m, c) = (
  e,
  z,
  m,
  subst (λ y. Chain word' y xs) (sym (h x (ground (arith, ==_refl x)) m))
      (Chain-agree word word' (word x) xs (λ y p. h y (ground (arith, p))) c),
)

-- A change outside the directory and the free pages.
pub IsTree-agree :
    (k k' : Kmem) (pgdir : ℕ) (free : List ℕ)
    → IsTree k pgdir free
    → Chain k'.word k'.freelist free
    → ((e : ℕ) → e < 1024 → pde_of k' pgdir e ≡ pde_of k pgdir e)
    → IsTree k' pgdir free
IsTree-agree k k' pgdir free i c same =
    let was : (e : ℕ) → e < 1024 → has_table k' pgdir e ≡ true → has_table k pgdir e ≡ true =
      λ e he h. sym (ap is_present (same e he)) ∙ h in
    let at : (e : ℕ) → e < 1024 → table k' pgdir e ≡ table k pgdir e =
      λ e he. ap (λ w. p2v (pte_addr w)) (same e he) in
    record {
      chain = c;
      small = i.small;
      unique = i.unique;
      aligned = i.aligned;
      dir_used = i.dir_used;
      table_used = λ e he h. ap (λ t. elem t free) (at e he) ∙ i.table_used e he (was e he h);
      table_apart = λ e he h q. i.table_apart e he (was e he h) (sym (at e he) ∙ q);
      table_nonzero = λ e he h q. i.table_nonzero e he (was e he h) (sym (at e he) ∙ q);
      distinct = λ e f he hf h h' q.
          i.distinct e f he hf (was e he h) (was f hf h') (sym (at e he) ∙ q ∙ at f hf);
    }

-- Entry `t` of page table `d` is written.
module _ (k : Kmem) (pgdir : ℕ) (free : List ℕ) (d t v : ℕ) (i : IsTree k pgdir free)
    (hd : d < 1024) (ht : t < 1024) (p : has_table k pgdir d ≡ true) where
  abbrev spot : ℕ
  spot = table k pgdir d + 4 * t

  abbrev pub written : Kmem
  written = set_word k spot v

  pde_kept : (e : ℕ) → e < 1024 → pde_of written pgdir e ≡ pde_of k pgdir e
  pde_kept e he =
      let apart : spot ≢ pgdir + 4 * e = λ q. i.table_apart d hd p (omega (arith, i.aligned)) in
      rw (ne→== _ _ apart) refl

  pub written-IsTree : IsTree written pgdir free
  written-IsTree =
      IsTree-agree k written pgdir free i
        (Chain-agree k.word written.word k.freelist free
          (λ x hx m.
            let apart : spot ≢ x = λ q.
              let same : table k pgdir d ≡ x = omega (arith, m, q) in
              cc (sym (i.table_used d hd p) ∙ ap (λ y. elem y free) same ∙ hx) in
            rw (ne→== _ _ apart) refl)
          i.chain)
        pde_kept

  pub written-entry :
      (va : ℕ)
      → entry written pgdir va ≡ (if (d == pdx va) && (t == ptx va) then v else entry k pgdir va)
  unfolding entry
  written-entry va =
      let e = pdx va in
      let he : e < 1024 = omega arith in
      ap (λ w. entry_at written.word w (ptx va)) (pde_kept e he)
      ∙ elim (Bool-cases (has_table k pgdir e)) [
        | inr q ↦
            let other : (d == e) ≡ false =
              ne→== _ _ (λ f. cc (sym p ∙ ap (has_table k pgdir) f ∙ q)) in
            rw (q, other) refl
        | inl q ↦ elim (Bool-cases (d == e)) [
          | inl f ↦
              let same : d ≡ e = ground (arith, f) in
              let at : table k pgdir e ≡ table k pgdir d = ap (table k pgdir) (sym same) in
              rw (q, f)
                (ap (λ x. if spot == x + 4 * ptx va then v else k.word (x + 4 * ptx va)) at
                  ∙ ground (arith, ap (λ x. k.word (x + 4 * ptx va)) at))
          | inr f ↦
              let apart : spot ≢ table k pgdir e + 4 * ptx va =
                λ g. absurd (ground (arith, f, i.distinct d e hd he p q (omega (arith, g, ht)))) in
              rw (q, f, ne→== _ _ apart) refl
        ]
      ]
