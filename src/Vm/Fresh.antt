-- ===== src/Vm/Fresh.antt =====
-- Pages that vm.c takes from the free list and makes page tables of.
use chameleon_os.Base.{
  ℕ, ◌+◌, ◌*◌, ◌/◌, ◌%◌, ◌^◌, ◌<◌, ◌≡◌, ◌≢◌, refl, sym, ◌∙◌, ap, subst, inl, inr, true, false, ◌&&◌,
  List, ◌∷◌, arith, ◌==◌, ltb, leb, Bool-cases, ==_refl, ne→==, elem,
}
use chameleon_os.Base.Or.{bit_or-flags}
use chameleon_os.Kalloc.{Kmem, page_size}
use chameleon_os.Kalloc.FreeList.{Chain}
use chameleon_os.Vm.{pdx, ptx, pte_addr, is_present, p2v, v2p, clear_page, add_table}
use chameleon_os.Vm.Tree.{
  pde_of, table, has_table, entry_at, entry, IsTree, Chain-agree, IsTree-agree,
}

-- Page `x` is none of the free pages, and neither the directory nor a page table.
pub record IsFresh (k : Kmem) (pgdir : ℕ) (free : List ℕ) (x : ℕ) : Type 0 where
  pub page : x % page_size ≡ 0
  pub small : x < 2 ^ 32
  pub nonzero : x ≢ 0
  pub new : elem x free ≡ false
  pub not_dir : x ≢ pgdir
  pub no_table : (d : ℕ) → d < 1024 → has_table k pgdir d ≡ true → table k pgdir d ≢ x

-- The first page is taken off the list.
pub taken-IsFresh :
    (k : Kmem) (pgdir head x : ℕ) (xs : List ℕ)
    → IsTree k pgdir (x ∷ xs)
    → Chain k.word head xs
    → IsTree (record k { freelist = head }) pgdir xs
      × IsFresh (record k { freelist = head }) pgdir xs x
taken-IsFresh k pgdir head x xs i c =
    let (e, z, m, c') = i.chain in
    let rest : (y : ℕ) → elem y (x ∷ xs) ≡ false → elem y xs ≡ false = λ y h. ground (arith, h) in
    (
      record {
        chain = c;
        small = i.small.1;
        unique = i.unique.1;
        aligned = i.aligned;
        dir_used = rest pgdir i.dir_used;
        table_used = λ d hd p. rest _ (i.table_used d hd p);
        table_apart = i.table_apart;
        table_nonzero = i.table_nonzero;
        distinct = i.distinct;
      },
      record {
        page = m;
        small = i.small.0;
        nonzero = z;
        new = i.unique.0;
        not_dir = λ q. ground (arith, i.dir_used, q);
        no_table = λ d hd p q. ground (arith, i.table_used d hd p, q);
      },
    )

module _ (k : Kmem) (pgdir x : ℕ) (free : List ℕ) (i : IsTree k pgdir free)
    (f : IsFresh k pgdir free x) where
  -- Words of other pages stay when the page is changed.
  outside : (y : ℕ) → y / page_size * page_size ≢ x → (leb x y && ltb y (x + page_size)) ≡ false
  outside y h = ground (arith, f.page, h)

  abbrev pub cleared : Kmem
  cleared = clear_page k x

  pde_clear : (e : ℕ) → e < 1024 → pde_of cleared pgdir e ≡ pde_of k pgdir e
  pde_clear e he = rw (outside (pgdir + 4 * e) (λ q. f.not_dir (omega (arith, q, i.aligned)))) refl

  pub cleared-IsTree : IsTree cleared pgdir free
  cleared-IsTree =
      IsTree-agree k cleared pgdir free i
        (Chain-agree k.word cleared.word k.freelist free
          (λ y hy m.
            rw
              (outside y (λ q.
                let same : y ≡ x = omega (arith, q, m) in
                cc (sym f.new ∙ ap (λ z. elem z free) (sym same) ∙ hy)))
              refl)
          i.chain)
        pde_clear

  pub cleared-entry : (va : ℕ) → entry cleared pgdir va ≡ entry k pgdir va
  unfolding entry
  cleared-entry va =
      let e = pdx va in
      let he : e < 1024 = omega arith in
      ap (λ w. entry_at cleared.word w (ptx va)) (pde_clear e he)
      ∙ elim (Bool-cases (has_table k pgdir e)) [
        | inr q ↦ rw q refl
        | inl q ↦
            rw
              (
                q,
                outside (table k pgdir e + 4 * ptx va) (λ g. f.no_table e he q (omega (arith, g))),
              )
              refl
      ]

  module _ (d : ℕ) (hd : d < 1024) (absent : has_table k pgdir d ≡ false) where
    abbrev pub added : Kmem
    added = add_table k (pgdir + 4 * d) x

    abbrev flags : ℕ
    flags = v2p x + 7

    pde_new : pde_of added pgdir d ≡ flags
    pde_new = rw (==_refl (pgdir + 4 * d)) (bit_or-flags (v2p x) (omega (arith, f.page)))

    pub table_new : table added pgdir d ≡ x
    table_new = ap (λ w. p2v (pte_addr w)) pde_new ∙ omega (arith, f.page, f.small)

    pub has_new : has_table added pgdir d ≡ true
    has_new = ap is_present pde_new ∙ ground (arith, f.page)

    pde_old : (e : ℕ) → e < 1024 → (d == e) ≡ false → pde_of added pgdir e ≡ pde_of k pgdir e
    pde_old e he q =
        let apart : pgdir + 4 * d ≢ pgdir + 4 * e = λ g. ground (arith, q, g) in
        rw (ne→== _ _ apart) (pde_clear e he)

    table_old : (e : ℕ) → e < 1024 → (d == e) ≡ false → table added pgdir e ≡ table k pgdir e
    table_old e he q = ap (λ w. p2v (pte_addr w)) (pde_old e he q)

    had :
        (e : ℕ)
        → e < 1024
        → (d == e) ≡ false
        → has_table added pgdir e ≡ true
        → has_table k pgdir e ≡ true
    had e he q h = sym (ap is_present (pde_old e he q)) ∙ h

    table_at : (e : ℕ) → (d == e) ≡ true → table added pgdir e ≡ x
    table_at e q =
        let same : d ≡ e = ground (arith, q) in ap (table added pgdir) (sym same) ∙ table_new

    -- What the new table and the old ones have in common.
    every_table :
        (P : ℕ → Type 0)
        → P x
        → ((e : ℕ) → e < 1024 → has_table k pgdir e ≡ true → P (table k pgdir e))
        → (e : ℕ) → e < 1024
        → has_table added pgdir e ≡ true
        → P (table added pgdir e)
    every_table P new old e he h = elim (Bool-cases (d == e)) [
      | inl q ↦ subst P (sym (table_at e q)) new
      | inr q ↦ subst P (sym (table_old e he q)) (old e he (had e he q h))
    ]

    distinct_after :
        (a b : ℕ)
        → a < 1024
        → b < 1024
        → has_table added pgdir a ≡ true
        → has_table added pgdir b ≡ true
        → table added pgdir a ≡ table added pgdir b
        → a ≡ b
    distinct_after a b ha hb p q e = elim (Bool-cases (d == a)) [
      | inl u ↦ elim (Bool-cases (d == b)) [
        | inl v ↦ ground (arith, u, v)
        | inr v ↦
            absurd (f.no_table b hb (had b hb v q) (sym (table_old b hb v) ∙ sym e ∙ table_at a u))
      ]
      | inr u ↦ elim (Bool-cases (d == b)) [
        | inl v ↦
            absurd (f.no_table a ha (had a ha u p) (sym (table_old a ha u) ∙ e ∙ table_at b v))
        | inr v ↦
            i.distinct a b ha hb (had a ha u p) (had b hb v q)
              (sym (table_old a ha u) ∙ e ∙ table_old b hb v)
      ]
    ]

    pub added-IsTree : IsTree added pgdir free
    added-IsTree = record {
      chain =
          Chain-agree cleared.word added.word k.freelist free
            (λ y hy m.
              let apart : pgdir + 4 * d ≢ y = λ q.
                let same : pgdir ≡ y = omega (arith, q, m, i.aligned, hd) in
                cc (sym i.dir_used ∙ ap (λ z. elem z free) same ∙ hy) in
              rw (ne→== _ _ apart) refl)
            cleared-IsTree.chain;
      small = i.small;
      unique = i.unique;
      aligned = i.aligned;
      dir_used = i.dir_used;
      table_used = every_table (λ t. elem t free ≡ false) f.new i.table_used;
      table_apart = every_table (λ t. t ≢ pgdir) f.not_dir i.table_apart;
      table_nonzero = every_table (λ t. t ≢ 0) f.nonzero i.table_nonzero;
      distinct = distinct_after;
    }

    -- The entries of the new table are not present, as before.
    pub added-entry : (va : ℕ) → entry added pgdir va ≡ entry k pgdir va
    unfolding entry
    added-entry va =
        let e = pdx va in
        let he : e < 1024 = omega arith in
        let dir_apart : (a : ℕ) → a / page_size * page_size ≢ pgdir → (pgdir + 4 * d == a) ≡ false =
          λ a n. ne→== _ _ (λ g. n (omega (arith, g, i.aligned, hd))) in
        elim (Bool-cases (d == e)) [
          | inl q ↦
              let same : d ≡ e = ground (arith, q) in
              let inside : (leb x (x + 4 * ptx va) && ltb (x + 4 * ptx va) (x + page_size)) ≡ true =
                ground arith in
              let at = dir_apart (x + 4 * ptx va) (λ g. f.not_dir (omega (arith, g, f.page))) in
              ap (λ w. entry_at added.word w (ptx va)) (ap (pde_of added pgdir) (sym same))
              ∙ rw (has_new, table_new, at, inside)
                  (sym (rw (ap (has_table k pgdir) (sym same) ∙ absent) refl))
          | inr q ↦
              ap (λ w. entry_at added.word w (ptx va)) (pde_old e he q)
              ∙ elim (Bool-cases (has_table k pgdir e)) [
                | inr h ↦ rw h refl
                | inl h ↦
                    let a = table k pgdir e + 4 * ptx va in
                    rw
                      (
                        h,
                        dir_apart a (λ g. i.table_apart e he h (omega (arith, g))),
                        outside a (λ g. f.no_table e he h (omega (arith, g))),
                      )
                      refl
              ]
        ]
