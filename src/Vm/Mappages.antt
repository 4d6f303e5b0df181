-- ===== src/Vm/Mappages.antt =====
-- What a call of `mappages` of vm.c does to an address space.
use chameleon_os.Base.{
  ℕ, suc, ◌+◌, ◌-◌, ◌*◌, ◌/◌, ◌^◌, ◌≤◌, ◌<◌, ◌≡◌, refl, subst, inl, inr, Bool, true, ◌&&◌, List,
  arith, leb, if◌then◌else◌, Bool-cases,
}
use chameleon_os.Base.Machine.{ok, uint_add, uint_sub}
use chameleon_os.Kalloc.{Kmem, page_size}
use chameleon_os.Vm.{page_down, mappages}
use chameleon_os.Vm.Tree.{entry, IsTree}
use chameleon_os.Vm.Map.{new_entry, Mapped, map_from-Mapped}

-- Address `x` is on a page of the `size` bytes from `va` on.
abbrev pub on_pages : ℕ → ℕ → ℕ → Bool
on_pages va size x =
    leb (va / page_size) (x / page_size) && leb (x / page_size) ((va + size - 1) / page_size)

pub mappages-Mapped :
    (k k' : Kmem) (pgdir va size pa perm : ℕ) (all : Bool) (free : List ℕ)
    → IsTree k pgdir free
    → 0 < size
    → va + size ≤ 2 ^ 32
    → pa < 2 ^ 32
    → mappages k pgdir va size pa perm ≡ ok (k', all)
    → (free' : List ℕ) × Mapped k k' pgdir
        (page_down va)
        (page_down (va + size - 1) + page_size)
        pa
        perm
        all
        free'
unfolding mappages
mappages-Mapped k k' pgdir va size pa perm all free i hs fit hp e =
    let a = page_down va in
    let n = uint_sub (page_down (uint_sub (uint_add va size) 1)) a / page_size in
    let z : a + suc n * page_size ≡ page_down (va + size - 1) + page_size =
      omega (arith, hs, fit) in
    let (free', m) =
      map_from-Mapped k k' pgdir a pa perm (suc n) all free i (omega arith) (omega (arith, z, fit))
        hp e in
    (free', subst (λ y. Mapped k k' pgdir a y pa perm all free') z m)

-- `mappages` of a range that does not wrap around, in a directory whose page tables and free pages do
-- not overlap: if it returns 0, each address on a page of the range has the physical address that lies
-- as far from `pa`, with the permissions and PTE_P, every other address has the entry that it had, and
-- directory, page tables and free pages again do not overlap.
pub mappages_lem :
    (k k' : Kmem) (pgdir va size pa perm x : ℕ) (free : List ℕ)
    → IsTree k pgdir free
    → 0 < size
    → va + size ≤ 2 ^ 32
    → pa < 2 ^ 32
    → x < 2 ^ 32
    → mappages k pgdir va size pa perm ≡ ok (k', true)
    → (free' : List ℕ) × IsTree k' pgdir free'
      × (entry k' pgdir x
          ≡ (if on_pages va size x then new_entry (page_down va) pa perm x else entry k pgdir x))
mappages_lem k k' pgdir va size pa perm x free i hs fit hp hx e =
    let (free', m) = mappages-Mapped k k' pgdir va size pa perm true free i hs fit hp e in
    (
      free',
      m.tree,
      elim (Bool-cases (on_pages va size x)) [
        | inl q ↦ rw q (m.inside x hx refl (ground (arith, q)) (ground (arith, q, hs)))
        | inr q ↦ rw q (
            m.outside x hx (elim (Bool-cases (leb (va / page_size) (x / page_size))) [
              | inl lo ↦ inr (ground (arith, q, lo, hs))
              | inr lo ↦ inl (ground (arith, lo))
            ]))
      ],
    )
