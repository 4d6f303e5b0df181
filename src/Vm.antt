-- ===== src/Vm.antt =====
-- vm.c: page tables of two levels, in the memory of Kalloc. A page directory is the address of its
-- page, a null pointer is 0, and an entry is a word.
pub mod Tree
pub mod Fresh
pub mod Map
pub mod Mappages
pub mod Grow
mod Examples
use Prim.Native.Nat.{bit_or}
use chameleon_os.Base.{
  ℕ, zero, suc, ◌+◌, ◌-◌, ◌*◌, ◌/◌, ◌%◌, ◌^◌, Bool, true, false, not, ◌&&◌, ◌||◌, Option, none,
  some, List, [], ◌∷◌, ◌==◌, ltb, leb, min, if◌then◌else◌, update, take, drop, length,
}
use chameleon_os.Base.Machine.{Run, ok, panic, ◌>>=◌, uint_add, uint_sub}
use chameleon_os.Kalloc.{Kmem, kfree, kalloc, page_size, page_up, kernbase, phystop}

-- `PDX`, `PTX`, `PTE_ADDR`, `PTE_FLAGS` and `PGROUNDDOWN`.
abbrev pub pdx : ℕ → ℕ
pdx va = va / 2 ^ 22 % 1024

abbrev pub ptx : ℕ → ℕ
ptx va = va / 2 ^ 12 % 1024

abbrev pub pte_addr : ℕ → ℕ
pte_addr e = e / page_size * page_size

abbrev pub pte_flags : ℕ → ℕ
pte_flags e = e % page_size

abbrev pub page_down : ℕ → ℕ
page_down a = a / page_size * page_size

abbrev pub pte_p : ℕ
pte_p = 1

abbrev pub pte_w : ℕ
pte_w = 2

abbrev pub pte_u : ℕ
pte_u = 4

-- `e & PTE_P` and `e & PTE_U`
abbrev pub is_present : ℕ → Bool
is_present e = e % 2 == 1

abbrev pub is_user : ℕ → Bool
is_user e = e / 4 % 2 == 1

abbrev pub v2p : ℕ → ℕ
v2p a = uint_sub a kernbase

abbrev pub p2v : ℕ → ℕ
p2v a = uint_add a kernbase

-- `memset(v, 0, PGSIZE)`
abbrev pub zero_page : (ℕ → ℕ) → ℕ → ℕ → ℕ
zero_page word v x = if leb v x && ltb x (v + page_size) then 0 else word x

abbrev pub set_word : Kmem → ℕ → ℕ → Kmem
set_word k a v = record k { word = update k.word a v }

abbrev pub clear_page : Kmem → ℕ → Kmem
clear_page k v = record k { word = zero_page k.word v }

-- A new page table, at page `p`.
abbrev pub add_table : Kmem → ℕ → ℕ → Kmem
add_table k pde p =
    set_word (clear_page k p) pde (bit_or (bit_or (bit_or (v2p p) pte_p) pte_w) pte_u)

-- The address of the entry, or 0.
pub walkpgdir : Kmem → ℕ → ℕ → Bool → Kmem × ℕ
walkpgdir k pgdir va alloc =
    let pde = pgdir + 4 * pdx va in
    let (k1, p) = kalloc k in
    if is_present (k.word pde)
    then (k, p2v (pte_addr (k.word pde)) + 4 * ptx va)
    else if not alloc
    then (k, 0)
    else if p == 0
    then (k1, 0)
    else (add_table k1 pde p, p + 4 * ptx va)

-- The loop of `mappages` from page `a` on, with `n` pages left. The flag says that it returns 0.
pub map_from : Kmem → ℕ → ℕ → ℕ → ℕ → ℕ → Run (Kmem × Bool)
map_from k pgdir a pa perm zero = ok (k, true)
map_from k pgdir a pa perm (suc n) =
    let (k1, pte) = walkpgdir k pgdir a true in
    let k2 = set_word k1 pte (bit_or (bit_or pa perm) pte_p) in
    let rest = map_from k2 pgdir (uint_add a page_size) (uint_add pa page_size) perm n in
    if pte == 0 then ok (k1, false) else if is_present (k1.word pte) then panic else rest

-- The loop ends at the page of the last byte.
pub mappages : Kmem → ℕ → ℕ → ℕ → ℕ → ℕ → Run (Kmem × Bool)
mappages k pgdir va size pa perm =
    let a = page_down va in
    let last = page_down (uint_sub (uint_add va size) 1) in
    map_from k pgdir a pa perm (suc (uint_sub last a / page_size))

-- The loop of `deallocuvm` from `a` on; a page table that is not there is passed over.
pub dealloc_from : Kmem → ℕ → ℕ → ℕ → ℕ → Run Kmem
dealloc_from k pgdir a oldsz zero = ok k
dealloc_from k pgdir a oldsz (suc n) =
    let pte = (walkpgdir k pgdir a false).1 in
    let e = k.word pte in
    elim (ltb a oldsz) [
      | false ↦ ok k
      | true ↦ elim (pte == 0) [
        | true ↦
            dealloc_from k pgdir
              (uint_add (uint_sub ((pdx a + 1) * 2 ^ 22 % 2 ^ 32) page_size) page_size) oldsz n
        | false ↦ do
          k1 ←
              if not (is_present e)
              then ok k
              else if pte_addr e == 0
              then panic
              else (do k' ← kfree k (p2v (pte_addr e)); ok (set_word k' pte 0))
          dealloc_from k1 pgdir (uint_add a page_size) oldsz n
      ]
    ]

-- The result is the new size.
pub deallocuvm : Kmem → ℕ → ℕ → ℕ → Run (Kmem × ℕ)
deallocuvm k pgdir oldsz newsz = if leb oldsz newsz then ok (k, oldsz) else (do
  k' ← dealloc_from k pgdir (page_up newsz) oldsz (suc (oldsz / page_size))
  ok (k', newsz))

-- The loop of `allocuvm` from `a` on; the flag says that no memory was left.
pub alloc_from : Kmem → ℕ → ℕ → ℕ → ℕ → ℕ → Run (Kmem × Bool)
alloc_from k pgdir a oldsz newsz zero = ok (k, true)
alloc_from k pgdir a oldsz newsz (suc n) = elim (ltb a newsz) [
  | false ↦ ok (k, true)
  | true ↦ elim ((kalloc k).1 == 0) [
    | true ↦ do (k1, s) ← deallocuvm (kalloc k).0 pgdir newsz oldsz; ok (k1, false)
    | false ↦ do
      let mem = (kalloc k).1
      (k1, mapped) ←
          mappages (clear_page (kalloc k).0 mem) pgdir a page_size (v2p mem) (bit_or pte_w pte_u)
      elim mapped [
        | true ↦ alloc_from k1 pgdir (uint_add a page_size) oldsz newsz n
        | false ↦ do (k2, s) ← deallocuvm k1 pgdir newsz oldsz; k3 ← kfree k2 mem; ok (k3, false)
      ]
  ]
]

-- The result is the new size, or 0.
pub allocuvm : Kmem → ℕ → ℕ → ℕ → Run (Kmem × ℕ)
allocuvm k pgdir oldsz newsz =
    if leb kernbase newsz then ok (k, 0) else if ltb newsz oldsz then ok (k, oldsz) else (do
      (k', grown) ← alloc_from k pgdir (page_up oldsz) oldsz newsz (suc (newsz / page_size))
      ok (k', if grown then newsz else 0))

-- The loop of `freevm` over the entries of the directory, from `d` on with `n` left.
pub free_tables : Kmem → ℕ → ℕ → ℕ → Run Kmem
free_tables k pgdir d zero = ok k
free_tables k pgdir d (suc n) = do
  let e = k.word (pgdir + 4 * d)
  k1 ← if is_present e then kfree k (p2v (pte_addr e)) else ok k
  free_tables k1 pgdir (d + 1) n

pub freevm : Kmem → ℕ → Run Kmem
freevm k pgdir = if pgdir == 0 then panic else (do
  (k1, s) ← deallocuvm k pgdir kernbase 0
  k2 ← free_tables k1 pgdir 0 1024
  kfree k2 pgdir)

abbrev pub extmem : ℕ
extmem = 2 ^ 20

abbrev pub devspace : ℕ
devspace = 4261412864

pub record Kmap : Type 0 where
  pub virt : ℕ
  pub phys_start : ℕ
  pub phys_end : ℕ
  pub perm : ℕ

-- `data` is where the linker puts the kernel's data.
abbrev pub kmap : ℕ → List Kmap
kmap data_start =
    record { virt = kernbase; phys_start = 0; phys_end = extmem; perm = pte_w }
    ∷ record { virt = kernbase + extmem; phys_start = extmem; phys_end = v2p data_start; perm = 0 }
    ∷ record { virt = data_start; phys_start = v2p data_start; phys_end = phystop; perm = pte_w }
    ∷ record { virt = devspace; phys_start = devspace; phys_end = 0; perm = pte_w }
    ∷ []

-- The loop of `setupkvm`.
pub map_all : Kmem → ℕ → List Kmap → Run (Kmem × Bool)
map_all k pgdir [] = ok (k, true)
map_all k pgdir (m ∷ ms) = do
  (k1, mapped) ← mappages k pgdir m.virt (uint_sub m.phys_end m.phys_start) m.phys_start m.perm
  elim mapped [ true ↦ map_all k1 pgdir ms | false ↦ ok (k1, false) ]

-- The new directory, or 0. PHYSTOP is not too high.
pub setupkvm : Kmem → ℕ → Run (Kmem × ℕ)
setupkvm k data_start =
    let (k1, pgdir) = kalloc k in
    if pgdir == 0 then ok (k1, 0) else (do
      (k2, mapped) ← map_all (clear_page k1 pgdir) pgdir (kmap data_start)
      if mapped then ok (k2, pgdir) else (do k3 ← freevm k2 pgdir; ok (k3, 0)))

pub clearpteu : Kmem → ℕ → ℕ → Run Kmem
clearpteu k pgdir uva =
    let pte = (walkpgdir k pgdir uva false).1 in
    let e = k.word pte in
    if pte == 0 then panic else ok (set_word k pte (if is_user e then e - pte_u else e))

-- `memmove` of a page, word by word.
abbrev pub copy_page : Kmem → ℕ → ℕ → Kmem
copy_page k mem from = record k {
  word = λ x. if leb mem x && ltb x (mem + page_size) then k.word (from + (x - mem)) else k.word x;
}

-- The loop of `copyuvm` from `i` on; the flag is false at `bad`.
pub copy_from : Kmem → ℕ → ℕ → ℕ → ℕ → ℕ → Run (Kmem × Bool)
copy_from k pgdir d i sz zero = ok (k, true)
copy_from k pgdir d i sz (suc n) =
    let pte = (walkpgdir k pgdir i false).1 in
    let e = k.word pte in
    elim (ltb i sz) [
      | false ↦ ok (k, true)
      | true ↦
          if pte == 0
          then panic
          else if not (is_present e)
          then panic
          else elim ((kalloc k).1 == 0) [
            | true ↦ ok ((kalloc k).0, false)
            | false ↦ do
              let mem = (kalloc k).1
              (k1, mapped) ←
                  mappages (copy_page (kalloc k).0 mem (p2v (pte_addr e))) d i page_size (v2p mem)
                    (pte_flags e)
              elim mapped [
                | true ↦ copy_from k1 pgdir d (uint_add i page_size) sz n
                | false ↦ do k2 ← kfree k1 mem; ok (k2, false)
              ]
          ]
    ]

-- The copy, or 0.
pub copyuvm : Kmem → ℕ → ℕ → ℕ → Run (Kmem × ℕ)
copyuvm k data_start pgdir sz = do
  (k1, d) ← setupkvm k data_start
  elim (d == 0) [
    | true ↦ ok (k1, 0)
    | false ↦ do
      (k2, copied) ← copy_from k1 pgdir d 0 sz (suc (sz / page_size))
      elim copied [ true ↦ ok (k2, d) | false ↦ do k3 ← freevm k2 d; ok (k3, 0) ]
  ]

-- The kernel address, or 0. Without a page table the code reads the entry at address 0, which is
-- `k.word 0` here.
pub uva2ka : Kmem → ℕ → ℕ → ℕ
uva2ka k pgdir uva =
    let e = k.word (walkpgdir k pgdir uva false).1 in
    if not (is_present e) then 0 else if not (is_user e) then 0 else p2v (pte_addr e)
