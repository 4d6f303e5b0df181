-- ===== src/Kalloc.antt =====
-- kalloc.c: the free list of pages, threaded through the pages themselves.
-- Memory is a map from addresses to the 32-bit words there. `kmem.lock` makes each call one step.
pub mod FreeList
pub mod Range
mod Examples
use chameleon_os.Base.{
  ℕ, zero, suc, true, false, ◌-◌, ◌/◌, ◌+◌, ◌%◌, ◌*◌, ◌^◌, Bool, not, ◌&&◌, ◌||◌, ◌==◌, leb, ltb,
  if◌then◌else◌, update,
}
use chameleon_os.Base.Machine.{Run, ok, panic, ◌>>=◌, uint_add, uint_sub}

abbrev pub page_size : ℕ
page_size = 4096

abbrev pub kernbase : ℕ
kernbase = 2 ^ 31

abbrev pub phystop : ℕ
phystop = 234881024

pub record Kmem : Type 0 where
  pub word : ℕ → ℕ
  pub freelist : ℕ
  -- `end`, the address behind the kernel, which the linker sets
  pub kernel_end : ℕ

-- `memset(v, 1, PGSIZE)`, word by word.
abbrev pub junk : (ℕ → ℕ) → ℕ → ℕ → ℕ
junk word v x = if leb v x && ltb x (v + page_size) then 16843009 else word x

pub kfree : Kmem → ℕ → Run Kmem
kfree k v =
    if not (v % page_size == 0) || (ltb v k.kernel_end || leb phystop (uint_sub v kernbase))
    then panic
    else ok (record k { word = update (junk k.word v) v k.freelist; freelist = v })

-- The page, or 0.
unfoldable pub kalloc : Kmem → Kmem × ℕ
kalloc k =
    if k.freelist == 0 then (k, 0) else (record k { freelist = k.word k.freelist }, k.freelist)

abbrev pub page_up : ℕ → ℕ
page_up a = uint_add a (page_size - 1) / page_size * page_size

-- The loop of `freerange` from page `p` on; each round passes a page.
pub free_pages : Kmem → ℕ → ℕ → ℕ → Run Kmem
free_pages k p vend zero = ok k
free_pages k p vend (suc n) = elim (leb (uint_add p page_size) vend) [
  | false ↦ ok k
  | true ↦ do k1 ← kfree k p; free_pages k1 (uint_add p page_size) vend n
]

-- `kinit1` and `kinit2` call it for the pages below and above 4 MB; the rest of them is about the lock.
pub freerange : Kmem → ℕ → ℕ → Run Kmem
freerange k vstart vend = free_pages k (page_up vstart) vend (suc (vend / page_size))
