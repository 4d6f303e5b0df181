-- ===== src/Kalloc/Examples.antt =====
-- Two pages behind the end of the kernel come to an empty free list.
use chameleon_os.Base.{◌-◌, ◌/◌, ◌≡◌, refl, [], arith}
use chameleon_os.Base.Machine.{ok}
use chameleon_os.Kalloc.{Kmem, page_size, page_up, freerange}
use chameleon_os.Kalloc.FreeList.{Chain}
use chameleon_os.Kalloc.Range.{pages_from, freerange_lem}

abbrev start : Kmem
start = record { word = λ x. 0; freelist = 0; kernel_end = 2149580800 }

freerange_lem_example :
    (k' : Kmem) × (freerange start 2149580801 2149593088 ≡ ok k')
    × Chain k'.word k'.freelist
        (pages_from (page_up 2149580801) ((2149593088 - page_up 2149580801) / page_size) [])
freerange_lem_example =
    freerange_lem start 2149580801 2149593088 [] (omega arith) (omega arith) (omega arith)
      (omega arith) (omega arith) (omega arith) tt refl
