-- ===== src/Vm/Examples.antt =====
-- A page mapped in an empty directory of vm.c.
use Prim.Native.Nat.{bit_or}
use chameleon_os.Base.{
  ℕ, ◌+◌, ◌≡◌, refl, true, ◌&&◌, ltb, leb, List, [], ◌∷◌, arith, ◌==◌, if◌then◌else◌,
}
use chameleon_os.Base.Machine.{ok}
use chameleon_os.Kalloc.{page_up, Kmem, kalloc}
use chameleon_os.Vm.{
  is_present, is_user, set_word, clear_page, add_table, walkpgdir, map_from, mappages, alloc_from,
  allocuvm,
}
use chameleon_os.Vm.Tree.{entry, IsTree}
use chameleon_os.Vm.Map.{new_entry}
use chameleon_os.Vm.Mappages.{on_pages, mappages_lem}
use chameleon_os.Vm.Grow.{allocuvm_lem}

-- The directory, and the only free page.
abbrev dir : ℕ
dir = 2151682048

abbrev page : ℕ
page = 2151677952

abbrev memory : Kmem
memory = record { word = λ x. 0; freelist = page; kernel_end = 2149580800 }

memory-IsTree : IsTree memory dir (page ∷ [])
memory-IsTree = record {
  chain = (refl, omega arith, refl, refl);
  small = (omega arith, tt);
  unique = (refl, tt);
  aligned = refl;
  dir_used = refl;
  table_used = λ d hd h. cc;
  table_apart = λ d hd h. cc;
  table_nonzero = λ d hd h. cc;
  distinct = λ d e hd he h h' q. cc;
}

-- The page becomes the table for the address 8192, which goes to 0x300000.
abbrev after : Kmem
after =
    set_word (add_table (record memory { freelist = 0 }) dir page) (page + 8)
      (bit_or (bit_or 3145728 6) 1)

maps : mappages memory dir 8192 4096 3145728 6 ≡ ok (after, true)
unfolding mappages map_from walkpgdir kalloc
maps = refl

mappages_lem_example :
    (free' : List ℕ) × IsTree after dir free'
    × (entry after dir 9000 ≡ (
        if on_pages 8192 4096 9000 then new_entry 8192 3145728 6 9000 else entry memory dir 9000))
mappages_lem_example =
    mappages_lem memory after dir 8192 4096 3145728 6 9000 (page ∷ []) memory-IsTree (omega arith)
      (omega arith) (omega arith) (omega arith) maps

-- Two free pages: a page of the user, and its page table.
abbrev second : ℕ
second = 2151673856

abbrev memory2 : Kmem
memory2 = record memory { word = λ x. if x == page then second else 0 }

memory2-IsTree : IsTree memory2 dir (page ∷ second ∷ [])
memory2-IsTree = record {
  chain = (refl, omega arith, refl, (refl, omega arith, refl, refl));
  small = (omega arith, (omega arith, tt));
  unique = (refl, (refl, tt));
  aligned = refl;
  dir_used = refl;
  table_used = λ d hd h. absurd (ground (arith, h));
  table_apart = λ d hd h. absurd (ground (arith, h));
  table_nonzero = λ d hd h. absurd (ground (arith, h));
  distinct = λ d e hd he h h' q. absurd (ground (arith, h));
}

abbrev grown : Kmem
grown =
    set_word
      (add_table (record (clear_page (record memory2 { freelist = second }) page) { freelist = 0 })
        dir second)
      second (bit_or (bit_or 4194304 6) 1)

grows : allocuvm memory2 dir 0 4096 ≡ ok (grown, 4096)
unfolding allocuvm alloc_from mappages map_from walkpgdir kalloc
grows = refl

allocuvm_lem_example :
    (free' : List ℕ) × IsTree grown dir free'
    × (if leb (page_up 0) 100 && ltb 100 (page_up 4096)
        then (is_present (entry grown dir 100) ≡ true) × (is_user (entry grown dir 100) ≡ true)
        else entry grown dir 100 ≡ entry memory2 dir 100)
allocuvm_lem_example =
    allocuvm_lem memory2 grown dir 0 4096 100 (page ∷ second ∷ []) memory2-IsTree (omega arith)
      (omega arith) (omega arith) grows
