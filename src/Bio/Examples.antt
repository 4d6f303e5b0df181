-- ===== src/Bio/Examples.antt =====
-- The buffer cache of bio.c with one buffer, and with all of them free after `binit`.
use chameleon_os.Base.{
  ℕ, ◌<◌, ◌≡◌, ltb, length, if◌then◌else◌, refl, true, false, none, some, [], ◌∷◌, arith, elem,
}
use chameleon_os.Base.Machine.{ok}
use chameleon_os.Store.{Block, Store}
use chameleon_os.Store
use chameleon_os.Bio.{Buf, Cache, Got, got, nbuf, binit, link_all, bread, bwrite}
use chameleon_os.Bio.Refine.{IsOk, abs}
use chameleon_os.Bio.Init.{IsZero, binit-IsOk, binit_lem}
use chameleon_os.Bio.Read.{Outcome}
use chameleon_os.Bio.Total.{bread_lem}
use chameleon_os.Bio.Write.{edit, bwrite_lem}

abbrev zeros : Block
zeros = λ i. 0

abbrev no_buf : Buf
no_buf = record {
  valid = false;
  dirty = false;
  dev = 0;
  blockno = 0;
  holder = none;
  refcnt = 0;
  content = zeros;
}

abbrev machine : Cache
machine = record {
  buf = λ b. record no_buf { holder = some 9 };
  order = [];
  disk = λ b. zeros;
  disksize = 1000;
  power = 9;
}

abbrev booted : Cache
booted = binit machine

machine-IsZero : IsZero machine
machine-IsZero = record { no_dev = λ a. refl; clean = λ a. refl; unused = λ a. refl }

binit_lem_example :
    (elem 4 booted.order ≡ ltb 4 nbuf)
    × (length booted.order ≡ nbuf)
    × ((booted.buf 4).holder ≡ (if ltb 4 nbuf then none else (machine.buf 4).holder))
    × IsOk booted
    × (c' : Cache) × (b : ℕ) × (bread booted 7 1 5 ≡ ok (got c' b))
    × (b < nbuf)
    × ((c'.buf b).holder ≡ some 7)
    × ((c'.buf b).content ≡ machine.disk 5)
binit_lem_example = binit_lem machine 7 5 4 machine-IsZero refl

booted-IsOk : IsOk booted
booted-IsOk = binit-IsOk machine machine-IsZero

bread_lem_example : (g : Got) × (bread booted 7 1 5 ≡ ok g) × Outcome booted 7 5 g
unfolding binit link_all
bread_lem_example = bread_lem booted 7 5 0 booted-IsOk refl refl refl

-- Process 7 holds the only buffer, of block 5.
abbrev held : Cache
held = record {
  buf = λ b. record no_buf { valid = true; dev = 1; blockno = 5; holder = some 7; refcnt = 1 };
  order = 0 ∷ [];
  disk = λ b. zeros;
  disksize = 1000;
  power = 9;
}

held-IsOk : IsOk held
held-IsOk = record {
  unique = λ x a b e e' f f'. ground (arith, e, e');
  clean = λ x b e f v d h. refl;
  read_first = λ b e d. refl;
}

abbrev ones : Block
ones = λ i. 1

bwrite_lem_example :
    (c' : Cache) × (bwrite (edit held 0 ones) 7 0 ≡ ok c')
    × IsOk c'
    × (abs c' ≡ Store.bwrite (abs held) 5 ones)
bwrite_lem_example = bwrite_lem held 7 5 0 ones held-IsOk refl refl refl refl
