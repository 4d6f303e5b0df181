-- ===== src/File/Examples.antt =====
-- A file that one descriptor holds.
use chameleon_os.Base.{◌≡◌, refl, false, [], ◌∷◌, ◌++◌, if◌then◌else◌, elem, update}
use chameleon_os.Base.Machine.{ok}
use chameleon_os.File.{
  File, Ftable, fd_none, find_free, filealloc, fileclose, Release, nothing, release_of,
}
use chameleon_os.File.Refs.{Sys, Reach, here, next, alloc, booted, alloc_fresh, close_last}

abbrev no_file : File
no_file = record {
  type = fd_none;
  ref = 0;
  readable = false;
  writable = false;
  pipe = 0;
  ip = 0;
  off = 0;
}

abbrev empty : Ftable
empty f = no_file

abbrev one : Sys
one = record { table = update empty 0 (record no_file { ref = 1 }); held = 0 ∷ [] }

one-Reach : Reach (booted empty) one
unfolding filealloc find_free
one-Reach = next here (alloc 0 one.table refl)

abbrev more : Ftable
more = update one.table 1 (record no_file { ref = 1 })

alloc_fresh_example : elem 1 one.held ≡ false
unfolding filealloc find_free
alloc_fresh_example = alloc_fresh empty 1 more (λ g. refl) one-Reach refl

close_last_example :
    (t' : Ftable) × (r : Release) × (fileclose one.table 0 ≡ ok (t', r))
    × (r ≡ (if elem 0 ([] ++ []) then nothing else release_of (one.table 0)))
close_last_example = close_last empty 0 [] [] (λ g. refl) one-Reach refl
