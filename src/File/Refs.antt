-- ===== src/File/Refs.antt =====
-- The reference counts of file.c against the descriptors that hold a file, in any sequence of
-- `filealloc`, `filedup` and `fileclose`.
use chameleon_os.Base.{
  update, some-injective, ap, subst, ℕ, zero, suc, ◌+◌, ◌-◌, ◌<◌, ◌≡◌, ◌≢◌, refl, inl, inr, true,
  false, some, List, [], ◌∷◌, ◌++◌, arith, ◌==◌, ltb, if◌then◌else◌, elem, Bool-cases, Option-cases,
  ◌∙◌,
}
use chameleon_os.Base.Machine.{ok, panic, ok-injective, Run-cases}
use chameleon_os.File.{
  fd_none, Ftable, nfile, find_free, filealloc, filedup, fileclose, Release, nothing, release_of,
}

-- The table, and the files that descriptors hold, once for each descriptor.
pub record Sys : Type 0 where
  pub table : Ftable
  pub held : List ℕ

pub data Step (y : Sys) : Sys → Type 0 where
  alloc :
      (f : ℕ) (t : Ftable)
      → filealloc y.table ≡ some (f, t)
      → Step y (record { table = t; held = f ∷ y.held })
  dup :
      (f : ℕ) (t : Ftable)
      → elem f y.held ≡ true
      → filedup y.table f ≡ ok t
      → Step y (record { table = t; held = f ∷ y.held })
  close :
      (f : ℕ) (xs ys : List ℕ) (t : Ftable) (r : Release)
      → y.held ≡ xs ++ f ∷ ys
      → fileclose y.table f ≡ ok (t, r)
      → Step y (record { table = t; held = xs ++ ys })

pub data Reach (y : Sys) : Sys → Type 0 where
  here : Reach y y
  next : {z w : Sys} → Reach y z → Step z w → Reach y w

abbrev pub count : ℕ → List ℕ → ℕ
count f [] = 0
count f (x ∷ xs) = (if x == f then 1 else 0) + count f xs

abbrev pub Counted : Sys → Type 0
Counted y = (f : ℕ) → (y.table f).ref ≡ count f y.held

count-remove :
    (g f : ℕ) (xs ys : List ℕ)
    → count g (xs ++ f ∷ ys) ≡ (if f == g then 1 else 0) + count g (xs ++ ys)
count-remove g f [] ys = refl
count-remove g f (x ∷ xs) ys = ground (arith, count-remove g f xs ys)

elem-count : (f : ℕ) (xs : List ℕ) → elem f xs ≡ ltb 0 (count f xs)
elem-count f [] = ground arith
elem-count f (x ∷ xs) = ground (arith, elem-count f xs)

find_free-some : (t : Ftable) (i n f : ℕ) → find_free t i n ≡ some f → (t f).ref ≡ 0
unfolding find_free
find_free-some t i zero f h = absurd (cc)
find_free-some t i (suc n) f h = elim (Bool-cases ((t i).ref == 0)) [
  | inl y ↦ ground (arith, y, rw y at h)
  | inr n' ↦ find_free-some t (i + 1) n f (rw n' at h)
]

-- What `filealloc` gives had no reference, and has one.
pub alloc_ref :
    (t t' : Ftable) (f : ℕ)
    → filealloc t ≡ some (f, t')
    → ((t f).ref ≡ 0) × ((g : ℕ) → (t' g).ref ≡ (if f == g then 1 else 0) + (t g).ref)
unfolding filealloc
alloc_ref t t' f h = elim (Option-cases (find_free t 0 nfile)) [
  | inl n ↦ absurd (cc (rw (filealloc, n) at h))
  | inr (i, e) ↦
      let z = find_free-some t 0 nfile i e in
      subst
        (λ (f', t1).
          ((t f').ref ≡ 0) × ((g : ℕ) → (t1 g).ref ≡ (if f' == g then 1 else 0) + (t g).ref))
        (some-injective (rw (filealloc, e) at h))
        (
          z,
          λ g. elim (Bool-cases (i == g)) [
            | inl q ↦ ground (arith, q, z)
            | inr q ↦ rw q (omega arith)
          ],
        )
]

dup_ref :
    (t t' : Ftable) (f : ℕ)
    → filedup t f ≡ ok t'
    → (g : ℕ) → (t' g).ref ≡ (if f == g then 1 else 0) + (t g).ref
unfolding filedup
dup_ref t t' f h = elim (Bool-cases (ltb (t f).ref 1)) [
  | inl n ↦ absurd (cc (rw (filedup, n) at h))
  | inr n ↦
      subst (λ t1. (g : ℕ) → (t1 g).ref ≡ (if f == g then 1 else 0) + (t g).ref)
        (ok-injective (rw (filedup, n) at h))
        (λ g. elim (Bool-cases (f == g)) [ inl q ↦ ground (arith, q) | inr q ↦ rw q (omega arith) ])
]

-- The last close of a file.
pub close_one :
    (t : Ftable) (f : ℕ)
    → (t f).ref ≡ 1
    → (t' : Ftable) × (fileclose t f ≡ ok (t', release_of (t f)))
unfolding fileclose
close_one t f h = (update t f (record (t f) { ref = 0; type = fd_none }), rw (fileclose, h) refl)

-- What `fileclose` does to a file with references.
pub close_ref :
    (t t' : Ftable) (f : ℕ) (r : Release)
    → fileclose t f ≡ ok (t', r)
    → ((g : ℕ) → (t g).ref ≡ (if f == g then 1 else 0) + (t' g).ref)
      × (r ≡ (if (t f).ref == 1 then release_of (t f) else nothing))
unfolding fileclose
close_ref t t' f r h = elim (Bool-cases (ltb (t f).ref 1)) [
  | inl n ↦ absurd (cc (rw (fileclose, n) at h))
  | inr n ↦ elim (Bool-cases (ltb 0 ((t f).ref - 1))) [
    | inl m ↦
        subst
          (λ (t1, r1).
            ((g : ℕ) → (t g).ref ≡ (if f == g then 1 else 0) + (t1 g).ref)
            × (r1 ≡ (if (t f).ref == 1 then release_of (t f) else nothing)))
          (ok-injective (rw (fileclose, n, m) at h))
          (
            (λ g. elim (Bool-cases (f == g)) [
              | inl q ↦ ground (arith, q, n, m)
              | inr q ↦ rw q (omega arith)
            ]),
            ground (arith, n, m),
          )
    | inr m ↦
        subst
          (λ (t1, r1).
            ((g : ℕ) → (t g).ref ≡ (if f == g then 1 else 0) + (t1 g).ref)
            × (r1 ≡ (if (t f).ref == 1 then release_of (t f) else nothing)))
          (ok-injective (rw (fileclose, n, m) at h))
          (
            (λ g. elim (Bool-cases (f == g)) [
              | inl q ↦ ground (arith, q, n, m)
              | inr q ↦ rw q (omega arith)
            ]),
            ground (arith, n, m),
          )
  ]
]

close_safe : (t : Ftable) (f : ℕ) → 0 < (t f).ref → fileclose t f ≢ panic
unfolding fileclose
close_safe t f h = ground arith

one_left :
    (r : Release) (f : ℕ) (xs : List ℕ) (n : ℕ)
    → n ≡ 1 + count f xs
    → (if n == 1 then r else nothing) ≡ (if elem f xs then nothing else r)
one_left r f xs n h = rw (elem-count f xs) (ground (arith, h))

Step-Counted : {y z : Sys} → Step y z → Counted y → Counted z
Step-Counted {y} (alloc f t e) c g =
    (alloc_ref y.table t f e).1 g ∙ ap (λ n. (if f == g then 1 else 0) + n) (c g)
Step-Counted {y} (dup f t m e) c g =
    dup_ref y.table t f e g ∙ ap (λ n. (if f == g then 1 else 0) + n) (c g)
Step-Counted {y} (close f xs ys t r m e) c g =
    let a = (close_ref y.table t f r e).0 g in
    let b = c g ∙ ap (count g) m ∙ count-remove g f xs ys in omega (arith, a, b)

abbrev pub booted : Ftable → Sys
booted t = record { table = t; held = [] }

Reach-Counted : (t : Ftable) {y : Sys} → ((f : ℕ) → (t f).ref ≡ 0) → Reach (booted t) y → Counted y
Reach-Counted t z here = z
Reach-Counted t z (next r st) = Step-Counted st (Reach-Counted t z r)

-- From a table without references, after any sequence of allocations, duplications and closes of the
-- files that descriptors hold: `filealloc` gives a file that no descriptor holds.
pub alloc_fresh :
    (t : Ftable) {y : Sys} (f : ℕ) (t' : Ftable)
    → ((g : ℕ) → (t g).ref ≡ 0)
    → Reach (booted t) y
    → filealloc y.table ≡ some (f, t')
    → elem f y.held ≡ false
alloc_fresh t {y} f t' z r e =
    let c = Reach-Counted t z r f in
    let a = (alloc_ref y.table t' f e).0 in elem-count f y.held ∙ ground (arith, c, a)

-- From a table without references, after any sequence of allocations, duplications and closes of the
-- files that descriptors hold: closing a file that a descriptor holds does not panic, and it releases
-- the pipe end or the inode of the file exactly if no other descriptor holds it.
pub close_last :
    (t : Ftable) {y : Sys} (f : ℕ) (xs ys : List ℕ)
    → ((g : ℕ) → (t g).ref ≡ 0)
    → Reach (booted t) y
    → y.held ≡ xs ++ f ∷ ys
    → (t' : Ftable) × (r : Release) × (fileclose y.table f ≡ ok (t', r))
      × (r ≡ (if elem f (xs ++ ys) then nothing else release_of (y.table f)))
close_last t {y} f xs ys z r m =
    let c : (y.table f).ref ≡ 1 + count f (xs ++ ys) =
      Reach-Counted t z r f ∙ ap (count f) m ∙ count-remove f f xs ys ∙ ground arith in
    elim (Run-cases (fileclose y.table f)) [
      | inl p ↦ absurd (close_safe y.table f (omega (arith, c)) p)
      | inr ((t', r'), p) ↦ (
        t',
        r',
        p,
        (close_ref y.table t' f r' p).1
            ∙ one_left (release_of (y.table f)) f (xs ++ ys) (y.table f).ref c,
      )
    ]
