-- ===== src/Pipe/Alloc/Refs.antt =====
-- `pipealloc` of pipe.c and the reference counts of files.
use chameleon_os.Base.{
  ℕ, ◌+◌, ◌≡◌, ◌≢◌, refl, sym, ◌∙◌, ap, inl, inr, false, Option, none, some, List, [], ◌∷◌, arith,
  ◌==◌, if◌then◌else◌, Option-cases, ==_refl, ne→==, Bool-cases, update,
}
use chameleon_os.Base.Machine.{ok}
use chameleon_os.File.{Ftable, filealloc, Release, release_of}
use chameleon_os.File.Refs.{alloc_ref, close_ref, close_one}
use chameleon_os.Pipe.Alloc.{pipealloc, read_end, write_end}

-- The references that a result of `pipealloc` adds to file `g`.
abbrev pub new_refs : Option (ℕ × ℕ) → ℕ → ℕ
new_refs none g = 0
new_refs (some (f0, f1)) g = (if f0 == g then 1 else 0) + (if f1 == g then 1 else 0)

ends-ref :
    (t : Ftable) (f0 f1 p g : ℕ)
    → (let t1 = update t f0 (read_end (t f0) p) in (update t1 f1 (write_end (t1 f1) p) g).ref)
      ≡ (t g).ref
ends-ref t f0 f1 p g = elim (Bool-cases (f1 == g)) [
  | inl q ↦ elim (Bool-cases (f0 == f1)) [
    | inl q' ↦ let e : f0 ≡ g = ground (arith, q, q') in rw (q, q') (ap (λ f. (t f).ref) e)
    | inr q' ↦ let e : f1 ≡ g = ground (arith, q) in rw (q, q') (ap (λ f. (t f).ref) e)
  ]
  | inr q ↦ elim (Bool-cases (f0 == g)) [
    | inl q' ↦ let e : f0 ≡ g = ground (arith, q') in rw (q, q') (ap (λ f. (t f).ref) e)
    | inr q' ↦ rw (q, q') refl
  ]
]

-- On every way out, errors included, `pipealloc` does not panic; if it returns -1, each file `g` has
-- the references that it had before, and if not, one more for each of the two files.
pub pipealloc_lem :
    (t : Ftable) (page : Option ℕ) (g : ℕ)
    → (t' : Ftable) × (files : Option (ℕ × ℕ)) × (released : List Release) × (pipealloc t page
        ≡ ok (t', files, released))
      × ((t' g).ref ≡ new_refs files g + (t g).ref)
unfolding pipealloc
pipealloc_lem t page g = elim (Option-cases (filealloc t)) [
  | inl n ↦ (t, none, [], rw (pipealloc, n) refl, omega arith)
  | inr ((f0, t0), e0) ↦
      let (z0, r0) = alloc_ref t t0 f0 e0 in
      elim (Option-cases (filealloc t0)) [
        | inl n ↦
            let (t1, c) = close_one t0 f0 (r0 f0 ∙ rw (==_refl f0, z0) refl) in
            let back = (close_ref t0 t1 f0 _ c).0 g in
            (
              t1,
              none,
              release_of (t0 f0) ∷ [],
              rw (pipealloc, e0, n, c) refl,
              omega (arith, sym back ∙ r0 g),
            )
        | inr ((f1, t1), e1) ↦
            let (z1, r1) = alloc_ref t0 t1 f1 e1 in
            let one : (t0 f0).ref ≡ 1 = r0 f0 ∙ rw (==_refl f0, z0) refl in
            let differ : f1 ≢ f0 = λ e. omega (arith, one, z1, ap (λ f. (t0 f).ref) e) in
            let apart : (f1 == f0) ≡ false = ne→== _ _ differ in
            let apart' : (f0 == f1) ≡ false = ne→== _ _ (λ e. differ (sym e)) in
            elim page
              as (λ o.
                (t' : Ftable) × (files : Option (ℕ × ℕ)) × (released : List Release) × (pipealloc t
                    o
                  ≡ ok (t', files, released))
                × ((t' g).ref ≡ new_refs files g + (t g).ref)) [
                  | some p ↦
                      let t2 = update t1 f0 (read_end (t1 f0) p) in
                      (
                        update t2 f1 (write_end (t2 f1) p),
                        some (f0, f1),
                        [],
                        rw (pipealloc, e0, e1) refl,
                        ends-ref t1 f0 f1 p g ∙ omega (arith, r1 g, r0 g),
                      )
                  | none ↦
                      let (t2, c) = close_one t1 f0 (r1 f0 ∙ rw (apart, one) refl) in
                      let b0 = (close_ref t1 t2 f0 _ c).0 in
                      let still : (t2 f1).ref ≡ 1 =
                        omega (arith, rw apart' at (b0 f1), rw (==_refl f1, z1) at (r1 f1)) in
                      let (t3, c') = close_one t2 f1 still in
                      let b1 = (close_ref t2 t3 f1 _ c').0 in
                      (
                        t3,
                        none,
                        release_of (t1 f0) ∷ release_of (t2 f1) ∷ [],
                        rw (pipealloc, e0, e1, c, c') refl,
                        omega (arith, b1 g, b0 g, r1 g, r0 g),
                      )
                ]
      ]
]
