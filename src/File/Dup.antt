-- ===== src/File/Dup.antt =====
-- `fileclose` of file.c takes back what `filedup` and `filealloc` did.
use chameleon_os.Base.{
  ℕ, ◌+◌, ◌-◌, ◌≡◌, refl, sym, ◌∙◌, ap, ap₂, subst, inl, inr, true, false, arith, ltb, Bool-cases,
  some, some-injective, Option-cases, update, update_self, update_twice, update_back, ◌<◌,
}
use chameleon_os.Base.Machine.{ok, ok-injective}
use chameleon_os.File.Refs.{alloc_ref}
use chameleon_os.File.{
  File, fd_none, Ftable, nfile, find_free, filealloc, filedup, fileclose, nothing,
}

-- `fileclose` of a file that has other references.
fileclose-shared :
    (t : Ftable) (f n : ℕ)
    → (t f).ref ≡ n + 1
    → 0 < n
    → fileclose t f ≡ ok (update t f (record (t f) { ref = n }), nothing)
unfolding fileclose
fileclose-shared t f n h lt =
    let one : ltb (t f).ref 1 ≡ false = ground (arith, h) in
    let more : ltb 0 ((t f).ref - 1) ≡ true = ground (arith, h, lt) in
    let left : (t f).ref - 1 ≡ n = omega (arith, h) in rw (fileclose, one, more, left) refl

-- A file that `filedup` has counted once more is as before when it is closed, and nothing is released.
pub fileclose-filedup :
    (t t1 : Ftable) (f : ℕ) → filedup t f ≡ ok t1 → fileclose t1 f ≡ ok (t, nothing)
unfolding filedup
fileclose-filedup t t1 f e = elim (Bool-cases (ltb (t f).ref 1)) [
  | inl q ↦ absurd (cc (rw (filedup, q) at e))
  | inr q ↦
      let up = update t f (record (t f) { ref = (t f).ref + 1 }) in
      let here : up f ≡ record (t f) { ref = (t f).ref + 1 } = update_self t f _ in
      let back : update up f (record (up f) { ref = (t f).ref }) ≡ t =
        update_twice t f _ _
        ∙ update_back t f _ (ap (λ (x : File). record x { ref = (t f).ref }) here) in
      subst (λ (t1 : Ftable). fileclose t1 f ≡ ok (t, nothing))
        (ok-injective (rw (filedup, q) at e))
        (fileclose-shared up f (t f).ref (ap (λ (x : File). x.ref) here) (ground (arith, q))
          ∙ ap (λ (t : Ftable). ok (t, nothing)) back)
]

-- `fileclose` of a file without type that has one reference.
fileclose-one :
    (t : Ftable) (f : ℕ)
    → (t f).ref ≡ 1
    → (t f).type ≡ fd_none
    → fileclose t f ≡ ok (update t f (record (t f) { ref = 0; type = fd_none }), nothing)
unfolding fileclose
fileclose-one t f h e = rw (fileclose, h, e) refl

-- So is a file that `filealloc` has given, when free entries have no type.
pub fileclose-filealloc :
    (t t1 : Ftable) (f : ℕ)
    → ((g : ℕ) → (t g).ref ≡ 0 → (t g).type ≡ fd_none)
    → filealloc t ≡ some (f, t1)
    → fileclose t1 f ≡ ok (t, nothing)
unfolding filealloc fileclose
fileclose-filealloc t t1 f h e =
    let zero = (alloc_ref t t1 f e).0 in
    let untyped = h f zero in
    elim (Option-cases (find_free t 0 nfile)) [
      | inl q ↦ absurd (cc (rw (filealloc, q) at e))
      | inr (g, q) ↦
          let end = some-injective (rw (filealloc, q) at e) in
          let same : g ≡ f = ap (λ (x : ℕ × Ftable). x.0) end in
          let up = update t f (record (t f) { ref = 1 }) in
          let here : up f ≡ record (t f) { ref = 1 } = update_self t f _ in
          let after : up ≡ t1 =
            ap (λ g. update t g (record (t g) { ref = 1 })) (sym same)
            ∙ ap (λ (x : ℕ × Ftable). x.1) end in
          let undo : File → File = λ x. record x { ref = 0; type = fd_none } in
          let back : update up f (undo (up f)) ≡ t =
            update_twice t f _ _
            ∙ update_back t f _ (
                ap undo here
                ∙ sym (ap₂ (λ r y. record (t f) { ref = r; type = y }) zero untyped)) in
          subst (λ (t1 : Ftable). fileclose t1 f ≡ ok (t, nothing)) after
            (fileclose-one up f (ap (λ (x : File). x.ref) here)
                (ap (λ (x : File). x.type) here ∙ untyped)
              ∙ ap (λ (t : Ftable). ok (t, nothing)) back)
    ]
