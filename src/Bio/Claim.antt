-- ===== src/Bio/Claim.antt =====
-- `claim`, the part of `bget` under `bcache.lock`, against the abstract store.
use chameleon_os.Base.{
  ℕ, ◌≡◌, refl, subst, sym, ◌∙◌, inl, inr, true, false, none, arith, elem, Option-cases, ==_refl,
}
use chameleon_os.Base.Machine.{uint_add, ok, ok-injective}
use chameleon_os.Bio.{Cache, set_buf, find_buf, is_for, is_free, claim, backwards}
use chameleon_os.Bio.Scan.{find_buf-some, find_buf-none, elem-backwards}
use chameleon_os.Bio.Refine.{IsOk}
use chameleon_os.Bio.Keeps.{Keeps, set_buf-IsOk, set_buf-Keeps}

-- `b` is a buffer of the list for block `x`, and nothing else has changed.
pub record Found (c : Cache) (x : ℕ) (c' : Cache) (b : ℕ) : Type 0 where
  pub keeps : Keeps c c'
  pub listed : elem b c'.order ≡ true
  pub for_block : is_for 1 x (c'.buf b) ≡ true

pub claim_held :
    (c : Cache) (x a : ℕ)
    → IsOk c
    → elem a c.order ≡ true
    → is_for 1 x (c.buf a) ≡ true
    → Found c x (set_buf c a (record (c.buf a) { refcnt = uint_add (c.buf a).refcnt 1 })) a
claim_held c x a o e f = record {
  keeps =
      set_buf-Keeps c a (record (c.buf a) { refcnt = uint_add (c.buf a).refcnt 1 })
        (set_buf-IsOk c a (record (c.buf a) { refcnt = uint_add (c.buf a).refcnt 1 }) o
          (λ y a' e' f' g. o.unique y a' a e' e f' g) (λ y g v d h. o.clean y a e g v d h)
          (o.read_first a e))
        (λ y. refl) (λ d. refl);
  listed = e;
  for_block = rw (==_refl a) f;
}

pub claim_free :
    (c : Cache) (x a : ℕ)
    → IsOk c
    → find_buf (is_for 1 x) c.buf c.order ≡ none
    → elem a c.order ≡ true
    → is_free (c.buf a) ≡ true
    → Found c x
        (set_buf c a
          (record (c.buf a) { dev = 1; blockno = x; valid = false; dirty = false; refcnt = 1 }))
        a
claim_free c x a o n e f =
    let y = record (c.buf a) { dev = 1; blockno = x; valid = false; dirty = false; refcnt = 1 } in
    record {
      keeps =
          set_buf-Keeps c a y
            (set_buf-IsOk c a y o
              (λ z a' e' f' g.
                absurd (ground (arith, g, f', find_buf-none (is_for 1 x) c.buf c.order a' n e')))
              (λ z g v d h. absurd (cc)) (λ d. absurd (cc)))
            (λ z. ground (arith, f)) (λ d. absurd (ground (arith, f, d)));
      listed = e;
      for_block = ground (arith);
    }

pub claim_lem : (c c' : Cache) (x b : ℕ) → IsOk c → claim c 1 x ≡ ok (c', b) → Found c x c' b
unfolding claim
claim_lem c c' x b o h = elim (Option-cases (find_buf (is_for 1 x) c.buf c.order)) [
  | inl n ↦ elim (Option-cases (find_buf is_free c.buf (backwards c.order))) [
    | inl n' ↦ absurd (cc (rw (claim, n, n') at h))
    | inr (a, s) ↦
        let (e, f) = find_buf-some is_free c.buf (backwards c.order) a s in
        subst (λ (c1, b1). Found c x c1 b1) (ok-injective (rw (claim, n, s) at h))
          (claim_free c x a o n (sym (elem-backwards a c.order) ∙ e) f)
  ]
  | inr (a, s) ↦
      let (e, f) = find_buf-some (is_for 1 x) c.buf c.order a s in
      subst (λ (c1, b1). Found c x c1 b1) (ok-injective (rw (claim, s) at h))
        (claim_held c x a o e f)
]
