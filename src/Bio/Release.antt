-- ===== src/Bio/Release.antt =====
-- `brelse` against the abstract store.
use chameleon_os.Base.{
  ℕ, ◌≡◌, refl, sym, ◌∙◌, inl, inr, ap, true, false, none, List, arith, elem, Option-cases,
}
use chameleon_os.Base.Machine.{uint_sub}
use chameleon_os.Bio.{Cache, set_buf, find_buf, is_for}
use chameleon_os.Bio.Scan.{find_buf-some, find_buf-none}
use chameleon_os.Bio.Refine.{IsOk, pinned, dirty_for, pinned_dirty}
use chameleon_os.Bio.Keeps.{Keeps, set_buf-IsOk, set_buf-Keeps}
use chameleon_os.Bio.Read.{for_blockno}

pub reorder-IsOk :
    (c : Cache) (order : List ℕ)
    → ((a : ℕ) → elem a order ≡ elem a c.order)
    → IsOk c
    → IsOk (record c { order = order })
reorder-IsOk c order same o = record {
  unique = λ x a b e e'. o.unique x a b (sym (same a) ∙ e) (sym (same b) ∙ e');
  clean = λ x b e. o.clean x b (sym (same b) ∙ e);
  read_first = λ b e. o.read_first b (sym (same b) ∙ e);
}

pub pinned-reorder :
    (c : Cache) (order : List ℕ) (x : ℕ)
    → ((a : ℕ) → elem a order ≡ elem a c.order)
    → IsOk c
    → pinned (record c { order = order }) x ≡ pinned c x
unfolding pinned
pinned-reorder c order x same o =
    let c' = record c { order = order } in
    elim (Option-cases (find_buf (dirty_for x) c.buf order)) [
      | inl n ↦ elim (Option-cases (find_buf (dirty_for x) c.buf c.order)) [
        | inl m ↦ rw (pinned, n, m) refl
        | inr (a, s) ↦
            let (i, j) = find_buf-some (dirty_for x) c.buf c.order a s in
            absurd (ground (arith, j, find_buf-none (dirty_for x) c.buf order a n (same a ∙ i)))
      ]
      | inr (a, s) ↦
          let (i, j) = find_buf-some (dirty_for x) c.buf order a s in
          let f : is_for 1 x (c.buf a) ≡ true = ground (arith, j) in
          let d : (c.buf a).dirty ≡ true = ground (arith, j) in
          pinned_dirty c' x a (reorder-IsOk c order same o) i f d
          ∙ sym (pinned_dirty c x a o (sym (same a) ∙ i) f d)
    ]

abbrev pub unlock : Cache → ℕ → Cache
unlock c b = set_buf c b (record (c.buf b) { holder = none; refcnt = uint_sub (c.buf b).refcnt 1 })

pub unlock-Keeps :
    (c : Cache) (x b : ℕ)
    → IsOk c
    → elem b c.order ≡ true
    → is_for 1 x (c.buf b) ≡ true
    → ((c.buf b).valid ≡ true → (c.buf b).dirty ≡ false → (c.buf b).content ≡ c.disk x)
    → Keeps c (unlock c b)
unlock-Keeps c x b o e f w =
    let y = record (c.buf b) { holder = none; refcnt = uint_sub (c.buf b).refcnt 1 } in
    set_buf-Keeps c b y
      (set_buf-IsOk c b y o (λ z a e' f' g. o.unique z a b e' e f' g)
        (λ z g v d h.
          w v d ∙ ap c.disk (sym (for_blockno x (c.buf b) f) ∙ for_blockno z (c.buf b) g))
        (o.read_first b e))
      (λ z. refl) (λ d. refl)
