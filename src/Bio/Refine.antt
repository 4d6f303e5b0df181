-- ===== src/Bio/Refine.antt =====
-- bio.c against the abstract store: what the cache pins, and what a read through it sees.
use chameleon_os.Base.{
  ℕ, ◌≡◌, refl, inl, inr, Bool, true, false, ◌&&◌, Option, none, some, arith, ◌==◌, elem, update,
  Bool-cases, Option-cases,
}
use chameleon_os.Store.{Block, Store}
use chameleon_os.Bio.{Buf, Cache, set_buf, find_buf, is_for}
use chameleon_os.Bio.Scan.{find_buf-some, find_buf-none, find_buf-ext}

abbrev pub dirty_for : ℕ → Buf → Bool
dirty_for x y = is_for 1 x y && y.dirty

unfoldable pub pinned : Cache → ℕ → Option Block
pinned c x = elim (find_buf (dirty_for x) c.buf c.order) [
  | none ↦ none
  | some b ↦ some (c.buf b).content
]

-- The store that a cache of disk 1 stands for.
abbrev pub abs : Cache → Store
abs c = record { disk = c.disk; pinned = pinned c; power = c.power }

-- At most one buffer for a block; an unlocked clean buffer has what the disk has; B_DIRTY is set on
-- valid buffers only.
pub record IsOk (c : Cache) : Type 0 where
  pub unique :
      (x a b : ℕ)
      → elem a c.order ≡ true
      → elem b c.order ≡ true
      → is_for 1 x (c.buf a) ≡ true
      → is_for 1 x (c.buf b) ≡ true
      → a ≡ b
  pub clean :
      (x b : ℕ)
      → elem b c.order ≡ true
      → is_for 1 x (c.buf b) ≡ true
      → (c.buf b).valid ≡ true
      → (c.buf b).dirty ≡ false
      → (c.buf b).holder ≡ none
      → (c.buf b).content ≡ c.disk x
  pub read_first : (b : ℕ) → elem b c.order ≡ true → (c.buf b).dirty ≡ true → (c.buf b).valid ≡ true

pub pinned-set_buf :
    (c : Cache) (b : ℕ) (y : Buf) (x : ℕ)
    → dirty_for x y ≡ dirty_for x (c.buf b)
    → (dirty_for x (c.buf b) ≡ true → y.content ≡ (c.buf b).content)
    → pinned (set_buf c b y) x ≡ pinned c x
unfolding pinned
pinned-set_buf c b y x same content =
    let f = find_buf-ext (dirty_for x) c.buf (update c.buf b y) c.order (λ a e.
      elim (Bool-cases (b == a)) [ inl q ↦ ground (arith, q, same) | inr q ↦ ground (arith, q) ]) in
    elim (Option-cases (find_buf (dirty_for x) c.buf c.order)) [
      | inl n ↦ rw (pinned, f, n) refl
      | inr (a, s) ↦
          let (i, j) = find_buf-some (dirty_for x) c.buf c.order a s in
          rw (pinned, f, s)
            (elim (Bool-cases (b == a)) [
              | inl q ↦ ground (arith, q, j, content)
              | inr q ↦ rw q refl
            ])
    ]

pub pinned_dirty :
    (c : Cache) (x b : ℕ)
    → IsOk c
    → elem b c.order ≡ true
    → is_for 1 x (c.buf b) ≡ true
    → (c.buf b).dirty ≡ true
    → pinned c x ≡ some (c.buf b).content
unfolding pinned
pinned_dirty c x b o e f d = elim (Option-cases (find_buf (dirty_for x) c.buf c.order)) [
  | inl n ↦ absurd (ground (arith, find_buf-none (dirty_for x) c.buf c.order b n e))
  | inr (a, s) ↦
      let (i, j) = find_buf-some (dirty_for x) c.buf c.order a s in
      rw (pinned, s, o.unique x a b i e (ground (arith, j)) f) refl
]

pub pinned_clean :
    (c : Cache) (x b : ℕ)
    → IsOk c
    → elem b c.order ≡ true
    → is_for 1 x (c.buf b) ≡ true
    → (c.buf b).dirty ≡ false
    → pinned c x ≡ none
unfolding pinned
pinned_clean c x b o e f d = elim (Option-cases (find_buf (dirty_for x) c.buf c.order)) [
  | inl n ↦ rw (pinned, n) refl
  | inr (a, s) ↦
      let (i, j) = find_buf-some (dirty_for x) c.buf c.order a s in
      absurd (ground (arith, j, o.unique x a b i e (ground (arith, j)) f))
]
