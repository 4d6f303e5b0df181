-- ===== src/Bio/Keeps.antt =====
-- Changes of one buffer that the abstract store does not see.
use chameleon_os.Base.{
  ℕ, ◌≡◌, refl, ◌∙◌, inl, inr, true, false, none, arith, ◌==◌, elem, Bool-cases,
}
use chameleon_os.Bio.{Buf, Cache, set_buf, is_for}
use chameleon_os.Bio.Refine.{IsOk, pinned, dirty_for, pinned-set_buf}

pub set_buf-IsOk :
    (c : Cache) (b : ℕ) (y : Buf)
    → IsOk c
    → ((x a : ℕ)
        → elem a c.order ≡ true
        → is_for 1 x (c.buf a) ≡ true
        → is_for 1 x y ≡ true
        → a ≡ b)
    → ((x : ℕ)
        → is_for 1 x y ≡ true
        → y.valid ≡ true
        → y.dirty ≡ false
        → y.holder ≡ none
        → y.content ≡ c.disk x)
    → (y.dirty ≡ true → y.valid ≡ true)
    → IsOk (set_buf c b y)
set_buf-IsOk c b y o only clean first = record {
  unique = λ x a a' e e' f f'. elim (Bool-cases (b == a)) [
    | inl q ↦ elim (Bool-cases (b == a')) [
      | inl q' ↦ ground (arith, q, q')
      | inr n' ↦ ground (arith, q, n', only x a' e')
    ]
    | inr n ↦ elim (Bool-cases (b == a')) [
      | inl q' ↦ ground (arith, n, q', only x a e)
      | inr n' ↦ ground (arith, n, n', o.unique x a a' e e')
    ]
  ];
  clean = λ x a e f v d h. elim (Bool-cases (b == a)) [
    | inl q ↦ rw q (clean x (rw q at f) (rw q at v) (rw q at d) (rw q at h))
    | inr n ↦ rw n (o.clean x a e (rw n at f) (rw n at v) (rw n at d) (rw n at h))
  ];
  read_first = λ a e d. elim (Bool-cases (b == a)) [
    | inl q ↦ rw q (first (rw q at d))
    | inr n ↦ rw n (o.read_first a e (rw n at d))
  ];
}

-- What a step leaves as it was: all that the abstract store sees, and the list.
pub record Keeps (c c' : Cache) : Type 0 where
  pub ok_after : IsOk c'
  pub order_same : c'.order ≡ c.order
  pub disk_same : c'.disk ≡ c.disk
  pub power_same : c'.power ≡ c.power
  pub size_same : c'.disksize ≡ c.disksize
  pub pinned_same : (x : ℕ) → pinned c' x ≡ pinned c x

pub set_buf-Keeps :
    (c : Cache) (b : ℕ) (y : Buf)
    → IsOk (set_buf c b y)
    → ((x : ℕ) → dirty_for x y ≡ dirty_for x (c.buf b))
    → ((c.buf b).dirty ≡ true → y.content ≡ (c.buf b).content)
    → Keeps c (set_buf c b y)
set_buf-Keeps c b y o same content = record {
  ok_after = o;
  order_same = refl;
  disk_same = refl;
  power_same = refl;
  size_same = refl;
  pinned_same = λ x. pinned-set_buf c b y x (same x) (λ d. content (ground (arith, d)));
}

pub Keeps-refl : (c : Cache) → IsOk c → Keeps c c
Keeps-refl c o = record {
  ok_after = o;
  order_same = refl;
  disk_same = refl;
  power_same = refl;
  size_same = refl;
  pinned_same = λ x. refl;
}

pub Keeps-trans : (c c' c'' : Cache) → Keeps c c' → Keeps c' c'' → Keeps c c''
Keeps-trans c c' c'' k l = record {
  ok_after = l.ok_after;
  order_same = l.order_same ∙ k.order_same;
  disk_same = l.disk_same ∙ k.disk_same;
  power_same = l.power_same ∙ k.power_same;
  size_same = l.size_same ∙ k.size_same;
  pinned_same = λ x. l.pinned_same x ∙ k.pinned_same x;
}
