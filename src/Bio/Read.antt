-- ===== src/Bio/Read.antt =====
-- `bread` against the abstract store.
use chameleon_os.Base.{
  if◌then◌else◌, ℕ, ◌≡◌, refl, subst, sym, ◌∙◌, inl, inr, ap, true, false, none, some, arith, ◌==◌,
  elem, Bool-cases, Option-cases, ==_refl, leb,
}
use chameleon_os.Base.Machine.{Run, ok, panic, ◌>>=◌, ok-injective, Run-cases}
use chameleon_os.Store.{Block, Store, pick}
use chameleon_os.Store
use chameleon_os.Bio.{
  Buf, Cache, Got, got, asleep, set_buf, is_for, claim, holds, acquiresleep, bget, iderw, bread,
}
use chameleon_os.Bio.Refine.{IsOk, abs, pinned_dirty, pinned_clean}
use chameleon_os.Bio.Keeps.{Keeps, set_buf-IsOk, set_buf-Keeps, Keeps-refl, Keeps-trans}
use chameleon_os.Bio.Claim.{Found, claim_lem}

-- What a reader that gets a buffer has: the lock, and the contents that the abstract store gives.
pub record Reads (c : Cache) (pid x : ℕ) (c' : Cache) (b : ℕ) : Type 0 where
  pub found : Found c x c' b
  pub locked : (c'.buf b).holder ≡ some pid
  pub is_valid : (c'.buf b).valid ≡ true
  pub right : (c'.buf b).content ≡ Store.bread (abs c) x

abbrev pub lock_buf : Cache → ℕ → ℕ → Cache
lock_buf c pid b = set_buf c b (record (c.buf b) { holder = some pid })

pub lock_buf-Found :
    (c : Cache) (pid x b : ℕ)
    → IsOk c
    → elem b c.order ≡ true
    → is_for 1 x (c.buf b) ≡ true
    → Found c x (lock_buf c pid b) b
lock_buf-Found c pid x b o e f = record {
  keeps =
      set_buf-Keeps c b (record (c.buf b) { holder = some pid })
        (set_buf-IsOk c b (record (c.buf b) { holder = some pid }) o
          (λ y a e' f' g. o.unique y a b e' e f' g) (λ y g v d h. absurd (cc)) (o.read_first b e))
        (λ y. refl) (λ d. refl);
  listed = e;
  for_block = rw (==_refl b) f;
}

pub valid_right :
    (c : Cache) (x b : ℕ)
    → IsOk c
    → elem b c.order ≡ true
    → is_for 1 x (c.buf b) ≡ true
    → (c.buf b).valid ≡ true
    → (c.buf b).holder ≡ none
    → (c.buf b).content ≡ Store.bread (abs c) x
valid_right c x b o e f v h = elim (Bool-cases (c.buf b).dirty) [
  | inl d ↦ rw (pinned_dirty c x b o e f d) refl
  | inr d ↦ rw (pinned_clean c x b o e f d) (o.clean x b e f v d h)
]

abbrev pub read_in : Cache → ℕ → Cache
read_in c b = set_buf c b (record (c.buf b) { content = c.disk (c.buf b).blockno; valid = true })

pub for_blockno : (x : ℕ) (y : Buf) → is_for 1 x y ≡ true → y.blockno ≡ x
for_blockno x y h = ground (arith, h)

pub read_in-Found :
    (c : Cache) (x b : ℕ)
    → IsOk c
    → elem b c.order ≡ true
    → is_for 1 x (c.buf b) ≡ true
    → (c.buf b).valid ≡ false
    → Found c x (read_in c b) b × ((read_in c b).buf b).content ≡ Store.bread (abs c) x
read_in-Found c x b o e f v =
    let y = record (c.buf b) { content = c.disk (c.buf b).blockno; valid = true } in
    elim (Bool-cases (c.buf b).dirty) [
      | inl d ↦ absurd (ground (arith, o.read_first b e d, v))
      | inr d ↦ (
        record {
          keeps =
              set_buf-Keeps c b y
                (set_buf-IsOk c b y o (λ z a e' f' g. o.unique z a b e' e f' g)
                  (λ z g v' d' h. ap c.disk (for_blockno z (c.buf b) g)) (λ d'. refl))
                (λ z. refl) (λ d'. absurd (ground (arith, d, d')));
          listed = e;
          for_block = rw (==_refl b) f;
        },
        rw (==_refl b, pinned_clean c x b o e f d) (ap c.disk (for_blockno x (c.buf b) f)),
      )
    ]

pub iderw_read :
    (c c' : Cache) (pid b : ℕ) → (c.buf b).dirty ≡ false → iderw c pid b ≡ ok c' → c' ≡ read_in c b
unfolding iderw
iderw_read c c' pid b d h = elim (Bool-cases (holds pid (c.buf b))) [
  | inl a1 ↦ elim (Bool-cases (c.buf b).valid) [
    | inl a2 ↦ absurd (cc (rw (iderw, a1, a2, d) at h))
    | inr a2 ↦ elim (Bool-cases ((c.buf b).dev == 1)) [
      | inl a3 ↦ elim (Bool-cases (leb c.disksize (c.buf b).blockno)) [
        | inl a4 ↦ absurd (cc (rw (iderw, a1, a2, a3, a4) at h))
        | inr a4 ↦ rw d (sym (ok-injective (rw (iderw, a1, a2, a3, a4, d) at h)))
      ]
      | inr a3 ↦ absurd (cc (rw (iderw, a1, a2, a3) at h))
    ]
  ]
  | inr a1 ↦ absurd (cc (rw (iderw, a1) at h))
]

pub Found-trans : (c c' c'' : Cache) (x b : ℕ) → Keeps c c' → Found c' x c'' b → Found c x c'' b
Found-trans c c' c'' x b k f = record {
  keeps = Keeps-trans c c' c'' k f.keeps;
  listed = f.listed;
  for_block = f.for_block;
}

pub bread-Keeps :
    (c c' : Cache) (x : ℕ) → Keeps c c' → Store.bread (abs c') x ≡ Store.bread (abs c) x
bread-Keeps c c' x k = rw (k.pinned_same x, k.disk_same) refl

-- What `bread` comes back with: the block, or a place in the queue for the buffer that has it.
abbrev pub Outcome : Cache → ℕ → ℕ → Got → Type 0
Outcome c pid x (got c' b) = Reads c pid x c' b
Outcome c pid x (asleep c' b) = Found c x c' b

-- The end of `bread`, once `b` is locked.
abbrev pub fill : Cache → ℕ → ℕ → Run Got
fill c pid b = if (c.buf b).valid then ok (got c b) else (do c' ← iderw c pid b; ok (got c' b))

pub fill_valid : (c : Cache) (pid b : ℕ) → (c.buf b).valid ≡ true → fill c pid b ≡ ok (got c b)
fill_valid c pid b v = rw v refl

pub fill_read :
    (c c' : Cache) (pid b : ℕ)
    → (c.buf b).valid ≡ false
    → iderw c pid b ≡ ok c'
    → fill c pid b ≡ ok (got c' b)
fill_read c c' pid b v p = rw (v, p) refl

pub fill_panic :
    (c : Cache) (pid b : ℕ) → (c.buf b).valid ≡ false → iderw c pid b ≡ panic → fill c pid b ≡ panic
fill_panic c pid b v p = rw (v, p) refl

pub fill_lem :
    (c : Cache) (pid x b : ℕ) (g : Got)
    → IsOk c
    → elem b c.order ≡ true
    → is_for 1 x (c.buf b) ≡ true
    → (c.buf b).holder ≡ none
    → fill (lock_buf c pid b) pid b ≡ ok g
    → Outcome c pid x g
fill_lem c pid x b g o e f n h =
    let d = lock_buf c pid b in
    let l = lock_buf-Found c pid x b o e f in
    elim (Bool-cases (c.buf b).valid) [
      | inl v ↦
          subst (λ g'. Outcome c pid x g')
            (ok-injective (sym (fill_valid d pid b (rw (==_refl b) v)) ∙ h))
            (record {
              found = l;
              locked = rw (==_refl b) refl;
              is_valid = ground (arith, v);
              right = rw (==_refl b) (valid_right c x b o e f v n);
            })
      | inr v ↦
          let v' : (d.buf b).valid ≡ false = rw (==_refl b) v in
          elim (Run-cases (iderw d pid b)) [
            | inl p ↦ absurd (cc (sym (fill_panic d pid b v' p) ∙ h))
            | inr (d', p) ↦
                let (r, right) = read_in-Found d x b l.keeps.ok_after e l.for_block v' in
                let q = iderw_read d d' pid b (ground (arith, o.read_first b e, v)) p in
                subst (λ g'. Outcome c pid x g')
                  (ok-injective (sym (fill_read d (read_in d b) pid b v' (p ∙ ap ok q)) ∙ h))
                  (record {
                    found = Found-trans c d (read_in d b) x b l.keeps r;
                    locked = rw (==_refl b) refl;
                    is_valid = rw (==_refl b) refl;
                    right = right ∙ bread-Keeps c d x l.keeps;
                  })
          ]
    ]

pub Outcome-trans :
    (c c' : Cache) (pid x : ℕ) (g : Got) → Keeps c c' → Outcome c' pid x g → Outcome c pid x g
Outcome-trans c c' pid x (got d b) k r = record {
  found = Found-trans c c' d x b k r.found;
  locked = r.locked;
  is_valid = r.is_valid;
  right = r.right ∙ bread-Keeps c c' x k;
}
Outcome-trans c c' pid x (asleep d b) k r = Found-trans c c' d x b k r

pub bread-Outcome :
    (c : Cache) (pid x : ℕ) (g : Got) → IsOk c → bread c pid 1 x ≡ ok g → Outcome c pid x g
unfolding bread bget acquiresleep
bread-Outcome c pid x g o h = elim (Run-cases (claim c 1 x)) [
  | inl p ↦ absurd (cc (rw (bread, bget, p) at h))
  | inr ((d, b), p) ↦
      let f = claim_lem c d x b o p in
      Outcome-trans c d pid x g f.keeps (elim (Option-cases (d.buf b).holder) [
        | inl n ↦
            fill_lem d pid x b g f.keeps.ok_after f.listed f.for_block n
              (rw (bread, bget, acquiresleep, p, n) at h)
        | inr (q, n) ↦
            subst (λ g'. Outcome d pid x g')
              (ok-injective (rw (bread, bget, acquiresleep, p, n) at h))
              (record {
                keeps = Keeps-refl d f.keeps.ok_after;
                listed = f.listed;
                for_block = f.for_block;
              })
      ])
]
