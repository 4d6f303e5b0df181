-- ===== src/Bio/Scan.antt =====
-- The scans of bio.c over the list of buffers.
use chameleon_os.Base.{
  ℕ, ◌≡◌, refl, inl, inr, Bool, true, false, none, some, List, [], ◌∷◌, arith, ◌==◌, elem,
  elem-append, Bool-cases,
}
use chameleon_os.Bio.{Buf, find_buf, backwards, remove}

pub find_buf-some :
    (test : Buf → Bool) (buf : ℕ → Buf) (bs : List ℕ) (b : ℕ)
    → find_buf test buf bs ≡ some b
    → (elem b bs ≡ true) × (test (buf b) ≡ true)
unfolding find_buf
find_buf-some test buf [] b h = absurd (cc)
find_buf-some test buf (x ∷ xs) b h = elim (Bool-cases (test (buf x))) [
  | inl y ↦ ground (arith, y, rw y at h)
  | inr n ↦ ground (arith, n, find_buf-some test buf xs b (rw n at h))
]

pub find_buf-none :
    (test : Buf → Bool) (buf : ℕ → Buf) (bs : List ℕ) (b : ℕ)
    → find_buf test buf bs ≡ none
    → elem b bs ≡ true
    → test (buf b) ≡ false
unfolding find_buf
find_buf-none test buf [] b h e = absurd (cc)
find_buf-none test buf (x ∷ xs) b h e = elim (Bool-cases (test (buf x))) [
  | inl y ↦ cc (rw y at h)
  | inr n ↦ elim (Bool-cases (x == b)) [
    | inl q ↦ ground (arith, n, q)
    | inr q ↦ find_buf-none test buf xs b (rw n at h) (rw q at e)
  ]
]

pub find_buf-ext :
    (test : Buf → Bool) (buf buf' : ℕ → Buf) (bs : List ℕ)
    → ((b : ℕ) → elem b bs ≡ true → test (buf' b) ≡ test (buf b))
    → find_buf test buf' bs ≡ find_buf test buf bs
unfolding find_buf
find_buf-ext test buf buf' [] h = refl
find_buf-ext test buf buf' (x ∷ xs) h =
    rw (h x (ground arith), find_buf-ext test buf buf' xs (λ b e. h b (ground (arith, e)))) refl

pub elem-backwards : (b : ℕ) (bs : List ℕ) → elem b (backwards bs) ≡ elem b bs
unfolding backwards
elem-backwards b [] = refl
elem-backwards b (x ∷ xs) =
    ground (arith, elem-backwards b xs, elem-append b (backwards xs) (x ∷ []))

-- Moving a buffer to the front keeps the set of buffers.
pub elem-front : (a b : ℕ) (bs : List ℕ) → elem b bs ≡ true → elem a (b ∷ remove b bs) ≡ elem a bs
unfolding remove
elem-front a b [] h = absurd (cc)
elem-front a b (x ∷ xs) h = elim (Bool-cases (x == b)) [
  | inl y ↦ rw y (ground (arith, y))
  | inr n ↦ rw n (ground (arith, elem-front a b xs (rw n at h)))
]
